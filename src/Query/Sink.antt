-- ===== src/Query/Sink.antt =====
-- The sinks of sink.go, which collect the records that a query selects.
use storm_rev.Base.{
  ℕ, suc, Bool, true, false, Option, none, some, List, [], ◌∷◌, ◌++◌, length, Error, Outcome, ok,
  err, not_found, ◌==◌, if◌then◌else◌, map,
}
use storm_rev.Base.Bytes.{Bytes}
use storm_rev.Value.{Fields, Host}

-- An item: the key and the raw record.
abbrev pub Item : Type 0
Item = Bytes × Bytes

-- The read-only sinks: listSink (results, idx), firstSink (the caller's target, and found),
-- countSink, rawSink (results, or the callback with the items that it was handed) and eachSink.
-- A callback answers with the error that it returns.
pub data Sink (F : Type 0) : Type 0 where
  list_sink : List Bytes → ℕ → Sink F
  first_sink : Fields F → Bool → Sink F
  count_sink : ℕ → Sink F
  raw_sink : List Bytes → Sink F
  raw_each : (Bytes → Bytes → Option Error) → List Item → Sink F
  each_sink : (Fields F → Option Error) → List (Fields F) → Sink F

-- What a query hands back: the decoded list of Find, the record of First, the number of Count,
-- the raw records of Raw, or nothing more than the callbacks' effects.
pub data Answer (F : Type 0) : Type 0 where
  records : List (Fields F) → Answer F
  record_found : Fields F → Answer F
  number : ℕ → Answer F
  raws : List Bytes → Answer F
  done : Answer F

abbrev finish {ℓ} : {A : Type ℓ} → Option Error → A → Outcome A
finish none a = ok a
finish (some e) a = err e

module _ (H : Host) where
  open H use {Float, decode, decode_onto}

  each_decoded :
      (Fields Float → Option Error)
      → List (Fields Float)
      → Fields Float × Option Error
      → Outcome (Sink Float)
  each_decoded fn seen (value, some e) = err e
  each_decoded fn seen (value, none) = finish (fn value) (each_sink fn (seen ++ value ∷ []))

  -- add of each sink; firstSink drops the decoding error
  unfoldable pub sink_add : Item → Sink Float → Outcome (Sink Float)
  unfolding each_decoded
  sink_add (k, v) (list_sink results idx) =
      ok (list_sink (if idx == length results then results ++ v ∷ [] else results) (suc idx))
  sink_add (k, v) (first_sink target found) = ok (first_sink (decode_onto target v) true)
  sink_add (k, v) (count_sink n) = ok (count_sink (suc n))
  sink_add (k, v) (raw_sink results) = ok (raw_sink (results ++ v ∷ []))
  sink_add (k, v) (raw_each fn seen) = finish (fn k v) (raw_each fn (seen ++ (k, v) ∷ []))
  sink_add (k, v) (each_sink fn seen) = each_decoded fn seen (decode v)

  -- flush of each sink; listSink drops the decoding errors
  unfoldable pub sink_flush : Sink Float → Outcome (Answer Float)
  sink_flush (list_sink [] idx) = err not_found
  sink_flush (list_sink (v ∷ vs) idx) = ok (records (map (λ raw. (decode raw).0) (v ∷ vs)))
  sink_flush (first_sink target false) = err not_found
  sink_flush (first_sink target true) = ok (record_found target)
  sink_flush (count_sink n) = ok (number n)
  sink_flush (raw_sink results) = ok (raws results)
  sink_flush (raw_each fn seen) = ok done
  sink_flush (each_sink fn seen) = ok done

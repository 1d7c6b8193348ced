-- ===== src/Indexer/Coordinator.antt =====
-- bleve_batch.go: the attempts of processIndexRequests on one batch of requests.
pub mod Retry
pub mod Collect
use storm_rev.Base.{
  ℕ, suc, ◌+◌, Bool, true, false, ◌&&◌, Option, none, some, List, [], ◌∷◌, Error, leb,
  if◌then◌else◌,
}
use storm_rev.Indexer.Batch.{Docs, Request, mutations, rebuild, Engine, apply_requests}

-- What one attempt meets: the engine, the error of ackDurableIndexJobs, m.repair where there is one
-- (its error, and the documents that it leaves), and whether m.closing is closed before the timer fires.
pub record Attempt (D : Type 0) : Type 0 where
  pub engine : Engine D
  pub ack : Option Error
  pub repair : Option (Docs D → Option Error × Docs D)
  pub closing : Bool

-- How the loop ends, or that the attempts that are given do not end it.
pub data Ending : Type 0 where
  applied : Ending
  repaired : Ending
  failed : Error → Ending
  closed : Error → Ending
  unfinished : Ending

module _ {D : Type 0} where
  -- durableRequestsRepairable
  unfoldable pub durable_requests_repairable : List (Request D) → Bool
  durable_requests_repairable [] = true
  durable_requests_repairable (mutations saves deletes (t ∷ ts) ∷ reqs) = false
  durable_requests_repairable (mutations saves deletes [] ∷ reqs) = durable_requests_repairable reqs
  durable_requests_repairable (rebuild f ∷ reqs) = durable_requests_repairable reqs

  -- the acknowledgement of durable requests, after applyIndexRequests
  unfoldable pub acknowledge : Bool → Option Error → Option Error × Docs D → Option Error × Docs D
  acknowledge durable ack (some e, d) = (some e, d)
  acknowledge durable ack (none, d) = (if durable then ack else none, d)

  -- whether m.repair returned without an error
  abbrev pub repair_ended : Option Error × Docs D → Bool × Docs D
  repair_ended (none, d) = (true, d)
  repair_ended (some e, d) = (false, d)

  -- m.repair, from the third attempt on: whether it repaired the indexes
  unfoldable pub try_repair :
      ℕ → List (Request D) → Option (Docs D → Option Error × Docs D) → Docs D → Bool × Docs D
  unfolding durable_requests_repairable
  try_repair attempts reqs none docs = (false, docs)
  try_repair attempts reqs (some repair) docs =
      let result = repair_ended (repair docs) in
      if leb 3 attempts && durable_requests_repairable reqs then result else (false, docs)

  -- what follows a failed attempt of durable requests: the repair, or the wait before the next attempt
  unfoldable pub after_failure :
      Error → Bool → Bool × Docs D → (Docs D → Ending × Docs D) → Ending × Docs D
  after_failure e closing (true, d) next = (repaired, d)
  after_failure e closing (false, d) next =
      let more = next d in if closing then (closed e, d) else more

  -- the end of the loop, or what follows a failure
  unfoldable pub end_or_retry :
      Bool → Option Error × Docs D → (Error → Docs D → Ending × Docs D) → Ending × Docs D
  end_or_retry durable (none, d) retry = (applied, d)
  end_or_retry durable (some e, d) retry =
      let more = retry e d in if durable then more else (failed e, d)

  -- the loop of processIndexRequests, after a number of attempts
  unfoldable pub process_requests :
      Bool → ℕ → List (Attempt D) → List (Request D) → Docs D → Ending × Docs D
  unfolding acknowledge try_repair after_failure end_or_retry
  process_requests durable attempts [] reqs docs = (unfinished, docs)
  process_requests durable attempts (a ∷ later) reqs docs =
      end_or_retry durable (acknowledge durable a.ack (apply_requests a.engine reqs [] docs))
        (λ e d.
          after_failure e a.closing (try_repair (suc attempts) reqs a.repair d)
            (process_requests durable (suc attempts) later reqs))

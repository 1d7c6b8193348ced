-- ===== src/Query/Sorter.antt =====
-- The sorter of sink.go: filter, add and flush.
pub mod Feed
pub mod Paging
use storm_rev.Base.{
  ℕ, zero, suc, ◌+◌, ◌-◌, ◌≡◌, ℤ, pos, negsuc, Bool, true, false, ◌||◌, Option, none, some, List,
  [], ◌∷◌, ◌++◌, length, take, drop, Outcome, ok, err, panic, ◌>>=◌, ◌==◌, leb, ltb, if◌then◌else◌,
}
use storm_rev.Base.Bytes.{Bytes}
use storm_rev.Value.{Fields, Host}
use storm_rev.Q.Field.{raw}
use storm_rev.Q.Tree.{Matcher, match_value}
use storm_rev.Query.Order.{less}
use storm_rev.Query.Sink.{
  Sink, list_sink, first_sink, count_sink, raw_sink, raw_each, each_sink, Item, Answer, sink_add,
  sink_flush,
}

-- sort.Sort, which asks the comparison for the order of two entries
pub record Sorting : Type 1 where
  pub sort : (A : Type 0) → (A → A → Outcome Bool) → List A → Outcome (List A)

-- item of sink.go; the decoded value is there only where filter has set it
pub record Entry (F : Type 0) : Type 0 where
  pub item : Item
  pub value : Option (Fields F)

pub record Sorter (F : Type 0) : Type 0 where
  pub sink : Sink F
  pub list : List (Entry F)
  pub skip : ℤ
  pub limit : ℤ
  pub order_by : List Bytes
  pub reverse : Bool

-- newSorter, and the assignments that follow it in query
abbrev pub new_sorter : {F : Type 0} → Sink F → ℤ → ℤ → List Bytes → Bool → Sorter F
new_sorter s skip limit order_by reverse = record {
  sink = s;
  list = [];
  skip = skip;
  limit = limit;
  order_by = order_by;
  reverse = reverse;
}

abbrev pub is_zero : ℤ → Bool
is_zero (pos zero) = true
is_zero (pos (suc n)) = false
is_zero (negsuc n) = false

abbrev pub is_positive : ℤ → Bool
is_positive (pos zero) = false
is_positive (pos (suc n)) = true
is_positive (negsuc n) = false

-- `if n > 0 { n-- }`
abbrev pub decrease : ℤ → ℤ
decrease (pos zero) = pos zero
decrease (pos (suc n)) = pos n
decrease (negsuc n) = negsuc n

-- max(n, 0)
abbrev pub at_least_zero : ℤ → ℕ
at_least_zero (pos n) = n
at_least_zero (negsuc n) = 0

-- `skip >= length`
abbrev reaches : ℤ → ℕ → Bool
reaches (pos n) len = leb len n
reaches (negsuc n) len = false

-- slice[left:right] of flush, after the test on skip
abbrev window : ℤ → ℤ → List Bytes → List Bytes
window skip limit xs =
    let left = at_least_zero skip in
    let right = left + at_least_zero limit in
    let end = if ltb (length xs) right || right == left then length xs else right in
    take (end - left) (drop left xs)

-- `if stop { break }`
abbrev pub unless_stopped {ℓ} : {S : Type ℓ} → (S → Outcome S) → Bool × S → Outcome S
unless_stopped rest (true, s) = ok s
unless_stopped rest (false, s) = rest s

module _ (H : Host) where
  open H use {Float, decode}

  -- add: the Boolean tells the caller to stop
  unfoldable pub add : Item → Sorter Float → Outcome (Bool × Sorter Float)
  add itm s =
      if is_zero s.limit
      then ok (true, s)
      else if is_positive s.skip
      then ok (false, record s { skip = decrease s.skip })
      else sink_add H itm s.sink >>= λ snk.
          ok (is_zero (decrease s.limit), record s { sink = snk; limit = decrease s.limit })

  -- `tree != nil` and its Match on the raw record
  unfoldable pub accepts : Option (Matcher Float) → Item → Outcome Bool
  accepts none itm = ok true
  accepts (some m) itm = match_value H m (raw itm.1)

  abbrev append_entry : Item → Option (Fields Float) → Sorter Float → Sorter Float
  append_entry itm value s = record s { list = s.list ++ record { item = itm; value = value } ∷ [] }

  -- Unmarshal into the entry; its error ends the query
  append_decoded : Item → Sorter Float → Outcome (Bool × Sorter Float)
  append_decoded itm s = elim (decode itm.1).1 [
    | some e ↦ err e
    | none ↦ ok (false, append_entry itm (some (decode itm.1).0) s)
  ]

  -- the part of filter for a query with OrderBy, by the kind of sink
  collect : Sink Float → Item → Sorter Float → Outcome (Bool × Sorter Float)
  unfolding append_decoded
  collect (list_sink results idx) itm s =
      sink_add H itm s.sink >>= λ snk. ok (false, record s { sink = snk })
  collect (raw_sink results) itm s = ok (false, append_entry itm none s)
  collect (raw_each fn seen) itm s = ok (false, append_entry itm none s)
  collect _ itm s = append_decoded itm s

  by_order : List Bytes → Item → Sorter Float → Outcome (Bool × Sorter Float)
  unfolding add collect
  by_order [] itm s = add itm s
  by_order (f ∷ fs) itm s = collect s.sink itm s

  unfoldable pub filter :
      Option (Matcher Float) → Item → Sorter Float → Outcome (Bool × Sorter Float)
  unfolding accepts by_order
  filter tree itm s =
      accepts tree itm >>= λ matched. if matched then by_order s.order_by itm s else ok (false, s)

  -- the loop of query, and that of runSelectIndexPlan, over the records that they hand to filter
  unfoldable pub feed : Option (Matcher Float) → List Item → Sorter Float → Outcome (Sorter Float)
  feed tree [] s = ok s
  feed tree (itm ∷ items) s = filter tree itm s >>= unless_stopped (feed tree items)

  -- the loop of flush over the sorted entries
  unfoldable pub add_entries : List (Entry Float) → Sorter Float → Outcome (Sorter Float)
  add_entries [] s = ok s
  add_entries (e ∷ es) s = add e.item s >>= unless_stopped (add_entries es)

  module _ (S : Sorting) where
    open S use {sort}

    -- Less on a listSink: a record that does not decode is not less
    less_raw : Sorter Float → Bytes → Bytes → Outcome Bool
    less_raw s x y = elim (decode x).1 [
      | some e ↦ ok false
      | none ↦ elim (decode y).1 [
        | some e ↦ ok false
        | none ↦ less H s.order_by s.reverse (decode x).0 (decode y).0
      ]
    ]

    less_values : Sorter Float → Option (Fields Float) → Option (Fields Float) → Outcome Bool
    less_values s none _ = panic
    less_values s (some x) none = panic
    less_values s (some x) (some y) = less H s.order_by s.reverse x y

    -- Less on another sink: the value of an entry is dereferenced
    less_entries : Sorter Float → Entry Float → Entry Float → Outcome Bool
    unfolding less_values
    less_entries s x y = less_values s x.value y.value

    -- flush with OrderBy, by the kind of sink
    flush_sorted : Sink Float → Sorter Float → Outcome (Answer Float)
    unfolding less_raw less_entries
    flush_sorted (list_sink results idx) s = sort Bytes (less_raw s) results >>= λ sorted.
        sink_flush H (
          list_sink (if reaches s.skip (length sorted) then [] else window s.skip s.limit sorted)
            idx)
    flush_sorted _ s = sort (Entry Float) (less_entries s) s.list >>= λ entries.
        add_entries entries s >>= λ s'. sink_flush H s'.sink

    flush_by : List Bytes → Sorter Float → Outcome (Answer Float)
    unfolding flush_sorted
    flush_by [] s = sink_flush H s.sink
    flush_by (f ∷ fs) s = flush_sorted s.sink s

    unfoldable pub flush : Sorter Float → Outcome (Answer Float)
    unfolding flush_by
    flush s = flush_by s.order_by s

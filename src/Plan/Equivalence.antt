-- ===== src/Plan/Equivalence.antt =====
-- runSelectIndexPlan against the full scan of query.
use storm_rev.Base.{
  ◌≡◌, sym, ap, ◌∙◌, Bool, true, Option, none, some, List, Outcome, ok, ◌>>=◌, select,
}
use storm_rev.Base.Bytes.{Bytes}
use storm_rev.Base.Sorted.{In, All-In, In-All, In-select, select-In, Sorted-select, Sorted-ext}
use storm_rev.Value.{Host}
use storm_rev.Config.{StructConfig, json_of}
use storm_rev.Bucket.{Bucket, IsBucket, KeyBefore, items_of, walk}
use storm_rev.Q.Tree.{Matcher, rename}
use storm_rev.Q.Explain.{explain_nested}
use storm_rev.Query.Sink.{Item}
use storm_rev.Query.Sorter.{Sorter, accepts, feed}
use storm_rev.Query.Sorter.Feed.{Answers, feed-select}
use storm_rev.Plan.Leaves.{IndexPlan}
use storm_rev.Plan.Select.{plan_for}
use storm_rev.Plan.Candidates.{Index, candidate_ids, sort_ids, fetch, run_plan}
use storm_rev.Plan.Candidates.Members.{
  before_asym, In-sort_ids, Sorted-sort_ids, In-fetch, fetch-In, Sorted-fetch,
}
use storm_rev.Plan.Coverage.{Fitting, Covers}
use storm_rev.Plan.Coverage.Composites.{Covers-NamesOnce}
use storm_rev.Plan.Sound.Tree.{candidates_complete}
use storm_rev.Plan.Sound.Once.{candidates-Distinct}

module _ (H : Host) (cfg : StructConfig) (idx : Index H.Float) (b : Bucket)
    (law : Covers H cfg idx b) (shape : IsBucket b) (m : Matcher H.Float)
    (typed : (k doc : Bytes) → b.get k ≡ some doc → Fitting H cfg doc m) (answer : Item → Bool)
    (reversed : Bool) where
  open H use {Float}

  abbrev tree : Option (Matcher Float)
  tree = some (rename (json_of cfg) m)

  abbrev rows : List Item
  rows = items_of (walk reversed b)

  module _ (answers : Answers H tree answer rows) (ids : List Bytes) where
    abbrev fetched : List Item
    fetched = fetch b (sort_ids reversed ids)

    row_of_fetched : (x : Item) → In x fetched → In x rows
    row_of_fetched x i = shape.met reversed x.0 x.1 (fetch-In b x (sort_ids reversed ids) i).0

    fetched-Answers : Answers H tree answer fetched
    fetched-Answers =
        In-All (λ itm. accepts H tree itm ≡ ok (answer itm)) fetched
          (λ x i.
            All-In (λ itm. accepts H tree itm ≡ ok (answer itm)) rows x answers
              (row_of_fetched x i))

    module _ (p : IndexPlan Float) (planned : plan_for H cfg (explain_nested m) ≡ some p)
        (found : candidate_ids H cfg idx b p ≡ ok (some ids)) where
      fetched_of_row : (x : Item) → answer x ≡ true → In x rows → In x fetched
      unfolding accepts
      fetched_of_row x t i =
          let got : b.get x.0 ≡ some x.1 = shape.held reversed x.0 x.1 i in
          let yes_x : accepts H tree x ≡ ok true =
            All-In (λ itm. accepts H tree itm ≡ ok (answer itm)) rows x answers i ∙ ap ok t in
          In-fetch b x.0 x.1 (sort_ids reversed ids) got (
            In-sort_ids reversed x.0 ids (
              candidates_complete H cfg idx b law x.0 x.1 got m p ids planned found
                (typed x.0 x.1 got) yes_x))

      same_selection : select answer fetched ≡ select answer rows
      same_selection =
          Sorted-ext {lt = KeyBefore reversed} (λ x y. before_asym reversed x.0 y.0)
            (select answer fetched) (select answer rows)
            (Sorted-select (KeyBefore reversed) answer fetched (
              Sorted-fetch b reversed (sort_ids reversed ids) (
                Sorted-sort_ids reversed ids (
                  candidates-Distinct H cfg idx b (Covers-NamesOnce H cfg idx b law) p ids found))))
            (Sorted-select (KeyBefore reversed) answer rows (shape.sorted reversed))
            (λ x i.
              let (j, t) = select-In answer x fetched i in
              In-select answer x rows t (row_of_fetched x j))
            (λ x i.
              let (j, t) = select-In answer x rows i in
              In-select answer x fetched t (fetched_of_row x t j))

  pub run_plan-eq-scan :
      (p : IndexPlan Float) (ids : List Bytes) (s : Sorter Float)
      → Answers H tree answer rows
      → plan_for H cfg (explain_nested m) ≡ some p
      → candidate_ids H cfg idx b p ≡ ok (some ids)
      → run_plan H cfg idx b tree reversed (candidate_ids H cfg idx b p) s
        ≡ (feed H tree rows s >>= λ s'. ok (some s'))
  unfolding run_plan
  run_plan-eq-scan p ids s answers planned found = rw found (
      ap (λ (r : Outcome (Sorter Float)). r >>= λ s'. ok (some s'))
        (feed-select H tree answer (fetched answers ids) s (fetched-Answers answers ids)
          ∙ ap (λ l. feed H none l s) (same_selection answers ids p planned found)
          ∙ sym (feed-select H tree answer rows s answers)))

-- ===== src/Plan/Candidates.antt =====
-- select_index.go: candidateIDs and runSelectIndexPlan.
pub mod Members
pub mod Dedupe
use storm_rev.Base.{
  Bool, true, false, Ordering, Option, none, some, List, [], ◌∷◌, ◌++◌, Error, Outcome, ok, err,
  panic, not_found, idx_not_found, incompatible_value, ◌>>=◌, if◌then◌else◌,
}
use storm_rev.Base.Bytes.{Bytes, bytes_eq, compare_bytes, swap}
use storm_rev.Value.{Value, Host}
use storm_rev.Config.{StructConfig, FieldConfig, lookup}
use storm_rev.Bucket.{Bucket, before}
use storm_rev.Q.Tree.{Matcher}
use storm_rev.Query.Order.{to_bytes}
use storm_rev.Query.Sink.{Item}
use storm_rev.Query.Sorter.{Sorter, feed}
use storm_rev.Plan.Leaves
use storm_rev.Plan.Leaves.{IndexPlan, IndexPlans, exact, in_values, range, composite, union}

-- The searches of the external index of one table (bleve_index.go): ids of records.
pub record Index (F : Type 0) : Type 0 where
  pub search_exact : Bytes → Value F → Outcome (List Bytes)
  pub search_range : Bytes → Value F → Value F → Outcome (List Bytes)
  pub search_composite : Bytes → List (Value F) → Outcome (List Bytes)

-- shouldFallbackSelectIndex
unfoldable pub falls_back : Error → Bool
falls_back not_found = true
falls_back idx_not_found = true
falls_back incompatible_value = true
falls_back _ = false

-- The ids of a search; `none` is a search whose ids cannot be used, for the scan to take over.
abbrev pub usable : Outcome (List Bytes) → Outcome (Option (List Bytes))
usable (ok ids) = ok (some ids)
usable (err e) = if falls_back e then ok none else err e
usable panic = panic

-- `if err != nil || !ok { return nil, ok, err }`, and else the append
unfoldable pub append_ids :
    Outcome (Option (List Bytes)) → Outcome (Option (List Bytes)) → Outcome (Option (List Bytes))
append_ids (ok (some ids)) (ok (some rest)) = ok (some (ids ++ rest))
append_ids (ok (some ids)) rest = rest
append_ids first rest = first

-- `seen[key]`
unfoldable pub seen_id : Bytes → List Bytes → Bool
seen_id id [] = false
seen_id id (x ∷ xs) = if bytes_eq id x then true else seen_id id xs

dedupe_loop : List Bytes → List Bytes → List Bytes
unfolding seen_id
dedupe_loop seen [] = []
dedupe_loop seen (id ∷ ids) =
    let old = dedupe_loop seen ids in
    let new = id ∷ dedupe_loop (id ∷ seen) ids in if seen_id id seen then old else new

-- dedupeSelectIndexIDs
unfoldable pub dedupe : List Bytes → List Bytes
unfolding dedupe_loop
dedupe ids = dedupe_loop [] ids

abbrev pub deduped : Outcome (Option (List Bytes)) → Outcome (Option (List Bytes))
deduped (ok (some ids)) = ok (some (dedupe ids))
deduped r = r

-- the loop of an insertion sort; the comparison is that of sortSelectIndexIDs
unfoldable pub insert_id : Bool → Bytes → List Bytes → List Bytes
insert_id reversed a [] = a ∷ []
insert_id reversed a (b ∷ bs) =
    let rest = insert_id reversed a bs in
    elim (before reversed b a) [ Ordering.lt ↦ b ∷ rest | _ ↦ a ∷ b ∷ bs ]

-- sortSelectIndexIDs, as an insertion sort: ids that compare equal are equal
unfoldable pub sort_ids : Bool → List Bytes → List Bytes
unfolding insert_id
sort_ids reversed [] = []
sort_ids reversed (a ∷ as') = insert_id reversed a (sort_ids reversed as')

-- the records that bucket.Get finds under the ids; an id without one is skipped
unfoldable pub fetch : Bucket → List Bytes → List Item
fetch b [] = []
fetch b (id ∷ ids) =
    let rest = fetch b ids in elim (b.get id) [ none ↦ rest | some v ↦ (id, v) ∷ rest ]

module _ (H : Host) (cfg : StructConfig) (idx : Index H.Float) (b : Bucket) where
  open H use {Float}

  -- the key that an id value is stored under, if the bucket has it
  unfoldable pub id_candidates : Outcome Bytes → Outcome (Option (List Bytes))
  id_candidates (ok id) = elim (b.get id) [ none ↦ ok (some []) | some v ↦ ok (some (id ∷ [])) ]
  id_candidates (err e) = err e
  id_candidates panic = panic

  unfoldable pub field_candidates :
      Option FieldConfig → Bytes → Value Float → Outcome (Option (List Bytes))
  unfolding id_candidates
  field_candidates none f v = panic
  field_candidates (some fc) f v =
      if fc.is_id then id_candidates (to_bytes H v) else usable (idx.search_exact f v)

  -- exactCandidateIDs
  unfoldable pub exact_ids : Bytes → Value Float → Outcome (Option (List Bytes))
  unfolding field_candidates
  exact_ids f v = field_candidates (lookup f cfg.fields) f v

  -- the loop of selectIndexPlanIn
  unfoldable pub in_ids : Bytes → List (Value Float) → Outcome (Option (List Bytes))
  unfolding append_ids
  in_ids f [] = ok (some [])
  in_ids f (v ∷ vs) = append_ids (exact_ids f v) (in_ids f vs)

  unfoldable mutual
    unfolding append_ids

    -- candidateIDs
    pub candidate_ids : IndexPlan Float → Outcome (Option (List Bytes))
    candidate_ids (exact f v n) = exact_ids f v
    candidate_ids (in_values f vs) = deduped (in_ids f vs)
    candidate_ids (range f lo hi) = usable (idx.search_range f lo hi)
    candidate_ids (composite name vs n) = usable (idx.search_composite name vs)
    candidate_ids (union ps) = deduped (all_ids ps)

    -- the loop of selectIndexPlanUnion
    pub all_ids : IndexPlans Float → Outcome (Option (List Bytes))
    all_ids Leaves.nil = ok (some [])
    all_ids (Leaves.cons p ps) = append_ids (candidate_ids p) (all_ids ps)

  -- runSelectIndexPlan on the candidates; `none` is the plan that was not used
  unfoldable pub run_plan :
      Option (Matcher Float)
      → Bool
      → Outcome (Option (List Bytes))
      → Sorter Float
      → Outcome (Option (Sorter Float))
  unfolding fetch
  run_plan tree reversed (ok (some ids)) s =
      feed H tree (fetch b (sort_ids reversed ids)) s >>= λ s'. ok (some s')
  run_plan tree reversed (ok none) s = ok none
  run_plan tree reversed (err e) s = err e
  run_plan tree reversed panic s = panic

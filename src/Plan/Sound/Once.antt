-- ===== src/Plan/Sound/Once.antt =====
-- No plan names a key twice.
use storm_rev.Base.{
  ◌≡◌, Bool-cases, Option, none, some, List, [], ◌∷◌, Outcome, ok, err, panic, arith, Option-cases,
  inl, inr,
}
use storm_rev.Base.Bytes.{Bytes}
use storm_rev.Value.{Value, Host}
use storm_rev.Config.{StructConfig, FieldConfig, lookup}
use storm_rev.Bucket.{Bucket}
use storm_rev.Query.Order.{to_bytes}
use storm_rev.Plan.Leaves.{IndexPlan, exact, in_values, range, composite, union}
use storm_rev.Plan.Candidates.{
  Index, id_candidates, field_candidates, exact_ids, in_ids, candidate_ids, all_ids, deduped,
  dedupe,
}
use storm_rev.Plan.Candidates.Members.{Distinct}
use storm_rev.Plan.Candidates.Dedupe.{dedupe-Distinct}
use storm_rev.Plan.Coverage.{NamesOnce}
use storm_rev.Plan.Sound.Leaf.{usable-ok}

module _ (H : Host) (cfg : StructConfig) (idx : Index H.Float) (b : Bucket)
    (law : NamesOnce H idx) where
  open H use {Float}

  abbrev Once : Outcome (Option (List Bytes)) → Type 0
  Once r = (ids : List Bytes) → r ≡ ok (some ids) → Distinct ids

  deduped-Once : (r : Outcome (Option (List Bytes))) → Once (deduped r)
  deduped-Once (ok (some as')) ids h =
      let e : ids ≡ dedupe as' = ground arith in rw e (dedupe-Distinct as').0
  deduped-Once (ok none) ids h = cc
  deduped-Once (err e) ids h = cc
  deduped-Once panic ids h = cc

  id-Once : (r : Outcome Bytes) → Once (id_candidates H cfg idx b r)
  unfolding id_candidates
  id-Once (ok id) ids h = elim (Option-cases (b.get id)) [
    | inl n ↦ let e : ids ≡ [] = ground arith in rw e tt
    | inr (v, s) ↦ let e : ids ≡ id ∷ [] = ground arith in rw e (λ m. m, tt)
  ]
  id-Once (err e) ids h = cc
  id-Once panic ids h = cc

  field-Once :
      (o : Option FieldConfig) (f : Bytes) (v : Value Float)
      → Once (field_candidates H cfg idx b o f v)
  unfolding field_candidates
  field-Once none f v ids h = cc
  field-Once (some fc) f v ids h = elim (Bool-cases fc.is_id) [
    | inl i ↦ id-Once (to_bytes H v) ids (rw i at h)
    | inr n ↦ law.exact_once f v ids (usable-ok _ ids (rw n at h))
  ]

  -- The candidates of a plan are distinct, where no search of the index names an id twice: those of
  -- an In or an Or too, whose children may name the same record.
  pub candidates-Distinct :
      (p : IndexPlan Float) (ids : List Bytes)
      → candidate_ids H cfg idx b p ≡ ok (some ids)
      → Distinct ids
  unfolding candidate_ids exact_ids
  candidates-Distinct (exact f v n) = field-Once (lookup f cfg.fields) f v
  candidates-Distinct (in_values f vs) = deduped-Once (in_ids H cfg idx b f vs)
  candidates-Distinct (range f lo hi) = λ ids h. law.range_once f lo hi ids (usable-ok _ ids h)
  candidates-Distinct (composite name vs n) =
      λ ids h. law.composite_once name vs ids (usable-ok _ ids h)
  candidates-Distinct (union ps) = deduped-Once (all_ids H cfg idx b ps)

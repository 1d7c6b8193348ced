-- ===== src/Plan/Sound/Leaf.antt =====
-- Plans of a single matcher.
use mathlib.Core.Path.{subst}
use storm_rev.Base.{
  All, ℕ, ◌≡◌, refl, sym, ap, ◌∙◌, inl, inr, Bool, true, false, Bool-cases, Option, none, some,
  List, [], ◌∷◌, ◌++◌, Outcome, ok, err, panic, arith, if◌then◌else◌,
}
use storm_rev.Base.Bytes.{Bytes}
use storm_rev.Base.Sorted.{In, In-append_left, In-append_right}
use storm_rev.Value.{Value, Host}
use storm_rev.Config.{StructConfig, FieldConfig, lookup, can_use_index, missing_from_index}
use storm_rev.Bucket.{Bucket}
use storm_rev.Q.Explain.{ExprOp, eq, strict_eq_op, in_op, leaf}
use storm_rev.Query.Order.{to_bytes}
use storm_rev.Plan.Leaves.{
  IndexPlan, exact, in_values, exact_plan, in_plan, leaf_plan, select_in_values, exact_score,
}
use storm_rev.Plan.Candidates.{
  Index, usable, append_ids, id_candidates, field_candidates, exact_ids, in_ids, candidate_ids,
  falls_back, deduped, dedupe,
}
use storm_rev.Plan.Candidates.Dedupe.{In-dedupe}
use storm_rev.Plan.Coverage.{Indexed, Agrees, Meets, Covers}
use storm_rev.Plan.Coverage.Lists.{selected-present}
use storm_rev.Plan.Coverage.Finds.{can_use-Indexed, exact-In, key-bytes}

pub usable-ok :
    (r : Outcome (List Bytes)) (ids : List Bytes) → usable r ≡ ok (some ids) → r ≡ ok ids
unfolding falls_back
usable-ok r ids h = ground arith

pub append_ids-ok :
    (x y : Outcome (Option (List Bytes))) (ids : List Bytes)
    → append_ids x y ≡ ok (some ids)
    → (a : List Bytes) × (c : List Bytes) × (x ≡ ok (some a)) × (y ≡ ok (some c)) × (ids ≡ a ++ c)
unfolding append_ids
append_ids-ok (ok (some a)) (ok (some c)) ids h = (a, c, refl, refl, ground arith)
append_ids-ok (ok (some a)) (ok none) ids h = cc
append_ids-ok (ok (some a)) (err e) ids h = cc
append_ids-ok (ok (some a)) panic ids h = cc
append_ids-ok (ok none) y ids h = cc
append_ids-ok (err e) y ids h = cc
append_ids-ok panic y ids h = cc

module _ (H : Host) (cfg : StructConfig) (idx : Index H.Float) (b : Bucket)
    (law : Covers H cfg idx b) (k doc : Bytes) (there : b.get k ≡ some doc) where
  open H use {Float}

  abbrev pub Finds : Outcome (Option (List Bytes)) → Type 0
  Finds r = (ids : List Bytes) → r ≡ ok (some ids) → In k ids

  abbrev pub Sound : IndexPlan Float → Type 0
  Sound p = Finds (candidate_ids H cfg idx b p)

  abbrev pub SoundIf : Option (IndexPlan Float) → Type 0
  SoundIf none = Unit
  SoundIf (some p) = Sound p

  module _ (f : Bytes) (v : Value Float) (usable_field : can_use_index cfg f ≡ true)
      (not_zero : missing_from_index H v ≡ false) (e : Agrees H cfg doc f v) where
    indexed : Indexed H cfg doc f
    indexed = can_use-Indexed H cfg idx b law doc f usable_field

    id_found :
        (fc : FieldConfig) (r : Outcome Bytes)
        → lookup f cfg.fields ≡ some fc
        → fc.is_id ≡ true
        → to_bytes H v ≡ r
        → Finds (id_candidates H cfg idx b r)
    unfolding id_candidates
    id_found fc (ok id) l i t ids h =
        let same : k ≡ id =
          key-bytes H cfg idx b law k doc there f id v fc indexed not_zero l i t e in
        let got : b.get id ≡ some doc = ap b.get (sym same) ∙ there in
        let only : ids ≡ id ∷ [] = ground arith in rw only (inl same)
    id_found fc (err x) l i t ids h = cc
    id_found fc panic l i t ids h = cc

    field_found :
        (o : Option FieldConfig)
        → lookup f cfg.fields ≡ o
        → Finds (field_candidates H cfg idx b o f v)
    unfolding field_candidates
    field_found none l ids h = cc
    field_found (some fc) l ids h = elim (Bool-cases fc.is_id) [
      | inl i ↦ id_found fc (to_bytes H v) l i refl ids (rw i at h)
      | inr n ↦
          exact-In H cfg idx b law k doc there f v ids indexed not_zero e
            (usable-ok _ ids (rw n at h))
    ]

    exact_found : Finds (exact_ids H cfg idx b f v)
    unfolding exact_ids
    exact_found = field_found (lookup f cfg.fields) refl

  In-found :
      (f : Bytes) (vs : List (Value Float)) (w : Value Float)
      → can_use_index cfg f ≡ true
      → All (λ v. missing_from_index H v ≡ false) vs
      → In w vs
      → Agrees H cfg doc f w
      → Finds (in_ids H cfg idx b f vs)
  unfolding in_ids
  In-found f [] w u n m e ids h = absurd m
  In-found f (v ∷ vs) w u n m e ids h =
      let (a, c, ha, hc, both) = append_ids-ok _ _ ids h in
      rw both (elim m [
        | inl same ↦
            In-append_left k a c
              (exact_found f v u n.0 (subst (λ x. Agrees H cfg doc f x) same e) a ha)
        | inr later ↦ In-append_right k a c (In-found f vs w u n.1 later e c hc)
      ])

  pub deduped-Finds : (r : Outcome (Option (List Bytes))) → Finds r → Finds (deduped r)
  deduped-Finds (ok (some as')) f ids h =
      let e : ids ≡ dedupe as' = ground arith in rw e (In-dedupe k as' (f as' refl))
  deduped-Finds (ok none) f ids h = cc
  deduped-Finds (err e) f ids h = cc
  deduped-Finds panic f ids h = cc

  pub SoundIf-if :
      (t : Bool) (x : Option (IndexPlan Float)) → SoundIf x → SoundIf (if t then none else x)
  SoundIf-if true x s = tt
  SoundIf-if false x s = s

  in_values-Sound :
      (f : Bytes) (ws : List (Value Float)) (w : Value Float)
      → can_use_index cfg f ≡ true
      → All (λ v. missing_from_index H v ≡ false) ws
      → In w ws
      → Agrees H cfg doc f w
      → Sound (in_values f ws)
  unfolding candidate_ids
  in_values-Sound f ws w u n m a = deduped-Finds (in_ids H cfg idx b f ws) (In-found f ws w u n m a)

  in_plan-Sound :
      (f : Bytes) (l : Value Float) (o : Option (List (Value Float)))
      → can_use_index cfg f ≡ true
      → Meets H cfg doc (leaf in_op f l)
      → select_in_values H l ≡ o
      → SoundIf (elim o [ none ↦ none | some vs ↦ some (in_values f vs) ])
  in_plan-Sound f l none u h p = tt
  in_plan-Sound f l (some ws) u h p =
      let (w, m, a) = h ws p in in_values-Sound f ws w u (selected-present H l ws p) m a

  leaf_in :
      (f : Bytes) (l : Value Float) → Meets H cfg doc (leaf in_op f l) → SoundIf (in_plan H cfg f l)
  unfolding in_plan
  leaf_in f l h = elim (Bool-cases (can_use_index cfg f)) [
    | inl u ↦ rw u (in_plan-Sound f l (select_in_values H l) u h refl)
    | inr n ↦ rw n tt
  ]

  exact-Sound :
      (f : Bytes) (v : Value Float) (n : ℕ)
      → can_use_index cfg f ≡ true
      → missing_from_index H v ≡ false
      → Agrees H cfg doc f v
      → Sound (exact f v n)
  unfolding candidate_ids
  exact-Sound f v n u m e = exact_found f v u m e

  leaf_exact : (f : Bytes) (v : Value Float) → Agrees H cfg doc f v → SoundIf (exact_plan H cfg f v)
  unfolding exact_plan
  leaf_exact f v e = elim (Bool-cases (can_use_index cfg f)) [
    | inr n ↦ rw n tt
    | inl u ↦ elim (Bool-cases (missing_from_index H v)) [
      | inl z ↦ rw (u, z) tt
      | inr m ↦ rw (u, m) (exact-Sound f v (exact_score (lookup f cfg.fields)) u m e)
    ]
  ]

  -- The candidates of a leaf's plan hold the key of a record that meets the leaf.
  pub leaf_plan-Sound :
      (op : ExprOp) (f : Bytes) (v : Value Float)
      → Meets H cfg doc (leaf op f v)
      → SoundIf (leaf_plan H cfg op f v)
  unfolding leaf_plan
  leaf_plan-Sound eq f v h = leaf_exact f v h
  leaf_plan-Sound strict_eq_op f v h = leaf_exact f v h
  leaf_plan-Sound in_op f v h = leaf_in f v h
  leaf_plan-Sound _ f v h = tt

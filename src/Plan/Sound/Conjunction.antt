-- ===== src/Plan/Sound/Conjunction.antt =====
-- Plans of a conjunction: composite indexes and closed ranges.
pub mod Range
use storm_rev.Base.{
  ℕ, ◌+◌, ◌≡◌, refl, sym, ap, ◌∙◌, ◌⊎◌, inl, inr, Bool, true, false, Bool-cases, Option-cases,
  Option, none, some, List, [], ◌∷◌, length, map, Outcome, ok, arith, All, ltb, if◌then◌else◌,
}
use mathlib.Core.Path.{subst}
use storm_rev.Base.Bytes.{Bytes, bytes_eq, bytes_eq_iff}
use storm_rev.Base.Sorted.{In}
use storm_rev.Value.{Value, eql, Host}
use storm_rev.Config.{StructConfig, lookup, missing_from_index}
use storm_rev.Bucket.{Bucket}
use storm_rev.Q.Field.{cmp, strict_eq}
use storm_rev.Q.Explain.{
  ExprOp, Expr, unknown, eq, strict_eq_op, in_op, gt, gte, lt, lte, re, truth, leaf, conj, disj,
  neg,
}
use storm_rev.Plan.Leaves.{IndexPlan, composite, score}
use storm_rev.Plan.Conj.{
  better, equality_of, equality_value, composite_values, composite_named, composite_loop,
  composite_plan, sort_names,
}
use storm_rev.Plan.Candidates.{Index, usable, candidate_ids}
use storm_rev.Plan.Coverage.{Agrees, Hits, Meets, Covers}
use storm_rev.Plan.Coverage.Composites.{composite-In}
use storm_rev.Plan.Sound.Leaf
use storm_rev.Plan.Sound.Leaf.{usable-ok}

module _ (H : Host) (cfg : StructConfig) (idx : Index H.Float) (b : Bucket)
    (law : Covers H cfg idx b) (k doc : Bytes) (there : b.get k ≡ some doc) where
  open H use {Float}

  abbrev Sound : IndexPlan Float → Type 0
  Sound = Leaf.Sound H cfg idx b law k doc there

  abbrev SoundIf : Option (IndexPlan Float) → Type 0
  SoundIf = Leaf.SoundIf H cfg idx b law k doc there

  abbrev AllMeet : List (Expr Float) → Type 0
  AllMeet = All (Meets H cfg doc)

  pub better-Sound :
      (best : Option (IndexPlan Float)) (p : IndexPlan Float)
      → SoundIf best
      → Sound p
      → SoundIf (better best p)
  unfolding better
  better-Sound none p s t = t
  better-Sound (some q) p s t = elim (Bool-cases (ltb (score q) (score p))) [
    | inl y ↦ rw y t
    | inr n ↦ rw n s
  ]

  equality_of-Agrees :
      (f : Bytes) (v : Value Float) (e : Expr Float)
      → Meets H cfg doc e
      → equality_of f e ≡ some v
      → Agrees H cfg doc f v
  unfolding equality_of
  equality_of-Agrees f v truth m h = cc
  equality_of-Agrees f v (leaf eq g w) m h =
      let same : g ≡ f = (bytes_eq_iff g f).0 (ground arith) in
      let value : w ≡ v = ground arith in
      subst (λ x. Agrees H cfg doc f x) value (subst (λ x. Agrees H cfg doc x w) same m)
  equality_of-Agrees f v (leaf strict_eq_op g w) m h =
      let same : g ≡ f = (bytes_eq_iff g f).0 (ground arith) in
      let value : w ≡ v = ground arith in
      subst (λ x. Agrees H cfg doc f x) value (subst (λ x. Agrees H cfg doc x w) same m)
  equality_of-Agrees f v (leaf unknown g w) m h = cc
  equality_of-Agrees f v (leaf in_op g w) m h = cc
  equality_of-Agrees f v (leaf gt g w) m h = cc
  equality_of-Agrees f v (leaf gte g w) m h = cc
  equality_of-Agrees f v (leaf lt g w) m h = cc
  equality_of-Agrees f v (leaf lte g w) m h = cc
  equality_of-Agrees f v (leaf re g w) m h = cc
  equality_of-Agrees f v (conj es) m h = cc
  equality_of-Agrees f v (disj es) m h = cc
  equality_of-Agrees f v (neg es) m h = cc

  equality_value-Agrees :
      (f : Bytes) (v : Value Float) (es : List (Expr Float))
      → AllMeet es
      → equality_value es f ≡ some v
      → Agrees H cfg doc f v
  unfolding equality_value
  equality_value-Agrees f v [] m h = cc
  equality_value-Agrees f v (e ∷ es) m h = elim (Option-cases (equality_of f e)) [
    | inl n ↦ equality_value-Agrees f v es m.1 (ground arith)
    | inr (w, s) ↦ equality_of-Agrees f v e m.0 (ground arith)
  ]

  values_cons :
      (es : List (Expr Float)) (f : Bytes) (fs : List Bytes) (vs : List (Value Float))
      → composite_values H cfg es (f ∷ fs) ≡ some vs
      → (v : Value Float) × (us : List (Value Float)) × (equality_value es f ≡ some v)
        × (missing_from_index H v ≡ false)
        × (composite_values H cfg es fs ≡ some us)
        × (vs ≡ v ∷ us)
  unfolding composite_values
  values_cons es f fs vs h = elim (Option-cases (equality_value es f)) [
    | inl n ↦ absurd (ground arith)
    | inr (v, s) ↦ elim (Bool-cases (missing_from_index H v)) [
      | inl z ↦ absurd (ground arith)
      | inr k ↦ elim (Option-cases (composite_values H cfg es fs)) [
        | inl n ↦ absurd (ground arith)
        | inr (us, t) ↦ (v, us, s, k, t, ground arith)
      ]
    ]
  ]

  composite_values-Hits :
      (es : List (Expr Float)) (fs : List Bytes) (vs : List (Value Float))
      → AllMeet es
      → composite_values H cfg es fs ≡ some vs
      → Hits H cfg doc fs vs
  composite_values-Hits es [] vs m h = tt
  composite_values-Hits es (f ∷ fs) vs m h =
      let (v, us, s, k, t, e) = values_cons es f fs vs h in
      rw e (k, equality_value-Agrees f v es m s, composite_values-Hits es fs us m t)

  composite-Sound :
      (name : Bytes) (fields : List Bytes) (vs : List (Value Float)) (n : ℕ)
      → lookup name cfg.composites ≡ some fields
      → Hits H cfg doc fields vs
      → Sound (composite name vs n)
  unfolding candidate_ids
  composite-Sound name fields vs n l h ids c =
      composite-In H cfg idx b law k doc there name fields vs ids l h (usable-ok _ ids c)

  named_values :
      (es : List (Expr Float)) (name : Bytes) (fields : List Bytes)
      (o : Option (List (Value Float)))
      → AllMeet es
      → lookup name cfg.composites ≡ some fields
      → composite_values H cfg es fields ≡ o
      → SoundIf (elim o [ none ↦ none | some vs ↦ some (composite name vs (4000 + length fields)) ])
  named_values es name fields none m l h = tt
  named_values es name fields (some vs) m l h =
      composite-Sound name fields vs (4000 + length fields) l
        (composite_values-Hits es fields vs m h)

  named_fields :
      (es : List (Expr Float)) (name : Bytes) (o : Option (List Bytes))
      → AllMeet es
      → lookup name cfg.composites ≡ o
      → SoundIf (elim o [
        | none ↦ none
        | some fields ↦ elim (composite_values H cfg es fields) [
          | none ↦ none
          | some vs ↦ some (composite name vs (4000 + length fields))
        ]
      ])
  named_fields es name none m l = tt
  named_fields es name (some fields) m l =
      named_values es name fields (composite_values H cfg es fields) m l refl

  composite_named-Sound :
      (es : List (Expr Float)) (name : Bytes) → AllMeet es → SoundIf (composite_named H cfg es name)
  unfolding composite_named
  composite_named-Sound es name m = named_fields es name (lookup name cfg.composites) m refl

  next_best :
      (best o : Option (IndexPlan Float))
      → SoundIf best
      → SoundIf o
      → SoundIf (elim o [ none ↦ best | some p ↦ better best p ])
  next_best best none s t = s
  next_best best (some p) s t = better-Sound best p s t

  composite_loop-Sound :
      (es : List (Expr Float)) (names : List Bytes) (best : Option (IndexPlan Float))
      → AllMeet es
      → SoundIf best
      → SoundIf (composite_loop H cfg es names best)
  unfolding composite_loop
  composite_loop-Sound es [] best m s = s
  composite_loop-Sound es (name ∷ names) best m s =
      composite_loop-Sound es names
        (elim (composite_named H cfg es name) [ none ↦ best | some p ↦ better best p ]) m
        (next_best best (composite_named H cfg es name) s (composite_named-Sound es name m))

  -- The candidates of the composite plan hold the key of a record that meets all the children.
  pub composite_plan-Sound :
      (es : List (Expr Float)) → AllMeet es → SoundIf (composite_plan H cfg es)
  unfolding composite_plan
  composite_plan-Sound es m =
      composite_loop-Sound es (sort_names (map (λ e. e.0) cfg.composites)) none m tt

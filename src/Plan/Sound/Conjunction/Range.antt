-- ===== src/Plan/Sound/Conjunction/Range.antt =====
-- The range that a conjunction closes: every bound that is noted holds of the record.
use storm_rev.Base.{
  ◌≡◌, refl, sym, inl, inr, true, false, Bool-cases, Option, none, some, List, [], ◌∷◌, arith, All,
}
use mathlib.Core.Path.{subst}
use storm_rev.Base.Bytes.{Bytes, bytes_eq, bytes_eq_iff}
use storm_rev.Value.{Value, Host}
use storm_rev.Config.{StructConfig, lookup, can_use_index, missing_from_index}
use storm_rev.Bucket.{Bucket}
use storm_rev.Q.Explain.{ExprOp, Expr, gte, lte, leaf}
use storm_rev.Plan.Leaves.{IndexPlan}
use storm_rev.Plan.Conj.{
  Bounds, set_bound, update_bound, note_bound, note_bounds, range_of, range_at, range_plan,
  closed_fields, sort_names,
}
use storm_rev.Plan.Candidates.{Index, candidate_ids}
use storm_rev.Plan.Coverage.{Bounded, Meets, Covers}
use storm_rev.Plan.Coverage.Finds.{can_use-Indexed, range-In}
use storm_rev.Plan.Documents.Searches.{at_least, at_most}
use storm_rev.Plan.Sound.Leaf
use storm_rev.Plan.Sound.Leaf.{usable-ok}

module _ (H : Host) (cfg : StructConfig) (idx : Index H.Float) (b : Bucket)
    (law : Covers H cfg idx b) (k doc : Bytes) (there : b.get k ≡ some doc) where
  open H use {Float}

  abbrev SoundIf : Option (IndexPlan Float) → Type 0
  SoundIf = Leaf.SoundIf H cfg idx b law k doc there

  -- What the planner tests before it notes a bound.
  abbrev Noted : Bytes → Value Float → Type 0
  Noted f v = (can_use_index cfg f ≡ true) × (missing_from_index H v ≡ false)

  abbrev LowMet : Bytes → Option (Value Float) → Type 0
  LowMet f none = Unit
  LowMet f (some v) = Noted f v × Bounded H cfg doc (at_least H) f v

  abbrev HighMet : Bytes → Option (Value Float) → Type 0
  HighMet f none = Unit
  HighMet f (some v) = Noted f v × Bounded H cfg doc (at_most H) f v

  abbrev Met : Bytes → Bounds Float → Type 0
  Met f m = LowMet f m.low × HighMet f m.high

  abbrev AllMet : List (Bytes × Bounds Float) → Type 0
  AllMet = All (λ e. Met e.0 e.1)

  set_bound-Met :
      (op : ExprOp) (f : Bytes) (v : Value Float) (m : Bounds Float)
      → Noted f v
      → Meets H cfg doc (leaf op f v)
      → Met f m
      → Met f (set_bound op v m)
  unfolding set_bound
  set_bound-Met gte f v m t h s = ((t, h), s.1)
  set_bound-Met lte f v m t h s = (s.0, (t, h))
  set_bound-Met _ f v m t h s = s

  update_bound-AllMet :
      (op : ExprOp) (f : Bytes) (v : Value Float) (l : List (Bytes × Bounds Float))
      → Noted f v
      → Meets H cfg doc (leaf op f v)
      → AllMet l
      → AllMet (update_bound op f v l)
  unfolding update_bound
  update_bound-AllMet op f v [] t h s =
      (set_bound-Met op f v (record { low = none; high = none }) t h (tt, tt), tt)
  update_bound-AllMet op f v ((g, m) ∷ l) t h s = elim (Bool-cases (bytes_eq g f)) [
    | inl y ↦
        let same : f ≡ g = sym ((bytes_eq_iff g f).0 y) in
        rw y (
          set_bound-Met op g v m (subst (λ x. Noted x v) same t)
              (subst (λ x. Meets H cfg doc (leaf op x v)) same h) s.0,
          s.1,
        )
    | inr n ↦ rw n (s.0, update_bound-AllMet op f v l t h s.1)
  ]

  note_bound-AllMet :
      (e : Expr Float) (l : List (Bytes × Bounds Float))
      → Meets H cfg doc e
      → AllMet l
      → AllMet (note_bound H cfg e l)
  unfolding note_bound
  note_bound-AllMet (leaf op f v) l h s = elim (Bool-cases (missing_from_index H v)) [
    | inl z ↦ rw z s
    | inr k ↦ elim (Bool-cases (can_use_index cfg f)) [
      | inr n ↦ rw (k, n) s
      | inl u ↦ rw (k, u) (update_bound-AllMet op f v l (u, k) h s)
    ]
  ]
  note_bound-AllMet _ l h s = s

  note_bounds-AllMet :
      (es : List (Expr Float)) (l : List (Bytes × Bounds Float))
      → All (Meets H cfg doc) es
      → AllMet l
      → AllMet (note_bounds H cfg es l)
  unfolding note_bounds
  note_bounds-AllMet [] l h s = s
  note_bounds-AllMet (e ∷ es) l h s =
      note_bounds-AllMet es (note_bound H cfg e l) h.1 (note_bound-AllMet e l h.0 s)

  lookup-Met :
      (f : Bytes) (l : List (Bytes × Bounds Float)) (m : Bounds Float)
      → AllMet l
      → lookup f l ≡ some m
      → Met f m
  lookup-Met f [] m s h = cc
  lookup-Met f ((g, n) ∷ l) m s h = elim (Bool-cases (bytes_eq g f)) [
    | inl y ↦
        let same : g ≡ f = (bytes_eq_iff g f).0 y in
        let found : n ≡ m = ground arith in
        subst (λ x. Met f x) found (subst (λ x. Met x n) same s.0)
    | inr t ↦ lookup-Met f l m s.1 (ground arith)
  ]

  range_of-Sound :
      (f : Bytes) (low high : Option (Value Float))
      → LowMet f low
      → HighMet f high
      → SoundIf (range_of f (record { low = low; high = high }))
  unfolding candidate_ids
  range_of-Sound f none high l h = tt
  range_of-Sound f (some lo) none l h = tt
  range_of-Sound f (some lo) (some hi) l h = λ ids c.
      let ((u, ml), low) = l in
      let ((_, mh), high) = h in
      range-In H cfg idx b law k doc there f lo hi ids (can_use-Indexed H cfg idx b law doc f u) ml
        mh low high (usable-ok _ ids c)

  range_found :
      (f : Bytes) (o : Option (Bounds Float)) (l : List (Bytes × Bounds Float))
      → AllMet l
      → lookup f l ≡ o
      → SoundIf (elim o [ none ↦ none | some m ↦ range_of f m ])
  range_found f none l s h = tt
  range_found f (some m) l s h =
      let (lo, hi) = lookup-Met f l m s h in range_of-Sound f m.low m.high lo hi

  range_at-Sound :
      (l : List (Bytes × Bounds Float)) (fs : List Bytes) → AllMet l → SoundIf (range_at l fs)
  unfolding range_at
  range_at-Sound l [] s = tt
  range_at-Sound l (f ∷ fs) s = range_found f (lookup f l) l s refl

  -- The candidates of the range plan hold the key of a record that meets all the children.
  pub range_plan-Sound :
      (es : List (Expr Float)) → All (Meets H cfg doc) es → SoundIf (range_plan H cfg es)
  unfolding range_plan
  range_plan-Sound es h =
      let l = note_bounds H cfg es [] in
      range_at-Sound l (sort_names (closed_fields l)) (note_bounds-AllMet es [] h tt)

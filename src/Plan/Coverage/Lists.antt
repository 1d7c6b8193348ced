-- ===== src/Plan/Coverage/Lists.antt =====
-- A value that an In matcher finds is one of those that the planner looks up.
use mathlib.Core.Path.{subst}
use storm_rev.Base.{
  All, ℕ, ◌≡◌, refl, ◌⊎◌, inl, inr, Bool, true, false, Bool-cases, Option-cases, Option, none, some,
  List, [], ◌∷◌, Outcome, ok, ◌>>=◌, arith, if◌then◌else◌,
}
use storm_rev.Base.Bytes.{Bytes}
use storm_rev.Base.Sorted.{In}
use storm_rev.Value
use storm_rev.Value.{Value, Values, uint, bytes, slice, Json, eql, Host}
use storm_rev.Config.{missing_from_index}
use storm_rev.Q.Compare.{compare_values}
use storm_rev.Q.Field.{cmp, in_list, in_loop, byte_elements, json_value, in_match, match_json}
use storm_rev.Plan.Leaves.{select_in_values, present_values, present_bytes}

pub one_true :
    (m rest : Outcome Bool)
    → (m >>= λ b. if b then ok true else rest) ≡ ok true
    → (m ≡ ok true) ⊎ (rest ≡ ok true)
one_true m rest h = ground arith

module _ (H : Host) where
  open H use {Float}

  present_cons :
      (x : Value Float) (xs : Values Float) (ws : List (Value Float))
      → present_values H (Value.cons x xs) ≡ some ws
      → (us : List (Value Float)) × (present_values H xs ≡ some us) × (ws ≡ x ∷ us)
  unfolding present_values
  present_cons x xs ws p = elim (Option-cases (present_values H xs)) [
    | inl n ↦ absurd (ground arith)
    | inr (us, s) ↦ (us, s, ground arith)
  ]

  byte_cons :
      (x : ℕ) (xs : Bytes) (ws : List (Value Float))
      → present_bytes H (x ∷ xs) ≡ some ws
      → (us : List (Value Float)) × (present_bytes H xs ≡ some us) × (ws ≡ uint x ∷ us)
  unfolding present_bytes
  byte_cons x xs ws p = elim (Option-cases (present_bytes H xs)) [
    | inl n ↦ absurd (ground arith)
    | inr (us, s) ↦ (us, s, ground arith)
  ]

  -- The value that an In matcher finds is among those that the planner looks up.
  abbrev Looked : List (Value Float) → Value Float → Type 0
  Looked ws v = (w : Value Float) × In w ws × (compare_values H v w eql ≡ ok true)

  Looked-later :
      (x v : Value Float) (us ws : List (Value Float)) → ws ≡ x ∷ us → Looked us v → Looked ws v
  Looked-later x v us ws e (w, m, c) = (w, rw e (inr m), c)

  Looked-here :
      (x v : Value Float) (us ws : List (Value Float))
      → ws ≡ x ∷ us
      → compare_values H v x eql ≡ ok true
      → Looked ws v
  Looked-here x v us ws e c = (x, rw e (inl refl), c)

  present_found :
      (vs : Values Float) (ws : List (Value Float)) (v : Value Float)
      → present_values H vs ≡ some ws
      → in_loop H vs v ≡ ok true
      → Looked ws v
  unfolding in_loop
  present_found Value.nil ws v p h = cc
  present_found (Value.cons x xs) ws v p h =
      let (us, s, e) = present_cons x xs ws p in
      elim (one_true (compare_values H v x eql) (in_loop H xs v) h) [
        | inl c ↦ Looked-here x v us ws e c
        | inr r ↦ Looked-later x v us ws e (present_found xs us v s r)
      ]

  bytes_found :
      (bs : Bytes) (ws : List (Value Float)) (v : Value Float)
      → present_bytes H bs ≡ some ws
      → in_loop H (byte_elements H bs) v ≡ ok true
      → Looked ws v
  unfolding in_loop byte_elements
  bytes_found [] ws v p h = cc
  bytes_found (x ∷ xs) ws v p h =
      let (us, s, e) = byte_cons x xs ws p in
      elim (one_true (compare_values H v (uint x) eql) (in_loop H (byte_elements H xs) v) h) [
        | inl c ↦ Looked-here (uint x) v us ws e c
        | inr r ↦ Looked-later (uint x) v us ws e (bytes_found xs us v s r)
      ]

  in-Looked :
      (l v : Value Float) (ws : List (Value Float))
      → select_in_values H l ≡ some ws
      → in_match H l v ≡ ok true
      → Looked ws v
  unfolding select_in_values in_match
  in-Looked (slice vs) v ws p h = present_found vs ws v p h
  in-Looked (bytes (some bs)) v ws p h = bytes_found bs ws v p h
  in-Looked _ v ws p h = cc

  -- In on a field is equality with one of the values, on the same JSON value.
  pub In-hit :
      (f : Bytes) (l : Value Float) (ws : List (Value Float)) (j : Option (Json Float))
      → select_in_values H l ≡ some ws
      → match_json H (in_list l) j ≡ ok true
      → (w : Value Float) × In w ws × (match_json H (cmp eql w) j ≡ ok true)
  unfolding match_json
  In-hit f l ws none p h = cc
  In-hit f l ws (some j) p h = in-Looked l (json_value j) ws p h

  -- The planner looks up no value that the index has not.
  values-present :
      (vs : Values Float) (ws : List (Value Float))
      → present_values H vs ≡ some ws
      → All (λ w. missing_from_index H w ≡ false) ws
  unfolding present_values
  values-present Value.nil ws p =
      let e : [] ≡ ws = ground arith in subst (All (λ w. missing_from_index H w ≡ false)) e tt
  values-present (Value.cons x xs) ws p = elim (Bool-cases (missing_from_index H x)) [
    | inl y ↦ absurd (ground arith)
    | inr n ↦ let (us, s, e) = present_cons x xs ws p in rw e (n, values-present xs us s)
  ]

  bytes-present :
      (bs : Bytes) (ws : List (Value Float))
      → present_bytes H bs ≡ some ws
      → All (λ w. missing_from_index H w ≡ false) ws
  unfolding present_bytes
  bytes-present [] ws p =
      let e : [] ≡ ws = ground arith in subst (All (λ w. missing_from_index H w ≡ false)) e tt
  bytes-present (x ∷ xs) ws p = elim (Bool-cases (missing_from_index H (uint x))) [
    | inl y ↦ absurd (ground arith)
    | inr n ↦ let (us, s, e) = byte_cons x xs ws p in rw e (n, bytes-present xs us s)
  ]

  pub selected-present :
      (l : Value Float) (ws : List (Value Float))
      → select_in_values H l ≡ some ws
      → All (λ w. missing_from_index H w ≡ false) ws
  unfolding select_in_values
  selected-present (slice vs) ws p = values-present vs ws p
  selected-present (bytes (some bs)) ws p = bytes-present bs ws p
  selected-present _ ws p = cc

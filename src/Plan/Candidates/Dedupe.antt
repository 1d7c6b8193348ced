-- ===== src/Plan/Candidates/Dedupe.antt =====
-- dedupeSelectIndexIDs keeps every id, once.
use storm_rev.Base.{
  ◌≡◌, ◌↔◌, refl, ap, ◌∙◌, ◌⊎◌, inl, inr, true, false, Bool-cases, List, [], ◌∷◌, arith,
}
use storm_rev.Base.Bytes.{Bytes, bytes_eq_iff}
use storm_rev.Base.Sorted.{In}
use storm_rev.Plan.Candidates.{seen_id, dedupe_loop, dedupe}
use storm_rev.Plan.Candidates.Members.{Distinct}

loop_old :
    (seen ids : List Bytes) (id : Bytes)
    → seen_id id seen ≡ true
    → dedupe_loop seen (id ∷ ids) ≡ dedupe_loop seen ids
unfolding dedupe_loop
loop_old seen ids id h = ground arith

loop_new :
    (seen ids : List Bytes) (id : Bytes)
    → seen_id id seen ≡ false
    → dedupe_loop seen (id ∷ ids) ≡ id ∷ dedupe_loop (id ∷ seen) ids
unfolding dedupe_loop
loop_new seen ids id h = ground arith

seen_cases :
    (x id : Bytes) (seen : List Bytes)
    → seen_id x (id ∷ seen) ≡ true
    → (x ≡ id) ⊎ (seen_id x seen ≡ true)
unfolding seen_id
seen_cases x id seen h = ground (arith, (bytes_eq_iff x id).0)

seen_self : (id : Bytes) (seen : List Bytes) → seen_id id (id ∷ seen) ≡ true
unfolding seen_id
seen_self id seen = rw ((bytes_eq_iff id id).1 refl)

unseen : (x id : Bytes) (seen : List Bytes) → seen_id x (id ∷ seen) ≡ false → seen_id x seen ≡ false
unfolding seen_id
unseen x id seen h = ground arith

loop_keeps :
    (x : Bytes) (seen ids : List Bytes)
    → In x ids
    → (seen_id x seen ≡ true) ⊎ In x (dedupe_loop seen ids)
loop_keeps x seen [] m = absurd m
loop_keeps x seen (id ∷ ids) m = elim (Bool-cases (seen_id id seen)) [
  | inl old ↦
      rw (loop_old seen ids id old) (elim m [
        | inl e ↦ inl (ap (λ y. seen_id y seen) e ∙ old)
        | inr n ↦ loop_keeps x seen ids n
      ])
  | inr new ↦ rw (loop_new seen ids id new) (elim m [
    | inl e ↦ inr (inl e)
    | inr n ↦ elim (loop_keeps x (id ∷ seen) ids n) [
      | inl s ↦ elim (seen_cases x id seen s) [ inl e ↦ inr (inl e) | inr t ↦ inl t ]
      | inr o ↦ inr (inr o)
    ]
  ])
]

loop_fresh :
    (x : Bytes) (seen ids : List Bytes) → In x (dedupe_loop seen ids) → seen_id x seen ≡ false
unfolding dedupe_loop
loop_fresh x seen [] m = absurd m
loop_fresh x seen (id ∷ ids) m = elim (Bool-cases (seen_id id seen)) [
  | inl old ↦ loop_fresh x seen ids (rw (loop_old seen ids id old) at m)
  | inr new ↦ elim (rw (loop_new seen ids id new) at m) [
    | inl e ↦ ap (λ y. seen_id y seen) e ∙ new
    | inr n ↦ unseen x id seen (loop_fresh x (id ∷ seen) ids n)
  ]
]

loop-Distinct : (seen ids : List Bytes) → Distinct (dedupe_loop seen ids)
unfolding dedupe_loop
loop-Distinct seen [] = tt
loop-Distinct seen (id ∷ ids) = elim (Bool-cases (seen_id id seen)) [
  | inl old ↦ rw (loop_old seen ids id old) (loop-Distinct seen ids)
  | inr new ↦
      rw (loop_new seen ids id new) (
        λ m. cc (loop_fresh id (id ∷ seen) ids m, seen_self id seen),
        loop-Distinct (id ∷ seen) ids,
      )
]

unseen_at_first : (x : Bytes) → (seen_id x [] ≡ true) → ⊥
unfolding seen_id
unseen_at_first x h = cc

pub In-dedupe : (x : Bytes) (ids : List Bytes) → In x ids → In x (dedupe ids)
unfolding dedupe
In-dedupe x ids m = elim (loop_keeps x [] ids m) [
  | inl s ↦ absurd (unseen_at_first x s)
  | inr n ↦ n
]

loop_within : (x : Bytes) (seen ids : List Bytes) → In x (dedupe_loop seen ids) → In x ids
unfolding dedupe_loop
loop_within x seen [] m = m
loop_within x seen (id ∷ ids) m = elim (Bool-cases (seen_id id seen)) [
  | inl old ↦ inr (loop_within x seen ids (rw (loop_old seen ids id old) at m))
  | inr new ↦ elim (rw (loop_new seen ids id new) at m) [
    | inl e ↦ inl e
    | inr n ↦ inr (loop_within x (id ∷ seen) ids n)
  ]
]

-- Deduplication keeps exactly the ids of the list, each at one place only.
pub dedupe-Distinct :
    (ids : List Bytes) → Distinct (dedupe ids) × ((x : Bytes) → In x (dedupe ids) ↔ In x ids)
unfolding dedupe
dedupe-Distinct ids = (loop-Distinct [] ids, λ x. (loop_within x [] ids, In-dedupe x ids))

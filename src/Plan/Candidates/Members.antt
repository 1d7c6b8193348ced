-- ===== src/Plan/Candidates/Members.antt =====
-- What deduplication, sorting and fetching do to the candidate ids.
use storm_rev.Base.{
  ◌≡◌, sym, ap, ◌∙◌, ◌⊎◌, inl, inr, Bool, true, false, Option-cases, Ordering, none, some, List, [],
  ◌∷◌, arith,
}
use storm_rev.Base.Bytes.{
  Bytes, compare_bytes, compare_bytes-eq, compare_bytes-swap, compare_bytes_trans,
}
use storm_rev.Base.Sorted.{In, Sorted, All-In, In-All}
use storm_rev.Bucket.{Bucket, before, KeyBefore}
use storm_rev.Query.Sink.{Item}
use storm_rev.Plan.Candidates.{insert_id, sort_ids, fetch}

-- The order of a walk is strict.
pub before_trans :
    (r : Bool) (a b c : Bytes)
    → before r a b ≡ Ordering.lt
    → before r b c ≡ Ordering.lt
    → before r a c ≡ Ordering.lt
before_trans false a b c h k = compare_bytes_trans a b c h k
before_trans true a b c h k =
    let h' : compare_bytes b a ≡ Ordering.lt = ground (arith, compare_bytes-swap a b) in
    let k' : compare_bytes c b ≡ Ordering.lt = ground (arith, compare_bytes-swap b c) in
    ground (arith, compare_bytes_trans c b a k' h', compare_bytes-swap c a)

pub before_asym :
    (r : Bool) (a b : Bytes) → before r a b ≡ Ordering.lt → before r b a ≡ Ordering.lt → ⊥
before_asym false a b h k = ground (arith, compare_bytes-swap a b)
before_asym true a b h k = ground (arith, compare_bytes-swap a b)

before-cases :
    (r : Bool) (a b : Bytes)
    → (before r b a ≡ Ordering.lt) ⊎ ((a ≡ b) ⊎ (before r a b ≡ Ordering.lt))
before-cases false a b = ground (arith, compare_bytes-swap a b, compare_bytes-eq a b)
before-cases true a b = ground (arith, compare_bytes-swap a b, compare_bytes-eq a b)

-- No id twice.
abbrev pub Distinct : List Bytes → Type 0
Distinct [] = Unit
Distinct (x ∷ xs) = (In x xs → ⊥) × Distinct xs

module _ (r : Bool) where
  abbrev IdBefore : Bytes → Bytes → Type 0
  IdBefore a b = before r a b ≡ Ordering.lt

  insert_further :
      (a b : Bytes) (bs : List Bytes) → IdBefore b a → insert_id r a (b ∷ bs) ≡ b ∷ insert_id r a bs
  unfolding insert_id
  insert_further a b bs h = ground arith

  insert_here :
      (a b : Bytes) (bs : List Bytes) → (IdBefore b a → ⊥) → insert_id r a (b ∷ bs) ≡ a ∷ b ∷ bs
  unfolding insert_id
  insert_here a b bs h = ground arith

  not_before : (a b : Bytes) → (a ≡ b) ⊎ IdBefore a b → IdBefore b a → ⊥
  not_before a b (inl e) h = before_asym r a a (rw (← e) at h) (rw (← e) at h)
  not_before a b (inr k) h = before_asym r a b k h

  In-insert_id : (x a : Bytes) (bs : List Bytes) → (x ≡ a) ⊎ In x bs → In x (insert_id r a bs)
  unfolding insert_id
  In-insert_id x a [] m = m
  In-insert_id x a (b ∷ bs) m = elim (before-cases r a b) [
    | inl h ↦ rw (insert_further a b bs h) (elim m [
      | inl e ↦ inr (In-insert_id x a bs (inl e))
      | inr n ↦ elim n [ inl e ↦ inl e | inr o ↦ inr (In-insert_id x a bs (inr o)) ]
    ])
    | inr h ↦ rw (insert_here a b bs (not_before a b h)) m
  ]

  insert_id-In : (x a : Bytes) (bs : List Bytes) → In x (insert_id r a bs) → (x ≡ a) ⊎ In x bs
  unfolding insert_id
  insert_id-In x a [] m = m
  insert_id-In x a (b ∷ bs) m = elim (before-cases r a b) [
    | inl h ↦ elim (rw (insert_further a b bs h) at m) [
      | inl e ↦ inr (inl e)
      | inr n ↦ elim (insert_id-In x a bs n) [ inl e ↦ inl e | inr o ↦ inr (inr o) ]
    ]
    | inr h ↦ rw (insert_here a b bs (not_before a b h)) at m
  ]

  pub In-sort_ids : (x : Bytes) (ids : List Bytes) → In x ids → In x (sort_ids r ids)
  unfolding sort_ids
  In-sort_ids x [] m = m
  In-sort_ids x (a ∷ as') (inl e) = In-insert_id x a (sort_ids r as') (inl e)
  In-sort_ids x (a ∷ as') (inr m) = In-insert_id x a (sort_ids r as') (inr (In-sort_ids x as' m))

  sort_ids-In : (x : Bytes) (ids : List Bytes) → In x (sort_ids r ids) → In x ids
  unfolding sort_ids
  sort_ids-In x [] m = m
  sort_ids-In x (a ∷ as') m = elim (insert_id-In x a (sort_ids r as') m) [
    | inl e ↦ inl e
    | inr n ↦ inr (sort_ids-In x as' n)
  ]

  Sorted-insert_id :
      (a : Bytes) (bs : List Bytes)
      → (In a bs → ⊥)
      → Sorted IdBefore bs
      → Sorted IdBefore (insert_id r a bs)
  unfolding insert_id
  Sorted-insert_id a [] new s = (tt, tt)
  Sorted-insert_id a (b ∷ bs) new s = elim (before-cases r a b) [
    | inl h ↦ rw (insert_further a b bs h) (
      In-All (IdBefore b) (insert_id r a bs) (λ x m. elim (insert_id-In x a bs m) [
        | inl e ↦ rw e h
        | inr n ↦ All-In (IdBefore b) bs x s.0 n
      ]),
      Sorted-insert_id a bs (λ m. new (inr m)) s.1,
    )
    | inr h ↦ rw (insert_here a b bs (not_before a b h)) (elim h [
      | inl e ↦ absurd (new (inl e))
      | inr k ↦ (
        (
          k,
          In-All (IdBefore a) bs (λ x m. before_trans r a b x k (All-In (IdBefore b) bs x s.0 m)),
        ),
        s,
      )
    ])
  ]

  pub Sorted-sort_ids : (ids : List Bytes) → Distinct ids → Sorted IdBefore (sort_ids r ids)
  unfolding sort_ids
  Sorted-sort_ids [] d = tt
  Sorted-sort_ids (a ∷ as') d =
      Sorted-insert_id a (sort_ids r as') (λ m. d.0 (sort_ids-In a as' m)) (Sorted-sort_ids as' d.1)

module _ (b : Bucket) where
  fetch-none : (id : Bytes) (ids : List Bytes) → b.get id ≡ none → fetch b (id ∷ ids) ≡ fetch b ids
  unfolding fetch
  fetch-none id ids h = ground arith

  fetch-some :
      (id v : Bytes) (ids : List Bytes)
      → b.get id ≡ some v
      → fetch b (id ∷ ids) ≡ (id, v) ∷ fetch b ids
  unfolding fetch
  fetch-some id v ids h = ground arith

  pub In-fetch :
      (k v : Bytes) (ids : List Bytes) → b.get k ≡ some v → In k ids → In (k, v) (fetch b ids)
  unfolding fetch
  In-fetch k v [] h m = m
  In-fetch k v (id ∷ ids) h (inl e) =
      rw (fetch-some id v ids (ap b.get (sym e) ∙ h)) (inl (ap (λ x. (x, v)) e))
  In-fetch k v (id ∷ ids) h (inr m) = elim (Option-cases (b.get id)) [
    | inl n ↦ rw (fetch-none id ids n) (In-fetch k v ids h m)
    | inr (w, s) ↦ rw (fetch-some id w ids s) (inr (In-fetch k v ids h m))
  ]

  pub fetch-In :
      (x : Item) (ids : List Bytes) → In x (fetch b ids) → (b.get x.0 ≡ some x.1) × In x.0 ids
  unfolding fetch
  fetch-In x [] m = absurd m
  fetch-In x (id ∷ ids) m = elim (Option-cases (b.get id)) [
    | inl n ↦ let (g, i) = fetch-In x ids (rw (fetch-none id ids n) at m) in (g, inr i)
    | inr (w, s) ↦ elim (rw (fetch-some id w ids s) at m) [
      | inl e ↦ (
        ap (λ (y : Item). b.get y.0) e ∙ s ∙ ap (λ (y : Item). some y.1) (sym e),
        inl (ap (λ (y : Item). y.0) e),
      )
      | inr i ↦ let (g, j) = fetch-In x ids i in (g, inr j)
    ]
  ]

  pub Sorted-fetch :
      (r : Bool) (ids : List Bytes)
      → Sorted (λ x y. before r x y ≡ Ordering.lt) ids
      → Sorted (KeyBefore r) (fetch b ids)
  unfolding fetch
  Sorted-fetch r [] s = tt
  Sorted-fetch r (id ∷ ids) s = elim (Option-cases (b.get id)) [
    | inl n ↦ rw (fetch-none id ids n) (Sorted-fetch r ids s.1)
    | inr (w, h) ↦ rw (fetch-some id w ids h) (
      In-All (KeyBefore r (id, w)) (fetch b ids)
          (λ x m. All-In (λ y. before r id y ≡ Ordering.lt) ids x.0 s.0 (fetch-In x ids m).1),
      Sorted-fetch r ids s.1,
    )
  ]

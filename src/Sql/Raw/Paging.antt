-- ===== src/Sql/Raw/Paging.antt =====
-- COUNT and the walk along the ids are pages of the records, as SELECT slices them.
use storm_rev.Base.{
  ℕ, zero, suc, ◌+◌, ◌-◌, ◌≤◌, ◌<◌, ◌⊎◌, ◌≡◌, refl, sym, ap, ◌∙◌, inl, inr, ℤ, pos, negsuc, leb_ℤ,
  ltb_ℤ, ◌&&◌, Bool, true, false, Bool-cases, Option-cases, Option, none, some, List, [], ◌∷◌,
  length, take, drop, drop-nil, take-nil, Outcome, ok, err, panic, ◌>>=◌, leb, ltb, arith,
  if◌then◌else◌,
}
use storm_rev.Base.Bytes.{Bytes}
use storm_rev.Value.{Host}
use storm_rev.Bucket.{Row, Bucket, walk}
use storm_rev.Q.Field.{raw}
use storm_rev.Q.Tree.{Matcher, match_value}
use storm_rev.Query.Sorter.{at_least_zero, is_zero}
use storm_rev.Query.Sorter.Paging.{cut, page}
use storm_rev.Sql.Raw.{
  record_of, records_of, slice_records, cursor_loop, select_by_cursor, match_records, select_raw,
  count_loop, count_raw,
}

drop_all : (n : ℕ) (xs : List Bytes) → length xs ≤ n → drop n xs ≡ []
drop_all zero [] h = refl
drop_all zero (x ∷ xs) h = absurd (omega (arith, h))
drop_all (suc n) [] h = refl
drop_all (suc n) (x ∷ xs) h = drop_all n xs (omega (arith, h))

take_all : (n : ℕ) (xs : List Bytes) → length xs ≤ n → take n xs ≡ xs
take_all zero [] h = refl
take_all zero (x ∷ xs) h = absurd (omega (arith, h))
take_all (suc n) [] h = refl
take_all (suc n) (x ∷ xs) h = ap (λ l. x ∷ l) (take_all n xs (omega (arith, h)))

cut_all : (n : ℕ) (xs : List Bytes) → (if ltb n (length xs) then take n xs else xs) ≡ take n xs
cut_all n xs = elim (Bool-cases (ltb n (length xs))) [
  | inl y ↦ rw y refl
  | inr k ↦ rw k (sym (take_all n xs (ground arith)))
]

cut_nil : (limit : ℤ) → cut {A = Bytes} limit [] ≡ []
cut_nil (pos n) = take-nil n
cut_nil (negsuc n) = refl

cut_cases :
    (limit : ℤ) (xs : List Bytes)
    → (elim limit [ negsuc n ↦ xs | pos n ↦ if ltb n (length xs) then take n xs else xs ])
      ≡ cut limit xs
cut_cases (pos n) xs = cut_all n xs
cut_cases (negsuc n) xs = refl

-- sliceRawRecords takes the page that the query engine takes.
pub slice_records-page :
    (skip limit : ℤ) (rs : List Bytes) → slice_records skip limit rs ≡ page skip limit rs
unfolding slice_records
slice_records-page skip limit rs = elim (Bool-cases (leb (length rs) (at_least_zero skip))) [
  | inl y ↦ rw (y, drop_all (at_least_zero skip) rs (ground arith)) (sym (cut_nil limit))
  | inr n ↦ rw n (cut_cases limit (drop (at_least_zero skip) rs))
]

minus_zero : (n : ℕ) → n - 0 ≡ n
minus_zero n = omega arith

-- Skip and limit, as the loop of countRawRecords tests them, on records that match.
counted : ℤ → ℤ → List Bytes → ℕ → ℕ → ℕ
counted skip limit [] matched count = count
counted skip limit (v ∷ l) matched count =
    let skip_one = counted skip limit l (suc matched) count in
    let count_one = counted skip limit l (suc matched) (suc count) in
    if leb_ℤ (pos (suc matched)) skip
    then skip_one
    else if leb_ℤ (pos 0) limit && leb_ℤ limit (pos count)
    then count
    else count_one

-- What is left of a limit.
lower : ℤ → ℕ → ℤ
lower (pos n) count = pos (n - count)
lower (negsuc n) count = negsuc n

skip_more :
    (skip : ℤ) (m : ℕ)
    → leb_ℤ (pos (suc m)) skip ≡ true
    → at_least_zero skip - m ≡ suc (at_least_zero skip - suc m)
skip_more (pos k) m h = ground arith
skip_more (negsuc k) m h = ground arith

skip_done :
    (skip : ℤ) (m : ℕ)
    → leb_ℤ (pos (suc m)) skip ≡ false
    → (at_least_zero skip - m ≡ 0) × (at_least_zero skip - suc m ≡ 0)
skip_done (pos k) m h = ground arith
skip_done (negsuc k) m h = ground arith

limit_met :
    (limit : ℤ) (c : ℕ) (xs : List Bytes)
    → (leb_ℤ (pos 0) limit && leb_ℤ limit (pos c)) ≡ true
    → cut (lower limit c) xs ≡ []
unfolding lower
limit_met (pos n) c xs h = let e : n - c ≡ 0 = ground arith in rw e
limit_met (negsuc n) c xs h = ground arith

limit_left :
    (limit : ℤ) (c : ℕ) (x : Bytes) (xs : List Bytes)
    → (leb_ℤ (pos 0) limit && leb_ℤ limit (pos c)) ≡ false
    → cut (lower limit c) (x ∷ xs) ≡ x ∷ cut (lower limit (suc c)) xs
unfolding lower
limit_left (pos n) c x xs h = let e : n - c ≡ suc (n - suc c) = ground arith in rw e
limit_left (negsuc n) c x xs h = refl

counted-page :
    (skip limit : ℤ) (l : List Bytes) (matched count : ℕ)
    → counted skip limit l matched count
      ≡ count + length (page (pos (at_least_zero skip - matched)) (lower limit count) l)
unfolding counted
counted-page skip limit [] matched count =
    rw (drop-nil {A = Bytes} (at_least_zero skip - matched), cut_nil (lower limit count))
      (omega arith)
counted-page skip limit (v ∷ l) matched count = elim (Bool-cases (leb_ℤ (pos (suc matched)) skip)) [
  | inl y ↦ rw (y, skip_more skip matched y) (counted-page skip limit l (suc matched) count)
  | inr n ↦
      let (e, f) = skip_done skip matched n in
      elim (Bool-cases (leb_ℤ (pos 0) limit && leb_ℤ limit (pos count))) [
        | inl met ↦ rw (n, e, met, limit_met limit count (v ∷ l) met) (omega arith)
        | inr left ↦
            rw (n, e, left, limit_left limit count v l left)
              (counted-page skip limit l (suc matched) (suc count) ∙ rw f (omega arith))
      ]
]

-- How a record was matched, where the scan ended with a list.
match_cases :
    (v : Bytes) (x : Outcome Bool) (rest : Outcome (List Bytes)) (l : List Bytes)
    → (x >>= λ matched. rest >>= λ rs. ok (if matched then v ∷ rs else rs)) ≡ ok l
    → ((x ≡ ok true) × (r : List Bytes) × (rest ≡ ok r) × (l ≡ v ∷ r))
      ⊎ ((x ≡ ok false) × (rest ≡ ok l))
match_cases v (ok true) (ok r) l h = inl (refl, r, refl, ground arith)
match_cases v (ok false) (ok r) l h = inr (refl, h)
match_cases v (ok b) (err e) l h = cc
match_cases v (ok b) panic l h = cc
match_cases v (err e) rest l h = cc
match_cases v panic rest l h = cc

module _ (H : Host) (m : Matcher H.Float) where
  count_loop-counted :
      (skip limit : ℤ) (rows : List Row) (l : List Bytes) (matched count : ℕ)
      → match_records H m rows ≡ ok l
      → count_loop H m skip limit rows matched count ≡ ok (counted skip limit l matched count)
  unfolding count_loop match_records counted
  count_loop-counted skip limit [] l matched count h = let e : l ≡ [] = ground arith in rw e refl
  count_loop-counted skip limit (row ∷ rows) l matched count h =
      elim (Option-cases (record_of row)) [
        | inl gone ↦
            rw (gone, count_loop)
              (count_loop-counted skip limit rows l matched count (rw (gone, match_records) at h))
        | inr (v, here) ↦
            elim (match_cases v (match_value H m (raw v)) (match_records H m rows) l
              (rw (here, match_records) at h)) [
                | inl (t, r, e, f) ↦
                    rw (here, count_loop, t, f)
                      (ground (
                        arith,
                        count_loop-counted skip limit rows r (suc matched) count e,
                        count_loop-counted skip limit rows r (suc matched) (suc count) e,
                      ))
                | inr (t, e) ↦
                    rw (here, count_loop, t) (count_loop-counted skip limit rows l matched count e)
              ]
      ]

  lower_start : (limit : ℤ) → lower limit 0 ≡ limit
  unfolding lower
  lower_start (pos n) = ap pos (minus_zero n)
  lower_start (negsuc n) = refl

  counted_all :
      (skip limit : ℤ) (l : List Bytes) → counted skip limit l 0 0 ≡ length (page skip limit l)
  counted_all skip limit l = counted-page skip limit l 0 0 ∙ rw (lower_start limit) (same skip)
    where
      same :
          (s : ℤ) → 0 + length (page (pos (at_least_zero s - 0)) limit l) ≡ length (page s limit l)
      same (pos n) = rw (minus_zero n) (omega arith)
      same (negsuc n) = omega arith

  -- Where the scan of SELECT ends with records, COUNT(*) with the same WHERE, LIMIT and OFFSET is the
  -- number of records that SELECT returns, also where LIMIT stops it early or is 0, and also where
  -- the table has no bucket.
  pub count_raw-length :
      (skip limit : ℤ) (b : Option Bucket) (rs : List Bytes)
      → select_raw H m skip limit b ≡ ok rs
      → count_raw H m skip limit b ≡ ok (length rs)
  unfolding select_raw count_raw
  count_raw-length skip limit none rs h =
      let e : slice_records skip limit [] ≡ rs = ground arith in
      rw
        (
          sym e,
          slice_records-page skip limit [],
          drop-nil {A = Bytes} (at_least_zero skip),
          cut_nil limit,
        )
        refl
  count_raw-length skip limit (some b) rs h =
      let (l, e, f) = sliced (match_records H m (walk false b)) h in
      rw (sym f, slice_records-page skip limit l) (by_limit limit l e)
    where
      sliced :
          (r : Outcome (List Bytes))
          → (r >>= λ l. ok (slice_records skip limit l)) ≡ ok rs
          → (l : List Bytes) × (r ≡ ok l) × (slice_records skip limit l ≡ rs)
      sliced (ok l) h = (l, refl, ground arith)
      sliced (err e) h = cc
      sliced panic h = cc

      by_limit :
          (lim : ℤ) (l : List Bytes)
          → match_records H m (walk false b) ≡ ok l
          → (if is_zero lim then ok 0 else count_loop H m skip lim (walk false b) 0 0)
            ≡ ok (length (page skip lim l))
      by_limit (pos zero) l e = refl
      by_limit (pos (suc n)) l e =
          count_loop-counted skip (pos (suc n)) (walk false b) l 0 0 e
          ∙ ap ok (counted_all skip (pos (suc n)) l)
      by_limit (negsuc n) l e =
          count_loop-counted skip (negsuc n) (walk false b) l 0 0 e
          ∙ ap ok (counted_all skip (negsuc n) l)

further :
    (skip : ℤ) (m : ℕ)
    → ltb_ℤ (pos m) skip ≡ true
    → at_least_zero skip - m ≡ suc (at_least_zero skip - suc m)
further (pos k) m h = ground arith
further (negsuc k) m h = ground arith

reached : (skip : ℤ) (m : ℕ) → ltb_ℤ (pos m) skip ≡ false → at_least_zero skip - m ≡ 0
reached (pos k) m h = ground arith
reached (negsuc k) m h = ground arith

cursor_loop-page :
    (skip : ℤ) (n : ℕ) (rows : List Row) (skipped kept : ℕ)
    → kept < n
    → cursor_loop skip (pos n) rows skipped kept
      ≡ page (pos (at_least_zero skip - skipped)) (pos (n - kept)) (records_of rows)
unfolding cursor_loop records_of
cursor_loop-page skip n [] skipped kept h =
    rw (drop-nil {A = Bytes} (at_least_zero skip - skipped)) (sym (take-nil {A = Bytes} (n - kept)))
cursor_loop-page skip n (row ∷ rows) skipped kept h = elim (Option-cases (record_of row)) [
  | inl gone ↦ rw (gone, cursor_loop, records_of) (cursor_loop-page skip n rows skipped kept h)
  | inr (v, here) ↦ elim (Bool-cases (ltb_ℤ (pos skipped) skip)) [
    | inl y ↦
        rw (here, cursor_loop, records_of, y, further skip skipped y)
          (cursor_loop-page skip n rows (suc skipped) kept h)
    | inr k ↦ elim (Bool-cases (leb_ℤ (pos n) (pos (suc kept)))) [
      | inl last ↦
          let e : n - kept ≡ 1 = ground arith in
          rw (here, cursor_loop, records_of, k, reached skip skipped k, last, e) refl
      | inr more ↦
          let e : n - kept ≡ suc (n - suc kept) = ground arith in
          let again = cursor_loop-page skip n rows skipped (suc kept) (ground arith) in
          rw (here, cursor_loop, records_of, k, reached skip skipped k, more, e)
            (ap (λ l. v ∷ l) (again ∙ rw (reached skip skipped k) refl))
    ]
  ]
]

-- For a limit that is not negative, which the walk along the ids requires, it returns what slicing
-- all records of the bucket in the order of the walk returns, though it stops at the limit.
pub select_by_cursor-slice :
    (reversed : Bool) (skip : ℤ) (n : ℕ) (b : Bucket)
    → select_by_cursor reversed skip (pos n) (some b)
      ≡ slice_records skip (pos n) (records_of (walk reversed b))
unfolding select_by_cursor
select_by_cursor-slice reversed skip zero b =
    sym (slice_records-page skip (pos 0) (records_of (walk reversed b)))
select_by_cursor-slice reversed skip (suc n) b =
    cursor_loop-page skip (suc n) (walk reversed b) 0 0 (omega arith)
    ∙ start skip
    ∙ sym (slice_records-page skip (pos (suc n)) (records_of (walk reversed b)))
  where
    start :
        (s : ℤ)
        → page (pos (at_least_zero s - 0)) (pos (suc n - 0)) (records_of (walk reversed b))
          ≡ page s (pos (suc n)) (records_of (walk reversed b))
    start (pos k) = rw (minus_zero k, minus_zero (suc n)) refl
    start (negsuc k) = rw (minus_zero (suc n)) refl

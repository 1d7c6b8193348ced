-- ===== src/Indexer/Tables/Trust.antt =====
-- bleve_index.go and bleve_batch.go: that a table with work outstanding is not trusted, and the safe
-- names.
use mathlib.Core.Path.{subst}
use storm_rev.Base.{
  ◌≢◌, ◌≡◌, refl, sym, ap, ◌∙◌, inl, inr, ℕ, suc, ◌+◌, ◌-◌, ◌≤◌, ◌<◌, true, false, Bool-cases, ◌||◌,
  List, [], ◌∷◌, Option, none, some, Error, ltb, All, lt→ltb, arith, if◌then◌else◌,
}
use storm_rev.Base.Bytes.{Bytes, bytes_eq, bytes_eq_iff}
use storm_rev.Indexer.Tables.{
  Marks, no_marks, set_dirty, set_pending, is_dirty, mark_pending, failed_dirty, finish_pending,
  drop_marks, is_safe, safe_runes, safe_index_name,
}

-- What happens to the marks: requests are queued and finished, with the tables that they name, and
-- tables are marked, cleared and dropped.
pub data Event : Type 0 where
  queued : List Bytes → Event
  finished : List Bytes → Option Error → Event
  marked cleared dropped : Bytes → Event

abbrev pub run_event : Event → Marks → Marks
run_event (queued ts) m = mark_pending ts m
run_event (finished ts e) m = finish_pending ts e m
run_event (marked t) m = set_dirty t true m
run_event (cleared t) m = set_dirty t false m
run_event (dropped t) m = drop_marks t m

abbrev pub run_events : List Event → Marks → Marks
run_events [] m = m
run_events (e ∷ es) m = run_events es (run_event e m)

-- How often a request names a table, and all queued or finished ones do.
abbrev pub count : Bytes → List Bytes → ℕ
count t [] = 0
count t (u ∷ us) = if bytes_eq u t then suc (count t us) else count t us

abbrev pub all_queued : Bytes → List Event → ℕ
all_queued t [] = 0
all_queued t (queued ts ∷ es) = count t ts + all_queued t es
all_queued t (finished ts e ∷ es) = all_queued t es
all_queued t (marked u ∷ es) = all_queued t es
all_queued t (cleared u ∷ es) = all_queued t es
all_queued t (dropped u ∷ es) = all_queued t es

abbrev pub all_finished : Bytes → List Event → ℕ
all_finished t [] = 0
all_finished t (finished ts e ∷ es) = count t ts + all_finished t es
all_finished t (queued ts ∷ es) = all_finished t es
all_finished t (marked u ∷ es) = all_finished t es
all_finished t (cleared u ∷ es) = all_finished t es
all_finished t (dropped u ∷ es) = all_finished t es

-- Events without a drop of the table in which, from n outstanding ones on, no more requests finish
-- than were queued before.
abbrev pub Causal : Bytes → ℕ → List Event → Type 0
Causal t n [] = Unit
Causal t n (queued ts ∷ es) = Causal t (n + count t ts) es
Causal t n (finished ts e ∷ es) = (count t ts ≤ n) × Causal t (n - count t ts) es
Causal t n (marked u ∷ es) = Causal t n es
Causal t n (cleared u ∷ es) = Causal t n es
Causal t n (dropped u ∷ es) = (bytes_eq u t ≡ false) × Causal t n es

mark_pending-count :
    (t : Bytes) (ts : List Bytes) (m : Marks)
    → (mark_pending ts m).pending t ≡ m.pending t + count t ts
unfolding mark_pending
mark_pending-count t [] m = omega arith
mark_pending-count t (u ∷ us) m =
    mark_pending-count t us (set_pending u (suc (m.pending u)) m)
    ∙ elim (Bool-cases (bytes_eq u t)) [
      | inl y ↦
          let e : m.pending u ≡ m.pending t = ap m.pending ((bytes_eq_iff u t).0 y) in
          rw y (omega (arith, e))
      | inr n ↦ rw n refl
    ]

failed_dirty-pending :
    (e : Option Error) (u t : Bytes) (m : Marks) → (failed_dirty e u m).pending t ≡ m.pending t
failed_dirty-pending none u t m = refl
failed_dirty-pending (some e) u t m = refl

if_pred : (n : ℕ) → (if ltb 1 n then n - 1 else 0) ≡ n - 1
if_pred n = ground arith

finish_pending-count :
    (t : Bytes) (ts : List Bytes) (e : Option Error) (m : Marks)
    → (finish_pending ts e m).pending t ≡ m.pending t - count t ts
unfolding finish_pending
finish_pending-count t [] e m = omega arith
finish_pending-count t (u ∷ us) e m =
    let p = if ltb 1 (m.pending u) then m.pending u - 1 else 0 in
    finish_pending-count t us e (failed_dirty e u (set_pending u p m))
    ∙ ap (λ n. n - count t us) (failed_dirty-pending e u t (set_pending u p m))
    ∙ elim (Bool-cases (bytes_eq u t)) [
      | inl y ↦
          let e' : m.pending u ≡ m.pending t = ap m.pending ((bytes_eq_iff u t).0 y) in
          let q : p ≡ m.pending t - 1 = (if_pred (m.pending u) ∙ ap (λ n. n - 1) e') in
          rw y (omega (arith, q))
      | inr n ↦ rw n refl
    ]

-- Requests that are queued and not finished yet are counted.
pending_balance :
    (t : Bytes) (es : List Event) (m : Marks)
    → Causal t (m.pending t) es
    → (run_events es m).pending t + all_finished t es ≡ m.pending t + all_queued t es
unfolding set_dirty drop_marks
pending_balance t [] m c = refl
pending_balance t (queued ts ∷ es) m c =
    let k = mark_pending-count t ts m in
    let r = pending_balance t es (mark_pending ts m) (subst (λ n. Causal t n es) (sym k) c) in
    omega (arith, k, r)
pending_balance t (finished ts e ∷ es) m c =
    let k = finish_pending-count t ts e m in
    let r = pending_balance t es (finish_pending ts e m) (subst (λ n. Causal t n es) (sym k) c.1) in
    omega (arith, k, r, c.0)
pending_balance t (marked u ∷ es) m c = pending_balance t es (set_dirty u true m) c
pending_balance t (cleared u ∷ es) m c = pending_balance t es (set_dirty u false m) c
pending_balance t (dropped u ∷ es) m c =
    let k : (drop_marks u m).pending t ≡ m.pending t = rw (c.0) refl in
    let r = pending_balance t es (drop_marks u m) (subst (λ n. Causal t n es) (sym k) c.1) in
    omega (arith, k, r)

-- As long as fewer requests of a table were finished than were queued, the table counts as dirty
-- and its index is not trusted, whatever was marked and cleared in between and whatever errors the
-- requests ended with. The events start with a new manager, no more requests finish at any time than
-- were queued before, and the table is not dropped.
pub is_dirty-outstanding :
    (t : Bytes) (es : List Event)
    → Causal t 0 es
    → all_finished t es < all_queued t es
    → is_dirty (run_events es no_marks) t ≡ true
unfolding is_dirty
is_dirty-outstanding t es c l =
    let b = pending_balance t es no_marks c in
    let p : ltb 0 ((run_events es no_marks).pending t) ≡ true = lt→ltb 0 _ (omega (arith, b, l)) in
    rw p (elim ((run_events es no_marks).dirty t) as (λ d. (d || true) ≡ true) [
      | true ↦ refl
      | false ↦ refl
    ])

safe_rune-kept : (r : ℕ) → is_safe (if is_safe r then r else 95) ≡ true
safe_rune-kept r = elim (Bool-cases (is_safe r)) [ inl y ↦ rw (y, y) refl | inr n ↦ rw n refl ]

safe_runes-All : (rs : List ℕ) → All (λ r. is_safe r ≡ true) (safe_runes rs)
safe_runes-All [] = tt
safe_runes-All (r ∷ rs) = (safe_rune-kept r, safe_runes-All rs)

safe_runes-same : (rs : List ℕ) → All (λ r. is_safe r ≡ true) rs → safe_runes rs ≡ rs
safe_runes-same [] a = refl
safe_runes-same (r ∷ rs) a = rw (a.0) (ap (λ l. r ∷ l) (safe_runes-same rs a.1))

-- The name that safeIndexName makes is never empty, holds only the runes a-z, A-Z, 0-9, '_' and '-',
-- so that it names a file in the directory of the indexes and no other, and is left as it is when it
-- is made safe again.
pub safe_index_name-safe :
    (name : List ℕ)
    → (safe_index_name name ≢ [])
      × All (λ r. is_safe r ≡ true) (safe_index_name name)
      × (safe_index_name (safe_index_name name) ≡ safe_index_name name)
unfolding safe_index_name
safe_index_name-safe [] = (λ h. cc, (refl, tt), refl)
safe_index_name-safe (r ∷ rs) = (
  λ h. cc,
  safe_runes-All (r ∷ rs),
  safe_runes-same (safe_runes (r ∷ rs)) (safe_runes-All (r ∷ rs)),
)

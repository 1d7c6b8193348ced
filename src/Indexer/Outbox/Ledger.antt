-- ===== src/Indexer/Outbox/Ledger.antt =====
-- bleve_outbox.go: the jobs that wait against the numbers that are stored for each table.
use mathlib.Core.Path.{subst}
use storm_rev.Base.{
  ◌≡◌, refl, sym, ap, ◌∙◌, inl, inr, ℕ, ◌≤◌, ◌<◌, Bool, true, false, Bool-cases, some, List, [],
  ◌∷◌, select, All, Outcome, ok, err, panic, bind_ok, arith, if◌then◌else◌,
}
use storm_rev.Base.Bytes.{Bytes, bytes_eq, bytes_eq_iff, bytes_eq_sym}
use storm_rev.Meta.{among}
use storm_rev.Indexer.Outbox.{
  JobMutation, Job, or_zero, IndexState, States, Outbox, read_state, write_state, change_states,
}

-- A state whose index has not applied the job of a sequence yet, which it is to apply.
abbrev pub Behind : ℕ → Outcome IndexState → Type 0
Behind k (ok st) = (st.applied < k) × (k ≤ st.desired)
Behind k (err e) = ⊥
Behind k panic = ⊥

-- A state with numbers up to the sequence of the outbox.
abbrev pub Bounded : ℕ → Outcome IndexState → Type 0
Bounded n (ok st) = (st.applied ≤ n) × (st.desired ≤ n)
Bounded n (err e) = Unit
Bounded n panic = Unit

-- The table of a mutation is behind; a table without a name has no state.
abbrev pub Tracked : ℕ → States → JobMutation → Type 0
Tracked k states m = if bytes_eq m.table [] then Unit else Behind k (read_state states m.table)

abbrev pub Waits : ℕ → States → Outcome Job → Type 0
Waits k states (ok job) = All (Tracked k states) job.mutations
Waits k states (err e) = Unit
Waits k states panic = Unit

abbrev pub Recorded : ℕ → States → ℕ × Outcome Job → Type 0
Recorded n states e = (e.0 ≤ n) × Waits e.0 states e.1

-- The numbers of every table are bounded, and every table that a waiting job mentions is behind
-- that job.
abbrev pub Valid : Outbox → Type 0
Valid s =
    ((t : Bytes) → Bounded s.sequence (read_state s.states t))
    × All (Recorded s.sequence s.states) s.entries

module _ {A : Type 0} where
  pub map_All : (P Q : A → Type 0) (xs : List A) → ((x : A) → P x → Q x) → All P xs → All Q xs
  map_All P Q [] f h = tt
  map_All P Q (x ∷ xs) f h = (f x h.0, map_All P Q xs f h.1)

  pub select-All : (P : A → Type 0) (p : A → Bool) (xs : List A) → All P xs → All P (select p xs)
  select-All P p [] h = tt
  select-All P p (x ∷ xs) h = elim (Bool-cases (p x)) [
    | inl y ↦ rw y (h.0, select-All P p xs h.1)
    | inr n ↦ rw n (select-All P p xs h.1)
  ]

pub read_write :
    (t u : Bytes) (st : IndexState) (states : States)
    → read_state (write_state t st states) u ≡ (if bytes_eq t u then ok st else read_state states u)
unfolding read_state write_state
read_write t u st states =
    elim (bytes_eq t u)
      as (λ b.
        or_zero (if b then some (ok st) else states u)
        ≡ (if b then ok st else or_zero (states u))) [ true ↦ refl | false ↦ refl ]

-- What holds of a state before the changes holds after them, if a change keeps it.
pub change_states-keeps :
    (P : Outcome IndexState → Type 0) (f : IndexState → IndexState) (ts : List Bytes)
    (states after : States)
    → ((st : IndexState) → P (ok st) → P (ok (f st)))
    → change_states f ts states ≡ ok after
    → (u : Bytes) → P (read_state states u)
    → P (read_state after u)
unfolding change_states
change_states-keeps P f [] states after k h u p =
    let e : states ≡ after = cc in subst (λ x. P (read_state x u)) e p
change_states-keeps P f (t ∷ ts) states after k h u p =
    let (st, r, rest) = bind_ok (read_state states t) _ after h in
    change_states-keeps P f ts (write_state t (f st) states) after k rest u (
      subst P (sym (read_write t u (f st) states)) (elim (Bool-cases (bytes_eq t u)) [
        | inl y ↦
            rw y (k st (subst P (ap (read_state states) (sym ((bytes_eq_iff t u).0 y)) ∙ r) p))
        | inr n ↦ rw n p
      ]))

-- What a change makes of a state that satisfies P holds, after the changes, of the tables that they
-- change.
pub change_states-makes :
    (P Q : Outcome IndexState → Type 0) (f : IndexState → IndexState) (ts : List Bytes)
    (states after : States)
    → ((st : IndexState) → P (ok st) → Q (ok (f st)))
    → ((st : IndexState) → Q (ok st) → Q (ok (f st)))
    → change_states f ts states ≡ ok after
    → (u : Bytes) → among u ts ≡ true
    → P (read_state states u)
    → Q (read_state after u)
unfolding change_states
change_states-makes P Q f [] states after k q h u m p = cc
change_states-makes P Q f (t ∷ ts) states after k q h u m p =
    let (st, r, rest) = bind_ok (read_state states t) _ after h in
    elim (Bool-cases (bytes_eq t u)) [
      | inl y ↦ change_states-keeps Q f ts (write_state t (f st) states) after q rest u (
          subst Q (sym (read_write t u (f st) states))
            (rw y (k st (subst P (ap (read_state states) (sym ((bytes_eq_iff t u).0 y)) ∙ r) p))))
      | inr n ↦
          change_states-makes P Q f ts (write_state t (f st) states) after k q rest u
            (ground (arith, bytes_eq_sym t u n, m))
            (subst P (sym (read_write t u (f st) states)) (rw n p))
    ]

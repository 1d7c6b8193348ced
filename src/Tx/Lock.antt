-- ===== src/Tx/Lock.antt =====
-- The mutex of the index work is released once, whatever copies of the node end the transaction.
use storm_rev.Base.{
  ℕ, zero, suc, get_elem?, ◌++◌, ◌≡◌, refl, sym, ◌∙◌, inl, inr, Bool, true, false, Bool-cases,
  Option-cases, Option, none, some, List, [], ◌∷◌, All, All-append, Error, Outcome, ok, arith,
  if◌then◌else◌,
}
use storm_rev.Tx.{
  Shared, Handle, Calls, Done, World, Op, copied, rolled_back, committed, unlock, release, cleared,
  commit_error, after_job, finish_commit, Op, rollback, commit, set_handle, keep, step, run,
  started,
}

-- A node of a writable transaction has its txState as long as it has its tx.
abbrev pub IsWhole : Handle → Type 0
IsWhole h = h.tx ≡ h.state

-- Each node is whole, and indexCommitLocked tells whether the mutex is held.
pub record IsOrdered (w : World) : Type 0 where
  pub whole : All IsWhole w.handles
  pub honest : w.shared.locked ≡ w.shared.held

released :
    (h : Handle) (s : Shared)
    → s.locked ≡ s.held
    → (s' : Shared) × (release h s ≡ ok s')
      × (s'.locked ≡ s'.held)
      × (h.state ≡ true → s'.held ≡ false)
unfolding release unlock
released h s e = elim (Bool-cases h.state) [
  | inr f ↦ (s, rw f refl, e, λ t. cc)
  | inl t ↦ elim (Bool-cases s.locked) [
    | inr f ↦ (s, rw (t, f) refl, e, λ u. sym e ∙ f)
    | inl k ↦
        let taken : s.held ≡ true = sym e ∙ k in
        (record { held = false; locked = false }, rw (t, k, taken) refl, refl, λ u. refl)
  ]
]

rollback_ok :
    (c : Calls) (h : Handle) (s s' : Shared)
    → h.tx ≡ true
    → release h s ≡ ok s'
    → rollback c h s ≡ ok (record { error = c.rollback; handle = cleared; shared = s' })
unfolding rollback
rollback_ok c h s s' t r = rw (t, r) refl

-- The error that Commit returns of a node in the transaction: that of writing the job or of bbolt's
-- Commit, and else, where there is index work, that of the wait or of the reindexing.
abbrev pub final_error : Bool → Calls → Option Error
final_error async c = elim (commit_error c) [
  | some e ↦ some e
  | none ↦ if c.has_work then after_job async c else none
]

finish_ok :
    (async : Bool) (c : Calls) (h : Handle) (s s' : Shared) (o : Option Error)
    → release h s ≡ ok s'
    → finish_commit async c h s o
      ≡ ok (record {
        error = elim o [ some e ↦ some e | none ↦ if c.has_work then after_job async c else none ];
        handle = cleared;
        shared = s';
      })
unfolding finish_commit
finish_ok async c h s s' (some e) r = rw r refl
finish_ok async c h s s' none r = elim (Bool-cases c.has_work) [
  | inl y ↦ rw (y, r) refl
  | inr n ↦ rw (n, r) refl
]

commit_ok :
    (async : Bool) (c : Calls) (h : Handle) (s s' : Shared)
    → h.tx ≡ true
    → release h s ≡ ok s'
    → commit async c h s
      ≡ ok (record { error = final_error async c; handle = cleared; shared = s' })
unfolding commit
commit_ok async c h s s' t r = simp t (finish_ok async c h s s' (commit_error c) r)

-- What a call that may end the transaction leaves: it comes back, the node is whole, the flag is
-- honest, and the mutex is free if the node was in the transaction.
abbrev Ends : Outcome Done → Handle → Type 0
Ends r h =
    (d : Done) × (r ≡ ok d)
    × IsWhole d.handle
    × (d.shared.locked ≡ d.shared.held)
    × (h.tx ≡ true → d.shared.held ≡ false)

rollback-Ends :
    (c : Calls) (h : Handle) (s : Shared) → IsWhole h → s.locked ≡ s.held → Ends (rollback c h s) h
unfolding rollback
rollback-Ends c h s w e = elim (Bool-cases h.tx) [
  | inr f ↦ (
    record { error = some Error.not_in_transaction; handle = h; shared = s },
    rw f refl,
    w,
    e,
    λ t. cc,
  )
  | inl t ↦
      let (s', r, g, k) = released h s e in
      (
        record { error = c.rollback; handle = cleared; shared = s' },
        rollback_ok c h s s' t r,
        refl,
        g,
        λ u. k (sym w ∙ t),
      )
]

commit-Ends :
    (async : Bool) (c : Calls) (h : Handle) (s : Shared)
    → IsWhole h
    → s.locked ≡ s.held
    → Ends (commit async c h s) h
unfolding commit
commit-Ends async c h s w e = elim (Bool-cases h.tx) [
  | inr f ↦ (
    record { error = some Error.not_in_transaction; handle = h; shared = s },
    rw f refl,
    w,
    e,
    λ t. cc,
  )
  | inl t ↦
      let (s', r, g, k) = released h s e in
      (
        record { error = final_error async c; handle = cleared; shared = s' },
        commit_ok async c h s s' t r,
        refl,
        g,
        λ u. k (sym w ∙ t),
      )
]

-- Each further call on the node returns ErrNotInTransaction and changes nothing.
abbrev pub Finished : Bool → Calls → Done → Type 0
Finished async again d =
    (rollback again d.handle d.shared ≡ ok (record d { error = some Error.not_in_transaction }))
    × (commit async again d.handle d.shared
        ≡ ok (record d { error = some Error.not_in_transaction }))

set_handle-All :
    (i : ℕ) (h : Handle) (hs : List Handle)
    → IsWhole h
    → All IsWhole hs
    → All IsWhole (set_handle i h hs)
set_handle-All i h [] w a = tt
set_handle-All zero h (x ∷ xs) w a = (w, a.1)
set_handle-All (suc i) h (x ∷ xs) w a = (a.0, set_handle-All i h xs w a.1)

IsWhole-at :
    (i : ℕ) (h : Handle) (hs : List Handle) → All IsWhole hs → get_elem? hs i ≡ some h → IsWhole h
IsWhole-at i h [] a e = cc
IsWhole-at zero h (x ∷ xs) a e = let d : x ≡ h = ground arith in rw (sym d) a.0
IsWhole-at (suc i) h (x ∷ xs) a e = IsWhole-at i h xs a.1 e

-- What a step comes to.
abbrev Continues : Outcome World → Type 0
Continues r = (w : World) × (r ≡ ok w) × IsOrdered w

keep-Continues :
    (i : ℕ) (h : Handle) (w : World) (r : Outcome Done)
    → IsOrdered w
    → Ends r h
    → Continues (keep i w.handles r)
keep-Continues i h w r o (d, e, whole, honest, free) = (
  record { handles = set_handle i d.handle w.handles; shared = d.shared },
  rw e refl,
  record { whole = set_handle-All i d.handle w.handles whole o.whole; honest = honest },
)

step-Continues : (op : Op) (w : World) → IsOrdered w → Continues (step op w)
unfolding step
step-Continues (copied i) w o = elim (Option-cases (get_elem? w.handles i)) [
  | inl n ↦ (w, rw (n, step) refl, o)
  | inr (h, e) ↦ (
    record w { handles = w.handles ++ h ∷ [] },
    rw (e, step) refl,
    record {
      whole =
          All-append IsWhole w.handles (h ∷ []) o.whole (IsWhole-at i h w.handles o.whole e, tt);
      honest = o.honest;
    },
  )
]
step-Continues (rolled_back i c) w o = elim (Option-cases (get_elem? w.handles i)) [
  | inl n ↦ (w, rw (n, step) refl, o)
  | inr (h, e) ↦
      rw (e, step)
        (keep-Continues i h w _ o
          (rollback-Ends c h w.shared (IsWhole-at i h w.handles o.whole e) o.honest))
]
step-Continues (committed i async c) w o = elim (Option-cases (get_elem? w.handles i)) [
  | inl n ↦ (w, rw (n, step) refl, o)
  | inr (h, e) ↦
      rw (e, step)
        (keep-Continues i h w _ o
          (commit-Ends async c h w.shared (IsWhole-at i h w.handles o.whole e) o.honest))
]

run-Continues : (ops : List Op) (w : World) → IsOrdered w → Continues (run ops w)
unfolding run
run-Continues [] w o = (w, refl, o)
run-Continues (op ∷ ops) w o =
    let (w', e, o') = step-Continues op w o in rw e (run-Continues ops w' o')

-- Whatever copies are made of the node of a writable transaction, and in whatever order Commit and
-- Rollback are called on them, with whatever answers, no call unlocks a mutex that is not held: all
-- calls come back, and indexCommitLocked still tells whether the mutex is held.
pub run_never_panics :
    (ops : List Op) → (w : World) × (run ops started ≡ ok w) × (w.shared.locked ≡ w.shared.held)
run_never_panics ops =
    let (w, e, o) = run-Continues ops started (record { whole = (refl, tt); honest = refl }) in
    (w, e, o.honest)

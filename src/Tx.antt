-- ===== src/Tx.antt =====
-- transaction.go: Begin, Commit and Rollback of a node, and the mutex that orders index work.
pub mod Lock
use storm_rev.Base.{
  ℕ, zero, suc, get_elem?, ◌++◌, ◌≡◌, Bool, true, false, not, ◌&&◌, ◌||◌, Option, none, some, List,
  [], ◌∷◌, Error, not_in_transaction, Outcome, ok, err, panic, ◌>>=◌, if◌then◌else◌,
}

-- indexCommitMu together with the transactionState that a writable Begin makes: whether the mutex is
-- held by the transaction, and indexCommitLocked.
pub record Shared : Type 0 where
  pub held : Bool
  pub locked : Bool

-- A node of the transaction, the one that Begin returned or a copy of it by From or WithCodec: whether
-- its `tx` and its `txState` are set. The copies share the transactionState.
pub record Handle : Type 0 where
  pub tx : Bool
  pub state : Bool

-- Unlock of a mutex that is not held is a fatal error.
unfoldable pub unlock : Shared → Outcome Shared
unlock s = if s.held then ok (record s { held = false; locked = false }) else panic

-- releaseTransactionIndexCommitLock
unfoldable pub release : Handle → Shared → Outcome Shared
unfolding unlock
release h s = if not h.state || not s.locked then ok s else unlock s

-- the node after clearTransaction and `n.txState = nil`
abbrev pub cleared : Handle
cleared = record { tx = false; state = false }

-- What the calls of Rollback and Commit come back with: bbolt's Rollback or Commit with the job's
-- write before it, whether there is index work, the wait for the job, and the reindexing.
pub record Calls : Type 0 where
  pub rollback : Option Error
  pub persist : Option Error
  pub commit : Option Error
  pub has_work : Bool
  pub wait : Option Error
  pub reindex : Option Error

-- What a call leaves: the error that it returns, the node, and the shared state.
pub record Done : Type 0 where
  pub error : Option Error
  pub handle : Handle
  pub shared : Shared

-- The node of Begin, for a writable transaction: the mutex is locked first. `none` is a Begin of
-- bbolt's that failed.
unfoldable pub begin : Bool → Option Error → Shared → Outcome (Option Handle × Shared)
unfolding release
begin false none s = ok (some (record { tx = true; state = false }), s)
begin false (some e) s = ok (none, s)
begin true none s =
    ok (some (record { tx = true; state = true }), record { held = true; locked = true })
begin true (some e) s =
    release (record { tx = false; state = true }) (record { held = true; locked = true }) >>= λ s'.
    ok (none, s')

-- Rollback
unfoldable pub rollback : Calls → Handle → Shared → Outcome Done
unfolding release
rollback c h s =
    if not h.tx
    then ok (record { error = some not_in_transaction; handle = h; shared = s })
    else release h s >>= λ s'. ok (record { error = c.rollback; handle = cleared; shared = s' })

-- the error of persistDurableIndexJob, and else that of the commit
abbrev pub commit_error : Calls → Option Error
commit_error c = elim c.persist [ some e ↦ some e | none ↦ c.commit ]

-- `n.txState = nil`, after releaseTransactionIndexCommitLock, and the error that is returned
abbrev pub ended : Option Error → Outcome Shared → Outcome Done
ended e r = r >>= λ s. ok (record { error = e; handle = cleared; shared = s })

-- the wait, which an asynchronous store skips, and the reindexing of the dirty tables
abbrev pub after_job : Bool → Calls → Option Error
after_job async c = elim (if async then none else c.wait) [ some e ↦ some e | none ↦ c.reindex ]

-- Commit, from where bbolt's Commit or Rollback has returned: the exit on an error, the one without
-- index work, and the one that submits the job and then waits and reindexes. Each releases the mutex
-- by a call of its own.
unfoldable pub finish_commit : Bool → Calls → Handle → Shared → Option Error → Outcome Done
unfolding release
finish_commit async c h s (some e) = ended (some e) (release h s)
finish_commit async c h s none =
    if not c.has_work
    then ended none (release h s)
    else release h s >>= λ s'.
        ok (record { error = after_job async c; handle = cleared; shared = s' })

-- Commit
unfoldable pub commit : Bool → Calls → Handle → Shared → Outcome Done
unfolding finish_commit
commit async c h s =
    if not h.tx
    then ok (record { error = some not_in_transaction; handle = h; shared = s })
    else finish_commit async c h s (commit_error c)

-- A writable transaction with all its nodes, in the order in which they were made.
pub record World : Type 0 where
  pub handles : List Handle
  pub shared : Shared

-- A call on the node at a place of the list: From or WithCodec, Rollback, Commit.
pub data Op : Type 0 where
  copied : ℕ → Op
  rolled_back : ℕ → Calls → Op
  committed : ℕ → Bool → Calls → Op

abbrev pub set_handle : ℕ → Handle → List Handle → List Handle
set_handle i h [] = []
set_handle zero h (x ∷ xs) = h ∷ xs
set_handle (suc i) h (x ∷ xs) = x ∷ set_handle i h xs

abbrev pub keep : ℕ → List Handle → Outcome Done → Outcome World
keep i hs (ok d) = ok (record { handles = set_handle i d.handle hs; shared = d.shared })
keep i hs (err e) = err e
keep i hs panic = panic

unfoldable pub step : Op → World → Outcome World
unfolding rollback commit
step (copied i) w = elim (get_elem? w.handles i) [
  | none ↦ ok w
  | some h ↦ ok (record w { handles = w.handles ++ h ∷ [] })
]
step (rolled_back i c) w = elim (get_elem? w.handles i) [
  | none ↦ ok w
  | some h ↦ keep i w.handles (rollback c h w.shared)
]
step (committed i async c) w = elim (get_elem? w.handles i) [
  | none ↦ ok w
  | some h ↦ keep i w.handles (commit async c h w.shared)
]

unfoldable pub run : List Op → World → Outcome World
unfolding step
run [] w = ok w
run (op ∷ ops) w = step op w >>= run ops

-- A writable transaction that has just begun.
abbrev pub started : World
started = record {
  handles = record { tx = true; state = true } ∷ [];
  shared = record { held = true; locked = true };
}

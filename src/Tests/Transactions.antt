-- ===== src/Tests/Transactions.antt =====
-- The properties of transactions at a node and a copy of it.
use storm_rev.Base.{◌≡◌, true, false, none, some, [], ◌∷◌, Error, ok}
use storm_rev.Tx.{
  Shared, Handle, Calls, World, copied, rolled_back, committed, rollback, commit, run, started,
}
use storm_rev.Tx.Lock.{run_never_panics}

abbrev failing : Calls
failing = record {
  rollback = none;
  persist = none;
  commit = some Error.not_found;
  has_work = true;
  wait = none;
  reindex = none;
}

abbrev open_handle : Handle
open_handle = record { tx = true; state = true }

abbrev taken : Shared
taken = record { held = true; locked = true }

run_never_panics_example :
    (w : World) × (run (copied 0 ∷ rolled_back 1 failing ∷ committed 0 false failing ∷ []) started
      ≡ ok w)
    × (w.shared.locked ≡ w.shared.held)
run_never_panics_example =
    run_never_panics (copied 0 ∷ rolled_back 1 failing ∷ committed 0 false failing ∷ [])

-- ===== src/Indexer/Outbox/Reach.antt =====
-- bleve_outbox.go: the outbox over any sequence of its transactions.
use mathlib.Core.Path.{subst}
use storm_rev.Base.{
  ◌≡◌, refl, sym, ap, ◌∙◌, inl, inr, ℕ, Bool, true, false, Bool-cases, not, ◌&&◌, ◌||◌, Option,
  none, some, List, [], ◌∷◌, All, Error, Outcome, ok, err, panic, lt→ltb, ltb, leb, arith,
}
use storm_rev.Base.Bytes.{Bytes, bytes_eq, bytes_eq_iff, bytes_eq_sym}
use storm_rev.Indexer.Outbox.{
  JobMutation, Job, or_zero, IndexState, States, Entries, Outbox, read_state, write_state, enqueue,
  ack_jobs, mark_jobs_dirty, mark_table_dirty, mentions, contains_table, distrusted, rebuilt,
  complete_reindex, open_dirty,
}
use storm_rev.Indexer.Outbox.Ledger.{Behind, Bounded, Tracked, Recorded, Valid, read_write}
use storm_rev.Indexer.Outbox.Steps.{Recorded-after, enqueue-Valid}
use storm_rev.Indexer.Outbox.Acks.{InOrder, ack_jobs-Valid, contains-Behind}
use storm_rev.Indexer.Outbox.Covered.{complete_reindex-parts}
use storm_rev.Indexer.Outbox.Kept.{
  mark_jobs_dirty-Valid, mark_table_dirty-Valid, cover_entries-Recorded,
}

-- Entries that do not mention a table do not depend on its state.
unmentioned_mutations :
    (t : Bytes) (st : IndexState) (k : ℕ) (states : States) (ms : List JobMutation)
    → mentions t ms ≡ false
    → All (Tracked k states) ms
    → All (Tracked k (write_state t st states)) ms
unmentioned_mutations t st k states [] n w = tt
unmentioned_mutations t st k states (m ∷ ms) n w =
    let other : bytes_eq m.table t ≡ false = ground (arith, n) in
    let same : read_state (write_state t st states) m.table ≡ read_state states m.table =
      read_write t m.table st states ∙ rw (bytes_eq_sym m.table t other) refl in
    (
      elim (Bool-cases (bytes_eq m.table [])) [
        | inl y ↦ rw y tt
        | inr z ↦ rw z (subst (Behind k) (sym same) (rw z at w.0))
      ],
      unmentioned_mutations t st k states ms (ground (arith, n)) w.1,
    )

unmentioned_entries :
    (t : Bytes) (st : IndexState) (n : ℕ) (states : States) (es : Entries)
    → contains_table t es ≡ ok false
    → All (Recorded n states) es
    → All (Recorded n (write_state t st states)) es
unfolding contains_table
unmentioned_entries t st n states [] c r = tt
unmentioned_entries t st n states ((k, ok job) ∷ es) c r =
    elim (Bool-cases (mentions t job.mutations)) [
      | inl y ↦ cc (rw y at c)
      | inr z ↦ (
        ((r.0).0, unmentioned_mutations t st k states job.mutations z (r.0).1),
        unmentioned_entries t st n states es (rw z at c) r.1,
      )
    ]
unmentioned_entries t st n states ((k, err e) ∷ es) c r = cc
unmentioned_entries t st n states ((k, panic) ∷ es) c r = cc

-- A state with another `dirty`.
redirtied_entries :
    (t : Bytes) (st st' : IndexState) (n : ℕ) (states : States) (es : Entries)
    → read_state states t ≡ ok st
    → st'.applied ≡ st.applied
    → st'.desired ≡ st.desired
    → All (Recorded n states) es
    → All (Recorded n (write_state t st' states)) es
redirtied_entries t st st' n states [] e a d r = tt
redirtied_entries t st st' n states ((k, raw) ∷ es) e a d r = (
  Recorded-after n n states (write_state t st' states) (omega arith) k (r.0).0 still raw r.0,
  redirtied_entries t st st' n states es e a d r.1,
)
  where
    still :
        (u : Bytes)
        → Behind k (read_state states u)
        → Behind k (read_state (write_state t st' states) u)
    still u b =
        subst (Behind k) (sym (read_write t u st' states)) (elim (Bool-cases (bytes_eq t u)) [
          | inl y ↦
              let p : Behind k (ok st) =
                subst (Behind k) (ap (read_state states) (sym ((bytes_eq_iff t u).0 y)) ∙ e) b in
              rw y (omega (arith, a, p.0), omega (arith, d, p.1))
          | inr z ↦ rw z b
        ])

rebuilt-Bounded :
    (n through : ℕ) (remaining : Bool) (st : IndexState)
    → Bounded n (ok st)
    → Bounded n (ok (rebuilt through remaining st))
unfolding rebuilt
rebuilt-Bounded n through remaining st b =
    elim (Bool-cases (leb st.desired through && not remaining)) [
      | inl y ↦ rw y (b.1, b.1)
      | inr z ↦ rw z b
    ]

rebuilt_entries :
    (t : Bytes) (through n : ℕ) (remaining : Bool) (st : IndexState) (states : States)
    (es : Entries)
    → read_state states t ≡ ok st
    → contains_table t es ≡ ok remaining
    → All (Recorded n states) es
    → All (Recorded n (write_state t (rebuilt through remaining st) states)) es
unfolding rebuilt
rebuilt_entries t through n false st states es e c r = unmentioned_entries t _ n states es c r
rebuilt_entries t through n true st states es e c r =
    let z : (leb st.desired through && false) ≡ false = ground arith in
    rw z (redirtied_entries t st (record st { dirty = true }) n states es e refl refl r)

complete_reindex-Valid :
    (marshal : Job → Option Error) (root : List Bytes) (t : Bytes) (through : ℕ) (s out : Outbox)
    → Valid s
    → complete_reindex marshal root t through s ≡ ok out
    → Valid out
complete_reindex-Valid marshal root t through s out v h =
    let (es, st, remaining, c, d, f, e) = complete_reindex-parts marshal root t through s out h in
    subst Valid e (
      λ u.
          subst (Bounded s.sequence) (sym (read_write t u (rebuilt through remaining st) s.states))
            (elim (Bool-cases (bytes_eq t u)) [
              | inl y ↦ rw y (
                  rebuilt-Bounded s.sequence through remaining st
                    (subst (Bounded s.sequence) d (v.0 t)))
              | inr z ↦ rw z (v.0 u)
            ]),
      rebuilt_entries t through s.sequence remaining st s.states es d f
          (cover_entries-Recorded s.sequence s.states marshal root t through s.entries es v.1 c),
    )

-- One transaction on the outbox. A job is acknowledged only in the order of the outbox.
pub data Step : Outbox → Outbox → Type 0 where
  enqueued :
      (marshal : Job → Option Error) (job : Job) (s : Outbox) (out : Option Job × Outbox)
      → enqueue marshal job s ≡ ok out
      → Step s out.1
  acknowledged :
      (jobs : List Job) (s : Outbox) (out : List (Bytes × Bool) × Outbox)
      → InOrder jobs s.sequence s.entries
      → ack_jobs jobs s [] ≡ ok out
      → Step s out.1
  jobs_marked : (jobs : List Job) (s out : Outbox) → mark_jobs_dirty jobs s ≡ ok out → Step s out
  table_marked : (t : Bytes) (s out : Outbox) → mark_table_dirty t s ≡ ok out → Step s out
  reindexed :
      (marshal : Job → Option Error) (root : List Bytes) (t : Bytes) (through : ℕ) (s out : Outbox)
      → complete_reindex marshal root t through s ≡ ok out
      → Step s out

-- The outbox of a new database, and what steps make of it.
abbrev pub new_outbox : Outbox
new_outbox = record { sequence = 0; entries = []; states = λ t. none }

pub data Reachable : Outbox → Type 0 where
  created : Reachable new_outbox
  stepped : {s out : Outbox} → Reachable s → Step s out → Reachable out

pub Step-Valid : {s out : Outbox} → Step s out → Valid s → Valid out
Step-Valid (enqueued marshal job s out h) v = enqueue-Valid marshal job s out v h
Step-Valid (acknowledged jobs s out o h) v = ack_jobs-Valid jobs s [] out v o h
Step-Valid (jobs_marked jobs s out h) v = mark_jobs_dirty-Valid jobs s out v h
Step-Valid (table_marked t s out h) v = mark_table_dirty-Valid t s out v h
Step-Valid (reindexed marshal root t through s out h) v =
    complete_reindex-Valid marshal root t through s out v h

-- Every outbox that the transactions on it can make of a new one is valid: no number of a table
-- exceeds the sequence of the outbox, and for each job that waits and each table with a name that it
-- mentions, the table's state is readable, its applied number is below the job's sequence, and its
-- desired number is not. A failed transaction is rolled back and makes no step, and jobs are
-- acknowledged in the order of the outbox.
pub Reachable-Valid : {s : Outbox} → Reachable s → Valid s
unfolding read_state
Reachable-Valid created = (λ t. (omega arith, omega arith), tt)
Reachable-Valid (stepped r st) = Step-Valid st (Reachable-Valid r)

Behind-distrusted :
    (k : ℕ) (o : Option (Outcome IndexState)) → Behind k (or_zero o) → distrusted o ≡ ok true
Behind-distrusted k none b = absurd (omega (arith, b.0, b.1))
Behind-distrusted k (some (ok st)) b =
    let l : ltb st.applied st.desired ≡ true =
      lt→ltb st.applied st.desired (omega (arith, b.0, b.1)) in
    rw l (elim (st.dirty) as (λ d. ok (d || true) ≡ ok true) [ true ↦ refl | false ↦ refl ])
Behind-distrusted k (some (err e)) b = absurd b
Behind-distrusted k (some panic) b = absurd b

-- When a database with a reachable outbox is opened, every table with a name that the outbox holds
-- a mutation of is marked dirty, so that no query trusts its index before the waiting jobs are applied.
pub open_dirty-contains_table :
    {s : Outbox} (t : Bytes)
    → Reachable s
    → bytes_eq t [] ≡ false
    → contains_table t s.entries ≡ ok true
    → open_dirty s.states t ≡ ok true
unfolding open_dirty read_state
open_dirty-contains_table {s} t r n c =
    let v = Reachable-Valid r in
    let (k, b) = contains-Behind t s.sequence s.states s.entries n v.1 c in
    Behind-distrusted k (s.states t) b

-- ===== src/Indexer/Outbox/Kept.antt =====
-- bleve_outbox.go: that marks and covered entries keep an outbox valid.
use mathlib.Core.Path.{subst}
use storm_rev.Base.{
  ◌≡◌, inl, inr, ℕ, ◌≤◌, true, Bool-cases, Option, none, some, List, [], ◌∷◌, length, All,
  All-append, Error, ok, ◌>>=◌, bind_ok, ok_injective, ltb, ◌==◌, arith, if◌then◌else◌,
}
use storm_rev.Base.Bytes.{Bytes}
use storm_rev.Indexer.Outbox.{
  JobMutation, Job, IndexState, States, Entries, Outbox, job_tables, change_states, mark_jobs_dirty,
  mark_table_dirty, uncovered, replace_entry, cover_entry, cover_entries,
}
use storm_rev.Indexer.Outbox.Ledger.{
  Behind, Bounded, Tracked, Recorded, Valid, select-All, change_states-keeps,
}
use storm_rev.Indexer.Outbox.Steps.{Recorded-after}

-- A change of states that keeps what is bounded and what is behind keeps an outbox valid.
module _ (f : IndexState → IndexState)
    (bounded : (n : ℕ) (st : IndexState) → Bounded n (ok st) → Bounded n (ok (f st)))
    (behind : (k : ℕ) (st : IndexState) → Behind k (ok st) → Behind k (ok (f st))) where
  entries_kept :
      (n : ℕ) (ts : List Bytes) (states after : States)
      → change_states f ts states ≡ ok after
      → (es : Entries) → All (Recorded n states) es
      → All (Recorded n after) es
  entries_kept n ts states after c [] r = tt
  entries_kept n ts states after c ((k, raw) ∷ es) r = (
    Recorded-after n n states after (omega arith) k (r.0).0
        (λ t b. change_states-keeps (Behind k) f ts states after (behind k) c t b) raw r.0,
    entries_kept n ts states after c es r.1,
  )

  changed_Valid :
      (ts : List Bytes) (s : Outbox) (after : States)
      → Valid s
      → change_states f ts s.states ≡ ok after
      → Valid (record s { states = after })
  changed_Valid ts s after v c = (
    λ t.
        change_states-keeps (Bounded s.sequence) f ts s.states after (bounded s.sequence) c t
          (v.0 t),
    entries_kept s.sequence ts s.states after c s.entries v.1,
  )

dirty_Valid :
    (ts : List Bytes) (s : Outbox) (after : States)
    → Valid s
    → change_states (λ st. record st { dirty = true }) ts s.states ≡ ok after
    → Valid (record s { states = after })
dirty_Valid = changed_Valid (λ st. record st { dirty = true }) (λ n st b. b) (λ k st b. b)

pub mark_jobs_dirty-Valid :
    (jobs : List Job) (s out : Outbox) → Valid s → mark_jobs_dirty jobs s ≡ ok out → Valid out
unfolding mark_jobs_dirty
mark_jobs_dirty-Valid [] s out v h = subst Valid (ok_injective s out h) v
mark_jobs_dirty-Valid (j ∷ js) s out v h =
    let (after, c, r) =
      bind_ok
        (change_states (λ st. record st { dirty = true }) (job_tables j.mutations []) s.states) _
        out h in
    mark_jobs_dirty-Valid js (record s { states = after }) out
      (dirty_Valid (job_tables j.mutations []) s after v c) r

pub mark_table_dirty-Valid :
    (t : Bytes) (s out : Outbox) → Valid s → mark_table_dirty t s ≡ ok out → Valid out
unfolding mark_table_dirty
mark_table_dirty-Valid t s out v h =
    let (after, c, r) =
      bind_ok (change_states (λ st. record st { dirty = true }) (t ∷ []) s.states) _ out h in
    subst Valid (ok_injective _ out r) (dirty_Valid (t ∷ []) s after v c)

replace_entry-Recorded :
    (n : ℕ) (states : States) (e : Option Error) (k : ℕ) (updated : Job) (left : List JobMutation)
    (out : Entries)
    → k ≤ n
    → All (Tracked k states) updated.mutations
    → replace_entry e k updated left ≡ ok out
    → All (Recorded n states) out
unfolding replace_entry
replace_entry-Recorded n states e k updated [] out le w h =
    subst (All (Recorded n states)) (ok_injective [] out h) tt
replace_entry-Recorded n states (some e) k updated (m ∷ ms) out le w h = cc
replace_entry-Recorded n states none k updated (m ∷ ms) out le w h =
    subst (All (Recorded n states)) (ok_injective _ out h) ((le, w), tt)

cover_entry-Recorded :
    (n : ℕ) (states : States) (marshal : Job → Option Error) (root : List Bytes) (t : Bytes) (k : ℕ)
    (job : Job) (out : Entries)
    → Recorded n states (k, ok job)
    → cover_entry marshal t k job (uncovered root t job.mutations) ≡ ok out
    → All (Recorded n states) out
unfolding cover_entry uncovered
cover_entry-Recorded n states marshal root t k job out r h =
    let left = uncovered root t job.mutations in
    elim (Bool-cases (length left == length job.mutations)) [
      | inl y ↦ subst (All (Recorded n states)) (ok_injective _ out (rw y at h)) (r, tt)
      | inr z ↦
          replace_entry-Recorded n states _ k _ left out r.0
            (select-All (Tracked k states) _ job.mutations r.1) (rw z at h)
    ]

pub cover_entries-Recorded :
    (n : ℕ) (states : States) (marshal : Job → Option Error) (root : List Bytes) (t : Bytes)
    (through : ℕ) (es out : Entries)
    → All (Recorded n states) es
    → cover_entries marshal root t through es ≡ ok out
    → All (Recorded n states) out
unfolding cover_entries
cover_entries-Recorded n states marshal root t through [] out r h =
    subst (All (Recorded n states)) (ok_injective [] out h) tt
cover_entries-Recorded n states marshal root t through ((k, raw) ∷ es) out r h =
    let (first, f, r') =
      bind_ok
        (if ltb through k
          then ok ((k, raw) ∷ [])
          else (raw >>= λ job. cover_entry marshal t k job (uncovered root t job.mutations)))
        _ out h in
    let (others, g, e) = bind_ok (cover_entries marshal root t through es) _ out r' in
    subst (All (Recorded n states)) (ok_injective _ out e) (
      All-append (Recorded n states) first others (here first f)
        (cover_entries-Recorded n states marshal root t through es others r.1 g))
  where
    here :
        (first : Entries)
        → (if ltb through k
            then ok ((k, raw) ∷ [])
            else (raw >>= λ job. cover_entry marshal t k job (uncovered root t job.mutations)))
          ≡ ok first
        → All (Recorded n states) first
    here first f = elim (Bool-cases (ltb through k)) [
      | inl y ↦ subst (All (Recorded n states)) (ok_injective _ first (rw y at f)) (r.0, tt)
      | inr z ↦
          let (job, e, c) = bind_ok raw _ first (rw z at f) in
          cover_entry-Recorded n states marshal root t k job first
            (subst (λ x. Recorded n states (k, x)) e r.0) c
    ]

-- ===== src/Indexer/Outbox/Acks.antt =====
-- bleve_outbox.go: the acknowledgement of jobs, and what it tells about their tables.
use mathlib.Core.Path.{subst}
use storm_rev.Base.{
  ◌≡◌, refl, sym, ap, ◌∙◌, inl, inr, ℕ, ◌≤◌, ◌<◌, Bool, true, false, Bool-cases, not, some, List,
  [], ◌∷◌, All, Outcome, ok, err, panic, bind_ok, ltb, arith,
}
use storm_rev.Base.Bytes.{Bytes, bytes_eq, bytes_eq_iff, bytes_eq_sym, bytes_eq_self}
use storm_rev.Meta.{among}
use storm_rev.Indexer.Outbox.{
  JobMutation, Job, IndexState, States, Entries, Outbox, read_state, write_state, job_tables,
  change_states, remove_entry, acked, clean_tables, ack_jobs, mentions, contains_table,
}
use storm_rev.Indexer.Outbox.Ledger.{
  Behind, Bounded, Tracked, Waits, Recorded, Valid, select-All, read_write, change_states-keeps,
  change_states-makes,
}
use storm_rev.Config.{lookup}
use storm_rev.Indexer.Outbox.Steps.{Recorded-after}

-- Jobs that are acknowledged in the order of the outbox: each was given out by it, and with the
-- entries that are before it gone.
abbrev pub InOrder : List Job → ℕ → Entries → Type 0
InOrder [] n es = Unit
InOrder (j ∷ js) n es =
    (j.sequence ≤ n)
    × All (λ (e : ℕ × Outcome Job). j.sequence < e.0) (remove_entry j.sequence es)
    × InOrder js n (remove_entry j.sequence es)

acked-Valid :
    (n : ℕ) (ts : List Bytes) (s : Outbox) (after : States)
    → Valid s
    → n ≤ s.sequence
    → All (λ (e : ℕ × Outcome Job). n < e.0) (remove_entry n s.entries)
    → change_states (acked n) ts s.states ≡ ok after
    → Valid (record s { entries = remove_entry n s.entries; states = after })
unfolding acked
acked-Valid n ts s after v le o c = (
  λ t.
      change_states-keeps (Bounded s.sequence) (acked n) ts s.states after
        (λ st b. (ground (arith, b, le), b.1)) c t (v.0 t),
  all_later (remove_entry n s.entries) o (select-All _ _ s.entries v.1),
)
  where
    kept :
        (k : ℕ)
        → n < k
        → (t : Bytes) → Behind k (read_state s.states t)
        → Behind k (read_state after t)
    kept k l t b =
        change_states-keeps (Behind k) (acked n) ts s.states after
          (λ st p. (ground (arith, p, l), p.1)) c t b

    all_later :
        (es : Entries)
        → All (λ (e : ℕ × Outcome Job). n < e.0) es
        → All (Recorded s.sequence s.states) es
        → All (Recorded s.sequence after) es
    all_later [] l r = tt
    all_later ((k, raw) ∷ es) l r = (
      Recorded-after s.sequence s.sequence s.states after (omega arith) k (r.0).0 (kept k l.0) raw
          r.0,
      all_later es l.1 r.1,
    )

pub ack_jobs-Valid :
    (jobs : List Job) (s : Outbox) (clean : List (Bytes × Bool))
    (out : List (Bytes × Bool) × Outbox)
    → Valid s
    → InOrder jobs s.sequence s.entries
    → ack_jobs jobs s clean ≡ ok out
    → Valid out.1
unfolding ack_jobs
ack_jobs-Valid [] s clean out v o h =
    let e : (clean, s) ≡ out = cc in subst (λ (x : List (Bytes × Bool) × Outbox). Valid x.1) e v
ack_jobs-Valid (j ∷ js) s clean out v o h =
    let (after, c, r) =
      bind_ok (change_states (acked j.sequence) (job_tables j.mutations []) s.states) _ out h in
    let (clean', d, rest) =
      bind_ok (clean_tables (job_tables j.mutations []) after clean) _ out r in
    ack_jobs-Valid js (record s { entries = remove_entry j.sequence s.entries; states = after })
      clean' out (acked-Valid j.sequence (job_tables j.mutations []) s after v o.0 o.1 c) o.2 rest

-- Changes leave the state of other tables alone.
change_states-other :
    (f : IndexState → IndexState) (ts : List Bytes) (states after : States) (u : Bytes)
    → change_states f ts states ≡ ok after
    → among u ts ≡ false
    → read_state after u ≡ read_state states u
unfolding change_states
change_states-other f [] states after u h n =
    let e : states ≡ after = cc in ap (λ x. read_state x u) (sym e)
change_states-other f (t ∷ ts) states after u h n =
    let (st, r, rest) = bind_ok (read_state states t) _ after h in
    elim (Bool-cases (bytes_eq u t)) [
      | inl y ↦ cc (rw y at n)
      | inr k ↦
          change_states-other f ts (write_state t (f st) states) after u rest (rw k at n)
          ∙ read_write t u (f st) states
          ∙ rw (bytes_eq_sym u t k) refl
    ]

-- A state whose index has applied all that it is to apply.
abbrev pub Settled : Outcome IndexState → Type 0
Settled (ok st) = st.desired ≤ st.applied
Settled (err e) = ⊥
Settled panic = ⊥

-- A state with the `dirty` that an acknowledgement writes.
abbrev Honest : Outcome IndexState → Type 0
Honest (ok st) = st.dirty ≡ ltb st.applied st.desired
Honest (err e) = ⊥
Honest panic = ⊥

Honest-clean :
    (st : IndexState) → Honest (ok st) → some (not st.dirty) ≡ some true → Settled (ok st)
Honest-clean st h e =
    let n : ltb st.applied st.desired ≡ false = ground (arith, h, e) in ground (arith, n)

clean_tables-Settled :
    (ts : List Bytes) (states : States) (clean clean' : List (Bytes × Bool)) (u : Bytes)
    → ((t : Bytes) → among t ts ≡ true → Honest (read_state states t))
    → (among u ts ≡ false → lookup u clean ≡ some true → Settled (read_state states u))
    → clean_tables ts states clean ≡ ok clean'
    → lookup u clean' ≡ some true
    → Settled (read_state states u)
unfolding clean_tables
clean_tables-Settled [] states clean clean' u h o c l =
    let e : clean ≡ clean' = cc in o refl (subst (λ x. lookup u x ≡ some true) (sym e) l)
clean_tables-Settled (t ∷ ts) states clean clean' u h o c l =
    let (st, r, rest) = bind_ok (read_state states t) _ clean' c in
    clean_tables-Settled ts states ((t, not st.dirty) ∷ clean) clean' u
      (λ t' m. h t' (elim (Bool-cases (bytes_eq t' t)) [ inl y ↦ rw y refl | inr k ↦ rw k m ]))
      (λ n f. elim (Bool-cases (bytes_eq t u)) [
        | inl y ↦
            let e : t ≡ u = (bytes_eq_iff t u).0 y in
            let honest : Honest (ok st) = subst Honest r (h t (rw (bytes_eq_self t) refl)) in
            subst Settled (sym r ∙ ap (read_state states) e) (Honest-clean st honest (rw y at f))
        | inr k ↦ o (rw (bytes_eq_sym t u k) n) (rw k at f)
      ])
      rest l

change_states-Honest :
    (n : ℕ) (ts : List Bytes) (states after : States)
    → change_states (acked n) ts states ≡ ok after
    → (t : Bytes) → among t ts ≡ true
    → Honest (read_state after t)
unfolding acked
change_states-Honest n ts states after c t m =
    change_states-makes (λ r. Unit) Honest (acked n) ts states after (λ st p. refl) (λ st p. refl) c
      t m tt

ack_jobs-Settled :
    (jobs : List Job) (s : Outbox) (clean : List (Bytes × Bool))
    (out : List (Bytes × Bool) × Outbox) (u : Bytes)
    → (lookup u clean ≡ some true → Settled (read_state s.states u))
    → ack_jobs jobs s clean ≡ ok out
    → lookup u out.0 ≡ some true
    → Settled (read_state out.1.states u)
unfolding ack_jobs acked
ack_jobs-Settled [] s clean out u o h l =
    let e : (clean, s) ≡ out = cc in
    subst (λ (x : List (Bytes × Bool) × Outbox). Settled (read_state x.1.states u)) e
      (o (subst (λ (x : List (Bytes × Bool) × Outbox). lookup u x.0 ≡ some true) (sym e) l))
ack_jobs-Settled (j ∷ js) s clean out u o h l =
    let ts = job_tables j.mutations [] in
    let (after, c, r) = bind_ok (change_states (acked j.sequence) ts s.states) _ out h in
    let (clean', d, rest) = bind_ok (clean_tables ts after clean) _ out r in
    ack_jobs-Settled js (record s { entries = remove_entry j.sequence s.entries; states = after })
      clean' out u
      (clean_tables-Settled ts after clean clean' u
        (λ t m. change_states-Honest j.sequence ts s.states after c t m)
        (λ n f.
          subst Settled (sym (change_states-other (acked j.sequence) ts s.states after u c n))
            (o f))
        d)
      rest l

-- A table that the outbox holds a mutation of is behind.
pub contains-Behind :
    (t : Bytes) (n : ℕ) (states : States) (es : Entries)
    → bytes_eq t [] ≡ false
    → All (Recorded n states) es
    → contains_table t es ≡ ok true
    → (k : ℕ) × Behind k (read_state states t)
unfolding contains_table
contains-Behind t n states [] m r h = cc
contains-Behind t n states ((k, raw) ∷ es) m r h =
    let (job, e, rest) = bind_ok raw _ true h in
    elim (Bool-cases (mentions t job.mutations)) [
      | inl y ↦ (k, mentioned job.mutations y (subst (Waits k states) e (r.0).1))
      | inr z ↦ contains-Behind t n states es m r.1 (rw z at rest)
    ]
  where
    mentioned :
        (ms : List JobMutation)
        → mentions t ms ≡ true
        → All (Tracked k states) ms
        → Behind k (read_state states t)
    mentioned [] y w = cc
    mentioned (x ∷ ms) y w = elim (Bool-cases (bytes_eq x.table t)) [
      | inl z ↦
          let e : x.table ≡ t = (bytes_eq_iff x.table t).0 z in
          subst (λ u. Behind k (read_state states u)) e
            (rw (subst (λ u. bytes_eq u [] ≡ false) (sym e) m) at w.0)
      | inr z ↦ mentioned ms (rw z at y) w.1
    ]

Behind-unsettled : (k : ℕ) (r : Outcome IndexState) → Behind k r → Settled r → ⊥
Behind-unsettled k (ok st) b s = omega (arith, b.0, b.1, s)
Behind-unsettled k (err e) b s = b
Behind-unsettled k panic b s = b

-- Where acknowledging jobs in the order of a valid outbox reports a table with a name as clean, the
-- outbox that is left holds no mutation of the table: the mark `dirty` that processIndexRequests
-- then clears hides no waiting job.
pub ack_jobs-clean :
    (jobs : List Job) (s : Outbox) (out : List (Bytes × Bool) × Outbox) (t : Bytes)
    → Valid s
    → InOrder jobs s.sequence s.entries
    → bytes_eq t [] ≡ false
    → ack_jobs jobs s [] ≡ ok out
    → lookup t out.0 ≡ some true
    → ¬ (contains_table t out.1.entries ≡ ok true)
ack_jobs-clean jobs s out t v o n h l m =
    let after = ack_jobs-Valid jobs s [] out v o h in
    let (k, b) = contains-Behind t out.1.sequence out.1.states out.1.entries n after.1 m in
    Behind-unsettled k (read_state out.1.states t) b
      (ack_jobs-Settled jobs s [] out t (λ f. cc) h l)

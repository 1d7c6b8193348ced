-- ===== src/Indexer/Outbox/Steps.antt =====
-- bleve_outbox.go: that every transaction on the outbox keeps jobs and states in agreement.
use mathlib.Core.Path.{subst}
use storm_rev.Base.{
  ◌≡◌, refl, sym, inl, inr, ℕ, suc, ◌≤◌, true, false, Bool-cases, ◌||◌, Option, none, some, List,
  [], ◌∷◌, ◌++◌, length, All-append, Error, Outcome, ok, err, panic, bind_ok, ◌==◌, arith,
}
use storm_rev.Base.Bytes.{Bytes, bytes_eq, bytes_eq_iff, bytes_eq_sym, bytes_eq_self}
use storm_rev.Base.Sorted.{In, In-All}
use storm_rev.Meta.{among}
use storm_rev.Indexer.Outbox.{
  JobMutation, Job, IndexState, States, Outbox, read_state, job_tables, change_states, enqueue,
  put_job, mentions,
}
use storm_rev.Indexer.Outbox.Ledger.{
  Behind, Bounded, Tracked, Recorded, Valid, map_All, change_states-keeps, change_states-makes,
}

-- Entries stay recorded where the sequence grows and every state that was behind is behind still.
pub Recorded-after :
    (n m : ℕ) (states after : States)
    → n ≤ m
    → (k : ℕ) → k ≤ n
    → ((t : Bytes) → Behind k (read_state states t) → Behind k (read_state after t))
    → (raw : Outcome Job) → Recorded n states (k, raw)
    → Recorded m after (k, raw)
Recorded-after n m states after le k b f (ok job) r =
    (omega (arith, le, b), map_All _ _ job.mutations tracked r.1)
  where
    tracked : (x : JobMutation) → Tracked k states x → Tracked k after x
    tracked x p = elim (Bool-cases (bytes_eq x.table [])) [
      | inl y ↦ rw y tt
      | inr n ↦ rw n (f x.table (rw n at p))
    ]
Recorded-after n m states after le k b f (err e) r = (omega (arith, le, b), tt)
Recorded-after n m states after le k b f panic r = (omega (arith, le, b), tt)

mentions_member : (x : JobMutation) (ms : List JobMutation) → In x ms → mentions x.table ms ≡ true
mentions_member x [] i = absurd i
mentions_member x (m ∷ ms) (inl e) = rw (sym e, bytes_eq_self x.table) refl
mentions_member x (m ∷ ms) (inr i) = ground (arith, mentions_member x ms i)

-- Each table with a name that a job mentions is among its tables.
job_tables-among :
    (t : Bytes) (ms : List JobMutation) (seen : List Bytes)
    → bytes_eq t [] ≡ false
    → among t seen ≡ false
    → mentions t ms ≡ true
    → among t (job_tables ms seen) ≡ true
unfolding job_tables
job_tables-among t [] seen n s m = cc
job_tables-among t (x ∷ ms) seen n s m = elim (Bool-cases (bytes_eq t x.table)) [
  | inl y ↦
      let e : t ≡ x.table = (bytes_eq_iff t x.table).0 y in
      let named : bytes_eq x.table [] ≡ false = subst (λ u. bytes_eq u [] ≡ false) e n in
      let unseen : among x.table seen ≡ false = subst (λ u. among u seen ≡ false) e s in
      rw (named, unseen, y) refl
  | inr k ↦
      let later : mentions t ms ≡ true = ground (arith, bytes_eq_sym t x.table k, m) in
      elim (Bool-cases (bytes_eq x.table [] || among x.table seen)) [
        | inl c ↦ rw c (job_tables-among t ms seen n s later)
        | inr c ↦ rw (c, k) (job_tables-among t ms (x.table ∷ seen) n (rw k s) later)
      ]
]

Bounded-grown : (n m : ℕ) → n ≤ m → (r : Outcome IndexState) → Bounded n r → Bounded m r
Bounded-grown n m le (ok st) b = (omega (arith, le, b.0), omega (arith, le, b.1))
Bounded-grown n m le (err e) b = tt
Bounded-grown n m le panic b = tt

-- What the states are after a job of the next sequence is recorded in them.
module _ (job : Job) (s : Outbox) (after : States) (next : job.sequence ≡ suc s.sequence)
    (c : change_states
        (λ st. record st { desired = job.sequence })
        (job_tables job.mutations [])
        s.states
      ≡ ok after)
    (v : Valid s) where
  Bounded-put : (t : Bytes) → Bounded job.sequence (read_state after t)
  Bounded-put t =
      change_states-keeps (Bounded job.sequence) (λ st. record st { desired = job.sequence })
        (job_tables job.mutations []) s.states after (λ st b. (b.0, omega arith)) c t
        (Bounded-grown s.sequence job.sequence (omega (arith, next)) (read_state s.states t)
          (v.0 t))

  Recorded-put :
      (x : ℕ × Outcome Job) → Recorded s.sequence s.states x → Recorded job.sequence after x
  Recorded-put (k, raw) w =
      Recorded-after s.sequence job.sequence s.states after (omega (arith, next)) k w.0
        (λ t b.
          change_states-keeps (Behind k) (λ st. record st { desired = job.sequence })
            (job_tables job.mutations []) s.states after (λ st p. (p.0, omega (arith, next, w.0))) c
            t b)
        raw w

  Tracked-put : (x : JobMutation) → In x job.mutations → Tracked job.sequence after x
  Tracked-put x i = elim (Bool-cases (bytes_eq x.table [])) [
    | inl y ↦ rw y tt
    | inr n ↦ rw n (
        change_states-makes (Bounded s.sequence) (Behind job.sequence)
          (λ st. record st { desired = job.sequence }) (job_tables job.mutations []) s.states after
          (λ st b. (omega (arith, next, b.0), omega arith)) (λ st b. (b.0, omega arith)) c x.table
          (job_tables-among x.table job.mutations [] n refl (mentions_member x job.mutations i))
          (v.0 x.table))
  ]

put_job-Valid :
    (e : Option Error) (job : Job) (s : Outbox) (out : Option Job × Outbox)
    → Valid s
    → job.sequence ≡ suc s.sequence
    → put_job e job s ≡ ok out
    → Valid out.1
unfolding put_job
put_job-Valid (some e) job s out v n h = cc
put_job-Valid none job s out v n h =
    let (after, c, r) =
      bind_ok
        (change_states (λ st. record st { desired = job.sequence }) (job_tables job.mutations [])
          s.states)
        _ out h in
    let e : (
      some job,
      record {
        sequence = job.sequence;
        entries = s.entries ++ (job.sequence, ok job) ∷ [];
        states = after;
      },
    )
        ≡ out =
      cc in
    subst (λ (o : Option Job × Outbox). Valid o.1) e
      (
        Bounded-put job s after n c v,
        All-append (Recorded job.sequence after) s.entries ((job.sequence, ok job) ∷ [])
            (map_All _ _ s.entries (Recorded-put job s after n c v) v.1)
            (
              (
                omega arith,
                In-All (Tracked job.sequence after) job.mutations (Tracked-put job s after n c v),
              ),
              tt,
            ),
      )

pub enqueue-Valid :
    (marshal : Job → Option Error) (job : Job) (s : Outbox) (out : Option Job × Outbox)
    → Valid s
    → enqueue marshal job s ≡ ok out
    → Valid out.1
unfolding enqueue
enqueue-Valid marshal job s out v h = elim (Bool-cases (length job.mutations == 0)) [
  | inl y ↦
      let e : (none, s) ≡ out = cc (rw y at h) in subst (λ (o : Option Job × Outbox). Valid o.1) e v
  | inr n ↦
      let numbered = record job { sequence = suc s.sequence } in
      put_job-Valid (marshal numbered) numbered s out v refl (rw n at h)
]

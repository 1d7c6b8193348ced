-- ===== src/Indexer/Outbox/Records/Restored.antt =====
-- bleve_outbox.go: the records of a transaction through the job that is stored for it.
use storm_rev.Base.{
  ◌≡◌, refl, sym, ap, ◌∙◌, inl, inr, suc, Bool-cases, ◌==◌, Option, none, some, List, [],
  append-nil, length, All, Error, ok, bind_ok, ok_injective,
}
use storm_rev.Base.Bytes.{Bytes}
use storm_rev.Indexer.Outbox.{Doc, Job, Outbox, put_job, enqueue, change_states, job_tables}
use storm_rev.Indexer.Outbox.Records.{
  SavedRecord, DeletedRecord, read_mutations, add_saves, add_deletes, add_drops, persist_job,
  durable_job_records,
}
use storm_rev.Indexer.Outbox.Records.Reads.{
  join, saved_keys, deleted_keys, named, decoded_keys, add_saves-Reads, add_deletes-Reads,
  add_drops-Reads,
}

tidy :
    (e : List (Bytes × Bytes × Doc)) (dk : List (Bytes × Bytes)) (nm : List Bytes)
    → join (join (join (e, [], []) ([], dk, [])) ([], [], nm)) ([], [], []) ≡ (e, dk, nm)
tidy e dk nm = simp append-nil

put_job_parts :
    (e : Option Error) (made job : Job) (s out : Outbox)
    → put_job e made s ≡ ok (some job, out)
    → made ≡ job
unfolding put_job
put_job_parts (some e) made job s out h = cc
put_job_parts none made job s out h =
    let (after, c, r) =
      bind_ok
        (change_states (λ st. record st { desired = made.sequence }) (job_tables made.mutations [])
          s.states)
        _ (some job, out) h in
    let e = ok_injective _ (some job, out) r in
    let f : some made ≡ some job = ap (λ (x : Option Job × Outbox). x.0) e in cc

-- The job that is stored has the schemas and the mutations of the one that was made.
enqueue_parts :
    (marshal : Job → Option Error) (made job : Job) (s out : Outbox)
    → enqueue marshal made s ≡ ok (some job, out)
    → record made { sequence = suc s.sequence } ≡ job
unfolding enqueue
enqueue_parts marshal made job s out h = elim (Bool-cases (length made.mutations == 0)) [
  | inl y ↦
      let f : none ≡ some job =
        ap (λ (x : Option Job × Outbox). x.0) (ok_injective _ (some job, out) (rw y at h)) in
      cc
  | inr z ↦ put_job_parts _ (record made { sequence = suc s.sequence }) job s out (rw z at h)
]

-- The job that persistDurableIndexJob stores for a transaction is read back by durableJobRecords
-- without an error: as the saves, with their tables and ids and in their order, and the deletes that belong to tables with external indexes, and as the drops of
-- tables with a name. The schema of each record bears the name of its table.
pub durable_job_records-persist_job :
    (marshal : Job → Option Error) (root : List Bytes) (saves : List SavedRecord)
    (deletes : List DeletedRecord) (drops : List Bytes) (s out : Outbox) (job : Job)
    → All (λ (r : SavedRecord). r.schema.table ≡ r.table) saves
    → All (λ (r : DeletedRecord). r.schema.table ≡ r.table) deletes
    → persist_job marshal root saves deletes drops s ≡ ok (some job, out)
    → (e : List (Bytes × Bytes × Doc)) × (durable_job_records job
        ≡ ok (e, deleted_keys deletes, named drops))
      × (decoded_keys e ≡ saved_keys saves)
unfolding persist_job durable_job_records read_mutations
durable_job_records-persist_job marshal root saves deletes drops s out job a b h =
    let (p, add, h') = bind_ok (add_saves root saves ([], [])) _ (some job, out) h in
    let (e, r, k) =
      add_saves-Reads root saves ([], []) p ([], [], []) a (λ schemas grow rest e g. g) add in
    let q = add_drops root drops (add_deletes root deletes p) in
    let reads =
      add_drops-Reads root drops (add_deletes root deletes p)
        (join (e, [], []) ([], deleted_keys deletes, []))
        (add_deletes-Reads root deletes p (e, [], []) b r) in
    let made : Job = record { sequence = 0; schemas = q.0; mutations = q.1 } in
    let same = enqueue_parts marshal made job s out h' in
    (
      e,
      ap (λ (j : Job). durable_job_records j) (sym same)
          ∙ ap (read_mutations q.0) (sym (append-nil q.1))
          ∙ reads q.0 (λ t f. f) [] ([], [], []) refl
          ∙ ap ok (tidy e (deleted_keys deletes) (named drops)),
      k,
    )

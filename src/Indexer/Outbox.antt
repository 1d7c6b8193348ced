-- ===== src/Indexer/Outbox.antt =====
-- bleve_outbox.go: the queue of index jobs in the database and the state of each table's index.
-- A stored value stands as what json.Unmarshal returns for it.
pub mod Records
pub mod Ledger
pub mod Steps
pub mod Acks
pub mod Covered
pub mod Kept
pub mod Reach
use storm_rev.Base.{
  ℕ, suc, ◌+◌, Bool, true, false, not, ◌&&◌, ◌||◌, Option, none, some, List, [], ◌∷◌, ◌++◌, length,
  select, Error, Outcome, ok, err, panic, ◌>>=◌, ltb, leb, ◌==◌, if◌then◌else◌,
}
use storm_rev.Base.Bytes.{Bytes, bytes_eq}
use storm_rev.Meta.{Schema, among}

-- The value of a document's field: a string, a float64 by its 64 bits (as Float64bits gives them), a
-- bool, a time by its instant, or a value of another type.
pub data DocValue : Type 0 where
  text : Bytes → DocValue
  number : ℕ → DocValue
  flag : Bool → DocValue
  time : ℕ → DocValue
  other : ℕ → DocValue

-- a map[string]any
abbrev pub Doc : Type 0
Doc = List (Bytes × DocValue)

-- durableIndexField
pub record IndexField : Type 0 where
  pub name : Bytes
  pub kind : Bytes
  pub as_text : Bytes
  pub as_number : ℕ
  pub as_bool : Bool
  pub as_time : ℕ

pub data Operation : Type 0 where
  upsert delete drop_index : Operation
  unknown : ℕ → Operation

-- durableIndexMutation
pub record JobMutation : Type 0 where
  pub operation : Operation
  pub table : Bytes
  pub root : List Bytes
  pub id : Bytes
  pub fields : List IndexField

-- durableIndexJob
pub record Job : Type 0 where
  pub sequence : ℕ
  pub schemas : List (Bytes × Schema)
  pub mutations : List JobMutation

-- durableIndexState
pub record IndexState : Type 0 where
  pub desired : ℕ
  pub applied : ℕ
  pub dirty : Bool

abbrev pub States : Type 0
States = Bytes → Option (Outcome IndexState)

abbrev pub Entries : Type 0
Entries = List (ℕ × Outcome Job)

-- The two buckets: the outbox with its sequence and its entries in the order of their keys, and the
-- states by table. A bucket that does not exist yet is one without entries and with the sequence 0.
pub record Outbox : Type 0 where
  pub sequence : ℕ
  pub entries : Entries
  pub states : States

-- what a Get returned, or the zero value where it returned nil
abbrev pub or_zero : Option (Outcome IndexState) → Outcome IndexState
or_zero none = ok (record { desired = 0; applied = 0; dirty = false })
or_zero (some st) = st

-- readDurableIndexState
unfoldable pub read_state : States → Bytes → Outcome IndexState
read_state states t = or_zero (states t)

-- writeDurableIndexState
unfoldable pub write_state : Bytes → IndexState → States → States
write_state t st states = λ t'. if bytes_eq t t' then some (ok st) else states t'

-- durableJobTables, with the tables in the order in which they first appear
unfoldable pub job_tables : List JobMutation → List Bytes → List Bytes
job_tables [] seen = []
job_tables (m ∷ ms) seen =
    let skip = job_tables ms seen in
    let take = m.table ∷ job_tables ms (m.table ∷ seen) in
    if bytes_eq m.table [] || among m.table seen then skip else take

-- the loops over durableJobTables: read, change, write
unfoldable pub change_states : (IndexState → IndexState) → List Bytes → States → Outcome States
unfolding read_state write_state
change_states f [] states = ok states
change_states f (t ∷ ts) states =
    read_state states t >>= λ st. change_states f ts (write_state t (f st) states)

-- persistDurableIndexJob once json.Marshal has returned its error or none
unfoldable pub put_job : Option Error → Job → Outbox → Outcome (Option Job × Outbox)
unfolding change_states job_tables
put_job (some e) job s = err e
put_job none job s =
    change_states (λ st. record st { desired = job.sequence }) (job_tables job.mutations [])
      s.states
    >>= λ states. ok (
      some job,
      record {
        sequence = job.sequence;
        entries = s.entries ++ (job.sequence, ok job) ∷ [];
        states = states;
      },
    )

-- persistDurableIndexJob from the check for mutations on; `marshal` is the error of json.Marshal
unfoldable pub enqueue : (Job → Option Error) → Job → Outbox → Outcome (Option Job × Outbox)
unfolding put_job
enqueue marshal job s =
    let numbered = record job { sequence = suc s.sequence } in
    let stored = put_job (marshal numbered) numbered s in
    if length job.mutations == 0 then ok (none, s) else stored

abbrev pub remove_entry : ℕ → Entries → Entries
remove_entry n es = select (λ e. not (e.0 == n)) es

-- the state of a table after a job is acknowledged
unfoldable pub acked : ℕ → IndexState → IndexState
acked n st =
    let applied = if ltb st.applied n then n else st.applied in
    record { desired = st.desired; applied = applied; dirty = ltb applied st.desired }

-- `clean[table] = !state.Dirty` for the tables of a job, with the last write of a table first
unfoldable pub clean_tables :
    List Bytes → States → List (Bytes × Bool) → Outcome (List (Bytes × Bool))
unfolding read_state
clean_tables [] states clean = ok clean
clean_tables (t ∷ ts) states clean =
    read_state states t >>= λ st. clean_tables ts states ((t, not st.dirty) ∷ clean)

-- the loop of ackDurableIndexJobs
unfoldable pub ack_jobs :
    List Job → Outbox → List (Bytes × Bool) → Outcome (List (Bytes × Bool) × Outbox)
unfolding change_states job_tables acked clean_tables
ack_jobs [] s clean = ok (clean, s)
ack_jobs (job ∷ jobs) s clean =
    change_states (acked job.sequence) (job_tables job.mutations []) s.states >>= λ states.
    clean_tables (job_tables job.mutations []) states clean >>= λ clean'.
    ack_jobs jobs (record s { entries = remove_entry job.sequence s.entries; states = states })
      clean'

-- markDurableIndexJobsDirty
unfoldable pub mark_jobs_dirty : List Job → Outbox → Outcome Outbox
unfolding change_states job_tables
mark_jobs_dirty [] s = ok s
mark_jobs_dirty (job ∷ jobs) s =
    change_states (λ st. record st { dirty = true }) (job_tables job.mutations []) s.states
    >>= λ states. mark_jobs_dirty jobs (record s { states = states })

-- markDurableIndexTableDirty
unfoldable pub mark_table_dirty : Bytes → Outbox → Outcome Outbox
unfolding change_states
mark_table_dirty t s =
    change_states (λ st. record st { dirty = true }) (t ∷ []) s.states >>= λ states.
    ok (record s { states = states })

-- sameStringPath
unfoldable pub same_string_path : List Bytes → List Bytes → Bool
same_string_path [] [] = true
same_string_path [] (b ∷ bs) = false
same_string_path (a ∷ as') [] = false
same_string_path (a ∷ as') (b ∷ bs) = bytes_eq a b && same_string_path as' bs

-- the mutations of a job that a rebuild of a table under a root does not cover
unfoldable pub uncovered : List Bytes → Bytes → List JobMutation → List JobMutation
unfolding same_string_path
uncovered root t ms =
    select (λ m. not (bytes_eq m.table t) || not (same_string_path m.root root)) ms

-- an entry whose job lost mutations: it goes, or its job is stored again
unfoldable pub replace_entry : Option Error → ℕ → Job → List JobMutation → Outcome Entries
replace_entry e k updated [] = ok []
replace_entry (some e) k updated (m ∷ ms) = err e
replace_entry none k updated (m ∷ ms) = ok ((k, ok updated) ∷ [])

-- one entry of the outbox that the rebuild may cover
unfoldable pub cover_entry :
    (Job → Option Error) → Bytes → ℕ → Job → List JobMutation → Outcome Entries
unfolding replace_entry
cover_entry marshal t k job left =
    let kept = select (λ e. not (bytes_eq e.0 t)) job.schemas in
    let updated = record job { mutations = left; schemas = kept } in
    let replaced = replace_entry (marshal updated) k updated left in
    if length left == length job.mutations then ok ((k, ok job) ∷ []) else replaced

-- the loop of completeDurableReindex over the entries of the outbox
unfoldable pub cover_entries :
    (Job → Option Error) → List Bytes → Bytes → ℕ → Entries → Outcome Entries
unfolding uncovered cover_entry
cover_entries marshal root t through [] = ok []
cover_entries marshal root t through ((k, raw) ∷ es) =
    let rest = cover_entries marshal root t through es in
    let here = (raw >>= λ job. cover_entry marshal t k job (uncovered root t job.mutations)) in
    (if ltb through k then ok ((k, raw) ∷ []) else here) >>= λ first.
    rest >>= λ others. ok (first ++ others)

abbrev pub mentions : Bytes → List JobMutation → Bool
mentions t [] = false
mentions t (m ∷ ms) = bytes_eq m.table t || mentions t ms

-- durableOutboxContainsTable
unfoldable pub contains_table : Bytes → Entries → Outcome Bool
contains_table t [] = ok false
contains_table t ((k, raw) ∷ es) =
    let rest = contains_table t es in
    raw >>= λ job. if mentions t job.mutations then ok true else rest

-- the state of a table after its rebuild
unfoldable pub rebuilt : ℕ → Bool → IndexState → IndexState
rebuilt through remaining st =
    if leb st.desired through && not remaining
    then record st { applied = st.desired; dirty = false }
    else record st { dirty = true }

-- completeDurableReindex
unfoldable pub complete_reindex :
    (Job → Option Error) → List Bytes → Bytes → ℕ → Outbox → Outcome Outbox
unfolding cover_entries read_state contains_table rebuilt write_state
complete_reindex marshal root t through s = cover_entries marshal root t through s.entries >>= λ es.
    read_state s.states t >>= λ st. contains_table t es >>= λ remaining.
    ok (record s { entries = es; states = write_state t (rebuilt through remaining st) s.states })

-- loadDurableIndexJobs: the jobs of the outbox in the order of their keys
unfoldable pub load_jobs : Entries → Outcome (List Job)
load_jobs [] = ok []
load_jobs ((k, raw) ∷ es) =
    let rest = load_jobs es in raw >>= λ job. rest >>= λ jobs. ok (job ∷ jobs)

-- the condition on a stored state in newBleveIndexManager
abbrev pub distrusted : Option (Outcome IndexState) → Outcome Bool
distrusted none = ok false
distrusted (some raw) = raw >>= λ st. ok (st.dirty || ltb st.applied st.desired)

-- `m.dirty[table]` when newBleveIndexManager has read the states
unfoldable pub open_dirty : States → Bytes → Outcome Bool
open_dirty states t = distrusted (states t)

-- ===== src/Tests/Outboxes.antt =====
-- The outbox, and the marks of tables, at concrete jobs.
use storm_rev.Base.{
  ◌≡◌, refl, arith, ℕ, ◌∷◌, [], ◌++◌, List, Option, none, some, Bool, true, false, Error, Outcome,
  ok, select,
}
use storm_rev.Base.Bytes.{Bytes, ascii, bytes_eq}
use storm_rev.Config.{lookup}
use storm_rev.Indexer.Outbox.{
  text, number, flag, Doc, IndexField, delete, JobMutation, Job, Outbox, enqueue, ack_jobs,
  contains_table, complete_reindex, open_dirty, IndexState, write_state,
}
use storm_rev.Indexer.Outbox.Ledger.{Valid}
use storm_rev.Indexer.Outbox.Acks.{ack_jobs-clean}
use storm_rev.Indexer.Outbox.Covered.{all_mutations, is_uncovered, complete_reindex-mutations}
use storm_rev.Indexer.Outbox.Reach.{
  Reachable, created, stepped, enqueued, new_outbox, Reachable-Valid, open_dirty-contains_table,
}
use storm_rev.Indexer.Outbox.Records.{named_field, encode_fields, decode_fields}
use storm_rev.Indexer.Outbox.Records.Fields.{decode_fields-encode_fields}
use storm_rev.Indexer.Tables.{no_marks, is_dirty}
use storm_rev.Indexer.Tables.Trust.{
  Event, queued, finished, cleared, run_events, is_dirty-outstanding,
}

abbrev users : Bytes
users = ascii "users"

abbrev removal : Bytes → JobMutation
removal t = record { operation = delete; table = t; root = []; id = 1 ∷ []; fields = [] }

abbrev never_fails : Job → Option Error
never_fails job = none

abbrev unnumbered : Job
unnumbered = record {
  sequence = 0;
  schemas = [];
  mutations = removal users ∷ removal (ascii "pets") ∷ [];
}

abbrev numbered : Job
numbered = record unnumbered { sequence = 1 }

-- The outbox after the job, and after its acknowledgement.
abbrev waiting : IndexState
waiting = record { desired = 1; applied = 0; dirty = false }

abbrev one_job : Outbox
one_job = record {
  sequence = 1;
  entries = (1, ok numbered) ∷ [];
  states = write_state (ascii "pets") waiting (write_state users waiting (λ t. none));
}

abbrev settled : IndexState
settled = record { desired = 1; applied = 1; dirty = false }

abbrev no_job : Outbox
no_job = record {
  sequence = 1;
  entries = [];
  states = write_state (ascii "pets") settled (write_state users settled one_job.states);
}

one_job-Reachable : Reachable one_job
unfolding enqueue storm_rev.Base.Bytes.compare_bytes
one_job-Reachable =
    stepped created (enqueued never_fails unnumbered new_outbox (some numbered, one_job) refl)

Reachable-Valid_example : Valid one_job
Reachable-Valid_example = Reachable-Valid one_job-Reachable

open_dirty-contains_table_example : open_dirty one_job.states users ≡ ok true
unfolding contains_table storm_rev.Base.Bytes.compare_bytes
open_dirty-contains_table_example = open_dirty-contains_table users one_job-Reachable refl refl

ack_jobs-clean_example : ¬ (contains_table users no_job.entries ≡ ok true)
unfolding ack_jobs storm_rev.Base.Bytes.compare_bytes
ack_jobs-clean_example =
    ack_jobs-clean (numbered ∷ []) one_job ((ascii "pets", true) ∷ (users, true) ∷ [], no_job) users
      (Reachable-Valid one_job-Reachable) (omega arith, tt, tt) refl refl refl

-- The outbox after a rebuild of users.
abbrev kept : Job
kept = record numbered { mutations = removal (ascii "pets") ∷ [] }

abbrev rebuilt_users : Outbox
rebuilt_users = record one_job {
  entries = (1, ok kept) ∷ [];
  states = write_state users settled one_job.states;
}

complete_reindex-mutations_example :
    all_mutations rebuilt_users.entries
    ≡ select (is_uncovered [] users 1) (all_mutations one_job.entries)
unfolding complete_reindex storm_rev.Base.Bytes.compare_bytes
complete_reindex-mutations_example =
    complete_reindex-mutations never_fails [] users 1 one_job rebuilt_users refl

abbrev some_doc : Doc
some_doc =
    (ascii "name", text (ascii "ann")) ∷ (ascii "age", number 7) ∷ (ascii "active", flag true) ∷ []

abbrev stored_doc : List IndexField
stored_doc =
    record (named_field (ascii "active")) { kind = ascii "bool"; as_bool = true }
    ∷ record (named_field (ascii "age")) { kind = ascii "number"; as_number = 7 }
    ∷ record (named_field (ascii "name")) { kind = ascii "string"; as_text = ascii "ann" }
    ∷ []

decode_fields-encode_fields_example :
    (out : Doc) × (decode_fields stored_doc ≡ ok out)
    × ((x : Bytes) → lookup x out ≡ lookup x some_doc)
unfolding encode_fields storm_rev.Base.Bytes.compare_bytes
decode_fields-encode_fields_example = decode_fields-encode_fields some_doc stored_doc refl

abbrev some_events : List Event
some_events =
    queued (users ∷ []) ∷ queued (users ∷ []) ∷ finished (users ∷ []) none ∷ cleared users ∷ []

is_dirty-outstanding_example : is_dirty (run_events some_events no_marks) users ≡ true
unfolding storm_rev.Base.Bytes.compare_bytes
is_dirty-outstanding_example =
    is_dirty-outstanding users some_events (omega arith, tt) (omega arith)

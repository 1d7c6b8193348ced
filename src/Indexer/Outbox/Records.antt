-- ===== src/Indexer/Outbox/Records.antt =====
-- bleve_outbox.go: the job that persistDurableIndexJob makes of a transaction's records, and the
-- records that durableJobRecords makes of a job. The errors that fmt.Errorf makes stand as `bad_type`.
pub mod Fields
pub mod Reads
pub mod Restored
use storm_rev.Base.{
  ℕ, suc, Bool, true, false, not, ◌&&◌, ◌||◌, Option, none, some, List, [], ◌∷◌, ◌++◌, map, Error,
  bad_type, Outcome, ok, err, ◌>>=◌, if◌then◌else◌, Ordering,
}
use storm_rev.Base.Bytes.{Bytes, ascii, bytes_eq, compare_bytes}
use storm_rev.Config.{lookup, assign}
use storm_rev.Meta.{Schema}
use storm_rev.Indexer.Outbox.{
  DocValue, text, number, flag, time, other, Doc, IndexField, Operation, upsert, delete, drop_index,
  unknown, JobMutation, Job, Outbox, enqueue,
}

-- savedRecord and deletedRecord, with what the code reads of their configuration: its name,
-- configUsesBleve, and the schema that storedSchemaFromConfig makes of it.
pub record SavedRecord : Type 0 where
  pub table : Bytes
  pub uses_bleve : Bool
  pub schema : Schema
  pub id : Bytes
  pub doc : Option Doc

pub record DeletedRecord : Type 0 where
  pub table : Bytes
  pub uses_bleve : Bool
  pub schema : Schema
  pub id : Bytes

-- sort.Strings
unfoldable pub insert_name : Bytes → List Bytes → List Bytes
insert_name x [] = x ∷ []
insert_name x (y ∷ ys) =
    let rest = insert_name x ys in
    elim (compare_bytes y x) [ Ordering.lt ↦ y ∷ rest | _ ↦ x ∷ y ∷ ys ]

unfoldable pub sort_names : List Bytes → List Bytes
unfolding insert_name
sort_names [] = []
sort_names (x ∷ xs) = insert_name x (sort_names xs)

-- `durableIndexField{Name: name}`
abbrev pub named_field : Bytes → IndexField
named_field n = record {
  name = n;
  kind = [];
  as_text = [];
  as_number = 0;
  as_bool = false;
  as_time = 0;
}

-- the switch on the type of a value
abbrev pub encode_value : Bytes → Option DocValue → Outcome IndexField
encode_value n none = err bad_type
encode_value n (some (text b)) = ok (record (named_field n) { kind = ascii "string"; as_text = b })
encode_value n (some (number x)) =
    ok (record (named_field n) { kind = ascii "number"; as_number = x })
encode_value n (some (flag b)) = ok (record (named_field n) { kind = ascii "bool"; as_bool = b })
encode_value n (some (time t)) = ok (record (named_field n) { kind = ascii "time"; as_time = t })
encode_value n (some (other x)) = err bad_type

abbrev pub encode_names : Doc → List Bytes → Outcome (List IndexField)
encode_names doc [] = ok []
encode_names doc (n ∷ ns) =
    encode_value n (lookup n doc) >>= λ f. encode_names doc ns >>= λ fs. ok (f ∷ fs)

-- encodeDurableIndexFields
unfoldable pub encode_fields : Doc → Outcome (List IndexField)
unfolding sort_names
encode_fields doc = encode_names doc (sort_names (map (λ (e : Bytes × DocValue). e.0) doc))

-- the switch on the kind of a field
unfoldable pub decode_value : IndexField → Outcome DocValue
decode_value f =
    if bytes_eq f.kind (ascii "string")
    then ok (text f.as_text)
    else if bytes_eq f.kind (ascii "number")
    then ok (number f.as_number)
    else if bytes_eq f.kind (ascii "bool")
    then ok (flag f.as_bool)
    else if bytes_eq f.kind (ascii "time")
    then ok (time f.as_time)
    else err bad_type

unfoldable pub decode_onto : List IndexField → Doc → Outcome Doc
unfolding decode_value
decode_onto [] doc = ok doc
decode_onto (f ∷ fs) doc = decode_value f >>= λ v. decode_onto fs (assign f.name v doc)

-- decodeDurableIndexFields
unfoldable pub decode_fields : List IndexField → Outcome Doc
unfolding decode_onto
decode_fields fs = decode_onto fs []

-- the schemas and the mutations of a job that is being made
abbrev pub Parts : Type 0
Parts = List (Bytes × Schema) × List JobMutation

abbrev pub save_mutation : List Bytes → SavedRecord → List IndexField → JobMutation
save_mutation root r fs = record {
  operation = upsert;
  table = r.table;
  root = root;
  id = r.id;
  fields = fs;
}

-- the document that was prepared for a record, which must be there
abbrev pub prepared : Option Doc → Outcome Doc
prepared none = err bad_type
prepared (some doc) = ok doc

-- the loops of persistDurableIndexJob over the saves, the deletes and the drops
unfoldable pub add_saves : List Bytes → List SavedRecord → Parts → Outcome Parts
unfolding encode_fields assign
add_saves root [] p = ok p
add_saves root (r ∷ rs) p =
    let skip = add_saves root rs p in
    let add =
      (prepared r.doc >>= λ doc. encode_fields doc >>= λ fs.
      add_saves root rs (assign r.table r.schema p.0, p.1 ++ save_mutation root r fs ∷ [])) in
    if r.uses_bleve then add else skip

unfoldable pub add_deletes : List Bytes → List DeletedRecord → Parts → Parts
unfolding assign
add_deletes root [] p = p
add_deletes root (r ∷ rs) p =
    let m : JobMutation = record {
      operation = delete;
      table = r.table;
      root = root;
      id = r.id;
      fields = [];
    } in
    let skip = add_deletes root rs p in
    let add = add_deletes root rs (assign r.table r.schema p.0, p.1 ++ m ∷ []) in
    if r.uses_bleve then add else skip

unfoldable pub add_drops : List Bytes → List Bytes → Parts → Parts
add_drops root [] p = p
add_drops root (t ∷ ts) p =
    let m : JobMutation = record {
      operation = drop_index;
      table = t;
      root = root;
      id = [];
      fields = [];
    } in
    let skip = add_drops root ts p in
    let add = add_drops root ts (p.0, p.1 ++ m ∷ []) in if bytes_eq t [] then skip else add

-- persistDurableIndexJob
unfoldable pub persist_job :
    (Job → Option Error)
    → List Bytes
    → List SavedRecord
    → List DeletedRecord
    → List Bytes
    → Outbox
    → Outcome (Option Job × Outbox)
unfolding add_saves add_deletes add_drops enqueue
persist_job marshal root saves deletes drops s = add_saves root saves ([], []) >>= λ p.
    let q = add_drops root drops (add_deletes root deletes p) in
    enqueue marshal (record { sequence = 0; schemas = q.0; mutations = q.1 }) s

-- the records that a job is read back as, by the table of the schema, the id and the document
abbrev pub Decoded : Type 0
Decoded = List (Bytes × Bytes × Doc) × List (Bytes × Bytes) × List Bytes

-- the name of the configuration that is made of a stored schema, which must be there
abbrev pub table_of : Option Schema → Outcome Bytes
table_of none = err bad_type
table_of (some sc) = ok sc.table

-- configFor, as far as the name of the configuration
unfoldable pub config_for : List (Bytes × Schema) → Bytes → Outcome Bytes
config_for schemas t = table_of (lookup t schemas)

-- one mutation of durableJobRecords, after the records of those behind it
unfoldable pub read_mutation :
    List (Bytes × Schema) → Operation → JobMutation → Outcome Decoded → Outcome Decoded
unfolding config_for decode_fields
read_mutation schemas drop_index m rest = rest >>= λ d. ok (d.0, d.1, m.table ∷ d.2)
read_mutation schemas delete m rest =
    config_for schemas m.table >>= λ t. rest >>= λ d. ok (d.0, (t, m.id) ∷ d.1, d.2)
read_mutation schemas upsert m rest = config_for schemas m.table >>= λ t.
    decode_fields m.fields >>= λ doc. rest >>= λ d. ok ((t, m.id, doc) ∷ d.0, d.1, d.2)
read_mutation schemas (unknown n) m rest = err bad_type

unfoldable pub read_mutations : List (Bytes × Schema) → List JobMutation → Outcome Decoded
unfolding read_mutation
read_mutations schemas [] = ok ([], [], [])
read_mutations schemas (m ∷ ms) = read_mutation schemas m.operation m (read_mutations schemas ms)

-- durableJobRecords
unfoldable pub durable_job_records : Job → Outcome Decoded
unfolding read_mutations
durable_job_records job = read_mutations job.schemas job.mutations

-- ===== src/Plan/Documents.antt =====
-- bleve_index.go: the document of a record, and the searches of the planner. Bleve is a parameter: it
-- answers a query with the ids of its hits.
pub mod Searches
use storm_rev.Base.{
  ℤ, Bool, true, false, not, ◌&&◌, ◌||◌, Ordering, Option, none, some, List, [], ◌∷◌, length, Error,
  not_found, idx_not_found, incompatible_value, Outcome, ok, err, ◌>>=◌, leb_ℤ, ◌==◌, if◌then◌else◌,
}
use storm_rev.Base.Bytes.{Bytes, bytes_eq, compare_bytes}
use storm_rev.Value.{
  Value, boolean, int, uint, float, text, time, time_ptr, ptr, leq, geq, Fields, Host,
}
use storm_rev.Config.{StructConfig, FieldConfig, lookup, missing_from_index}
use storm_rev.Query.Order.{to_bytes}
use storm_rev.Plan.Candidates.{Index}

-- What bleveValue makes of a value: a time, a string, a float64 or a bool.
pub data BleveValue (F : Type 0) : Type 0 where
  at_time : ℤ → BleveValue F
  at_text : Bytes → BleveValue F
  at_number : F → BleveValue F
  at_flag : Bool → BleveValue F

-- A document: what stands under exactField and valueField of a field's name, and the names under
-- which compositeField is set. The marks of hasField and the texts of textField are left out, which
-- none of these searches reads.
pub record Document (F : Type 0) : Type 0 where
  pub tokens : List (Bytes × Bytes)
  pub values : List (Bytes × BleveValue F)
  pub composites : List Bytes

-- The queries: a term of a field; an inclusive range of dates, terms or numbers of a field, by what
-- its bounds are; and the mark of a composite index with a term of each field.
pub data SearchQuery (F : Type 0) : Type 0 where
  term : Bytes → Bytes → SearchQuery F
  within : Bytes → BleveValue F → BleveValue F → SearchQuery F
  all_terms : Bytes → List (Bytes × Bytes) → SearchQuery F

-- The index of one table: base64.RawURLEncoding with its decoding, isDirty of the table, the error of
-- tableIndex, and what bleve's Search on the open index comes to: the ids of its hits.
pub record TableIndex (F : Type 0) : Type 0 where
  pub encode : Bytes → Bytes
  pub decode_id : Bytes → Option Bytes
  pub dirty : Bool
  pub opening : Option Error
  pub hits : SearchQuery F → Outcome (List Bytes)

abbrev pub mentions : Bytes → List Bytes → Bool
mentions x [] = false
mentions x (y ∷ ys) = bytes_eq y x || mentions x ys

-- a field of some composite index
abbrev pub in_composite : Bytes → List (Bytes × List Bytes) → Bool
in_composite f [] = false
in_composite f ((name, fs) ∷ l) = mentions f fs || in_composite f l

-- Indexed
unfoldable pub is_indexed : StructConfig → Bytes → FieldConfig → Bool
is_indexed cfg f fc = not (bytes_eq fc.index []) || in_composite f cfg.composites

module _ (H : Host) where
  open H use {Float, float_of_int, float_of_uint, pointed}

  -- derefValue
  unfoldable pub deref : Value Float → Value Float
  deref (time_ptr (some t)) = time t
  deref (ptr n) = pointed n
  deref v = v

  abbrev pub plain_value : Value Float → Option (BleveValue Float)
  plain_value (time t) = some (at_time t)
  plain_value (text s) = some (at_text s)
  plain_value (boolean b) = some (at_flag b)
  plain_value (int i) = some (at_number (float_of_int i))
  plain_value (uint u) = some (at_number (float_of_uint u))
  plain_value (float x) = some (at_number x)
  plain_value _ = none

  unfoldable pub bleve_value : Value Float → Option (BleveValue Float)
  unfolding deref
  bleve_value v = plain_value (deref v)

  abbrev pub number_only : Option (BleveValue Float) → Option (BleveValue Float)
  number_only (some (at_number x)) = some (at_number x)
  number_only _ = none

  -- a bound by the type switch of rangeQuery, with numericFloat; `none` is one it does not take
  unfoldable pub bound_of : Value Float → Option (BleveValue Float)
  unfolding bleve_value
  bound_of (time t) = some (at_time t)
  bound_of (text s) = some (at_text s)
  bound_of v = number_only (bleve_value v)

  -- rangeQuery, on its bounds
  unfoldable pub range_query :
      Bytes → Option (BleveValue Float) → Option (BleveValue Float) → Outcome (SearchQuery Float)
  range_query f (some (at_time a)) (some (at_time b)) = ok (within f (at_time a) (at_time b))
  range_query f (some (at_time a)) _ = err incompatible_value
  range_query f (some (at_text a)) (some (at_text b)) = ok (within f (at_text a) (at_text b))
  range_query f (some (at_text a)) _ = err incompatible_value
  range_query f (some (at_number a)) (some (at_number b)) =
      ok (within f (at_number a) (at_number b))
  range_query f _ _ = err not_found

  module _ (cfg : StructConfig) (T : TableIndex Float) where
    open T use {encode, decode_id, dirty, opening, hits}

    -- exactToken
    unfoldable pub exact_token : Value Float → Outcome Bytes
    unfolding deref to_bytes
    exact_token v = to_bytes H (deref v) >>= λ raw. ok (encode raw)

    abbrev pub empty_document : Document Float
    empty_document = record { tokens = []; values = []; composites = [] }

    abbrev pub add_value :
        Bytes
        → Option (BleveValue Float)
        → List (Bytes × BleveValue Float)
        → List (Bytes × BleveValue Float)
    add_value f none l = l
    add_value f (some x) l = (f, x) ∷ l

    -- the loop of document over the fields; a zero value is left out
    unfoldable pub document_fields :
        List (Bytes × FieldConfig) → Fields Float → Outcome (Document Float)
    unfolding is_indexed exact_token bleve_value
    document_fields [] fields = ok empty_document
    document_fields ((f, fc) ∷ l) fields =
        let rest = document_fields l fields in
        if not (is_indexed cfg f fc) then rest else elim (fields f) [
          | none ↦ rest
          | some w ↦
              if missing_from_index H w
              then rest
              else exact_token w >>= λ t. rest >>= λ d. ok (record d {
                tokens = (f, t) ∷ d.tokens;
                values = add_value f (bleve_value w) d.values;
              })
        ]

    -- compositeReady
    unfoldable pub composite_ready : Fields Float → List Bytes → Bool
    composite_ready fields [] = true
    composite_ready fields (f ∷ fs) = elim (fields f) [
      | none ↦ false
      | some w ↦ not (missing_from_index H w) && composite_ready fields fs
    ]

    unfoldable pub ready_names : Fields Float → List (Bytes × List Bytes) → List Bytes
    unfolding composite_ready
    ready_names fields [] = []
    ready_names fields ((name, fs) ∷ l) =
        let rest = ready_names fields l in if composite_ready fields fs then name ∷ rest else rest

    -- document
    unfoldable pub document : Fields Float → Outcome (Document Float)
    unfolding document_fields ready_names
    document fields = document_fields cfg.fields fields >>= λ d.
        ok (record d { composites = ready_names fields cfg.composites })

    -- the loop of search over the hits
    unfoldable pub decode_ids : List Bytes → List Bytes
    decode_ids [] = []
    decode_ids (x ∷ xs) =
        let rest = decode_ids xs in elim (decode_id x) [ none ↦ rest | some id ↦ id ∷ rest ]

    -- search
    unfoldable pub search : SearchQuery Float → Outcome (List Bytes)
    unfolding decode_ids
    search query =
        if dirty
        then err not_found
        else elim opening [ some e ↦ err e | none ↦ hits query >>= λ raw. ok (decode_ids raw) ]

    -- searchExact
    unfoldable pub search_exact : Bytes → Value Float → Outcome (List Bytes)
    unfolding search exact_token
    search_exact f v = exact_token v >>= λ t. search (term f t)

    -- searchRange
    unfoldable pub search_range : Bytes → Value Float → Value Float → Outcome (List Bytes)
    unfolding search range_query bound_of
    search_range f lo hi = range_query f (bound_of lo) (bound_of hi) >>= λ query. search query

    -- the loop of searchComposite over the fields and the values
    unfoldable pub field_tokens : List Bytes → List (Value Float) → Outcome (List (Bytes × Bytes))
    unfolding exact_token
    field_tokens (f ∷ fs) (v ∷ vs) =
        exact_token v >>= λ t. field_tokens fs vs >>= λ l. ok ((f, t) ∷ l)
    field_tokens _ _ = ok []

    abbrev pub search_fields :
        Bytes → Option (List Bytes) → List (Value Float) → Outcome (List Bytes)
    search_fields name none vs = err idx_not_found
    search_fields name (some fs) vs =
        if not (length vs == length fs)
        then err incompatible_value
        else field_tokens fs vs >>= λ l. search (all_terms name l)

    -- searchComposite
    unfoldable pub search_composite : Bytes → List (Value Float) → Outcome (List Bytes)
    unfolding search field_tokens
    search_composite name vs = search_fields name (lookup name cfg.composites) vs

    -- the searches that the planner calls
    unfoldable pub own_index : Index Float
    unfolding search_exact search_range search_composite
    own_index = record {
      search_exact = search_exact;
      search_range = search_range;
      search_composite = search_composite;
    }

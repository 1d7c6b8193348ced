-- ===== src/Tests/Toy.antt =====
-- A concrete host and a small table: records are runs of a key byte and a value byte, so that
-- the record `a5` has the number 5 under the path `a`.
use mathlib.Core.Path.{subst}
use storm_rev.Base.{
  ℕ, map, ok_injective, ◌∙◌, Outcome, ok, err, Error, ◌≡◌, refl, sym, ap, inl, inr, ℤ, pos,
  compare_ℤ, Bool, true, false, Bool-cases, Option, none, some, List, [], ◌∷◌, Error, ok, err,
  arith, if◌then◌else◌,
}
use storm_rev.Base.Bytes.{Bytes, ascii, bytes_eq, bytes_eq_iff, compare_bytes}
use storm_rev.Base.Sorted.{In, Sorted}
use storm_rev.Value.{Token, Value, invalid, int, text, float, Json, number, Host}
use storm_rev.Q.Compare.{by_token}
use storm_rev.Config.{FieldConfig, StructConfig, lookup}
use storm_rev.Query.Sink.{Item}
use storm_rev.Bucket.{Bucket, Row, IsBucket, KeyBefore, items_of, walk}
use storm_rev.Plan.Candidates.{Index}
use storm_rev.Config.{missing_from_index}
use storm_rev.Query.Order.{to_bytes}
use storm_rev.Plan.Documents.{
  Document, at_number, TableIndex, SearchQuery, own_index, document, document_fields, is_indexed,
  exact_token, bleve_value, deref, ready_names,
}
use storm_rev.Plan.Documents.Searches.{accepts_document, Answering}
use storm_rev.Plan.Coverage.{Covers}
use storm_rev.Plan.Candidates.Members.{Distinct}

abbrev pub toy_get : Bytes → Bytes → Option (Json ℤ)
toy_get (k ∷ v ∷ raw) path =
    let rest = toy_get raw path in if bytes_eq path (k ∷ []) then some (number (pos v)) else rest
toy_get _ path = none

abbrev toy_equal : Value ℤ → Value ℤ → Bool
toy_equal (text s) (text t) = bytes_eq s t
toy_equal _ _ = false

abbrev toy_field : Option (Json ℤ) → Option (Value ℤ)
toy_field (some (number x)) = some (float x)
toy_field _ = none

-- The JSON name of a struct field.
abbrev toy_name : Bytes → Bytes
toy_name f =
    if bytes_eq f (ascii "A") then ascii "a" else if bytes_eq f (ascii "B") then ascii "b" else f

abbrev toy_marshal : Value ℤ → Outcome Bytes
toy_marshal (float (pos n)) = ok (n ∷ [])
toy_marshal v = err (Error.host 9)

abbrev toy_key : Value ℤ → Bytes
toy_key (int (pos n)) = n ∷ []
toy_key _ = []

abbrev pub toy : Host
toy = record {
  Float = ℤ;
  float_of_int = λ i. i;
  float_of_uint = λ u. pos u;
  parse_float = λ s. none;
  compare_float = λ x tok y. by_token tok (compare_ℤ x y);
  deep_equal = toy_equal;
  gjson_get = toy_get;
  regexp_compiles = λ p. true;
  regexp_match = λ p s. true;
  decode = λ raw. ((λ f. toy_field (toy_get raw (toy_name f))), none);
  decode_onto = λ target raw. λ f. toy_field (toy_get raw (toy_name f));
  marshal = toy_marshal;
  number_key = toy_key;
  float_less = λ x y. by_token Token.lss (compare_ℤ x y);
  zero_value = λ v. false;
  pointed = λ n. invalid;
}

abbrev pub doc_one : Bytes
doc_one = 97 ∷ 5 ∷ 98 ∷ 7 ∷ []

abbrev pub doc_two : Bytes
doc_two = 97 ∷ 6 ∷ 98 ∷ 7 ∷ []

abbrev pub toy_rows : List Row
toy_rows = (1 ∷ [], some doc_one) ∷ (2 ∷ [], some doc_two) ∷ (ascii "__storm_metadata", none) ∷ []

abbrev pub toy_bucket : Bucket
toy_bucket = record {
  forward = toy_rows;
  backward =
      (ascii "__storm_metadata", none) ∷ (2 ∷ [], some doc_two) ∷ (1 ∷ [], some doc_one) ∷ [];
  get = λ k. lookup k (items_of toy_rows);
}

abbrev pub toy_ids : List Bytes
toy_ids = (1 ∷ []) ∷ (2 ∷ []) ∷ []

lookup-In : (k v : Bytes) (l : List Item) → lookup k l ≡ some v → In (k, v) l
lookup-In k v [] h = cc
lookup-In k v ((j, w) ∷ l) h = elim (Bool-cases (bytes_eq j k)) [
  | inl y ↦
      let e : j ≡ k = (bytes_eq_iff j k).0 y in let d : w ≡ v = ground arith in inl (ground arith)
  | inr n ↦ inr (lookup-In k v l (ground arith))
]

known_key : (k v : Bytes) → toy_bucket.get k ≡ some v → In k toy_ids
known_key k v h = elim (lookup-In k v (items_of toy_rows) h) [
  | inl e ↦ inl (ap (λ (i : Item). i.0) e)
  | inr (inl e) ↦ inr (inl (ap (λ (i : Item). i.0) e))
  | inr (inr e) ↦ absurd e
]

toy_held :
    (r : Bool) (k v : Bytes) → In (k, v) (items_of (walk r toy_bucket)) → toy_bucket.get k ≡ some v
unfolding walk compare_bytes
toy_held false k v (inl e) = rw (ap (λ (i : Item). i.0) e, ap (λ (i : Item). i.1) e) refl
toy_held false k v (inr (inl e)) = rw (ap (λ (i : Item). i.0) e, ap (λ (i : Item). i.1) e) refl
toy_held false k v (inr (inr e)) = absurd e
toy_held true k v (inl e) = rw (ap (λ (i : Item). i.0) e, ap (λ (i : Item). i.1) e) refl
toy_held true k v (inr (inl e)) = rw (ap (λ (i : Item). i.0) e, ap (λ (i : Item). i.1) e) refl
toy_held true k v (inr (inr e)) = absurd e

toy_met :
    (r : Bool) (k v : Bytes) → toy_bucket.get k ≡ some v → In (k, v) (items_of (walk r toy_bucket))
unfolding walk
toy_met false k v h = lookup-In k v (items_of toy_rows) h
toy_met true k v h = elim (lookup-In k v (items_of toy_rows) h) [
  | inl e ↦ inr (inl e)
  | inr (inl e) ↦ inl e
  | inr (inr e) ↦ absurd e
]

toy-Sorted : (r : Bool) → Sorted (KeyBefore r) (items_of (walk r toy_bucket))
unfolding walk compare_bytes
toy-Sorted false = ((refl, tt), (tt, tt))
toy-Sorted true = ((refl, tt), (tt, tt))

pub toy_bucket-IsBucket : IsBucket toy_bucket
toy_bucket-IsBucket = record { sorted = toy-Sorted; met = toy_met; held = toy_held }

abbrev pub field_a : FieldConfig
field_a = record { name = ascii "A"; index = ascii "index"; is_id = false; json_name = ascii "a" }

abbrev pub field_b : FieldConfig
field_b = record { name = ascii "B"; index = []; is_id = false; json_name = ascii "b" }

abbrev pub toy_config : StructConfig
toy_config = record {
  name = ascii "T";
  fields = (ascii "A", field_a) ∷ (ascii "B", field_b) ∷ [];
  composites = [];
}

-- The documents of the two records, of their indexed field.
abbrev toy_document : ℕ → Document ℤ
toy_document n = record {
  tokens = (ascii "A", n ∷ []) ∷ [];
  values = (ascii "A", at_number (pos n)) ∷ [];
  composites = [];
}

abbrev toy_stored : Bytes → Option (Document ℤ)
toy_stored k =
    if bytes_eq k (1 ∷ [])
    then some (toy_document 5)
    else if bytes_eq k (2 ∷ [])
    then some (toy_document 6)
    else none

abbrev pick : Bool → Bool → List Bytes
pick a b = elim a [
  | true ↦ elim b [ true ↦ (1 ∷ []) ∷ (2 ∷ []) ∷ [] | false ↦ (1 ∷ []) ∷ [] ]
  | false ↦ elim b [ true ↦ (2 ∷ []) ∷ [] | false ↦ [] ]
]

-- An index that answers with the documents that meet the query.
abbrev pub toy_table : TableIndex ℤ
toy_table = record {
  encode = λ id. id;
  decode_id = λ id. some id;
  dirty = false;
  opening = none;
  hits = λ query. ok (
      pick (accepts_document toy query (toy_document 5))
        (accepts_document toy query (toy_document 6)));
}

abbrev pub toy_index : Index ℤ
toy_index = own_index toy toy_config toy_table

not_equal : In {A = Bytes} (1 ∷ []) ((2 ∷ []) ∷ []) → ⊥
not_equal (inl e) = cc
not_equal (inr e) = e

pick-Distinct : (a b : Bool) → Distinct (pick a b)
pick-Distinct true true = ((λ m. not_equal m), ((λ m. m), tt))
pick-Distinct true false = ((λ m. m), tt)
pick-Distinct false true = ((λ m. m), tt)
pick-Distinct false false = tt

pick-same : (a b : Bool) → pick a b ≡ map (λ (id : Bytes). id) (pick a b)
pick-same true true = refl
pick-same true false = refl
pick-same false true = refl
pick-same false false = refl

pick-one : (a b : Bool) → a ≡ true → In {A = Bytes} (1 ∷ []) (pick a b)
pick-one true true e = inl refl
pick-one true false e = inl refl
pick-one false b e = cc

pick-two : (a b : Bool) → b ≡ true → In {A = Bytes} (2 ∷ []) (pick a b)
pick-two true true e = inr (inl refl)
pick-two false true e = inl refl
pick-two a false e = cc

abbrev picked : SearchQuery ℤ → List Bytes
picked query =
    pick (accepts_document toy query (toy_document 5)) (accepts_document toy query (toy_document 6))

toy_finds :
    (query : SearchQuery ℤ) (k : Bytes) (d : Document ℤ)
    → toy_stored k ≡ some d
    → accepts_document toy query d ≡ true
    → In k (picked query)
toy_finds query k d e a = elim (Bool-cases (bytes_eq k (1 ∷ []))) [
  | inl y ↦
      let one : k ≡ 1 ∷ [] = (bytes_eq_iff k (1 ∷ [])).0 y in
      let doc : toy_document 5 ≡ d = some_injective _ d (rw y at e) in
      let met = ap (accepts_document toy query) doc ∙ a in
      subst (λ x. In x (picked query)) (sym one) (pick-one _ _ met)
  | inr n ↦ elim (Bool-cases (bytes_eq k (2 ∷ []))) [
    | inl y ↦
        let two : k ≡ 2 ∷ [] = (bytes_eq_iff k (2 ∷ [])).0 y in
        let doc : toy_document 6 ≡ d = some_injective _ d (rw (n, y) at e) in
        let met = ap (accepts_document toy query) doc ∙ a in
        subst (λ x. In x (picked query)) (sym two) (pick-two _ _ met)
    | inr m ↦ cc (rw (n, m) at e)
  ]
]
  where
    some_injective : (x y : Document ℤ) → some x ≡ some y → x ≡ y
    some_injective x y h = cc

pub toy-Answering : Answering toy toy_table toy_stored
toy-Answering = record {
  decodes = λ id. refl;
  finds = λ query raw h.
      let same : picked query ≡ raw = ok_injective _ raw h in
      (
        picked query,
        sym same ∙ pick-same _ _,
        pick-Distinct _ _,
        λ k d e a. toy_finds query k d e a,
      );
}

no_id_field :
    (f : Bytes) (fc : FieldConfig) → lookup f toy_config.fields ≡ some fc → fc.is_id ≡ true → ⊥
no_id_field f fc l i = elim (Bool-cases (bytes_eq (ascii "A") f)) [
  | inl y ↦
      let e : field_a ≡ fc = ground arith in
      let d : false ≡ true = ap (λ (c : FieldConfig). c.is_id) e ∙ i in cc
  | inr n ↦ elim (Bool-cases (bytes_eq (ascii "B") f)) [
    | inl y ↦
        let e : field_b ≡ fc = ground arith in
        let d : false ≡ true = ap (λ (c : FieldConfig). c.is_id) e ∙ i in cc
    | inr o ↦ let e : none ≡ some fc = ground arith in cc
  ]
]

-- What holds of both records holds of each record of the bucket.
pub each_row :
    (P : Bytes → Bytes → Type 0)
    → P (1 ∷ []) doc_one
    → P (2 ∷ []) doc_two
    → (k doc : Bytes) → toy_bucket.get k ≡ some doc
    → P k doc
each_row P one two k doc h = elim (lookup-In k doc (items_of toy_rows) h) [
  | inl e ↦ subst (λ (i : Item). P i.0 i.1) (sym e) one
  | inr (inl e) ↦ subst (λ (i : Item). P i.0 i.1) (sym e) two
  | inr (inr e) ↦ absurd e
]

abbrev InStep : Bytes → Bytes → Type 0
InStep k doc =
    (d : Document ℤ) × (toy_stored k ≡ some d)
    × (document toy toy_config toy_table (toy.decode doc).0 ≡ ok d)

stored_one : InStep (1 ∷ []) doc_one
unfolding document document_fields is_indexed exact_token bleve_value deref to_bytes compare_bytes
    missing_from_index ready_names
stored_one = (toy_document 5, refl, refl)

stored_two : InStep (2 ∷ []) doc_two
unfolding document document_fields is_indexed exact_token bleve_value deref to_bytes compare_bytes
    missing_from_index ready_names
stored_two = (toy_document 6, refl, refl)

pub toy-Covers : Covers toy toy_config toy_index toy_bucket
toy-Covers = record {
  table = toy_table;
  stored = toy_stored;
  own = refl;
  answering = toy-Answering;
  synced = each_row InStep stored_one stored_two;
  keyed = λ k doc f fc w h l i s. absurd (no_id_field f fc l i);
  ids_indexed = λ f fc l i. absurd (no_id_field f fc l i);
  composites_known = λ name fs l. cc;
}

-- ===== src/Meta.antt =====
-- metadata_edit.go: the check of a table's columns, and the schema that is stored for them.
pub mod Columns
use storm_rev.Base.{
  ℕ, ℤ, ◌≡◌, Bool, true, false, not, ◌&&◌, ◌||◌, Option, none, some, List, [], ◌∷◌, Error, no_id,
  no_name, nil_param, unknown_tag, Outcome, ok, err, guard, ◌>>=◌, ◌>>◌, if◌then◌else◌,
}
use storm_rev.Base.Bytes.{Bytes, ascii, bytes_eq}
use storm_rev.Config.{tag_unique}

-- token.IsIdentifier, and unicode.IsUpper on the first letter of a name
pub record Names : Type 0 where
  pub is_identifier : Bytes → Bool
  pub starts_upper : Bytes → Bool

-- ColumnInfo and storedSchemaField, which have the same fields
pub record Column : Type 0 where
  pub name : Bytes
  pub json : Bytes
  pub type_name : Bytes
  pub index : Bytes
  pub is_id : Bool
  pub increment : Bool
  pub start : ℤ
  pub integer : Bool
  pub composites : List (Bytes × ℤ)

-- storedSchema
pub record Schema : Type 0 where
  pub table : Bytes
  pub fields : List Column
  pub id : Bytes

abbrev pub among : Bytes → List Bytes → Bool
among x [] = false
among x (y ∷ ys) = if bytes_eq x y then true else among x ys

abbrev pub index_tags : List Bytes
index_tags = [] ∷ ascii "index" ∷ tag_unique ∷ ascii "fulltext" ∷ []

abbrev pub integer_types : List Bytes
integer_types =
    ascii "int"
    ∷ ascii "int8"
    ∷ ascii "int16"
    ∷ ascii "int32"
    ∷ ascii "int64"
    ∷ ascii "uint"
    ∷ ascii "uint8"
    ∷ ascii "uint16"
    ∷ ascii "uint32"
    ∷ ascii "uint64"
    ∷ []

-- validateMetadataIndex
unfoldable pub valid_index : Bytes → Outcome (Unit {0})
valid_index tag = guard (among tag index_tags) unknown_tag

-- the loop that looks for the column marked as the ID
unfoldable pub explicit_id : List Column → Bytes → Outcome Bytes
explicit_id [] found = ok found
explicit_id (c ∷ cs) found =
    let here = explicit_id cs c.name in
    let rest = explicit_id cs found in
    if c.is_id then if bytes_eq found [] then here else err no_id else rest

-- the field made of a column
unfoldable pub to_field : Bytes → Column → Column
to_field explicit c =
    let id = c.is_id || (bytes_eq explicit [] && bytes_eq c.name (ascii "ID")) in
    record c {
      json = if bytes_eq c.json [] then c.name else c.json;
      index = if id then tag_unique else c.index;
      is_id = id;
      integer = c.integer || among c.type_name integer_types;
    }

module _ (N : Names) where
  open N use {is_identifier, starts_upper}

  -- validMetadataFieldName
  unfoldable pub valid_name : Bytes → Bool
  valid_name name = is_identifier name && starts_upper name

  -- the loop over the columns, with the names seen and the ID found
  unfoldable pub convert : Bytes → List Bytes → Bytes → List Column → Outcome (List Column × Bytes)
  unfolding valid_name valid_index to_field
  convert explicit seen id [] = ok ([], id)
  convert explicit seen id (c ∷ cs) =
      let field = to_field explicit c in
      let rest = convert explicit (c.name ∷ seen) (if field.is_id then field.name else id) cs in
      guard (valid_name c.name) no_name
      >> (guard (not (among c.name seen)) no_name
          >> (valid_index c.index >> (rest >>= λ r. ok (field ∷ r.0, r.1))))

  -- storedSchemaFromColumns
  unfoldable pub stored_schema : Bytes → List Column → Outcome Schema
  unfolding explicit_id convert
  stored_schema [] columns = err no_name
  stored_schema (b ∷ bs) [] = err nil_param
  stored_schema (b ∷ bs) (c ∷ cs) = explicit_id (c ∷ cs) [] >>= λ explicit.
      convert explicit [] [] (c ∷ cs) >>= λ r.
      guard (not (bytes_eq r.1 [])) no_id >> ok (record { table = b ∷ bs; fields = r.0; id = r.1 })

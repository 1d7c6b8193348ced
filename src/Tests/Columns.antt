-- ===== src/Tests/Columns.antt =====
-- The property of stored schemas at a table of two columns.
use storm_rev.Base.{◌≡◌, refl, pos, Bool, true, false, not, List, [], ◌∷◌, map, All, ok}
use storm_rev.Base.Bytes.{Bytes, ascii, bytes_eq, compare_bytes}
use storm_rev.Base.Sorted.{In}
use storm_rev.Config.{tag_unique}
use storm_rev.Meta.{
  Names, Column, Schema, valid_index, explicit_id, to_field, valid_name, convert, stored_schema,
}
use storm_rev.Meta.Columns.{Fresh, Sound, IdAt, Marked, stored_schema-Sound}

abbrev some_names : Names
some_names = record { is_identifier = λ n. not (bytes_eq n []); starts_upper = λ n. true }

abbrev column : Bytes → Bytes → Bool → Column
column name index id = record {
  name = name;
  json = name;
  type_name = ascii "int";
  index = index;
  is_id = id;
  increment = false;
  start = pos 0;
  integer = true;
  composites = [];
}

abbrev two_columns : List Column
two_columns = column (ascii "ID") [] false ∷ column (ascii "Age") (ascii "index") false ∷ []

abbrev two_fields : List Column
two_fields = column (ascii "ID") tag_unique true ∷ column (ascii "Age") (ascii "index") false ∷ []

abbrev two_schema : Schema
two_schema = record { table = ascii "T"; fields = two_fields; id = ascii "ID" }

none_empty : some_names.is_identifier [] ≡ false
unfolding compare_bytes
none_empty = refl

two_stored : stored_schema some_names (ascii "T") two_columns ≡ ok two_schema
unfolding stored_schema compare_bytes explicit_id convert valid_name valid_index to_field
two_stored = refl

stored_schema-Sound_example :
    (map (λ (f : Column). f.name) two_fields ≡ map (λ (c : Column). c.name) two_columns)
    × Fresh [] two_fields
    × All (Sound some_names) two_fields
    × In (ascii "ID") (map (λ (f : Column). f.name) two_fields)
    × All (IdAt (ascii "ID")) two_fields
    × Marked (ascii "ID") two_fields
stored_schema-Sound_example =
    stored_schema-Sound some_names none_empty (ascii "T") two_columns two_schema two_stored

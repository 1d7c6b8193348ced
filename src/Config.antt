-- ===== src/Config.antt =====
-- The metadata of a model: fieldConfig, structConfig and compositeIndexConfig of extract.go, as
-- far as queries use them; and zero values.
use storm_rev.Base.{
  ◌≡◌, refl, arith, zero, pos, negsuc, suc, Bool, true, false, not, ◌||◌, Option, none, some, List,
  [], ◌∷◌, if◌then◌else◌,
}
use storm_rev.Base.Bytes.{Bytes, ascii, bytes_eq, bytes_eq_iff}
use storm_rev.Value.{
  Value, invalid, nil_ptr, boolean, int, uint, float, text, bytes, nil_slice, slice, time, time_ptr,
  ptr, struct_val, Host,
}

pub record FieldConfig : Type 0 where
  pub name : Bytes
  pub index : Bytes
  pub is_id : Bool
  pub json_name : Bytes

-- `fields` and `composites` are maps: their keys are distinct. A composite index is the list of
-- the names of its fields, in their order.
pub record StructConfig : Type 0 where
  pub name : Bytes
  pub fields : List (Bytes × FieldConfig)
  pub composites : List (Bytes × List Bytes)

-- A read of a map with string keys.
abbrev pub lookup {ℓ} : {V : Type ℓ} → Bytes → List (Bytes × V) → Option V
lookup k [] = none
lookup k ((j, v) ∷ m) = if bytes_eq j k then some v else lookup k m

abbrev pub tag_unique : Bytes
tag_unique = ascii "unique"

-- the renaming that query hands to Foreach: the JSON name of a field that the model has
unfoldable pub json_of : StructConfig → Bytes → Bytes
json_of cfg f = elim (lookup f cfg.fields) [ none ↦ f | some fc ↦ fc.json_name ]

-- fieldCanUseSelectIndex
unfoldable pub can_use_index : StructConfig → Bytes → Bool
can_use_index cfg f = elim (lookup f cfg.fields) [
  | none ↦ false
  | some fc ↦ fc.is_id || not (bytes_eq fc.index [])
]

module _ (H : Host) where
  open H use {Float, zero_value}

  -- selectValueMissingFromIndex: nil values, and zero values by isZero
  unfoldable pub missing_from_index : Value Float → Bool
  missing_from_index invalid = true
  missing_from_index nil_ptr = true
  missing_from_index (ptr n) = false
  missing_from_index (boolean b) = not b
  missing_from_index (int (pos zero)) = true
  missing_from_index (int (pos (suc n))) = false
  missing_from_index (int (negsuc n)) = false
  missing_from_index (uint zero) = true
  missing_from_index (uint (suc n)) = false
  missing_from_index (text []) = true
  missing_from_index (text (c ∷ cs)) = false
  missing_from_index (bytes none) = true
  missing_from_index (bytes (some b)) = false
  missing_from_index nil_slice = true
  missing_from_index (slice vs) = false
  missing_from_index (time_ptr none) = true
  missing_from_index (time_ptr (some t)) = false
  missing_from_index (float x) = zero_value (float x)
  missing_from_index (time t) = zero_value (time t)
  missing_from_index (struct_val n) = zero_value (struct_val n)

-- A write of a map with string keys.
unfoldable pub assign {ℓ} : {V : Type ℓ} → Bytes → V → List (Bytes × V) → List (Bytes × V)
assign k v [] = (k, v) ∷ []
assign k v ((j, w) ∷ m) =
    let rest = assign k v m in if bytes_eq j k then (k, v) ∷ m else (j, w) ∷ rest

pub lookup-assign {ℓ} :
    {V : Type ℓ} (k x : Bytes) (v : V) (m : List (Bytes × V))
    → lookup x (assign k v m) ≡ (if bytes_eq k x then some v else lookup x m)
unfolding assign
lookup-assign k x v [] = refl
lookup-assign k x v ((j, w) ∷ m) =
    ground (arith, bytes_eq_iff j k, bytes_eq_iff j x, bytes_eq_iff k x, lookup-assign k x v m)

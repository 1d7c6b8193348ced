-- ===== src/Store/Unique.antt =====
-- store.go: whether another record has a value of a unique field. uniqueExistsByScan reads the
-- bucket; saveAllUniqueState keeps a map from values to ids through a SaveAll.
pub mod Agreement
use storm_rev.Base.{
  ◌≡◌, Bool, true, false, not, ◌||◌, Option, none, some, List, [], ◌∷◌, ◌++◌, select, Error,
  Outcome, ok, err, ◌>>=◌, if◌then◌else◌,
}
use storm_rev.Base.Bytes.{Bytes, bytes_eq}
use storm_rev.Value.{Value, Fields, Host}
use storm_rev.Config.{missing_from_index}
use storm_rev.Bucket.{Row}
use storm_rev.Query.Order.{to_bytes}
use storm_rev.Sql.Raw.{metadata_bucket}

-- The map of one unique field, from a value's bytes to the ids that have it. No id is the empty
-- list: nothing asks whether a value is in the map.
abbrev pub Owners : Type 0
Owners = Bytes → List Bytes

-- the append to values[token]
abbrev pub add_owner : Bytes → Bytes → Owners → Owners
add_owner t id m = λ s. if bytes_eq t s then m s ++ id ∷ [] else m s

-- removeUniqueID
abbrev pub remove_owner : Bytes → Owners → Owners
remove_owner id m = λ s. select (λ k. not (bytes_eq k id)) (m s)

-- the loop over values[token]
unfoldable pub other_owner : Bytes → List Bytes → Bool
other_owner id [] = false
other_owner id (k ∷ ks) = if not (bytes_eq k id) then true else other_owner id ks

module _ (H : Host) (field : Bytes) where
  open H use {Float, decode}

  -- the bytes of a field value; a missing or zero value has none. On field values isZero is
  -- selectValueMissingFromIndex: nil pointers and slices are zero values.
  unfoldable pub value_token : Option (Value Float) → Outcome (Option Bytes)
  value_token none = ok none
  value_token (some v) =
      if missing_from_index H v then ok none else to_bytes H v >>= λ t. ok (some t)

  -- Unmarshal, FieldByName, isZero and toBytes
  unfoldable pub record_token : Fields Float × Option Error → Outcome (Option Bytes)
  unfolding value_token
  record_token (value, some e) = err e
  record_token (value, none) = value_token (value field)

  -- the loop of uniqueExistsByScan
  unfoldable pub scan_owners : Bytes → Bytes → List Row → Outcome Bool
  scan_owners expected id [] = ok false
  scan_owners expected id ((k, none) ∷ rows) = scan_owners expected id rows
  scan_owners expected id ((k, some v) ∷ rows) =
      let rest = scan_owners expected id rows in
      if bytes_eq k metadata_bucket || bytes_eq k id
      then rest
      else record_token (decode v) >>= λ t. elim t [
        | none ↦ rest
        | some a ↦ if bytes_eq a expected then ok true else rest
      ]

  -- uniqueExistsByScan
  unfoldable pub exists_by_scan : Value Float → Bytes → List Row → Outcome Bool
  unfolding scan_owners
  exists_by_scan v id rows = to_bytes H v >>= λ expected. scan_owners expected id rows

  -- `values[token] = append(...)` of a value that is not zero
  abbrev pub note_owner : Option Bytes → Bytes → Owners → Owners
  note_owner none id m = m
  note_owner (some t) id m = add_owner t id m

  -- the loop of fieldValues
  unfoldable pub load_owners : List Row → Owners → Outcome Owners
  load_owners [] m = ok m
  load_owners ((k, none) ∷ rows) m = load_owners rows m
  load_owners ((k, some v) ∷ rows) m =
      if bytes_eq k metadata_bucket
      then load_owners rows m
      else record_token (decode v) >>= λ t. load_owners rows (note_owner t k m)

  -- saveAllUniqueState.uniqueExists on the loaded map
  unfoldable pub exists_in_map : Owners → Value Float → Bytes → Outcome Bool
  unfolding other_owner
  exists_in_map m v id = to_bytes H v >>= λ t. ok (other_owner id (m t))

  -- recordSave, on one unique field whose map is loaded
  unfoldable pub record_save : Owners → Bytes → Option (Value Float) → Outcome Owners
  unfolding value_token
  record_save m id value = value_token value >>= λ t. ok (note_owner t id (remove_owner id m))

-- ===== src/Store/Unique/Agreement.antt =====
-- The map of a SaveAll answers as a scan of the bucket does, and goes on doing so after each save.
use storm_rev.Base.{
  ◌≡◌, refl, sym, ap, ◌∙◌, ◌⊎◌, ◌↔◌, inl, inr, Bool, true, false, Bool-cases, not, ◌&&◌, ◌||◌,
  Option, none, some, List, [], ◌∷◌, ◌++◌, select, Outcome, ok, err, panic, bind_ok, ◌>>=◌, arith,
  if◌then◌else◌,
}
use storm_rev.Base.Bytes.{Bytes, bytes_eq}
use storm_rev.Base.Sorted.{In}
use storm_rev.Value.{Value, Host}
use storm_rev.Bucket.{Row}
use storm_rev.Query.Order.{to_bytes}
use storm_rev.Sql.Raw.{metadata_bucket}
use storm_rev.Store.Unique.{
  Owners, remove_owner, other_owner, value_token, record_token, scan_owners, exists_by_scan,
  note_owner, load_owners, exists_in_map, record_save,
}

-- Whether some id of a list passes a test.
abbrev pub any_id : (Bytes → Bool) → List Bytes → Bool
any_id p [] = false
any_id p (k ∷ ks) = p k || any_id p ks

any_id-append :
    (p : Bytes → Bool) (ks : List Bytes) (k : Bytes) → any_id p (ks ++ k ∷ []) ≡ any_id p ks || p k
any_id-append p [] k = ground arith
any_id-append p (j ∷ ks) k = ground (arith, any_id-append p ks k)

any_id-select :
    (p q : Bytes → Bool) (ks : List Bytes) → any_id p (select q ks) ≡ any_id (λ k. q k && p k) ks
any_id-select p q [] = refl
any_id-select p q (k ∷ ks) = ground (arith, any_id-select p q ks)

other_owner-any_id :
    (id : Bytes) (ks : List Bytes) → other_owner id ks ≡ any_id (λ k. not (bytes_eq k id)) ks
unfolding other_owner
other_owner-any_id id [] = refl
other_owner-any_id id (k ∷ ks) = ground (arith, other_owner-any_id id ks)

and_true : (a b : Bool) → (a && b) ≡ true → (a ≡ true) × (b ≡ true)
and_true a b h = ground arith

or_true : (a : Bool) → (a || true) ≡ true
or_true a = ground arith

or_cases : (a b : Bool) → (a || b) ≡ true → (a ≡ true) ⊎ (b ≡ true)
or_cases a b h = ground arith

Bool_ext : (a b : Bool) → (a ≡ true → b ≡ true) → (b ≡ true → a ≡ true) → a ≡ b
Bool_ext true b f g = sym (f refl)
Bool_ext false true f g = g refl
Bool_ext false false f g = refl

or_assoc : (a b c : Bool) → ((a || b) || c) ≡ a || (b || c)
or_assoc a b c = ground arith

module _ (H : Host) (field : Bytes) where
  open H use {Float, decode}

  -- Whether a record has the bytes `t` in the field.
  abbrev pub has_token : Outcome (Option Bytes) → Bytes → Bool
  has_token (ok (some a)) t = bytes_eq a t
  has_token (ok none) t = false
  has_token (err e) t = false
  has_token panic t = false

  -- Whether a record of the bucket, under an id that passes a test, has the bytes `t` in the field.
  abbrev pub any_row : Bytes → (Bytes → Bool) → List Row → Bool
  any_row t p [] = false
  any_row t p ((k, none) ∷ rows) = any_row t p rows
  any_row t p ((k, some v) ∷ rows) =
      if bytes_eq k metadata_bucket
      then any_row t p rows
      else (has_token (record_token H field (decode v)) t && p k) || any_row t p rows

  -- The map gives each value the ids of the records that have it.
  abbrev pub Agrees : Owners → List Row → Type 0
  Agrees m rows = (t : Bytes) (p : Bytes → Bool) → any_id p (m t) ≡ any_row t p rows

  noted :
      (o : Option Bytes) (k : Bytes) (m : Owners) (t : Bytes) (p : Bytes → Bool)
      → any_id p (note_owner H field o k m t) ≡ any_id p (m t) || (has_token (ok o) t && p k)
  noted none k m t p = ground arith
  noted (some a) k m t p = elim (Bool-cases (bytes_eq a t)) [
    | inl y ↦ rw y (any_id-append p (m t) k)
    | inr n ↦ rw n (ground arith)
  ]

  loaded :
      (rows : List Row) (m values : Owners) (t : Bytes) (p : Bytes → Bool)
      → load_owners H field rows m ≡ ok values
      → any_id p (values t) ≡ any_id p (m t) || any_row t p rows
  unfolding load_owners
  loaded [] m values t p h =
      let e : m ≡ values = ground arith in
      ap (λ (f : Owners). any_id p (f t)) (sym e) ∙ ground arith
  loaded ((k, none) ∷ rows) m values t p h = loaded rows m values t p h
  loaded ((k, some v) ∷ rows) m values t p h = elim (Bool-cases (bytes_eq k metadata_bucket)) [
    | inl y ↦ rw y (loaded rows m values t p (rw y at h))
    | inr n ↦
        let (a, e, g) = bind_ok (record_token H field (decode v)) _ values (rw n at h) in
        rw (n, e)
          (loaded rows (note_owner H field a k m) values t p g
            ∙ ap (λ b. b || any_row t p rows) (noted a k m t p)
            ∙ or_assoc (any_id p (m t)) (has_token (ok a) t && p k) (any_row t p rows))
  ]

  scanned :
      (rows : List Row) (m values : Owners) (t id : Bytes)
      → load_owners H field rows m ≡ ok values
      → scan_owners H field t id rows ≡ ok (any_row t (λ k. not (bytes_eq k id)) rows)
  unfolding load_owners scan_owners
  scanned [] m values t id h = refl
  scanned ((k, none) ∷ rows) m values t id h = scanned rows m values t id h
  scanned ((k, some v) ∷ rows) m values t id h = elim (Bool-cases (bytes_eq k metadata_bucket)) [
    | inl y ↦ rw y (scanned rows m values t id (rw y at h))
    | inr n ↦
        let (a, e, g) = bind_ok (record_token H field (decode v)) _ values (rw n at h) in
        let rest = scanned rows (note_owner H field a k m) values t id g in
        rw (n, e) (ground (arith, rest))
  ]

  -- Where the map of a field is loaded, uniqueExists of a SaveAll answers as the scan of the bucket
  -- does, for every value and id, with the same error where the value has no bytes.
  pub exists_in_map-scan :
      (rows : List Row) (values : Owners) (v : Value Float) (id : Bytes)
      → load_owners H field rows (λ t. []) ≡ ok values
      → exists_in_map H field values v id ≡ exists_by_scan H field v id rows
  unfolding exists_in_map exists_by_scan
  exists_in_map-scan rows values v id h = by_bytes (to_bytes H v)
    where
      by_bytes :
          (r : Outcome Bytes)
          → (r >>= λ t. ok (other_owner id (values t))) ≡ (r >>= λ t. scan_owners H field t id rows)
      by_bytes (ok t) =
          rw
            (
              scanned rows (λ s. []) values t id h,
              other_owner-any_id id (values t),
              loaded rows (λ s. []) values t (λ k. not (bytes_eq k id)) h,
            )
            refl
      by_bytes (err e) = refl
      by_bytes panic = refl

  -- A record of a bucket with this value of the field, under this id.
  Has : Bytes → (Bytes → Bool) → Row → Type 0
  Has t p (k, none) = ⊥
  Has t p (k, some v) =
      (bytes_eq k metadata_bucket ≡ false)
      × (has_token (record_token H field (decode v)) t ≡ true)
      × (p k ≡ true)

  any_row_of :
      (t : Bytes) (p : Bytes → Bool) (rows : List Row) (row : Row)
      → In row rows
      → Has t p row
      → any_row t p rows ≡ true
  unfolding Has
  any_row_of t p [] row i h = absurd i
  any_row_of t p ((k, none) ∷ rows) row (inl e) h = absurd (rw e at h)
  any_row_of t p ((k, none) ∷ rows) row (inr i) h = any_row_of t p rows row i h
  any_row_of t p ((k, some v) ∷ rows) row (inl e) h = let (a, b, c) = (rw e at h) in ground arith
  any_row_of t p ((k, some v) ∷ rows) row (inr i) h =
      let rest = any_row_of t p rows row i h in ground arith

  row_of_any :
      (t : Bytes) (p : Bytes → Bool) (rows : List Row)
      → any_row t p rows ≡ true
      → (row : Row) × In row rows × Has t p row
  unfolding Has
  row_of_any t p [] h = cc
  row_of_any t p ((k, none) ∷ rows) h = let (row, i, x) = row_of_any t p rows h in (row, inr i, x)
  row_of_any t p ((k, some v) ∷ rows) h = elim (Bool-cases (bytes_eq k metadata_bucket)) [
    | inl y ↦ let (row, i, x) = row_of_any t p rows (rw y at h) in (row, inr i, x)
    | inr n ↦ elim (Bool-cases (has_token (record_token H field (decode v)) t && p k)) [
      | inl y ↦ let (a, b) = and_true _ _ y in ((k, some v), inl refl, (n, a, b))
      | inr o ↦ let (row, i, x) = row_of_any t p rows (rw (n, o) at h) in (row, inr i, x)
    ]
  ]

  -- What bbolt documents of Bucket.Put: the key has the new value, and the other rows are kept.
  abbrev pub Stored : Bytes → Bytes → List Row → List Row → Type 0
  Stored id v rows rows' =
      (row : Row)
      → In row rows' ↔ (row ≡ (id, some v)) ⊎ (In row rows × (bytes_eq row.0 id ≡ false))

  module _ (id v : Bytes) (rows rows' : List Row) (stored : Stored id v rows rows')
      (named : bytes_eq id metadata_bucket ≡ false) (t : Bytes) (p : Bytes → Bool) where
    abbrev others : Bytes → Bool
    others k = not (bytes_eq k id) && p k

    abbrev itself : Bool
    itself = has_token (record_token H field (decode v)) t && p id

    Has-others : (row : Row) → bytes_eq row.0 id ≡ false → Has t p row → Has t others row
    unfolding Has
    Has-others (k, none) n h = h
    Has-others (k, some w) n (a, b, c) = (a, b, ground arith)

    others-Has : (row : Row) → Has t others row → Has t p row × (bytes_eq row.0 id ≡ false)
    unfolding Has
    others-Has (k, none) h = absurd h
    others-Has (k, some w) (a, b, c) = ((a, b, ground arith), ground arith)

    after_put : any_row t p rows' ≡ true → (any_row t others rows || itself) ≡ true
    unfolding Has
    after_put h =
        let (row, i, x) = row_of_any t p rows' h in
        elim ((stored row).0 i) [
          | inl e ↦ let (a, b, c) = (rw e at x) in rw (b, c) (or_true _)
          | inr (j, n) ↦ rw (any_row_of t others rows row j (Has-others row n x)) refl
        ]

    before_put : (any_row t others rows || itself) ≡ true → any_row t p rows' ≡ true
    unfolding Has
    before_put h = elim (or_cases _ _ h) [
      | inl old ↦
          let (row, i, x) = row_of_any t others rows old in
          let (y, n) = others-Has row x in any_row_of t p rows' row ((stored row).1 (inr (i, n))) y
      | inr new ↦
          let (a, b) = and_true _ _ new in
          any_row_of t p rows' (id, some v) ((stored (id, some v)).1 (inl refl)) (named, a, b)
    ]

    put_row : any_row t p rows' ≡ (any_row t others rows || itself)
    put_row = Bool_ext _ _ after_put before_put

  -- A map that agrees with the bucket agrees, after recordSave, with the bucket after Put, whether
  -- the record is new or replaces another, and whether its field is zero or not: where the record,
  -- decoded, has the value that was saved, and its id is not the name of the metadata bucket.
  pub record_save-Agrees :
      (id v : Bytes) (value : Option (Value Float)) (rows rows' : List Row) (m values : Owners)
      → Agrees m rows
      → Stored id v rows rows'
      → bytes_eq id metadata_bucket ≡ false
      → record_token H field (decode v) ≡ value_token H field value
      → record_save H field m id value ≡ ok values
      → Agrees values rows'
  unfolding record_save
  record_save-Agrees id v value rows rows' m values agrees stored named same saved t p =
      let (o, e, f) = bind_ok (value_token H field value) _ values saved in
      let g : note_owner H field o id (remove_owner id m) ≡ values = ground arith in
      ap (λ (w : Owners). any_id p (w t)) (sym g)
      ∙ noted o id (remove_owner id m) t p
      ∙ rw
          (
            any_id-select p (λ k. not (bytes_eq k id)) (m t),
            agrees t (λ k. not (bytes_eq k id) && p k),
            put_row id v rows rows' stored named t p,
            same,
            e,
          )
          refl

  -- A map that was just loaded agrees with the bucket.
  pub load_owners-Agrees :
      (rows : List Row) (values : Owners)
      → load_owners H field rows (λ t. []) ≡ ok values
      → Agrees values rows
  load_owners-Agrees rows values h t p = loaded rows (λ s. []) values t p h

-- ===== src/Sql/Raw.antt =====
-- sql.go: SELECT and COUNT on a table that is known by its metadata only. Records stay raw JSON.
pub mod Paging
use storm_rev.Base.{
  ℕ, zero, suc, ◌≡◌, ℤ, pos, negsuc, ltb_ℤ, leb_ℤ, Bool, true, false, not, ◌&&◌, Option, none, some,
  List, [], ◌∷◌, length, take, drop, Outcome, ok, ◌>>=◌, leb, ltb, if◌then◌else◌,
}
use storm_rev.Base.Bytes.{Bytes, ascii, bytes_eq}
use storm_rev.Value.{Host}
use storm_rev.Bucket.{Row, Bucket, walk}
use storm_rev.Q.Field.{raw}
use storm_rev.Q.Tree.{Matcher, match_value}
use storm_rev.Query.Sorter.{at_least_zero, is_zero}

-- metadataBucket
abbrev pub metadata_bucket : Bytes
metadata_bucket = ascii "__storm_metadata"

-- `raw == nil || bytes.Equal(key, []byte(metadataBucket))`, and else the raw record
unfoldable pub record_of : Row → Option Bytes
record_of (k, none) = none
record_of (k, some v) = if bytes_eq k metadata_bucket then none else some v

-- the rows that hold records, in their order
unfoldable pub records_of : List Row → List Bytes
unfolding record_of
records_of [] = []
records_of (row ∷ rows) =
    let rest = records_of rows in elim (record_of row) [ none ↦ rest | some v ↦ v ∷ rest ]

-- sliceRawRecords
unfoldable pub slice_records : ℤ → ℤ → List Bytes → List Bytes
slice_records skip limit rs =
    let k = at_least_zero skip in
    if leb (length rs) k then [] else elim limit [
      | negsuc n ↦ drop k rs
      | pos n ↦ if ltb n (length (drop k rs)) then take n (drop k rs) else drop k rs
    ]

-- the loop of selectRawRecordsByIDCursor: how many rows were skipped, and how many were kept
unfoldable pub cursor_loop : ℤ → ℤ → List Row → ℕ → ℕ → List Bytes
unfolding record_of
cursor_loop skip limit [] skipped kept = []
cursor_loop skip limit (row ∷ rows) skipped kept =
    let over = cursor_loop skip limit rows skipped kept in
    let skip_one = cursor_loop skip limit rows (suc skipped) kept in
    let keep_one = cursor_loop skip limit rows skipped (suc kept) in
    elim (record_of row) [
      | none ↦ over
      | some v ↦
          if ltb_ℤ (pos skipped) skip
          then skip_one
          else if leb_ℤ limit (pos (suc kept))
          then v ∷ []
          else v ∷ keep_one
    ]

-- selectRawRecordsByIDCursor on the bucket of the table, for a query that may use it
unfoldable pub select_by_cursor : Bool → ℤ → ℤ → Option Bucket → List Bytes
unfolding cursor_loop
select_by_cursor reversed skip limit none = []
select_by_cursor reversed skip limit (some b) =
    if is_zero limit then [] else cursor_loop skip limit (walk reversed b) 0 0

module _ (H : Host) where
  open H use {Float}

  -- the scan of selectRawRecords
  unfoldable pub match_records : Matcher Float → List Row → Outcome (List Bytes)
  unfolding record_of
  match_records m [] = ok []
  match_records m (row ∷ rows) =
      let rest = match_records m rows in
      elim (record_of row) [
        | none ↦ rest
        | some v ↦ match_value H m (raw v) >>= λ matched.
            rest >>= λ rs. ok (if matched then v ∷ rs else rs)
      ]

  -- selectRawRecords with no ORDER BY
  unfoldable pub select_raw : Matcher Float → ℤ → ℤ → Option Bucket → Outcome (List Bytes)
  unfolding match_records slice_records
  select_raw m skip limit none = ok (slice_records skip limit [])
  select_raw m skip limit (some b) =
      match_records m (walk false b) >>= λ rs. ok (slice_records skip limit rs)

  -- the loop of countRawRecords: how many records matched, and how many were counted
  unfoldable pub count_loop : Matcher Float → ℤ → ℤ → List Row → ℕ → ℕ → Outcome ℕ
  unfolding record_of
  count_loop m skip limit [] matched count = ok count
  count_loop m skip limit (row ∷ rows) matched count =
      let over = count_loop m skip limit rows matched count in
      let skip_one = count_loop m skip limit rows (suc matched) count in
      let count_one = count_loop m skip limit rows (suc matched) (suc count) in
      elim (record_of row) [
        | none ↦ over
        | some v ↦ match_value H m (raw v) >>= λ yes.
            if not yes
            then over
            else if leb_ℤ (pos (suc matched)) skip
            then skip_one
            else if leb_ℤ (pos 0) limit && leb_ℤ limit (pos count)
            then ok count
            else count_one
      ]

  -- countRawRecords
  unfoldable pub count_raw : Matcher Float → ℤ → ℤ → Option Bucket → Outcome ℕ
  unfolding count_loop
  count_raw m skip limit none = ok 0
  count_raw m skip limit (some b) =
      if is_zero limit then ok 0 else count_loop m skip limit (walk false b) 0 0

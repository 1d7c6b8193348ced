-- ===== src/Tests/Records.antt =====
-- The properties of raw records and unique values at the table of the toy host.
use storm_rev.Base.{◌≡◌, ◌⊎◌, refl, ap, inl, inr, ℤ, pos, true, false, some, List, [], ◌∷◌, ok}
use storm_rev.Base.Bytes.{ascii, bytes_eq, compare_bytes}
use storm_rev.Base.Sorted.{In}
use storm_rev.Value.{time, float, int, geq}
use storm_rev.Config.{missing_from_index}
use storm_rev.Bucket.{Row, walk}
use storm_rev.Q.Compare.{compare_values, by_token}
use storm_rev.Q.Field.{cmp, match_delegate}
use storm_rev.Q.Tree.{Matcher, field, match_value}
use storm_rev.Query.Order.{to_bytes}
use storm_rev.Query.Order.{less}
use storm_rev.Query.Order.Laws.{less-same_time}
use storm_rev.Query.Sorter.Paging.{page}
use storm_rev.Sql.Raw.{
  records_of, record_of, slice_records, select_by_cursor, select_raw, match_records, count_raw,
}
use storm_rev.Sql.Raw.Paging.{slice_records-page, count_raw-length, select_by_cursor-slice}
use storm_rev.Store.Unique.{
  Owners, note_owner, value_token, record_token, load_owners, exists_in_map, exists_by_scan,
  record_save, remove_owner,
}
use storm_rev.Store.Unique.Agreement.{
  Agrees, Stored, exists_in_map-scan, record_save-Agrees, load_owners-Agrees,
}
use storm_rev.Tests.Toy.{toy, toy_rows, toy_bucket, doc_one, doc_two}

slice_records-page_example :
    slice_records (pos 1) (pos 5) (doc_one ∷ doc_two ∷ [])
    ≡ page (pos 1) (pos 5) (doc_one ∷ doc_two ∷ [])
slice_records-page_example = slice_records-page (pos 1) (pos 5) (doc_one ∷ doc_two ∷ [])

abbrev five_up : Matcher ℤ
five_up = field (ascii "a") (cmp geq (int (pos 5)))

five_up_raw : select_raw toy five_up (pos 1) (pos 3) (some toy_bucket) ≡ ok (doc_two ∷ [])
unfolding select_raw match_records record_of slice_records match_value match_delegate compare_values
    compare_bytes by_token walk
five_up_raw = refl

count_raw-length_example : count_raw toy five_up (pos 1) (pos 3) (some toy_bucket) ≡ ok 1
count_raw-length_example =
    count_raw-length toy five_up (pos 1) (pos 3) (some toy_bucket) (doc_two ∷ []) five_up_raw

select_by_cursor-slice_example :
    select_by_cursor true (pos 0) (pos 1) (some toy_bucket)
    ≡ slice_records (pos 0) (pos 1) (records_of (walk true toy_bucket))
select_by_cursor-slice_example = select_by_cursor-slice true (pos 0) 1 toy_bucket

abbrev seven_owners : Owners
seven_owners =
    note_owner toy (ascii "b") (some (7 ∷ [])) (2 ∷ [])
      (note_owner toy (ascii "b") (some (7 ∷ [])) (1 ∷ []) (λ t. []))

toy_loaded : load_owners toy (ascii "b") toy_rows (λ t. []) ≡ ok seven_owners
unfolding load_owners record_token value_token missing_from_index to_bytes compare_bytes
toy_loaded = refl

exists_in_map-scan_example :
    exists_in_map toy (ascii "b") seven_owners (float (pos 7)) (1 ∷ [])
    ≡ exists_by_scan toy (ascii "b") (float (pos 7)) (1 ∷ []) toy_rows
exists_in_map-scan_example =
    exists_in_map-scan toy (ascii "b") toy_rows seven_owners (float (pos 7)) (1 ∷ []) toy_loaded

abbrev more_rows : List Row
more_rows = (3 ∷ [], some doc_one) ∷ toy_rows

not_three : (row : Row) → In row toy_rows → bytes_eq row.0 (3 ∷ []) ≡ false
unfolding compare_bytes
not_three row (inl e) = rw (ap (λ (r : Row). r.0) e) refl
not_three row (inr (inl e)) = rw (ap (λ (r : Row). r.0) e) refl
not_three row (inr (inr (inl e))) = rw (ap (λ (r : Row). r.0) e) refl
not_three row (inr (inr (inr e))) = absurd e

three-Stored : Stored toy (ascii "b") (3 ∷ []) doc_one toy_rows more_rows
three-Stored row = (there, back)
  where
    there :
        In row more_rows
        → (row ≡ (3 ∷ [], some doc_one)) ⊎ (In row toy_rows × (bytes_eq row.0 (3 ∷ []) ≡ false))
    there (inl e) = inl e
    there (inr i) = inr (i, not_three row i)

    back :
        (row ≡ (3 ∷ [], some doc_one)) ⊎ (In row toy_rows × (bytes_eq row.0 (3 ∷ []) ≡ false))
        → In row more_rows
    back (inl e) = inl e
    back (inr (i, n)) = inr i

three_is_named : bytes_eq (3 ∷ []) (ascii "__storm_metadata") ≡ false
unfolding compare_bytes
three_is_named = refl

three_decodes :
    record_token toy (ascii "b") (toy.decode doc_one)
    ≡ value_token toy (ascii "b") (some (float (pos 7)))
unfolding record_token value_token compare_bytes
three_decodes = refl

three_saved :
    record_save toy (ascii "b") seven_owners (3 ∷ []) (some (float (pos 7)))
    ≡ ok (note_owner toy (ascii "b") (some (7 ∷ [])) (3 ∷ []) (remove_owner (3 ∷ []) seven_owners))
unfolding record_save value_token missing_from_index to_bytes
three_saved = refl

record_save-Agrees_example :
    Agrees toy
      (ascii "b")
      (note_owner toy (ascii "b") (some (7 ∷ [])) (3 ∷ []) (remove_owner (3 ∷ []) seven_owners))
      more_rows
record_save-Agrees_example =
    record_save-Agrees toy (ascii "b") (3 ∷ []) doc_one (some (float (pos 7))) toy_rows more_rows
      seven_owners
      (note_owner toy (ascii "b") (some (7 ∷ [])) (3 ∷ []) (remove_owner (3 ∷ []) seven_owners))
      (load_owners-Agrees toy (ascii "b") toy_rows seven_owners toy_loaded) three-Stored
      three_is_named three_decodes three_saved

less-same_time_example :
    (less toy (ascii "T" ∷ []) true (λ f. some (time (pos 4))) (λ f. some (time (pos 4))) ≡ ok true)
    × (less toy (ascii "T" ∷ []) true (λ f. some (time (pos 4))) (λ f. some (time (pos 4)))
        ≡ ok true)
    × (less toy (ascii "T" ∷ []) false (λ f. some (time (pos 4))) (λ f. some (time (pos 4)))
        ≡ ok false)
    × (less toy (ascii "T" ∷ []) false (λ f. some (time (pos 4))) (λ f. some (time (pos 4)))
        ≡ ok false)
less-same_time_example =
    less-same_time toy (pos 4) (ascii "T") [] (λ f. some (time (pos 4))) (λ f. some (time (pos 4)))
      refl refl

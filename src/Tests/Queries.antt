-- ===== src/Tests/Queries.antt =====
-- The properties of queries at the table of the toy host.
use storm_rev.Base.{
  ◌≡◌, refl, ℤ, pos, negsuc, Bool, true, false, none, some, List, [], ◌∷◌, ok, ◌++◌, ◌↔◌,
}
use storm_rev.Base.Bytes.{Bytes, ascii, bytes_eq, compare_bytes}
use storm_rev.Value.{Fields, int, float, eql}
use storm_rev.Config.{json_of, can_use_index, missing_from_index}
use storm_rev.Bucket.{items_of, walk}
use storm_rev.Q.Field.{cmp, raw, match_delegate}
use storm_rev.Q.Tree.{Matcher, field, match_value, rename}
use storm_rev.Q.Compare.{compare_values}
use storm_rev.Q.Explain.{explain_nested, explain_field_matcher, expr_op_for_token}
use storm_rev.Query.Sink.{Item, Sink, raw_each, sink_add, list_sink}
use storm_rev.Query.Sorter.Paging.{feed-page}
use storm_rev.Plan.Candidates.Members.{Distinct}
use storm_rev.Base.Sorted.{In}
use storm_rev.Plan.Candidates.Dedupe.{dedupe-Distinct}
use storm_rev.Query.Sorter.{Sorting, Sorter, new_sorter, feed, accepts}
use storm_rev.Query.Sorter.Feed.{Answers, feed-select}
use storm_rev.Plan.Leaves.{exact, leaf_plan}
use storm_rev.Plan.Select.{plan_for}
use storm_rev.Plan.Candidates.{candidate_ids, exact_ids, dedupe}
use storm_rev.Plan.Sound.Tree.{candidates_complete}
use storm_rev.Plan.Sound.Once.{candidates-Distinct}
use storm_rev.Run.{Node, Model}
use storm_rev.Run.Answers.{json_tree}
use storm_rev.Plan.Coverage.{Fitting}
use storm_rev.Plan.Coverage.Composites.{Covers-NamesOnce}
use storm_rev.Plan.Documents.{own_index, search_exact, search, exact_token, deref, decode_ids}
use storm_rev.Query.Order.{to_bytes}
use storm_rev.Tests.Toy.{
  toy, toy_rows, toy_bucket, toy_ids, toy_config, toy_index, toy-Covers, doc_one, doc_two,
}

abbrev as_given : Sorting
as_given = record { sort = λ A less xs. ok xs }

abbrev five : Matcher ℤ
five = field (ascii "A") (cmp eql (int (pos 5)))

abbrev is_first : Item → Bool
is_first itm = bytes_eq itm.0 (1 ∷ [])

abbrev toy_node : Node ℤ
toy_node = record {
  table = λ name. some toy_bucket;
  in_tx = false;
  index = some toy_index;
  dirty = λ name. false;
}

five_plan :
    plan_for toy toy_config (explain_nested five) ≡ some (exact (ascii "A") (int (pos 5)) 3000)
unfolding plan_for explain_nested compare_bytes explain_field_matcher leaf_plan expr_op_for_token
    can_use_index missing_from_index
five_plan = refl

abbrev five_found : List Bytes
five_found = (1 ∷ []) ∷ []

five_ids :
    candidate_ids toy toy_config toy_index toy_bucket (exact (ascii "A") (int (pos 5)) 3000)
    ≡ ok (some five_found)
unfolding candidate_ids exact_ids compare_bytes own_index search_exact search exact_token deref
    to_bytes decode_ids
five_ids = refl

five-Answers :
    Answers toy (json_tree toy toy_config five) is_first (items_of (walk false toy_bucket))
unfolding accepts walk match_value json_of compare_bytes rename match_delegate compare_values
five-Answers = (refl, (refl, tt))

fits_one : Fitting toy toy_config doc_one five
unfolding to_bytes deref missing_from_index compare_bytes
fits_one = λ hit indexed present. (float (pos 5), refl, refl, refl, refl)

abbrev toy_model : Model
toy_model = record { name = ascii "T"; extracted = ok toy_config }

-- The second record that has any number under `b`, of a tree that accepts both.
abbrev seven : Matcher ℤ
seven = field (ascii "B") (cmp eql (int (pos 7)))

abbrev empty_target : Fields ℤ
empty_target = λ f. none

abbrev both_started : Sorter ℤ
both_started = new_sorter (list_sink [] 0) (pos 0) (negsuc 0) [] false

five_accepts : match_value toy (rename (json_of toy_config) five) (raw doc_one) ≡ ok true
unfolding match_value json_of compare_bytes rename match_delegate compare_values
five_accepts = refl

held_one : toy_bucket.get (1 ∷ []) ≡ some doc_one
unfolding compare_bytes
held_one = refl

candidates_complete_example : In {A = Bytes} (1 ∷ []) five_found
candidates_complete_example =
    candidates_complete toy toy_config toy_index toy_bucket toy-Covers (1 ∷ []) doc_one held_one
      five (exact (ascii "A") (int (pos 5)) 3000) five_found five_plan five_ids fits_one
      five_accepts

candidates-Distinct_example : Distinct five_found
candidates-Distinct_example =
    candidates-Distinct toy toy_config toy_index toy_bucket
      (Covers-NamesOnce toy toy_config toy_index toy_bucket toy-Covers)
      (exact (ascii "A") (int (pos 5)) 3000) five_found five_ids

dedupe-Distinct_example :
    Distinct (dedupe (toy_ids ++ toy_ids))
    × ((x : Bytes) → In x (dedupe (toy_ids ++ toy_ids)) ↔ In x (toy_ids ++ toy_ids))
dedupe-Distinct_example = dedupe-Distinct (toy_ids ++ toy_ids)

feed-select_example :
    feed toy (json_tree toy toy_config five) (items_of (walk false toy_bucket)) both_started
    ≡ feed toy none (((1 ∷ []), doc_one) ∷ []) both_started
unfolding walk compare_bytes
feed-select_example =
    feed-select toy (json_tree toy toy_config five) is_first (items_of (walk false toy_bucket))
      both_started five-Answers

abbrev noted : List Item → Sink ℤ
noted xs = raw_each (λ k v. none) xs

noted_grows :
    (itm : Item) (xs : List Item) → sink_add toy itm (noted xs) ≡ ok (noted (xs ++ itm ∷ []))
unfolding sink_add
noted_grows itm xs = refl

feed-page_example :
    (s : ℤ) × (l : ℤ) × (feed toy none
        (items_of toy_rows)
        (new_sorter (noted []) (pos 1) (pos 3) [] false)
      ≡ ok (new_sorter (noted (((2 ∷ []), doc_two) ∷ [])) s l [] false))
feed-page_example = feed-page toy noted noted_grows false (items_of toy_rows) [] (pos 1) (pos 3)

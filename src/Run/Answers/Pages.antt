-- ===== src/Run/Answers/Pages.antt =====
-- Queries with no OrderBy: Find, First and Count.
use storm_rev.Base.{
  ◌≡◌, ℤ, Bool, true, false, some, List, [], ◌∷◌, ◌++◌, map, length, select, Outcome, ok, err,
  not_found, if◌then◌else◌,
}
use storm_rev.Base.Bytes.{Bytes, bytes_eq}
use storm_rev.Value.{Fields, Host}
use storm_rev.Config.{StructConfig}
use storm_rev.Bucket.{Bucket, IsBucket, items_of, walk}
use storm_rev.Q.Tree.{Matcher}
use storm_rev.Query.Sink.{Sink, list_sink, Item, Answer, records, record_found, sink_add}
use storm_rev.Query.Sorter.{Sorter, Sorting, new_sorter}
use storm_rev.Query.Sorter.Feed.{Answers}
use storm_rev.Run.{Query, Node, Model, is_reflective}
use storm_rev.Run.Answers.{IsIndexed, json_tree}

module _ (H : Host) (S : Sorting) (n : Node H.Float) (cfg : StructConfig) (name : Bytes)
    (b : Bucket) (reversed : Bool) (m : Matcher H.Float) (answer : Item → Bool) (skip : ℤ)
    (bucket : Bytes) where
  open H use {Float, decode, decode_onto}

  abbrev pub model : Model
  model = record { name = name; extracted = ok cfg }

  -- The query with a limit.
  abbrev pub query : ℤ → Query Float
  query limit = record {
    tree = some m;
    skip = skip;
    limit = limit;
    reverse = reversed;
    bucket = bucket;
    order_by = [];
  }

  -- The records that match, in the order of the walk.
  abbrev pub matching : List Item
  matching = select answer (items_of (walk reversed b))

  module _ (shape : IsBucket b) (indexed : IsIndexed H n cfg b m)
      (answers : Answers H (json_tree H cfg m) answer (items_of (walk reversed b))) where
    module _ (build : List Item → Sink Float)
        (grows : (itm : Item) (xs : List Item)
          → sink_add H itm (build xs) ≡ ok (build (xs ++ itm ∷ [])))
        (typed : is_reflective (build []) ≡ true) where
      abbrev start : ℤ → Sorter Float
      start limit = new_sorter (build []) skip limit [] reversed

    -- What Find makes of the records that it is handed.
    abbrev pub found : List Item → Outcome (Answer Float)
    found [] = err not_found
    found (x ∷ xs) = ok (records (map (λ i. (decode i.1).0) (x ∷ xs)))

    abbrev as_list : List Item → Sink Float
    as_list xs = list_sink (map (λ i. i.1) xs) (length xs)

    abbrev table : Bytes
    table = if bytes_eq bucket [] then name else bucket

    -- What First makes of the records that match, after the skipped ones: the first is decoded onto
    -- the caller's struct.
    abbrev pub first_found : Fields Float → List Item → Outcome (Answer Float)
    first_found target [] = err not_found
    first_found target (x ∷ xs) = ok (record_found (decode_onto target x.1))

    -- A struct that records are decoded onto, one after the other.
    abbrev all_onto : Fields Float → List Item → Fields Float
    all_onto target [] = target
    all_onto target (x ∷ xs) = all_onto (decode_onto target x.1) xs

    abbrev some_item : List Item → Bool
    some_item [] = false
    some_item (x ∷ xs) = true

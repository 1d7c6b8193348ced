-- ===== src/Run.antt =====
-- query.go: running a query on its node, with selectIndexPlan of select_index.go.
pub mod Answers
use storm_rev.Base.{
  ◌≡◌, ℤ, pos, negsuc, Bool, true, false, not, ◌&&◌, Option, none, some, List, [], ◌∷◌, Outcome, ok,
  err, panic, host, ◌>>=◌, if◌then◌else◌,
}
use storm_rev.Base.Bytes.{Bytes, bytes_eq}
use storm_rev.Value.{Host}
use storm_rev.Config.{StructConfig, json_of}
use storm_rev.Bucket.{Bucket, items_of, walk}
use storm_rev.Q.Tree.{Matcher, Matchers, and_all, rename}
use storm_rev.Q.Explain.{explain}
use storm_rev.Value.{Fields}
use storm_rev.Query.Sink.{
  Sink, list_sink, first_sink, count_sink, raw_sink, raw_each, each_sink, Answer, sink_flush,
}
use storm_rev.Query.Sorter.{Sorter, Sorting, new_sorter, is_zero, feed, flush}
use storm_rev.Plan.Leaves.{IndexPlan}
use storm_rev.Plan.Select.{plan_for}
use storm_rev.Plan.Candidates.{Index, candidate_ids, run_plan}

-- query
pub record Query (F : Type 0) : Type 0 where
  pub tree : Option (Matcher F)
  pub skip : ℤ
  pub limit : ℤ
  pub reverse : Bool
  pub bucket : Bytes
  pub order_by : List Bytes

-- What a query uses of its node: the buckets that GetBucket finds in the transaction, whether the
-- node is in a transaction of the user's, and the external index with its dirty tables.
pub record Node (F : Type 0) : Type 0 where
  pub table : Bytes → Option Bucket
  pub in_tx : Bool
  pub index : Option (Index F)
  pub dirty : Bytes → Bool

-- The model behind a sink: the type's name, and what extract makes of the type.
pub record Model : Type 0 where
  pub name : Bytes
  pub extracted : Outcome StructConfig

module _ {F : Type 0} where
  -- Select with newQuery
  pub new_query : Matchers F → Query F
  new_query ms = record {
    tree = some (and_all ms);
    skip = pos 0;
    limit = negsuc 0;
    reverse = false;
    bucket = [];
    order_by = [];
  }

  -- the test `sink.(reflectSink)`
  abbrev pub is_reflective : Sink F → Bool
  is_reflective (raw_sink results) = false
  is_reflective (raw_each fn seen) = false
  is_reflective _ = true

  -- sink.bucketName()
  abbrev pub bucket_name : Sink F → Model → Bytes
  bucket_name (raw_sink results) model = []
  bucket_name (raw_each fn seen) model = []
  bucket_name _ model = model.name

  -- the bucket's name in query
  abbrev pub table_name : Query F → Sink F → Model → Bytes
  table_name q snk model = if bytes_eq q.bucket [] then bucket_name snk model else q.bucket

module _ (H : Host) where
  open H use {Float}

  unfoldable pub explained_plan : StructConfig → Matcher Float → Option (IndexPlan Float)
  explained_plan cfg m = elim (explain m) [ none ↦ none | some e ↦ plan_for H cfg e ]

  -- query.selectIndexPlan, with the index that it consults
  unfoldable pub select_plan :
      Node Float → StructConfig → Matcher Float → Option (Index Float × IndexPlan Float)
  unfolding explained_plan
  select_plan n cfg m = if n.in_tx then none else elim n.index [
    | none ↦ none
    | some idx ↦
        if n.dirty cfg.name
        then none
        else elim (explained_plan cfg m) [ none ↦ none | some p ↦ some (idx, p) ]
  ]

  -- the plan, only for the table of the model, and the tree with JSON names
  abbrev pub Prepared : Type 0
  Prepared = Option (StructConfig × Index Float × IndexPlan Float) × Option (Matcher Float)

  abbrev pub with_config :
      StructConfig
      → Option (Index Float × IndexPlan Float)
      → Option (StructConfig × Index Float × IndexPlan Float)
  with_config cfg none = none
  with_config cfg (some (idx, p)) = some (cfg, idx, p)

  unfoldable pub prepare_tree :
      Node Float → Option Bucket → Bytes → Outcome StructConfig → Matcher Float → Outcome Prepared
  prepare_tree n b name (ok cfg) m = ok (
    elim b [
      | none ↦ none
      | some _ ↦ if bytes_eq name cfg.name then with_config cfg (select_plan n cfg m) else none
    ],
    some (rename (json_of cfg) m),
  )
  prepare_tree n b name (err e) m = err (host 2)
  prepare_tree n b name panic m = panic

  unfoldable pub prepare :
      Node Float → Option Bucket → Bytes → Model → Bool → Option (Matcher Float) → Outcome Prepared
  unfolding prepare_tree
  prepare n b name model reflective none = ok (none, none)
  prepare n b name model false (some m) = ok (none, some m)
  prepare n b name model true (some m) = prepare_tree n b name model.extracted m

  -- the full scan
  unfoldable pub scan :
      Bucket → Bool → Option (Matcher Float) → Sorter Float → Outcome (Sorter Float)
  scan b reversed tree s = feed H tree (items_of (walk reversed b)) s

  -- the part of query under `if bucket != nil`: the plan, and the scan where there is none or the
  -- plan was not used
  unfoldable pub gather : Option Bucket → Bool → Prepared → Sorter Float → Outcome (Sorter Float)
  unfolding scan
  gather none reversed prepared s = ok s
  gather (some b) reversed (none, tree) s = scan b reversed tree s
  gather (some b) reversed (some (cfg, idx, p), tree) s =
      run_plan H cfg idx b tree reversed (candidate_ids H cfg idx b p) s >>= λ used. elim used [
        | some s' ↦ ok s'
        | none ↦ scan b reversed tree s
      ]

  module _ (S : Sorting) where
    -- query, which runQuery calls in the node's transaction or in one of its own
    unfoldable pub run_query :
        Node Float → Model → Query Float → Sink Float → Outcome (Answer Float)
    unfolding prepare gather
    run_query n model q snk =
        let name = table_name q snk model in
        let b = n.table name in
        let s = new_sorter snk q.skip q.limit q.order_by q.reverse in
        if is_zero q.limit
        then sink_flush H snk
        else prepare n b name model (is_reflective snk) q.tree >>= λ prepared.
            gather b q.reverse prepared s >>= λ s'. flush H S s'

    -- Find, First, Count and Raw, on a sink of their own
    pub find : Node Float → Model → Query Float → Outcome (Answer Float)
    find n model q = run_query n model q (list_sink [] 0)

    pub first : Node Float → Model → Query Float → Fields Float → Outcome (Answer Float)
    first n model q target =
        run_query n model (record q { limit = pos 1 }) (first_sink target false)

    pub count : Node Float → Model → Query Float → Outcome (Answer Float)
    count n model q = run_query n model q (count_sink 0)

    pub raw_records : Node Float → Model → Query Float → Outcome (Answer Float)
    raw_records n model q = run_query n model q (raw_sink [])

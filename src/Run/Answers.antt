-- ===== src/Run/Answers.antt =====
-- The answer of a query does not depend on the index, and with no OrderBy it is a page of the
-- records that match.
pub mod Pages
use storm_rev.Base.{
  ◌≡◌, refl, sym, ap, ◌∙◌, inl, inr, Bool, true, false, Bool-cases, Option-cases, Option, none,
  some, List, [], ◌∷◌, Outcome, ok, err, panic, ◌>>=◌, arith, if◌then◌else◌,
}
use storm_rev.Base.Bytes.{Bytes, bytes_eq}
use storm_rev.Value.{Host}
use storm_rev.Config.{StructConfig, json_of}
use storm_rev.Bucket.{Bucket, IsBucket, items_of, walk}
use storm_rev.Q.Tree.{Matcher, always, or_all, and_all, not_all, field, field2, custom, rename}
use storm_rev.Q.Explain.{explain, explain_nested}
use storm_rev.Query.Sink.{Item}
use storm_rev.Query.Sorter.{Sorter, feed}
use storm_rev.Query.Sorter.Feed.{Answers}
use storm_rev.Plan.Leaves.{IndexPlan}
use storm_rev.Plan.Select.{plan_for}
use storm_rev.Plan.Candidates.{Index, candidate_ids, run_plan}
use storm_rev.Plan.Coverage.{Fitting, Covers}
use storm_rev.Plan.Equivalence.{run_plan-eq-scan}
use storm_rev.Run.{
  Node, Model, Prepared, explained_plan, select_plan, with_config, prepare_tree, scan, gather,
}

some_result {ℓ} :
    {A : Type ℓ} (x y : Outcome A)
    → (x >>= (λ s. ok (some s)) >>= λ used. elim used [ some s ↦ ok s | none ↦ y ]) ≡ x
some_result (ok a) y = refl
some_result (err e) y = refl
some_result panic y = refl

module _ (H : Host) where
  open H use {Float}

  explained_plan-nested :
      (cfg : StructConfig) (m : Matcher Float) (p : IndexPlan Float)
      → explained_plan H cfg m ≡ some p
      → plan_for H cfg (explain_nested m) ≡ some p
  unfolding explained_plan explain
  explained_plan-nested cfg always p h = h
  explained_plan-nested cfg (or_all ms) p h = h
  explained_plan-nested cfg (and_all ms) p h = h
  explained_plan-nested cfg (not_all ms) p h = h
  explained_plan-nested cfg (field f m) p h = h
  explained_plan-nested cfg (field2 f g tok) p h = cc
  explained_plan-nested cfg (custom f) p h = cc

  select_plan-some :
      (n : Node Float) (cfg : StructConfig) (m : Matcher Float) (idx : Index Float)
      (p : IndexPlan Float)
      → select_plan H n cfg m ≡ some (idx, p)
      → (n.index ≡ some idx) × (explained_plan H cfg m ≡ some p)
  unfolding select_plan
  select_plan-some n cfg m idx p h = ground arith

module _ (H : Host) (n : Node H.Float) (cfg : StructConfig) (b : Bucket) (m : Matcher H.Float) where
  open H use {Float}

  -- The index that the node consults holds the documents of the bucket's records (Covers); the values
  -- of the tree have the types of the fields, on each record (Fitting); and the searches of the plan for the tree do
  -- not fail: they end with ids, or leave the query to the scan.
  pub record IsIndexed : Type 0 where
    pub covers : (idx : Index Float) → n.index ≡ some idx → Covers H cfg idx b
    pub typed : (k doc : Bytes) → b.get k ≡ some doc → Fitting H cfg doc m
    pub searches :
        (idx : Index Float) (p : IndexPlan Float)
        → n.index ≡ some idx
        → explained_plan H cfg m ≡ some p
        → (o : Option (List Bytes)) × (candidate_ids H cfg idx b p ≡ ok o)

-- The tree as query hands it to filter.
abbrev pub json_tree : (H : Host) → StructConfig → Matcher H.Float → Option (Matcher H.Float)
json_tree H cfg m = some (rename (json_of cfg) m)

module _ (H : Host) (n : Node H.Float) (cfg : StructConfig) (b : Bucket) (reversed : Bool)
    (m : Matcher H.Float) (answer : Item → Bool) where
  open H use {Float}

  module _ (shape : IsBucket b) (indexed : IsIndexed H n cfg b m)
      (answers : Answers H (json_tree H cfg m) answer (items_of (walk reversed b))) where
    searched :
        (idx : Index Float) (p : IndexPlan Float) (o : Option (List Bytes)) (s : Sorter Float)
        → n.index ≡ some idx
        → plan_for H cfg (explain_nested m) ≡ some p
        → candidate_ids H cfg idx b p ≡ ok o
        → gather H (some b) reversed (some (cfg, idx, p), json_tree H cfg m) s
          ≡ scan H b reversed (json_tree H cfg m) s
    unfolding gather
    searched idx p none s i planned c = rw c (unfold run_plan in refl)
    searched idx p (some ids) s i planned c =
        rw
          (run_plan-eq-scan H cfg idx b (indexed.covers idx i) shape m indexed.typed answer reversed
            p ids s answers planned c)
          (some_result (feed H (json_tree H cfg m) (items_of (walk reversed b)) s)
            (scan H b reversed (json_tree H cfg m) s))

    by_plan :
        (o : Option (Index Float × IndexPlan Float)) (s : Sorter Float)
        → select_plan H n cfg m ≡ o
        → gather H (some b) reversed (with_config H cfg o, json_tree H cfg m) s
          ≡ scan H b reversed (json_tree H cfg m) s
    unfolding gather
    by_plan none s e = refl
    by_plan (some (idx, p)) s e =
        let (i, planned) = select_plan-some H n cfg m idx p e in
        let (o, c) = indexed.searches idx p i planned in
        searched idx p o s i (explained_plan-nested H cfg m p planned) c

    -- With a plan or without one, the sorter is handed what the scan hands it.
    pub gather-eq-scan :
        (name : Bytes) (prepared : Prepared H) (s : Sorter Float)
        → prepare_tree H n (some b) name (ok cfg) m ≡ ok prepared
        → gather H (some b) reversed prepared s ≡ scan H b reversed (json_tree H cfg m) s
    unfolding prepare_tree
    gather-eq-scan name prepared s e = elim (Bool-cases (bytes_eq name cfg.name)) [
      | inl y ↦
          let q : prepared ≡ (with_config H cfg (select_plan H n cfg m), json_tree H cfg m) =
            ground arith in
          rw q (by_plan (select_plan H n cfg m) s refl)
      | inr no_plan ↦
          let q : prepared ≡ (none, json_tree H cfg m) = ground arith in
          rw q (unfold gather in refl)
    ]

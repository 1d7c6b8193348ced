-- ===== src/Plan/Sound/Tree.antt =====
-- Plans of whole trees.
use storm_rev.Base.{
  ◌≡◌, ◌⊎◌, inl, inr, true, Option, none, some, List, [], ◌∷◌, Outcome, ok, All, All-append, arith,
}
use storm_rev.Base.Bytes.{Bytes}
use storm_rev.Base.Sorted.{In, In-append_left, In-append_right}
use storm_rev.Value.{Host}
use storm_rev.Config.{StructConfig, json_of}
use storm_rev.Bucket.{Bucket}
use storm_rev.Q.Field.{raw}
use storm_rev.Q.Tree.{Matcher, match_value, rename}
use storm_rev.Q.Explain.{Expr, Exprs, nil, cons, truth, leaf, conj, disj, neg, explain_nested}
use storm_rev.Plan.Leaves.{IndexPlan, IndexPlans}
use storm_rev.Plan.Conj.{flatten, better, composite_plan, range_plan}
use storm_rev.Plan.Select.{
  best_of, cons_plan, union_plan, conj_plan, plan_for, flat_plans, all_plans,
}
use storm_rev.Plan.Candidates.{Index, candidate_ids, all_ids}
use storm_rev.Plan.Coverage.{Fitting, Meets, MeetsAll, MeetsSome, Covers}
use storm_rev.Plan.Coverage.Explained.{explain-Meets}
use storm_rev.Plan.Sound.Leaf
use storm_rev.Plan.Sound.Leaf.{append_ids-ok, leaf_plan-Sound, deduped-Finds}
use storm_rev.Plan.Sound.Conjunction.{better-Sound, composite_plan-Sound}
use storm_rev.Plan.Sound.Conjunction.Range.{range_plan-Sound}

module _ (H : Host) (cfg : StructConfig) (idx : Index H.Float) (b : Bucket)
    (law : Covers H cfg idx b) (k doc : Bytes) (there : b.get k ≡ some doc) where
  open H use {Float}

  abbrev SoundIf : Option (IndexPlan Float) → Type 0
  SoundIf = Leaf.SoundIf H cfg idx b law k doc there

  abbrev Finds : Outcome (Option (List Bytes)) → Type 0
  Finds = Leaf.Finds H cfg idx b law k doc there

  abbrev FindsIf : Option (IndexPlans Float) → Type 0
  FindsIf none = Unit
  FindsIf (some ps) = Finds (all_ids H cfg idx b ps)

  best_of-Sound :
      (best : Option (IndexPlan Float)) (ps : List (Option (IndexPlan Float)))
      → SoundIf best
      → All SoundIf ps
      → SoundIf (best_of best ps)
  unfolding best_of
  best_of-Sound best [] s h = s
  best_of-Sound best (none ∷ ps) s h = best_of-Sound best ps s h.1
  best_of-Sound best (some p ∷ ps) s h =
      best_of-Sound (better best p) ps (better-Sound H cfg idx b law k doc there best p s h.0) h.1

  composite_or_best :
      (o best : Option (IndexPlan Float)) (ps : List (Option (IndexPlan Float)))
      → SoundIf o
      → SoundIf best
      → All SoundIf ps
      → SoundIf (elim o [ some p ↦ some p | none ↦ best_of best ps ])
  composite_or_best none best ps t s h = best_of-Sound best ps s h
  composite_or_best (some p) best ps t s h = t

  conj_plan-Sound :
      (es : List (Expr Float)) (ps : List (Option (IndexPlan Float)))
      → All (Meets H cfg doc) es
      → All SoundIf ps
      → SoundIf (conj_plan H cfg es ps)
  unfolding conj_plan
  conj_plan-Sound es ps m h =
      composite_or_best (composite_plan H cfg es) (range_plan H cfg es) ps
        (composite_plan-Sound H cfg idx b law k doc there es m)
        (range_plan-Sound H cfg idx b law k doc there es m) h

  flatten-Meets : (es : Exprs Float) → MeetsAll H cfg doc es → All (Meets H cfg doc) (flatten es)
  unfolding flatten
  flatten-Meets nil m = tt
  flatten-Meets (cons (conj cs) es) m =
      All-append (Meets H cfg doc) (flatten cs) (flatten es) (flatten-Meets cs m.0)
        (flatten-Meets es m.1)
  flatten-Meets (cons _ es) m = (m.0, flatten-Meets es m.1)

  some_plan-Finds :
      (o : Option (IndexPlan Float)) (ps : Option (IndexPlans Float))
      → SoundIf o ⊎ FindsIf ps
      → FindsIf (cons_plan o ps)
  unfolding cons_plan all_ids
  some_plan-Finds none ps h = tt
  some_plan-Finds (some p) none h = tt
  some_plan-Finds (some p) (some ps) h = λ ids c.
      let (x, y, hx, hy, e) = append_ids-ok _ _ ids c in
      rw e
        (elim h [ inl s ↦ In-append_left k x y (s x hx) | inr s ↦ In-append_right k x y (s y hy) ])

  union-Sound :
      (es : Exprs Float) (ps : Option (IndexPlans Float)) → FindsIf ps → SoundIf (union_plan es ps)
  unfolding union_plan candidate_ids
  union-Sound nil ps h = tt
  union-Sound (cons e es) none h = tt
  union-Sound (cons e es) (some ps) h =
      deduped-Finds H cfg idx b law k doc there (all_ids H cfg idx b ps) h

  mutual
    unfolding plan_for flatten

    plan_for-Sound : (e : Expr Float) → Meets H cfg doc e → SoundIf (plan_for H cfg e)
    plan_for-Sound truth m = tt
    plan_for-Sound (leaf op f v) m = leaf_plan-Sound H cfg idx b law k doc there op f v m
    plan_for-Sound (conj es) m =
        conj_plan-Sound (flatten es) (flat_plans H cfg es) (flatten-Meets es m)
          (flat_plans-Sound es m)
    plan_for-Sound (disj es) m = union-Sound es (all_plans H cfg es) (all_plans-Finds es m)
    plan_for-Sound (neg es) m = tt

    flat_plans-Sound :
        (es : Exprs Float) → MeetsAll H cfg doc es → All SoundIf (flat_plans H cfg es)
    flat_plans-Sound nil m = tt
    flat_plans-Sound (cons (conj cs) es) m =
        All-append SoundIf (flat_plans H cfg cs) (flat_plans H cfg es) (flat_plans-Sound cs m.0)
          (flat_plans-Sound es m.1)
    flat_plans-Sound (cons truth es) m = (tt, flat_plans-Sound es m.1)
    flat_plans-Sound (cons (leaf op f v) es) m =
        (plan_for-Sound (leaf op f v) m.0, flat_plans-Sound es m.1)
    flat_plans-Sound (cons (disj ds) es) m = (plan_for-Sound (disj ds) m.0, flat_plans-Sound es m.1)
    flat_plans-Sound (cons (neg ds) es) m = (tt, flat_plans-Sound es m.1)

    all_plans-Finds : (es : Exprs Float) → MeetsSome H cfg doc es → FindsIf (all_plans H cfg es)
    all_plans-Finds nil m = absurd m
    all_plans-Finds (cons e es) (inl h) =
        some_plan-Finds (plan_for H cfg e) (all_plans H cfg es) (inl (plan_for-Sound e h))
    all_plans-Finds (cons e es) (inr h) =
        some_plan-Finds (plan_for H cfg e) (all_plans H cfg es) (inr (all_plans-Finds es h))

  sound_some :
      (o : Option (IndexPlan Float)) (p : IndexPlan Float) (ids : List Bytes)
      → SoundIf o
      → o ≡ some p
      → candidate_ids H cfg idx b p ≡ ok (some ids)
      → In k ids
  sound_some none p ids s e c = cc
  sound_some (some q) p ids s e c = let same : q ≡ p = ground arith in s ids (rw same c)

  -- Whatever plan is chosen for a tree, its candidates, where the searches end with ids, hold the key
  -- of a record of the bucket that the tree, renamed to JSON names, accepts. The index holds the
  -- document of each record and bleve answers as it promises (Covers); and where the record's JSON
  -- meets a matcher of the tree on an indexed field with a value that is not zero, the record's field
  -- has the same bytes, or is in the bound and not zero (Fitting).
  pub candidates_complete :
      (m : Matcher Float) (p : IndexPlan Float) (ids : List Bytes)
      → plan_for H cfg (explain_nested m) ≡ some p
      → candidate_ids H cfg idx b p ≡ ok (some ids)
      → Fitting H cfg doc m
      → match_value H (rename (json_of cfg) m) (raw doc) ≡ ok true
      → In k ids
  candidates_complete m p ids e c t h =
      sound_some (plan_for H cfg (explain_nested m)) p ids
        (plan_for-Sound (explain_nested m) (explain-Meets H cfg doc m t h)) e c

-- ===== src/Plan/Select.antt =====
-- select_index.go: selectIndexPlanForConfig, selectIndexPlanForAnd and selectIndexPlanForOr.
use storm_rev.Base.{Option, none, some, List, [], ◌∷◌, ◌++◌}
use storm_rev.Value.{Host}
use storm_rev.Config.{StructConfig}
use storm_rev.Q.Explain.{Expr, Exprs, nil, cons, truth, leaf, conj, disj, neg}
use storm_rev.Plan.Leaves
use storm_rev.Plan.Leaves.{IndexPlan, IndexPlans, union, leaf_plan}
use storm_rev.Plan.Conj.{flatten, better, composite_plan, range_plan}

module _ {F : Type 0} where
  -- the loop over the children's plans in selectIndexPlanForAnd
  unfoldable pub best_of : Option (IndexPlan F) → List (Option (IndexPlan F)) → Option (IndexPlan F)
  unfolding better
  best_of best [] = best
  best_of best (none ∷ ps) = best_of best ps
  best_of best (some p ∷ ps) = best_of (better best p) ps

  unfoldable pub cons_plan : Option (IndexPlan F) → Option (IndexPlans F) → Option (IndexPlans F)
  cons_plan none ps = none
  cons_plan (some p) none = none
  cons_plan (some p) (some ps) = some (Leaves.cons p ps)

  -- an Or with no children, or with a child that has no plan, has none
  unfoldable pub union_plan : Exprs F → Option (IndexPlans F) → Option (IndexPlan F)
  union_plan nil ps = none
  union_plan (cons e es) none = none
  union_plan (cons e es) (some ps) = some (union ps)

module _ (H : Host) (cfg : StructConfig) where
  open H use {Float}

  unfoldable pub conj_plan :
      List (Expr Float) → List (Option (IndexPlan Float)) → Option (IndexPlan Float)
  unfolding best_of
  conj_plan children plans = elim (composite_plan H cfg children) [
    | some p ↦ some p
    | none ↦ best_of (range_plan H cfg children) plans
  ]

  unfoldable mutual
    unfolding cons_plan union_plan conj_plan

    -- selectIndexPlanForConfig
    pub plan_for : Expr Float → Option (IndexPlan Float)
    plan_for truth = none
    plan_for (leaf op f v) = leaf_plan H cfg op f v
    plan_for (conj es) = conj_plan (flatten es) (flat_plans es)
    plan_for (disj es) = union_plan es (all_plans es)
    plan_for (neg es) = none

    -- the plans of the flattened children of an And
    pub flat_plans : Exprs Float → List (Option (IndexPlan Float))
    flat_plans nil = []
    flat_plans (cons (conj cs) es) = flat_plans cs ++ flat_plans es
    flat_plans (cons e es) = plan_for e ∷ flat_plans es

    -- the plans of the children of an Or, where every child has one
    pub all_plans : Exprs Float → Option (IndexPlans Float)
    all_plans nil = some Leaves.nil
    all_plans (cons e es) = cons_plan (plan_for e) (all_plans es)

-- ===== src/Plan/Leaves.antt =====
-- select_index.go: the plan, and the plan of a single matcher.
use storm_rev.Base.{ℕ, not, ◌||◌, Option, none, some, List, [], ◌∷◌, if◌then◌else◌}
use storm_rev.Base.Bytes.{Bytes, bytes_eq}
use storm_rev.Value
use storm_rev.Value.{Value, Values, uint, bytes, slice, Host}
use storm_rev.Config.{
  StructConfig, FieldConfig, lookup, tag_unique, can_use_index, missing_from_index,
}
use storm_rev.Q.Explain.{ExprOp, eq, strict_eq_op, in_op}

-- selectIndexPlan, a constructor for each kind, with the fields that the kind uses. The scores
-- that are constants stand in `score`.
mutual
  pub data IndexPlan (F : Type 0) : Type 0 where
    exact : Bytes → Value F → ℕ → IndexPlan F
    in_values : Bytes → List (Value F) → IndexPlan F
    range : Bytes → Value F → Value F → IndexPlan F
    composite : Bytes → List (Value F) → ℕ → IndexPlan F
    union : IndexPlans F → IndexPlan F

  pub data IndexPlans (F : Type 0) : Type 0 where
    nil : IndexPlans F
    cons : IndexPlan F → IndexPlans F → IndexPlans F

unfoldable pub score : {F : Type 0} → IndexPlan F → ℕ
score (exact f v n) = n
score (in_values f vs) = 2500
score (range f lo hi) = 2000
score (composite name vs n) = n
score (union ps) = 1500

-- selectExactScore
unfoldable pub exact_score : Option FieldConfig → ℕ
exact_score none = 3000
exact_score (some fc) = if fc.is_id || bytes_eq fc.index tag_unique then 3500 else 3000

module _ (H : Host) where
  open H use {Float}

  -- the loop of selectInValues
  unfoldable pub present_values : Values Float → Option (List (Value Float))
  present_values Value.nil = some []
  present_values (Value.cons v vs) =
      let rest = present_values vs in
      if missing_from_index H v then none else elim rest [ none ↦ none | some ws ↦ some (v ∷ ws) ]

  unfoldable pub present_bytes : Bytes → Option (List (Value Float))
  present_bytes [] = some []
  present_bytes (b ∷ bs) =
      let rest = present_bytes bs in
      if missing_from_index H (uint b)
      then none
      else elim rest [ none ↦ none | some ws ↦ some (uint b ∷ ws) ]

  -- selectInValues
  unfoldable pub select_in_values : Value Float → Option (List (Value Float))
  unfolding present_values present_bytes
  select_in_values (slice vs) = present_values vs
  select_in_values (bytes (some bs)) = present_bytes bs
  select_in_values _ = none

  unfoldable pub exact_plan : StructConfig → Bytes → Value Float → Option (IndexPlan Float)
  unfolding exact_score
  exact_plan cfg f v =
      if not (can_use_index cfg f) || missing_from_index H v
      then none
      else some (exact f v (exact_score (lookup f cfg.fields)))

  unfoldable pub in_plan : StructConfig → Bytes → Value Float → Option (IndexPlan Float)
  in_plan cfg f v =
      if not (can_use_index cfg f)
      then none
      else elim (select_in_values v) [ none ↦ none | some vs ↦ some (in_values f vs) ]

  -- selectIndexPlanForLeaf on an operator with a field and a value
  unfoldable pub leaf_plan : StructConfig → ExprOp → Bytes → Value Float → Option (IndexPlan Float)
  unfolding exact_plan in_plan
  leaf_plan cfg eq f v = exact_plan cfg f v
  leaf_plan cfg strict_eq_op f v = exact_plan cfg f v
  leaf_plan cfg in_op f v = in_plan cfg f v
  leaf_plan cfg _ f v = none

-- ===== src/Plan/Conj.antt =====
-- select_index.go: what a conjunction offers, a composite index or a closed range.
use storm_rev.Base.{
  ◌+◌, not, ◌||◌, Ordering, Option, none, some, List, [], ◌∷◌, ◌++◌, length, map, ltb,
  if◌then◌else◌,
}
use storm_rev.Base.Bytes.{Bytes, bytes_eq, compare_bytes}
use storm_rev.Value.{Value, Host}
use storm_rev.Config.{StructConfig, lookup, can_use_index, missing_from_index}
use storm_rev.Q.Explain.{ExprOp, Expr, Exprs, nil, cons, eq, strict_eq_op, gte, lte, leaf, conj}
use storm_rev.Plan.Leaves.{IndexPlan, range, composite, score}

-- sort.Strings on distinct names
insert_name : Bytes → List Bytes → List Bytes
insert_name a [] = a ∷ []
insert_name a (b ∷ bs) =
    let rest = insert_name a bs in
    elim (compare_bytes b a) [ Ordering.lt ↦ b ∷ rest | _ ↦ a ∷ b ∷ bs ]

unfoldable pub sort_names : List Bytes → List Bytes
unfolding insert_name
sort_names [] = []
sort_names (a ∷ as') = insert_name a (sort_names as')

-- `if best == nil || plan.score > best.score { best = plan }`
unfoldable pub better : {F : Type 0} → Option (IndexPlan F) → IndexPlan F → Option (IndexPlan F)
unfolding score
better none p = some p
better (some b) p = if ltb (score b) (score p) then some p else some b

-- bounds of selectRangePlan; `some` is has together with the value
pub record Bounds (F : Type 0) : Type 0 where
  pub low : Option (Value F)
  pub high : Option (Value F)

module _ {F : Type 0} where
  -- flattenSelectExpr at ExprAnd
  unfoldable pub flatten : Exprs F → List (Expr F)
  flatten nil = []
  flatten (cons (conj cs) es) = flatten cs ++ flatten es
  flatten (cons e es) = e ∷ flatten es

  -- `expr.Field != field` and the switch, on one expression
  unfoldable pub equality_of : Bytes → Expr F → Option (Value F)
  equality_of f (leaf eq g v) = if bytes_eq g f then some v else none
  equality_of f (leaf strict_eq_op g v) = if bytes_eq g f then some v else none
  equality_of f _ = none

  -- selectEqualityValue
  unfoldable pub equality_value : List (Expr F) → Bytes → Option (Value F)
  unfolding equality_of
  equality_value [] f = none
  equality_value (e ∷ es) f =
      let rest = equality_value es f in elim (equality_of f e) [ some v ↦ some v | none ↦ rest ]

  unfoldable pub set_bound : ExprOp → Value F → Bounds F → Bounds F
  set_bound gte v b = record b { low = some v }
  set_bound lte v b = record b { high = some v }
  set_bound _ v b = b

  -- the entry of byField, made where it is missing
  unfoldable pub update_bound :
      ExprOp → Bytes → Value F → List (Bytes × Bounds F) → List (Bytes × Bounds F)
  unfolding set_bound
  update_bound op f v [] = (f, set_bound op v (record { low = none; high = none })) ∷ []
  update_bound op f v ((g, b) ∷ m) =
      if bytes_eq g f then (g, set_bound op v b) ∷ m else (g, b) ∷ update_bound op f v m

  -- the fields whose both bounds are known
  unfoldable pub closed_fields : List (Bytes × Bounds F) → List Bytes
  closed_fields [] = []
  closed_fields ((f, b) ∷ m) =
      let rest = closed_fields m in
      elim b.low [ none ↦ rest | some lo ↦ elim b.high [ none ↦ rest | some hi ↦ f ∷ rest ] ]

  abbrev pub range_of : Bytes → Bounds F → Option (IndexPlan F)
  range_of f b = elim b.low [
    | none ↦ none
    | some lo ↦ elim b.high [ none ↦ none | some hi ↦ some (range f lo hi) ]
  ]

  unfoldable pub range_at : List (Bytes × Bounds F) → List Bytes → Option (IndexPlan F)
  range_at m [] = none
  range_at m (f ∷ fs) = elim (lookup f m) [ none ↦ none | some b ↦ range_of f b ]

module _ (H : Host) (cfg : StructConfig) where
  open H use {Float}

  -- the loop over composite.Fields
  unfoldable pub composite_values : List (Expr Float) → List Bytes → Option (List (Value Float))
  composite_values es [] = some []
  composite_values es (f ∷ fs) =
      let rest = composite_values es fs in
      elim (equality_value es f) [
        | none ↦ none
        | some v ↦
            if missing_from_index H v
            then none
            else elim rest [ none ↦ none | some vs ↦ some (v ∷ vs) ]
      ]

  unfoldable pub composite_named : List (Expr Float) → Bytes → Option (IndexPlan Float)
  unfolding composite_values
  composite_named es name = elim (lookup name cfg.composites) [
    | none ↦ none
    | some fields ↦ elim (composite_values es fields) [
      | none ↦ none
      | some vs ↦ some (composite name vs (4000 + length fields))
    ]
  ]

  unfoldable pub composite_loop :
      List (Expr Float) → List Bytes → Option (IndexPlan Float) → Option (IndexPlan Float)
  unfolding composite_named better
  composite_loop es [] best = best
  composite_loop es (name ∷ names) best =
      composite_loop es names
        (elim (composite_named es name) [ none ↦ best | some p ↦ better best p ])

  -- selectCompositePlan
  unfoldable pub composite_plan : List (Expr Float) → Option (IndexPlan Float)
  unfolding composite_loop sort_names
  composite_plan es = composite_loop es (sort_names (map (λ e. e.0) cfg.composites)) none

  -- one round of the loop over exprs in selectRangePlan; an expression with children has no value
  unfoldable pub note_bound : Expr Float → List (Bytes × Bounds Float) → List (Bytes × Bounds Float)
  unfolding update_bound can_use_index
  note_bound (leaf op f v) m =
      if missing_from_index H v || not (can_use_index cfg f) then m else update_bound op f v m
  note_bound _ m = m

  unfoldable pub note_bounds :
      List (Expr Float) → List (Bytes × Bounds Float) → List (Bytes × Bounds Float)
  unfolding note_bound
  note_bounds [] m = m
  note_bounds (e ∷ es) m = note_bounds es (note_bound e m)

  -- selectRangePlan
  unfoldable pub range_plan : List (Expr Float) → Option (IndexPlan Float)
  unfolding note_bounds range_at closed_fields sort_names
  range_plan es = let m = note_bounds es [] in range_at m (sort_names (closed_fields m))

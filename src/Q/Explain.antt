-- ===== src/Q/Explain.antt =====
-- q/explain.go: the read-only description of a matcher tree.
use storm_rev.Base.{Option, none, some, []}
use storm_rev.Base.Bytes.{Bytes}
use storm_rev.Value.{Token, eql, lss, leq, gtr, geq, Value, text, invalid}
use storm_rev.Q.Field.{FieldMatcher, cmp, strict_eq, in_list, regexp, custom_field}
use storm_rev.Q.Tree
use storm_rev.Q.Tree.{Matcher, Matchers, always, or_all, and_all, not_all, field, field2, custom}

-- ExprOp without the operators that carry children
pub data ExprOp : Type 0 where
  unknown eq strict_eq_op in_op gt gte lt lte re : ExprOp

-- Expr. The operators ExprTrue, ExprAnd, ExprOr and ExprNot are constructors, since only the
-- last three have Children and only the others have a Field and a Value.
mutual
  pub data Expr (F : Type 0) : Type 0 where
    truth : Expr F
    leaf : ExprOp → Bytes → Value F → Expr F
    conj disj neg : Exprs F → Expr F

  pub data Exprs (F : Type 0) : Type 0 where
    nil : Exprs F
    cons : Expr F → Exprs F → Exprs F

unfoldable pub expr_op_for_token : Token → ExprOp
expr_op_for_token eql = eq
expr_op_for_token gtr = gt
expr_op_for_token geq = gte
expr_op_for_token lss = lt
expr_op_for_token leq = lte

module _ {F : Type 0} where
  unfoldable pub explain_field_matcher : Bytes → FieldMatcher F → Expr F
  explain_field_matcher f (cmp tok v) = leaf (expr_op_for_token tok) f v
  explain_field_matcher f (strict_eq v) = leaf strict_eq_op f v
  explain_field_matcher f (in_list l) = leaf in_op f l
  explain_field_matcher f (regexp none) = leaf re f (text [])
  explain_field_matcher f (regexp (some pattern)) = leaf re f (text pattern)
  explain_field_matcher f (custom_field m) = leaf unknown f invalid

  -- explain with `nested`: a matcher of unknown shape becomes ExprUnknown
  unfoldable mutual
    pub explain_nested : Matcher F → Expr F
    explain_nested always = truth
    explain_nested (and_all ms) = conj (explain_children ms)
    explain_nested (or_all ms) = disj (explain_children ms)
    explain_nested (not_all ms) = neg (explain_children ms)
    explain_nested (field f m) = explain_field_matcher f m
    explain_nested (field2 f g tok) = leaf unknown [] invalid
    explain_nested (custom m) = leaf unknown [] invalid

    pub explain_children : Matchers F → Exprs F
    explain_children Tree.nil = nil
    explain_children (Tree.cons m ms) = cons (explain_nested m) (explain_children ms)

  -- Explain: at the root an unknown matcher is refused
  unfoldable pub explain : Matcher F → Option (Expr F)
  unfolding explain_nested explain_children
  explain (field2 f g tok) = none
  explain (custom m) = none
  explain m = some (explain_nested m)

-- ===== src/Sql/Where/Meaning.antt =====
-- sql.go: what the matcher of a WHERE means.
use mathlib.Core.Path.{ap₂}
use storm_rev.Base.{
  ◌≡◌, refl, sym, ap, ◌∙◌, Bool, true, false, not, Option, none, some, Outcome, ok, err, panic,
  unsupported_sql, ◌>>=◌, bind_ok, ok_injective, if◌then◌else◌,
}
use storm_rev.Base.Bytes.{Bytes}
use storm_rev.Value.{Value, eql, lss, leq, gtr, geq, Host}
use storm_rev.Q.Field.{Input, cmp, in_list, regexp, match_delegate}
use storm_rev.Q.Tree.{Matcher, match_value}
use storm_rev.Q.Build.{both, either, negate, eq, gt, gte, lt, lte, is_in, matches_re}
use storm_rev.Sql.Convert.{Conversions}
use storm_rev.Sql.Where.{
  ValueExpr, Operand, Comparison, equal, not_equal, greater, greater_equal, less, less_equal,
  Operator, test, in_op, like_op, other_op, WhereExpr, and_expr, or_expr, not_expr, paren_expr,
  comparison, other_expr, SqlField, SqlModel, TableRef, Reader, Texts, query_field_name,
}
use storm_rev.Sql.Where.Translate.{
  field_from_expr, value_from_expr, values_from_tuple, like_pattern, like_escape, like_regexp,
  test_matcher, negate_if, compare_field, matcher_from_expr,
}
use storm_rev.Sql.Where.Placeholders.{where_args, skip_args, matcher_from_expr-skip}

module _ (H : Host) (C : Conversions (H.Float)) (T : Texts) (m : SqlModel) (t : TableRef) where
  open H use {Float}

  -- The truth of a test on a field: `!=` is where `=` is false, and each other sign its own token of
  -- the comparison of values.
  unfoldable pub test_truth : Comparison → Bytes → Value Float → Input Float → Outcome Bool
  test_truth equal f x v = match_delegate H f (cmp eql x) v
  test_truth not_equal f x v = match_delegate H f (cmp eql x) v >>= λ b. ok (not b)
  test_truth greater f x v = match_delegate H f (cmp gtr x) v
  test_truth greater_equal f x v = match_delegate H f (cmp geq x) v
  test_truth less f x v = match_delegate H f (cmp lss x) v
  test_truth less_equal f x v = match_delegate H f (cmp leq x) v

  -- NOT IN and NOT LIKE are false where IN and LIKE are true.
  abbrev pub unless_negated : Bool → Outcome Bool → Outcome Bool
  unless_negated true x = x >>= λ b. ok (not b)
  unless_negated false x = x

  -- The truth of a comparison of a field: of a test with the value of the operand, of IN with the
  -- values of the tuple, and of LIKE with the regular expression of the pattern, where that compiles.
  unfoldable pub compared_truth :
      Operator → SqlField → Operand → Option ValueExpr → Reader Float → Input Float → Outcome Bool
  compared_truth (test c) f e escape r v =
      value_from_expr H C T e f.target r >>= λ p. test_truth c (query_field_name m f) p.0 v
  compared_truth (in_op negated) f e escape r v = values_from_tuple H C T e f.target r >>= λ p.
      unless_negated negated (match_delegate H (query_field_name m f) (in_list p.0) v)
  compared_truth (like_op negated) f e escape r v = like_pattern H C T e r >>= λ p.
      like_escape H C T escape p.1 >>= λ c.
      let pattern = like_regexp T p.0 c.0 in
      unless_negated negated (
        match_delegate H (query_field_name m f)
          (regexp (if H.regexp_compiles pattern then some pattern else none)) v)
  compared_truth other_op f e escape r v = err unsupported_sql

  -- The truth of an expression on a record: AND and OR of the truth of their sides, where the right
  -- side takes its arguments after those of the left one, NOT, and the truth of a comparison.
  unfoldable pub where_truth : WhereExpr → Reader Float → Input Float → Outcome Bool
  where_truth (and_expr a b) r v =
      let right = where_truth b (skip_args r (where_args a)) v in
      where_truth a r v >>= λ x. if x then right else ok false
  where_truth (or_expr a b) r v =
      let right = where_truth b (skip_args r (where_args a)) v in
      where_truth a r v >>= λ x. if x then ok true else right
  where_truth (not_expr a) r v = where_truth a r v >>= λ x. ok (not x)
  where_truth (paren_expr a) r v = where_truth a r v
  where_truth (comparison o c e escape) r v =
      field_from_expr T m t c >>= λ f. compared_truth o f e escape r v
  where_truth other_expr r v = err unsupported_sql

  last_of : (x : Outcome Bool) → (x >>= λ b. if b then ok true else ok false) ≡ x
  last_of (ok true) = refl
  last_of (ok false) = refl
  last_of (err e) = refl
  last_of panic = refl

  negated :
      (x : Outcome Bool) → (x >>= λ b. if b then ok false else ok true) ≡ (x >>= λ b. ok (not b))
  negated (ok true) = refl
  negated (ok false) = refl
  negated (err e) = refl
  negated panic = refl

  both_truth :
      (a b : Matcher Float) (v : Input Float) (x y : Outcome Bool)
      → match_value H a v ≡ x
      → match_value H b v ≡ y
      → match_value H (both a b) v ≡ (x >>= λ z. if z then y else ok false)
  unfolding match_value both
  both_truth a b v x y e f = ap₂ (λ l r. l >>= λ z. if z then r else ok false) e (last_of _ ∙ f)

  either_truth :
      (a b : Matcher Float) (v : Input Float) (x y : Outcome Bool)
      → match_value H a v ≡ x
      → match_value H b v ≡ y
      → match_value H (either a b) v ≡ (x >>= λ z. if z then ok true else y)
  unfolding match_value either
  either_truth a b v x y e f = ap₂ (λ l r. l >>= λ z. if z then ok true else r) e (last_of _ ∙ f)

  negate_truth :
      (a : Matcher Float) (v : Input Float) (x : Outcome Bool)
      → match_value H a v ≡ x
      → match_value H (negate a) v ≡ (x >>= λ z. ok (not z))
  unfolding match_value negate
  negate_truth a v x e = negated _ ∙ ap (λ l. l >>= λ z. ok (not z)) e

  negate_if_truth :
      (negated : Bool) (a : Matcher Float) (v : Input Float) (x : Outcome Bool)
      → match_value H a v ≡ x
      → match_value H (negate_if H C T negated a) v ≡ unless_negated negated x
  negate_if_truth true a v x e = negate_truth a v x e
  negate_if_truth false a v x e = e

  test_matcher_truth :
      (c : Comparison) (f : Bytes) (x : Value Float) (v : Input Float)
      → match_value H (test_matcher H C T c f x) v ≡ test_truth c f x v
  unfolding match_value test_truth eq gt gte lt lte
  test_matcher_truth equal f x v = refl
  test_matcher_truth not_equal f x v = negate_truth (eq f x) v _ refl
  test_matcher_truth greater f x v = refl
  test_matcher_truth greater_equal f x v = refl
  test_matcher_truth less f x v = refl
  test_matcher_truth less_equal f x v = refl

  compare_field_truth :
      (o : Operator) (f : SqlField) (e : Operand) (escape : Option ValueExpr) (r : Reader Float)
      (p : Matcher Float × Reader Float) (v : Input Float)
      → compare_field H C T m t o f e escape r ≡ ok p
      → match_value H p.0 v ≡ compared_truth o f e escape r v
  unfolding compare_field compared_truth match_value is_in matches_re
  compare_field_truth (test c) f e escape r p v h =
      let (a, k, g) = bind_ok (value_from_expr H C T e f.target r) _ p h in
      rw k (
        ap (λ (z : Matcher Float × Reader Float). match_value H z.0 v) (sym (ok_injective _ p g))
        ∙ test_matcher_truth c (query_field_name m f) a.0 v)
  compare_field_truth (in_op negated) f e escape r p v h =
      let (a, k, g) = bind_ok (values_from_tuple H C T e f.target r) _ p h in
      rw k (
        ap (λ (z : Matcher Float × Reader Float). match_value H z.0 v) (sym (ok_injective _ p g))
        ∙ negate_if_truth negated (is_in (query_field_name m f) a.0) v _ refl)
  compare_field_truth (like_op negated) f e escape r p v h =
      let (a, k, g) = bind_ok (like_pattern H C T e r) _ p h in
      let (c, l, g') = bind_ok (like_escape H C T escape a.1) _ p g in
      rw (k, l)
        (ap (λ (z : Matcher Float × Reader Float). match_value H z.0 v) (sym (ok_injective _ p g'))
          ∙ negate_if_truth negated (matches_re H (query_field_name m f) (like_regexp T a.0 c.0)) v
              _ refl)
  compare_field_truth other_op f e escape r p v h = cc

  -- The matcher that a WHERE is translated to, where that succeeds, has on every record the truth of
  -- the expression, with the arguments taken from left to right.
  pub matcher_from_expr-where_truth :
      (e : WhereExpr) (r : Reader Float) (p : Matcher Float × Reader Float) (v : Input Float)
      → matcher_from_expr H C T m t e r ≡ ok p
      → match_value H p.0 v ≡ where_truth e r v
  unfolding matcher_from_expr where_truth match_value
  matcher_from_expr-where_truth (and_expr a b) r p v h =
      let (x, k, h') = bind_ok (matcher_from_expr H C T m t a r) _ p h in
      let (y, l, e) = bind_ok (matcher_from_expr H C T m t b x.1) _ p h' in
      ap (λ (z : Matcher Float × Reader Float). match_value H z.0 v) (sym (ok_injective _ p e))
      ∙ both_truth x.0 y.0 v _ _ (matcher_from_expr-where_truth a r x v k) (
          matcher_from_expr-where_truth b x.1 y v l
          ∙ ap (λ s. where_truth b s v) (matcher_from_expr-skip H C T m t a r x k))
  matcher_from_expr-where_truth (or_expr a b) r p v h =
      let (x, k, h') = bind_ok (matcher_from_expr H C T m t a r) _ p h in
      let (y, l, e) = bind_ok (matcher_from_expr H C T m t b x.1) _ p h' in
      ap (λ (z : Matcher Float × Reader Float). match_value H z.0 v) (sym (ok_injective _ p e))
      ∙ either_truth x.0 y.0 v _ _ (matcher_from_expr-where_truth a r x v k) (
          matcher_from_expr-where_truth b x.1 y v l
          ∙ ap (λ s. where_truth b s v) (matcher_from_expr-skip H C T m t a r x k))
  matcher_from_expr-where_truth (not_expr a) r p v h =
      let (x, k, e) = bind_ok (matcher_from_expr H C T m t a r) _ p h in
      ap (λ (z : Matcher Float × Reader Float). match_value H z.0 v) (sym (ok_injective _ p e))
      ∙ negate_truth x.0 v _ (matcher_from_expr-where_truth a r x v k)
  matcher_from_expr-where_truth (paren_expr a) r p v h = matcher_from_expr-where_truth a r p v h
  matcher_from_expr-where_truth (comparison o c e escape) r p v h =
      let (f, k, h') = bind_ok (field_from_expr T m t c) _ p h in
      rw k (compare_field_truth o f e escape r p v h')
  matcher_from_expr-where_truth other_expr r p v h = cc

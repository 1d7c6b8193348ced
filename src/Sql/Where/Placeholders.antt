-- ===== src/Sql/Where/Placeholders.antt =====
-- sql.go: how many arguments an expression takes.
use mathlib.Core.Path.{ap₂}
use storm_rev.Base.{
  ◌≡◌, refl, sym, ap, ◌∙◌, ℕ, ◌+◌, ℤ, Bool, Option, none, some, List, [], ◌∷◌, ok, bind_ok,
  ok_injective, arith,
}
use storm_rev.Base.Bytes.{Bytes}
use storm_rev.Value.{Value, Values, nil, Host}
use storm_rev.Q.Tree.{Matcher}
use storm_rev.Sql.Convert.{Target, Conversions, convert_value}
use storm_rev.Sql.Where.{
  ValueExpr, str_val, int_val, float_val, val_arg, null_val, other_literal, other_value, bool_val,
  Operand, scalar, tuple, Operator, test, in_op, like_op, other_op, WhereExpr, and_expr, or_expr,
  not_expr, paren_expr, comparison, other_expr, SqlField, SqlModel, TableRef, Reader, Texts, arg_at,
  next_arg,
}
use storm_rev.Sql.Where.Translate.{
  field_from_expr, int_literal, float_literal, literal_value, scalar_value, value_from_expr,
  tuple_values, values_from_tuple, like_pattern, like_escape, as_text, single_rune, compare_field,
  matcher_from_expr,
}

-- The placeholders of an expression.
abbrev pub value_args : ValueExpr → ℕ
value_args val_arg = 1
value_args _ = 0

abbrev pub tuple_args : List ValueExpr → ℕ
tuple_args [] = 0
tuple_args (e ∷ es) = value_args e + tuple_args es

abbrev pub operand_args : Operand → ℕ
operand_args (scalar e) = value_args e
operand_args (tuple es) = tuple_args es

abbrev pub escape_args : Operator → Option ValueExpr → ℕ
escape_args (like_op negated) (some e) = value_args e
escape_args _ _ = 0

abbrev pub where_args : WhereExpr → ℕ
where_args (and_expr a b) = where_args a + where_args b
where_args (or_expr a b) = where_args a + where_args b
where_args (not_expr a) = where_args a
where_args (paren_expr a) = where_args a
where_args (comparison o c e escape) = operand_args e + escape_args o escape
where_args other_expr = 0

module _ {F : Type 0} where
  -- A reader that has read some more arguments.
  abbrev pub skip_args : Reader F → ℕ → Reader F
  skip_args r n = record r { at = r.at + n }

  pub Reader-path : (r s : Reader F) → r.args ≡ s.args → r.at ≡ s.at → r ≡ s
  Reader-path r s e f = ap₂ (λ (a : List (Value F)) (n : ℕ). record { args = a; at = n }) e f

  pub skip_none : (r : Reader F) → r ≡ skip_args r 0
  skip_none r = Reader-path r (skip_args r 0) refl (omega arith)

  pub skip_more :
      (r s u : Reader F) (n k : ℕ) → s ≡ skip_args r n → u ≡ skip_args s k → u ≡ skip_args r (n + k)
  skip_more r s u n k e f =
      f
      ∙ ap (λ x. skip_args x k) e
      ∙ Reader-path (skip_args (skip_args r n) k) (skip_args r (n + k)) refl (omega arith)

  arg_at-skip :
      (o : Option (Value F)) (r : Reader F) (p : Value F × Reader F)
      → arg_at o r ≡ ok p
      → p.1 ≡ skip_args r 1
  arg_at-skip none r p h = cc
  arg_at-skip (some v) r p h =
      ap (λ (x : Value F × Reader F). x.1) (sym (ok_injective _ p h))
      ∙ Reader-path _ (skip_args r 1) refl (omega arith)

module _ (H : Host) (C : Conversions (H.Float)) (T : Texts) where
  open H use {Float}

  same_reader :
      (v : Value Float) (r : Reader Float) (p : Value Float × Reader Float)
      → ok (v, r) ≡ ok p
      → p.1 ≡ skip_args r 0
  same_reader v r p h =
      ap (λ (x : Value Float × Reader Float). x.1) (sym (ok_injective (v, r) p h)) ∙ skip_none r

  int_literal-skip :
      (o : Option ℤ) (r : Reader Float) (p : Value Float × Reader Float)
      → int_literal H C T o r ≡ ok p
      → p.1 ≡ skip_args r 0
  int_literal-skip none r p h = cc
  int_literal-skip (some z) r p h = same_reader _ r p h

  float_literal-skip :
      (o : Option Float) (r : Reader Float) (p : Value Float × Reader Float)
      → float_literal H C T o r ≡ ok p
      → p.1 ≡ skip_args r 0
  float_literal-skip none r p h = cc
  float_literal-skip (some z) r p h = same_reader _ r p h

  literal_value-skip :
      (e : ValueExpr) (r : Reader Float) (p : Value Float × Reader Float)
      → literal_value H C T e r ≡ ok p
      → p.1 ≡ skip_args r (value_args e)
  unfolding literal_value next_arg
  literal_value-skip (str_val s) r p h = same_reader _ r p h
  literal_value-skip (int_val s) r p h = int_literal-skip _ r p h
  literal_value-skip (float_val s) r p h = float_literal-skip _ r p h
  literal_value-skip val_arg r p h = arg_at-skip _ r p h
  literal_value-skip null_val r p h = same_reader _ r p h
  literal_value-skip other_literal r p h = cc
  literal_value-skip other_value r p h = cc
  literal_value-skip (bool_val b) r p h = same_reader _ r p h

  scalar_value-skip :
      (e : ValueExpr) (t : Option Target) (r : Reader Float) (p : Value Float × Reader Float)
      → scalar_value H C T e t r ≡ ok p
      → p.1 ≡ skip_args r (value_args e)
  unfolding scalar_value
  scalar_value-skip e t r p h =
      let (q, l, h') = bind_ok (literal_value H C T e r) _ p h in
      let (v, _, e') = bind_ok (convert_value H C q.0 t) _ p h' in
      ap (λ (x : Value Float × Reader Float). x.1) (sym (ok_injective (v, q.1) p e'))
      ∙ literal_value-skip e r q l

  pub value_from_expr-skip :
      (e : Operand) (t : Option Target) (r : Reader Float) (p : Value Float × Reader Float)
      → value_from_expr H C T e t r ≡ ok p
      → p.1 ≡ skip_args r (operand_args e)
  unfolding value_from_expr
  value_from_expr-skip (scalar e) t r p h = scalar_value-skip e t r p h
  value_from_expr-skip (tuple es) t r p h = cc

  tuple_values-skip :
      (es : List ValueExpr) (t : Option Target) (r : Reader Float) (p : Values Float × Reader Float)
      → tuple_values H C T es t r ≡ ok p
      → p.1 ≡ skip_args r (tuple_args es)
  unfolding tuple_values
  tuple_values-skip [] t r p h =
      ap (λ (x : Values Float × Reader Float). x.1) (sym (ok_injective (nil, r) p h)) ∙ skip_none r
  tuple_values-skip (e ∷ es) t r p h =
      let (a, k, h') = bind_ok (scalar_value H C T e t r) _ p h in
      let (b, l, e') = bind_ok (tuple_values H C T es t a.1) _ p h' in
      ap (λ (x : Values Float × Reader Float). x.1) (sym (ok_injective _ p e'))
      ∙ skip_more r a.1 b.1 (value_args e) (tuple_args es) (scalar_value-skip e t r a k)
          (tuple_values-skip es t a.1 b l)

  values_from_tuple-skip :
      (e : Operand) (t : Option Target) (r : Reader Float) (p : Value Float × Reader Float)
      → values_from_tuple H C T e t r ≡ ok p
      → p.1 ≡ skip_args r (operand_args e)
  unfolding values_from_tuple
  values_from_tuple-skip (scalar e) t r p h = cc
  values_from_tuple-skip (tuple es) t r p h =
      let (q, l, e') = bind_ok (tuple_values H C T es t r) _ p h in
      ap (λ (x : Value Float × Reader Float). x.1) (sym (ok_injective _ p e'))
      ∙ tuple_values-skip es t r q l

  like_pattern-skip :
      (e : Operand) (r : Reader Float) (p : Bytes × Reader Float)
      → like_pattern H C T e r ≡ ok p
      → p.1 ≡ skip_args r (operand_args e)
  unfolding like_pattern
  like_pattern-skip e r p h =
      let (q, l, h') = bind_ok (value_from_expr H C T e none r) _ p h in
      let (s, _, e') = bind_ok (as_text H C T q.0) _ p h' in
      ap (λ (x : Bytes × Reader Float). x.1) (sym (ok_injective (s, q.1) p e'))
      ∙ value_from_expr-skip e none r q l

  like_escape-skip :
      (o : Operator) (e : Option ValueExpr) (negated : Bool) (r : Reader Float)
      (p : ℕ × Reader Float)
      → o ≡ like_op negated
      → like_escape H C T e r ≡ ok p
      → p.1 ≡ skip_args r (escape_args (like_op negated) e)
  unfolding like_escape
  like_escape-skip o none negated r p q h =
      ap (λ (x : ℕ × Reader Float). x.1) (sym (ok_injective (0, r) p h)) ∙ skip_none r
  like_escape-skip o (some e) negated r p q h =
      let (a, l, h') = bind_ok (scalar_value H C T e none r) _ p h in
      let (s, _, h'') = bind_ok (as_text H C T a.0) _ p h' in
      let (c, _, e') = bind_ok (single_rune H C T (T.runes s)) _ p h'' in
      ap (λ (x : ℕ × Reader Float). x.1) (sym (ok_injective (c, a.1) p e'))
      ∙ scalar_value-skip e none r a l

  module _ (m : SqlModel) (t : TableRef) where
    compare_field-skip :
        (o : Operator) (f : SqlField) (e : Operand) (escape : Option ValueExpr) (r : Reader Float)
        (p : Matcher Float × Reader Float)
        → compare_field H C T m t o f e escape r ≡ ok p
        → p.1 ≡ skip_args r (operand_args e + escape_args o escape)
    unfolding compare_field
    compare_field-skip (test c) f e escape r p h =
        let (a, l, e') = bind_ok (value_from_expr H C T e f.target r) _ p h in
        ap (λ (x : Matcher Float × Reader Float). x.1) (sym (ok_injective _ p e'))
        ∙ value_from_expr-skip e f.target r a l
        ∙ ap (skip_args r) (omega arith)
    compare_field-skip (in_op negated) f e escape r p h =
        let (a, l, e') = bind_ok (values_from_tuple H C T e f.target r) _ p h in
        ap (λ (x : Matcher Float × Reader Float). x.1) (sym (ok_injective _ p e'))
        ∙ values_from_tuple-skip e f.target r a l
        ∙ ap (skip_args r) (omega arith)
    compare_field-skip (like_op negated) f e escape r p h =
        let (a, l, h') = bind_ok (like_pattern H C T e r) _ p h in
        let (c, k, e') = bind_ok (like_escape H C T escape a.1) _ p h' in
        ap (λ (x : Matcher Float × Reader Float). x.1) (sym (ok_injective _ p e'))
        ∙ skip_more r a.1 c.1 (operand_args e) (escape_args (like_op negated) escape)
            (like_pattern-skip e r a l)
            (like_escape-skip (like_op negated) escape negated a.1 c refl k)
    compare_field-skip other_op f e escape r p h = cc

    pub matcher_from_expr-skip :
        (e : WhereExpr) (r : Reader Float) (p : Matcher Float × Reader Float)
        → matcher_from_expr H C T m t e r ≡ ok p
        → p.1 ≡ skip_args r (where_args e)
    unfolding matcher_from_expr
    matcher_from_expr-skip (and_expr a b) r p h =
        let (x, k, h') = bind_ok (matcher_from_expr H C T m t a r) _ p h in
        let (y, l, e) = bind_ok (matcher_from_expr H C T m t b x.1) _ p h' in
        ap (λ (z : Matcher Float × Reader Float). z.1) (sym (ok_injective _ p e))
        ∙ skip_more r x.1 y.1 (where_args a) (where_args b) (matcher_from_expr-skip a r x k)
            (matcher_from_expr-skip b x.1 y l)
    matcher_from_expr-skip (or_expr a b) r p h =
        let (x, k, h') = bind_ok (matcher_from_expr H C T m t a r) _ p h in
        let (y, l, e) = bind_ok (matcher_from_expr H C T m t b x.1) _ p h' in
        ap (λ (z : Matcher Float × Reader Float). z.1) (sym (ok_injective _ p e))
        ∙ skip_more r x.1 y.1 (where_args a) (where_args b) (matcher_from_expr-skip a r x k)
            (matcher_from_expr-skip b x.1 y l)
    matcher_from_expr-skip (not_expr a) r p h =
        let (x, k, e) = bind_ok (matcher_from_expr H C T m t a r) _ p h in
        ap (λ (z : Matcher Float × Reader Float). z.1) (sym (ok_injective _ p e))
        ∙ matcher_from_expr-skip a r x k
    matcher_from_expr-skip (paren_expr a) r p h = matcher_from_expr-skip a r p h
    matcher_from_expr-skip (comparison o c e escape) r p h =
        let (f, _, h') = bind_ok (field_from_expr T m t c) _ p h in
        compare_field-skip o f e escape r p h'
    matcher_from_expr-skip other_expr r p h = cc

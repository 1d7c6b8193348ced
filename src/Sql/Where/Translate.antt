-- ===== src/Sql/Where/Translate.antt =====
-- sql.go: matcherFromExpr and what it calls, orderBy, limit and buildSelectPlan.
use storm_rev.Base.{
  ℕ, ℤ, Bool, true, false, ◌&&◌, not, Option, none, some, List, [], ◌∷◌, ◌++◌, Outcome, ok, err,
  unsupported_sql, sql_unknown_field, host, ◌>>=◌, ◌==◌, if◌then◌else◌,
}
use storm_rev.Base.Bytes.{Bytes, ascii, bytes_eq}
use storm_rev.Config.{lookup}
use storm_rev.Value.{
  Value, Values, nil, cons, invalid, boolean, int, float, text, bytes, nil_slice, slice, struct_val,
  Host,
}
use storm_rev.Q.Tree.{Matcher, always}
use storm_rev.Q.Build.{eq, gt, gte, lt, lte, is_in, both, either, negate, matches_re}
use storm_rev.Sql.Convert.{Target, Conversions, convert_value}
use storm_rev.Sql.Where.{
  ValueExpr, str_val, int_val, float_val, val_arg, null_val, other_literal, other_value, bool_val,
  Operand, scalar, tuple, Column, column, no_column, Comparison, equal, not_equal, greater,
  greater_equal, less, less_equal, Operator, test, in_op, like_op, other_op, WhereExpr, and_expr,
  or_expr, not_expr, paren_expr, comparison, other_expr, SqlField, SqlModel, TableRef, Reader,
  Texts, query_field_name, next_arg,
}

-- likeRegexp: the loop over the runes of the pattern, with whether the last one was the escape
-- character; an escape of 0 is none
abbrev pub like_runes : Texts → ℕ → Bool → List ℕ → Bytes
like_runes T escape escaped [] = if escaped then T.quote_meta escape else []
like_runes T escape true (r ∷ rs) = T.quote_meta r ++ like_runes T escape false rs
like_runes T escape false (r ∷ rs) =
    let escapes = like_runes T escape true rs in
    let rest = like_runes T escape false rs in
    if not (escape == 0) && r == escape
    then escapes
    else (if r == 37 then ascii ".*" else if r == 95 then ascii "." else T.quote_meta r) ++ rest

unfoldable pub like_regexp : Texts → Bytes → ℕ → Bytes
like_regexp T pattern escape =
    ascii "(?s)^" ++ (like_runes T escape false (T.runes pattern) ++ ascii "$")

-- fieldFromExpr and fieldFromCol, on the qualifier of the table's name, the table's name and the name
abbrev pub found_field : Option SqlField → Outcome SqlField
found_field none = err sql_unknown_field
found_field (some f) = ok f

unfoldable pub field_from_expr : Texts → SqlModel → TableRef → Column → Outcome SqlField
field_from_expr T m t no_column = err unsupported_sql
field_from_expr T m t (column outer qualifier name) =
    let field = found_field (lookup (T.lower name) m.fields) in
    if bytes_eq qualifier []
    then field
    else if not (bytes_eq outer [])
    then err unsupported_sql
    else if not (bytes_eq qualifier t.name) && not (bytes_eq qualifier t.alias)
    then err sql_unknown_field
    else field

module _ (H : Host) (C : Conversions (H.Float)) (T : Texts) where
  open H use {Float, parse_float}
  open C use {parse_int, is_array}

  -- the number of a literal
  abbrev pub int_literal : Option ℤ → Reader Float → Outcome (Value Float × Reader Float)
  int_literal none r = err (host 1)
  int_literal (some z) r = ok (int z, r)

  abbrev pub float_literal : Option Float → Reader Float → Outcome (Value Float × Reader Float)
  float_literal none r = err (host 1)
  float_literal (some x) r = ok (float x, r)

  -- the switch of valueFromExpr
  unfoldable pub literal_value : ValueExpr → Reader Float → Outcome (Value Float × Reader Float)
  unfolding next_arg
  literal_value (str_val s) r = ok (text s, r)
  literal_value (int_val s) r = int_literal (parse_int s) r
  literal_value (float_val s) r = float_literal (parse_float s) r
  literal_value val_arg r = next_arg r
  literal_value other_literal r = err unsupported_sql
  literal_value null_val r = ok (invalid, r)
  literal_value (bool_val b) r = ok (boolean b, r)
  literal_value other_value r = err unsupported_sql

  -- valueFromExpr, on an expression that is no tuple, and on any
  unfoldable pub scalar_value :
      ValueExpr → Option Target → Reader Float → Outcome (Value Float × Reader Float)
  unfolding literal_value convert_value
  scalar_value e t r = literal_value e r >>= λ p. convert_value H C p.0 t >>= λ v. ok (v, p.1)

  unfoldable pub value_from_expr :
      Operand → Option Target → Reader Float → Outcome (Value Float × Reader Float)
  unfolding scalar_value
  value_from_expr (scalar e) t r = scalar_value e t r
  value_from_expr (tuple es) t r = err unsupported_sql

  -- the loop of valuesFromTuple
  unfoldable pub tuple_values :
      List ValueExpr → Option Target → Reader Float → Outcome (Values Float × Reader Float)
  unfolding scalar_value
  tuple_values [] t r = ok (nil, r)
  tuple_values (e ∷ es) t r =
      scalar_value e t r >>= λ p. tuple_values es t p.1 >>= λ q. ok (cons p.0 q.0, q.1)

  -- a single value that is a slice or an array stands for the list
  abbrev pub spread : Values Float → Value Float
  spread (cons (slice vs) nil) = slice vs
  spread (cons nil_slice nil) = nil_slice
  spread (cons (bytes b) nil) = bytes b
  spread (cons (struct_val n) nil) =
      if is_array n then struct_val n else slice (cons (struct_val n) nil)
  spread vs = slice vs

  unfoldable pub values_from_tuple :
      Operand → Option Target → Reader Float → Outcome (Value Float × Reader Float)
  unfolding tuple_values
  values_from_tuple (scalar e) t r = err unsupported_sql
  values_from_tuple (tuple es) t r = tuple_values es t r >>= λ p. ok (spread p.0, p.1)

  -- likePattern and likeEscape
  abbrev pub as_text : Value Float → Outcome Bytes
  as_text (text s) = ok s
  as_text _ = err unsupported_sql

  abbrev pub single_rune : List ℕ → Outcome ℕ
  single_rune (r ∷ []) = ok r
  single_rune _ = err unsupported_sql

  unfoldable pub like_pattern : Operand → Reader Float → Outcome (Bytes × Reader Float)
  unfolding value_from_expr
  like_pattern e r = value_from_expr e none r >>= λ p. as_text p.0 >>= λ s. ok (s, p.1)

  unfoldable pub like_escape : Option ValueExpr → Reader Float → Outcome (ℕ × Reader Float)
  unfolding scalar_value
  like_escape none r = ok (0, r)
  like_escape (some e) r = scalar_value e none r >>= λ p.
      as_text p.0 >>= λ s. single_rune (T.runes s) >>= λ c. ok (c, p.1)

  -- the matchers of matcherFromComparison
  abbrev pub test_matcher : Comparison → Bytes → Value Float → Matcher Float
  test_matcher equal f v = eq f v
  test_matcher not_equal f v = negate (eq f v)
  test_matcher greater f v = gt f v
  test_matcher greater_equal f v = gte f v
  test_matcher less f v = lt f v
  test_matcher less_equal f v = lte f v

  abbrev pub negate_if : Bool → Matcher Float → Matcher Float
  negate_if true m = negate m
  negate_if false m = m

  module _ (m : SqlModel) (t : TableRef) where
    -- matcherFromComparison, once the field is known, with matcherFromLike
    unfoldable pub compare_field :
        Operator
        → SqlField
        → Operand
        → Option ValueExpr
        → Reader Float
        → Outcome (Matcher Float × Reader Float)
    unfolding query_field_name value_from_expr values_from_tuple like_pattern like_escape
        like_regexp
    compare_field (test c) f e escape r =
        value_from_expr e f.target r >>= λ p. ok (test_matcher c (query_field_name m f) p.0, p.1)
    compare_field (in_op negated) f e escape r = values_from_tuple e f.target r >>= λ p.
        ok (negate_if negated (is_in (query_field_name m f) p.0), p.1)
    compare_field (like_op negated) f e escape r = like_pattern e r >>= λ p.
        like_escape escape p.1 >>= λ c.
        ok (negate_if negated (matches_re H (query_field_name m f) (like_regexp T p.0 c.0)), c.1)
    compare_field other_op f e escape r = err unsupported_sql

    -- matcherFromExpr
    unfoldable pub matcher_from_expr :
        WhereExpr → Reader Float → Outcome (Matcher Float × Reader Float)
    unfolding compare_field field_from_expr
    matcher_from_expr (and_expr a b) r =
        matcher_from_expr a r >>= λ p. matcher_from_expr b p.1 >>= λ q. ok (both p.0 q.0, q.1)
    matcher_from_expr (or_expr a b) r =
        matcher_from_expr a r >>= λ p. matcher_from_expr b p.1 >>= λ q. ok (either p.0 q.0, q.1)
    matcher_from_expr (not_expr a) r = matcher_from_expr a r >>= λ p. ok (negate p.0, p.1)
    matcher_from_expr (paren_expr a) r = matcher_from_expr a r
    matcher_from_expr (comparison o c e escape) r =
        field_from_expr T m t c >>= λ f. compare_field o f e escape r
    matcher_from_expr other_expr r = err unsupported_sql

    -- matcherFromWhere
    unfoldable pub matcher_from_where :
        Option WhereExpr → Reader Float → Outcome (Matcher Float × Reader Float)
    unfolding matcher_from_expr
    matcher_from_where none r = ok (always, r)
    matcher_from_where (some e) r = matcher_from_expr e r

-- ===== src/Sql/Where/Statement.antt =====
-- sql.go: a whole SELECT, its arguments and what it selects.
use storm_rev.Base.{
  ◌≡◌, sym, ap, ◌∙◌, inl, inr, ℕ, ◌+◌, ℤ, pos, negsuc, ltb_ℤ, leb_ℤ, Bool, true, false, Bool-cases,
  ◌||◌, ◌==◌, ==_iff, Option, none, some, List, length, Outcome, ok, guard, ◌>>◌, unsupported_sql,
  bind_ok, ok_injective, arith,
}
use storm_rev.Value.{Value, Host}
use storm_rev.Q.Field.{Input}
use storm_rev.Q.Tree.{Matcher, always, match_value}
use storm_rev.Sql.Convert.{Conversions, convert_value, int_of}
use storm_rev.Sql.Where.{Operand, WhereExpr, SqlModel, TableRef, Reader, Texts, args_done}
use storm_rev.Sql.Where.Translate.{value_from_expr, matcher_from_where}
use storm_rev.Sql.Where.Select.{
  Limit, SelectStmt, SelectPlan, order_by, as_int, int_from_expr, offset_value, limit_values,
  build_select_plan, plan_select,
}
use storm_rev.Sql.Where.Placeholders.{
  where_args, operand_args, skip_args, skip_none, skip_more, value_from_expr-skip,
  matcher_from_expr-skip,
}
use storm_rev.Sql.Where.Meaning.{where_truth, matcher_from_expr-where_truth}

-- The placeholders of a WHERE, of a LIMIT and of a statement.
abbrev pub some_where_args : Option WhereExpr → ℕ
some_where_args none = 0
some_where_args (some e) = where_args e

abbrev pub offset_args : Option Operand → ℕ
offset_args none = 0
offset_args (some e) = operand_args e

abbrev pub limit_args : Option Limit → ℕ
limit_args none = 0
limit_args (some l) = operand_args l.row_count + offset_args l.offset

abbrev pub select_args : SelectStmt → ℕ
select_args s = some_where_args s.where_expr + limit_args s.limit

module _ (H : Host) (C : Conversions (H.Float)) (T : Texts) where
  open H use {Float}

  int_from_expr-skip :
      (e : Operand) (r : Reader Float) (p : ℤ × Reader Float)
      → int_from_expr H C T e r ≡ ok p
      → p.1 ≡ skip_args r (operand_args e)
  unfolding int_from_expr
  int_from_expr-skip e r p h =
      let (q, k, h') = bind_ok (value_from_expr H C T e none r) _ p h in
      let (v, _, h'') = bind_ok (convert_value H C q.0 (some (int_of 64))) _ p h' in
      let (z, _, e') = bind_ok (as_int H C T v) _ p h'' in
      ap (λ (x : ℤ × Reader Float). x.1) (sym (ok_injective (z, q.1) p e'))
      ∙ value_from_expr-skip H C T e none r q k

  offset_value-skip :
      (e : Option Operand) (r : Reader Float) (p : ℤ × Reader Float)
      → offset_value H C T e r ≡ ok p
      → p.1 ≡ skip_args r (offset_args e)
  unfolding offset_value
  offset_value-skip none r p h =
      ap (λ (x : ℤ × Reader Float). x.1) (sym (ok_injective (pos 0, r) p h)) ∙ skip_none r
  offset_value-skip (some e) r p h = int_from_expr-skip e r p h

  not_negative : (a b : ℤ) → (ltb_ℤ a (pos 0) || ltb_ℤ b (pos 0)) ≡ false → leb_ℤ (pos 0) b ≡ true
  not_negative a b h = ground (arith, h)

  limit_values-skip :
      (l : Option Limit) (r : Reader Float) (p : (ℤ × ℤ) × Reader Float)
      → limit_values H C T l r ≡ ok p
      → (p.1 ≡ skip_args r (limit_args l)) × (leb_ℤ (pos 0) ((p.0).1) ≡ true)
  unfolding limit_values
  limit_values-skip none r p h =
      let e = sym (ok_injective ((negsuc 0, pos 0), r) p h) in
      (
        ap (λ (x : (ℤ × ℤ) × Reader Float). x.1) e ∙ skip_none r,
        ap (λ (x : (ℤ × ℤ) × Reader Float). leb_ℤ (pos 0) ((x.0).1)) e,
      )
  limit_values-skip (some l) r p h =
      let (n, k, h') = bind_ok (int_from_expr H C T l.row_count r) _ p h in
      let (o, j, g) = bind_ok (offset_value H C T l.offset n.1) _ p h' in
      elim (Bool-cases (ltb_ℤ n.0 (pos 0) || ltb_ℤ o.0 (pos 0))) [
        | inl y ↦ cc (rw y at g)
        | inr z ↦
            let e = sym (ok_injective ((n.0, o.0), o.1) p (rw z at g)) in
            (
              ap (λ (x : (ℤ × ℤ) × Reader Float). x.1) e
                  ∙ skip_more r n.1 o.1 (operand_args l.row_count) (offset_args l.offset)
                      (int_from_expr-skip l.row_count r n k) (offset_value-skip l.offset n.1 o j),
              ap (λ (x : (ℤ × ℤ) × Reader Float). leb_ℤ (pos 0) ((x.0).1)) e
                  ∙ not_negative n.0 o.0 z,
            )
      ]

  module _ (m : SqlModel) (t : TableRef) where
    -- The truth of a WHERE; a statement without one selects every record.
    abbrev pub some_where_truth : Option WhereExpr → Reader Float → Input Float → Outcome Bool
    some_where_truth none r v = ok true
    some_where_truth (some e) r v = where_truth H C T m t e r v

    matcher_from_where-skip :
        (w : Option WhereExpr) (r : Reader Float) (p : Matcher Float × Reader Float)
        → matcher_from_where H C T m t w r ≡ ok p
        → (p.1 ≡ skip_args r (some_where_args w))
          × ((v : Input Float) → match_value H p.0 v ≡ some_where_truth w r v)
    unfolding matcher_from_where match_value
    matcher_from_where-skip none r p h =
        let e = sym (ok_injective (always, r) p h) in
        (
          ap (λ (x : Matcher Float × Reader Float). x.1) e ∙ skip_none r,
          λ v. ap (λ (x : Matcher Float × Reader Float). match_value H x.0 v) e,
        )
    matcher_from_where-skip (some e) r p h = (
      matcher_from_expr-skip H C T m t e r p h,
      λ v. matcher_from_expr-where_truth H C T m t e r p v h,
    )

    read_all :
        (r : Reader Float) (p q : SelectPlan Float)
        → (args_done r >> ok p) ≡ ok q
        → (r.at ≡ length r.args) × (p ≡ q)
    unfolding args_done
    read_all r p q h = elim (Bool-cases (r.at == length r.args)) [
      | inl y ↦ ((==_iff r.at (length r.args)).0 y, ok_injective p q (rw y at h))
      | inr z ↦ cc (rw z at h)
    ]

    -- What building a plan tells of its parts.
    build_select_plan-parts :
        (s : SelectStmt) (r : Reader Float) (p : SelectPlan Float × Reader Float)
        → build_select_plan H C T m t s r ≡ ok p
        → (p.1 ≡ skip_args r (select_args s))
          × ((v : Input Float)
              → match_value H ((p.0).matcher) v ≡ some_where_truth s.where_expr r v)
          × (leb_ℤ (pos 0) ((p.0).skip) ≡ true)
    unfolding build_select_plan
    build_select_plan-parts s r p h =
        let (_, _, h0) = bind_ok (guard s.plain unsupported_sql) _ p h in
        let (w, j, h1) = bind_ok (matcher_from_where H C T m t s.where_expr r) _ p h0 in
        let (o, _, h2) = bind_ok (order_by T m t s.order_by) _ p h1 in
        let (l, k, h3) = bind_ok (limit_values H C T s.limit w.1) _ p h2 in
        let e = sym (ok_injective _ p h3) in
        let (moved, truth) = matcher_from_where-skip s.where_expr r w j in
        let (moved', least) = limit_values-skip s.limit w.1 l k in
        (
          ap (λ (x : SelectPlan Float × Reader Float). x.1) e
              ∙ skip_more r w.1 l.1 (some_where_args s.where_expr) (limit_args s.limit) moved
                  moved',
          λ v.
              ap (λ (x : SelectPlan Float × Reader Float). match_value H ((x.0).matcher) v) e
              ∙ truth v,
          ap (λ (x : SelectPlan Float × Reader Float). leb_ℤ (pos 0) ((x.0).skip)) e ∙ least,
        )

    -- Where a SELECT on one table is planned, it has exactly as many arguments as its WHERE and its
    -- LIMIT have placeholders; the plan's matcher has on every record the truth of the WHERE, with the
    -- placeholders filled from left to right: AND, OR and NOT taken as such, = and the four orders as
    -- the comparison of the field with the operand's value by that sign's token, != as the negation of
    -- =, IN as the list's matcher on the values, LIKE as the regular expression that is written for
    -- the pattern, and NOT IN and NOT LIKE as the negations of these; and the number of records to
    -- skip is not negative.
    pub plan_select-where_truth :
        (s : SelectStmt) (args : List (Value Float)) (plan : SelectPlan Float)
        → plan_select H C T m t s args ≡ ok plan
        → (length args ≡ select_args s)
          × ((v : Input Float)
              → match_value H plan.matcher v
                ≡ some_where_truth s.where_expr (record { args = args; at = 0 }) v)
          × (leb_ℤ (pos 0) plan.skip ≡ true)
    unfolding plan_select
    plan_select-where_truth s args plan h =
        let r : Reader Float = record { args = args; at = 0 } in
        let (p, k, h') = bind_ok (build_select_plan H C T m t s r) _ plan h in
        let (moved, truth, least) = build_select_plan-parts s r p k in
        let (read, same) = read_all p.1 p.0 plan h' in
        let place = ap (λ (x : Reader Float). x.at) moved in
        let given = ap (λ (x : Reader Float). length x.args) moved in
        (
          omega (arith, place, given, read),
          λ v. ap (λ (x : SelectPlan Float). match_value H x.matcher v) (sym same) ∙ truth v,
          ap (λ (x : SelectPlan Float). leb_ℤ (pos 0) x.skip) (sym same) ∙ least,
        )

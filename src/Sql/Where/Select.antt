-- ===== src/Sql/Where/Select.antt =====
-- sql.go: orderBy, limit and buildSelectPlan, on a statement of one table that is registered.
use storm_rev.Base.{
  ℤ, pos, negsuc, ltb_ℤ, Bool, true, false, ◌&&◌, ◌||◌, not, Option, none, some, List, [], ◌∷◌,
  Outcome, ok, err, unsupported_sql, bad_type, guard, ◌>>◌, ◌>>=◌, if◌then◌else◌,
}
use storm_rev.Base.Bytes.{Bytes, ascii, bytes_eq}
use storm_rev.Value.{Value, int, Host}
use storm_rev.Q.Tree.{Matcher}
use storm_rev.Sql.Convert.{int_of, Conversions, convert_value}
use storm_rev.Sql.Where.{
  Operand, Column, WhereExpr, SqlModel, TableRef, Reader, Texts, query_field_name, args_done,
}
use storm_rev.Sql.Where.Translate.{field_from_expr, value_from_expr, matcher_from_where}

-- sqlparser.Order and Limit, and what buildSelectPlan reads of a Select; `plain` is the test of its
-- first line.
pub record Order : Type 0 where
  pub by : Column
  pub direction : Bytes

pub record Limit : Type 0 where
  pub row_count : Operand
  pub offset : Option Operand

pub record SelectStmt : Type 0 where
  pub plain : Bool
  pub where_expr : Option WhereExpr
  pub order_by : List Order
  pub limit : Option Limit

-- sqlSelectPlan, but for its model and table
pub record SelectPlan (F : Type 0) : Type 0 where
  pub matcher : Matcher F
  pub where_empty : Bool
  pub fields : List Bytes
  pub reverse : Bool
  pub limit : ℤ
  pub skip : ℤ

abbrev pub asc : Bytes
asc = ascii "asc"

abbrev pub desc : Bytes
desc = ascii "desc"

-- the loop of orderBy, with whether a direction was set and the direction so far
unfoldable pub order_loop :
    Texts → SqlModel → TableRef → List Order → Bool → Bool → Outcome (List Bytes × Bool)
unfolding field_from_expr query_field_name
order_loop T m t [] set reverse = ok ([], reverse)
order_loop T m t (o ∷ os) set reverse =
    let direction = T.lower o.direction in
    let is_desc = bytes_eq direction desc in
    field_from_expr T m t o.by >>= λ f.
    guard (bytes_eq direction [] || (bytes_eq direction asc || is_desc)) unsupported_sql
    >> (guard (not (set && not (same reverse is_desc))) unsupported_sql
        >> (order_loop T m t os true is_desc >>= λ r. ok (query_field_name m f ∷ r.0, r.1)))
  where
    same : Bool → Bool → Bool
    same true b = b
    same false b = not b

-- orderBy
unfoldable pub order_by : Texts → SqlModel → TableRef → List Order → Outcome (List Bytes × Bool)
unfolding order_loop
order_by T m t os = order_loop T m t os false false

module _ (H : Host) (C : Conversions (H.Float)) (T : Texts) where
  open H use {Float}

  abbrev pub as_int : Value Float → Outcome ℤ
  as_int (int z) = ok z
  as_int _ = err bad_type

  -- intFromExpr, with anyToInt
  unfoldable pub int_from_expr : Operand → Reader Float → Outcome (ℤ × Reader Float)
  unfolding value_from_expr convert_value
  int_from_expr e r = value_from_expr H C T e none r >>= λ p.
      convert_value H C p.0 (some (int_of 64)) >>= λ v. as_int v >>= λ z. ok (z, p.1)

  -- the offset of limit
  unfoldable pub offset_value : Option Operand → Reader Float → Outcome (ℤ × Reader Float)
  unfolding int_from_expr
  offset_value none r = ok (pos 0, r)
  offset_value (some e) r = int_from_expr e r

  -- limit: the number of rows, or -1, and the offset
  unfoldable pub limit_values : Option Limit → Reader Float → Outcome ((ℤ × ℤ) × Reader Float)
  unfolding int_from_expr offset_value
  limit_values none r = ok ((negsuc 0, pos 0), r)
  limit_values (some l) r = int_from_expr l.row_count r >>= λ n. offset_value l.offset n.1 >>= λ o.
      (if ltb_ℤ n.0 (pos 0) || ltb_ℤ o.0 (pos 0) then err unsupported_sql else ok ((n.0, o.0), o.1))

  module _ (m : SqlModel) (t : TableRef) where
    abbrev pub no_where : Option WhereExpr → Bool
    no_where none = true
    no_where (some e) = false

    -- buildSelectPlan
    unfoldable pub build_select_plan :
        SelectStmt → Reader Float → Outcome (SelectPlan Float × Reader Float)
    unfolding matcher_from_where order_by limit_values
    build_select_plan s r =
        guard s.plain unsupported_sql
        >> (matcher_from_where H C T m t s.where_expr r >>= λ w. order_by T m t s.order_by >>= λ o.
            limit_values s.limit w.1 >>= λ l. ok (
              record {
                matcher = w.0;
                where_empty = no_where s.where_expr;
                fields = o.0;
                reverse = o.1;
                limit = (l.0).0;
                skip = (l.0).1;
              },
              l.1,
            ))

    -- what Find, First, Project and Count do before they run the plan
    unfoldable pub plan_select : SelectStmt → List (Value Float) → Outcome (SelectPlan Float)
    unfolding build_select_plan args_done
    plan_select s args =
        build_select_plan s (record { args = args; at = 0 }) >>= λ p. args_done p.1 >> ok p.0

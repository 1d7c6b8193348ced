-- ===== src/Tests/Statements.antt =====
-- A SELECT with two placeholders on records of the toy host.
use storm_rev.Base.{
  ◌≡◌, refl, ℕ, ℤ, pos, leb_ℤ, Bool, true, false, Option, none, some, List, [], ◌∷◌, length, ok,
}
use storm_rev.Base.Bytes.{Bytes, ascii}
use storm_rev.Value.{Value, int}
use storm_rev.Q.Field.{Input}
use storm_rev.Q.Tree.{match_value}
use storm_rev.Q.Build.{eq, gt, both, negate}
use storm_rev.Sql.Convert.{Conversions, int_of}
use storm_rev.Sql.Where.{
  val_arg, int_val, scalar, column, equal, greater, test, and_expr, not_expr, comparison, WhereExpr,
  SqlField, SqlModel, TableRef, Texts,
}
use storm_rev.Sql.Where.Select.{SelectStmt, SelectPlan, plan_select}
use storm_rev.Sql.Where.Statement.{select_args, some_where_truth, plan_select-where_truth}
use storm_rev.Tests.Toy.{toy}

abbrev plain_conversions : Conversions ℤ
plain_conversions = record {
  parse_int = λ s. some (pos 3);
  parse_uint = λ s. none;
  parse_bool = λ s. none;
  parse_time = λ s. none;
  float_to_int = λ w x. x;
  float_to_uint = λ w x. 0;
  rune_text = λ z. [];
  address = λ v. 0;
  overflow_float = λ w x. false;
  round_float = λ w x. x;
  is_array = λ n. false;
}

abbrev plain_texts : Texts
plain_texts = record { lower = λ s. s; runes = λ s. s; quote_meta = λ r. r ∷ [] }

abbrev number_field : Bytes → SqlField
number_field f = record { name = f; json_name = f; target = some (int_of 64) }

abbrev numbers : SqlModel
numbers = record {
  fields = (ascii "a", number_field (ascii "a")) ∷ (ascii "b", number_field (ascii "b")) ∷ [];
  metadata = true;
}

abbrev numbers_ref : TableRef
numbers_ref = record { name = ascii "numbers"; alias = [] }

-- a = ? AND NOT b > 3
abbrev some_where : WhereExpr
some_where = and_expr (comparison (test equal) (column [] [] (ascii "a")) (scalar val_arg) none) (
    not_expr
      (comparison (test greater) (column [] [] (ascii "b")) (scalar (int_val (ascii "3"))) none))

abbrev some_select : SelectStmt
some_select = record {
  plain = true;
  where_expr = some some_where;
  order_by = [];
  limit = some (record { row_count = scalar val_arg; offset = none });
}

abbrev some_args : List (Value ℤ)
some_args = int (pos 5) ∷ int (pos 2) ∷ []

abbrev some_plan : SelectPlan ℤ
some_plan = record {
  matcher = both (eq (ascii "a") (int (pos 5))) (negate (gt (ascii "b") (int (pos 3))));
  where_empty = false;
  fields = [];
  reverse = false;
  limit = pos 2;
  skip = pos 0;
}

plan_select-where_truth_example :
    (length some_args ≡ select_args some_select)
    × ((v : Input ℤ)
        → match_value toy some_plan.matcher v
          ≡ some_where_truth toy plain_conversions plain_texts numbers numbers_ref
              some_select.where_expr
              (record { args = some_args; at = 0 })
              v)
    × (leb_ℤ (pos 0) some_plan.skip ≡ true)
unfolding plan_select both negate storm_rev.Base.Bytes.compare_bytes
plan_select-where_truth_example =
    plan_select-where_truth toy plain_conversions plain_texts numbers numbers_ref some_select
      some_args some_plan refl

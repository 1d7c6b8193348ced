-- ===== src/Sql/Where.antt =====
-- sql.go: the WHERE, ORDER BY and LIMIT of a parsed statement, and its arguments.
pub mod Translate
pub mod Select
pub mod Placeholders
pub mod Meaning
pub mod Statement
use storm_rev.Base.{
  ℕ, zero, suc, ◌+◌, Bool, true, false, ◌&&◌, not, Option, none, some, List, [], ◌∷◌, ◌++◌, length,
  get_elem?, Outcome, ok, err, unsupported_sql, sql_unknown_field, sql_arguments, host, ◌>>=◌, ◌==◌,
  if◌then◌else◌,
}
use storm_rev.Base.Bytes.{Bytes, ascii, bytes_eq}
use storm_rev.Config.{lookup}
use storm_rev.Value.{
  Value, Values, nil, cons, invalid, boolean, int, float, text, bytes, nil_slice, slice, Host,
}
use storm_rev.Q.Tree.{Matcher, always}
use storm_rev.Q.Build.{eq, gt, gte, lt, lte, is_in, both, either, negate, matches_re}
use storm_rev.Sql.Convert.{Target, Conversions, convert_value}

-- The expressions of the parser, as far as the switches of the code tell them apart.
pub data ValueExpr : Type 0 where
  str_val int_val float_val : Bytes → ValueExpr
  val_arg null_val other_literal other_value : ValueExpr
  bool_val : Bool → ValueExpr

pub data Operand : Type 0 where
  scalar : ValueExpr → Operand
  tuple : List ValueExpr → Operand

-- a ColName, or another expression
pub data Column : Type 0 where
  column : Bytes → Bytes → Bytes → Column
  no_column : Column

pub data Comparison : Type 0 where
  equal not_equal greater greater_equal less less_equal : Comparison

-- the operator of a ComparisonExpr; `true` is the negated one
pub data Operator : Type 0 where
  test : Comparison → Operator
  in_op like_op : Bool → Operator
  other_op : Operator

pub data WhereExpr : Type 0 where
  and_expr or_expr : WhereExpr → WhereExpr → WhereExpr
  not_expr paren_expr : WhereExpr → WhereExpr
  comparison : Operator → Column → Operand → Option ValueExpr → WhereExpr
  other_expr : WhereExpr

-- what the code reads of a fieldConfig, and of a sqlModel: the fields by their names in lower case
pub record SqlField : Type 0 where
  pub name : Bytes
  pub json_name : Bytes
  pub target : Option Target

pub record SqlModel : Type 0 where
  pub fields : List (Bytes × SqlField)
  pub metadata : Bool

-- sqlTableRef
pub record TableRef : Type 0 where
  pub name : Bytes
  pub alias : Bytes

-- sqlArgReader
pub record Reader (F : Type 0) : Type 0 where
  pub args : List (Value F)
  pub at : ℕ

-- strings.ToLower, the runes of a string, and regexp.QuoteMeta of a rune
pub record Texts : Type 0 where
  pub lower : Bytes → Bytes
  pub runes : Bytes → List ℕ
  pub quote_meta : ℕ → Bytes

-- queryFieldName
unfoldable pub query_field_name : SqlModel → SqlField → Bytes
query_field_name model f = if model.metadata then f.json_name else f.name

module _ {F : Type 0} where
  abbrev pub arg_at : Option (Value F) → Reader F → Outcome (Value F × Reader F)
  arg_at none r = err sql_arguments
  arg_at (some v) r = ok (v, record r { at = suc r.at })

  -- sqlArgReader.next and done
  unfoldable pub next_arg : Reader F → Outcome (Value F × Reader F)
  next_arg r = arg_at (get_elem? r.args r.at) r

  unfoldable pub args_done : Reader F → Outcome (Unit {0})
  args_done r = if r.at == length r.args then ok tt else err sql_arguments

-- ===== src/Q/Field.antt =====
-- q/fieldmatcher.go, q/regexp.go and the field matchers of q/tree.go: matchers of one field.
use storm_rev.Base.{
  Bool, true, false, Option, none, some, List, Outcome, ok, err, panic, host, unknown_field, ◌>>=◌,
  if◌then◌else◌,
}
use storm_rev.Base.Bytes.{Bytes}
use storm_rev.Value.{
  Token, eql, Value, Values, nil, cons, invalid, boolean, uint, float, text, bytes, nil_slice,
  slice, Json, string, number, json_true, json_false, null, raw_json, Host,
}
use storm_rev.Q.Compare.{compare_values}

-- The field matchers. `regexp` carries the compiled pattern, `none` where it did not
-- compile, and `custom_field` is a FieldMatcher that a user of the package implements.
pub data FieldMatcher (F : Type 0) : Type 0 where
  cmp : Token → Value F → FieldMatcher F
  strict_eq : Value F → FieldMatcher F
  in_list : Value F → FieldMatcher F
  regexp : Option Bytes → FieldMatcher F
  custom_field : (Value F → Outcome Bool) → FieldMatcher F

-- What a matcher is applied to: a record as raw JSON (the query engine), a struct by its
-- FieldByName, or a value that is neither (a nil pointer).
pub data Input (F : Type 0) : Type 0 where
  raw : Bytes → Input F
  struct : (Bytes → Option (Value F)) → Input F
  nothing : Input F

module _ {F : Type 0} where
  -- the switch on res.Type in MatchValue; a null leaves `val` nil
  unfoldable pub json_value : Json F → Value F
  json_value (string s) = text s
  json_value (number x) = float x
  json_value json_true = boolean true
  json_value json_false = boolean false
  json_value null = invalid
  json_value (raw_json r) = bytes (some r)

module _ (H : Host) where
  open H use {Float, deep_equal, gjson_get, regexp_match}

  -- the loop of in.MatchField over the elements
  unfoldable pub in_loop : Values Float → Value Float → Outcome Bool
  in_loop nil v = ok false
  in_loop (cons x xs) v =
      let rest = in_loop xs v in
      do found ← compare_values H v x eql; if found then ok true else rest

  -- the elements of a []byte
  unfoldable pub byte_elements : Bytes → Values Float
  byte_elements List.[] = nil
  byte_elements (List.◌∷◌ b bs) = cons (uint b) (byte_elements bs)

  unfoldable pub in_match : Value Float → Value Float → Outcome Bool
  unfolding in_loop byte_elements
  in_match (slice vs) v = in_loop vs v
  in_match nil_slice v = ok false
  in_match (bytes none) v = ok false
  in_match (bytes (some bs)) v = in_loop (byte_elements bs) v
  in_match _ v = ok false

  -- regexpMatcher.MatchField: a pattern that did not compile, or a value that is no text, is an
  -- error. A nil []byte matches as the empty text.
  regexp_field : Option Bytes → Value Float → Outcome Bool
  regexp_field none v = err (host 1)
  regexp_field (some pattern) (text s) = ok (regexp_match pattern s)
  regexp_field (some pattern) (bytes (some s)) = ok (regexp_match pattern s)
  regexp_field (some pattern) (bytes none) = ok (regexp_match pattern List.[])
  regexp_field (some pattern) v = err (host 0)

  -- MatchField of each field matcher
  unfoldable pub match_field : FieldMatcher Float → Value Float → Outcome Bool
  unfolding in_match regexp_field
  match_field (cmp tok x) v = compare_values H v x tok
  match_field (strict_eq x) v = ok (deep_equal v x)
  match_field (in_list l) v = in_match l v
  match_field (regexp pattern) v = regexp_field pattern v
  match_field (custom_field f) v = f v

  -- a field of a struct
  match_struct : FieldMatcher Float → Option (Value Float) → Outcome Bool
  unfolding match_field
  match_struct m none = err unknown_field
  match_struct m (some v) = match_field m v

  -- a path of a JSON record
  unfoldable pub match_json : FieldMatcher Float → Option (Json Float) → Outcome Bool
  unfolding match_field json_value
  match_json m none = ok false
  match_json m (some j) = match_field m (json_value j)

  -- fieldMatcherDelegate.MatchValue
  unfoldable pub match_delegate : Bytes → FieldMatcher Float → Input Float → Outcome Bool
  unfolding match_struct match_json
  match_delegate field m (raw r) = match_json m (gjson_get r field)
  match_delegate field m (struct fields) = match_struct m (fields field)
  match_delegate field m nothing = err unknown_field

  compare_fields : Option (Value Float) → Option (Value Float) → Token → Outcome Bool
  compare_fields none _ tok = err unknown_field
  compare_fields (some x) none tok = err unknown_field
  compare_fields (some x) (some y) tok = compare_values H x y tok

  -- field2fieldMatcherDelegate.Match: FieldByName panics on a value that is no struct
  unfoldable pub match_field2 : Bytes → Bytes → Token → Input Float → Outcome Bool
  unfolding compare_fields
  match_field2 f g tok (struct fields) = compare_fields (fields f) (fields g) tok
  match_field2 f g tok (raw r) = panic
  match_field2 f g tok nothing = panic

-- ===== src/Sql/Convert.antt =====
-- sql.go: convertSQLValue, from the values of literals and arguments to the types of fields.
use storm_rev.Base.{
  [], ℕ, suc, ◌-◌, ◌%◌, ◌^◌, ℤ, pos, negsuc, ltb, Bool, ◌&&◌, not, Option, none, some, Outcome, ok,
  err, incompatible_value, host, ◌>>=◌, leb_ℤ, ltb_ℤ, if◌then◌else◌,
}
use storm_rev.Base.Bytes.{Bytes}
use storm_rev.Value.{
  Value, invalid, nil_ptr, boolean, int, uint, float, text, bytes, time, time_ptr, ptr, Host,
}

-- The type of a field: the kinds with their bits, and pointers to them.
pub data Target : Type 0 where
  int_of uint_of float_of : ℕ → Target
  string_kind bool_kind bytes_kind time_kind : Target
  pointer_to : Target → Target

-- strconv, time.Parse, and the conversions of Go that read or write floating point or runes; the
-- identity of a new pointer. `overflow_float` is OverflowFloat and `round_float` the conversion of a
-- float to a width; `is_array` tells an array from a struct.
pub record Conversions (F : Type 0) : Type 0 where
  pub parse_int : Bytes → Option ℤ
  pub parse_uint : Bytes → Option ℕ
  pub parse_bool : Bytes → Option Bool
  pub parse_time : Bytes → Option ℤ
  pub float_to_int : ℕ → F → ℤ
  pub float_to_uint : ℕ → F → ℕ
  pub overflow_float : ℕ → F → Bool
  pub round_float : ℕ → F → F
  pub is_array : ℕ → Bool
  pub rune_text : ℤ → Bytes
  pub address : Value F → ℕ

-- the lowest bits of an int64, and the signed number of them
abbrev pub low_bits : ℕ → ℤ → ℕ
low_bits w (pos n) = n % 2 ^ w
low_bits w (negsuc n) = (2 ^ 64 - suc n) % 2 ^ w

abbrev pub signed_of : ℕ → ℕ → ℤ
signed_of w u = if ltb u (2 ^ (w - 1)) then pos u else negsuc (2 ^ w - suc u)

-- OverflowInt and OverflowUint
abbrev pub overflow_int : ℕ → ℤ → Bool
overflow_int w z = not (leb_ℤ (negsuc (2 ^ (w - 1) - 1)) z && ltb_ℤ z (pos (2 ^ (w - 1))))

abbrev pub overflow_uint : ℕ → ℕ → Bool
overflow_uint w n = not (ltb n (2 ^ w))

module _ (H : Host) (C : Conversions (H.Float)) where
  open H use {Float, float_of_int, float_of_uint, parse_float}
  open C use {
    parse_int, parse_uint, parse_bool, parse_time, float_to_int, float_to_uint, overflow_float,
    round_float, rune_text, address,
  }

  -- the text of an argument, at the types that a string does not convert to
  unfoldable pub parse_text : Bytes → Target → Outcome (Value Float)
  parse_text s (int_of w) = elim (parse_int s) [
    | none ↦ err incompatible_value
    | some z ↦ if overflow_int w z then err incompatible_value else ok (int z)
  ]
  parse_text s (uint_of w) = elim (parse_uint s) [
    | none ↦ err incompatible_value
    | some n ↦ if overflow_uint w n then err incompatible_value else ok (uint n)
  ]
  parse_text s (float_of w) = elim (parse_float s) [
    | none ↦ err incompatible_value
    | some x ↦ if overflow_float w x then err incompatible_value else ok (float (round_float w x))
  ]
  parse_text s bool_kind = elim (parse_bool s) [ none ↦ err (host 1) | some b ↦ ok (boolean b) ]
  parse_text s time_kind = elim (parse_time s) [ none ↦ err (host 2) | some t ↦ ok (time t) ]
  parse_text s string_kind = ok (text s)
  parse_text s bytes_kind = ok (bytes (some s))
  parse_text s (pointer_to t) = err incompatible_value

  -- AssignableTo and ConvertibleTo with Convert, at a type that is no pointer, and else the switch
  unfoldable pub convert_plain : Value Float → Target → Outcome (Value Float)
  unfolding parse_text
  convert_plain (int z) (int_of w) = ok (int (signed_of w (low_bits w z)))
  convert_plain (int z) (uint_of w) = ok (uint (low_bits w z))
  convert_plain (int z) (float_of w) = ok (float (round_float w (float_of_int z)))
  convert_plain (int z) string_kind = ok (text (rune_text z))
  convert_plain (uint n) (int_of w) = ok (int (signed_of w (n % 2 ^ w)))
  convert_plain (uint n) (uint_of w) = ok (uint (n % 2 ^ w))
  convert_plain (uint n) (float_of w) = ok (float (round_float w (float_of_uint n)))
  convert_plain (uint n) string_kind = ok (text (rune_text (pos n)))
  convert_plain (float x) (int_of w) = ok (int (float_to_int w x))
  convert_plain (float x) (uint_of w) = ok (uint (float_to_uint w x))
  convert_plain (float x) (float_of w) = ok (float (round_float w x))
  convert_plain (text s) t = parse_text s t
  convert_plain (boolean b) bool_kind = ok (boolean b)
  convert_plain (bytes b) bytes_kind = ok (bytes b)
  convert_plain (bytes (some b)) string_kind = ok (text b)
  convert_plain (bytes none) string_kind = ok (text [])
  convert_plain (time t) time_kind = ok (time t)
  convert_plain _ _ = err incompatible_value

  -- the pointer to a converted value
  abbrev pub point_to : Value Float → Value Float
  point_to (time t) = time_ptr (some t)
  point_to v = ptr (address v)

  -- what a nil becomes
  abbrev pub convert_nil : Target → Outcome (Value Float)
  convert_nil (pointer_to time_kind) = ok (time_ptr none)
  convert_nil (pointer_to t) = ok nil_ptr
  convert_nil bytes_kind = ok (bytes none)
  convert_nil _ = err incompatible_value

  -- convertSQLValue at a type, on a value that is not nil
  unfoldable pub convert_some : Value Float → Target → Outcome (Value Float)
  unfolding convert_plain
  convert_some v (pointer_to t) = convert_some v t >>= λ c. ok (point_to c)
  convert_some v t = convert_plain v t

  -- convertSQLValue; `none` is a nil type
  unfoldable pub convert_value : Value Float → Option Target → Outcome (Value Float)
  unfolding convert_some
  convert_value v none = ok v
  convert_value invalid (some t) = convert_nil t
  convert_value v (some t) = convert_some v t

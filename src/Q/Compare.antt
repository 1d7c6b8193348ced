-- ===== src/Q/Compare.antt =====
-- q/compare.go: the comparison of two dynamic values.
pub mod Laws
use storm_rev.Base.{
  ℕ, ◌+◌, ◌-◌, ◌^◌, Ordering, ℤ, pos, negsuc, compare_ℤ, Bool, true, false, ◌&&◌, ◌||◌, Option,
  none, some, Outcome, ok, err, panic, ◌>>=◌, ltb, if◌then◌else◌,
}
use storm_rev.Base.Bytes.{compare_bytes}
use storm_rev.Value.{
  Token, eql, lss, leq, gtr, geq, Value, invalid, nil_ptr, int, uint, float, text, bytes, nil_slice,
  slice, time, time_ptr, ptr, Host,
}
use Prim.Native.Nat.{compare}

-- constant.Compare on two exact values
unfoldable pub by_token : Token → Ordering → Bool
by_token eql Ordering.eq = true
by_token eql _ = false
by_token lss Ordering.lt = true
by_token lss _ = false
by_token leq Ordering.gt = false
by_token leq _ = true
by_token gtr Ordering.gt = true
by_token gtr _ = false
by_token geq Ordering.lt = false
by_token geq _ = true

-- int64(u) and uint64(i)
unfoldable pub to_int64 : ℕ → ℤ
to_int64 u = if ltb u (2 ^ 63) then pos u else negsuc (2 ^ 64 - 1 - u)

unfoldable pub to_uint64 : ℤ → ℕ
to_uint64 (pos n) = n
to_uint64 (negsuc n) = 2 ^ 64 - 1 - n

module _ {F : Type 0} where
  -- Kind() is Ptr
  is_pointer : Value F → Bool
  is_pointer nil_ptr = true
  is_pointer (ptr n) = true
  is_pointer (time_ptr t) = true
  is_pointer _ = false

  -- Kind() is Slice
  pub is_slice : Value F → Bool
  is_slice (bytes b) = true
  is_slice nil_slice = true
  is_slice (slice vs) = true
  is_slice _ = false

  is_invalid : Value F → Bool
  is_invalid invalid = true
  is_invalid _ = false

  -- `!v.IsValid() || v.IsNil()`; IsNil panics on a kind that has no nil
  is_nil : Value F → Outcome Bool
  is_nil invalid = ok true
  is_nil nil_ptr = ok true
  is_nil (ptr n) = ok false
  is_nil (time_ptr none) = ok true
  is_nil (time_ptr (some t)) = ok false
  is_nil (bytes none) = ok true
  is_nil (bytes (some b)) = ok false
  is_nil nil_slice = ok true
  is_nil (slice vs) = ok false
  is_nil _ = panic

  -- the first case of the switch; the second test of its second line reads `ak`, as the source does
  both_nil : Value F → Value F → Outcome Bool
  unfolding is_pointer is_slice is_invalid is_nil
  both_nil a b =
      if (is_pointer a || is_slice a || is_invalid a)
        && (is_pointer b || is_slice a || is_invalid b)
      then (do nil_a ← is_nil a; if nil_a then is_nil b else ok false)
      else ok false

  -- The instant of a time.Time or a non-nil *time.Time; the outer `none` is another type, the
  -- inner `none` a nil pointer.
  instant : Value F → Option (Option ℤ)
  instant (time t) = some (some t)
  instant (time_ptr t) = some t
  instant _ = none

-- Equal and Before give 1 against 1, 2 or 0
compare_instants : Option ℤ → Option ℤ → Token → Bool
unfolding by_token
compare_instants none _ tok = true
compare_instants (some x) none tok = true
compare_instants (some x) (some y) tok = by_token tok (compare_ℤ x y)

module _ (H : Host) where
  open H use {Float, float_of_int, float_of_uint, parse_float, compare_float, deep_equal}

  against_text : Float → Token → Option Float → Option Bool
  against_text x tok none = some false
  against_text x tok (some y) = some (compare_float x tok y)

  -- the numeric and string cases of the switch; `none` falls out of it
  compare_kinds : Value Float → Value Float → Token → Option Bool
  unfolding by_token to_int64 to_uint64 against_text
  compare_kinds (int i) (int j) tok = some (by_token tok (compare_ℤ i j))
  compare_kinds (int i) (uint u) tok = some (by_token tok (compare_ℤ i (to_int64 u)))
  compare_kinds (int i) (float y) tok = some (compare_float (float_of_int i) tok y)
  compare_kinds (int i) (text s) tok = against_text (float_of_int i) tok (parse_float s)
  compare_kinds (uint u) (uint w) tok = some (by_token tok (compare u w))
  compare_kinds (uint u) (int j) tok = some (by_token tok (compare u (to_uint64 j)))
  compare_kinds (uint u) (float y) tok = some (compare_float (float_of_uint u) tok y)
  compare_kinds (uint u) (text s) tok = against_text (float_of_uint u) tok (parse_float s)
  compare_kinds (float x) (float y) tok = some (compare_float x tok y)
  compare_kinds (float x) (int j) tok = some (compare_float x tok (float_of_int j))
  compare_kinds (float x) (uint w) tok = some (compare_float x tok (float_of_uint w))
  compare_kinds (float x) (text s) tok = against_text x tok (parse_float s)
  compare_kinds (text s) (text t) tok = some (by_token tok (compare_bytes s t))
  compare_kinds _ _ tok = none

  compare_times : Option (Option ℤ) → Option (Option ℤ) → Token → Option Bool
  unfolding compare_instants
  compare_times (some x) (some y) tok = some (compare_instants x y tok)
  compare_times _ _ tok = none

  -- the return at the end of the function
  fall_back : Value Float → Value Float → Token → Bool
  fall_back a b eql = deep_equal a b
  fall_back a b _ = false

  after_switch : Value Float → Value Float → Token → Bool
  unfolding compare_times instant fall_back
  after_switch a b tok = elim (compare_times (instant a) (instant b) tok) [
    | some r ↦ r
    | none ↦ fall_back a b tok
  ]

  unfoldable pub compare_values : Value Float → Value Float → Token → Outcome Bool
  unfolding both_nil compare_kinds after_switch
  compare_values a b tok = do
    nils ← both_nil a b
    if nils
        then ok true
        else ok (elim (compare_kinds a b tok) [ some r ↦ r | none ↦ after_switch a b tok ])

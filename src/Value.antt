-- ===== src/Value.antt =====
-- The Go values that matchers compare, and what the program takes from the packages it calls
-- (floating point, gjson, regexp, reflect.DeepEqual).
use storm_rev.Base.{ℕ, ℤ, Bool, Option, Error, Outcome}
use storm_rev.Base.Bytes.{Bytes}

-- go/token, as far as q uses it
pub data Token : Type 0 where
  eql lss leq gtr geq : Token

-- A value in an `any`. `int` is any signed kind and `uint` any unsigned kind; `bytes` is a
-- []byte and `slice` any other slice; `time` and `time_ptr` are time.Time and *time.Time, by the
-- instant; `nil_ptr` and `ptr` are a nil and a non-nil pointer to another type; `struct_val` is a
-- struct or array. `none` is a nil slice or pointer. Maps, channels and functions are left out.
mutual
  pub data Value (F : Type 0) : Type 0 where
    invalid nil_ptr : Value F
    boolean : Bool → Value F
    int : ℤ → Value F
    uint : ℕ → Value F
    float : F → Value F
    text : Bytes → Value F
    bytes : Option Bytes → Value F
    nil_slice : Value F
    slice : Values F → Value F
    time : ℤ → Value F
    time_ptr : Option ℤ → Value F
    ptr struct_val : ℕ → Value F

  pub data Values (F : Type 0) : Type 0 where
    nil : Values F
    cons : Value F → Values F → Values F

-- gjson.Result by its Type; a path that does not exist is `none` of an `Option`
pub data Json (F : Type 0) : Type 0 where
  string : Bytes → Json F
  number : F → Json F
  json_true json_false null : Json F
  raw_json : Bytes → Json F

-- A struct value by its FieldByName; `none` is a field that the type does not have.
abbrev pub Fields : Type 0 → Type 0
Fields F = Bytes → Option (Value F)

-- What the code calls and does not implement. `compare_float` is go/constant.Compare on two
-- MakeFloat64 values, `gjson_get` is gjson.GetBytes; `regexp_compiles` tells whether
-- regexp.Compile accepts a pattern, and `regexp_match` matches a text against an accepted one.
-- `decode` is the codec's Unmarshal into a new struct: what stands in the struct afterwards, and
-- the error. `decode_onto` is its Unmarshal into a struct that holds values,
-- which may stay where the record has none: what stands in the struct afterwards. `marshal` is its
-- Marshal. `number_key` is binary.Write, big endian, at the width of the
-- number's type. `float_less` is `<`. `zero_value` is isZero of
-- extract.go (reflect.DeepEqual with reflect.Zero) on floats, times and structs. `pointed` is what a
-- pointer points to, through all its levels.
pub record Host : Type 1 where
  pub Float : Type 0
  pub float_of_int : ℤ → Float
  pub float_of_uint : ℕ → Float
  pub parse_float : Bytes → Option Float
  pub compare_float : Float → Token → Float → Bool
  pub deep_equal : Value Float → Value Float → Bool
  pub gjson_get : Bytes → Bytes → Option (Json Float)
  pub regexp_compiles : Bytes → Bool
  pub regexp_match : Bytes → Bytes → Bool
  pub decode : Bytes → Fields Float × Option Error
  pub decode_onto : Fields Float → Bytes → Fields Float
  pub marshal : Value Float → Outcome Bytes
  pub number_key : Value Float → Bytes
  pub float_less : Float → Float → Bool
  pub zero_value : Value Float → Bool
  pub pointed : ℕ → Value Float

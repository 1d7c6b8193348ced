-- ===== src/Query/Order.antt =====
-- compareValue and less of sink.go: the order of records by their fields. toBytes of storm.go.
pub mod Laws
use storm_rev.Base.{
  ℤ, compare_ℤ, Bool, true, false, none, some, List, [], ◌∷◌, Outcome, ok, err, panic, not_found,
  Ordering, ◌>>=◌, if◌then◌else◌,
}
use storm_rev.Base.Bytes.{Bytes, compare_bytes, swap}
use storm_rev.Value.{Value, invalid, int, uint, float, text, bytes, time, struct_val, Fields, Host}
use Prim.Native.Nat.{compare}

module _ (H : Host) where
  open H use {Float, marshal, number_key, float_less}

  -- toBytes; a nil value has no bytes
  unfoldable pub to_bytes : Value Float → Outcome Bytes
  to_bytes invalid = ok []
  to_bytes (bytes none) = ok []
  to_bytes (bytes (some b)) = ok b
  to_bytes (text s) = ok s
  to_bytes (int i) = ok (number_key (int i))
  to_bytes (uint u) = ok (number_key (uint u))
  to_bytes v = marshal v

  compare_floats : Float → Float → Ordering
  compare_floats x y =
      if float_less x y then Ordering.lt else if float_less y x then Ordering.gt else Ordering.eq

  -- the last case of the switch: values compared by their bytes
  compare_encoded : Outcome Bytes → Outcome Bytes → Outcome Ordering
  compare_encoded (ok l) (ok r) = ok (compare_bytes l r)
  compare_encoded (ok l) (err e) = ok Ordering.gt
  compare_encoded (ok l) panic = panic
  compare_encoded (err e) _ = ok Ordering.lt
  compare_encoded panic _ = panic

  -- Before, and else 1
  compare_times : ℤ → ℤ → Ordering
  compare_times s t = elim (compare_ℤ s t) [ Ordering.lt ↦ Ordering.lt | _ ↦ Ordering.gt ]

  -- compareValue, whose -1, 0 and 1 are an Ordering. The accessor of the right value panics where
  -- its kind is another than the left value's.
  unfoldable pub compare_value : Value Float → Value Float → Outcome Ordering
  unfolding compare_floats compare_encoded compare_times to_bytes
  compare_value (int i) (int j) = ok (compare_ℤ i j)
  compare_value (int i) _ = panic
  compare_value (uint u) (uint w) = ok (compare u w)
  compare_value (uint u) _ = panic
  compare_value (float x) (float y) = ok (compare_floats x y)
  compare_value (float x) _ = panic
  compare_value (text s) (text t) = ok (compare_bytes s t)
  compare_value (text s) _ = panic
  compare_value (time s) (time t) = ok (compare_times s t)
  compare_value (time s) _ = ok Ordering.eq
  compare_value (struct_val n) _ = ok Ordering.eq
  compare_value l r = compare_encoded (to_bytes l) (to_bytes r)

  -- the product with the direction
  abbrev directed : Bool → Ordering → Ordering
  directed reverse o = if reverse then swap o else o

  -- sorter.less; the ErrNotFound that it sends on the channel is its result here
  unfoldable pub less : List Bytes → Bool → Fields Float → Fields Float → Outcome Bool
  unfolding compare_value
  less [] reverse l r = ok false
  less (f ∷ fs) reverse l r =
      let rest = less fs reverse l r in
      elim (l f) [
        | none ↦ err not_found
        | some x ↦ elim (r f) [
          | none ↦ err not_found
          | some y ↦ compare_value x y >>= λ o. elim (directed reverse o) [
            | Ordering.lt ↦ ok true
            | Ordering.gt ↦ ok false
            | Ordering.eq ↦ rest
          ]
        ]
      ]

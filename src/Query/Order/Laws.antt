-- ===== src/Query/Order/Laws.antt =====
-- What compareValue of sink.go makes of equal times.
use storm_rev.Base.{◌≡◌, true, false, some, List, ◌∷◌, ok, ℤ, Ordering, arith}
use storm_rev.Base.Bytes.{Bytes}
use storm_rev.Value.{time, Fields, Host}
use storm_rev.Query.Order.{compare_times, compare_value, less}

module _ (H : Host) where
  open H use {Float}

  same_time : (t : ℤ) → compare_value H (time t) (time t) ≡ ok Ordering.gt
  unfolding compare_value compare_times
  same_time t = ground arith

  -- Records with the same time in the first OrderBy field: with Reverse each is less than the other,
  -- and without it neither is, whatever the fields that follow hold.
  pub less-same_time :
      (t : ℤ) (f : Bytes) (fs : List Bytes) (l r : Fields Float)
      → l f ≡ some (time t)
      → r f ≡ some (time t)
      → (less H (f ∷ fs) true l r ≡ ok true)
        × (less H (f ∷ fs) true r l ≡ ok true)
        × (less H (f ∷ fs) false l r ≡ ok false)
        × (less H (f ∷ fs) false r l ≡ ok false)
  unfolding less
  less-same_time t f fs l r h k = ground (arith, h, k, same_time t)

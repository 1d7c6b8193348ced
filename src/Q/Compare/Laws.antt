-- ===== src/Q/Compare/Laws.antt =====
-- What q/compare.go makes of numbers of mixed kinds, and of nil slices.
use storm_rev.Base.{ℕ, ◌^◌, ◌≤◌, ◌<◌, ◌≡◌, ℤ, pos, true, false, ok, arith, compare_ℤ}
use storm_rev.Value.{Token, lss, gtr, int, uint, Host}
use storm_rev.Q.Compare.{compare_values, by_token}

module _ (H : Host) where
  open H use {Float}

  -- A signed number on the left of an unsigned one below 2^63 compares with it as the integers that
  -- they stand for, under every operator.
  pub compare_mixed :
      (i : ℤ) (u : ℕ) (tok : Token)
      → u < 2 ^ 63
      → (compare_values H (int i) (uint u) tok ≡ ok (by_token tok (compare_ℤ i (pos u))))
  unfolding compare_values
  compare_mixed i u tok h = ground arith

  -- An unsigned number of 2^63 or more is taken modulo 2^64: every non-negative signed number
  -- counts as greater, and never as less.
  pub compare_mixed_wraps :
      (n u : ℕ)
      → 2 ^ 63 ≤ u
      → u < 2 ^ 64
      → (compare_values H (int (pos n)) (uint u) gtr ≡ ok true)
        × (compare_values H (int (pos n)) (uint u) lss ≡ ok false)
  unfolding compare_values
  compare_mixed_wraps n u h k = ground arith

-- ===== src/Key/Order.antt =====
-- Numbers come back from their bytes, and the bytes of numbers that are not negative are in their order.
use storm_rev.Base.{
  ℕ, zero, suc, ◌+◌, ◌*◌, ◌/◌, ◌%◌, ◌^◌, ◌<◌, ◌≡◌, refl, sym, ap, ◌∙◌, ℤ, pos, negsuc, Ordering,
  some, [], ◌∷◌, ◌++◌, length, length-append, arith,
}
use Prim.Native.Nat.{compare}
use storm_rev.Base.Bytes.{Bytes, compare_bytes}
use storm_rev.Key.{big_endian, bits, number_to_bytes, from_big_endian, signed, number_from_bytes}

from_append :
    (h : ℕ) (bs : Bytes) (b : ℕ) → from_big_endian h (bs ++ b ∷ []) ≡ from_big_endian h bs * 256 + b
unfolding from_big_endian
from_append h [] b = refl
from_append h (c ∷ bs) b = from_append (h * 256 + c) bs b

lower_part : (n x : ℕ) → x < 256 ^ suc n → x / 256 < 256 ^ n
lower_part n x h = omega (arith, h)

from-big_endian : (n x : ℕ) → x < 256 ^ n → from_big_endian 0 (big_endian n x) ≡ x
unfolding from_big_endian big_endian
from-big_endian zero x h = omega (arith, h)
from-big_endian (suc n) x h =
    from_append 0 (big_endian n (x / 256)) (x % 256)
    ∙ rw (from-big_endian n (x / 256) (lower_part n x h)) (omega arith)

-- An int64.
abbrev pub IsInt64 : ℤ → Type 0
IsInt64 (pos n) = n < 2 ^ 63
IsInt64 (negsuc n) = n < 2 ^ 63

signed-bits : (i : ℤ) → IsInt64 i → signed (bits i) ≡ i
unfolding signed bits
signed-bits (pos n) h = ground arith
signed-bits (negsuc n) h = ground arith

bits_below : (i : ℤ) → bits i < 2 ^ 64
unfolding bits
bits_below (pos n) = omega arith
bits_below (negsuc n) = omega arith

-- numberfromb reads every int64, negative ones too, back from the bytes that numbertob makes of it.
pub number_from_bytes-number_to_bytes :
    (i : ℤ) → IsInt64 i → number_from_bytes (number_to_bytes i) ≡ some i
unfolding number_from_bytes number_to_bytes big_endian
number_from_bytes-number_to_bytes i h =
    ap (λ u. some (signed u)) (from-big_endian 8 (bits i) (bits_below i))
    ∙ ap some (signed-bits i h)

length-big_endian : (n x : ℕ) → length (big_endian n x) ≡ n
unfolding big_endian
length-big_endian zero x = refl
length-big_endian (suc n) x =
    omega (
      arith,
      length-append (big_endian n (x / 256)) ((x % 256) ∷ []),
      length-big_endian n (x / 256),
    )

then_compare : Ordering → Ordering → Ordering
then_compare Ordering.eq o = o
then_compare Ordering.lt o = Ordering.lt
then_compare Ordering.gt o = Ordering.gt

compare_append :
    (xs ys : Bytes) (a b : ℕ)
    → length xs ≡ length ys
    → compare_bytes (xs ++ a ∷ []) (ys ++ b ∷ []) ≡ then_compare (compare_bytes xs ys) (compare a b)
unfolding compare_bytes then_compare
compare_append [] [] a b h = ground arith
compare_append [] (y ∷ ys) a b h = absurd (omega (arith, h))
compare_append (x ∷ xs) [] a b h = absurd (omega (arith, h))
compare_append (x ∷ xs) (y ∷ ys) a b h = ground (arith, compare_append xs ys a b (omega (arith, h)))

by_parts :
    (x y : ℕ)
    → then_compare (compare (x / 256) (y / 256)) (compare (x % 256) (y % 256)) ≡ compare x y
unfolding then_compare
by_parts x y = ground arith

compare-big_endian :
    (n x y : ℕ)
    → x < 256 ^ n
    → y < 256 ^ n
    → compare_bytes (big_endian n x) (big_endian n y) ≡ compare x y
unfolding big_endian compare_bytes
compare-big_endian zero x y h k = ground (arith, h, k)
compare-big_endian (suc n) x y h k =
    compare_append (big_endian n (x / 256)) (big_endian n (y / 256)) (x % 256) (y % 256)
      (length-big_endian n (x / 256) ∙ sym (length-big_endian n (y / 256)))
    ∙ ap (λ o. then_compare o (compare (x % 256) (y % 256)))
        (compare-big_endian n (x / 256) (y / 256) (lower_part n x h) (lower_part n y k))
    ∙ by_parts x y

small : (a : ℕ) → a < 2 ^ 63 → a % 2 ^ 64 ≡ a
small a h = omega (arith, h)

-- The keys of int64 numbers that are not negative stand in the order of the numbers, so that a walk
-- of a bucket meets such ids in their order.
pub number_to_bytes_order :
    (a b : ℕ)
    → a < 2 ^ 63
    → b < 2 ^ 63
    → compare_bytes (number_to_bytes (pos a)) (number_to_bytes (pos b)) ≡ compare a b
unfolding number_to_bytes bits
number_to_bytes_order a b h k =
    compare-big_endian 8 (a % 2 ^ 64) (b % 2 ^ 64) (omega arith) (omega arith)
    ∙ rw (small a h, small b k) refl

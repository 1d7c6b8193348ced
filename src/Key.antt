-- ===== src/Key.antt =====
-- storm.go: the bytes of a number (numbertob, by binary.Write big endian) and back (numberfromb).
pub mod Order
use storm_rev.Base.{
  ℕ, zero, suc, ◌+◌, ◌-◌, ◌*◌, ◌/◌, ◌%◌, ◌^◌, ℤ, pos, negsuc, ltb, Option, none, some, List, [],
  ◌∷◌, ◌++◌, length, ◌==◌, if◌then◌else◌,
}
use storm_rev.Base.Bytes.{Bytes}

-- the `n` bytes of a number, the highest first
unfoldable pub big_endian : ℕ → ℕ → Bytes
big_endian zero x = []
big_endian (suc n) x = big_endian n (x / 256) ++ (x % 256) ∷ []

-- an int64 as the uint64 of the same bits
unfoldable pub bits : ℤ → ℕ
bits (pos n) = n % 2 ^ 64
bits (negsuc n) = (2 ^ 64 - suc n) % 2 ^ 64

-- numbertob on an int64
unfoldable pub number_to_bytes : ℤ → Bytes
unfolding big_endian bits
number_to_bytes i = big_endian 8 (bits i)

-- the number of big-endian bytes, behind a higher part
unfoldable pub from_big_endian : ℕ → Bytes → ℕ
from_big_endian high [] = high
from_big_endian high (b ∷ bs) = from_big_endian (high * 256 + b) bs

-- the int64 of 64 bits
unfoldable pub signed : ℕ → ℤ
signed u = if ltb u (2 ^ 63) then pos u else negsuc (2 ^ 64 - suc u)

-- numberfromb: binary.Read wants 8 bytes, and reads no more
unfoldable pub number_from_bytes : Bytes → Option ℤ
unfolding from_big_endian signed
number_from_bytes (a ∷ b ∷ c ∷ d ∷ e ∷ f ∷ g ∷ h ∷ rest) =
    some (signed (from_big_endian 0 (a ∷ b ∷ c ∷ d ∷ e ∷ f ∷ g ∷ h ∷ [])))
number_from_bytes _ = none

-- ===== src/Base/Bytes.antt =====
-- Go's byte slices and strings as lists of bytes, with `bytes.Compare`.
use Prim.Native.Char.{code}
use Prim.Native.String.{String}
use Prim.Native.Nat.{ℕ, compare, Ordering}
use mathlib.Core.Path.{◌≡◌, refl}
use mathlib.Core.Logic.{◌↔◌, inl, inr}
use mathlib.Core.Bool.{Bool, true, false}
use mathlib.Core.List.{List, [], ◌∷◌}
use native.Mathlib.Omega.{arith}
use storm_rev.Base.Tests.{Bool-cases}

abbrev pub Bytes : Type 0
Bytes = List ℕ

-- The bytes of an ASCII literal.
abbrev pub ascii : String → Bytes
ascii String.[] = []
ascii (String.◌∷◌ c s) = code c ∷ ascii s

-- bytes.Compare, which is also the order of Go's strings
unfoldable pub compare_bytes : Bytes → Bytes → Ordering
compare_bytes [] [] = Ordering.eq
compare_bytes [] (b ∷ bs) = Ordering.lt
compare_bytes (a ∷ as') [] = Ordering.gt
compare_bytes (a ∷ as') (b ∷ bs) =
    let rest = compare_bytes as' bs in
    elim (compare a b) [
      | Ordering.lt ↦ Ordering.lt
      | Ordering.eq ↦ rest
      | Ordering.gt ↦ Ordering.gt
    ]

abbrev pub swap : Ordering → Ordering
swap Ordering.lt = Ordering.gt
swap Ordering.eq = Ordering.eq
swap Ordering.gt = Ordering.lt

pub compare_bytes_self : (a : Bytes) → compare_bytes a a ≡ Ordering.eq
unfolding compare_bytes
compare_bytes_self [] = refl
compare_bytes_self (a ∷ as') = ground (arith, compare_bytes_self as')

pub compare_bytes-eq : (a b : Bytes) → compare_bytes a b ≡ Ordering.eq → a ≡ b
unfolding compare_bytes
compare_bytes-eq [] [] h = refl
compare_bytes-eq [] (b ∷ bs) h = cc
compare_bytes-eq (a ∷ as') [] h = cc
compare_bytes-eq (a ∷ as') (b ∷ bs) h = ground (arith, compare_bytes-eq as' bs)

pub compare_bytes-swap : (a b : Bytes) → compare_bytes b a ≡ swap (compare_bytes a b)
unfolding compare_bytes
compare_bytes-swap [] [] = refl
compare_bytes-swap [] (b ∷ bs) = refl
compare_bytes-swap (a ∷ as') [] = refl
compare_bytes-swap (a ∷ as') (b ∷ bs) = ground (arith, compare_bytes-swap as' bs)

pub compare_bytes_trans :
    (a b c : Bytes)
    → compare_bytes a b ≡ Ordering.lt
    → compare_bytes b c ≡ Ordering.lt
    → compare_bytes a c ≡ Ordering.lt
unfolding compare_bytes
compare_bytes_trans [] [] c h k = cc
compare_bytes_trans [] (b ∷ bs) [] h k = cc
compare_bytes_trans [] (b ∷ bs) (c ∷ cs) h k = refl
compare_bytes_trans (a ∷ as') [] c h k = cc
compare_bytes_trans (a ∷ as') (b ∷ bs) [] h k = cc
compare_bytes_trans (a ∷ as') (b ∷ bs) (c ∷ cs) h k = ground (arith, compare_bytes_trans as' bs cs)

-- bytes.Equal
abbrev pub bytes_eq : Bytes → Bytes → Bool
bytes_eq a b = elim (compare_bytes a b) [ Ordering.eq ↦ true | _ ↦ false ]

pub bytes_eq_iff : (a b : Bytes) → (bytes_eq a b ≡ true) ↔ (a ≡ b)
bytes_eq_iff a b =
    (λ h. compare_bytes-eq a b (ground arith), λ e. ground (arith, compare_bytes_self a, e))

pub bytes_eq_self : (a : Bytes) → bytes_eq a a ≡ true
bytes_eq_self a = (bytes_eq_iff a a).1 refl

pub bytes_eq_sym : (a b : Bytes) → bytes_eq a b ≡ false → bytes_eq b a ≡ false
bytes_eq_sym a b h = elim (Bool-cases (bytes_eq b a)) [
  | inr n ↦ n
  | inl y ↦ let e : b ≡ a = (bytes_eq_iff b a).0 y in cc (bytes_eq_self a)
]

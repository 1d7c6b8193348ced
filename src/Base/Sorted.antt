-- ===== src/Base/Sorted.antt =====
-- Members of lists, strictly sorted lists, and that a strictly sorted list is determined by its
-- members.
use mathlib.Core.Path.{◌≡◌, refl, sym, ap, ap₂, subst}
use mathlib.Core.Logic.{◌⊎◌, inl, inr}
use mathlib.Core.Bool.{Bool, true}
use mathlib.Core.List.{List, [], ◌∷◌, ◌++◌}
use storm_rev.Base.Tests.{Bool-cases}
use storm_rev.Base.Lists.{All, select}

-- A member of a list, at one of its places.
abbrev pub In : {A : Type 0} → A → List A → Type 0
In x [] = ⊥
In x (y ∷ ys) = (x ≡ y) ⊎ In x ys

-- Each member is before all that follow it.
abbrev pub Sorted : {A : Type 0} → (A → A → Type 0) → List A → Type 0
Sorted lt [] = Unit
Sorted lt (x ∷ xs) = All (lt x) xs × Sorted lt xs

module _ {A : Type 0} where
  pub All-In : (P : A → Type 0) (xs : List A) (x : A) → All P xs → In x xs → P x
  All-In P [] x h m = absurd m
  All-In P (y ∷ ys) x h (inl e) = subst P (sym e) h.0
  All-In P (y ∷ ys) x h (inr m) = All-In P ys x h.1 m

  pub In-All : (P : A → Type 0) (xs : List A) → ((x : A) → In x xs → P x) → All P xs
  In-All P [] h = tt
  In-All P (x ∷ xs) h = (h x (inl refl), In-All P xs (λ y m. h y (inr m)))

  pub In-append_left : (x : A) (xs ys : List A) → In x xs → In x (xs ++ ys)
  In-append_left x [] ys m = absurd m
  In-append_left x (z ∷ xs) ys (inl e) = inl e
  In-append_left x (z ∷ xs) ys (inr m) = inr (In-append_left x xs ys m)

  pub In-append_right : (x : A) (xs ys : List A) → In x ys → In x (xs ++ ys)
  In-append_right x [] ys m = m
  In-append_right x (z ∷ xs) ys m = inr (In-append_right x xs ys m)

  pub In-append_cases : (x : A) (xs ys : List A) → In x (xs ++ ys) → In x xs ⊎ In x ys
  In-append_cases x [] ys m = inr m
  In-append_cases x (z ∷ xs) ys (inl e) = inl (inl e)
  In-append_cases x (z ∷ xs) ys (inr m) = elim (In-append_cases x xs ys m) [
    | inl l ↦ inl (inr l)
    | inr r ↦ inr r
  ]

  pub In-select : (p : A → Bool) (x : A) (xs : List A) → p x ≡ true → In x xs → In x (select p xs)
  In-select p x [] h m = absurd m
  In-select p x (y ∷ ys) h (inl e) = rw (ap p (sym e)) (rw h (inl e))
  In-select p x (y ∷ ys) h (inr m) = elim (Bool-cases (p y)) [
    | inl t ↦ rw t (inr (In-select p x ys h m))
    | inr f ↦ rw f (In-select p x ys h m)
  ]

  -- What `select` keeps was there, and the test accepts it.
  pub select-In : (p : A → Bool) (x : A) (xs : List A) → In x (select p xs) → In x xs × (p x ≡ true)
  select-In p x [] m = absurd m
  select-In p x (y ∷ ys) m = elim (Bool-cases (p y)) [
    | inl t ↦ elim (rw t at m) [
      | inl e ↦ (inl e, rw e t)
      | inr r ↦ let (i, h) = select-In p x ys r in (inr i, h)
    ]
    | inr f ↦ let (i, h) = select-In p x ys (rw f at m) in (inr i, h)
  ]

  pub All-select : (P : A → Type 0) (p : A → Bool) (xs : List A) → All P xs → All P (select p xs)
  All-select P p [] h = tt
  All-select P p (x ∷ xs) h = elim (Bool-cases (p x)) [
    | inl t ↦ rw t (h.0, All-select P p xs h.1)
    | inr f ↦ rw f (All-select P p xs h.1)
  ]

  pub Sorted-select :
      (lt : A → A → Type 0) (p : A → Bool) (xs : List A) → Sorted lt xs → Sorted lt (select p xs)
  Sorted-select lt p [] h = tt
  Sorted-select lt p (x ∷ xs) h = elim (Bool-cases (p x)) [
    | inl t ↦ rw t (All-select (lt x) p xs h.0, Sorted-select lt p xs h.1)
    | inr f ↦ rw f (Sorted-select lt p xs h.1)
  ]

  module _ {lt : A → A → Type 0} (asym : (a b : A) → lt a b → lt b a → ⊥) where
    heads_agree :
        (x y : A) (xs ys : List A)
        → Sorted lt (x ∷ xs)
        → Sorted lt (y ∷ ys)
        → In x (y ∷ ys)
        → In y (x ∷ xs)
        → x ≡ y
    heads_agree x y xs ys sx sy (inl e) my = e
    heads_agree x y xs ys sx sy (inr m) (inl e) = sym e
    heads_agree x y xs ys sx sy (inr m) (inr n) =
        absurd (asym x y (All-In (lt x) xs y sx.0 n) (All-In (lt y) ys x sy.0 m))

    tail_member :
        (x y z : A) (xs ys : List A)
        → Sorted lt (x ∷ xs)
        → x ≡ y
        → In z xs
        → In z (y ∷ ys)
        → In z ys
    tail_member x y z xs ys sx e m (inr n) = n
    tail_member x y z xs ys sx e m (inl f) =
        let here : lt x z = All-In (lt x) xs z sx.0 m in
        let same : x ≡ z = rw e (sym f) in
        absurd
          (asym x x (subst (λ w. lt x w) (sym same) here) (subst (λ w. lt x w) (sym same) here))

    -- Strictly sorted lists with the same members are equal.
    pub Sorted-ext :
        (xs ys : List A)
        → Sorted lt xs
        → Sorted lt ys
        → ((z : A) → In z xs → In z ys)
        → ((z : A) → In z ys → In z xs)
        → xs ≡ ys
    Sorted-ext [] [] sx sy f g = refl
    Sorted-ext [] (y ∷ ys) sx sy f g = absurd (g y (inl refl))
    Sorted-ext (x ∷ xs) [] sx sy f g = absurd (f x (inl refl))
    Sorted-ext (x ∷ xs) (y ∷ ys) sx sy f g =
        let e : x ≡ y = heads_agree x y xs ys sx sy (f x (inl refl)) (g y (inl refl)) in
        ap₂ (λ a l. a ∷ l) e
          (Sorted-ext xs ys sx.1 sy.1 (λ z m. tail_member x y z xs ys sx e m (f z (inr m)))
            (λ z m. tail_member y x z ys xs sy (sym e) m (g z (inr m))))

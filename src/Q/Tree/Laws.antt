-- ===== src/Q/Tree/Laws.antt =====
-- Laws of q/tree.go: what the three loops decide, errors and panics included.
use storm_rev.Base.{◌≡◌, refl, Bool, true, false, not, ◌&&◌, ◌||◌, Outcome, ok, ◌>>=◌, arith}
use storm_rev.Value.{Host}
use storm_rev.Q.Field.{Input}
use storm_rev.Q.Tree.{
  Matcher, Matchers, nil, cons, always, or_all, and_all, not_all, field, field2, custom,
  match_value, match_or, match_and, match_not,
}

module _ {F : Type 0} where
  -- Each matcher of a list, negated.
  abbrev pub negate_all : Matchers F → Matchers F
  negate_all nil = nil
  negate_all (cons x xs) = cons (not_all (cons x nil)) (negate_all xs)

abbrev flip : Outcome Bool → Outcome Bool
flip m = m >>= λ b. ok (not b)

module _ (H : Host) where
  open H use {Float}

  -- Boolean meaning of a tree, with no order of evaluation: `leaf` decides the leaves.
  unfoldable mutual
    pub holds : (Matcher Float → Bool) → Matcher Float → Bool
    holds leaf always = true
    holds leaf (or_all ms) = any_holds leaf ms
    holds leaf (and_all ms) = all_hold leaf ms
    holds leaf (not_all ms) = not (any_holds leaf ms)
    holds leaf (field f m) = leaf (field f m)
    holds leaf (field2 f g tok) = leaf (field2 f g tok)
    holds leaf (custom f) = leaf (custom f)

    pub any_holds : (Matcher Float → Bool) → Matchers Float → Bool
    any_holds leaf nil = false
    any_holds leaf (cons m ms) = holds leaf m || any_holds leaf ms

    pub all_hold : (Matcher Float → Bool) → Matchers Float → Bool
    all_hold leaf nil = true
    all_hold leaf (cons m ms) = holds leaf m && all_hold leaf ms

  -- Every leaf of the tree ends with the answer that `leaf` gives it, and none errs or panics.
  abbrev mutual
    pub Decides : Input Float → (Matcher Float → Bool) → Matcher Float → Type 0
    Decides v leaf always = Unit
    Decides v leaf (or_all ms) = DecidesAll v leaf ms
    Decides v leaf (and_all ms) = DecidesAll v leaf ms
    Decides v leaf (not_all ms) = DecidesAll v leaf ms
    Decides v leaf (field f m) = match_value H (field f m) v ≡ ok (leaf (field f m))
    Decides v leaf (field2 f g tok) = match_value H (field2 f g tok) v ≡ ok (leaf (field2 f g tok))
    Decides v leaf (custom f) = match_value H (custom f) v ≡ ok (leaf (custom f))

    pub DecidesAll : Input Float → (Matcher Float → Bool) → Matchers Float → Type 0
    DecidesAll v leaf nil = Unit
    DecidesAll v leaf (cons m ms) = Decides v leaf m × DecidesAll v leaf ms

  mutual
    unfolding match_value match_or match_and match_not holds any_holds all_hold

    match_value-eq-holds :
        (v : Input Float) (leaf : Matcher Float → Bool) (m : Matcher Float)
        → Decides v leaf m
        → match_value H m v ≡ ok (holds leaf m)
    match_value-eq-holds v leaf always d = refl
    match_value-eq-holds v leaf (or_all ms) d = match_or-eq-any_holds v leaf ms d
    match_value-eq-holds v leaf (and_all ms) d = match_and-eq-all_hold v leaf ms d
    match_value-eq-holds v leaf (not_all ms) d = match_not-eq-any_holds v leaf ms d
    match_value-eq-holds v leaf (field f m) d = d
    match_value-eq-holds v leaf (field2 f g tok) d = d
    match_value-eq-holds v leaf (custom f) d = d

    match_or-eq-any_holds :
        (v : Input Float) (leaf : Matcher Float → Bool) (ms : Matchers Float)
        → DecidesAll v leaf ms
        → match_or H ms v ≡ ok (any_holds leaf ms)
    match_or-eq-any_holds v leaf nil d = refl
    match_or-eq-any_holds v leaf (cons m ms) d =
        ground (arith, match_value-eq-holds v leaf m d.0, match_or-eq-any_holds v leaf ms d.1)

    match_and-eq-all_hold :
        (v : Input Float) (leaf : Matcher Float → Bool) (ms : Matchers Float)
        → DecidesAll v leaf ms
        → match_and H ms v ≡ ok (all_hold leaf ms)
    match_and-eq-all_hold v leaf nil d = refl
    match_and-eq-all_hold v leaf (cons m ms) d =
        ground (arith, match_value-eq-holds v leaf m d.0, match_and-eq-all_hold v leaf ms d.1)

    match_not-eq-any_holds :
        (v : Input Float) (leaf : Matcher Float → Bool) (ms : Matchers Float)
        → DecidesAll v leaf ms
        → match_not H ms v ≡ ok (not (any_holds leaf ms))
    match_not-eq-any_holds v leaf nil d = refl
    match_not-eq-any_holds v leaf (cons m ms) d =
        ground (arith, match_value-eq-holds v leaf m d.0, match_not-eq-any_holds v leaf ms d.1)

  -- Where no leaf of a tree errs, the tree of Or, And and Not matchers ends, without an error, with
  -- its Boolean meaning: the order of the children and the early returns do not matter.
  pub match-eq-holds :
      (m : Matcher Float) (v : Input Float) (leaf : Matcher Float → Bool)
      → Decides v leaf m
      → match_value H m v ≡ ok (holds leaf m)
  match-eq-holds m v leaf d = match_value-eq-holds v leaf m d

  match_not-flip :
      (ms : Matchers Float) (v : Input Float) → match_not H ms v ≡ flip (match_or H ms v)
  unfolding match_value
  match_not-flip nil v = refl
  match_not-flip (cons m ms) v = ground (arith, match_not-flip ms v)

  match_and-negate_all :
      (ms : Matchers Float) (v : Input Float) → match_and H (negate_all ms) v ≡ match_not H ms v
  unfolding match_value
  match_and-negate_all nil v = refl
  match_and-negate_all (cons m ms) v = ground (arith, match_and-negate_all ms v)

  -- Not of several matchers is the negation of their Or, and is the And of their negations, for
  -- every input, errors and panics included.
  pub not_de_morgan :
      (ms : Matchers Float) (v : Input Float)
      → (match_value H (not_all ms) v ≡ (match_value H (or_all ms) v >>= λ b. ok (not b)))
        × (match_value H (and_all (negate_all ms)) v ≡ match_value H (not_all ms) v)
  unfolding match_value
  not_de_morgan ms v = (match_not-flip ms v, match_and-negate_all ms v)

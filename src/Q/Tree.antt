-- ===== src/Q/Tree.antt =====
-- q/tree.go: the tree of matchers, its evaluation and the renaming of its fields.
pub mod Laws
use storm_rev.Base.{Bool, true, false, Option, none, some, Outcome, ok, ◌>>=◌, if◌then◌else◌}
use storm_rev.Base.Bytes.{Bytes}
use storm_rev.Value.{Token, Host}
use storm_rev.Q.Field.{FieldMatcher, Input, match_delegate, match_field2}

-- A Matcher. `field` is a *fieldMatcherDelegate, `field2` a *field2fieldMatcherDelegate, and
-- `custom` a Matcher that a user of the package implements.
mutual
  pub data Matcher (F : Type 0) : Type 0 where
    always : Matcher F
    or_all and_all not_all : Matchers F → Matcher F
    field : Bytes → FieldMatcher F → Matcher F
    field2 : Bytes → Bytes → Token → Matcher F
    custom : (Input F → Outcome Bool) → Matcher F

  pub data Matchers (F : Type 0) : Type 0 where
    nil : Matchers F
    cons : Matcher F → Matchers F → Matchers F

module _ (H : Host) where
  open H use {Float}

  unfoldable mutual
    -- Match, and MatchValue where the matcher has it: for every matcher of the package the two agree
    pub match_value : Matcher Float → Input Float → Outcome Bool
    match_value always v = ok true
    match_value (or_all ms) v = match_or ms v
    match_value (and_all ms) v = match_and ms v
    match_value (not_all ms) v = match_not ms v
    match_value (field f m) v = match_delegate H f m v
    match_value (field2 f g tok) v = match_field2 H f g tok v
    match_value (custom f) v = f v

    -- the loop of or.MatchValue
    pub match_or : Matchers Float → Input Float → Outcome Bool
    match_or nil v = ok false
    match_or (cons m ms) v =
        let rest = match_or ms v in match_value m v >>= λ b. if b then ok true else rest

    -- the loop of and.MatchValue
    pub match_and : Matchers Float → Input Float → Outcome Bool
    match_and nil v = ok true
    match_and (cons m ms) v =
        let rest = match_and ms v in match_value m v >>= λ b. if b then rest else ok false

    -- the loop of not.MatchValue
    pub match_not : Matchers Float → Input Float → Outcome Bool
    match_not nil v = ok true
    match_not (cons m ms) v =
        let rest = match_not ms v in match_value m v >>= λ b. if b then ok false else rest

module _ {F : Type 0} where
  unfoldable mutual
    -- Foreach with a SetField in its callback, on a tree or on a single field matcher
    pub rename : (Bytes → Bytes) → Matcher F → Matcher F
    rename r (or_all ms) = or_all (rename_all r ms)
    rename r (and_all ms) = and_all (rename_all r ms)
    rename r (not_all ms) = not_all (rename_all r ms)
    rename r (field f m) = field (r f) m
    rename r m = m

    pub rename_all : (Bytes → Bytes) → Matchers F → Matchers F
    rename_all r nil = nil
    rename_all r (cons m ms) = cons (rename r m) (rename_all r ms)

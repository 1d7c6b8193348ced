-- ===== src/Q/Build.antt =====
-- The constructors of q/tree.go and q/regexp.go.
use storm_rev.Base.{none, some, if◌then◌else◌}
use storm_rev.Base.Bytes.{Bytes}
use storm_rev.Value.{Token, eql, lss, leq, gtr, geq, Value, Host}
use storm_rev.Q.Field.{cmp, strict_eq, in_list, regexp}
use storm_rev.Q.Tree.{Matcher, nil, cons, or_all, and_all, not_all, field, field2}

module _ {F : Type 0} where
  unfoldable pub eq : Bytes → Value F → Matcher F
  eq f v = field f (cmp eql v)

  unfoldable pub strict : Bytes → Value F → Matcher F
  strict f v = field f (strict_eq v)

  unfoldable pub gt : Bytes → Value F → Matcher F
  gt f v = field f (cmp gtr v)

  unfoldable pub gte : Bytes → Value F → Matcher F
  gte f v = field f (cmp geq v)

  unfoldable pub lt : Bytes → Value F → Matcher F
  lt f v = field f (cmp lss v)

  unfoldable pub lte : Bytes → Value F → Matcher F
  lte f v = field f (cmp leq v)

  -- EqF, GtF, GteF, LtF and LteF, by the token
  unfoldable pub compare_f : Token → Bytes → Bytes → Matcher F
  compare_f tok f g = field2 f g tok

  unfoldable pub is_in : Bytes → Value F → Matcher F
  is_in f v = field f (in_list v)

  unfoldable pub both : Matcher F → Matcher F → Matcher F
  both a b = and_all (cons a (cons b nil))

  unfoldable pub either : Matcher F → Matcher F → Matcher F
  either a b = or_all (cons a (cons b nil))

  unfoldable pub negate : Matcher F → Matcher F
  negate a = not_all (cons a nil)

-- Re: the cache returns what Compile returned before
module _ (H : Host) where
  open H use {Float, regexp_compiles}

  unfoldable pub matches_re : Bytes → Bytes → Matcher Float
  matches_re f pattern = field f (regexp (if regexp_compiles pattern then some pattern else none))

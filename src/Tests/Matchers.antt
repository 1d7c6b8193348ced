-- ===== src/Tests/Matchers.antt =====
-- The properties of matchers on records of the toy host.
use storm_rev.Base.{◌^◌, ◌≡◌, refl, ℤ, pos, negsuc, Bool, true, false, not, ok, ◌>>=◌, arith}
use storm_rev.Base.Bytes.{ascii, compare_bytes}
use storm_rev.Value.{eql, lss, gtr, geq, int, uint}
use storm_rev.Q.Compare.{compare_values, by_token}
use storm_rev.Q.Compare.Laws.{compare_mixed, compare_mixed_wraps}
use storm_rev.Q.Field.{cmp, raw, match_delegate}
use storm_rev.Q.Tree
use storm_rev.Q.Tree.{
  Matcher, Matchers, always, or_all, and_all, not_all, field, match_value, rename,
}
use storm_rev.Q.Tree.Laws.{holds, negate_all, match-eq-holds, not_de_morgan}
use storm_rev.Tests.Toy.{toy, doc_one}

compare_mixed_example : compare_values toy (int (negsuc 0)) (uint 3) lss ≡ ok true
unfolding by_token
compare_mixed_example = compare_mixed toy (negsuc 0) 3 lss (omega arith)

compare_mixed_wraps_example :
    (compare_values toy (int (pos 1)) (uint (2 ^ 63)) gtr ≡ ok true)
    × (compare_values toy (int (pos 1)) (uint (2 ^ 63)) lss ≡ ok false)
compare_mixed_wraps_example = compare_mixed_wraps toy 1 (2 ^ 63) (omega arith) (omega arith)

abbrev five : Matcher ℤ
five = field (ascii "a") (cmp eql (int (pos 5)))

abbrev six : Matcher ℤ
six = field (ascii "a") (cmp geq (int (pos 6)))

abbrev pair : Matchers ℤ
pair = Tree.cons five (Tree.cons six Tree.nil)

abbrev by_kind : Matcher ℤ → Bool
by_kind (field f (cmp eql x)) = true
by_kind _ = false

match-eq-holds_example : match_value toy (not_all pair) (raw doc_one) ≡ ok false
unfolding match_value match_delegate compare_values compare_bytes holds
match-eq-holds_example = match-eq-holds toy (not_all pair) (raw doc_one) by_kind (refl, (refl, tt))

not_de_morgan_example :
    (match_value toy (not_all pair) (raw doc_one)
      ≡ (match_value toy (or_all pair) (raw doc_one) >>= λ b. ok (not b)))
    × (match_value toy (and_all (negate_all pair)) (raw doc_one)
        ≡ match_value toy (not_all pair) (raw doc_one))
not_de_morgan_example = not_de_morgan toy pair (raw doc_one)

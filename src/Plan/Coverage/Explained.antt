-- ===== src/Plan/Coverage/Explained.antt =====
-- A record that the renamed tree accepts meets the explained tree.
use storm_rev.Base.{
  ◌≡◌, inl, inr, Bool, true, false, none, some, Outcome, ok, ◌>>=◌, arith, if◌then◌else◌,
}
use storm_rev.Base.Bytes.{Bytes}
use storm_rev.Value.{eql, lss, leq, gtr, geq, Host}
use storm_rev.Config.{StructConfig, json_of}
use storm_rev.Q.Field.{
  match_delegate, FieldMatcher, cmp, strict_eq, in_list, regexp, custom_field, raw,
}
use storm_rev.Q.Tree
use storm_rev.Q.Tree.{
  Matcher, Matchers, always, or_all, and_all, not_all, field, field2, custom, match_value, match_or,
  match_and, rename, rename_all,
}
use storm_rev.Q.Explain.{expr_op_for_token, explain_field_matcher, explain_nested, explain_children}
use storm_rev.Plan.Coverage.{Hit, Fits, Fitting, FittingAll, Meets, MeetsAll, MeetsSome}
use storm_rev.Plan.Coverage.Lists.{one_true, In-hit}

both_true :
    (m rest : Outcome Bool)
    → (m >>= λ b. if b then rest else ok false) ≡ ok true
    → (m ≡ ok true) × (rest ≡ ok true)
both_true m rest h = ground arith

module _ (H : Host) (cfg : StructConfig) (doc : Bytes) where
  open H use {Float}

  explain_field-Meets :
      (f : Bytes) (m : FieldMatcher Float)
      → Fits H cfg doc f m
      → Hit H cfg doc f m
      → Meets H cfg doc (explain_field_matcher f m)
  unfolding explain_field_matcher expr_op_for_token match_delegate
  explain_field-Meets f (cmp eql v) t h = t h
  explain_field-Meets f (cmp lss v) t h = tt
  explain_field-Meets f (cmp leq v) t h = t h
  explain_field-Meets f (cmp gtr v) t h = tt
  explain_field-Meets f (cmp geq v) t h = t h
  explain_field-Meets f (strict_eq v) t h = t h
  explain_field-Meets f (in_list v) t h = λ ws p.
      let (w, m, c) = In-hit H f v ws (H.gjson_get doc (json_of cfg f)) p h in (w, m, t ws w p m c)
  explain_field-Meets f (regexp none) t h = tt
  explain_field-Meets f (regexp (some p)) t h = tt
  explain_field-Meets f (custom_field m) t h = tt

  mutual
    unfolding match_value rename explain_nested

    explain_value :
        (m : Matcher Float)
        → Fitting H cfg doc m
        → match_value H (rename (json_of cfg) m) (raw doc) ≡ ok true
        → Meets H cfg doc (explain_nested m)
    explain_value always t h = tt
    explain_value (or_all ms) t h = explain_some ms t h
    explain_value (and_all ms) t h = explain_all ms t h
    explain_value (not_all ms) t h = tt
    explain_value (field f m) t h = explain_field-Meets f m t h
    explain_value (field2 f g tok) t h = tt
    explain_value (custom f) t h = tt

    explain_all :
        (ms : Matchers Float)
        → FittingAll H cfg doc ms
        → match_and H (rename_all (json_of cfg) ms) (raw doc) ≡ ok true
        → MeetsAll H cfg doc (explain_children ms)
    explain_all Tree.nil t h = tt
    explain_all (Tree.cons m ms) t h =
        let (h₀, h₁) = both_true _ _ h in (explain_value m t.0 h₀, explain_all ms t.1 h₁)

    explain_some :
        (ms : Matchers Float)
        → FittingAll H cfg doc ms
        → match_or H (rename_all (json_of cfg) ms) (raw doc) ≡ ok true
        → MeetsSome H cfg doc (explain_children ms)
    explain_some Tree.nil t h = cc
    explain_some (Tree.cons m ms) t h = elim (one_true _ _ h) [
      | inl h₀ ↦ inl (explain_value m t.0 h₀)
      | inr h₁ ↦ inr (explain_some ms t.1 h₁)
    ]

  -- A record that the renamed tree accepts, whose fields have the types of the tree's values, meets what Explain says of the tree.
  pub explain-Meets :
      (m : Matcher Float)
      → Fitting H cfg doc m
      → match_value H (rename (json_of cfg) m) (raw doc) ≡ ok true
      → Meets H cfg doc (explain_nested m)
  explain-Meets m t h = explain_value m t h

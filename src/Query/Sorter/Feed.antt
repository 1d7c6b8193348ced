-- ===== src/Query/Sorter/Feed.antt =====
-- Feeding records to the sorter comes down to feeding the records that match.
use storm_rev.Base.{
  ◌≡◌, refl, ap, ◌∙◌, Bool, true, false, Option, none, List, [], ◌∷◌, ok, ◌>>=◌, select, All,
  Bool-cases, inl, inr,
}
use mathlib.Core.Path.{fun_ext}
use storm_rev.Value.{Host}
use storm_rev.Q.Tree.{Matcher}
use storm_rev.Query.Sink.{Item}
use storm_rev.Query.Sorter.{Sorter, accepts, filter, feed, unless_stopped}

module _ (H : Host) (tree : Option (Matcher H.Float)) (p : Item → Bool) where
  open H use {Float}

  -- The matcher answers `p` on each of the items: it neither errs nor panics on them.
  abbrev pub Answers : List Item → Type 0
  Answers items = All (λ itm. accepts H tree itm ≡ ok (p itm)) items

  filter-yes :
      (itm : Item) (s : Sorter Float)
      → accepts H tree itm ≡ ok true
      → filter H tree itm s ≡ filter H none itm s
  unfolding filter accepts
  filter-yes itm s a = rw a

  filter-no :
      (itm : Item) (s : Sorter Float)
      → accepts H tree itm ≡ ok false
      → filter H tree itm s ≡ ok (false, s)
  unfolding filter
  filter-no itm s a = rw a

  -- Where the matcher answers on all records, only those that match reach the sorter.
  pub feed-select :
      (items : List Item) (s : Sorter Float)
      → Answers items
      → feed H tree items s ≡ feed H none (select p items) s
  unfolding feed
  feed-select [] s a = refl
  feed-select (itm ∷ items) s a = elim (Bool-cases (p itm)) [
    | inl y ↦ rw y (
        rw (filter-yes itm s (a.0 ∙ rw y)) (
          ap (λ rest. filter H none itm s >>= unless_stopped rest)
            (fun_ext (λ s'. feed-select items s' a.1))))
    | inr n ↦ rw (n, filter-no itm s (a.0 ∙ rw n)) (feed-select items s a.1)
  ]

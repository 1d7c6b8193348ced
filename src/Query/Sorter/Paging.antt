-- ===== src/Query/Sorter/Paging.antt =====
-- With no OrderBy the sorter hands its sink one page of the records.
use storm_rev.Base.{
  zero, suc, ◌≡◌, refl, ap, ◌∙◌, ℤ, pos, negsuc, Bool, none, List, [], ◌∷◌, ◌++◌, append-nil,
  append_assoc, take, drop, drop-nil, take-nil, ok,
}
use storm_rev.Value.{Host}
use storm_rev.Query.Sink.{Sink, Item, sink_add}
use storm_rev.Query.Sorter.{Sorter, new_sorter, at_least_zero, feed, filter}

module _ {ℓ} {A : Type ℓ} where
  -- The first `limit` of a list, all of it where `limit` is negative.
  abbrev pub cut : ℤ → List A → List A
  cut (pos n) xs = take n xs
  cut (negsuc n) xs = xs

  -- Skip `skip` members and keep at most `limit` of the rest.
  abbrev pub page : ℤ → ℤ → List A → List A
  page skip limit xs = cut limit (drop (at_least_zero skip) xs)

module _ {ℓ} {A : Type ℓ} where
  cut-nil : (limit : ℤ) → cut {A = A} limit [] ≡ []
  cut-nil (pos n) = take-nil n
  cut-nil (negsuc n) = refl

  page-nil : (skip limit : ℤ) → page {A = A} skip limit [] ≡ []
  page-nil skip limit = rw (drop-nil (at_least_zero skip)) (cut-nil limit)

module _ (H : Host) (build : List Item → Sink H.Float)
    (grows : (itm : Item) (xs : List Item)
      → sink_add H itm (build xs) ≡ ok (build (xs ++ itm ∷ [])))
    (reverse : Bool) where
  open H use {Float}

  abbrev state : List Item → ℤ → ℤ → Sorter Float
  state xs skip limit = new_sorter (build xs) skip limit [] reverse

  -- What is said of the loop: it ends with the page in the sink, whatever skip and limit are left.
  abbrev Pages : ℤ → ℤ → List Item → List Item → Type 0
  Pages skip limit xs items =
      (s : ℤ) × (l : ℤ) × (feed H none items (state xs skip limit)
        ≡ ok (state (xs ++ page skip limit items) s l))

  -- One more record in the sink, and the page of the rest behind it.
  regroup :
      (xs ys : List Item) (itm : Item) (s l : ℤ)
      → ok (state ((xs ++ itm ∷ []) ++ ys) s l) ≡ ok (state (xs ++ itm ∷ ys) s l)
  regroup xs ys itm s l = ap (λ zs. ok (state zs s l)) (append_assoc xs (itm ∷ []) ys)

  -- With no OrderBy and no matcher left to ask, the loop over a list of records hands the sink the
  -- records less the first `skip`, and at most `limit` of the rest (all where the limit is negative),
  -- in their order, behind those that the sink already has. It holds of every sink that takes each
  -- record without an error.
  pub feed-page : (items xs : List Item) (skip limit : ℤ) → Pages skip limit xs items
  unfolding feed filter
  feed-page [] xs skip limit =
      (skip, limit, rw (page-nil {A = Item} skip limit, append-nil xs) refl)
  feed-page (itm ∷ items) xs skip (pos zero) = (skip, pos zero, rw (append-nil xs) refl)
  feed-page (itm ∷ items) xs (pos (suc k)) (pos (suc n)) = feed-page items xs (pos k) (pos (suc n))
  feed-page (itm ∷ items) xs (pos (suc k)) (negsuc n) = feed-page items xs (pos k) (negsuc n)
  feed-page (itm ∷ items) xs (pos zero) (negsuc n) =
      let (s, l, e) = feed-page items (xs ++ itm ∷ []) (pos zero) (negsuc n) in
      (s, l, rw (grows itm xs) (e ∙ regroup xs items itm s l))
  feed-page (itm ∷ items) xs (negsuc k) (negsuc n) =
      let (s, l, e) = feed-page items (xs ++ itm ∷ []) (negsuc k) (negsuc n) in
      (s, l, rw (grows itm xs) (e ∙ regroup xs items itm s l))
  feed-page (itm ∷ items) xs (pos zero) (pos (suc zero)) = (pos zero, pos zero, rw (grows itm xs))
  feed-page (itm ∷ items) xs (pos zero) (pos (suc (suc n))) =
      let (s, l, e) = feed-page items (xs ++ itm ∷ []) (pos zero) (pos (suc n)) in
      (s, l, rw (grows itm xs) (e ∙ regroup xs (take (suc n) items) itm s l))
  feed-page (itm ∷ items) xs (negsuc k) (pos (suc zero)) = (negsuc k, pos zero, rw (grows itm xs))
  feed-page (itm ∷ items) xs (negsuc k) (pos (suc (suc n))) =
      let (s, l, e) = feed-page items (xs ++ itm ∷ []) (negsuc k) (pos (suc n)) in
      (s, l, rw (grows itm xs) (e ∙ regroup xs (take (suc n) items) itm s l))

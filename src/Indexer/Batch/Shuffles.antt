-- ===== src/Indexer/Batch/Shuffles.antt =====
-- The groups of mutations in another order, and the ids that they touch.
use storm_rev.Base.{◌≡◌, refl, ◌∙◌, inl, inr, Bool-cases, ◌||◌, List, [], ◌∷◌, ◌++◌, arith}
use storm_rev.Base.Bytes.{Bytes, bytes_eq, bytes_eq_iff, bytes_eq_sym}
use storm_rev.Indexer.Batch.{Change, Mutation, Group, put_change, set_mutation, set_mutations}
use storm_rev.Indexer.Batch.Writes.{put, touches, any_touches, any_touches-append}
use storm_rev.Indexer.Batch.Coalesced.{
  to_doc, write_of, writes_of, puts, all_puts, find_change, Away, Separate,
}

-- The same groups in another order.
pub data Shuffled {D : Type 0} : List (Group D) → List (Group D) → Type 0 where
  none_left : Shuffled [] []
  same_first : {xs ys : List (Group D)} (g : Group D) → Shuffled xs ys → Shuffled (g ∷ xs) (g ∷ ys)
  swapped : (g h : Group D) (xs : List (Group D)) → Shuffled (g ∷ h ∷ xs) (h ∷ g ∷ xs)
  both : {xs ys zs : List (Group D)} → Shuffled xs ys → Shuffled ys zs → Shuffled xs zs

module _ {D : Type 0} where
  Shuffled-Away : {xs ys : List (Group D)} (t : Bytes) → Shuffled xs ys → Away t xs → Away t ys
  Shuffled-Away t none_left a = tt
  Shuffled-Away t (same_first g s) a = (a.0, Shuffled-Away t s a.1)
  Shuffled-Away t (swapped g h xs) (a, (b, c)) = (b, (a, c))
  Shuffled-Away t (both s r) a = Shuffled-Away t r (Shuffled-Away t s a)

  pub Shuffled-Separate : {xs ys : List (Group D)} → Shuffled xs ys → Separate xs → Separate ys
  Shuffled-Separate none_left a = tt
  Shuffled-Separate (same_first g s) a = (a.0, Shuffled-Away g.table s a.1, Shuffled-Separate s a.2)
  Shuffled-Separate (swapped g h xs) (a, (b, c), (d, e, f)) =
      (d, (bytes_eq_sym h.table g.table b, e), (a, c, f))
  Shuffled-Separate (both s r) a = Shuffled-Separate r (Shuffled-Separate s a)

  pub find_change-Shuffled :
      {xs ys : List (Group D)} (t id : Bytes)
      → Shuffled xs ys
      → Separate xs
      → find_change t id ys ≡ find_change t id xs
  find_change-Shuffled t id none_left a = refl
  find_change-Shuffled t id (same_first g s) a = ground (arith, find_change-Shuffled t id s a.2)
  find_change-Shuffled t id (swapped g h xs) (a, (b, c), r) =
      ground
        (arith, b, bytes_eq_iff h.table g.table, bytes_eq_iff h.table t, bytes_eq_iff g.table t)
  find_change-Shuffled t id (both s r) a =
      find_change-Shuffled t id r (Shuffled-Separate s a) ∙ find_change-Shuffled t id s a

  -- A shuffle touches the same ids.
  pub any_touches-Shuffled :
      {xs ys : List (Group D)} (t id : Bytes)
      → Shuffled xs ys
      → any_touches t id (all_puts ys) ≡ any_touches t id (all_puts xs)
  any_touches-Shuffled t id none_left = refl
  any_touches-Shuffled t id (same_first g s) =
      simp (any_touches-append, any_touches-Shuffled t id s)
  any_touches-Shuffled t id (swapped g h xs) = ground (
    arith,
    any_touches-append t id (puts h.table h.mutations) (puts g.table g.mutations ++ all_puts xs),
    any_touches-append t id (puts g.table g.mutations) (all_puts xs),
    any_touches-append t id (puts g.table g.mutations) (puts h.table h.mutations ++ all_puts xs),
    any_touches-append t id (puts h.table h.mutations) (all_puts xs),
  )
  any_touches-Shuffled t id (both s r) = any_touches-Shuffled t id r ∙ any_touches-Shuffled t id s

  touches_change :
      (t id g : Bytes) (k : Bytes) (c : Change D) (l : List (Bytes × Change D))
      → any_touches t id (puts g (put_change k c l))
        ≡ any_touches t id (puts g l) || touches t id (put g k (to_doc c))
  unfolding put_change
  touches_change t id g k c [] = ground arith
  touches_change t id g k c ((j, x) ∷ l) =
      ground (arith, bytes_eq_iff j k, touches_change t id g k c l)

  touches_set :
      (t id : Bytes) (m : Mutation D) (gs : List (Group D))
      → any_touches t id (all_puts (set_mutation m gs))
        ≡ any_touches t id (all_puts gs) || touches t id (write_of m)
  unfolding set_mutation put_change
  touches_set t id m [] = ground arith
  touches_set t id m (g ∷ gs) = elim (Bool-cases (bytes_eq g.table m.table)) [
    | inl y ↦
        let e : g.table ≡ m.table = (bytes_eq_iff g.table m.table).0 y in
        rw y (
          ground (
            arith,
            e,
            any_touches-append t id (puts g.table (put_change m.id m.change g.mutations))
                (all_puts gs),
            any_touches-append t id (puts g.table g.mutations) (all_puts gs),
            touches_change t id g.table m.id m.change g.mutations,
          ))
    | inr n ↦ rw n (
        ground (
          arith,
          any_touches-append t id (puts g.table g.mutations) (all_puts (set_mutation m gs)),
          any_touches-append t id (puts g.table g.mutations) (all_puts gs),
          touches_set t id m gs,
        ))
  ]

  pub touches_groups :
      (t id : Bytes) (ms : List (Mutation D)) (gs : List (Group D))
      → any_touches t id (all_puts (set_mutations ms gs))
        ≡ any_touches t id (all_puts gs) || any_touches t id (writes_of ms)
  unfolding set_mutations
  touches_groups t id [] gs = ground arith
  touches_groups t id (m ∷ ms) gs =
      touches_groups t id ms (set_mutation m gs) ∙ ground (arith, touches_set t id m gs)

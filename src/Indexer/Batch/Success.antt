-- ===== src/Indexer/Batch/Success.antt =====
-- bleve_batch.go: applyIndexRequests where the engine does what it is asked to.
use storm_rev.Base.{
  ◌≡◌, refl, inl, inr, Bool, true, false, Bool-cases, Option, none, some, List, [], ◌∷◌, ◌++◌,
  Error, if◌then◌else◌,
}
use storm_rev.Base.Bytes.{Bytes, bytes_eq}
use storm_rev.Indexer.Batch.{
  Docs, Change, deleted, indexed, unready, Mutation, Group, Request, mutations, rebuild, Engine,
  put_change, set_mutation, set_mutations, flush_batch, is_full, unless_failed, group_loop,
  apply_group, apply_groups, apply_mutations, drop_table, drop_tables, apply_requests,
}
use storm_rev.Indexer.Batch.Shuffles.{Shuffled, none_left, same_first, swapped, both}

module _ {D : Type 0} where
  -- No change is one whose document could not be made.
  abbrev pub Ready : Change D → Type 0
  Ready deleted = Unit
  Ready (indexed d) = Unit
  Ready (unready e) = ⊥

  abbrev pub AllReady : List (Mutation D) → Type 0
  AllReady [] = Unit
  AllReady (m ∷ ms) = Ready m.change × AllReady ms

  -- No request is a rebuild, and all changes are ready.
  abbrev pub ReadyRequests : List (Request D) → Type 0
  ReadyRequests [] = Unit
  ReadyRequests (rebuild f ∷ reqs) = ⊥
  ReadyRequests (mutations saves deletes drops ∷ reqs) =
      AllReady saves × AllReady deletes × ReadyRequests reqs

  -- An engine whose operations return no error.
  abbrev pub Healthy : Engine D → Type 0
  Healthy E =
      ((t : Bytes) → E.open_table t ≡ none)
      × ((t : Bytes) (b : List (Bytes × Option D)) → E.batch t b ≡ none)
      × ((t : Bytes) → E.remove t ≡ none)

  AllChanges : List (Bytes × Change D) → Type 0
  AllChanges [] = Unit
  AllChanges ((id, c) ∷ l) = Ready c × AllChanges l

  AllGroups : List (Group D) → Type 0
  unfolding AllChanges
  AllGroups [] = Unit
  AllGroups (g ∷ gs) = AllChanges g.mutations × AllGroups gs

  put_change-AllChanges :
      (id : Bytes) (c : Change D) (l : List (Bytes × Change D))
      → Ready c
      → AllChanges l
      → AllChanges (put_change id c l)
  unfolding put_change AllChanges
  put_change-AllChanges id c [] r a = (r, tt)
  put_change-AllChanges id c ((k, x) ∷ l) r a = elim (Bool-cases (bytes_eq k id)) [
    | inl y ↦ rw y (r, a.1)
    | inr n ↦ rw n (a.0, put_change-AllChanges id c l r a.1)
  ]

  set_mutation-AllGroups :
      (m : Mutation D) (gs : List (Group D))
      → Ready m.change
      → AllGroups gs
      → AllGroups (set_mutation m gs)
  unfolding set_mutation AllGroups
  set_mutation-AllGroups m [] r a = (put_change-AllChanges m.id m.change [] r tt, tt)
  set_mutation-AllGroups m (g ∷ gs) r a = elim (Bool-cases (bytes_eq g.table m.table)) [
    | inl y ↦ rw y (put_change-AllChanges m.id m.change g.mutations r a.0, a.1)
    | inr n ↦ rw n (a.0, set_mutation-AllGroups m gs r a.1)
  ]

  set_mutations-AllGroups :
      (ms : List (Mutation D)) (gs : List (Group D))
      → AllReady ms
      → AllGroups gs
      → AllGroups (set_mutations ms gs)
  unfolding set_mutations
  set_mutations-AllGroups [] gs r a = a
  set_mutations-AllGroups (m ∷ ms) gs r a =
      set_mutations-AllGroups ms (set_mutation m gs) r.1 (set_mutation-AllGroups m gs r.0 a)

  Shuffled-AllGroups : {xs ys : List (Group D)} → Shuffled xs ys → AllGroups xs → AllGroups ys
  unfolding AllGroups
  Shuffled-AllGroups none_left a = tt
  Shuffled-AllGroups (same_first g s) a = (a.0, Shuffled-AllGroups s a.1)
  Shuffled-AllGroups (swapped g h xs) (a, (b, c)) = (b, (a, c))
  Shuffled-AllGroups (both s r) a = Shuffled-AllGroups r (Shuffled-AllGroups s a)

  AllReady-append : (ms ns : List (Mutation D)) → AllReady ms → AllReady ns → AllReady (ms ++ ns)
  AllReady-append [] ns a b = b
  AllReady-append (m ∷ ms) ns a b = (a.0, AllReady-append ms ns a.1 b)

  unless_failed-none :
      (out : Option Error × Docs D) (f : Docs D → Option Error × Docs D)
      → out.0 ≡ none
      → ((d : Docs D) → (f d).0 ≡ none)
      → (unless_failed out f).0 ≡ none
  unless_failed-none (some e, d) f h r = cc
  unless_failed-none (none, d) f h r = r d

module _ {D : Type 0} (E : Engine D) (healthy : Healthy E) where
  flush_batch-none :
      (t : Bytes) (b : List (Bytes × Option D)) (docs : Docs D) → (flush_batch E t b docs).0 ≡ none
  unfolding flush_batch
  flush_batch-none t [] docs = refl
  flush_batch-none t (x ∷ b) docs = rw (healthy.1 t (x ∷ b), flush_batch) refl

  step_none :
      (full : Bool) (t : Bytes) (l : List (Bytes × Change D)) (b : List (Bytes × Option D))
      (docs : Docs D)
      → ((c : List (Bytes × Option D)) (d : Docs D) → (group_loop E t l c d).0 ≡ none)
      → (if full
          then unless_failed (flush_batch E t b docs) (group_loop E t l [])
          else group_loop E t l b docs).0
        ≡ none
  step_none true t l b docs r =
      unless_failed-none (flush_batch E t b docs) (group_loop E t l []) (flush_batch-none t b docs)
        (r [])
  step_none false t l b docs r = r b docs

  group_loop-none :
      (t : Bytes) (l : List (Bytes × Change D)) (b : List (Bytes × Option D)) (docs : Docs D)
      → AllChanges l
      → (group_loop E t l b docs).0 ≡ none
  unfolding group_loop AllChanges
  group_loop-none t [] b docs a = flush_batch-none t b docs
  group_loop-none t ((id, unready e) ∷ l) b docs a = elim (a.0) [ ]
  group_loop-none t ((id, indexed d) ∷ l) b docs a =
      step_none (is_full E (b ++ (id, some d) ∷ [])) t l (b ++ (id, some d) ∷ []) docs
        (λ c e. group_loop-none t l c e a.1)
  group_loop-none t ((id, deleted) ∷ l) b docs a =
      step_none (is_full E (b ++ (id, none) ∷ [])) t l (b ++ (id, none) ∷ []) docs
        (λ c e. group_loop-none t l c e a.1)

  apply_groups-none :
      (gs : List (Group D)) (docs : Docs D) → AllGroups gs → (apply_groups E gs docs).0 ≡ none
  unfolding apply_groups apply_group AllGroups
  apply_groups-none [] docs a = refl
  apply_groups-none (g ∷ gs) docs a =
      unless_failed-none (apply_group E g docs) (apply_groups E gs)
        (rw (healthy.0 g.table, apply_group) (group_loop-none g.table g.mutations [] docs a.0))
        (λ d. apply_groups-none gs d a.1)

  drop_tables-none : (ts : List Bytes) (docs : Docs D) → (drop_tables E ts docs).0 ≡ none
  unfolding drop_tables drop_table
  drop_tables-none [] docs = refl
  drop_tables-none (t ∷ ts) docs =
      unless_failed-none (drop_table E t docs) (drop_tables E ts)
        (rw (healthy.2 t, drop_table) refl) (drop_tables-none ts)

  module _ (shuffle : (gs : List (Group D)) → Shuffled gs (E.visit gs)) where
    apply_mutations-none :
        (ms : List (Mutation D)) (docs : Docs D)
        → AllReady ms
        → (apply_mutations E ms docs).0 ≡ none
    unfolding apply_mutations AllGroups
    apply_mutations-none ms docs a =
        apply_groups-none (E.visit (set_mutations ms [])) docs
          (Shuffled-AllGroups (shuffle (set_mutations ms [])) (set_mutations-AllGroups ms [] a tt))

    pub apply_requests-none :
        (reqs : List (Request D)) (regular : List (Mutation D)) (docs : Docs D)
        → AllReady regular
        → ReadyRequests reqs
        → (apply_requests E reqs regular docs).0 ≡ none
    unfolding apply_requests
    apply_requests-none [] regular docs a r = apply_mutations-none regular docs a
    apply_requests-none (rebuild f ∷ reqs) regular docs a r = elim r [ ]
    apply_requests-none (mutations saves deletes [] ∷ reqs) regular docs a r =
        apply_requests-none reqs (regular ++ (saves ++ deletes)) docs
          (AllReady-append regular (saves ++ deletes) a (AllReady-append saves deletes r.0 r.1)) r.2
    apply_requests-none (mutations saves deletes (t ∷ ts) ∷ reqs) regular docs a r =
        unless_failed-none (apply_mutations E regular docs) _ (apply_mutations-none regular docs a)
          (λ d. unless_failed-none (drop_tables E (t ∷ ts) d) _ (drop_tables-none (t ∷ ts) d) (λ c.
            apply_requests-none reqs (saves ++ deletes) c (AllReady-append saves deletes r.0 r.1)
              r.2))

-- ===== src/Indexer/Batch/Coalesced.antt =====
-- Groups of mutations, coalesced by id, against the single mutations in their order.
use mathlib.Core.Path.{subst}
use storm_rev.Base.{
  ◌≡◌, refl, ap, ◌∙◌, inl, inr, false, Bool-cases, ◌&&◌, Option, none, some, List, [], ◌∷◌, ◌++◌,
  All, arith, if◌then◌else◌,
}
use storm_rev.Base.Bytes.{Bytes, bytes_eq, bytes_eq_iff, bytes_eq_sym}
use storm_rev.Config.{lookup}
use storm_rev.Indexer.Batch.{
  Docs, Change, deleted, indexed, unready, Mutation, Group, put_change, set_mutation, set_mutations,
}
use storm_rev.Indexer.Batch.Writes.{
  Write, put, run_write, run_writes, run_writes-append, run_writes-agree,
}

module _ {D : Type 0} where
  -- What a change leaves in the index.
  abbrev pub to_doc : Change D → Option D
  to_doc deleted = none
  to_doc (indexed d) = some d
  to_doc (unready e) = none

  abbrev pub write_of : Mutation D → Write D
  write_of m = put m.table m.id (to_doc m.change)

  -- The single writes of mutations, in their order.
  abbrev pub writes_of : List (Mutation D) → List (Write D)
  writes_of [] = []
  writes_of (m ∷ ms) = write_of m ∷ writes_of ms

  -- The writes of a group, and of all groups.
  abbrev pub puts : Bytes → List (Bytes × Change D) → List (Write D)
  puts t [] = []
  puts t ((id, c) ∷ l) = put t id (to_doc c) ∷ puts t l

  abbrev pub all_puts : List (Group D) → List (Write D)
  all_puts [] = []
  all_puts (g ∷ gs) = puts g.table g.mutations ++ all_puts gs

  -- The change that the groups hold for an id of a table.
  abbrev pub find_change : Bytes → Bytes → List (Group D) → Option (Change D)
  find_change t id [] = none
  find_change t id (g ∷ gs) =
      if bytes_eq g.table t then lookup id g.mutations else find_change t id gs

  abbrev pub value : Option (Change D) → Option D → Option D
  value none old = old
  value (some c) old = to_doc c

  -- No id stands twice in a group, and no table twice among the groups.
  abbrev pub OnceEach : List (Bytes × Change D) → Type 0
  OnceEach [] = Unit
  OnceEach ((k, c) ∷ l) = (lookup k l ≡ none) × OnceEach l

  abbrev pub Away : Bytes → List (Group D) → Type 0
  Away t gs = All (λ (h : Group D). bytes_eq h.table t ≡ false) gs

  abbrev pub Separate : List (Group D) → Type 0
  Separate [] = Unit
  Separate (g ∷ gs) = OnceEach g.mutations × Away g.table gs × Separate gs

  lookup-put_change :
      (id k : Bytes) (c : Change D) (l : List (Bytes × Change D))
      → lookup id (put_change k c l) ≡ (if bytes_eq k id then some c else lookup id l)
  unfolding put_change
  lookup-put_change id k c [] = refl
  lookup-put_change id k c ((j, x) ∷ l) =
      ground
        (arith, bytes_eq_iff j k, bytes_eq_iff j id, bytes_eq_iff k id, lookup-put_change id k c l)

  find_change-set_mutation :
      (t id : Bytes) (m : Mutation D) (gs : List (Group D))
      → find_change t id (set_mutation m gs)
        ≡ (if bytes_eq m.table t && bytes_eq m.id id then some m.change else find_change t id gs)
  unfolding set_mutation put_change
  find_change-set_mutation t id m [] = ground arith
  find_change-set_mutation t id m (g ∷ gs) = ground (
    arith,
    bytes_eq_iff g.table m.table,
    bytes_eq_iff g.table t,
    bytes_eq_iff m.table t,
    lookup-put_change id m.id m.change g.mutations,
    find_change-set_mutation t id m gs,
  )

  put_change-OnceEach :
      (k : Bytes) (c : Change D) (l : List (Bytes × Change D))
      → OnceEach l
      → OnceEach (put_change k c l)
  unfolding put_change
  put_change-OnceEach k c [] o = (refl, tt)
  put_change-OnceEach k c ((j, x) ∷ l) o = elim (Bool-cases (bytes_eq j k)) [
    | inl y ↦ rw y o
    | inr n ↦
        rw n
          (lookup-put_change j k c l ∙ rw (bytes_eq_sym j k n) o.0, put_change-OnceEach k c l o.1)
  ]

  set_mutation-Away :
      (t : Bytes) (m : Mutation D) (gs : List (Group D))
      → bytes_eq m.table t ≡ false
      → Away t gs
      → Away t (set_mutation m gs)
  unfolding set_mutation
  set_mutation-Away t m [] n a = (n, tt)
  set_mutation-Away t m (g ∷ gs) n a = elim (Bool-cases (bytes_eq g.table m.table)) [
    | inl y ↦ rw y (a.0, a.1)
    | inr k ↦ rw k (a.0, set_mutation-Away t m gs n a.1)
  ]

  set_mutation-Separate :
      (m : Mutation D) (gs : List (Group D)) → Separate gs → Separate (set_mutation m gs)
  unfolding set_mutation put_change
  set_mutation-Separate m [] s = ((refl, tt), tt, tt)
  set_mutation-Separate m (g ∷ gs) s = elim (Bool-cases (bytes_eq g.table m.table)) [
    | inl y ↦ rw y (put_change-OnceEach m.id m.change g.mutations s.0, s.1, s.2)
    | inr n ↦ rw n (
      s.0,
      set_mutation-Away g.table m gs (bytes_eq_sym g.table m.table n) s.1,
      set_mutation-Separate m gs s.2,
    )
  ]

  pub set_mutations-Separate :
      (ms : List (Mutation D)) (gs : List (Group D)) → Separate gs → Separate (set_mutations ms gs)
  unfolding set_mutations
  set_mutations-Separate [] gs s = s
  set_mutations-Separate (m ∷ ms) gs s =
      set_mutations-Separate ms (set_mutation m gs) (set_mutation-Separate m gs s)

  -- The groups hold, for each id of each table, what the last mutation does to it.
  pub find_change-writes :
      (ms : List (Mutation D)) (gs : List (Group D)) (docs : Docs D) (t id : Bytes)
      → value (find_change t id (set_mutations ms gs)) (docs t id)
        ≡ run_writes (writes_of ms) (λ t' id'. value (find_change t' id' gs) (docs t' id')) t id
  unfolding set_mutations
  find_change-writes [] gs docs t id = refl
  find_change-writes (m ∷ ms) gs docs t id =
      find_change-writes ms (set_mutation m gs) docs t id
      ∙ run_writes-agree (writes_of ms) t id _ _
          (inr (ap (λ c. value c (docs t id)) (find_change-set_mutation t id m gs) ∙ ground arith))

  -- The writes of a group, by the change that it holds.
  puts_value :
      (g : Bytes) (l : List (Bytes × Change D)) (docs : Docs D) (t id : Bytes)
      → OnceEach l
      → run_writes (puts g l) docs t id
        ≡ (if bytes_eq g t then value (lookup id l) (docs t id) else docs t id)
  puts_value g [] docs t id o = ground arith
  puts_value g ((k, c) ∷ l) docs t id o =
      puts_value g l (run_write (put g k (to_doc c)) docs) t id o.1
      ∙ ground (arith, bytes_eq_iff k id, o)

  Away-value : (gs : List (Group D)) (t id : Bytes) → Away t gs → find_change t id gs ≡ none
  Away-value [] t id a = refl
  Away-value (g ∷ gs) t id a = ground (arith, a.0, Away-value gs t id a.1)

  -- The writes of all groups, by the change that they hold.
  pub all_puts-value :
      (gs : List (Group D)) (docs : Docs D) (t id : Bytes)
      → Separate gs
      → run_writes (all_puts gs) docs t id ≡ value (find_change t id gs) (docs t id)
  all_puts-value [] docs t id s = refl
  all_puts-value (g ∷ gs) docs t id s =
      let first = puts_value g.table g.mutations docs t id s.0 in
      rw (run_writes-append (puts g.table g.mutations) (all_puts gs) docs) (
        all_puts-value gs (run_writes (puts g.table g.mutations) docs) t id s.2
        ∙ elim (Bool-cases (bytes_eq g.table t)) [
          | inl y ↦
              let e : g.table ≡ t = (bytes_eq_iff g.table t).0 y in
              let a : Away t gs = subst (λ u. Away u gs) e s.1 in
              rw (Away-value gs t id a, first, y) refl
          | inr n ↦ rw (first, n) refl
        ])

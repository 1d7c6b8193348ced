-- ===== src/Indexer/Batch/Wrote.antt =====
-- bleve_batch.go: what batches, groups and drops leave, against single writes.
use mathlib.Core.Path.{subst}
use storm_rev.Base.{
  append_assoc, append-nil, ◌≡◌, refl, sym, ap, ◌∙◌, inr, Bool, true, false, Option, none, some,
  List, [], ◌∷◌, ◌++◌, Error, arith, if◌then◌else◌,
}
use storm_rev.Base.Bytes.{Bytes}
use storm_rev.Indexer.Tables.{same_index}
use storm_rev.Indexer.Batch.{
  Docs, Change, deleted, indexed, unready, Mutation, Group, Request, mutations, rebuild, Engine,
  write_batch, flush_batch, is_full, unless_failed, group_loop, apply_group, apply_groups,
  drop_table, drop_tables, clear_table,
}
use storm_rev.Indexer.Batch.Writes.{
  Write, put, clear, run_write, run_writes, any_touches, run_writes-append, any_touches-append,
  run_writes-agree, run_writes-untouched,
}
use storm_rev.Indexer.Batch.Coalesced.{to_doc, writes_of, puts, all_puts}

module _ {D : Type 0} where
  -- The single writes that requests stand for: the drops of a request come before its mutations.
  abbrev pub clears : List Bytes → List (Write D)
  clears [] = []
  clears (t ∷ ts) = clear t ∷ clears ts

  abbrev pub request_writes : List (Request D) → List (Write D)
  request_writes [] = []
  request_writes (rebuild f ∷ reqs) = request_writes reqs
  request_writes (mutations saves deletes drops ∷ reqs) =
      clears drops ++ (writes_of (saves ++ deletes) ++ request_writes reqs)

  -- No request is a rebuild.
  abbrev pub NoRebuild : List (Request D) → Type 0
  NoRebuild [] = Unit
  NoRebuild (rebuild f ∷ reqs) = ⊥
  NoRebuild (mutations saves deletes drops ∷ reqs) = NoRebuild reqs

  pub writes_of-append :
      (ms ns : List (Mutation D)) → writes_of (ms ++ ns) ≡ writes_of ms ++ writes_of ns
  writes_of-append [] ns = refl
  writes_of-append (m ∷ ms) ns =
      ap (λ l. put m.table m.id (to_doc m.change) ∷ l) (writes_of-append ms ns)

  abbrev batch_puts : Bytes → List (Bytes × Option D) → List (Write D)
  batch_puts t [] = []
  batch_puts t ((id, c) ∷ l) = put t id c ∷ batch_puts t l

  write_batch_lem :
      (t : Bytes) (b : List (Bytes × Option D)) (docs : Docs D)
      → write_batch t b docs ≡ run_writes (batch_puts t b) docs
  unfolding write_batch
  write_batch_lem t [] docs = refl
  write_batch_lem t ((id, c) ∷ b) docs = write_batch_lem t b (run_write (put t id c) docs)

  batch_puts-append :
      (t : Bytes) (b c : List (Bytes × Option D))
      → batch_puts t (b ++ c) ≡ batch_puts t b ++ batch_puts t c
  batch_puts-append t [] c = refl
  batch_puts-append t ((id, x) ∷ b) c = ap (λ l. put t id x ∷ l) (batch_puts-append t b c)

  -- Work that stands for single writes: without an error it leaves what they leave, and with or
  -- without one it changes nothing that they do not touch.
  abbrev pub Wrote : List (Write D) → Docs D → Option Error × Docs D → Type 0
  Wrote ws docs out =
      (out.0 ≡ none → (t id : Bytes) → out.1 t id ≡ run_writes ws docs t id)
      × ((t id : Bytes) → any_touches t id ws ≡ false → out.1 t id ≡ docs t id)

  equal_Wrote :
      (ws : List (Write D)) (docs d : Docs D) → d ≡ run_writes ws docs → Wrote ws docs (none, d)
  equal_Wrote ws docs d e = (
    λ _ t id. ap (λ f. f t id) e,
    λ t id n. ap (λ f. f t id) e ∙ run_writes-untouched ws t id docs n,
  )

  done_Wrote : (ws : List (Write D)) (docs : Docs D) → Wrote ws docs (none, run_writes ws docs)
  done_Wrote ws docs = (λ _ t id. refl, λ t id n. run_writes-untouched ws t id docs n)

  failed_Wrote : (ws : List (Write D)) (docs : Docs D) (e : Error) → Wrote ws docs (some e, docs)
  failed_Wrote ws docs e = (λ h t id. cc, λ t id n. refl)

  pub unless_failed-Wrote :
      (ws vs : List (Write D)) (docs : Docs D) (out : Option Error × Docs D)
      (f : Docs D → Option Error × Docs D)
      → Wrote ws docs out
      → ((d : Docs D) → Wrote vs d (f d))
      → Wrote (ws ++ vs) docs (unless_failed out f)
  unless_failed-Wrote ws vs docs (some e, d) f w r =
      (λ h t id. cc, λ t id n. w.1 t id (ground (arith, any_touches-append t id ws vs)))
  unless_failed-Wrote ws vs docs (none, d) f w r = (
    λ h t id.
        (r d).0 h t id
        ∙ run_writes-agree vs t id d (run_writes ws docs) (inr (w.0 refl t id))
        ∙ ap (λ x. x t id) (sym (run_writes-append ws vs docs)),
    λ t id n.
        (r d).1 t id (ground (arith, any_touches-append t id ws vs))
        ∙ w.1 t id (ground (arith, any_touches-append t id ws vs)),
  )

  -- Other writes with the same effect.
  pub same_Wrote :
      (ws vs : List (Write D)) (docs : Docs D) (out : Option Error × Docs D)
      → ((t id : Bytes) → run_writes ws docs t id ≡ run_writes vs docs t id)
      → ((t id : Bytes) → any_touches t id ws ≡ any_touches t id vs)
      → Wrote ws docs out
      → Wrote vs docs out
  same_Wrote ws vs docs out s a w = (λ h t id. w.0 h t id ∙ s t id, λ t id n. w.1 t id (a t id ∙ n))

module _ {D : Type 0} (E : Engine D) where
  flush_batch-Wrote :
      (t : Bytes) (b : List (Bytes × Option D)) (docs : Docs D)
      → Wrote (batch_puts t b) docs (flush_batch E t b docs)
  unfolding flush_batch
  flush_batch-Wrote t [] docs = done_Wrote [] docs
  flush_batch-Wrote t (x ∷ b) docs =
      elim (E.batch t (x ∷ b))
        as (λ o.
          Wrote (batch_puts t (x ∷ b)) docs
            (elim o [ some e ↦ (some e, docs) | none ↦ (none, write_batch t (x ∷ b) docs) ])) [
              | some e ↦ failed_Wrote (batch_puts t (x ∷ b)) docs e
              | none ↦
                  equal_Wrote (batch_puts t (x ∷ b)) docs (write_batch t (x ∷ b) docs)
                    (write_batch_lem t (x ∷ b) docs)
            ]

  batch_grown :
      (t id : Bytes) (c : Option D) (b : List (Bytes × Option D)) (ws : List (Write D))
      → batch_puts t (b ++ (id, c) ∷ []) ++ ws ≡ batch_puts t b ++ put t id c ∷ ws
  batch_grown t id c b ws =
      ap (λ l. l ++ ws) (batch_puts-append t b ((id, c) ∷ []))
      ∙ append_assoc (batch_puts t b) (put t id c ∷ []) ws

  -- One mutation of the loop, whether the batch is full after it or not.
  step_Wrote :
      (full : Bool) (t id : Bytes) (c : Option D) (l : List (Bytes × Change D))
      (b : List (Bytes × Option D)) (docs : Docs D)
      → ((d : Docs D) → Wrote (puts t l) d (group_loop E t l [] d))
      → Wrote
          (batch_puts t (b ++ (id, c) ∷ []) ++ puts t l)
          docs
          (group_loop E t l (b ++ (id, c) ∷ []) docs)
      → Wrote (batch_puts t b ++ put t id c ∷ puts t l) docs (
          if full
          then unless_failed (flush_batch E t (b ++ (id, c) ∷ []) docs) (group_loop E t l [])
          else group_loop E t l (b ++ (id, c) ∷ []) docs)
  step_Wrote true t id c l b docs r w =
      subst
        (λ ws.
          Wrote ws docs
            (unless_failed (flush_batch E t (b ++ (id, c) ∷ []) docs) (group_loop E t l [])))
        (batch_grown t id c b (puts t l))
        (unless_failed-Wrote (batch_puts t (b ++ (id, c) ∷ [])) (puts t l) docs _
          (group_loop E t l []) (flush_batch-Wrote t (b ++ (id, c) ∷ []) docs) r)
  step_Wrote false t id c l b docs r w =
      subst (λ ws. Wrote ws docs (group_loop E t l (b ++ (id, c) ∷ []) docs))
        (batch_grown t id c b (puts t l)) w

  group_loop-Wrote :
      (t : Bytes) (l : List (Bytes × Change D)) (b : List (Bytes × Option D)) (docs : Docs D)
      → Wrote (batch_puts t b ++ puts t l) docs (group_loop E t l b docs)
  unfolding group_loop
  group_loop-Wrote t [] b docs =
      subst (λ ws. Wrote ws docs (flush_batch E t b docs)) (sym (append-nil (batch_puts t b)))
        (flush_batch-Wrote t b docs)
  group_loop-Wrote t ((id, unready e) ∷ l) b docs =
      failed_Wrote (batch_puts t b ++ puts t ((id, unready e) ∷ l)) docs e
  group_loop-Wrote t ((id, indexed d) ∷ l) b docs =
      step_Wrote (is_full E (b ++ (id, some d) ∷ [])) t id (some d) l b docs
        (group_loop-Wrote t l []) (group_loop-Wrote t l (b ++ (id, some d) ∷ []) docs)
  group_loop-Wrote t ((id, deleted) ∷ l) b docs =
      step_Wrote (is_full E (b ++ (id, none) ∷ [])) t id none l b docs (group_loop-Wrote t l [])
        (group_loop-Wrote t l (b ++ (id, none) ∷ []) docs)

  apply_group-Wrote :
      (g : Group D) (docs : Docs D) → Wrote (puts g.table g.mutations) docs (apply_group E g docs)
  unfolding apply_group
  apply_group-Wrote g docs =
      elim (E.open_table g.table)
        as (λ o.
          Wrote (puts g.table g.mutations) docs (elim o [
            | some e ↦ (some e, docs)
            | none ↦ group_loop E g.table g.mutations [] docs
          ])) [
            | some e ↦ failed_Wrote (puts g.table g.mutations) docs e
            | none ↦ group_loop-Wrote g.table g.mutations [] docs
          ]

  pub apply_groups-Wrote :
      (gs : List (Group D)) (docs : Docs D) → Wrote (all_puts gs) docs (apply_groups E gs docs)
  unfolding apply_groups
  apply_groups-Wrote [] docs = done_Wrote [] docs
  apply_groups-Wrote (g ∷ gs) docs =
      unless_failed-Wrote (puts g.table g.mutations) (all_puts gs) docs (apply_group E g docs)
        (apply_groups E gs) (apply_group-Wrote g docs) (apply_groups-Wrote gs)

  drop_table-Wrote : (t : Bytes) (docs : Docs D) → Wrote (clear t ∷ []) docs (drop_table E t docs)
  unfolding drop_table
  drop_table-Wrote t docs =
      elim (E.remove t)
        as (λ o. Wrote (clear t ∷ []) docs (elim o [
          | none ↦ (none, clear_table t docs)
          | some e ↦
              (some e, λ t' id. if same_index t t' then E.remains t (docs t') id else docs t' id)
        ])) [
          | none ↦ done_Wrote (clear t ∷ []) docs
          | some e ↦ (λ h t' id. cc, λ t' id n. ground arith)
        ]

  pub drop_tables-Wrote :
      (ts : List Bytes) (docs : Docs D) → Wrote (clears ts) docs (drop_tables E ts docs)
  unfolding drop_tables
  drop_tables-Wrote [] docs = done_Wrote [] docs
  drop_tables-Wrote (t ∷ ts) docs =
      unless_failed-Wrote (clear t ∷ []) (clears ts) docs (drop_table E t docs) (drop_tables E ts)
        (drop_table-Wrote t docs) (drop_tables-Wrote ts)

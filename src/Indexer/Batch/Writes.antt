-- ===== src/Indexer/Batch/Writes.antt =====
-- Single writes to the indexes, one after the other: the reference for batches.
use storm_rev.Base.{
  ◌≡◌, refl, ◌∙◌, ◌⊎◌, inl, inr, Bool, true, false, Bool-cases, ◌&&◌, ◌||◌, Option, List, [], ◌∷◌,
  ◌++◌, arith,
}
use storm_rev.Base.Bytes.{Bytes, bytes_eq}
use storm_rev.Indexer.Tables.{same_index}
use storm_rev.Indexer.Batch.{Docs, write, clear_table}

-- One write: a document under an id of a table, the removal of one, or of the directory of a
-- table, which other tables may share.
pub data Write (D : Type 0) : Type 0 where
  put : Bytes → Bytes → Option D → Write D
  clear : Bytes → Write D

module _ {D : Type 0} where
  -- One write, and a list of them in order.
  abbrev pub run_write : Write D → Docs D → Docs D
  run_write (put t id c) docs = write t id c docs
  run_write (clear t) docs = clear_table t docs

  abbrev pub run_writes : List (Write D) → Docs D → Docs D
  run_writes [] docs = docs
  run_writes (w ∷ ws) docs = run_writes ws (run_write w docs)

  -- Whether a write determines what is under an id of a table.
  abbrev pub touches : Bytes → Bytes → Write D → Bool
  touches t id (put t' id' c) = bytes_eq t' t && bytes_eq id' id
  touches t id (clear t') = same_index t' t

  abbrev pub any_touches : Bytes → Bytes → List (Write D) → Bool
  any_touches t id [] = false
  any_touches t id (w ∷ ws) = touches t id w || any_touches t id ws

  pub run_writes-append :
      (ws vs : List (Write D)) (docs : Docs D)
      → run_writes (ws ++ vs) docs ≡ run_writes vs (run_writes ws docs)
  run_writes-append [] vs docs = refl
  run_writes-append (w ∷ ws) vs docs = run_writes-append ws vs (run_write w docs)

  pub any_touches-append :
      (t id : Bytes) (ws vs : List (Write D))
      → any_touches t id (ws ++ vs) ≡ any_touches t id ws || any_touches t id vs
  any_touches-append t id [] vs = refl
  any_touches-append t id (w ∷ ws) vs = ground (arith, any_touches-append t id ws vs)

  touched_write :
      (w : Write D) (t id : Bytes) (d e : Docs D)
      → (touches t id w ≡ true) ⊎ (d t id ≡ e t id)
      → run_write w d t id ≡ run_write w e t id
  touched_write (put t' id' c) t id d e h = ground arith
  touched_write (clear t') t id d e h = ground arith

  -- Where a list of writes touches an id, or two indexes agree on it, they agree after the list.
  pub run_writes-agree :
      (ws : List (Write D)) (t id : Bytes) (d e : Docs D)
      → (any_touches t id ws ≡ true) ⊎ (d t id ≡ e t id)
      → run_writes ws d t id ≡ run_writes ws e t id
  run_writes-agree [] t id d e (inl h) = cc
  run_writes-agree [] t id d e (inr h) = h
  run_writes-agree (w ∷ ws) t id d e h =
      run_writes-agree ws t id (run_write w d) (run_write w e) (next h)
    where
      next :
          ((touches t id w || any_touches t id ws) ≡ true) ⊎ (d t id ≡ e t id)
          → (any_touches t id ws ≡ true) ⊎ (run_write w d t id ≡ run_write w e t id)
      next (inr k) = inr (touched_write w t id d e (inr k))
      next (inl k) = elim (Bool-cases (touches t id w)) [
        | inl y ↦ inr (touched_write w t id d e (inl y))
        | inr n ↦ inl (ground arith)
      ]

  untouched_write :
      (w : Write D) (t id : Bytes) (d : Docs D)
      → touches t id w ≡ false
      → run_write w d t id ≡ d t id
  untouched_write (put t' id' c) t id d h = ground arith
  untouched_write (clear t') t id d h = ground arith

  -- A list of writes leaves alone what it does not touch.
  pub run_writes-untouched :
      (ws : List (Write D)) (t id : Bytes) (d : Docs D)
      → any_touches t id ws ≡ false
      → run_writes ws d t id ≡ d t id
  run_writes-untouched [] t id d h = refl
  run_writes-untouched (w ∷ ws) t id d h =
      run_writes-untouched ws t id (run_write w d) (ground arith)
      ∙ untouched_write w t id d (ground arith)

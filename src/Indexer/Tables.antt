-- ===== src/Indexer/Tables.antt =====
-- bleve_index.go and bleve_batch.go: the marks by which a query decides whether it trusts the index
-- of a table, and the name of the index's directory.
pub mod Trust
use storm_rev.Base.{
  ℕ, suc, ◌+◌, ◌-◌, Bool, true, false, ◌&&◌, ◌||◌, List, [], ◌∷◌, Option, none, some, Error, ltb,
  leb, ◌==◌, if◌then◌else◌,
}
use storm_rev.Base.Bytes.{Bytes, bytes_eq}

-- The maps `dirty` and `pending` of the manager; a missing key reads as false or 0.
pub record Marks : Type 0 where
  pub dirty : Bytes → Bool
  pub pending : Bytes → ℕ

abbrev pub no_marks : Marks
no_marks = record { dirty = λ t. false; pending = λ t. 0 }

-- markDirty and clearDirty
unfoldable pub set_dirty : Bytes → Bool → Marks → Marks
set_dirty t b m = record m { dirty = λ u. if bytes_eq t u then b else m.dirty u }

abbrev pub set_pending : Bytes → ℕ → Marks → Marks
set_pending t n m = record m { pending = λ u. if bytes_eq t u then n else m.pending u }

-- isDirty
unfoldable pub is_dirty : Marks → Bytes → Bool
is_dirty m t = m.dirty t || ltb 0 (m.pending t)

-- markPending
unfoldable pub mark_pending : List Bytes → Marks → Marks
mark_pending [] m = m
mark_pending (t ∷ ts) m = mark_pending ts (set_pending t (suc (m.pending t)) m)

abbrev pub failed_dirty : Option Error → Bytes → Marks → Marks
failed_dirty none t m = m
failed_dirty (some e) t m = record m { dirty = λ u. if bytes_eq t u then true else m.dirty u }

-- finishPending
unfoldable pub finish_pending : List Bytes → Option Error → Marks → Marks
finish_pending [] e m = m
finish_pending (t ∷ ts) e m =
    finish_pending ts e
      (failed_dirty e t (set_pending t (if ltb 1 (m.pending t) then m.pending t - 1 else 0) m))

-- the marks after dropTable, where the index was closed without an error
unfoldable pub drop_marks : Bytes → Marks → Marks
unfolding set_dirty
drop_marks t m = set_pending t 0 (set_dirty t false m)

-- hasPending, on the tables that the manager may know
unfoldable pub has_pending : List Bytes → Marks → Bool
has_pending [] m = false
has_pending (t ∷ ts) m = ltb 0 (m.pending t) || has_pending ts m

abbrev pub between : ℕ → ℕ → ℕ → Bool
between a b r = leb a r && leb r b

-- the runes that safeIndexName keeps: a-z, A-Z, 0-9, '_' and '-'
abbrev pub is_safe : ℕ → Bool
is_safe r = (between 97 122 r || between 65 90 r) || (between 48 57 r || (r == 95 || r == 45))

abbrev pub safe_runes : List ℕ → Bytes
safe_runes [] = []
safe_runes (r ∷ rs) = (if is_safe r then r else 95) ∷ safe_runes rs

-- safeIndexName, on the runes of the name
unfoldable pub safe_index_name : List ℕ → Bytes
safe_index_name [] = 95 ∷ []
safe_index_name (r ∷ rs) = safe_runes (r ∷ rs)

-- The first byte of each rune of a name, where the name is valid UTF-8: safeIndexName writes '_' for
-- every rune outside ASCII, so the other bytes of a rune do not matter.
unfoldable pub first_bytes : Bytes → List ℕ
first_bytes [] = []
first_bytes (b ∷ bs) = let rest = first_bytes bs in if between 128 191 b then rest else b ∷ rest

-- tablePath of two tables is one directory
unfoldable pub same_index : Bytes → Bytes → Bool
unfolding safe_index_name first_bytes
same_index t u = bytes_eq (safe_index_name (first_bytes t)) (safe_index_name (first_bytes u))

-- ===== src/Indexer/Batch.antt =====
-- bleve_batch.go: applyIndexRequests, applyMutationRequests and applyMutationGroup.
pub mod Writes
pub mod Coalesced
pub mod Shuffles
pub mod Wrote
pub mod Replay
pub mod Success
use storm_rev.Base.{
  ℕ, ◌+◌, Bool, true, false, ◌&&◌, ◌||◌, Option, none, some, List, [], ◌∷◌, ◌++◌, length, Error,
  ltb, leb, if◌then◌else◌,
}
use storm_rev.Base.Bytes.{Bytes, bytes_eq}
use storm_rev.Indexer.Tables.{same_index}

-- The indexes of all tables: the document that is indexed under an id, if any.
abbrev pub Docs : Type 0 → Type 0
Docs D = Bytes → Bytes → Option D

-- What a mutation does to its document: delete it, or index one, which is the prepared document of a
-- save or what m.document makes of the record; `unready` is an error of m.document.
pub data Change (D : Type 0) : Type 0 where
  deleted : Change D
  indexed : D → Change D
  unready : Error → Change D

-- bleveMutation
pub record Mutation (D : Type 0) : Type 0 where
  pub table : Bytes
  pub id : Bytes
  pub change : Change D

-- bleveMutationGroup: the mutations by id, with `order` as the order of the list.
pub record Group (D : Type 0) : Type 0 where
  pub table : Bytes
  pub mutations : List (Bytes × Change D)

-- bleveIndexRequest, as far as it is applied: the saves and the deletes as mutations, or a rebuild
-- with the error that it returns and the documents that it leaves.
pub data Request (D : Type 0) : Type 0 where
  mutations : List (Mutation D) → List (Mutation D) → List Bytes → Request D
  rebuild : (Docs D → Option Error × Docs D) → Request D

-- What the code calls: opening the index of a table, idx.Batch on a batch (all of which is written,
-- or nothing), the size of a document, the removal of a table's directory with what a failure leaves
-- of its documents, and the order in which a map of groups is visited.
pub record Engine (D : Type 0) : Type 0 where
  pub open_table : Bytes → Option Error
  pub batch : Bytes → List (Bytes × Option D) → Option Error
  pub doc_size : D → ℕ
  pub remove : Bytes → Option Error
  pub remains : Bytes → (Bytes → Option D) → Bytes → Option D
  pub visit : List (Group D) → List (Group D)
  pub max_docs : ℕ
  pub max_bytes : ℕ

module _ {D : Type 0} where
  -- `group.mutations[key] = mutation`, with the key appended to `order` where it is new
  unfoldable pub put_change : Bytes → Change D → List (Bytes × Change D) → List (Bytes × Change D)
  put_change id c [] = (id, c) ∷ []
  put_change id c ((k, x) ∷ l) = if bytes_eq k id then (k, c) ∷ l else (k, x) ∷ put_change id c l

  -- setMutation
  unfoldable pub set_mutation : Mutation D → List (Group D) → List (Group D)
  unfolding put_change
  set_mutation m [] = record { table = m.table; mutations = put_change m.id m.change [] } ∷ []
  set_mutation m (g ∷ gs) =
      if bytes_eq g.table m.table
      then record g { mutations = put_change m.id m.change g.mutations } ∷ gs
      else g ∷ set_mutation m gs

  -- the loops over the records that fill the groups
  unfoldable pub set_mutations : List (Mutation D) → List (Group D) → List (Group D)
  unfolding set_mutation
  set_mutations [] gs = gs
  set_mutations (m ∷ ms) gs = set_mutations ms (set_mutation m gs)

  abbrev pub write : Bytes → Bytes → Option D → Docs D → Docs D
  write t id c docs = λ t' id'. if bytes_eq t t' && bytes_eq id id' then c else docs t' id'

  -- a batch that was written
  unfoldable pub write_batch : Bytes → List (Bytes × Option D) → Docs D → Docs D
  write_batch t [] docs = docs
  write_batch t ((id, c) ∷ l) docs = write_batch t l (write t id c docs)

  -- os.RemoveAll(m.tablePath(tableName)): every table that has this directory loses its documents
  abbrev pub clear_table : Bytes → Docs D → Docs D
  clear_table t docs = λ t' id. if same_index t t' then none else docs t' id

  -- `if err != nil { return err }`, and else what follows
  abbrev pub unless_failed :
      Option Error × Docs D → (Docs D → Option Error × Docs D) → Option Error × Docs D
  unless_failed (some e, docs) rest = (some e, docs)
  unless_failed (none, docs) rest = rest docs

module _ {D : Type 0} (E : Engine D) where
  open E use {open_table, batch, doc_size, remove, remains, visit, max_docs, max_bytes}

  -- batch.TotalDocsSize
  abbrev pub batch_bytes : List (Bytes × Option D) → ℕ
  batch_bytes [] = 0
  batch_bytes ((id, none) ∷ l) = batch_bytes l
  batch_bytes ((id, some d) ∷ l) = doc_size d + batch_bytes l

  -- flush of applyMutationGroup
  unfoldable pub flush_batch : Bytes → List (Bytes × Option D) → Docs D → Option Error × Docs D
  unfolding write_batch
  flush_batch t [] docs = (none, docs)
  flush_batch t (x ∷ b) docs = elim (batch t (x ∷ b)) [
    | some e ↦ (some e, docs)
    | none ↦ (none, write_batch t (x ∷ b) docs)
  ]

  -- the test after each mutation
  abbrev pub is_full : List (Bytes × Option D) → Bool
  is_full b =
      (ltb 0 max_docs && leb max_docs (length b))
      || (ltb 0 max_bytes && leb max_bytes (batch_bytes b))

  -- the loop over group.order, with the batch so far
  unfoldable pub group_loop :
      Bytes → List (Bytes × Change D) → List (Bytes × Option D) → Docs D → Option Error × Docs D
  unfolding flush_batch
  group_loop t [] b docs = flush_batch t b docs
  group_loop t ((id, unready e) ∷ l) b docs = (some e, docs)
  group_loop t ((id, indexed d) ∷ l) b docs =
      let full = unless_failed (flush_batch t (b ++ (id, some d) ∷ []) docs) (group_loop t l []) in
      let more = group_loop t l (b ++ (id, some d) ∷ []) docs in
      if is_full (b ++ (id, some d) ∷ []) then full else more
  group_loop t ((id, deleted) ∷ l) b docs =
      let full = unless_failed (flush_batch t (b ++ (id, none) ∷ []) docs) (group_loop t l []) in
      let more = group_loop t l (b ++ (id, none) ∷ []) docs in
      if is_full (b ++ (id, none) ∷ []) then full else more

  -- applyMutationGroup
  unfoldable pub apply_group : Group D → Docs D → Option Error × Docs D
  unfolding group_loop
  apply_group g docs = elim (open_table g.table) [
    | some e ↦ (some e, docs)
    | none ↦ group_loop g.table g.mutations [] docs
  ]

  -- the loop over groups
  unfoldable pub apply_groups : List (Group D) → Docs D → Option Error × Docs D
  unfolding apply_group
  apply_groups [] docs = (none, docs)
  apply_groups (g ∷ gs) docs = unless_failed (apply_group g docs) (apply_groups gs)

  -- applyMutationRequests, on the mutations of the requests in their order
  unfoldable pub apply_mutations : List (Mutation D) → Docs D → Option Error × Docs D
  unfolding apply_groups set_mutations
  apply_mutations ms docs = apply_groups (visit (set_mutations ms [])) docs

  -- dropTable
  unfoldable pub drop_table : Bytes → Docs D → Option Error × Docs D
  drop_table t docs = elim (remove t) [
    | none ↦ (none, clear_table t docs)
    | some e ↦ (some e, λ t' id. if same_index t t' then remains t (docs t') id else docs t' id)
  ]

  unfoldable pub drop_tables : List Bytes → Docs D → Option Error × Docs D
  unfolding drop_table
  drop_tables [] docs = (none, docs)
  drop_tables (t ∷ ts) docs = unless_failed (drop_table t docs) (drop_tables ts)

  -- applyIndexRequests; `regular` holds the mutations of the requests that wait for flush
  unfoldable pub apply_requests :
      List (Request D) → List (Mutation D) → Docs D → Option Error × Docs D
  unfolding apply_mutations drop_tables
  apply_requests [] regular docs = apply_mutations regular docs
  apply_requests (rebuild f ∷ reqs) regular docs =
      unless_failed (apply_mutations regular docs)
        (λ d. unless_failed (f d) (apply_requests reqs []))
  apply_requests (mutations saves deletes [] ∷ reqs) regular docs =
      apply_requests reqs (regular ++ (saves ++ deletes)) docs
  apply_requests (mutations saves deletes (t ∷ ts) ∷ reqs) regular docs =
      unless_failed (apply_mutations regular docs)
        (λ d. unless_failed (drop_tables (t ∷ ts) d) (apply_requests reqs (saves ++ deletes)))

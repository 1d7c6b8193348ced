-- ===== src/Indexer/Batch/Replay.antt =====
-- bleve_batch.go: applyIndexRequests against the single writes in the order of the requests.
use mathlib.Core.Path.{subst}
use storm_rev.Base.{append_assoc, append-nil, ◌≡◌, sym, ap, ◌∙◌, false, none, List, [], ◌∷◌, ◌++◌}
use storm_rev.Base.Bytes.{Bytes}
use storm_rev.Indexer.Batch.{
  Docs, Mutation, Group, Request, mutations, rebuild, Engine, set_mutations, apply_mutations,
  drop_tables, apply_requests,
}
use storm_rev.Indexer.Batch.Writes.{run_writes, any_touches}
use storm_rev.Indexer.Batch.Coalesced.{
  writes_of, all_puts, set_mutations-Separate, all_puts-value, find_change-writes, value,
}
use storm_rev.Indexer.Batch.Shuffles.{
  Shuffled, Shuffled-Separate, find_change-Shuffled, any_touches-Shuffled, touches_groups,
}
use storm_rev.Indexer.Batch.Wrote.{
  clears, request_writes, NoRebuild, Wrote, writes_of-append, unless_failed-Wrote, same_Wrote,
  apply_groups-Wrote, drop_tables-Wrote,
}

-- The groups may be visited in any order.
module _ {D : Type 0} (E : Engine D)
    (shuffle : (gs : List (Group D)) → Shuffled gs (E.visit gs)) where
  apply_mutations-Wrote :
      (ms : List (Mutation D)) (docs : Docs D)
      → Wrote (writes_of ms) docs (apply_mutations E ms docs)
  unfolding apply_mutations
  apply_mutations-Wrote ms docs =
      let gs = set_mutations ms [] in
      let s = set_mutations-Separate ms [] tt in
      same_Wrote (all_puts (E.visit gs)) (writes_of ms) docs _
        (λ t id.
          all_puts-value (E.visit gs) docs t id (Shuffled-Separate (shuffle gs) s)
          ∙ ap (λ c. value c (docs t id)) (find_change-Shuffled t id (shuffle gs) s)
          ∙ find_change-writes ms [] docs t id)
        (λ t id. any_touches-Shuffled t id (shuffle gs) ∙ touches_groups t id ms [])
        (apply_groups-Wrote E (E.visit gs) docs)

  apply_requests-Wrote :
      (reqs : List (Request D)) (regular : List (Mutation D)) (docs : Docs D)
      → NoRebuild reqs
      → Wrote (writes_of regular ++ request_writes reqs) docs (apply_requests E reqs regular docs)
  unfolding apply_requests
  apply_requests-Wrote [] regular docs p =
      subst (λ ws. Wrote ws docs (apply_mutations E regular docs))
        (sym (append-nil (writes_of regular))) (apply_mutations-Wrote regular docs)
  apply_requests-Wrote (rebuild f ∷ reqs) regular docs p = elim p [ ]
  apply_requests-Wrote (mutations saves deletes [] ∷ reqs) regular docs p =
      subst (λ ws. Wrote ws docs (apply_requests E reqs (regular ++ (saves ++ deletes)) docs))
        (ap (λ l. l ++ request_writes reqs) (writes_of-append regular (saves ++ deletes))
          ∙ append_assoc (writes_of regular) (writes_of (saves ++ deletes)) (request_writes reqs))
        (apply_requests-Wrote reqs (regular ++ (saves ++ deletes)) docs p)
  apply_requests-Wrote (mutations saves deletes (t ∷ ts) ∷ reqs) regular docs p =
      unless_failed-Wrote (writes_of regular)
        (clears (t ∷ ts) ++ (writes_of (saves ++ deletes) ++ request_writes reqs)) docs
        (apply_mutations E regular docs) _ (apply_mutations-Wrote regular docs)
        (λ d.
          unless_failed-Wrote (clears (t ∷ ts))
            (writes_of (saves ++ deletes) ++ request_writes reqs) d (drop_tables E (t ∷ ts) d)
            (apply_requests E reqs (saves ++ deletes)) (drop_tables-Wrote E (t ∷ ts) d)
            (λ c. apply_requests-Wrote reqs (saves ++ deletes) c p))

  -- Where applying requests without a rebuild to the indexes returns no error, the document under
  -- each id of each table is the one that the single writes leave which the requests stand for: all
  -- of them, in their order, those of a request after its drops, saves before deletes. This is so for
  -- any engine, whatever its batches' limits and whatever order it visits the groups in, as long as
  -- that is an order of the same groups.
  pub apply_requests-replay :
      (reqs : List (Request D)) (docs : Docs D)
      → NoRebuild reqs
      → (apply_requests E reqs [] docs).0 ≡ none
      → (t id : Bytes)
      → (apply_requests E reqs [] docs).1 t id ≡ run_writes (request_writes reqs) docs t id
  apply_requests-replay reqs docs p = (apply_requests-Wrote reqs [] docs p).0

  -- Applying requests without a rebuild, with an error or without one, changes no document but those
  -- that the single writes touch which the requests stand for. The engine may visit the groups in
  -- any order of the same groups.
  pub apply_requests-untouched :
      (reqs : List (Request D)) (docs : Docs D)
      → NoRebuild reqs
      → (t id : Bytes) → any_touches t id (request_writes reqs) ≡ false
      → (apply_requests E reqs [] docs).1 t id ≡ docs t id
  apply_requests-untouched reqs docs p = (apply_requests-Wrote reqs [] docs p).1

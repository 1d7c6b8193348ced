-- ===== src/Indexer/Coordinator/Retry.antt =====
-- bleve_batch.go: what the attempts of processIndexRequests leave in the indexes.
use storm_rev.Base.{
  ◌≡◌, refl, ◌∙◌, ap, inl, inr, ℕ, suc, Bool, true, false, Bool-cases, Option, none, some, List, [],
  ◌∷◌, All, Error, ◌⊎◌, ◌&&◌, leb,
}
use storm_rev.Base.Bytes.{Bytes}
use storm_rev.Indexer.Batch.{Docs, Group, Request, Engine, apply_requests}
use storm_rev.Indexer.Batch.Writes.{run_writes, any_touches, run_writes-agree}
use storm_rev.Indexer.Batch.Shuffles.{Shuffled}
use storm_rev.Indexer.Batch.Replay.{apply_requests-replay, apply_requests-untouched}
use storm_rev.Indexer.Batch.Wrote.{NoRebuild, request_writes}
use storm_rev.Indexer.Coordinator.{
  Attempt, Ending, applied, repaired, durable_requests_repairable, acknowledge, try_repair,
  repair_ended, after_failure, end_or_retry, process_requests,
}

module _ {D : Type 0} where
  -- Documents that differ at most where the requests write.
  abbrev pub SameElsewhere : List (Request D) → Docs D → Docs D → Type 0
  SameElsewhere reqs d docs =
      (t id : Bytes) → any_touches t id (request_writes reqs) ≡ false → d t id ≡ docs t id

  -- A repair that fails changes at most documents that the requests write.
  abbrev pub Keeps : List (Request D) → Docs D → Option Error × Docs D → Type 0
  Keeps reqs d (none, d') = Unit
  Keeps reqs d (some e, d') = SameElsewhere reqs d' d

  abbrev pub RepairKeeps : List (Request D) → Option (Docs D → Option Error × Docs D) → Type 0
  RepairKeeps reqs none = Unit
  RepairKeeps reqs (some repair) = (d : Docs D) → Keeps reqs d (repair d)

  -- The engine visits the same groups, and a repair that fails keeps the other documents.
  abbrev pub Plain : List (Request D) → Attempt D → Type 0
  Plain reqs a =
      ((gs : List (Group D)) → Shuffled gs (a.engine.visit gs)) × RepairKeeps reqs a.repair

  replay_elsewhere :
      (reqs : List (Request D)) (d docs : Docs D)
      → SameElsewhere reqs d docs
      → (t id : Bytes)
      → run_writes (request_writes reqs) d t id ≡ run_writes (request_writes reqs) docs t id
  replay_elsewhere reqs d docs s t id = elim (Bool-cases (any_touches t id (request_writes reqs))) [
    | inl y ↦ run_writes-agree (request_writes reqs) t id d docs (inl y)
    | inr n ↦ run_writes-agree (request_writes reqs) t id d docs (inr (s t id n))
  ]

  apply_elsewhere :
      (E : Engine D) (reqs : List (Request D)) (d docs : Docs D)
      → ((gs : List (Group D)) → Shuffled gs (E.visit gs))
      → NoRebuild reqs
      → SameElsewhere reqs d docs
      → SameElsewhere reqs (apply_requests E reqs [] d).1 docs
  apply_elsewhere E reqs d docs v p s t id n =
      apply_requests-untouched E v reqs d p t id n ∙ s t id n

  acknowledge-docs :
      (durable : Bool) (ack : Option Error) (out : Option Error × Docs D)
      → (acknowledge durable ack out).1 ≡ out.1
  unfolding acknowledge
  acknowledge-docs durable ack (some e, d) = refl
  acknowledge-docs durable ack (none, d) = refl

  acknowledge-none :
      (durable : Bool) (ack : Option Error) (out : Option Error × Docs D)
      → (acknowledge durable ack out).0 ≡ none
      → out.0 ≡ none
  unfolding acknowledge
  acknowledge-none durable ack (some e, d) h = h
  acknowledge-none durable ack (none, d) h = refl

  -- A loop that ends with `applied` leaves the documents that the requests stand for.
  abbrev Replayed : List (Request D) → Docs D → Ending × Docs D → Type 0
  Replayed reqs docs out =
      out.0 ≡ applied → (t id : Bytes) → out.1 t id ≡ run_writes (request_writes reqs) docs t id

  repair_ended-kept :
      (reqs : List (Request D)) (d : Docs D) (out : Option Error × Docs D)
      → Keeps reqs d out
      → ((repair_ended out).0 ≡ true) ⊎ SameElsewhere reqs (repair_ended out).1 d
  repair_ended-kept reqs d (none, d') k = inl refl
  repair_ended-kept reqs d (some e, d') k = inr k

  try_repair-kept :
      (attempts : ℕ) (reqs : List (Request D)) (repair : Option (Docs D → Option Error × Docs D))
      (d : Docs D)
      → RepairKeeps reqs repair
      → ((try_repair attempts reqs repair d).0 ≡ true)
        ⊎ SameElsewhere reqs (try_repair attempts reqs repair d).1 d
  unfolding try_repair
  try_repair-kept attempts reqs none d k = inr (λ t id n. refl)
  try_repair-kept attempts reqs (some repair) d k =
      elim (Bool-cases (leb 3 attempts && durable_requests_repairable reqs)) [
        | inl y ↦ rw y (repair_ended-kept reqs d (repair d) (k d))
        | inr z ↦ rw z (inr (λ t id n. refl))
      ]

  after_failure-Replayed :
      (reqs : List (Request D)) (docs d : Docs D) (e : Error) (closing : Bool) (r : Bool × Docs D)
      (next : Docs D → Ending × Docs D)
      → (r.0 ≡ true) ⊎ SameElsewhere reqs r.1 d
      → SameElsewhere reqs d docs
      → ((c : Docs D) → SameElsewhere reqs c docs → Replayed reqs docs (next c))
      → Replayed reqs docs (after_failure e closing r next)
  unfolding after_failure
  after_failure-Replayed reqs docs d e closing (true, c) next k s n = λ h t id. cc
  after_failure-Replayed reqs docs d e true (false, c) next k s n = λ h t id. cc
  after_failure-Replayed reqs docs d e false (false, c) next (inl k) s n = λ h t id. cc
  after_failure-Replayed reqs docs d e false (false, c) next (inr k) s n =
      n c (λ t id u. k t id u ∙ s t id u)

  end_or_retry-Replayed :
      (reqs : List (Request D)) (docs : Docs D) (durable : Bool) (out : Option Error × Docs D)
      (retry : Error → Docs D → Ending × Docs D)
      → (out.0 ≡ none → (t id : Bytes) → out.1 t id ≡ run_writes (request_writes reqs) docs t id)
      → ((e : Error) → Replayed reqs docs (retry e out.1))
      → Replayed reqs docs (end_or_retry durable out retry)
  unfolding end_or_retry
  end_or_retry-Replayed reqs docs durable (none, d) retry a r = λ h. a refl
  end_or_retry-Replayed reqs docs true (some e, d) retry a r = r e
  end_or_retry-Replayed reqs docs false (some e, d) retry a r = λ h t id. cc

  process_loop :
      (durable : Bool) (attempts : ℕ) (tries : List (Attempt D)) (reqs : List (Request D))
      (d docs : Docs D)
      → All (Plain reqs) tries
      → NoRebuild reqs
      → SameElsewhere reqs d docs
      → Replayed reqs docs (process_requests durable attempts tries reqs d)
  unfolding process_requests try_repair
  process_loop durable attempts [] reqs d docs a p s = λ h t id. cc
  process_loop durable attempts (x ∷ xs) reqs d docs a p s =
      let out = apply_requests x.engine reqs [] d in
      let kept : (acknowledge durable x.ack out).1 ≡ out.1 = acknowledge-docs durable x.ack out in
      end_or_retry-Replayed reqs docs durable (acknowledge durable x.ack out) _
        (λ n t id.
          ap (λ f. f t id) kept
          ∙ apply_requests-replay x.engine (a.0).0 reqs d p (acknowledge-none durable x.ack out n) t
              id
          ∙ replay_elsewhere reqs d docs s t id)
        (λ e. rw kept (
          after_failure-Replayed reqs docs out.1 e x.closing
            (try_repair (suc attempts) reqs x.repair out.1)
            (process_requests durable (suc attempts) xs reqs)
            (try_repair-kept (suc attempts) reqs x.repair out.1 (a.0).1)
            (apply_elsewhere x.engine reqs d docs (a.0).0 p s)
            (λ c u. process_loop durable (suc attempts) xs reqs c docs a.1 p u)))

  -- However many attempts on a batch of requests fail, at whatever point, before one succeeds: where
  -- the loop ends because an attempt was applied (and acknowledged, if the requests are durable), the
  -- document under each id of each table is the one that the requests' single writes, made once each
  -- in order, leave from the documents before the first attempt; the drop of a table clears every
  -- table whose name gives the same directory (safeIndexName, on names in UTF-8). The requests hold
  -- no rebuild, a repair that fails changes at most documents that the requests write, and each attempt's engine
  -- visits the groups in an order of the same groups.
  pub process_requests-replay :
      (durable : Bool) (tries : List (Attempt D)) (reqs : List (Request D)) (docs : Docs D)
      → All (Plain reqs) tries
      → NoRebuild reqs
      → (process_requests durable 0 tries reqs docs).0 ≡ applied
      → (t id : Bytes)
      → (process_requests durable 0 tries reqs docs).1 t id
        ≡ run_writes (request_writes reqs) docs t id
  process_requests-replay durable tries reqs docs a p =
      process_loop durable 0 tries reqs docs docs a p (λ t id n. refl)

  -- A loop that ends well: an attempt was applied, or the indexes were repaired.
  abbrev pub EndsWell : Ending × Docs D → Type 0
  EndsWell out = (out.0 ≡ applied) ⊎ (out.0 ≡ repaired)

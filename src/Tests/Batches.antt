-- ===== src/Tests/Batches.antt =====
-- Requests applied to an external index at concrete documents.
use storm_rev.Base.{
  arith, ◌≡◌, refl, ℕ, ◌∷◌, [], List, Option, none, some, Bool, true, false, Error, host, All,
}
use storm_rev.Base.Bytes.{Bytes, ascii}
use storm_rev.Indexer.Batch.{
  rebuild, Docs, deleted, indexed, Mutation, Group, Request, mutations, Engine, apply_requests,
}
use storm_rev.Indexer.Batch.Writes.{run_writes}
use storm_rev.Indexer.Batch.Shuffles.{Shuffled, none_left, same_first}
use storm_rev.Indexer.Batch.Replay.{}
use storm_rev.Indexer.Batch.Wrote.{request_writes}
use storm_rev.Indexer.Coordinator.Collect.{
  Arrival, arrived, timer, run_coordinator, requests_of, all_requests, RebuildAlone,
  run_coordinator-requests,
}
use storm_rev.Indexer.Coordinator.{Attempt, process_requests}
use storm_rev.Indexer.Coordinator.Retry.{process_requests-replay}

abbrev users : Bytes
users = ascii "users"

abbrev no_docs : Docs ℕ
no_docs = λ t id. none

-- An engine whose batches hold one document, and one that refuses every batch.
abbrev sound_engine : Engine ℕ
sound_engine = record {
  open_table = λ t. none;
  batch = λ t b. none;
  doc_size = λ d. d;
  remove = λ t. none;
  remains = λ t docs. docs;
  visit = λ gs. gs;
  max_docs = 1;
  max_bytes = 0;
}

abbrev broken_engine : Engine ℕ
broken_engine = record sound_engine { batch = λ t b. some (host 1) }

same_groups : (gs : List (Group ℕ)) → Shuffled gs gs
same_groups [] = none_left
same_groups (g ∷ gs) = same_first g (same_groups gs)

abbrev save : Bytes → ℕ → Mutation ℕ
save id d = record { table = users; id = id; change = indexed d }

abbrev some_requests : List (Request ℕ)
some_requests =
    mutations (save (1 ∷ []) 5 ∷ save (2 ∷ []) 6 ∷ []) [] []
    ∷ mutations [] (record { table = users; id = 1 ∷ []; change = deleted } ∷ []) []
    ∷ mutations (save (2 ∷ []) 7 ∷ []) [] (ascii "old" ∷ [])
    ∷ []

abbrev some_arrivals : List (Arrival ℕ)
some_arrivals =
    timer
    ∷ arrived (mutations (save (1 ∷ []) 5 ∷ []) [] [])
    ∷ arrived (rebuild (λ docs. (none, docs)))
    ∷ arrived (mutations (save (2 ∷ []) 6 ∷ []) [] [])
    ∷ []

run_coordinator-requests_example :
    (all_requests (run_coordinator 4 500 some_arrivals) ≡ requests_of some_arrivals)
    × All RebuildAlone (run_coordinator 4 500 some_arrivals)
run_coordinator-requests_example = run_coordinator-requests 4 500 some_arrivals (omega arith)

abbrev failing : Attempt ℕ
failing = record {
  engine = broken_engine;
  ack = none;
  repair = some (λ d. (some (host 3), d));
  closing = false;
}

abbrev working : Attempt ℕ
working = record { engine = sound_engine; ack = none; repair = none; closing = false }

abbrev two_attempts : List (Attempt ℕ)
two_attempts = failing ∷ working ∷ []

process_requests-replay_example :
    (process_requests true 0 two_attempts some_requests no_docs).1 users (2 ∷ [])
    ≡ run_writes (request_writes some_requests) no_docs users (2 ∷ [])
unfolding process_requests apply_requests storm_rev.Base.Bytes.compare_bytes
process_requests-replay_example =
    process_requests-replay true two_attempts some_requests no_docs
      ((same_groups, λ d t id n. refl), ((same_groups, tt), tt)) tt refl users (2 ∷ [])

-- ===== src/Indexer/Coordinator/Collect.antt =====
-- bleve_batch.go: how runIndexCoordinator gathers the requests of its channel into batches.
use storm_rev.Base.{
  ◌≡◌, refl, ap, ◌∙◌, inl, inr, ℕ, zero, suc, ◌+◌, ◌≤◌, Bool-cases, List, [], ◌∷◌, ◌++◌, length,
  All, ltb, arith, if◌then◌else◌,
}
use storm_rev.Indexer.Batch.{Request, mutations, rebuild}

-- What the coordinator receives, in order, until the channel is closed: a request, or the end of the
-- delay of a batch.
pub data Arrival (D : Type 0) : Type 0 where
  arrived : Request D → Arrival D
  timer : Arrival D

module _ {D : Type 0} where
  -- the number of mutations of a request
  unfoldable pub mutation_count : Request D → ℕ
  mutation_count (mutations saves deletes drops) = length saves + length deletes + length drops
  mutation_count (rebuild f) = 0

  -- The loop `collect`, from a number of mutations on: the requests that it adds and what is left. A
  -- rebuild, which is carried to the next round, is left.
  unfoldable pub collect : ℕ → ℕ → List (Arrival D) → List (Request D) × List (Arrival D)
  unfolding mutation_count
  collect max n [] = ([], [])
  collect max n (timer ∷ s) = if ltb n max then ([], s) else ([], timer ∷ s)
  collect max n (arrived (rebuild f) ∷ s) = ([], arrived (rebuild f) ∷ s)
  collect max n (arrived (mutations saves deletes drops) ∷ s) =
      let r = mutations saves deletes drops in
      let more = collect max (n + mutation_count r) s in
      if ltb n max then (r ∷ more.0, more.1) else ([], arrived r ∷ s)

  -- The loop of runIndexCoordinator: the batches that it hands to processIndexRequests. A timer that
  -- fires between two batches is drained.
  unfoldable pub run_coordinator : ℕ → ℕ → List (Arrival D) → List (List (Request D))
  unfolding collect
  run_coordinator zero max s = []
  run_coordinator (suc fuel) max [] = []
  run_coordinator (suc fuel) max (timer ∷ s) = run_coordinator fuel max s
  run_coordinator (suc fuel) max (arrived (rebuild f) ∷ s) =
      (rebuild f ∷ []) ∷ run_coordinator fuel max s
  run_coordinator (suc fuel) max (arrived (mutations saves deletes drops) ∷ s) =
      let r = mutations saves deletes drops in
      let batch = collect max (mutation_count r) s in
      (r ∷ batch.0) ∷ run_coordinator fuel max batch.1

  -- The requests that arrive, and those of batches, in order.
  abbrev pub requests_of : List (Arrival D) → List (Request D)
  requests_of [] = []
  requests_of (timer ∷ s) = requests_of s
  requests_of (arrived r ∷ s) = r ∷ requests_of s

  abbrev pub all_requests : List (List (Request D)) → List (Request D)
  all_requests [] = []
  all_requests (b ∷ bs) = b ++ all_requests bs

  -- A batch of requests without a rebuild, or of a rebuild alone.
  abbrev pub OnlyMutations : Request D → Type 0
  OnlyMutations (mutations saves deletes drops) = Unit
  OnlyMutations (rebuild f) = ⊥

  abbrev pub RebuildAlone : List (Request D) → Type 0
  RebuildAlone [] = ⊥
  RebuildAlone (rebuild f ∷ rs) = rs ≡ []
  RebuildAlone (mutations saves deletes drops ∷ rs) = All OnlyMutations rs

  collect-requests :
      (max n : ℕ) (s : List (Arrival D))
      → ((collect max n s).0 ++ requests_of (collect max n s).1 ≡ requests_of s)
        × (length (collect max n s).1 ≤ length s)
        × All OnlyMutations (collect max n s).0
  unfolding collect
  collect-requests max n [] = (refl, omega arith, tt)
  collect-requests max n (timer ∷ s) = elim (Bool-cases (ltb n max)) [
    | inl y ↦ rw y (refl, omega arith, tt)
    | inr z ↦ rw z (refl, omega arith, tt)
  ]
  collect-requests max n (arrived (rebuild f) ∷ s) = (refl, omega arith, tt)
  collect-requests max n (arrived (mutations saves deletes drops) ∷ s) =
      let r : Request D = mutations saves deletes drops in
      let (same, shorter, only) = collect-requests max (n + mutation_count r) s in
      elim (Bool-cases (ltb n max)) [
        | inl y ↦ rw y (ap (λ l. r ∷ l) same, omega (arith, shorter), (tt, only))
        | inr z ↦ rw z (refl, omega arith, tt)
      ]

  -- The coordinator hands on every request exactly once and in the order of arrival, whenever its
  -- timers fire and whatever its limit on mutations: with as many rounds as there are arrivals, it
  -- comes to the end of a channel that is closed, the batches together hold the requests that
  -- arrived, and no batch is empty or holds a rebuild together with another request.
  pub run_coordinator-requests :
      (fuel max : ℕ) (s : List (Arrival D))
      → length s ≤ fuel
      → (all_requests (run_coordinator fuel max s) ≡ requests_of s)
        × All RebuildAlone (run_coordinator fuel max s)
  unfolding run_coordinator
  run_coordinator-requests zero max [] h = (refl, tt)
  run_coordinator-requests zero max (a ∷ s) h = absurd (omega (arith, h))
  run_coordinator-requests (suc fuel) max [] h = (refl, tt)
  run_coordinator-requests (suc fuel) max (timer ∷ s) h =
      run_coordinator-requests fuel max s (omega (arith, h))
  run_coordinator-requests (suc fuel) max (arrived (rebuild f) ∷ s) h =
      let (same, alone) = run_coordinator-requests fuel max s (omega (arith, h)) in
      (ap (λ l. rebuild f ∷ l) same, (refl, alone))
  run_coordinator-requests (suc fuel) max (arrived (mutations saves deletes drops) ∷ s) h =
      let r : Request D = mutations saves deletes drops in
      let batch = collect max (mutation_count r) s in
      let (kept, shorter, only) = collect-requests max (mutation_count r) s in
      let (same, alone) = run_coordinator-requests fuel max batch.1 (omega (arith, h, shorter)) in
      (ap (λ l. r ∷ l) (ap (λ l. batch.0 ++ l) same ∙ kept), (only, alone))

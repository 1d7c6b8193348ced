-- ===== src/Indexer/Outbox/Covered.antt =====
-- bleve_outbox.go: what completeDurableReindex leaves in the outbox.
use storm_rev.Base.{
  ◌≡◌, refl, sym, ap, ◌∙◌, inl, inr, ℕ, ◌≤◌, Bool, true, false, Bool-cases, not, ◌||◌, Option, none,
  some, List, [], ◌∷◌, ◌++◌, append-nil, append_assoc, ==_iff, length, select, Error, Outcome, ok,
  err, panic, ◌>>=◌, bind_ok, ok_injective, ltb, ◌==◌, arith, if◌then◌else◌,
}
use storm_rev.Base.Bytes.{Bytes, bytes_eq}
use storm_rev.Indexer.Outbox.{
  JobMutation, Job, IndexState, Entries, Outbox, read_state, write_state, uncovered,
  same_string_path, replace_entry, cover_entry, cover_entries, contains_table, rebuilt,
  complete_reindex,
}

-- The mutations of the outbox, each with the sequence of its job, in order.
abbrev pub tagged : ℕ → List JobMutation → List (ℕ × JobMutation)
tagged k [] = []
tagged k (m ∷ ms) = (k, m) ∷ tagged k ms

abbrev pub all_mutations : Entries → List (ℕ × JobMutation)
all_mutations [] = []
all_mutations ((k, ok job) ∷ es) = tagged k job.mutations ++ all_mutations es
all_mutations ((k, err e) ∷ es) = all_mutations es
all_mutations ((k, panic) ∷ es) = all_mutations es

-- A mutation that a rebuild of a table under a root from the sequence `through` does not cover.
abbrev pub is_uncovered : List Bytes → Bytes → ℕ → ℕ × JobMutation → Bool
is_uncovered root t through x =
    ltb through x.0 || (not (bytes_eq x.1.table t) || not (same_string_path x.1.root root))

module _ {A : Type 0} (p : A → Bool) where
  select-append : (xs ys : List A) → select p (xs ++ ys) ≡ select p xs ++ select p ys
  select-append [] ys = refl
  select-append (x ∷ xs) ys = elim (Bool-cases (p x)) [
    | inl y ↦ rw y (ap (λ l. x ∷ l) (select-append xs ys))
    | inr n ↦ rw n (select-append xs ys)
  ]

  select_le : (xs : List A) → length (select p xs) ≤ length xs
  select_le [] = omega arith
  select_le (x ∷ xs) = ground (arith, select_le xs)

  select_whole : (xs : List A) → length (select p xs) ≡ length xs → select p xs ≡ xs
  select_whole [] e = refl
  select_whole (x ∷ xs) e = elim (Bool-cases (p x)) [
    | inl y ↦ rw y (ap (λ l. x ∷ l) (select_whole xs (omega (arith, rw y at e))))
    | inr n ↦ absurd (omega (arith, select_le xs, rw n at e))
  ]

module _ (root : List Bytes) (t : Bytes) (through : ℕ) where
  select_later :
      (k : ℕ) (ms : List JobMutation)
      → ltb through k ≡ true
      → select (is_uncovered root t through) (tagged k ms) ≡ tagged k ms
  select_later k [] l = refl
  select_later k (m ∷ ms) l = rw l (ap (λ x. (k, m) ∷ x) (select_later k ms l))

  select_covered :
      (k : ℕ) (ms : List JobMutation)
      → ltb through k ≡ false
      → select (is_uncovered root t through) (tagged k ms) ≡ tagged k (uncovered root t ms)
  unfolding uncovered
  select_covered k [] l = refl
  select_covered k (m ∷ ms) l =
      elim (Bool-cases (not (bytes_eq m.table t) || not (same_string_path m.root root))) [
        | inl y ↦ rw (l, y) (ap (λ x. (k, m) ∷ x) (select_covered k ms l))
        | inr n ↦ rw (l, n) (select_covered k ms l)
      ]

  replace_entry-mutations :
      (e : Option Error) (k : ℕ) (updated : Job) (left : List JobMutation) (out : Entries)
      → updated.mutations ≡ left
      → replace_entry e k updated left ≡ ok out
      → all_mutations out ≡ tagged k left
  unfolding replace_entry
  replace_entry-mutations e k updated [] out u h = let r : [] ≡ out = cc in ap all_mutations (sym r)
  replace_entry-mutations (some e) k updated (m ∷ ms) out u h = cc
  replace_entry-mutations none k updated (m ∷ ms) out u h =
      let r : (k, ok updated) ∷ [] ≡ out = cc in
      ap all_mutations (sym r) ∙ append-nil (tagged k updated.mutations) ∙ ap (tagged k) u

  cover_entry-mutations :
      (marshal : Job → Option Error) (k : ℕ) (job : Job) (out : Entries)
      → cover_entry marshal t k job (uncovered root t job.mutations) ≡ ok out
      → all_mutations out ≡ tagged k (uncovered root t job.mutations)
  unfolding cover_entry uncovered
  cover_entry-mutations marshal k job out h =
      let left = uncovered root t job.mutations in
      elim (Bool-cases (length left == length job.mutations)) [
        | inl y ↦
            let r : (k, ok job) ∷ [] ≡ out = cc (rw y at h) in
            ap all_mutations (sym r)
            ∙ append-nil (tagged k job.mutations)
            ∙ ap (tagged k) (
                sym (
                  select_whole _ job.mutations ((==_iff (length left) (length job.mutations)).0 y)))
        | inr n ↦ replace_entry-mutations _ k _ left out refl (rw n at h)
      ]

  all_mutations-append :
      (es fs : Entries) → all_mutations (es ++ fs) ≡ all_mutations es ++ all_mutations fs
  all_mutations-append [] fs = refl
  all_mutations-append ((k, ok job) ∷ es) fs =
      ap (λ l. tagged k job.mutations ++ l) (all_mutations-append es fs)
      ∙ sym (append_assoc (tagged k job.mutations) (all_mutations es) (all_mutations fs))
  all_mutations-append ((k, err e) ∷ es) fs = all_mutations-append es fs
  all_mutations-append ((k, panic) ∷ es) fs = all_mutations-append es fs

  first_mutations :
      (marshal : Job → Option Error) (k : ℕ) (raw : Outcome Job) (first : Entries)
      → (if ltb through k
          then ok ((k, raw) ∷ [])
          else (raw >>= λ job. cover_entry marshal t k job (uncovered root t job.mutations)))
        ≡ ok first
      → all_mutations first ≡ select (is_uncovered root t through) (all_mutations ((k, raw) ∷ []))
  first_mutations marshal k (ok job) first h = elim (Bool-cases (ltb through k)) [
    | inl y ↦
        let r : (k, ok job) ∷ [] ≡ first = cc (rw y at h) in
        ap all_mutations (sym r)
        ∙ append-nil (tagged k job.mutations)
        ∙ sym (select_later k job.mutations y)
        ∙ ap (select (is_uncovered root t through)) (sym (append-nil (tagged k job.mutations)))
    | inr n ↦
        cover_entry-mutations marshal k job first (rw n at h)
        ∙ sym (select_covered k job.mutations n)
        ∙ ap (select (is_uncovered root t through)) (sym (append-nil (tagged k job.mutations)))
  ]
  first_mutations marshal k (err e) first h = elim (Bool-cases (ltb through k)) [
    | inl y ↦ let r : (k, err e) ∷ [] ≡ first = cc (rw y at h) in ap all_mutations (sym r)
    | inr n ↦ cc (rw n at h)
  ]
  first_mutations marshal k panic first h = elim (Bool-cases (ltb through k)) [
    | inl y ↦ let r : (k, panic) ∷ [] ≡ first = cc (rw y at h) in ap all_mutations (sym r)
    | inr n ↦ cc (rw n at h)
  ]

  cover_entries-mutations :
      (marshal : Job → Option Error) (es out : Entries)
      → cover_entries marshal root t through es ≡ ok out
      → all_mutations out ≡ select (is_uncovered root t through) (all_mutations es)
  unfolding cover_entries
  cover_entries-mutations marshal [] out h = let r : [] ≡ out = cc in ap all_mutations (sym r)
  cover_entries-mutations marshal ((k, raw) ∷ es) out h =
      let (first, f, r) =
        bind_ok
          (if ltb through k
            then ok ((k, raw) ∷ [])
            else (raw >>= λ job. cover_entry marshal t k job (uncovered root t job.mutations)))
          _ out h in
      let (others, g, e) = bind_ok (cover_entries marshal root t through es) _ out r in
      let same : first ++ others ≡ out = cc in
      ap all_mutations (sym same)
      ∙ all_mutations-append first others
      ∙ ap (λ l. l ++ all_mutations others) (first_mutations marshal k raw first f)
      ∙ ap (λ l. select (is_uncovered root t through) (all_mutations ((k, raw) ∷ [])) ++ l)
          (cover_entries-mutations marshal es others g)
      ∙ sym (
          select-append (is_uncovered root t through) (all_mutations ((k, raw) ∷ []))
            (all_mutations es))
      ∙ ap (select (is_uncovered root t through)) (sym (all_mutations-append ((k, raw) ∷ []) es))

-- What completing a rebuild went through.
pub complete_reindex-parts :
    (marshal : Job → Option Error) (root : List Bytes) (t : Bytes) (through : ℕ) (s after : Outbox)
    → complete_reindex marshal root t through s ≡ ok after
    → (es : Entries) × (st : IndexState) × (remaining : Bool) × (cover_entries marshal root t
          through s.entries
        ≡ ok es)
      × (read_state s.states t ≡ ok st)
      × (contains_table t es ≡ ok remaining)
      × (record s { entries = es; states = write_state t (rebuilt through remaining st) s.states }
          ≡ after)
unfolding complete_reindex
complete_reindex-parts marshal root t through s after h =
    let (es, c, r) = bind_ok (cover_entries marshal root t through s.entries) _ after h in
    let (st, d, r') = bind_ok (read_state s.states t) _ after r in
    let (remaining, f, e) = bind_ok (contains_table t es) _ after r' in
    (es, st, remaining, c, d, f, ok_injective _ after e)

-- Where completing a rebuild of a table under a root succeeds, the outbox that is left holds, in
-- order and each under the sequence of its job, exactly the mutations that it held before and the
-- rebuild does not cover: those of jobs after the sequence `through`, of other tables, and of the
-- table under other roots.
pub complete_reindex-mutations :
    (marshal : Job → Option Error) (root : List Bytes) (t : Bytes) (through : ℕ) (s after : Outbox)
    → complete_reindex marshal root t through s ≡ ok after
    → all_mutations after.entries ≡ select (is_uncovered root t through) (all_mutations s.entries)
complete_reindex-mutations marshal root t through s after h =
    let (es, st, remaining, c, d, f, e) = complete_reindex-parts marshal root t through s after h in
    ap (λ (o : Outbox). all_mutations o.entries) (sym e)
    ∙ cover_entries-mutations root t through marshal s.entries es c

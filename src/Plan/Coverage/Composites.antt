-- ===== src/Plan/Coverage/Composites.antt =====
-- The composite searches of a covering index, and that no search names an id twice.
use mathlib.Core.Path.{subst}
use storm_rev.Base.{
  ◌≡◌, refl, sym, ap, ◌∙◌, inl, inr, true, Bool-cases, not, Option, none, some, List, [], ◌∷◌,
  length, ok, bind_ok, ok_injective, All, arith, ◌==◌,
}
use storm_rev.Base.Bytes.{Bytes, bytes_eq_iff}
use storm_rev.Base.Sorted.{In}
use storm_rev.Value.{Value, Host}
use storm_rev.Config.{StructConfig, FieldConfig, lookup}
use storm_rev.Bucket.{Bucket}
use storm_rev.Plan.Documents.{
  Document, TableIndex, term, all_terms, mentions, in_composite, is_indexed, bound_of, range_query,
  exact_token, composite_ready, search_exact, search_range, field_tokens, search_fields,
  search_composite, own_index,
}
use storm_rev.Plan.Documents.Searches.{has_tokens, Answering, search-found, document-mention}
use storm_rev.Plan.Candidates.{Index}
use storm_rev.Plan.Candidates.Members.{Distinct}
use storm_rev.Plan.Coverage.{Indexed, Hits, NamesOnce, Covers}
use storm_rev.Plan.Coverage.Finds.{mentions-in_composite, the_document, token_at, query_hit}

module _ (H : Host) (cfg : StructConfig) (T : TableIndex H.Float)
    (stored : Bytes → Option (Document H.Float)) (law : Answering H T stored) where
  open H use {Float}

  fields_once :
      (name : Bytes) (o : Option (List Bytes)) (vs : List (Value Float)) (ids : List Bytes)
      → search_fields H cfg T name o vs ≡ ok ids
      → Distinct ids
  fields_once name none vs ids h = cc
  fields_once name (some fs) vs ids h = elim (Bool-cases (not (length vs == length fs))) [
    | inl y ↦ cc (rw y at h)
    | inr n ↦
        let (l, _, g) = bind_ok (field_tokens H cfg T fs vs) _ ids (rw n at h) in
        (search-found H cfg T stored law (all_terms name l) ids g).0
  ]

  -- No search of the program names an id twice.
  pub own_index-NamesOnce : NamesOnce H (own_index H cfg T)
  unfolding own_index search_exact search_range search_composite
  own_index-NamesOnce = record {
    exact_once = λ f v ids h.
        let (t, _, g) = bind_ok (exact_token H cfg T v) _ ids h in
        (search-found H cfg T stored law (term f t) ids g).0;
    range_once = λ f lo hi ids h.
        let (query, _, g) = bind_ok (range_query H f (bound_of H lo) (bound_of H hi)) _ ids h in
        (search-found H cfg T stored law query ids g).0;
    composite_once = λ name vs ids h. fields_once name (lookup name cfg.composites) vs ids h;
  }

module _ (H : Host) (cfg : StructConfig) (idx : Index H.Float) (b : Bucket)
    (law : Covers H cfg idx b) where
  open H use {Float}
  open law use {table, stored, answering}

  pub Covers-NamesOnce : NamesOnce H idx
  Covers-NamesOnce =
      subst (NamesOnce H) (sym law.own) (own_index-NamesOnce H cfg table stored answering)

  module _ (k doc : Bytes) (there : b.get k ≡ some doc) where
    -- The fields of a list are fields of the model and of a composite index.
    abbrev Known : List Bytes → Type 0
    Known fs = All (Indexed H cfg doc) fs

    ready :
        (fs : List Bytes) (vs : List (Value Float))
        → Known fs
        → Hits H cfg doc fs vs
        → composite_ready H cfg table (H.decode doc).0 fs ≡ true
    unfolding composite_ready
    ready [] vs i h = refl
    ready (f ∷ fs) [] i h = elim h [ ]
    ready (f ∷ fs) (v ∷ vs) i (m, agrees, h) =
        let (w, s, _, _, n) = agrees i.0 m in rw (s, composite_ready) (rw n (ready fs vs i.1 h))

    tokens_found :
        (fs : List Bytes) (vs : List (Value Float)) (l : List (Bytes × Bytes))
        → Known fs
        → Hits H cfg doc fs vs
        → field_tokens H cfg table fs vs ≡ ok l
        → has_tokens H l (the_document H cfg idx b law k doc there) ≡ true
    unfolding field_tokens
    tokens_found [] vs l i h e = let nothing : [] ≡ l = ok_injective _ l e in rw (← nothing) refl
    tokens_found (f ∷ fs) [] l i h e = elim h [ ]
    tokens_found (f ∷ fs) (v ∷ vs) l i (m, agrees, h) e =
        let (t, et, g) = bind_ok (exact_token H cfg table v) _ l e in
        let (r, er, g') = bind_ok (field_tokens H cfg table fs vs) _ l g in
        let here = token_at H cfg idx b law k doc there f v t i.0 (agrees i.0 m) et in
        let rest = tokens_found fs vs r i.1 h er in
        let same : (f, t) ∷ r ≡ l = ok_injective _ l g' in
        subst (λ x. has_tokens H x (the_document H cfg idx b law k doc there) ≡ true) same
          (rw here rest)

    All-Known :
        (fs gs : List Bytes)
        → ((f : Bytes) → mentions f gs ≡ true → mentions f fs ≡ true)
        → ((f : Bytes) → mentions f fs ≡ true → in_composite f cfg.composites ≡ true)
        → All (λ f. (fc : FieldConfig) × (lookup f cfg.fields ≡ some fc)) gs
        → Known gs
    unfolding is_indexed
    All-Known fs [] sub inside a = tt
    All-Known fs (g ∷ gs) sub inside ((fc, e), a) =
        let first : mentions g (g ∷ gs) ≡ true = rw ((bytes_eq_iff g g).1 refl) refl in
        let marked = inside g (sub g first) in
        (
          (fc, e, ground (arith, marked)),
          All-Known fs gs (λ f m. sub f (ground (arith, m))) inside a,
        )

    found_fields :
        (name : Bytes) (fs : List Bytes) (vs : List (Value Float)) (ids : List Bytes)
        → lookup name cfg.composites ≡ some fs
        → Hits H cfg doc fs vs
        → search_fields H cfg table name (some fs) vs ≡ ok ids
        → In k ids
    unfolding the_document
    found_fields name fs vs ids e h g = elim (Bool-cases (not (length vs == length fs))) [
      | inl y ↦ cc (rw y at g)
      | inr n ↦
          let (l, tokens, g') = bind_ok (field_tokens H cfg table fs vs) _ ids (rw n at g) in
          let known =
            All-Known fs fs (λ f m. m)
              (λ f m. mentions-in_composite H cfg idx b law cfg.composites name f fs e m)
              (law.composites_known name fs e) in
          let marked =
            document-mention H cfg table (H.decode doc).0 (the_document H cfg idx b law k doc there)
              name fs ((law.synced k doc there).2) e (ready fs vs known h) in
          query_hit H cfg idx b law k doc there (all_terms name l) ids g'
            (rw (marked) (tokens_found fs vs l known h tokens))
    ]

    pub composite-In :
        (name : Bytes) (fs : List Bytes) (vs : List (Value Float)) (ids : List Bytes)
        → lookup name cfg.composites ≡ some fs
        → Hits H cfg doc fs vs
        → idx.search_composite name vs ≡ ok ids
        → In k ids
    unfolding own_index search_composite
    composite-In name fs vs ids e h g =
        let own = ap (λ (x : Index Float). x.search_composite name vs) (sym law.own) ∙ g in
        found_fields name fs vs ids e h
          (ap (λ o. search_fields H cfg table name o vs) (sym e) ∙ own)

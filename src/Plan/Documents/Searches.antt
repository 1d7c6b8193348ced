-- ===== src/Plan/Documents/Searches.antt =====
-- What bleve promises of a query, and what the documents that are stored for records answer to it.
use mathlib.Core.Path.{subst}
use storm_rev.Base.{
  ◌≡◌, refl, sym, ap, ◌∙◌, inl, inr, Bool, true, false, Bool-cases, Option-cases, ◌&&◌, Ordering,
  Option, none, some, List, [], ◌∷◌, map, ok, bind_ok, ok_injective, leb_ℤ, arith,
}
use storm_rev.Base.Bytes.{Bytes, bytes_eq, bytes_eq_iff, compare_bytes}
use storm_rev.Base.Sorted.{In}
use storm_rev.Value.{Value, leq, geq, Fields, Host}
use storm_rev.Config.{StructConfig, FieldConfig, lookup, missing_from_index}
use storm_rev.Plan.Candidates.Members.{Distinct}
use storm_rev.Plan.Documents.{
  BleveValue, at_time, at_text, at_number, Document, SearchQuery, term, within, all_terms,
  TableIndex, mentions, is_indexed, bleve_value, exact_token, document_fields, add_value,
  composite_ready, ready_names, document, decode_ids, search,
}

module _ (H : Host) where
  open H use {Float, compare_float}

  -- Bounds on a value of the same kind.
  abbrev pub at_least : BleveValue Float → BleveValue Float → Bool
  at_least (at_time a) (at_time x) = leb_ℤ a x
  at_least (at_text a) (at_text x) = elim (compare_bytes x a) [ Ordering.lt ↦ false | _ ↦ true ]
  at_least (at_number a) (at_number x) = compare_float x geq a
  at_least _ _ = false

  abbrev pub at_most : BleveValue Float → BleveValue Float → Bool
  at_most (at_time a) (at_time x) = leb_ℤ x a
  at_most (at_text a) (at_text x) = elim (compare_bytes a x) [ Ordering.lt ↦ false | _ ↦ true ]
  at_most (at_number a) (at_number x) = compare_float x leq a
  at_most _ _ = false

  abbrev pub has_token : Bytes → Bytes → Document Float → Bool
  has_token f t d = elim (lookup f d.tokens) [ none ↦ false | some u ↦ bytes_eq u t ]

  abbrev pub has_tokens : List (Bytes × Bytes) → Document Float → Bool
  has_tokens [] d = true
  has_tokens ((f, t) ∷ l) d = has_token f t d && has_tokens l d

  -- Whether a document meets a query.
  abbrev pub accepts_document : SearchQuery Float → Document Float → Bool
  accepts_document (term f t) d = has_token f t d
  accepts_document (within f lo hi) d = elim (lookup f d.values) [
    | none ↦ false
    | some x ↦ at_least lo x && at_most hi x
  ]
  accepts_document (all_terms name l) d = mentions name d.composites && has_tokens l d

  -- What bleve and base64 do: the hits of a query that ends without an error are the documents that
  -- meet it, perhaps with others, each once, by the ids that they were stored under; and an id that
  -- was encoded is decoded. A query has fewer hits than bleveMaxResults.
  pub record Answering (T : TableIndex Float) (stored : Bytes → Option (Document Float))
      : Type 0 where
    pub decodes : (id : Bytes) → T.decode_id (T.encode id) ≡ some id
    pub finds :
        (query : SearchQuery Float) (raw : List Bytes)
        → T.hits query ≡ ok raw
        → (ids : List Bytes) × (raw ≡ map T.encode ids)
          × Distinct ids
          × ((k : Bytes) (d : Document Float)
              → stored k ≡ some d
              → accepts_document query d ≡ true
              → In k ids)

  module _ (cfg : StructConfig) (T : TableIndex Float) (stored : Bytes → Option (Document Float))
      (law : Answering T stored) where
    decode_ids-map : (ids : List Bytes) → decode_ids H cfg T (map T.encode ids) ≡ ids
    unfolding decode_ids
    decode_ids-map [] = refl
    decode_ids-map (id ∷ ids) = rw (law.decodes id) (ap (λ l. id ∷ l) (decode_ids-map ids))

    -- A search names no id twice, and every document that meets the query.
    pub search-found :
        (query : SearchQuery Float) (ids : List Bytes)
        → search H cfg T query ≡ ok ids
        → Distinct ids
          × ((k : Bytes) (d : Document Float)
              → stored k ≡ some d
              → accepts_document query d ≡ true
              → In k ids)
    unfolding search
    search-found query ids h = elim (Bool-cases T.dirty) [
      | inl y ↦ cc (rw y at h)
      | inr n ↦ elim (Option-cases T.opening) [
        | inr (e, o) ↦ cc (rw (n, o) at h)
        | inl o ↦
            let (raw, got, e) = bind_ok (T.hits query) _ ids (rw (n, o) at h) in
            let (given, r, once, found) = law.finds query raw got in
            let same : given ≡ ids =
              sym (decode_ids-map given) ∙ ap (decode_ids H cfg T) (sym r) ∙ ok_injective _ ids e in
            subst
              (λ l.
                Distinct l
                × ((k : Bytes) (d : Document Float)
                    → stored k ≡ some d
                    → accepts_document query d ≡ true
                    → In k l))
              same (once, found)
      ]
    ]

  module _ (cfg : StructConfig) (T : TableIndex Float) (fields : Fields Float) where
    -- The document has the token of a field's value, and its value for ranges.
    abbrev pub Stored : Bytes → Value Float → Document Float → Type 0
    Stored f w d =
        (t : Bytes) × (exact_token H cfg T w ≡ ok t)
        × (lookup f d.tokens ≡ some t)
        × ((x : BleveValue Float) → bleve_value H w ≡ some x → lookup f d.values ≡ some x)

    added :
        (f : Bytes) (w : Value Float) (t : Bytes) (r d : Document Float)
        → exact_token H cfg T w ≡ ok t
        → record r {
          tokens = (f, t) ∷ r.tokens;
          values = add_value H cfg T f (bleve_value H w) r.values;
        }
          ≡ d
        → Stored f w d
    added f w t r d e same = (
      t,
      e,
      ap (λ (x : Document Float). lookup f x.tokens) (sym same)
          ∙ rw ((bytes_eq_iff f f).1 refl) refl,
      λ x b.
          ap (λ (y : Document Float). lookup f y.values) (sym same)
          ∙ rw (b, (bytes_eq_iff f f).1 refl) refl,
    )

    here :
        (f : Bytes) (fc : FieldConfig) (l : List (Bytes × FieldConfig)) (w : Value Float)
        (d : Document Float)
        → document_fields H cfg T ((f, fc) ∷ l) fields ≡ ok d
        → is_indexed cfg f fc ≡ true
        → fields f ≡ some w
        → missing_from_index H w ≡ false
        → Stored f w d
    unfolding document_fields
    here f fc l w d h i s m =
        let (t, e, g) = bind_ok (exact_token H cfg T w) _ d (rw (i, s, m) at h) in
        let (r, _, g') = bind_ok (document_fields H cfg T l fields) _ d g in
        added f w t r d e (ok_injective _ d g')

    -- A document whose other fields are those of another.
    abbrev Beside : Bytes → Document Float → Document Float → Type 0
    Beside f d r = (lookup f d.tokens ≡ lookup f r.tokens) × (lookup f d.values ≡ lookup f r.values)

    lookup-add_value :
        (g f : Bytes) (o : Option (BleveValue Float)) (l : List (Bytes × BleveValue Float))
        → bytes_eq g f ≡ false
        → lookup f (add_value H cfg T g o l) ≡ lookup f l
    lookup-add_value g f none l n = refl
    lookup-add_value g f (some x) l n = rw n refl

    later :
        (g f : Bytes) (gc : FieldConfig) (l : List (Bytes × FieldConfig)) (d : Document Float)
        → bytes_eq g f ≡ false
        → document_fields H cfg T ((g, gc) ∷ l) fields ≡ ok d
        → (r : Document Float) × (document_fields H cfg T l fields ≡ ok r) × Beside f d r
    unfolding document_fields
    later g f gc l d n h = elim (Bool-cases (is_indexed cfg g gc)) [
      | inr i ↦ (d, rw i at h, (refl, refl))
      | inl i ↦ elim (Option-cases (fields g)) [
        | inl s ↦ (d, rw (i, s) at h, (refl, refl))
        | inr (w, s) ↦ elim (Bool-cases (missing_from_index H w)) [
          | inl m ↦ (d, rw (i, s, m) at h, (refl, refl))
          | inr m ↦
              let (t, e, k) = bind_ok (exact_token H cfg T w) _ d (rw (i, s, m) at h) in
              let (r, made, k') = bind_ok (document_fields H cfg T l fields) _ d k in
              let same = sym (ok_injective _ d k') in
              (
                r,
                made,
                (
                  ap (λ (x : Document Float). lookup f x.tokens) same ∙ rw n refl,
                  ap (λ (x : Document Float). lookup f x.values) same
                      ∙ lookup-add_value g f (bleve_value H w) r.values n,
                ),
              )
        ]
      ]
    ]

    -- The document of a record has each indexed field that is not zero.
    fields-Stored :
        (l : List (Bytes × FieldConfig)) (d : Document Float) (f : Bytes) (fc : FieldConfig)
        (w : Value Float)
        → document_fields H cfg T l fields ≡ ok d
        → lookup f l ≡ some fc
        → is_indexed cfg f fc ≡ true
        → fields f ≡ some w
        → missing_from_index H w ≡ false
        → Stored f w d
    fields-Stored [] d f fc w h e i s m = cc
    fields-Stored ((g, gc) ∷ l) d f fc w h e i s m = elim (Bool-cases (bytes_eq g f)) [
      | inl y ↦
          let same : g ≡ f = (bytes_eq_iff g f).0 y in
          let conf : gc ≡ fc = ground arith in
          here f fc l w d
            (subst (λ x. document_fields H cfg T ((x, fc) ∷ l) fields ≡ ok d) same
              (subst (λ c. document_fields H cfg T ((g, c) ∷ l) fields ≡ ok d) conf h))
            i s m
      | inr n ↦
          let (r, made, (tokens, values)) = later g f gc l d n h in
          let (t, k, at, value) = fields-Stored l r f fc w made (rw n at e) i s m in
          (t, k, tokens ∙ at, λ x b. values ∙ value x b)
    ]

    pub document-Stored :
        (d : Document Float) (f : Bytes) (fc : FieldConfig) (w : Value Float)
        → document H cfg T fields ≡ ok d
        → lookup f cfg.fields ≡ some fc
        → is_indexed cfg f fc ≡ true
        → fields f ≡ some w
        → missing_from_index H w ≡ false
        → Stored f w d
    unfolding document
    document-Stored d f fc w h e i s m =
        let (r, made, g) = bind_ok (document_fields H cfg T cfg.fields fields) _ d h in
        let same = sym (ok_injective _ d g) in
        let (t, k, at, value) = fields-Stored cfg.fields r f fc w made e i s m in
        (
          t,
          k,
          ap (λ (x : Document Float). lookup f x.tokens) same ∙ at,
          λ x b. ap (λ (y : Document Float). lookup f y.values) same ∙ value x b,
        )

    names-mention :
        (l : List (Bytes × List Bytes)) (name : Bytes) (fs : List Bytes)
        → lookup name l ≡ some fs
        → composite_ready H cfg T fields fs ≡ true
        → mentions name (ready_names H cfg T fields l) ≡ true
    unfolding ready_names
    names-mention [] name fs e r = cc
    names-mention ((n, gs) ∷ l) name fs e r = elim (Bool-cases (bytes_eq n name)) [
      | inl y ↦
          let same : gs ≡ fs = ground arith in
          let now : composite_ready H cfg T fields gs ≡ true =
            ap (composite_ready H cfg T fields) same ∙ r in
          rw (now, y) refl
      | inr k ↦
          let rest = names-mention l name fs (rw k at e) r in
          elim (Bool-cases (composite_ready H cfg T fields gs)) [
            | inl t ↦ rw (t, k) rest
            | inr t ↦ rw t rest
          ]
    ]

    -- The document of a record has the mark of each composite index all of whose fields are not zero.
    pub document-mention :
        (d : Document Float) (name : Bytes) (fs : List Bytes)
        → document H cfg T fields ≡ ok d
        → lookup name cfg.composites ≡ some fs
        → composite_ready H cfg T fields fs ≡ true
        → mentions name d.composites ≡ true
    unfolding document
    document-mention d name fs h e r =
        let (x, made, g) = bind_ok (document_fields H cfg T cfg.fields fields) _ d h in
        ap (λ (y : Document Float). mentions name y.composites) (sym (ok_injective _ d g))
        ∙ names-mention cfg.composites name fs e r

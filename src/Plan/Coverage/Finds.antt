-- ===== src/Plan/Coverage/Finds.antt =====
-- What the searches of a covering index find: each record whose fields have the values that are looked
-- up, or lie in the range; and no id twice.
use mathlib.Core.Path.{subst}
use storm_rev.Base.{
  ◌≡◌, refl, sym, ap, ◌∙◌, inl, inr, true, false, Bool-cases, Option, none, some, List, [], ◌∷◌, ok,
  ◌>>=◌, bind_ok, ok_injective, arith,
}
use storm_rev.Base.Bytes.{Bytes, bytes_eq, bytes_eq_iff}
use storm_rev.Base.Sorted.{In}
use storm_rev.Value.{Value, Host}
use storm_rev.Config.{StructConfig, FieldConfig, lookup, can_use_index, missing_from_index}
use storm_rev.Bucket.{Bucket}
use storm_rev.Query.Order.{to_bytes}
use storm_rev.Plan.Documents.{
  BleveValue, at_time, at_text, at_number, at_flag, Document, SearchQuery, term, mentions,
  in_composite, is_indexed, bleve_value, bound_of, range_query, exact_token, search, search_exact,
  search_range, own_index,
}
use storm_rev.Plan.Documents.Searches.{
  at_least, at_most, has_token, accepts_document, search-found, Stored, document-Stored,
}
use storm_rev.Plan.Candidates.{Index}
use storm_rev.Plan.Coverage.{Indexed, Same, Agrees, Bounded, Covers}

module _ (H : Host) (cfg : StructConfig) (idx : Index H.Float) (b : Bucket)
    (law : Covers H cfg idx b) where
  open H use {Float}
  open law use {table, stored, answering}

  -- An indexed field by the tests of the planner.
  pub can_use-Indexed : (doc f : Bytes) → can_use_index cfg f ≡ true → Indexed H cfg doc f
  unfolding can_use_index is_indexed
  can_use-Indexed doc f u = found (lookup f cfg.fields) refl
    where
      found : (o : Option FieldConfig) → lookup f cfg.fields ≡ o → Indexed H cfg doc f
      found none e = absurd (ground arith)
      found (some fc) e = elim (Bool-cases fc.is_id) [
        | inl i ↦ (fc, e, rw (law.ids_indexed f fc e i) refl)
        | inr n ↦ elim (Bool-cases (bytes_eq fc.index [])) [
          | inr k ↦ (fc, e, rw k refl)
          | inl k ↦ absurd (ground arith)
        ]
      ]

  pub mentions-in_composite :
      (l : List (Bytes × List Bytes)) (name f : Bytes) (fs : List Bytes)
      → lookup name l ≡ some fs
      → mentions f fs ≡ true
      → in_composite f l ≡ true
  mentions-in_composite [] name f fs e m = cc
  mentions-in_composite ((n, gs) ∷ l) name f fs e m = elim (Bool-cases (bytes_eq n name)) [
    | inl y ↦
        let same : gs ≡ fs = ground arith in
        let here : mentions f gs ≡ true = ap (mentions f) same ∙ m in rw here refl
    | inr k ↦ let rest = mentions-in_composite l name f fs (rw k at e) m in ground arith
  ]

  -- The record's document, with a field that is not zero.
  module _ (k doc : Bytes) (there : b.get k ≡ some doc) where
    unfoldable pub the_document : Document Float
    the_document = (law.synced k doc there).0

    pub field_kept :
        (f : Bytes) (w : Value Float)
        → Indexed H cfg doc f
        → (H.decode doc).0 f ≡ some w
        → missing_from_index H w ≡ false
        → Stored H cfg table (H.decode doc).0 f w the_document
    unfolding the_document
    field_kept f w (fc, e, i) s m =
        let (d, at, made) = law.synced k doc there in
        document-Stored H cfg table (H.decode doc).0 d f fc w made e i s m

    pub stored_at : stored k ≡ some the_document
    unfolding the_document
    stored_at = (law.synced k doc there).1

    -- Same bytes give the same token.
    pub token_at :
        (f : Bytes) (v : Value Float) (t : Bytes)
        → Indexed H cfg doc f
        → Same H cfg doc f v
        → exact_token H cfg table v ≡ ok t
        → has_token H f t the_document ≡ true
    unfolding exact_token
    token_at f v t i (w, s, raw, same, m) e =
        let (u, made, at, _) = field_kept f w i s m in
        let both : exact_token H cfg table w ≡ exact_token H cfg table v =
          ap (λ r. r >>= λ x. ok (table.encode x)) same in
        let one : u ≡ t = ok_injective u t (sym made ∙ both ∙ e) in
        rw (at, has_token) ((bytes_eq_iff u t).1 one)

    pub query_hit :
        (query : SearchQuery Float) (ids : List Bytes)
        → search H cfg table query ≡ ok ids
        → accepts_document H query the_document ≡ true
        → In k ids
    query_hit query ids h a =
        (search-found H cfg table stored answering query ids h).1 k the_document stored_at a

    pub exact-In :
        (f : Bytes) (v : Value Float) (ids : List Bytes)
        → Indexed H cfg doc f
        → missing_from_index H v ≡ false
        → Agrees H cfg doc f v
        → idx.search_exact f v ≡ ok ids
        → In k ids
    unfolding own_index search_exact
    exact-In f v ids i m agrees h =
        let own = ap (λ (x : Index Float). x.search_exact f v) (sym law.own) ∙ h in
        let (t, e, g) = bind_ok (exact_token H cfg table v) _ ids own in
        query_hit (term f t) ids g (token_at f v t i (agrees i m) e)

    -- The key of a record whose ID has the value.
    pub key-bytes :
        (f id : Bytes) (v : Value Float) (fc : FieldConfig)
        → Indexed H cfg doc f
        → missing_from_index H v ≡ false
        → lookup f cfg.fields ≡ some fc
        → fc.is_id ≡ true
        → to_bytes H v ≡ ok id
        → Agrees H cfg doc f v
        → k ≡ id
    key-bytes f id v fc i m l is t agrees =
        let (w, s, raw, _, _) = agrees i m in
        ok_injective k id (sym (law.keyed k doc f fc w there l is s) ∙ raw ∙ t)

    -- Bounds that a query takes, and a value in both.
    range-accepted :
        (f : Bytes) (lo hi : Option (BleveValue Float)) (query : SearchQuery Float)
        (x : BleveValue Float) (d : Document Float)
        → range_query H f lo hi ≡ ok query
        → ((a : BleveValue Float) → lo ≡ some a → at_least H a x ≡ true)
        → ((a : BleveValue Float) → hi ≡ some a → at_most H a x ≡ true)
        → lookup f d.values ≡ some x
        → accepts_document H query d ≡ true
    unfolding range_query
    range-accepted f none hi query x d h low high at = cc
    range-accepted f (some (at_flag a)) hi query x d h low high at = cc
    range-accepted f (some (at_time a)) none query x d h low high at = cc
    range-accepted f (some (at_time a)) (some (at_text c)) query x d h low high at = cc
    range-accepted f (some (at_time a)) (some (at_number c)) query x d h low high at = cc
    range-accepted f (some (at_time a)) (some (at_flag c)) query x d h low high at = cc
    range-accepted f (some (at_time a)) (some (at_time c)) query x d h low high at =
        subst (λ q. accepts_document H q d ≡ true) (ok_injective _ query h)
          (rw (at, accepts_document) (rw (low (at_time a) refl, high (at_time c) refl) refl))
    range-accepted f (some (at_text a)) none query x d h low high at = cc
    range-accepted f (some (at_text a)) (some (at_time c)) query x d h low high at = cc
    range-accepted f (some (at_text a)) (some (at_number c)) query x d h low high at = cc
    range-accepted f (some (at_text a)) (some (at_flag c)) query x d h low high at = cc
    range-accepted f (some (at_text a)) (some (at_text c)) query x d h low high at =
        subst (λ q. accepts_document H q d ≡ true) (ok_injective _ query h)
          (rw (at, accepts_document) (rw (low (at_text a) refl, high (at_text c) refl) refl))
    range-accepted f (some (at_number a)) none query x d h low high at = cc
    range-accepted f (some (at_number a)) (some (at_time c)) query x d h low high at = cc
    range-accepted f (some (at_number a)) (some (at_text c)) query x d h low high at = cc
    range-accepted f (some (at_number a)) (some (at_flag c)) query x d h low high at = cc
    range-accepted f (some (at_number a)) (some (at_number c)) query x d h low high at =
        subst (λ q. accepts_document H q d ≡ true) (ok_injective _ query h)
          (rw (at, accepts_document) (rw (low (at_number a) refl, high (at_number c) refl) refl))

    pub range-In :
        (f : Bytes) (lo hi : Value Float) (ids : List Bytes)
        → Indexed H cfg doc f
        → missing_from_index H lo ≡ false
        → missing_from_index H hi ≡ false
        → Bounded H cfg doc (at_least H) f lo
        → Bounded H cfg doc (at_most H) f hi
        → idx.search_range f lo hi ≡ ok ids
        → In k ids
    unfolding own_index search_range range_query
    range-In f lo hi ids i ml mh low high h =
        let own = ap (λ (x : Index Float). x.search_range f lo hi) (sym law.own) ∙ h in
        let (query, q, g) = bind_ok (range_query H f (bound_of H lo) (bound_of H hi)) _ ids own in
        let (w, s, m, above) = low i ml in
        let (w', s', _, below) = high i mh in
        let one : w' ≡ w = some_injective w' w (sym s' ∙ s) in
        in_range f (bound_of H lo) (bound_of H hi) w query ids i s m q above
          (λ a e. let (x, bx, t) = below a e in (x, ap (bleve_value H) (sym one) ∙ bx, t)) g
      where
        some_injective : {A : Type 0} (x y : A) → some x ≡ some y → x ≡ y
        some_injective x y e = cc

        in_range :
            (f : Bytes) (lo hi : Option (BleveValue Float)) (w : Value Float)
            (query : SearchQuery Float) (ids : List Bytes)
            → Indexed H cfg doc f
            → (H.decode doc).0 f ≡ some w
            → missing_from_index H w ≡ false
            → range_query H f lo hi ≡ ok query
            → ((a : BleveValue Float)
                → lo ≡ some a
                → (x : BleveValue Float) × (bleve_value H w ≡ some x) × (at_least H a x ≡ true))
            → ((a : BleveValue Float)
                → hi ≡ some a
                → (x : BleveValue Float) × (bleve_value H w ≡ some x) × (at_most H a x ≡ true))
            → search H cfg table query ≡ ok ids
            → In k ids
        in_range f none hi w query ids i s m q low high g = cc
        in_range f (some a) hi w query ids i s m q low high g =
            let (x, v, t) = low a refl in
            let (_, _, _, value) = field_kept f w i s m in
            query_hit query ids g (
              range-accepted f (some a) hi query x the_document q
                (λ c e. let one : a ≡ c = cc in rw (← one) t)
                (λ c e.
                  let (y, v', t') = high c e in
                  let one : y ≡ x = some_injective y x (sym v' ∙ v) in rw (← one) t')
                (value x v))

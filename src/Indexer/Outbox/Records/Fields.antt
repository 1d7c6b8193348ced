-- ===== src/Indexer/Outbox/Records/Fields.antt =====
-- bleve_outbox.go: documents through encodeDurableIndexFields and decodeDurableIndexFields.
use storm_rev.Base.{
  ◌≡◌, refl, sym, ap, ◌∙◌, inl, inr, true, false, Bool-cases, Option, none, some, List, [], ◌∷◌,
  map, ok, bind_ok, ok_injective, arith, if◌then◌else◌,
}
use storm_rev.Base.Bytes.{Bytes, compare_bytes, bytes_eq, bytes_eq_iff, bytes_eq_sym}
use storm_rev.Config.{lookup, assign, lookup-assign}
use storm_rev.Meta.{among}
use storm_rev.Indexer.Outbox.{DocValue, text, number, flag, time, other, Doc, IndexField}
use storm_rev.Indexer.Outbox.Records.{
  insert_name, sort_names, encode_value, encode_names, encode_fields, decode_value, decode_onto,
  decode_fields,
}

-- What is encoded of a value is decoded as the value.
value_back :
    (n : Bytes) (o : Option DocValue) (f : IndexField)
    → encode_value n o ≡ ok f
    → (v : DocValue) × (o ≡ some v) × (f.name ≡ n) × (decode_value f ≡ ok v)
unfolding decode_value compare_bytes
value_back n none f h = cc
value_back n (some (text b)) f h =
    let e = sym (ok_injective _ f h) in
    (text b, refl, ap (λ (x : IndexField). x.name) e, ap decode_value e)
value_back n (some (number b)) f h =
    let e = sym (ok_injective _ f h) in
    (number b, refl, ap (λ (x : IndexField). x.name) e, ap decode_value e)
value_back n (some (flag b)) f h =
    let e = sym (ok_injective _ f h) in
    (flag b, refl, ap (λ (x : IndexField). x.name) e, ap decode_value e)
value_back n (some (time b)) f h =
    let e = sym (ok_injective _ f h) in
    (time b, refl, ap (λ (x : IndexField). x.name) e, ap decode_value e)
value_back n (some (other b)) f h = cc

-- Decoding the fields of some names onto a document gives the names their values.
decode_names :
    (doc : Doc) (ns : List Bytes) (fs : List IndexField) (onto : Doc)
    → encode_names doc ns ≡ ok fs
    → (out : Doc) × (decode_onto fs onto ≡ ok out)
      × ((x : Bytes) → lookup x out ≡ (if among x ns then lookup x doc else lookup x onto))
unfolding decode_onto
decode_names doc [] fs onto h =
    let e = ok_injective [] fs h in (onto, ap (λ l. decode_onto l onto) (sym e), λ x. refl)
decode_names doc (n ∷ ns) fs onto h =
    let (f, k, h') = bind_ok (encode_value n (lookup n doc)) _ fs h in
    let (gs, g, e) = bind_ok (encode_names doc ns) _ fs h' in
    let same = ok_injective (f ∷ gs) fs e in
    let (v, found, name, back) = value_back n (lookup n doc) f k in
    let (out, d, l) = decode_names doc ns gs (assign n v onto) g in
    (
      out,
      ap (λ l. decode_onto l onto) (sym same)
          ∙ rw (back, decode_onto) (ap (λ m. decode_onto gs (assign m v onto)) name ∙ d),
      λ x. l x ∙ rw (lookup-assign n x v onto) (here x v found),
    )
  where
    here :
        (x : Bytes) (v : DocValue)
        → lookup n doc ≡ some v
        → (if among x ns then lookup x doc else if bytes_eq n x then some v else lookup x onto)
          ≡ (if (if bytes_eq x n then true else among x ns) then lookup x doc else lookup x onto)
    here x v found = elim (Bool-cases (bytes_eq n x)) [
      | inl y ↦
          let e : n ≡ x = (bytes_eq_iff n x).0 y in
          let f : lookup x doc ≡ some v = ap (λ u. lookup u doc) (sym e) ∙ found in
          let z : bytes_eq x n ≡ true = (bytes_eq_iff x n).1 (sym e) in
          rw (y, z, f)
            (elim (among x ns) as (λ b. (if b then some v else some v) ≡ some v) [
              | true ↦ refl
              | false ↦ refl
            ])
      | inr z ↦ rw (z, bytes_eq_sym n x z) refl
    ]

among-insert_name :
    (x y : Bytes) (ns : List Bytes)
    → among x (insert_name y ns) ≡ (if bytes_eq x y then true else among x ns)
unfolding insert_name
among-insert_name x y [] = refl
among-insert_name x y (n ∷ ns) = ground (arith, among-insert_name x y ns)

among-sort_names : (x : Bytes) (ns : List Bytes) → among x (sort_names ns) ≡ among x ns
unfolding sort_names
among-sort_names x [] = refl
among-sort_names x (n ∷ ns) =
    among-insert_name x n (sort_names ns) ∙ rw (among-sort_names x ns) refl

-- A name that a document does not have has no value in it.
unnamed_value :
    (x : Bytes) (doc : Doc)
    → among x (map (λ (e : Bytes × DocValue). e.0) doc) ≡ false
    → lookup x doc ≡ none
unnamed_value x [] h = refl
unnamed_value x ((n, v) ∷ doc) h = elim (Bool-cases (bytes_eq x n)) [
  | inl y ↦ cc (rw y at h)
  | inr z ↦ rw (bytes_eq_sym x n z) (unnamed_value x doc (rw z at h))
]

-- Whatever fields encodeDurableIndexFields makes of a document, by the types of its values,
-- decodeDurableIndexFields reads them, by their kinds, without an error as a document with the same
-- value under every name. A float64 stands as its bits.
pub decode_fields-encode_fields :
    (doc : Doc) (fs : List IndexField)
    → encode_fields doc ≡ ok fs
    → (out : Doc) × (decode_fields fs ≡ ok out) × ((x : Bytes) → lookup x out ≡ lookup x doc)
unfolding encode_fields decode_fields
decode_fields-encode_fields doc fs h =
    let names = map (λ (e : Bytes × DocValue). e.0) doc in
    let (out, d, l) = decode_names doc (sort_names names) fs [] h in
    (
      out,
      d,
      λ x.
          l x
          ∙ rw (among-sort_names x names) (elim (Bool-cases (among x names)) [
            | inl y ↦ rw y refl
            | inr z ↦ rw (z, unnamed_value x doc z) refl
          ]),
    )

-- ===== src/Meta/Columns.antt =====
-- What holds of every schema that is stored.
use storm_rev.Base.{
  ◌≡◌, ◌⊎◌, refl, sym, ap, ◌∙◌, inl, inr, Bool, true, false, Bool-cases, not, ◌&&◌, ◌||◌, List, [],
  ◌∷◌, map, All, Error, Outcome, ok, err, guard, bind_ok, ◌>>◌, arith, if◌then◌else◌,
}
use storm_rev.Base.Bytes.{Bytes, ascii, compare_bytes, bytes_eq, bytes_eq_iff}
use storm_rev.Base.Sorted.{In}
use storm_rev.Config.{tag_unique}
use storm_rev.Meta.{
  Names, Column, Schema, among, index_tags, valid_index, explicit_id, to_field, valid_name, convert,
  stored_schema,
}

-- No name of the fields is in a list, and none is there twice.
abbrev pub Fresh : List Bytes → List Column → Type 0
Fresh seen [] = Unit
Fresh seen (f ∷ fs) = (among f.name seen ≡ false) × Fresh (f.name ∷ seen) fs

guard_ok :
    {B : Type 0} (b : Bool) (e : Error) (r : Outcome B) (x : B)
    → (guard b e >> r) ≡ ok x
    → (b ≡ true) × (r ≡ ok x)
guard_ok true e r x h = (refl, h)
guard_ok false e r x h = cc

-- What the loop requires of a field: a valid name, a JSON name, a known tag, and the unique tag on the ID.
abbrev pub Sound : Names → Column → Type 0
Sound N f =
    (valid_name N f.name ≡ true)
    × (among f.index index_tags ≡ true)
    × ((f.is_id ≡ false) ⊎ (f.index ≡ tag_unique))

-- The ID is where the name is `t`, and nowhere else.
abbrev pub IdAt : Bytes → Column → Type 0
IdAt t c = (c.is_id ≡ false) ⊎ (c.name ≡ t)

-- A field is marked as the ID and has the name.
abbrev pub Marked : Bytes → List Column → Type 0
Marked t fs = (f : Column) × In f fs × (f.is_id ≡ true) × (f.name ≡ t)

Marked-later : (t : Bytes) (c : Column) (fs : List Column) → Marked t fs → Marked t (c ∷ fs)
Marked-later t c fs (f, m, i, n) = (f, inr m, i, n)

unique_known : among tag_unique index_tags ≡ true
unfolding compare_bytes
unique_known = refl

module _ (N : Names) where
  checked :
      (explicit : Bytes) (seen : List Bytes) (id : Bytes) (c : Column) (cs fs : List Column)
      (last : Bytes)
      → convert N explicit seen id (c ∷ cs) ≡ ok (fs, last)
      → (r : List Column) × (valid_name N c.name ≡ true)
        × (among c.name seen ≡ false)
        × (among c.index index_tags ≡ true)
        × (fs ≡ to_field explicit c ∷ r)
        × (convert N explicit
              (c.name ∷ seen)
              (if (to_field explicit c).is_id then (to_field explicit c).name else id)
              cs
            ≡ ok (r, last))
  unfolding convert valid_index
  checked explicit seen id c cs fs last h =
      let (v, h₁) = guard_ok (valid_name N c.name) Error.no_name _ (fs, last) h in
      let (n, h₂) = guard_ok (not (among c.name seen)) Error.no_name _ (fs, last) h₁ in
      let (t, h₃) = guard_ok (among c.index index_tags) Error.unknown_tag _ (fs, last) h₂ in
      let (r, e, f) = bind_ok _ _ (fs, last) h₃ in
      let same : (to_field explicit c ∷ r.0, r.1) ≡ (fs, last) = ground arith in
      (
        r.0,
        v,
        ground arith,
        t,
        ap (λ (x : List Column × Bytes). x.0) (sym same),
        f_end r (ap (λ (x : List Column × Bytes). x.1) same) e,
      )
    where
      f_end :
          (r : List Column × Bytes)
          → r.1 ≡ last
          → convert N explicit
              (c.name ∷ seen)
              (if (to_field explicit c).is_id then (to_field explicit c).name else id)
              cs
            ≡ ok r
          → convert N explicit
              (c.name ∷ seen)
              (if (to_field explicit c).is_id then (to_field explicit c).name else id)
              cs
            ≡ ok (r.0, last)
      f_end r q e = e ∙ ap (λ z. ok (r.0, z)) q

  tag_cases :
      (i : Bool) (tag : Bytes)
      → among tag index_tags ≡ true
      → among (if i then tag_unique else tag) index_tags ≡ true
  tag_cases true tag h = unique_known
  tag_cases false tag h = h

  field_index :
      (i : Bool) (tag : Bytes) → (i ≡ false) ⊎ ((if i then tag_unique else tag) ≡ tag_unique)
  field_index true tag = inr refl
  field_index false tag = inl refl

  field_of :
      (explicit : Bytes) (c : Column)
      → valid_name N c.name ≡ true
      → among c.index index_tags ≡ true
      → Sound N (to_field explicit c)
  unfolding to_field
  field_of explicit c v t = (
    v,
    tag_cases (c.is_id || (bytes_eq explicit [] && bytes_eq c.name (ascii "ID"))) c.index t,
    field_index (c.is_id || (bytes_eq explicit [] && bytes_eq c.name (ascii "ID"))) c.index,
  )

  converted :
      (explicit : Bytes) (seen : List Bytes) (id t : Bytes) (cs fs : List Column) (last : Bytes)
      → All (λ c. IdAt t (to_field explicit c)) cs
      → convert N explicit seen id cs ≡ ok (fs, last)
      → Fresh seen fs
        × All (Sound N) fs
        × All (IdAt t) fs
        × (map (λ (f : Column). f.name) fs ≡ map (λ (c : Column). c.name) cs)
        × ((last ≡ id) ⊎ ((last ≡ t) × In last (map (λ (f : Column). f.name) fs) × Marked last fs))
  unfolding convert to_field
  converted explicit seen id t [] fs last a h =
      let e : ([], id) ≡ (fs, last) = ground arith in
      let f : [] ≡ fs = ap (λ (x : List Column × Bytes). x.0) e in
      let l : id ≡ last = ap (λ (x : List Column × Bytes). x.1) e in
      rw (sym f) (tt, tt, tt, refl, inl (sym l))
  converted explicit seen id t (c ∷ cs) fs last a h =
      let (r, v, n, k, e, g) = checked explicit seen id c cs fs last h in
      let (fresh, sound, at, names, end) =
        converted explicit (c.name ∷ seen)
          (if (to_field explicit c).is_id then (to_field explicit c).name else id) t cs r last a.1
          g in
      rw e (
        (n, fresh),
        (field_of explicit c v k, sound),
        (a.0, at),
        ap (λ l. c.name ∷ l) names,
        last_cases (to_field explicit c) r a.0 end,
      )
    where
      last_cases :
          (x : Column) (r : List Column)
          → IdAt t x
          → (last ≡ (if x.is_id then x.name else id))
            ⊎ ((last ≡ t) × In last (map (λ (f : Column). f.name) r) × Marked last r)
          → (last ≡ id)
            ⊎ ((last ≡ t) × In last (map (λ (f : Column). f.name) (x ∷ r)) × Marked last (x ∷ r))
      last_cases x r o (inr (q, m, k)) = inr (q, inr m, Marked-later last x r k)
      last_cases x r o (inl q) = elim (Bool-cases x.is_id) [
        | inr n ↦ inl (rw n at q)
        | inl y ↦
            let named : last ≡ x.name = rw y at q in
            elim o [ inl f ↦ cc | inr p ↦ inr (named ∙ p, inl named, (x, inl refl, y, sym named)) ]
      ]

-- Where the ID may be after the first loop.
no_more :
    (cs : List Column) (found e : Bytes)
    → bytes_eq found [] ≡ false
    → explicit_id cs found ≡ ok e
    → (e ≡ found) × All (λ (c : Column). c.is_id ≡ false) cs
unfolding explicit_id
no_more [] found e n h = (ground arith, tt)
no_more (c ∷ cs) found e n h = elim (Bool-cases c.is_id) [
  | inl y ↦ let bad : err Error.no_id ≡ ok e = ground arith in cc
  | inr k ↦ let (q, a) = no_more cs found e n (rw k at h) in (q, (k, a))
]

abbrev pub Named : Column → Type 0
Named c = bytes_eq c.name [] ≡ false

-- Each marked column has the explicit name.
marked : (cs : List Column) (e : Bytes) → All Named cs → explicit_id cs [] ≡ ok e → All (IdAt e) cs
unfolding explicit_id compare_bytes
marked [] e a h = tt
marked (c ∷ cs) e a h = elim (Bool-cases c.is_id) [
  | inl y ↦ let (q, f) = no_more cs c.name e a.0 (rw y at h) in (inr (sym q), rest cs f)
  | inr k ↦ (inl k, marked cs e a.1 (rw k at h))
]
  where
    rest : (ds : List Column) → All (λ (d : Column). d.is_id ≡ false) ds → All (IdAt e) ds
    rest [] f = tt
    rest (d ∷ ds) f = (inl f.0, rest ds f.1)

-- The name that the ID has: the explicit one, or "ID" where no column is marked.
abbrev pub id_name : Bytes → Bytes
id_name explicit = if bytes_eq explicit [] then ascii "ID" else explicit

id_at : (e : Bytes) (c : Column) → Named c → IdAt e c → IdAt (id_name e) (to_field e c)
unfolding to_field
id_at e c n a = elim (Bool-cases (bytes_eq e [])) [
  | inr k ↦ rw k (elim a [ inl f ↦ inl (rw f refl) | inr q ↦ inr q ])
  | inl y ↦ rw y (elim a [
    | inr q ↦ let z : bytes_eq c.name [] ≡ true = ap (λ x. bytes_eq x []) q ∙ y in cc
    | inl f ↦ elim (Bool-cases (bytes_eq c.name (ascii "ID"))) [
      | inl w ↦ inr ((bytes_eq_iff c.name (ascii "ID")).0 w)
      | inr w ↦ inl (rw (f, w) refl)
    ]
  ])
]

module _ (N : Names) (strict : N.is_identifier [] ≡ false) where
  valid-Named : (c : Column) → valid_name N c.name ≡ true → Named c
  unfolding valid_name
  valid-Named c v = elim (Bool-cases (bytes_eq c.name [])) [
    | inr n ↦ n
    | inl y ↦
        let e : c.name ≡ [] = (bytes_eq_iff c.name []).0 y in
        let bad : N.is_identifier c.name ≡ false = ap N.is_identifier e ∙ strict in
        let z : (N.is_identifier c.name && N.starts_upper c.name) ≡ true = v in ground arith
  ]

  All-Named :
      (explicit : Bytes) (seen : List Bytes) (id : Bytes) (cs fs : List Column) (last : Bytes)
      → convert N explicit seen id cs ≡ ok (fs, last)
      → All Named cs
  All-Named explicit seen id [] fs last h = tt
  All-Named explicit seen id (c ∷ cs) fs last h =
      let (r, v, n, k, e, g) = checked N explicit seen id c cs fs last h in
      (valid-Named c v, All-Named explicit (c.name ∷ seen) _ cs r last g)

  All-at :
      (e : Bytes) (cs : List Column)
      → All Named cs
      → All (IdAt e) cs
      → All (λ c. IdAt (id_name e) (to_field e c)) cs
  All-at e [] n a = tt
  All-at e (c ∷ cs) n a = (id_at e c n.0 a.0, All-at e cs n.1 a.1)

  not_empty : (x : Bytes) → x ≡ [] → not (bytes_eq x []) ≡ true → ⊥
  unfolding compare_bytes
  not_empty x q k = let z : not (bytes_eq [] []) ≡ true = rw q at k in cc

  -- Every schema that storedSchemaFromColumns makes has the columns' names in their order, no name
  -- twice; each name is a valid one, each index tag is known, and the tag of the ID is unique. The
  -- schema's ID is the name of a field that is marked as the ID, and no field of another name is
  -- marked: exactly one is. It holds where the empty name is no identifier.
  pub stored_schema-Sound :
      (table : Bytes) (cs : List Column) (s : Schema)
      → stored_schema N table cs ≡ ok s
      → (map (λ (f : Column). f.name) s.fields ≡ map (λ (c : Column). c.name) cs)
        × Fresh [] s.fields
        × All (Sound N) s.fields
        × In s.id (map (λ (f : Column). f.name) s.fields)
        × All (IdAt s.id) s.fields
        × Marked s.id s.fields
  unfolding stored_schema compare_bytes
  stored_schema-Sound [] cs s h = cc
  stored_schema-Sound (b ∷ bs) [] s h = cc
  stored_schema-Sound (b ∷ bs) (c ∷ cs) s h =
      let (e, found, h₁) = bind_ok _ _ s h in
      let (r, made, h₂) = bind_ok _ _ s h₁ in
      let (known, h₃) = guard_ok _ Error.no_id _ s h₂ in
      let same : record { table = b ∷ bs; fields = r.0; id = r.1 } ≡ s = ground arith in
      rw (sym same) (conclude e r found made known)
    where
      conclude :
          (e : Bytes) (r : List Column × Bytes)
          → explicit_id (c ∷ cs) [] ≡ ok e
          → convert N e [] [] (c ∷ cs) ≡ ok r
          → not (bytes_eq r.1 []) ≡ true
          → (map (λ (f : Column). f.name) r.0 ≡ map (λ (d : Column). d.name) (c ∷ cs))
            × Fresh [] r.0
            × All (Sound N) r.0
            × In r.1 (map (λ (f : Column). f.name) r.0)
            × All (IdAt r.1) r.0
            × Marked r.1 r.0
      conclude e (fs, last) found made known =
          let named = All-Named e [] [] (c ∷ cs) fs last made in
          let (fresh, sound, at, names, end) =
            converted N e [] [] (id_name e) (c ∷ cs) fs last
              (All-at e (c ∷ cs) named (marked (c ∷ cs) e named found)) made in
          elim end [
            | inl q ↦ absurd (not_empty last q known)
            | inr (q, m, k) ↦ (names, fresh, sound, m, rw q at, k)
          ]

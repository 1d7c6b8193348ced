-- ===== src/Indexer/Outbox/Records/Reads.antt =====
-- bleve_outbox.go: what is read back of a job while it is being made.
use mathlib.Core.Path.{subst}
use storm_rev.Base.{
  ◌≡◌, refl, sym, ap, ◌∙◌, inl, inr, true, Bool-cases, not, List, [], ◌∷◌, ◌++◌, append_assoc,
  append-nil, select, All, ok, bind_ok, ok_injective, if◌then◌else◌,
}
use storm_rev.Base.Bytes.{Bytes, bytes_eq, bytes_eq_iff, bytes_eq_self}
use storm_rev.Config.{assign, lookup-assign}
use storm_rev.Meta.{Schema}
use storm_rev.Indexer.Outbox.{Doc, IndexField, delete, drop_index, JobMutation}
use storm_rev.Indexer.Outbox.Records.{
  SavedRecord, DeletedRecord, encode_fields, decode_fields, prepared, save_mutation, Parts, Decoded,
  table_of, config_for, read_mutation, read_mutations, add_saves, add_deletes, add_drops,
}
use storm_rev.Indexer.Outbox.Records.Fields.{decode_fields-encode_fields}

abbrev pub key_of : Bytes × Bytes × Doc → Bytes × Bytes
key_of d = (d.0, d.1)

abbrev pub join : Decoded → Decoded → Decoded
join d e = (d.0 ++ e.0, d.1 ++ e.1, d.2 ++ e.2)

join_assoc : (d x e : Decoded) → join d (join x e) ≡ join (join d x) e
join_assoc d x e =
    ap (λ l. (l, d.1 ++ (x.1 ++ e.1), d.2 ++ (x.2 ++ e.2))) (sym (append_assoc d.0 x.0 e.0))
    ∙ ap (λ l. ((d.0 ++ x.0) ++ e.0, l, d.2 ++ (x.2 ++ e.2))) (sym (append_assoc d.1 x.1 e.1))
    ∙ ap (λ l. ((d.0 ++ x.0) ++ e.0, (d.1 ++ x.1) ++ e.1, l)) (sym (append_assoc d.2 x.2 e.2))

-- The schemas find for a table the configuration with its name.
abbrev pub Finds : List (Bytes × Schema) → Bytes → Type 0
Finds schemas t = config_for schemas t ≡ ok t

-- What is read back of the mutations so far, with any that follow, where no schema is lost.
abbrev pub Reads : Parts → Decoded → Type 0
Reads p d =
    (schemas : List (Bytes × Schema))
    → ((t : Bytes) → Finds p.0 t → Finds schemas t)
    → (rest : List JobMutation) (e : Decoded) → read_mutations schemas rest ≡ ok e
    → read_mutations schemas (p.1 ++ rest) ≡ ok (join d e)

Finds-assign :
    (t : Bytes) (sc : Schema) (schemas : List (Bytes × Schema)) (u : Bytes)
    → sc.table ≡ t
    → Finds schemas u
    → Finds (assign t sc schemas) u
unfolding config_for
Finds-assign t sc schemas u e f =
    ap table_of (lookup-assign t u sc schemas) ∙ elim (Bool-cases (bytes_eq t u)) [
      | inl y ↦ rw y (ap ok (e ∙ (bytes_eq_iff t u).0 y))
      | inr z ↦ rw z f
    ]

Finds-assigned :
    (t : Bytes) (sc : Schema) (schemas : List (Bytes × Schema))
    → sc.table ≡ t
    → Finds (assign t sc schemas) t
unfolding config_for
Finds-assigned t sc schemas e =
    ap table_of (lookup-assign t t sc schemas) ∙ rw (bytes_eq_self t) (ap ok e)

Reads-more :
    (p : Parts) (d x : Decoded) (schemas : List (Bytes × Schema)) (m : JobMutation)
    → Reads p d
    → ((t : Bytes) → Finds p.0 t → Finds schemas t)
    → ((later : List (Bytes × Schema))
        → ((t : Bytes) → Finds schemas t → Finds later t)
        → (rest : List JobMutation) (e : Decoded) → read_mutations later rest ≡ ok e
        → read_mutations later (m ∷ rest) ≡ ok (join x e))
    → Reads (schemas, p.1 ++ m ∷ []) (join d x)
Reads-more p d x schemas m r g one later grow rest e h =
    ap (read_mutations later) (append_assoc p.1 (m ∷ []) rest)
    ∙ r later (λ t f. grow t (g t f)) (m ∷ rest) (join x e) (one later grow rest e h)
    ∙ ap ok (join_assoc d x e)

-- The table and the id of each record that the index uses.
abbrev pub saved_keys : List SavedRecord → List (Bytes × Bytes)
saved_keys [] = []
saved_keys (r ∷ rs) = if r.uses_bleve then (r.table, r.id) ∷ saved_keys rs else saved_keys rs

abbrev pub deleted_keys : List DeletedRecord → List (Bytes × Bytes)
deleted_keys [] = []
deleted_keys (r ∷ rs) = if r.uses_bleve then (r.table, r.id) ∷ deleted_keys rs else deleted_keys rs

abbrev pub named : List Bytes → List Bytes
named ts = select (λ t. not (bytes_eq t [])) ts

abbrev pub decoded_keys : List (Bytes × Bytes × Doc) → List (Bytes × Bytes)
decoded_keys [] = []
decoded_keys (d ∷ ds) = key_of d ∷ decoded_keys ds

join_nil : (d : Decoded) → join d ([], [], []) ≡ d
join_nil d =
    ap (λ l. (l, d.1 ++ [], d.2 ++ [])) (append-nil d.0)
    ∙ ap (λ l. (d.0, l, d.2 ++ [])) (append-nil d.1)
    ∙ ap (λ l. (d.0, d.1, l)) (append-nil d.2)

read_save :
    (root : List Bytes) (x : SavedRecord) (later : List (Bytes × Schema)) (fs : List IndexField)
    (out : Doc)
    → decode_fields fs ≡ ok out
    → (rest : List JobMutation) (e : Decoded) → Finds later x.table
    → read_mutations later rest ≡ ok e
    → read_mutations later (save_mutation root x fs ∷ rest)
      ≡ ok (join ((x.table, x.id, out) ∷ [], [], []) e)
unfolding read_mutations read_mutation
read_save root x later fs out dec rest e f g = rw (f, dec, g) refl

saved_first :
    (x : SavedRecord) (rs : List SavedRecord) (out : Doc) (e : List (Bytes × Bytes × Doc))
    → x.uses_bleve ≡ true
    → decoded_keys e ≡ saved_keys rs
    → decoded_keys ((x.table, x.id, out) ∷ e) ≡ saved_keys (x ∷ rs)
saved_first x rs out e y k = rw y (ap (λ l. (x.table, x.id) ∷ l) k)

pub add_saves-Reads :
    (root : List Bytes) (rs : List SavedRecord) (p q : Parts) (d : Decoded)
    → All (λ (r : SavedRecord). r.schema.table ≡ r.table) rs
    → Reads p d
    → add_saves root rs p ≡ ok q
    → (e : List (Bytes × Bytes × Doc)) × Reads q (join d (e, [], []))
      × (decoded_keys e ≡ saved_keys rs)
unfolding add_saves
add_saves-Reads root [] p q d a r h = (
  [],
  subst (λ x. Reads x (join d ([], [], []))) (ok_injective p q h)
      (subst (Reads p) (sym (join_nil d)) r),
  refl,
)
add_saves-Reads root (x ∷ rs) p q d a r h = elim (Bool-cases (x.uses_bleve)) [
  | inr z ↦ let (e, f, k) = add_saves-Reads root rs p q d a.1 r (rw z at h) in (e, f, k ∙ rw z refl)
  | inl y ↦
      let (doc, _, h') = bind_ok (prepared x.doc) _ q (rw y at h) in
      let (fs, enc, h'') = bind_ok (encode_fields doc) _ q h' in
      let (out, dec, _) = decode_fields-encode_fields doc fs enc in
      let one : Decoded = ((x.table, x.id, out) ∷ [], [], []) in
      let (e, f, k) =
        add_saves-Reads root rs (assign x.table x.schema p.0, p.1 ++ save_mutation root x fs ∷ []) q
          (join d one) a.1
          (Reads-more p d one (assign x.table x.schema p.0) (save_mutation root x fs) r
            (λ t. Finds-assign x.table x.schema p.0 t a.0)
            (λ later grow rest e g.
              read_save root x later fs out dec rest e
                (grow x.table (Finds-assigned x.table x.schema p.0 a.0)) g))
          h'' in
      (
        (x.table, x.id, out) ∷ e,
        subst (Reads q) (sym (join_assoc d one (e, [], []))) f,
        saved_first x rs out e y k,
      )
]

pub add_deletes-Reads :
    (root : List Bytes) (rs : List DeletedRecord) (p : Parts) (d : Decoded)
    → All (λ (r : DeletedRecord). r.schema.table ≡ r.table) rs
    → Reads p d
    → Reads (add_deletes root rs p) (join d ([], deleted_keys rs, []))
unfolding add_deletes read_mutations read_mutation
add_deletes-Reads root [] p d a r = subst (Reads p) (sym (join_nil d)) r
add_deletes-Reads root (x ∷ rs) p d a r = elim (Bool-cases (x.uses_bleve)) [
  | inr z ↦ rw z (add_deletes-Reads root rs p d a.1 r)
  | inl y ↦
      let m : JobMutation = record {
        operation = delete;
        table = x.table;
        root = root;
        id = x.id;
        fields = [];
      } in
      let one : Decoded = ([], (x.table, x.id) ∷ [], []) in
      let next : Parts = (assign x.table x.schema p.0, p.1 ++ m ∷ []) in
      let more = add_deletes-Reads root rs next (join d one) a.1 (
        Reads-more p d one (assign x.table x.schema p.0) m r
          (λ t. Finds-assign x.table x.schema p.0 t a.0)
          (λ later grow rest e g.
            rw (grow x.table (Finds-assigned x.table x.schema p.0 a.0), g) refl)) in
      rw y (
        subst (Reads (add_deletes root rs next)) (sym (join_assoc d one ([], deleted_keys rs, [])))
          more)
]

pub add_drops-Reads :
    (root : List Bytes) (ts : List Bytes) (p : Parts) (d : Decoded)
    → Reads p d
    → Reads (add_drops root ts p) (join d ([], [], named ts))
unfolding add_drops read_mutations read_mutation
add_drops-Reads root [] p d r = subst (Reads p) (sym (join_nil d)) r
add_drops-Reads root (t ∷ ts) p d r = elim (Bool-cases (bytes_eq t [])) [
  | inl y ↦ rw y (add_drops-Reads root ts p d r)
  | inr z ↦
      let m : JobMutation = record {
        operation = drop_index;
        table = t;
        root = root;
        id = [];
        fields = [];
      } in
      let one : Decoded = ([], [], t ∷ []) in
      let next : Parts = (p.0, p.1 ++ m ∷ []) in
      let more =
        add_drops-Reads root ts next (join d one)
          (Reads-more p d one p.0 m r (λ u f. f) (λ later grow rest e g. rw g refl)) in
      rw z (subst (Reads (add_drops root ts next)) (sym (join_assoc d one ([], [], named ts))) more)
]

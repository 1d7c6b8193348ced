-- ===== src/Plan/Coverage.antt =====
-- What the planner may rely on: the state of the external index of a table, and the values of a query
-- against the fields of a record; and what a matching record says of the explained tree.
pub mod Lists
pub mod Explained
pub mod Finds
pub mod Composites
use storm_rev.Base.{
  ◌≡◌, ◌⊎◌, Bool, true, false, Option, none, some, List, [], ◌∷◌, Outcome, ok, Error, All,
}
use storm_rev.Base.Bytes.{Bytes, bytes_eq}
use storm_rev.Base.Sorted.{In}
use storm_rev.Value.{Value, eql, leq, geq, Host}
use storm_rev.Config.{StructConfig, FieldConfig, lookup, json_of, missing_from_index}
use storm_rev.Bucket.{Bucket}
use storm_rev.Q.Field.{FieldMatcher, cmp, strict_eq, in_list, raw, match_delegate}
use storm_rev.Q.Tree
use storm_rev.Q.Tree.{Matcher, Matchers, or_all, and_all, field}
use storm_rev.Q.Explain.{
  ExprOp, Expr, Exprs, nil, cons, eq, strict_eq_op, in_op, gte, lte, truth, leaf, conj, disj, neg,
}
use storm_rev.Query.Order.{to_bytes}
use storm_rev.Plan.Leaves.{select_in_values}
use storm_rev.Plan.Documents.{
  BleveValue, Document, TableIndex, is_indexed, deref, bleve_value, bound_of, document, own_index,
}
use storm_rev.Plan.Documents.Searches.{at_least, at_most, Answering}
use storm_rev.Plan.Candidates.{Index}
use storm_rev.Plan.Candidates.Members.{Distinct}

module _ (H : Host) (cfg : StructConfig) (doc : Bytes) where
  open H use {Float, decode}

  -- A field matcher on a struct field accepts the record, under the field's JSON name.
  abbrev pub Hit : Bytes → FieldMatcher Float → Type 0
  Hit f m = match_delegate H (json_of cfg f) m (raw doc) ≡ ok true

  abbrev pub Indexed : Bytes → Type 0
  Indexed f = (fc : FieldConfig) × (lookup f cfg.fields ≡ some fc) × (is_indexed cfg f fc ≡ true)

  -- The record has the field, with the bytes of the value and not zero.
  abbrev pub Same : Bytes → Value Float → Type 0
  Same f v =
      (w : Value Float) × ((decode doc).0 f ≡ some w)
      × (to_bytes H w ≡ to_bytes H v)
      × (to_bytes H (deref H w) ≡ to_bytes H (deref H v))
      × (missing_from_index H w ≡ false)

  -- Where the field is indexed and the value is not zero, the record has that value.
  abbrev pub Agrees : Bytes → Value Float → Type 0
  Agrees f v = Indexed f → missing_from_index H v ≡ false → Same f v

  -- The record has the field, not zero, and by its number, text or time in the bound.
  abbrev pub Bounded : (BleveValue Float → BleveValue Float → Bool) → Bytes → Value Float → Type 0
  Bounded holds f v =
      Indexed f
      → missing_from_index H v ≡ false
      → (w : Value Float) × ((decode doc).0 f ≡ some w)
        × (missing_from_index H w ≡ false)
        × ((a : BleveValue Float)
            → bound_of H v ≡ some a
            → (x : BleveValue Float) × (bleve_value H w ≡ some x) × (holds a x ≡ true))

  -- The values that a matcher compares the field with have its type, as far as this record goes: where
  -- the JSON of the record meets the matcher, the field of the struct that it decodes to has the same
  -- bytes, or is in the bound and not zero.
  abbrev pub Fits : Bytes → FieldMatcher Float → Type 0
  Fits f (cmp eql v) = Hit f (cmp eql v) → Agrees f v
  Fits f (cmp geq v) = Hit f (cmp geq v) → Bounded (at_least H) f v
  Fits f (cmp leq v) = Hit f (cmp leq v) → Bounded (at_most H) f v
  Fits f (strict_eq v) = Hit f (strict_eq v) → Agrees f v
  Fits f (in_list l) =
      (ws : List (Value Float)) (w : Value Float)
      → select_in_values H l ≡ some ws
      → In w ws
      → Hit f (cmp eql w)
      → Agrees f w
  Fits f _ = Unit

  abbrev mutual
    pub Fitting : Matcher Float → Type 0
    Fitting (field f m) = Fits f m
    Fitting (or_all ms) = FittingAll ms
    Fitting (and_all ms) = FittingAll ms
    Fitting _ = Unit

    pub FittingAll : Matchers Float → Type 0
    FittingAll Tree.nil = Unit
    FittingAll (Tree.cons m ms) = Fitting m × FittingAll ms

  -- Values that are not zero, each of the field of the same place.
  abbrev pub Hits : List Bytes → List (Value Float) → Type 0
  Hits [] vs = Unit
  Hits (f ∷ fs) [] = ⊥
  Hits (f ∷ fs) (v ∷ vs) = (missing_from_index H v ≡ false) × Agrees f v × Hits fs vs

  -- What a record that matches says of an expression that Explain returns.
  abbrev mutual
    pub Meets : Expr Float → Type 0
    Meets truth = Unit
    Meets (leaf eq f v) = Agrees f v
    Meets (leaf strict_eq_op f v) = Agrees f v
    Meets (leaf in_op f v) =
        (ws : List (Value Float))
        → select_in_values H v ≡ some ws
        → (w : Value Float) × In w ws × Agrees f w
    Meets (leaf gte f v) = Bounded (at_least H) f v
    Meets (leaf lte f v) = Bounded (at_most H) f v
    Meets (leaf _ f v) = Unit
    Meets (conj es) = MeetsAll es
    Meets (disj es) = MeetsSome es
    Meets (neg es) = Unit

    pub MeetsAll : Exprs Float → Type 0
    MeetsAll nil = Unit
    MeetsAll (cons e es) = Meets e × MeetsAll es

    pub MeetsSome : Exprs Float → Type 0
    MeetsSome nil = ⊥
    MeetsSome (cons e es) = Meets e ⊎ MeetsSome es

-- No search of the index names an id twice.
pub record NamesOnce (H : Host) (idx : Index H.Float) : Type 0 where
  pub exact_once :
      (f : Bytes) (v : Value H.Float) (ids : List Bytes)
      → idx.search_exact f v ≡ ok ids
      → Distinct ids
  pub range_once :
      (f : Bytes) (lo hi : Value H.Float) (ids : List Bytes)
      → idx.search_range f lo hi ≡ ok ids
      → Distinct ids
  pub composite_once :
      (name : Bytes) (vs : List (Value H.Float)) (ids : List Bytes)
      → idx.search_composite name vs ≡ ok ids
      → Distinct ids

-- The index covers the records of the bucket: the searches are those of the program, on an index
-- that holds for each record the document that is made of it; bleve answers as it promises; a record
-- stands under the bytes of its id; the id is indexed; and the fields of a composite index are fields
-- of the model.
pub record Covers (H : Host) (cfg : StructConfig) (idx : Index H.Float) (b : Bucket) : Type 0 where
  pub table : TableIndex H.Float
  pub stored : Bytes → Option (Document H.Float)
  pub own : idx ≡ own_index H cfg table
  pub answering : Answering H table stored
  pub synced :
      (k doc : Bytes)
      → b.get k ≡ some doc
      → (d : Document H.Float) × (stored k ≡ some d)
        × (document H cfg table (H.decode doc).0 ≡ ok d)
  pub keyed :
      (k doc f : Bytes) (fc : FieldConfig) (w : Value H.Float)
      → b.get k ≡ some doc
      → lookup f cfg.fields ≡ some fc
      → fc.is_id ≡ true
      → (H.decode doc).0 f ≡ some w
      → to_bytes H w ≡ ok k
  pub ids_indexed :
      (f : Bytes) (fc : FieldConfig)
      → lookup f cfg.fields ≡ some fc
      → fc.is_id ≡ true
      → bytes_eq fc.index [] ≡ false
  pub composites_known :
      (name : Bytes) (fs : List Bytes)
      → lookup name cfg.composites ≡ some fs
      → All (λ f. (fc : FieldConfig) × (lookup f cfg.fields ≡ some fc)) fs

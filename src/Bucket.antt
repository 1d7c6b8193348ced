-- ===== src/Bucket.antt =====
-- A bbolt bucket as a read transaction sees it, and internal.Cursor of internal/boltdb.go.
use storm_rev.Base.{◌≡◌, Bool, Ordering, Option, none, some, List, [], ◌∷◌, if◌then◌else◌}
use storm_rev.Base.Bytes.{Bytes, compare_bytes, swap}
use storm_rev.Base.Sorted.{In, Sorted}
use storm_rev.Query.Sink.{Item}

-- A key with its value; a nested bucket has no value.
abbrev pub Row : Type 0
Row = Bytes × Option Bytes

-- bbolt is not part of the repository. `forward` is what a cursor yields from First by Next, and
-- `backward` what it yields from Last by Prev; `get` is Bucket.Get.
pub record Bucket : Type 0 where
  pub forward : List Row
  pub backward : List Row
  pub get : Bytes → Option Bytes

-- The rows that hold a value, as the loops `if v == nil { continue }` leave them.
abbrev pub items_of : List Row → List Item
items_of [] = []
items_of ((k, none) ∷ rows) = items_of rows
items_of ((k, some v) ∷ rows) = (k, v) ∷ items_of rows

-- Cursor.First and Cursor.Next, from the first nil key on
unfoldable pub walk : Bool → Bucket → List Row
walk reversed b = if reversed then b.backward else b.forward

-- `a` stands before `b` in the order of a walk.
abbrev pub before : Bool → Bytes → Bytes → Ordering
before reversed a b = if reversed then swap (compare_bytes a b) else compare_bytes a b

abbrev pub KeyBefore : Bool → Item → Item → Type 0
KeyBefore reversed x y = before reversed x.0 y.0 ≡ Ordering.lt

-- What bbolt documents: the keys of a bucket stand in byte order, from Last by Prev in the opposite
-- order, no key twice; and Get returns the value of a key that the walk meets, and of no other.
pub record IsBucket (b : Bucket) : Type 0 where
  pub sorted : (r : Bool) → Sorted (KeyBefore r) (items_of (walk r b))
  pub met : (r : Bool) (k v : Bytes) → b.get k ≡ some v → In (k, v) (items_of (walk r b))
  pub held : (r : Bool) (k v : Bytes) → In (k, v) (items_of (walk r b)) → b.get k ≡ some v

-- ===== src/OrderedMap.antt =====
-- `std::map<std::string, std::string>` and the key space of a RocksDB database: entries in the
-- order of their keys.
pub mod Laws
pub mod Prefix
use nimbus_store.Base.{
  List, [], ◌∷◌, Option, none, some, Ordering, ◌≡◌, All, if◌then◌else◌, not, keep,
}
use nimbus_store.Bytes.{Bytes, cmp, bytes_eq, bytes_lt}

abbrev pub Map : Type 0
Map = List (Bytes × Bytes)

unfoldable pub find : Bytes → Map → Option Bytes
find k [] = none
find k ((j, v) ∷ m) = if bytes_eq k j then some v else find k m

-- `m[k] = v`
unfoldable pub insert : Bytes → Bytes → Map → Map
insert k v [] = (k, v) ∷ []
insert k v ((j, w) ∷ m) = elim (cmp k j) [
  | Ordering.lt ↦ (k, v) ∷ (j, w) ∷ m
  | Ordering.eq ↦ (k, v) ∷ m
  | Ordering.gt ↦ (j, w) ∷ insert k v m
]

unfoldable pub erase : Bytes → Map → Map
erase k [] = []
erase k ((j, w) ∷ m) = if bytes_eq k j then erase k m else (j, w) ∷ erase k m

-- The entries at and after a key, in order: what an iterator yields after `Seek(k)`.
unfoldable pub seek_from : Bytes → Map → Map
seek_from k = keep (λ e. not (bytes_lt e.0 k))

abbrev pub Above : Bytes → Map → Type 0
Above k = All (λ e. cmp k e.0 ≡ Ordering.lt)

abbrev pub Sorted : Map → Type 0
Sorted [] = Unit
Sorted ((k, v) ∷ m) = Above k m × Sorted m

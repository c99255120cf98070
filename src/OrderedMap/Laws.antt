-- ===== src/OrderedMap/Laws.antt =====
-- Reads after writes, and that the order of the keys is kept.
use nimbus_store.Base.{[], ◌∷◌, ◌++◌, none, some, Ordering, ◌≡◌, refl, arith, All, if◌then◌else◌}
use nimbus_store.Bytes.{Bytes, cmp, bytes_eq}
use nimbus_store.Bytes.Order.{cmp_refl, cmp→eq, cmp-flip, cmp_trans}
use nimbus_store.OrderedMap.{Map, find, insert, erase, Above, Sorted}

pub find-insert :
    (j k v : Bytes) (m : Map) → find j (insert k v m) ≡ (if bytes_eq j k then some v else find j m)
unfolding find insert
find-insert j k v [] = refl
find-insert j k v ((i, w) ∷ m) =
    ground (arith, find-insert j k v m, cmp→eq k i, cmp→eq j k, cmp→eq j i, cmp_refl k, cmp_refl j)

pub find-erase :
    (j k : Bytes) (m : Map) → find j (erase k m) ≡ (if bytes_eq j k then none else find j m)
unfolding find erase
find-erase j k [] = ground arith
find-erase j k ((i, w) ∷ m) =
    ground (arith, find-erase j k m, cmp→eq k i, cmp→eq j k, cmp→eq j i, cmp_refl k, cmp_refl j)

Above-trans : (j k : Bytes) (m : Map) → cmp j k ≡ Ordering.lt → Above k m → Above j m
Above-trans j k [] h a = tt
Above-trans j k ((i, w) ∷ m) h a = (cmp_trans j k i h a.0, Above-trans j k m h a.1)

Above-insert :
    (j k v : Bytes) (m : Map) → cmp j k ≡ Ordering.lt → Above j m → Above j (insert k v m)
unfolding insert
Above-insert j k v [] h a = (h, tt)
Above-insert j k v ((i, w) ∷ m) h a = ground (arith, Above-insert j k v m)

pub insert-Sorted : (k v : Bytes) (m : Map) → Sorted m → Sorted (insert k v m)
unfolding insert
insert-Sorted k v [] s = (tt, tt)
insert-Sorted k v ((i, w) ∷ m) s =
    ground (
      arith,
      insert-Sorted k v m,
      cmp→eq k i,
      cmp-flip k i,
      Above-trans k i m,
      Above-insert i k v m,
    )

Above-erase : (j k : Bytes) (m : Map) → Above j m → Above j (erase k m)
unfolding erase
Above-erase j k [] a = tt
Above-erase j k ((i, w) ∷ m) a = ground (arith, Above-erase j k m)

pub erase-Sorted : (k : Bytes) (m : Map) → Sorted m → Sorted (erase k m)
unfolding erase
erase-Sorted k [] s = tt
erase-Sorted k ((i, w) ∷ m) s = ground (arith, erase-Sorted k m, Above-erase i k m)

-- A key beyond all others goes to the end.
pub insert_last :
    (k v : Bytes) (m : Map) → All (λ e. cmp e.0 k ≡ Ordering.lt) m → insert k v m ≡ m ++ (k, v) ∷ []
unfolding insert
insert_last k v [] a = refl
insert_last k v ((i, w) ∷ m) a = ground (arith, insert_last k v m, cmp-flip i k)

find-Above : (j : Bytes) (m : Map) → Above j m → find j m ≡ none
unfolding find
find-Above j [] a = refl
find-Above j ((i, w) ∷ m) a = ground (arith, find-Above j m)

Above-entry :
    (i : Bytes) (m n : Map) (k v : Bytes) → Above i (m ++ (k, v) ∷ n) → cmp i k ≡ Ordering.lt
Above-entry i [] n k v a = a.0
Above-entry i (e ∷ m) n k v a = Above-entry i m n k v a.1

-- In a sorted map each entry is the one that a lookup of its key finds.
pub find_entry :
    (m n : Map) (k v : Bytes) → Sorted (m ++ (k, v) ∷ n) → find k (m ++ (k, v) ∷ n) ≡ some v
unfolding find
find_entry [] n k v s = ground (arith, cmp_refl k)
find_entry ((i, w) ∷ m) n k v s =
    ground (arith, find_entry m n k v, cmp→eq k i, cmp-flip k i, Above-entry i m n k v s.0)

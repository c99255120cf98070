-- ===== src/OrderedMap/Prefix.antt =====
-- The entries with a prefix lie together: an iterator that starts at the prefix and stops at the
-- first key without it yields exactly these.
use nimbus_store.Base.{[], ◌∷◌, false, Ordering, ◌≡◌, refl, arith, if◌then◌else◌, keep}
use nimbus_store.Bytes.{Bytes, cmp, bytes_lt, starts_with}
use nimbus_store.OrderedMap.{Map, seek_from, Above, Sorted}

unfoldable pub while_prefix : Bytes → Map → Map
while_prefix p [] = []
while_prefix p (e ∷ m) = if starts_with p e.0 then e ∷ while_prefix p m else []

-- A key below a prefix does not have it.
below_prefix : (p k : Bytes) → cmp k p ≡ Ordering.lt → starts_with p k ≡ false
unfolding cmp starts_with
below_prefix [] [] h = cc
below_prefix [] (x ∷ k) h = cc
below_prefix (y ∷ p) [] h = refl
below_prefix (y ∷ p) (x ∷ k) h = ground (arith, below_prefix p k)

-- Beyond a key that is not below the prefix and does not have it, no key has it.
past_prefix :
    (p k j : Bytes)
    → bytes_lt k p ≡ false
    → starts_with p k ≡ false
    → cmp k j ≡ Ordering.lt
    → starts_with p j ≡ false
unfolding cmp starts_with
past_prefix [] k j h n l = cc
past_prefix (y ∷ p) [] j h n l = cc
past_prefix (y ∷ p) (x ∷ k) [] h n l = refl
past_prefix (y ∷ p) (x ∷ k) (z ∷ j) h n l = ground (arith, past_prefix p k j)

none_after :
    (p k : Bytes) (m : Map)
    → bytes_lt k p ≡ false
    → starts_with p k ≡ false
    → Above k m
    → keep (λ e. starts_with p e.0) m ≡ []
none_after p k [] h n a = refl
none_after p k ((j, w) ∷ m) h n a = ground (arith, none_after p k m, past_prefix p k j)

pub while_prefix-seek_from :
    (p : Bytes) (m : Map)
    → Sorted m
    → while_prefix p (seek_from p m) ≡ keep (λ e. starts_with p e.0) m
unfolding while_prefix seek_from
while_prefix-seek_from p [] s = refl
while_prefix-seek_from p ((k, w) ∷ m) s =
    ground (arith, while_prefix-seek_from p m, below_prefix p k, none_after p k m)

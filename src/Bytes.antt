-- ===== src/Bytes.antt =====
-- Byte strings: `std::string` as the list of its bytes, the order of its `operator<` (bytes
-- compared as unsigned), its equality, and the prefix test of `find(p) == 0` and `starts_with`.
pub mod Order
pub mod Words
use Prim.Native.Char.{code}
use Prim.Native.String
use Prim.Native.String.{String}
use nimbus_store.Base.{ℕ, ◌<◌, List, [], ◌∷◌, Bool, true, false, Ordering, compare, All, ◌==◌, ◌&&◌}

abbrev pub Bytes : Type 0
Bytes = List ℕ

-- Every element is a byte.
abbrev pub IsBytes : Bytes → Type 0
IsBytes = All (λ b. b < 256)

-- The bytes of an ASCII literal.
abbrev pub codes : String → Bytes
codes String.[] = []
codes (String.◌∷◌ c s) = code c ∷ codes s

unfoldable pub cmp : Bytes → Bytes → Ordering
cmp [] [] = Ordering.eq
cmp [] (y ∷ ys) = Ordering.lt
cmp (x ∷ xs) [] = Ordering.gt
cmp (x ∷ xs) (y ∷ ys) = elim (compare x y) [
  | Ordering.lt ↦ Ordering.lt
  | Ordering.eq ↦ cmp xs ys
  | Ordering.gt ↦ Ordering.gt
]

abbrev pub is_eq : Ordering → Bool
is_eq Ordering.eq = true
is_eq _ = false

abbrev pub is_lt : Ordering → Bool
is_lt Ordering.lt = true
is_lt _ = false

abbrev pub flip : Ordering → Ordering
flip Ordering.lt = Ordering.gt
flip Ordering.eq = Ordering.eq
flip Ordering.gt = Ordering.lt

abbrev pub bytes_eq : Bytes → Bytes → Bool
bytes_eq a b = is_eq (cmp a b)

abbrev pub bytes_lt : Bytes → Bytes → Bool
bytes_lt a b = is_lt (cmp a b)

unfoldable pub starts_with : Bytes → Bytes → Bool
starts_with [] s = true
starts_with (x ∷ p) [] = false
starts_with (x ∷ p) (y ∷ s) = x == y && starts_with p s

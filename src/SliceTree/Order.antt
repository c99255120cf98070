-- ===== src/SliceTree/Order.antt =====
-- The invariant of the tree: slices in order, apart, and within 64 bits.
use nimbus_store.Base.{
  ℕ, ◌+◌, ◌^◌, ◌≤◌, ◌<◌, none, some, ◌≡◌, refl, ◌⊎◌, inl, inr, arith, ltb, leb, if◌then◌else◌, ◌&&◌,
}
use nimbus_store.SliceTree.{SliceNode, Tree, leaf, node, insert_node, find}

-- The slices of the tree lie in [lo, hi), in order and without an overlap, and no offset leaves
-- the 64 bits.
abbrev pub IsOrdered : ℕ → ℕ → Tree → Type 0
IsOrdered lo hi leaf = Unit
IsOrdered lo hi (node s l r) =
    (lo ≤ s.pos)
    × (s.pos + s.len ≤ hi)
    × (s.off + s.len < 2 ^ 64)
    × IsOrdered lo s.pos l
    × IsOrdered (s.pos + s.len) hi r

-- No slice of the tree meets [a, b).
abbrev pub IsFree : ℕ → ℕ → Tree → Type 0
IsFree a b leaf = Unit
IsFree a b (node s l r) = ((s.pos + s.len ≤ a) ⊎ (b ≤ s.pos)) × IsFree a b l × IsFree a b r

pub IsOrdered-widen :
    (lo hi lo' hi' : ℕ) (t : Tree) → lo' ≤ lo → hi ≤ hi' → IsOrdered lo hi t → IsOrdered lo' hi' t
IsOrdered-widen lo hi lo' hi' leaf p q h = tt
IsOrdered-widen lo hi lo' hi' (node s l r) p q h = (
  omega arith,
  omega arith,
  h.2,
  IsOrdered-widen lo s.pos lo' s.pos l p (omega arith) h.3,
  IsOrdered-widen (s.pos + s.len) hi (s.pos + s.len) hi' r (omega arith) q h.4,
)

pub IsFree-of_above : (lo hi a b : ℕ) (t : Tree) → IsOrdered lo hi t → b ≤ lo → IsFree a b t
IsFree-of_above lo hi a b leaf h p = tt
IsFree-of_above lo hi a b (node s l r) h p = (
  inr (omega arith),
  IsFree-of_above lo s.pos a b l h.3 p,
  IsFree-of_above (s.pos + s.len) hi a b r h.4 (omega arith),
)

pub IsFree-of_below : (lo hi a b : ℕ) (t : Tree) → IsOrdered lo hi t → hi ≤ a → IsFree a b t
IsFree-of_below lo hi a b leaf h p = tt
IsFree-of_below lo hi a b (node s l r) h p = (
  inl (omega arith),
  IsFree-of_below lo s.pos a b l h.3 (omega arith),
  IsFree-of_below (s.pos + s.len) hi a b r h.4 p,
)

pub find_below : (q lo hi : ℕ) (t : Tree) → IsOrdered lo hi t → q < lo → find q t ≡ none
unfolding find
find_below q lo hi leaf h p = refl
find_below q lo hi (node s l r) h p = ground (arith, find_below q lo s.pos l h.3 p)

pub find_above :
    (q lo hi : ℕ) (t : Tree) → IsOrdered lo hi t → hi < 2 ^ 64 → hi ≤ q → find q t ≡ none
unfolding find
find_above q lo hi leaf h w p = refl
find_above q lo hi (node s l r) h w p = ground (arith, find_above q (s.pos + s.len) hi r h.4 w p)

-- A slice for which there is room goes to its place.
pub insert_node-IsOrdered :
    (lo hi : ℕ) (t : Tree) (n : SliceNode)
    → IsOrdered lo hi t
    → lo ≤ n.pos
    → n.pos + n.len ≤ hi
    → 0 < n.len
    → n.off + n.len < 2 ^ 64
    → IsFree n.pos (n.pos + n.len) t
    → IsOrdered lo hi (insert_node t n)
unfolding insert_node
insert_node-IsOrdered lo hi leaf n h a b c d f = (a, b, d, tt, tt)
insert_node-IsOrdered lo hi (node s l r) n h a b c d f = ground (
  arith,
  insert_node-IsOrdered lo s.pos l n h.3 a,
  insert_node-IsOrdered (s.pos + s.len) hi r n h.4,
)

pub find-insert_node :
    (q lo hi : ℕ) (t : Tree) (n : SliceNode)
    → IsOrdered lo hi t
    → hi < 2 ^ 64
    → n.pos + n.len ≤ hi
    → 0 < n.len
    → IsFree n.pos (n.pos + n.len) t
    → find q (insert_node t n) ≡ (if leb n.pos q && ltb q (n.pos + n.len) then some n else find q t)
unfolding insert_node find
find-insert_node q lo hi leaf n h w b d f = ground arith
find-insert_node q lo hi (node s l r) n h w b d f = ground (
  arith,
  find-insert_node q lo s.pos l n h.3,
  find-insert_node q (s.pos + s.len) hi r n h.4 w b d,
  find_below q lo s.pos l h.3,
  find_above q (s.pos + s.len) hi r h.4 w,
)

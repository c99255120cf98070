-- ===== src/SliceTree/Insertion.antt =====
-- `Insert` of src/metadata/slice_tree.cpp: `Cut`, then `InsertNode`.
use nimbus_store.Base.{
  ℕ, ◌+◌, ◌-◌, ◌^◌, ◌≤◌, ◌<◌, some, ◌≡◌, refl, ◌⊎◌, inl, inr, arith, ltb, leb, if◌then◌else◌, ◌&&◌,
  Option-cases, subst,
}
use nimbus_store.SliceTree.{
  SliceNode, Tree, leaf, node, insert_node, cut_node, cut, insert, find, add_word,
}
use nimbus_store.SliceTree.Order.{IsOrdered, IsFree, insert_node-IsOrdered, find-insert_node}
use nimbus_store.SliceTree.CutNode.{
  cut_node_apart, cut_node_inside, cut_node_left, cut_node_right, cut_cases,
}
use nimbus_store.SliceTree.Cutting.{Ends, content, IsCut, cut-IsCut}

-- What `Insert` promises of the tree after it.
abbrev pub IsInserted : ℕ → ℕ → SliceNode → Tree → Tree → Type 0
IsInserted lo hi n t t' =
    IsOrdered lo hi t'
    × ((q : ℕ)
        → content (find q t') q ≡ (
            if leb n.pos q && ltb q (n.pos + n.len)
            then some (n.id, n.off + (q - n.pos))
            else content (find q t) q))

insert_cut :
    (lo hi : ℕ) (t t' : Tree) (n : SliceNode)
    → hi < 2 ^ 64
    → 0 < n.len
    → n.off + n.len < 2 ^ 64
    → lo ≤ n.pos
    → n.pos + n.len ≤ hi
    → IsCut n.pos (n.pos + n.len) lo hi t t'
    → IsInserted lo hi n t (insert_node t' n)
insert_cut lo hi t t' n w p v i j c = (
  insert_node-IsOrdered lo hi t' n c.0 i j p v c.1,
  λ (q : ℕ). ground (arith, find-insert_node q lo hi t' n c.0 w j p c.1, c.2 q),
)

Ends-insert :
    (lo hi : ℕ) (t : Tree) (n : SliceNode)
    → hi < 2 ^ 64
    → 0 < n.len
    → n.off + n.len < 2 ^ 64
    → lo ≤ n.pos
    → n.pos + n.len ≤ hi
    → Ends (IsCut n.pos (n.pos + n.len) lo hi t) (cut n.pos n.len t)
    → Ends (IsInserted lo hi n t) (insert t n)
unfolding insert
Ends-insert lo hi t n w p v i j c = elim (Option-cases (cut n.pos n.len t)) [
  | inl k ↦ rw k tt
  | inr (u, k) ↦
      let c' : IsCut n.pos (n.pos + n.len) lo hi t u =
        subst (Ends (IsCut n.pos (n.pos + n.len) lo hi t)) k c in
      rw k (insert_cut lo hi t u n w p v i j c')
]

-- Let the slices of a tree be in order and lie in [lo, hi), with hi and the offsets below 2^64, and
-- let a new slice that is not empty lie in [lo, hi) too. When inserting it ends in a tree, and not in
-- a cycle of links, the slices of that tree are in order in [lo, hi), the positions of the new slice
-- have its bytes, and every other position has the byte of the slice that it had before.
pub insert-IsInserted :
    (lo hi : ℕ) (t t' : Tree) (n : SliceNode)
    → IsOrdered lo hi t
    → hi < 2 ^ 64
    → 0 < n.len
    → n.off + n.len < 2 ^ 64
    → lo ≤ n.pos
    → n.pos + n.len ≤ hi
    → insert t n ≡ some t'
    → IsInserted lo hi n t t'
insert-IsInserted lo hi t t' n h w p v i j e =
    subst (Ends (IsInserted lo hi n t)) e
      (Ends-insert lo hi t n w p v i j (cut-IsCut n.pos n.len lo hi t h w p (omega arith)))

-- No slice of the tree lies in [a, b) whole.
abbrev pub IsSpared : ℕ → ℕ → Tree → Type 0
IsSpared a b leaf = Unit
IsSpared a b (node s l r) = ((s.pos < a) ⊎ (b < s.pos + s.len)) × IsSpared a b l × IsSpared a b r

cut_node_total :
    (a b : ℕ) (s : SliceNode) (l r : Tree)
    → a < b
    → s.pos + s.len < 2 ^ 64
    → s.off + s.len < 2 ^ 64
    → ((s.pos < a) ⊎ (b < s.pos + s.len))
    → (t : Tree) × (cut_node a b s l r ≡ some t)
cut_node_total a b s l r p w v k = elim (cut_cases a b s l r w v p) [
  | inl i ↦ (_, cut_node_apart a b s l r w v i)
  | inr (inl (i, j, x, y)) ↦ absurd (omega arith)
  | inr (inr (inl (i, j))) ↦ (_, cut_node_inside a b s l r w v i p j)
  | inr (inr (inr (inl (i, j, x)))) ↦ (_, cut_node_left a b s l r w v i j x)
  | inr (inr (inr (inr (i, j, x)))) ↦ (_, cut_node_right a b s l r w v i j x)
]

cut_total :
    (a len lo hi : ℕ) (t : Tree)
    → IsOrdered lo hi t
    → hi < 2 ^ 64
    → 0 < len
    → a + len < 2 ^ 64
    → IsSpared a (a + len) t
    → (t' : Tree) × (cut a len t ≡ some t')
unfolding cut
cut_total a len lo hi leaf h w p v k = (leaf, refl)
cut_total a len lo hi (node s l r) h w p v k =
    let (l', el) = cut_total a len lo s.pos l h.3 (omega arith) p v k.1 in
    let (r', er) = cut_total a len (s.pos + s.len) hi r h.4 w p v k.2 in
    let e : add_word a len ≡ a + len = omega arith in
    rw (el, er, e)
      (cut_node_total a (a + len) s l' r' (omega arith) (omega arith) (omega arith) k.0)

-- Inserting a slice that is not empty and ends at hi or before into a tree of slices in order in
-- [lo, hi), with hi below 2^64, none of which the new one covers whole, ends in a tree.
pub insert_total :
    (lo hi : ℕ) (t : Tree) (n : SliceNode)
    → IsOrdered lo hi t
    → hi < 2 ^ 64
    → 0 < n.len
    → n.pos + n.len ≤ hi
    → IsSpared n.pos (n.pos + n.len) t
    → (t' : Tree) × (insert t n ≡ some t')
unfolding insert
insert_total lo hi t n h w p j k =
    let (u, e) = cut_total n.pos n.len lo hi t h w p (omega arith) k in (insert_node u n, rw e refl)

cut_free :
    (a len lo hi : ℕ) (t : Tree)
    → IsOrdered lo hi t
    → hi < 2 ^ 64
    → a + len < 2 ^ 64
    → IsFree a (a + len) t
    → cut a len t ≡ some t
unfolding cut
cut_free a len lo hi leaf h w v f = refl
cut_free a len lo hi (node s l r) h w v f =
    let e : add_word a len ≡ a + len = omega arith in
    rw
      (
        cut_free a len lo s.pos l h.3 (omega arith) v f.1,
        cut_free a len (s.pos + s.len) hi r h.4 w v f.2,
        e,
      )
      (cut_node_apart a (a + len) s l r (omega arith) h.2 f.0)

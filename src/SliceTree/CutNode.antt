-- ===== src/SliceTree/CutNode.antt =====
-- The five cases of `Cut` of src/metadata/slice_tree.cpp at a node, by where the node lies, with
-- plain numbers in place of the 64-bit words.
use nimbus_store.Base.{
  ℕ, ◌+◌, ◌-◌, ◌^◌, ◌≤◌, ◌<◌, none, some, ◌≡◌, refl, ◌⊎◌, inl, inr, arith, ltb, leb, ◌&&◌, ◌||◌,
  true, false,
}
use nimbus_store.SliceTree.{
  SliceNode, Tree, leaf, node, left_by, min_steps, relink, insert_node, remove_root, cut_node,
  end_of, add_word, sub_word,
}

-- The least node of a tree is reached from its root, so that relinking it makes a cycle.
left_by-min_steps :
    (t : SliceNode) (l r : Tree)
    → (u : Tree) × (left_by (min_steps (node t l r)) (node t l r) ≡ some u)
unfolding left_by min_steps
left_by-min_steps t leaf r = (node t leaf r, refl)
left_by-min_steps t (node s l l') r = left_by-min_steps s l l'

relink_lem : (t : SliceNode) (l r : Tree) → relink (node t l r) ≡ none
unfolding relink
relink_lem t l r = let (u, e) = left_by-min_steps t l r in rw (e, relink) refl

pub remove_root_two :
    (s t : SliceNode) (l l' r r' : Tree) → remove_root (node s l l') (node t r r') ≡ none
unfolding remove_root
remove_root_two s t l l' r r' = relink_lem t r r'

end_of_lem : (s : SliceNode) → s.pos + s.len < 2 ^ 64 → end_of s ≡ s.pos + s.len
end_of_lem s w = omega arith

sub_word_lem : (x y : ℕ) → y ≤ x → x < 2 ^ 64 → sub_word x y ≡ x - y
sub_word_lem x y h w = omega arith

abbrev pub kept : SliceNode → ℕ → SliceNode
kept s a = record s { len = a - s.pos }

abbrev pub after : SliceNode → ℕ → SliceNode
after s b = record s { off = s.off + (b - s.pos); len = s.pos + s.len - b; pos = b }

module _ (a b : ℕ) (s : SliceNode) (l r : Tree) (w : s.pos + s.len < 2 ^ 64)
    (v : s.off + s.len < 2 ^ 64) where
  pub cut_node_apart : ((s.pos + s.len ≤ a) ⊎ (b ≤ s.pos)) → cut_node a b s l r ≡ some (node s l r)
  unfolding cut_node
  cut_node_apart h =
      let e : (leb (end_of s) a || leb b s.pos) ≡ true = ground (arith, end_of_lem s w) in rw e refl

  pub cut_node_covered :
      a ≤ s.pos
      → s.pos + s.len ≤ b
      → a < s.pos + s.len
      → s.pos < b
      → cut_node a b s l r ≡ remove_root l r
  unfolding cut_node
  cut_node_covered h k i j =
      let e : (leb (end_of s) a || leb b s.pos) ≡ false = ground (arith, end_of_lem s w) in
      let f : (leb a s.pos && leb (end_of s) b) ≡ true = ground (arith, end_of_lem s w) in
      rw (e, f) refl

  off_apart : a < s.pos + s.len → s.pos < b → (leb (end_of s) a || leb b s.pos) ≡ false
  off_apart h k = ground (arith, end_of_lem s w)

  off_covered : ((s.pos < a) ⊎ (b < s.pos + s.len)) → (leb a s.pos && leb (end_of s) b) ≡ false
  off_covered h = ground (arith, end_of_lem s w)

  pub cut_node_inside :
      s.pos < a
      → a < b
      → b < s.pos + s.len
      → cut_node a b s l r ≡ some (node (kept s a) l (insert_node r (after s b)))
  unfolding cut_node
  cut_node_inside h i k =
      let c : (ltb s.pos a && ltb b (end_of s)) ≡ true = ground (arith, end_of_lem s w) in
      let x : sub_word a s.pos ≡ a - s.pos = sub_word_lem a s.pos (omega arith) (omega arith) in
      let y : add_word s.off (sub_word b s.pos) ≡ s.off + (b - s.pos) = omega arith in
      let z : sub_word (end_of s) b ≡ s.pos + s.len - b = omega arith in
      rw (off_apart (omega arith) (omega arith), off_covered (inl h), c, x, y, z) refl

  pub cut_node_left :
      s.pos < a
      → a < s.pos + s.len
      → s.pos + s.len ≤ b
      → cut_node a b s l r ≡ some (node (kept s a) l r)
  unfolding cut_node
  cut_node_left h i k =
      let c : (ltb s.pos a && ltb b (end_of s)) ≡ false = ground (arith, end_of_lem s w) in
      let d : ltb s.pos a ≡ true = ground arith in
      let x : sub_word a s.pos ≡ a - s.pos = sub_word_lem a s.pos (omega arith) (omega arith) in
      rw (off_apart (omega arith) (omega arith), off_covered (inl h), c, d, x) refl

  pub cut_node_right :
      a ≤ s.pos → s.pos < b → b < s.pos + s.len → cut_node a b s l r ≡ some (node (after s b) l r)
  unfolding cut_node
  cut_node_right h i k =
      let d : ltb s.pos a ≡ false = ground arith in
      let y : add_word s.off (sub_word b s.pos) ≡ s.off + (b - s.pos) = omega arith in
      let z : sub_word s.len (sub_word b s.pos) ≡ s.pos + s.len - b = omega arith in
      rw (off_apart (omega arith) (omega arith), off_covered (inr k), d, y, z) refl

  -- Where a node lies to [a, b).
  pub cut_cases :
      a < b
      → ((s.pos + s.len ≤ a) ⊎ (b ≤ s.pos))
        ⊎ ((a ≤ s.pos) × (s.pos + s.len ≤ b) × (a < s.pos + s.len) × (s.pos < b))
        ⊎ ((s.pos < a) × (b < s.pos + s.len))
        ⊎ ((s.pos < a) × (a < s.pos + s.len) × (s.pos + s.len ≤ b))
        ⊎ ((a ≤ s.pos) × (s.pos < b) × (b < s.pos + s.len))
  cut_cases p = ground arith

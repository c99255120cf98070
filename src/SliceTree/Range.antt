-- ===== src/SliceTree/Range.antt =====
-- `GetRange` of src/metadata/slice_tree.cpp against a filter of all slices.
use nimbus_store.Base.{
  ℕ, ◌+◌, ◌^◌, ◌≤◌, ◌<◌, List, [], ◌∷◌, ◌++◌, Bool, ◌≡◌, refl, sym, ◌∙◌, arith, ltb, ◌&&◌, keep,
  append-nil,
}
use nimbus_store.SliceTree.{SliceNode, Tree, leaf, node, inorder_collect, range_collect, end_of}
use nimbus_store.SliceTree.Order.{IsOrdered}

-- The slice and [start, end) meet.
abbrev pub meets : ℕ → ℕ → SliceNode → Bool
meets start end s = ltb s.pos end && ltb start (s.pos + s.len)

keep-append :
    {A : Type 0} → (p : A → Bool) (xs ys : List A) → keep p (xs ++ ys) ≡ keep p xs ++ keep p ys
keep-append p [] ys = refl
keep-append p (x ∷ xs) ys = ground (arith, keep-append p xs ys)

-- Slices that lie behind the range, or before it.
keep_above :
    (a b lo hi : ℕ) (t : Tree)
    → IsOrdered lo hi t
    → b ≤ lo
    → keep (meets a b) (inorder_collect t) ≡ []
unfolding inorder_collect
keep_above a b lo hi leaf h p = refl
keep_above a b lo hi (node s l r) h p =
    keep-append (meets a b) (inorder_collect l) (s ∷ inorder_collect r)
    ∙ ground (arith, keep_above a b lo s.pos l h.3 p, keep_above a b (s.pos + s.len) hi r h.4)

keep_below :
    (a b lo hi : ℕ) (t : Tree)
    → IsOrdered lo hi t
    → hi ≤ a
    → keep (meets a b) (inorder_collect t) ≡ []
unfolding inorder_collect
keep_below a b lo hi leaf h p = refl
keep_below a b lo hi (node s l r) h p =
    keep-append (meets a b) (inorder_collect l) (s ∷ inorder_collect r)
    ∙ ground (arith, keep_below a b lo s.pos l h.3, keep_below a b (s.pos + s.len) hi r h.4 p)

-- The slices collected for a range from a tree of slices in order in [lo, hi), with hi below 2^64,
-- are those of the whole tree, from left to right, that meet the range.
pub range_collect_lem :
    (a b lo hi : ℕ) (t : Tree)
    → IsOrdered lo hi t
    → hi < 2 ^ 64
    → range_collect a b t ≡ keep (meets a b) (inorder_collect t)
unfolding range_collect inorder_collect
range_collect_lem a b lo hi leaf h w = refl
range_collect_lem a b lo hi (node s l r) h w =
    let il = range_collect_lem a b lo s.pos l h.3 (omega arith) in
    let ir = range_collect_lem a b (s.pos + s.len) hi r h.4 w in
    let e : end_of s ≡ s.pos + s.len = omega arith in
    ground (
      arith,
      il,
      ir,
      e,
      append-nil (keep (meets a b) (inorder_collect l)),
      keep_above a b (s.pos + s.len) hi r h.4,
      keep_below a b lo s.pos l h.3,
    )
    ∙ sym (keep-append (meets a b) (inorder_collect l) (s ∷ inorder_collect r))

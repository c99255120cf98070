-- ===== src/SliceTree.antt =====
-- `SliceTree` of include/nebulastore/metadata/slice_tree.h and src/metadata/slice_tree.cpp: the
-- slices of a file in a binary search tree over their positions. Each node is owned by one link,
-- so that the tree is a value. Where `Cut` removes a node with two subtrees, it makes the least
-- node of the right one the parent of the subtree that still holds it: the links form a cycle and
-- are no tree, and the result is `none`. Positions and lengths are 64-bit words.
pub mod Order
pub mod CutNode
pub mod Cutting
pub mod Insertion
pub mod Range
mod Tests
use nimbus_store.Base.{
  ℕ, zero, suc, ◌+◌, ◌-◌, ◌%◌, ◌^◌, List, [], ◌∷◌, ◌++◌, Bool, true, false, ◌&&◌, ◌||◌, Option,
  none, some, ltb, leb, if◌then◌else◌,
}
use nimbus_store.Bytes.{Bytes, codes}

pub record SliceNode : Type 0 where
  pub id : ℕ
  pub size : ℕ
  pub off : ℕ
  pub len : ℕ
  pub pos : ℕ

pub data Tree : Type 0 where
  leaf : Tree
  node : SliceNode → Tree → Tree → Tree

abbrev pub add_word : ℕ → ℕ → ℕ
add_word a b = (a + b) % 2 ^ 64

abbrev pub sub_word : ℕ → ℕ → ℕ
sub_word a b = (a + 2 ^ 64 - b) % 2 ^ 64

abbrev pub end_of : SliceNode → ℕ
end_of s = add_word s.pos s.len

unfoldable pub insert_node : Tree → SliceNode → Tree
insert_node leaf new = node new leaf leaf
insert_node (node s l r) new =
    if ltb new.pos s.pos then node s (insert_node l new) r else node s l (insert_node r new)

-- the left links that the search for the least node of a tree follows
unfoldable pub min_steps : Tree → ℕ
min_steps leaf = 0
min_steps (node s leaf r) = 0
min_steps (node s (node t l r') r) = suc (min_steps (node t l r'))

-- the node that so many left links lead to
unfoldable pub left_by : ℕ → Tree → Option Tree
left_by n leaf = none
left_by zero (node s l r) = some (node s l r)
left_by (suc n) (node s l r) = left_by n l

-- `min_node->right = node->right`: a node whose right link leads, by left links, back to it is on a
-- cycle, which no value of `Tree` is. Where the search ended nowhere there is no node to relink.
unfoldable pub relink : Tree → Option Tree
unfolding left_by min_steps
relink right = elim (left_by (min_steps right) right) [ some min_node ↦ none | none ↦ some right ]

-- the branch of `Cut` for a node that is covered whole
unfoldable pub remove_root : Tree → Tree → Option Tree
unfolding relink
remove_root leaf r = some r
remove_root (node s l l') leaf = some (node s l l')
remove_root (node s l l') (node t r r') = relink (node t r r')

abbrev pub right_part : SliceNode → ℕ → SliceNode
right_part s end = record s {
  off = add_word s.off (sub_word end s.pos);
  len = sub_word (end_of s) end;
  pos = end;
}

abbrev pub left_part : SliceNode → ℕ → SliceNode
left_part s pos = record s { len = sub_word pos s.pos }

abbrev pub tail_part : SliceNode → ℕ → SliceNode
tail_part s end =
    let cut_len = sub_word end s.pos in
    record s { off = add_word s.off cut_len; len = sub_word s.len cut_len; pos = end }

-- what `Cut` does with a node, once its subtrees are cut
unfoldable pub cut_node : ℕ → ℕ → SliceNode → Tree → Tree → Option Tree
unfolding remove_root
cut_node pos end s l r =
    if leb (end_of s) pos || leb end s.pos
    then some (node s l r)
    else if leb pos s.pos && leb (end_of s) end
    then remove_root l r
    else if ltb s.pos pos && ltb end (end_of s)
    then some (node (left_part s pos) l (insert_node r (right_part s end)))
    else if ltb s.pos pos
    then some (node (left_part s pos) l r)
    else some (node (tail_part s end) l r)

infixl 5 ◌>>=◌
abbrev ◌>>=◌ : Option Tree → (Tree → Option Tree) → Option Tree
none >>= f = none
some t >>= f = f t

unfoldable pub cut : ℕ → ℕ → Tree → Option Tree
cut pos len leaf = some leaf
cut pos len (node s l r) = do
  l' ← cut pos len l
  r' ← cut pos len r
  cut_node pos (add_word pos len) s l' r'

unfoldable pub insert : Tree → SliceNode → Option Tree
insert root new = do root' ← cut new.pos new.len root; some (insert_node root' new)

unfoldable pub find : ℕ → Tree → Option SliceNode
find pos leaf = none
find pos (node s l r) =
    if ltb pos s.pos then find pos l else if leb (end_of s) pos then find pos r else some s

unfoldable pub inorder_collect : Tree → List SliceNode
inorder_collect leaf = []
inorder_collect (node s l r) = inorder_collect l ++ s ∷ inorder_collect r

unfoldable pub range_collect : ℕ → ℕ → Tree → List SliceNode
range_collect start end leaf = []
range_collect start end (node s l r) =
    if leb end s.pos
    then range_collect start end l
    else if leb (end_of s) start
    then range_collect start end r
    else range_collect start end l ++ s ∷ range_collect start end r

pub record SliceInfo : Type 0 where
  pub slice_id : ℕ
  pub offset : ℕ
  pub size : ℕ
  pub storage_key : Bytes

-- the loop of `Build`; `to_string` is the C++ library's
abbrev infos : (ℕ → Bytes) → Bytes → List SliceNode → List SliceInfo
infos to_string prefix [] = []
infos to_string prefix (s ∷ rest) =
    record {
      slice_id = s.id;
      offset = s.pos;
      size = s.len;
      storage_key = prefix ++ (codes "/" ++ to_string s.id);
    }
    ∷ infos to_string prefix rest

unfoldable pub build : (ℕ → Bytes) → Tree → Bytes → List SliceInfo
unfolding inorder_collect
build to_string root key_prefix = infos to_string key_prefix (inorder_collect root)

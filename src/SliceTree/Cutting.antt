-- ===== src/SliceTree/Cutting.antt =====
-- `Cut` of src/metadata/slice_tree.cpp at every node of a tree.
use nimbus_store.Base.{
  ℕ, ◌+◌, ◌-◌, ◌^◌, ◌≤◌, ◌<◌, Option, none, some, ◌≡◌, refl, ap, ◌∙◌, ◌⊎◌, inl, inr, arith,
  Option-cases, subst,
}
use nimbus_store.SliceTree.{
  SliceNode, Tree, leaf, node, insert_node, remove_root, cut_node, cut, find, add_word,
}
use nimbus_store.SliceTree.CutNode.{
  kept, after, cut_node_apart, cut_node_covered, cut_node_inside, cut_node_left, cut_node_right,
  cut_cases, remove_root_two,
}
use nimbus_store.SliceTree.Order.{
  IsOrdered, IsFree, IsOrdered-widen, IsFree-of_above, find_below, find_above,
  insert_node-IsOrdered, find-insert_node,
}

-- Of a cut that ends in a tree.
abbrev pub Ends {ℓ} : (Tree → Type ℓ) → Option Tree → Type ℓ
Ends P none = Unit
Ends P (some t) = P t

-- Which byte of which slice stands at a position: the slice's id and the offset in it.
abbrev pub content : Option SliceNode → ℕ → Option (ℕ × ℕ)
content none q = none
content (some s) q = some (s.id, s.off + (q - s.pos))

-- A tree after a cut of [a, b): ordered, free of the range, and the same outside of it.
abbrev pub IsCut : ℕ → ℕ → ℕ → ℕ → Tree → Tree → Type 0
IsCut a b lo hi t t' =
    IsOrdered lo hi t'
    × IsFree a b t'
    × ((q : ℕ) → ((q < a) ⊎ (b ≤ q)) → content (find q t') q ≡ content (find q t) q)

remove_root-IsOrdered :
    (lo mid mid' hi : ℕ) (l r : Tree)
    → lo ≤ mid
    → mid ≤ mid'
    → mid' ≤ hi
    → IsOrdered lo mid l
    → IsOrdered mid' hi r
    → Ends (IsOrdered lo hi) (remove_root l r)
unfolding remove_root
remove_root-IsOrdered lo mid mid' hi leaf r a p b hl hr =
    IsOrdered-widen mid' hi lo hi r (omega arith) (omega arith) hr
remove_root-IsOrdered lo mid mid' hi (node s l l') leaf a p b hl hr =
    IsOrdered-widen lo mid lo hi (node s l l') (omega arith) (omega arith) hl
remove_root-IsOrdered lo mid mid' hi (node s l l') (node u r r') a p b hl hr =
    rw (remove_root_two s u l l' r r') tt

remove_root-IsFree :
    (a b : ℕ) (l r : Tree) → IsFree a b l → IsFree a b r → Ends (IsFree a b) (remove_root l r)
unfolding remove_root
remove_root-IsFree a b leaf r fl fr = fr
remove_root-IsFree a b (node s l l') leaf fl fr = fl
remove_root-IsFree a b (node s l l') (node u r r') fl fr = rw (remove_root_two s u l l' r r') tt

remove_root-find :
    (q a b lo hi : ℕ) (s : SliceNode) (l r : Tree)
    → IsOrdered lo hi (node s l r)
    → hi < 2 ^ 64
    → a ≤ s.pos
    → s.pos + s.len ≤ b
    → ((q < a) ⊎ (b ≤ q))
    → Ends (λ (t : Tree). find q t ≡ find q (node s l r)) (remove_root l r)
unfolding remove_root find
remove_root-find q a b lo hi s leaf r h w p p' o =
    ground (arith, find_below q (s.pos + s.len) hi r h.4)
remove_root-find q a b lo hi s (node u l l') leaf h w p p' o =
    ground (arith, find_above q lo s.pos (node u l l') h.3)
remove_root-find q a b lo hi s (node u l l') (node v r r') h w p p' o =
    rw (remove_root_two u v l l' r r') tt

insert_node-IsFree :
    (a b : ℕ) (t : Tree) (n : SliceNode)
    → ((n.pos + n.len ≤ a) ⊎ (b ≤ n.pos))
    → IsFree a b t
    → IsFree a b (insert_node t n)
unfolding insert_node
insert_node-IsFree a b leaf n i f = (i, tt, tt)
insert_node-IsFree a b (node s l r) n i f =
    ground (arith, insert_node-IsFree a b l n i f.1, insert_node-IsFree a b r n i f.2)

IsCut-of_Ends :
    (a b lo hi : ℕ) (t : Tree) (o : Option Tree)
    → Ends (IsOrdered lo hi) o
    → Ends (IsFree a b) o
    → ((q : ℕ) → ((q < a) ⊎ (b ≤ q)) → Ends (λ (t' : Tree). find q t' ≡ find q t) o)
    → Ends (IsCut a b lo hi t) o
IsCut-of_Ends a b lo hi t none h k f = tt
IsCut-of_Ends a b lo hi t (some t') h k f = (h, k, λ (q : ℕ) o. ap (λ x. content x q) (f q o))

module _ (a b lo hi : ℕ) (s : SliceNode) (l r : Tree) (h : IsOrdered lo hi (node s l r))
    (w : hi < 2 ^ 64) (p : a < b) (fl : IsFree a b l) (fr : IsFree a b r) where
  IsCut-apart : ((s.pos + s.len ≤ a) ⊎ (b ≤ s.pos)) → IsCut a b lo hi (node s l r) (node s l r)
  IsCut-apart i = (h, (i, fl, fr), λ (q : ℕ) k. refl)

  IsCut-left :
      s.pos < a
      → a < s.pos + s.len
      → s.pos + s.len ≤ b
      → IsCut a b lo hi (node s l r) (node (kept s a) l r)
  unfolding find
  IsCut-left i j k =
      let g : s.pos + (a - s.pos) ≤ s.pos + s.len = omega arith in
      (
        (
          h.0,
          omega arith,
          omega arith,
          h.3,
          IsOrdered-widen (s.pos + s.len) hi (s.pos + (a - s.pos)) hi r g (omega arith) h.4,
        ),
        (inl (omega arith), fl, fr),
        λ (q : ℕ) o. ground (arith, find_below q (s.pos + s.len) hi r h.4),
      )

  IsCut-right :
      a ≤ s.pos
      → s.pos < b
      → b < s.pos + s.len
      → IsCut a b lo hi (node s l r) (node (after s b) l r)
  unfolding find
  IsCut-right i j k =
      let g : s.pos + s.len ≤ b + (s.pos + s.len - b) = omega arith in
      let g' : b + (s.pos + s.len - b) ≤ s.pos + s.len = omega arith in
      (
        (
          omega arith,
          omega arith,
          omega arith,
          IsOrdered-widen lo s.pos lo b l (omega arith) (omega arith) h.3,
          IsOrdered-widen (s.pos + s.len) hi (b + (s.pos + s.len - b)) hi r g' (omega arith) h.4,
        ),
        (inr (omega arith), fl, fr),
        λ (q : ℕ) o. ground (arith, find_above q lo s.pos l h.3),
      )

  IsCut-inside :
      s.pos < a
      → b < s.pos + s.len
      → IsCut a b lo hi (node s l r) (node (kept s a) l (insert_node r (after s b)))
  unfolding find
  IsCut-inside i k =
      let e : s.pos + (a - s.pos) ≡ a = omega arith in
      let room : IsFree b (b + (s.pos + s.len - b)) r =
        IsFree-of_above (s.pos + s.len) hi b (b + (s.pos + s.len - b)) r h.4 (omega arith) in
      let wide : IsOrdered a hi r =
        IsOrdered-widen (s.pos + s.len) hi a hi r (omega arith) (omega arith) h.4 in
      let wide' : IsOrdered (s.pos + (a - s.pos)) hi (insert_node r (after s b)) = rw e (
        insert_node-IsOrdered a hi r (after s b) wide (omega arith) (omega arith) (omega arith)
          (omega arith) room) in
      (
        (h.0, omega arith, omega arith, h.3, wide'),
        (inl (omega arith), fl, insert_node-IsFree a b r (after s b) (inr (omega arith)) fr),
        λ (q : ℕ) o. ground (
          arith,
          find-insert_node q a hi r (after s b) wide w (omega arith) (omega arith) room,
          find_below q (s.pos + s.len) hi r h.4,
        ),
      )

  IsCut-covered :
      a ≤ s.pos → s.pos + s.len ≤ b → Ends (IsCut a b lo hi (node s l r)) (remove_root l r)
  IsCut-covered i j =
      IsCut-of_Ends a b lo hi (node s l r) (remove_root l r)
        (remove_root-IsOrdered lo s.pos (s.pos + s.len) hi l r (omega arith) (omega arith)
          (omega arith) h.3 h.4)
        (remove_root-IsFree a b l r fl fr)
        (λ (q : ℕ) o. remove_root-find q a b lo hi s l r h w i j o)

  cut_node-IsCut : b < 2 ^ 64 → Ends (IsCut a b lo hi (node s l r)) (cut_node a b s l r)
  cut_node-IsCut v =
      let u : s.pos + s.len < 2 ^ 64 = omega arith in
      let u' : s.off + s.len < 2 ^ 64 = h.2 in
      elim (cut_cases a b s l r (omega arith) (omega arith) p) [
        | inl i ↦ rw (cut_node_apart a b s l r u u' i) (IsCut-apart i)
        | inr (inl (i, j, k, m)) ↦ rw (cut_node_covered a b s l r u u' i j k m) (IsCut-covered i j)
        | inr (inr (inl (i, j))) ↦ rw (cut_node_inside a b s l r u u' i p j) (IsCut-inside i j)
        | inr (inr (inr (inl (i, j, k)))) ↦
            rw (cut_node_left a b s l r u u' i j k) (IsCut-left i j k)
        | inr (inr (inr (inr (i, j, k)))) ↦
            rw (cut_node_right a b s l r u u' i j k) (IsCut-right i j k)
      ]

-- The node of two cut subtrees.
node-IsCut :
    (a b lo hi : ℕ) (s : SliceNode) (l r l' r' t : Tree)
    → IsCut a b lo s.pos l l'
    → IsCut a b (s.pos + s.len) hi r r'
    → s.pos + s.len < 2 ^ 64
    → IsCut a b lo hi (node s l' r') t
    → IsCut a b lo hi (node s l r) t
unfolding find
node-IsCut a b lo hi s l r l' r' t cl cr w c =
    (c.0, c.1, λ (q : ℕ) o. c.2 q o ∙ ground (arith, cl.2 q o, cr.2 q o))

Ends-map {ℓ} :
    (P Q : Tree → Type ℓ) → ((t : Tree) → P t → Q t) → (o : Option Tree) → Ends P o → Ends Q o
Ends-map P Q f none p = tt
Ends-map P Q f (some t) p = f t p

pub cut-IsCut :
    (a len lo hi : ℕ) (t : Tree)
    → IsOrdered lo hi t
    → hi < 2 ^ 64
    → 0 < len
    → a + len < 2 ^ 64
    → Ends (IsCut a (a + len) lo hi t) (cut a len t)
unfolding cut
cut-IsCut a len lo hi leaf h w p v = (tt, tt, λ (q : ℕ) o. refl)
cut-IsCut a len lo hi (node s l r) h w p v =
    let il = cut-IsCut a len lo s.pos l h.3 (omega arith) p v in
    let ir = cut-IsCut a len (s.pos + s.len) hi r h.4 w p v in
    let e : add_word a len ≡ a + len = omega arith in
    elim (Option-cases (cut a len l)) [
      | inl el ↦ rw el tt
      | inr (l', el) ↦ elim (Option-cases (cut a len r)) [
        | inl er ↦ rw (el, er) tt
        | inr (r', er) ↦
            let cl : IsCut a (a + len) lo s.pos l l' =
              subst (Ends (IsCut a (a + len) lo s.pos l)) el il in
            let cr : IsCut a (a + len) (s.pos + s.len) hi r r' =
              subst (Ends (IsCut a (a + len) (s.pos + s.len) hi r)) er ir in
            rw (el, er, e)
              (Ends-map (IsCut a (a + len) lo hi (node s l' r'))
                (IsCut a (a + len) lo hi (node s l r))
                (λ t' c. node-IsCut a (a + len) lo hi s l r l' r' t' cl cr (omega arith) c)
                (cut_node a (a + len) s l' r')
                (cut_node-IsCut a (a + len) lo hi s l' r' (h.0, h.1, h.2, cl.0, cr.0) w
                  (omega arith) cl.1 cr.1 v))
      ]
    ]

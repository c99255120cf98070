-- ===== src/SliceTree/Tests.antt =====
-- The slice tree at concrete writes.
use nimbus_store.Base.{ℕ, none, some, ◌≡◌, refl, arith, keep, inl, Bool, true, false}
use nimbus_store.SliceTree.{
  SliceNode, Tree, leaf, node, insert_node, left_by, min_steps, relink, remove_root, cut_node, cut,
  insert, range_collect, inorder_collect,
}
use nimbus_store.SliceTree.Insertion.{IsInserted, insert-IsInserted, insert_total}
use nimbus_store.SliceTree.Range.{meets, range_collect_lem}

-- 100 bytes of slice `id` at `pos`
abbrev slice : ℕ → ℕ → SliceNode
slice id pos = record { id = id; size = 100; off = 0; len = 100; pos = pos }

abbrev first : Tree
first = node (slice 1 100) leaf leaf

abbrev three : Tree
three = node (slice 1 100) (node (slice 2 0) leaf leaf) (node (slice 3 200) leaf leaf)

abbrev over : SliceNode
over = record { id = 4; size = 20; off = 0; len = 20; pos = 130 }

abbrev split_first : Tree
split_first =
    node record { id = 1; size = 100; off = 0; len = 30; pos = 100 } leaf
      (node record { id = 1; size = 100; off = 50; len = 50; pos = 150 } (node over leaf leaf) leaf)

split_run : insert first over ≡ some split_first
unfolding insert cut cut_node insert_node remove_root
split_run = refl

insert-IsInserted_example : IsInserted 0 1000 over first split_first
insert-IsInserted_example =
    insert-IsInserted 0 1000 first split_first over (omega arith, omega arith, omega arith, tt, tt)
      (omega arith) (omega arith) (omega arith) (omega arith) (omega arith) split_run

insert_total_example : (t' : Tree) × (insert first over ≡ some t')
insert_total_example =
    insert_total 0 1000 first over (omega arith, omega arith, omega arith, tt, tt) (omega arith)
      (omega arith) (omega arith) (inl (omega arith), tt, tt)

abbrev is_leaf : Tree → Bool
is_leaf leaf = true
is_leaf (node s l r) = false

insert_cycle_run : insert three (slice 5 100) ≡ none
unfolding insert cut cut_node insert_node remove_root relink left_by min_steps
insert_cycle_run = refl

range_collect_example : range_collect 150 250 three ≡ keep (meets 150 250) (inorder_collect three)
range_collect_example =
    range_collect_lem 150 250 0 1000 three
      (
        omega arith,
        omega arith,
        omega arith,
        (omega arith, omega arith, omega arith, tt, tt),
        (omega arith, omega arith, omega arith, tt, tt),
      )
      (omega arith)

-- ===== src/Block/Tests.antt =====
-- The tree of block.c at concrete inputs.
use strawberry_os.Prelude.{ℕ, ◌≡◌, refl, true, List, [], ◌∷◌, some, arith, inl, inr}
use strawberry_os.Block.{
  MemoryBlock, Tree, leaf, node, remove_memory_node, search_memory_node, adjust_memory_map,
  adjust_parent, adjust_block, adjust_avl, adjust_height, straighten_left, straighten_right, higher,
  find, rightmost, unlink, load, search_below, search_above,
}
use strawberry_os.Block.Insert.{
  insert_memory_node, insert_at, merge_prev, merge_next, merge_above, absorb,
}
use strawberry_os.Block.Items.{items}
use strawberry_os.Block.Search.{IsNearestLow, IsNearestHigh, search_memory_node-IsNearest}
use strawberry_os.Block.Removal.{Removed}
use strawberry_os.Block.Map.{IsMap, remove_memory_node-IsMap}
use strawberry_os.Block.Union.{IsInserted, insert_memory_node-IsInserted}

abbrev block_at : ℕ → ℕ → ℕ → ℕ → MemoryBlock
block_at ptr h a s = record { ptr = ptr; h = h; a = a; s = s; v = 0 }

-- Three ranges, the middle one in the root.
abbrev three : Tree
three =
    node (node leaf (block_at 1 1 0 10) leaf) (block_at 2 2 20 10)
      (node leaf (block_at 3 1 40 10) leaf)

abbrev fourth : MemoryBlock
fourth = block_at 4 0 30 10

-- Two balancing rounds: 1, 2, 3 inserted in order leave 2 at the root.
insert_rotates :
    insert_at
      (insert_at (insert_at leaf (block_at 1 0 0 5) []) (block_at 2 0 10 5) [])
      (block_at 3 0 20 5)
      []
    ≡ node
        (node leaf (block_at 1 1 0 5) leaf)
        (block_at 2 2 10 5)
        (node leaf (block_at 3 1 20 5) leaf)
unfolding insert_at adjust_memory_map adjust_block adjust_avl adjust_height straighten_left
    straighten_right higher
insert_rotates = refl

-- 30..40 closes the gap between the second and the third range. The node 2 takes over the range of
-- its predecessor, whose node 1 is freed.
insert_merges :
    insert_memory_node three fourth true
    ≡ some (node leaf (block_at 2 2 0 10) (node leaf (block_at 4 1 20 30) leaf), 3 ∷ 1 ∷ [])
unfolding insert_memory_node merge_prev merge_next merge_above absorb insert_at adjust_memory_map
    adjust_parent adjust_block adjust_avl adjust_height straighten_left straighten_right higher find
    rightmost unlink load search_below search_above remove_memory_node search_memory_node
insert_merges = refl

three-IsMap : IsMap 1 three
unfolding higher
three-IsMap = record {
  avl = (
    (tt, tt, refl, omega arith, omega arith),
    (tt, tt, refl, omega arith, omega arith),
    refl,
    omega arith,
    omega arith,
  );
  sorted = omega arith;
  fits = omega arith;
  distinct = λ p. ground arith;
}

insert_memory_node-IsInserted_example :
    (t' : Tree) × (freed : List ℕ) × (insert_memory_node three fourth true ≡ some (t', freed))
    × IsInserted 1 three fourth t' freed
insert_memory_node-IsInserted_example =
    insert_memory_node-IsInserted 1 three fourth three-IsMap (omega arith) refl (omega arith)

remove_memory_node-IsMap_example :
    (t' : Tree) × (freed : ℕ) × (remove_memory_node three 2 ≡ some (t', freed))
    × Removed 2 (items three) (items t') freed
    × IsMap 1 t'
remove_memory_node-IsMap_example =
    remove_memory_node-IsMap 1 three (block_at 2 2 20 10) three-IsMap (inr (inl refl))

search_memory_node-IsNearest_example :
    IsNearestLow 25 (items three) (search_memory_node three 25 0)
    × IsNearestHigh 25 (items three) (search_memory_node three 25 1)
search_memory_node-IsNearest_example = search_memory_node-IsNearest three 25 three-IsMap.sorted

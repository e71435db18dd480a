-- ===== src/Block/Insert.antt =====
-- KERNEL/SOURCE/memory/block.c: `InsertMemoryNode`, with its merge of adjacent blocks.
use strawberry_os.Prelude.{
  ℕ, Bool, true, false, List, [], ◌∷◌, Option, none, some, ltb, leb, if◌then◌else◌, add64, sub64,
  ◌>>=◌,
}
use strawberry_os.Block.{
  MemoryBlock, Tree, leaf, node, Frame, left_of, right_of, adjust_memory_map, remove_memory_node,
  load, search_memory_node,
}

-- The end of `InsertMemoryNode`: walk down to a null link, store the block and adjust its path.
unfoldable pub insert_at : Tree → MemoryBlock → List Frame → Tree
insert_at leaf block path = adjust_memory_map (node leaf block leaf) path
insert_at (node l b r) block path = elim (ltb b.a block.a) [
  | true ↦ insert_at r block (right_of l b ∷ path)
  | false ↦ insert_at l block (left_of b r ∷ path)
]

-- The tree, the block that is to be inserted, and the nodes freed so far.
pub record Merge : Type 0 where
  pub tree : Tree
  pub block : MemoryBlock
  pub freed : List ℕ

abbrev pub block_end : MemoryBlock → ℕ
block_end b = add64 b.a b.s

-- `Z`: the end that is kept unless the other one lies beyond it.
abbrev pub greater_end : ℕ → ℕ → ℕ
greater_end other kept = if ltb kept other then other else kept

-- Remove a node, and go on with the block grown over its addresses.
unfoldable pub absorb : Merge → ℕ → MemoryBlock → Option Merge
absorb m p grown = do
  (t, freed) ← remove_memory_node m.tree p
  some (record { tree = t; block = grown; freed = freed ∷ m.freed })

-- The merge with the block below: the block grows down to its base, and its node is removed.
unfoldable pub merge_prev : Merge → Option MemoryBlock → Option Merge
merge_prev m none = some m
merge_prev m (some prev) =
    let z = greater_end (block_end prev) (block_end m.block) in
    let grown = record m.block { a = prev.a; s = sub64 z prev.a } in
    if leb m.block.a (block_end prev) then absorb m prev.ptr grown else some m

-- The merge with the block above: the block grows up to its end, and its node is removed.
unfoldable pub merge_next : Merge → MemoryBlock → Option Merge
merge_next m next =
    let z = greater_end (block_end m.block) (block_end next) in
    let grown = record m.block { s = sub64 z m.block.a } in
    if leb next.a (block_end m.block) then absorb m next.ptr grown else some m

-- The block above was found before any node was removed, and is read again through its pointer.
unfoldable pub merge_above : Merge → Option MemoryBlock → Option Merge
merge_above m none = some m
merge_above m (some next) = do now ← load next.ptr m.tree; merge_next m now

-- `InsertMemoryNode`, with the nodes that it frees; `none` is the use of a node that was freed.
unfoldable pub insert_memory_node : Tree → MemoryBlock → Bool → Option (Tree × List ℕ)
insert_memory_node t block false = some (insert_at t block [], [])
insert_memory_node t block true = do
  let next = search_memory_node t block.a 1
  let prev = search_memory_node t block.a 0
  below ← merge_prev (record { tree = t; block = block; freed = [] }) prev
  merged ← merge_above below next
  some (insert_at merged.tree merged.block [], merged.freed)

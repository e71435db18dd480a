-- ===== src/Physical.antt =====
-- KERNEL/SOURCE/memory/page.c: the allocator of physical pages, on the map of block.c.
--
-- `PHYSICAL_MEMORY_MAP` is the tree, and `min` the node that the search returned: what the code
-- stores through that pointer is a store into the tree at its address. The node that `HeapAlloc`
-- gives is an argument, a function of the map at the time of the call.
pub mod Store
pub mod Taken
pub mod Search
pub mod Allocate
pub mod Free
mod Tests
use strawberry_os.Prelude.{
  ℕ, ◌+◌, ◌*◌, ◌/◌, ◌%◌, ◌^◌, zero, suc, Option, none, some, ltb, ◌==◌, if◌then◌else◌, true, u64,
  add64, sub64, mul64, ◌>>=◌,
}
use strawberry_os.Block.{MemoryBlock, Tree, leaf, node, search_memory_node, remove_memory_node}
use strawberry_os.Block.Insert.{insert_memory_node}

-- `block->S = s` for the node at the address `p`.
unfoldable pub store_size : Tree → ℕ → ℕ → Tree
store_size leaf p s = leaf
store_size (node l b r) p s =
    node (store_size l p s) (if b.ptr == p then record b { s = s } else b) (store_size r p s)

-- `1ULL << pageShift`, for the page sizes 0, 1 and 2.
abbrev pub page_bytes : ℕ → ℕ
page_bytes page_size = 2 ^ (12 + page_size * 9)

-- What lies between an address and the next page.
abbrev pub reminder : ℕ → ℕ → ℕ
reminder address page = sub64 0 (address % page) % page

-- A node that `HeapAlloc` gave, cleared by `memset`, with its base and size.
abbrev pub new_block : ℕ → ℕ → ℕ → MemoryBlock
new_block ptr a s = record { ptr = ptr; h = 0; a = a; s = s; v = 0 }

-- The store of the size that is left below the allocation; an empty node is removed.
unfoldable pub shrink : Tree → MemoryBlock → ℕ → Option Tree
shrink t min left =
    let stored = store_size t min.ptr left in
    if left == 0 then (do (t', freed) ← remove_memory_node stored min.ptr; some t') else some stored

-- What is left above the allocation becomes a block of its own.
unfoldable pub split : (Tree → ℕ) → Tree → ℕ → ℕ → Option Tree
split new_node t address size =
    if size == 0
    then some t
    else do (t', freed) ← insert_memory_node t (new_block (new_node t) address size) true; some t'

-- The number of pages that a block of this size gives.
abbrev pub allocate_count : ℕ → ℕ → ℕ → ℕ
allocate_count size page count = if ltb (size / page) count then size / page else count

-- `returned` has the code, and what `*physicalAddress` and `*pageCount` hold; `halted` is the endless
-- loop of `MemoryNotEnough`; `faulted` is the use of a node that was freed.
pub data Allocation : Type 0 where
  returned : ℕ → ℕ → ℕ → Tree → Allocation
  halted : Allocation
  faulted : Allocation
  unfinished : Allocation

unfoldable pub finish : ℕ → ℕ → Option Tree → Allocation
finish address count none = faulted
finish address count (some t) = returned 0 address count t

-- The rest of the round, once the block has a page.
unfoldable pub take_pages : (Tree → ℕ) → Tree → MemoryBlock → ℕ → ℕ → ℕ → ℕ → Option Tree
take_pages new_node t min address size page count = do
  t' ← shrink t min (sub64 address min.a)
  split new_node t' (add64 address (mul64 count page)) (sub64 size (mul64 count page))

-- The rounds of `AllocatePhysicalMemory`.
unfoldable pub allocate_rounds : ℕ → (Tree → ℕ) → Tree → ℕ → ℕ → ℕ → Allocation
allocate_rounds zero new_node t search_address page count = unfinished
allocate_rounds (suc fuel) new_node t search_address page count =
    elim (search_memory_node t search_address 1) [
      | none ↦ halted
      | some min ↦
          let rest = allocate_rounds fuel new_node t (add64 min.a min.s) page count in
          let gap = reminder min.a page in
          let size = sub64 min.s gap in
          let address = add64 min.a gap in
          let taken = allocate_count size page count in
          if ltb min.s gap
          then rest
          else if ltb size page
          then rest
          else finish address taken (take_pages new_node t min address size page taken)
    ]

-- `AllocatePhysicalMemory`
unfoldable pub allocate_physical_memory : ℕ → (Tree → ℕ) → Tree → ℕ → ℕ → ℕ → Allocation
allocate_physical_memory fuel new_node t address page_size page_count =
    if page_count == 0
    then returned 0 address 0 t
    else if ltb 2 page_size
    then returned 1 address 0 t
    else allocate_rounds fuel new_node t 0 (page_bytes page_size) page_count

-- `FreePhysicalMemory`: the code that it returns, and the map.
unfoldable pub free_physical_memory : ℕ → Tree → ℕ → ℕ → ℕ → Option (ℕ × Tree)
free_physical_memory ptr t address page_size page_count =
    if ltb 2 page_size
    then some (1, t)
    else if page_count == 0
    then some (0, t)
    else if u64 (address + 1) == 0
    then some (0, t)
    else do
      let block = new_block ptr address (mul64 (page_bytes page_size) page_count)
      (t', freed) ← insert_memory_node t block true
      some (0, t')

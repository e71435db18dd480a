-- ===== src/Virtual.antt =====
-- KERNEL/SOURCE/memory/virtual.c: the regions of virtual memory, `SetupVirtualMemory` and
-- `UncommitVirtualMemory`.
--
-- Three maps of block.c hold the free, the reserved and the committed regions. A region that a search
-- returned is read as it was then, and what the code stores through its pointer is a store into the
-- tree at its address. The nodes that `HeapAlloc` gives are an argument, a function of the state at
-- the time of the call. `none` is the use of a node that was freed, or fuel that has run out.
pub mod Request
pub mod Region
pub mod Reserve
pub mod Moves
pub mod Auto
mod Tests
use strawberry_os.Prelude.{
  ℕ, zero, suc, ◌+◌, ◌-◌, ◌*◌, ◌/◌, ◌%◌, ◌^◌, Bool, true, false, ◌&&◌, Option, none, some, ltb, leb,
  ◌==◌, if◌then◌else◌, u64, add64, sub64, ◌>>=◌,
}
use strawberry_os.Block.{MemoryBlock, Tree, leaf, node, search_memory_node, remove_memory_node}
use strawberry_os.Block.Insert.{insert_memory_node}
use strawberry_os.Physical.{new_block, shrink, free_physical_memory}
use strawberry_os.Paging.{Machine, physical_mapping, linear_unmapping, unmapped}

-- `VTL_FRE`, `VTL_RSV`, `VTL_CMT`, and the machine with its page tables and free physical memory.
pub record VirtualMemory : Type 0 where
  pub fre : Tree
  pub rsv : Tree
  pub cmt : Tree
  pub machine : Machine

abbrev pub NewNode : Type 0
NewNode = VirtualMemory → ℕ

-- `(((x - 1) >> 12) + 1) << 12`
abbrev pub round_up : ℕ → ℕ
round_up x = u64 ((sub64 x 1 / 2 ^ 12 + 1) * 2 ^ 12)

-- `SetupVirtualMemory`
unfoldable pub setup_virtual_memory : NewNode → VirtualMemory → Option VirtualMemory
setup_virtual_memory new_node v = do
  (t, freed) ←
      insert_memory_node v.fre (new_block (new_node v) 0xFFFF900000000000 0x0000100000000000) true
  some (record v { fre = t })

-- `region->A = a; region->S = s` for the node at the address `p`.
unfoldable pub store_range : Tree → ℕ → ℕ → ℕ → Tree
store_range leaf p a s = leaf
store_range (node l b r) p a s =
    node (store_range l p a s) (if b.ptr == p then record b { a = a; s = s } else b)
      (store_range r p a s)

-- What a committed region has in common with the range that is to be uncommitted: the range begins
-- in the region, the region begins in the range, the region lies behind the range, or neither. The
-- numbers are `A0` and `S0`.
pub data Common : Type 0 where
  from_range : ℕ → ℕ → Common
  from_region : ℕ → ℕ → Common
  behind : Common
  nothing_common : Common

abbrev min64 : ℕ → ℕ → ℕ
min64 a b = if ltb a b then a else b

-- The tests of the round.
unfoldable pub common_range : MemoryBlock → ℕ → ℕ → Common
common_range region address size =
    let region_end = add64 region.a region.s in
    if leb region.a address && ltb address region_end
    then from_range address (min64 (sub64 region_end address) size)
    else (if leb address region.a && ltb region.a (add64 address size)
        then from_region region.a (min64 (sub64 (add64 address size) region.a) region.s)
        else (if leb (add64 address size) region.a then behind else nothing_common))

-- What is left of the region above the range: a region of its own, inserted without a merge.
unfoldable pub split_above : ℕ → Tree → MemoryBlock → ℕ → ℕ → Option Tree
split_above ptr t region address size =
    let end = add64 region.a region.s in
    let above = add64 address size in
    if ltb above end
    then (do
      (t', freed) ←
          insert_memory_node t
            (record { ptr = ptr; h = 0; a = above; s = sub64 end above; v = region.v }) false
      some t')
    else some t

-- The first case: the region is cut to what lies below the range.
unfoldable pub cut_from_range : NewNode → VirtualMemory → MemoryBlock → ℕ → ℕ → Option VirtualMemory
cut_from_range new_node v region address size = do
  low ← shrink v.cmt region (sub64 address region.a)
  high ← split_above (new_node (record v { cmt = low })) low region address size
  some (record v { cmt = high })

-- The second case: the region loses its first `s0` addresses.
unfoldable pub cut_from_region : VirtualMemory → MemoryBlock → ℕ → Option VirtualMemory
cut_from_region v region s0 =
    let left = sub64 region.s s0 in
    let stored = store_range v.cmt region.ptr (add64 region.a s0) left in
    if left == 0
    then (do (t, freed) ← remove_memory_node stored region.ptr; some (record v { cmt = t }))
    else some (record v { cmt = stored })

-- `FreePhysicalMemory(A1, 0, S1 >> 12)`
unfoldable pub free_pages : NewNode → VirtualMemory → ℕ → ℕ → Option VirtualMemory
free_pages new_node v a1 s1 = do
  (code, t) ← free_physical_memory (new_node v) v.machine.free a1 0 (s1 / 2 ^ 12)
  some (record v { machine = record v.machine { free = t } })

-- The pages that are to be given back next: `A1` and `S1`.
pub record Run : Type 0 where
  pub state : VirtualMemory
  pub a1 : ℕ
  pub s1 : ℕ

abbrev unmap : VirtualMemory → ℕ → VirtualMemory
unmap v a0 = record v { machine = (linear_unmapping v.machine a0).1 }

-- A page with the physical address `pa`: a page that does not follow the run begins a new one, and
-- the run is given back.
unfoldable pub free_page : NewNode → Run → ℕ → ℕ → Option Run
free_page new_node run a0 pa =
    if pa == unmapped
    then some run
    else (if add64 run.a1 run.s1 == pa
        then some (record run { state = unmap run.state a0; s1 = add64 run.s1 0x1000 })
        else (do
          w ← free_pages new_node run.state run.a1 run.s1
          some (record { state = unmap w a0; a1 = pa; s1 = 0x1000 })))

-- "Free common region": the pages from `a0` on that have physical memory are unmapped, and what they
-- had is given back in runs of adjacent pages.
unfoldable pub free_common : ℕ → NewNode → Run → ℕ → ℕ → Option VirtualMemory
free_common zero new_node run a0 s0 = none
free_common (suc fuel) new_node run a0 s0 = elim (s0 == 0) [
  | true ↦ free_pages new_node run.state run.a1 run.s1
  | false ↦ do
    next ← free_page new_node run a0 (physical_mapping run.state.machine a0)
    free_common fuel new_node next (add64 a0 0x1000) (sub64 s0 0x1000)
]

-- The end of a round: the common pages lose their memory, and the rounds go on.
unfoldable pub release :
    ℕ
    → NewNode
    → ℕ
    → ℕ
    → Option VirtualMemory
    → (VirtualMemory → Option VirtualMemory)
    → Option VirtualMemory
release fuel new_node a0 s0 cut rest = do
  v ← cut
  w ← free_common fuel new_node (record { state = v; a1 = unmapped; s1 = 0 }) a0 s0
  rest w

-- The rounds of `UncommitVirtualMemory`, over the committed regions in order; `pages` is the fuel of
-- the inner loop.
unfoldable pub uncommit_rounds : ℕ → ℕ → NewNode → VirtualMemory → ℕ → ℕ → ℕ → Option VirtualMemory
uncommit_rounds zero pages new_node v search_address address size = none
uncommit_rounds (suc fuel) pages new_node v search_address address size =
    elim (search_memory_node v.cmt search_address 1) [
      | none ↦ some v
      | some region ↦
          let rest : VirtualMemory → Option VirtualMemory =
            λ w. uncommit_rounds fuel pages new_node w (add64 region.a region.s) address size in
          elim (common_range region address size) [
            | from_range a0 s0 ↦
                release pages new_node a0 s0 (cut_from_range new_node v region address size) rest
            | from_region a0 s0 ↦ release pages new_node a0 s0 (cut_from_region v region s0) rest
            | behind ↦ some v
            | nothing_common ↦ release pages new_node 0 0 (some v) rest
          ]
    ]

-- `UncommitVirtualMemory`
unfoldable pub uncommit_virtual_memory :
    ℕ → ℕ → NewNode → VirtualMemory → ℕ → ℕ → Option VirtualMemory
uncommit_virtual_memory fuel pages new_node v address size =
    uncommit_rounds fuel pages new_node v 0 address (round_up size)

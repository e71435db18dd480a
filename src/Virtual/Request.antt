-- ===== src/Virtual/Request.antt =====
-- KERNEL/SOURCE/memory/virtual.c: `NtAllocateVirtualMemory`, its steps in order.
use strawberry_os.Prelude.{
  ℕ, zero, suc, ◌/◌, ◌%◌, Bool, true, false, ◌&&◌, Option, none, some, leb, ◌==◌, if◌then◌else◌,
  add64, sub64, ◌>>=◌,
}
use strawberry_os.Block.{MemoryBlock, Tree, search_memory_node, remove_memory_node}
use strawberry_os.Block.Insert.{insert_memory_node}
use strawberry_os.Physical.{new_block, split, shrink, store_size}
use strawberry_os.Virtual.{VirtualMemory, NewNode, round_up, uncommit_virtual_memory}

-- What a step leaves: the state, and whether the request goes on or returns 0.
pub data Step : Type 0 where
  going : VirtualMemory → Step
  refused : VirtualMemory → Step
  faulted : Step

-- The steps of the request, one after the other.
abbrev pub and_then : Step → (VirtualMemory → Step) → Step
and_then (going v) f = f v
and_then (refused v) f = refused v
and_then faulted f = faulted

abbrev pub done : Option VirtualMemory → Step
done none = faulted
done (some v) = going v

-- `option & MEM_RESERVE`, `MEM_COMMIT`, `MEM_UNCOMMIT` and `MEM_FREE`
abbrev pub mem_reserve : ℕ → Bool
mem_reserve option = option % 2 == 1

abbrev pub mem_commit : ℕ → Bool
mem_commit option = option / 2 % 2 == 1

abbrev pub mem_uncommit : ℕ → Bool
mem_uncommit option = option / 4 % 2 == 1

abbrev pub mem_free : ℕ → Bool
mem_free option = option / 8 % 2 == 1

-- "auto allocate a region": the first free region that is large enough. `none` is fuel that has run
-- out, and `some none` that there is no such region.
unfoldable pub auto_address : ℕ → Tree → ℕ → ℕ → Option (Option ℕ)
auto_address zero t search_address size = none
auto_address (suc fuel) t search_address size = elim (search_memory_node t search_address 1) [
  | none ↦ some none
  | some region ↦
      let rest = auto_address fuel t (add64 region.a region.s) size in
      if leb size region.s then some (some region.a) else rest
]

-- The tests of "Step.1 RESERVE" on the region at or below the address.
abbrev pub lies_in : MemoryBlock → ℕ → ℕ → Bool
lies_in region address size =
    leb region.a (add64 address size) && leb (add64 address size) (add64 region.a region.s)

-- `if (!region->S)`
unfoldable pub drop_empty : Tree → ℕ → ℕ → Option Tree
drop_empty t p s = if s == 0 then (do (t', freed) ← remove_memory_node t p; some t') else some t

-- The free map once the range is taken out of the region: the remainder above is inserted before the
-- region, cut to what lies below, is removed if that is nothing.
unfoldable pub take_region : (Tree → ℕ) → Tree → MemoryBlock → ℕ → ℕ → Option Tree
take_region new_node t region address size =
    let below = sub64 address region.a in
    let above = add64 address size in
    let stored = store_size t region.ptr below in
    do
      t' ← split new_node stored above (sub64 (add64 region.a region.s) above)
      drop_empty t' region.ptr below

unfoldable pub insert_region : ℕ → Tree → ℕ → ℕ → Option Tree
insert_region ptr t a s = do (t', freed) ← insert_memory_node t (new_block ptr a s) true; some t'

-- "Step.1 RESERVE"
unfoldable pub reserve : NewNode → VirtualMemory → ℕ → ℕ → Step
reserve new_node v address size = elim (search_memory_node v.fre address 0) [
  | none ↦ refused v
  | some region ↦
      if lies_in region address size
      then done (do
        t ← take_region (λ t. new_node (record v { fre = t })) v.fre region address size
        r ← insert_region (new_node (record v { fre = t })) v.rsv address size
        some (record v { fre = t; rsv = r }))
      else refused v
]

-- The test of "Step.2 COMMIT" and "Step.3 UNCOMMIT" on the reserved region.
abbrev pub is_reserved : MemoryBlock → ℕ → ℕ → Bool
is_reserved rsv address size = leb size (sub64 (add64 rsv.a rsv.s) address)

-- "Step.2 COMMIT"
unfoldable pub commit : ℕ → ℕ → NewNode → VirtualMemory → ℕ → ℕ → ℕ → Step
commit fuel pages new_node v address size protect = elim (search_memory_node v.rsv address 0) [
  | none ↦ refused v
  | some rsv ↦
      if is_reserved rsv address size
      then done (do
        w ← uncommit_virtual_memory fuel pages new_node v address size
        (t, freed) ←
            insert_memory_node w.cmt
              (record { ptr = new_node w; h = 0; a = address; s = size; v = protect }) false
        some (record w { cmt = t }))
      else refused v
]

-- "Step.3 UNCOMMIT"
unfoldable pub uncommit : ℕ → ℕ → NewNode → VirtualMemory → ℕ → ℕ → Step
uncommit fuel pages new_node v address size = elim (search_memory_node v.rsv address 0) [
  | none ↦ refused v
  | some rsv ↦
      if is_reserved rsv address size
      then done (uncommit_virtual_memory fuel pages new_node v address size)
      else refused v
]

-- The reserved map once the range is taken out of the region, and the free map that gets it.
unfoldable pub give_back : NewNode → VirtualMemory → MemoryBlock → ℕ → ℕ → Option VirtualMemory
give_back new_node v rsv address size =
    let above = add64 address size in
    do
      low ← shrink v.rsv rsv (sub64 address rsv.a)
      r ← split (λ t. new_node (record v { rsv = t })) low above (sub64 (add64 rsv.a rsv.s) above)
      f ← insert_region (new_node (record v { rsv = r })) v.fre address size
      some (record v { rsv = r; fre = f })

-- "Step.4 FREE"
unfoldable pub free : ℕ → ℕ → NewNode → VirtualMemory → ℕ → ℕ → Step
free fuel pages new_node v address size = elim (search_memory_node v.rsv address 0) [
  | none ↦ refused v
  | some rsv ↦
      if leb (add64 address size) (add64 rsv.a rsv.s)
      then done (do
        w ← uncommit_virtual_memory fuel pages new_node v address size
        give_back new_node w rsv address size)
      else refused v
]

abbrev when : Bool → (VirtualMemory → Step) → VirtualMemory → Step
when true f v = f v
when false f v = going v

-- The four steps for an address and a size that are rounded, and not 0.
unfoldable pub steps : ℕ → ℕ → NewNode → VirtualMemory → ℕ → ℕ → ℕ → ℕ → Step
steps fuel pages new_node v address size option protect =
    and_then
      (and_then
        (and_then (when (mem_reserve option) (λ v. reserve new_node v address size) v)
          (when (mem_commit option) (λ v. commit fuel pages new_node v address size protect)))
        (when (mem_uncommit option) (λ v. uncommit fuel pages new_node v address size)))
      (when (mem_free option) (λ v. free fuel pages new_node v address size))

-- What a request returns, with the state; `none` is a fault or fuel that has run out.
abbrev pub returned : ℕ → Step → Option (ℕ × VirtualMemory)
returned address (going v) = some (address, v)
returned address (refused v) = some (0, v)
returned address faulted = none

-- `NtAllocateVirtualMemory`
unfoldable pub nt_allocate_virtual_memory :
    ℕ → ℕ → NewNode → VirtualMemory → ℕ → ℕ → ℕ → ℕ → Option (ℕ × VirtualMemory)
nt_allocate_virtual_memory fuel pages new_node v address size option protect =
    let at = round_up address in
    let paged = round_up size in
    if paged == 0
    then some (0, v)
    else (if at == 0
        then (if mem_reserve option
            then elim (auto_address fuel v.fre 0 paged) [
              | none ↦ none
              | some none ↦ some (0, v)
              | some (some a) ↦ returned a (steps fuel pages new_node v a paged option protect)
            ]
            else some (0, v))
        else returned at (steps fuel pages new_node v at paged option protect))

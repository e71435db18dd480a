-- ===== src/Paging/Fault.antt =====
-- KERNEL/SOURCE/memory/page.c: `INT0E`, the handler of page faults.
use strawberry_os.Prelude.{
  ℕ, ◌+◌, ◌*◌, ◌/◌, ◌%◌, ◌^◌, ◌-◌, ◌≤◌, ◌<◌, ◌≡◌, ◌≢◌, refl, Option, some, none, ltb, ◌==◌,
  if◌then◌else◌, Bool, ◌&&◌, true, false, arith, u64,
}
use strawberry_os.Block.{Tree, search_memory_node}
use strawberry_os.Physical.{Allocation, returned, allocate_physical_memory}
use strawberry_os.Paging.{
  Machine, system_linear, present, slot, entry, idx0, idx1, idx3, linear_mapping,
}
use strawberry_os.Paging.Walk.{table1, IsLink, IsMapped}
use strawberry_os.Paging.Large.{linear_mapping_1g}

-- The handler returns; or it prints the fault and halts; or it calls `MemoryNotEnough`; or it does not
-- come back from `AllocatePhysicalMemory`, with what that ended in, or from `linear_mapping`, which
-- found no page for a table.
pub data Fault : Type 0 where
  resumed : Machine → Fault
  halted : Fault
  not_enough : Fault
  unserved : Allocation → Fault
  no_table : Fault

-- The return code of `linear_mapping` is not read.
abbrev pub resume : Option (ℕ × Machine) → Fault
resume none = no_table
resume (some (code, m)) = resumed m

-- A page of 4K for the address; `checked` is whether the handler tests the count of pages.
pub back_page : ℕ → (Tree → ℕ) → Machine → ℕ → ℕ → Bool → Fault
back_page fuel new_node m cr2 options checked =
    elim (allocate_physical_memory fuel new_node m.free 0 0 1) [
      | returned code page count t ↦
          if checked && count == 0
          then not_enough
          else resume (linear_mapping fuel new_node (record m { free = t }) page cr2 0 options)
      | other ↦ unserved other
    ]

-- `INT0E`, with the map `VTL_CMT` of committed ranges.
pub page_fault : ℕ → (Tree → ℕ) → Tree → Machine → ℕ → ℕ → Fault
page_fault fuel new_node committed m cr2 error =
    let fixed = resume (linear_mapping fuel new_node m (cr2 % 2 ^ 47) cr2 2 7) in
    let dynamic : Fault = elim (search_memory_node committed cr2 0) [
      | none ↦ halted
      | some cr ↦ back_page fuel new_node m cr2 (u64 (cr.v * 2) + 1) true
    ] in
    let stack = if idx3 cr2 == 0 then halted else back_page fuel new_node m cr2 7 false in
    if error % 2 == 1
    then halted
    else if ltb cr2 0xFFFF800000000000
    then halted
    else if ltb cr2 0xFFFF900000000000
    then fixed
    else if ltb cr2 0xFFFFE00000000000
    then dynamic
    else if ltb cr2 0xFFFFF00000000000
    then stack
    else halted

-- A fault on an address of the area that maps physical memory statically, which is not present there,
-- where its first table is: the handler returns, has stored one entry, and the address resolves to
-- the physical address that its lower bits are.
pub physical_mapping-page_fault :
    (fuel : ℕ) (new_node : Tree → ℕ) (committed : Tree) (m : Machine) (cr2 error : ℕ)
    → error % 2 ≡ 0
    → 0xFFFF800000000000 ≤ cr2
    → cr2 < 0xFFFF900000000000
    → IsLink (entry m (system_linear m.cr3) (idx0 cr2))
    → slot (system_linear m.cr3) (idx0 cr2) ≢ slot (table1 m cr2) (idx1 cr2)
    → present (entry m (table1 m cr2) (idx1 cr2)) ≡ false
    → (m' : Machine) × (page_fault fuel new_node committed m cr2 error ≡ resumed m')
      × IsMapped m cr2 (slot (table1 m cr2) (idx1 cr2)) (cr2 - 0xFFFF800000000000) m'
unfolding page_fault
physical_mapping-page_fault fuel new_node committed m cr2 error fault lo hi link ne free =
    let a : (error % 2 == 1) ≡ false = ground arith in
    let b : ltb cr2 0xFFFF800000000000 ≡ false = ground arith in
    let c : ltb cr2 0xFFFF900000000000 ≡ true = ground arith in
    let place : cr2 % 2 ^ 47 / 2 ^ 30 * 2 ^ 30 + cr2 % 2 ^ 30 ≡ cr2 - 0xFFFF800000000000 =
      omega arith in
    let (m', e, mapped) =
      linear_mapping_1g fuel new_node m (cr2 % 2 ^ 47) cr2 7 link ne free (omega arith) refl in
    (m', rw (a, b, c, e) refl, rw place at mapped)

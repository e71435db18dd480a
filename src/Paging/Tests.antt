-- ===== src/Paging/Tests.antt =====
-- The page tables at concrete inputs.
use strawberry_os.Prelude.{ℕ, ◌+◌, ◌*◌, ◌/◌, ◌%◌, ◌≡◌, ◌==◌, if◌then◌else◌, refl, some, arith}
use strawberry_os.Block.{leaf}
use strawberry_os.Paging.{
  Machine, system_linear, slot, idx1, idx3, linear_mapping, linear_unmapping, physical_mapping,
}
use strawberry_os.Paging.Walk.{table1, table3, IsWalk, IsMapped, physical_mapping-linear_mapping}
use strawberry_os.Paging.Fault.{resumed, page_fault, physical_mapping-page_fault}
use strawberry_os.Paging.Unmap.{linear_unmapping_4k}

-- Index 1 of the table at 0x1000 leads to 0x2000, there 2 leads to 0x3000 and 5 to a page of 1G,
-- and 3 leads from 0x3000 to 0x4000, where 6 is a page of 4K.
abbrev tables : ℕ → ℕ
tables p =
    if p == slot (system_linear 0x1000) 1
    then 0x2003
    else if p == slot (system_linear 0x2000) 2
    then 0x3003
    else if p == slot (system_linear 0x2000) 5
    then 0x40000083
    else if p == slot (system_linear 0x3000) 3
    then 0x4003
    else if p == slot (system_linear 0x4000) 6
    then 0x9003
    else 0

abbrev machine : Machine
machine = record { words = tables; cr3 = 0x1000; free = leaf }

abbrev new_page : ℕ
new_page = 0x8080604567

abbrev old_page : ℕ
old_page = 0x8080606567

abbrev large_page : ℕ
large_page = 0x8140000567

old_page_resolves : physical_mapping machine old_page ≡ 0x9567
unfolding physical_mapping
old_page_resolves = refl

large_page_resolves : physical_mapping machine large_page ≡ 0x40000567
unfolding physical_mapping
large_page_resolves = refl

walk : IsWalk machine new_page
walk = record { link0 = (refl, refl); link1 = (refl, refl); link2 = (refl, refl) }

physical_mapping-linear_mapping_example :
    (m' : Machine) × (linear_mapping 1 (λ t. 0) machine 0x7000 new_page 0 7 ≡ some (0, m'))
    × IsMapped machine new_page
        (slot (table3 machine new_page) (idx3 new_page))
        (0x7000 / 4096 * 4096 + new_page % 4096)
        m'
physical_mapping-linear_mapping_example =
    physical_mapping-linear_mapping 1 (λ t. 0) machine 0x7000 new_page 7 walk
      (record { apart0 = omega arith; apart1 = omega arith; apart2 = omega arith }) refl
      (omega arith) refl

linear_unmapping_4k_example :
    (code : ℕ) × (m' : Machine) × (linear_unmapping machine old_page ≡ (code, m'))
    × IsMapped machine old_page
        (slot (system_linear 0) (idx3 old_page))
        (physical_mapping machine old_page)
        m'
linear_unmapping_4k_example =
    linear_unmapping_4k machine old_page
      (record { link0 = (refl, refl); link1 = (refl, refl); link2 = (refl, refl) })
      (record { apart0 = omega arith; apart1 = omega arith; apart2 = omega arith }) (omega arith)

-- A machine whose first table of the static area is at 0x2000, and empty.
abbrev static_machine : Machine
static_machine = record {
  words = λ p. if p == slot (system_linear 0x1000) 256 then 0x2003 else 0;
  cr3 = 0x1000;
  free = leaf;
}

physical_mapping-page_fault_example :
    (m' : Machine) × (page_fault 1 (λ t. 0) leaf static_machine 0xFFFF800040000123 2 ≡ resumed m')
    × IsMapped static_machine 0xFFFF800040000123
        (slot (table1 static_machine 0xFFFF800040000123) (idx1 0xFFFF800040000123))
        0x40000123
        m'
physical_mapping-page_fault_example =
    physical_mapping-page_fault 1 (λ t. 0) leaf static_machine 0xFFFF800040000123 2 refl
      (omega arith) (omega arith) (refl, refl) (omega arith) refl

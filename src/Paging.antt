-- ===== src/Paging.antt =====
-- KERNEL/SOURCE/memory/page.c: the page tables of a 4-level paging.
--
-- A table is read and written through its linear address in the area that maps the physical memory
-- statically. The machine has the words at the linear addresses of that area, the register CR3 and
-- the map of free physical memory. The arguments `fuel` and `new_node` are those of the allocator.
pub mod Walk
pub mod Unmap
pub mod Large
pub mod Fault
mod Tests
use strawberry_os.Prelude.{
  ℕ, ◌+◌, ◌*◌, ◌/◌, ◌%◌, ◌^◌, ◌-◌, ◌&&◌, Option, none, some, ltb, leb, ◌==◌, if◌then◌else◌, add64,
  ◌>>=◌, true, false, Bool,
}
use strawberry_os.Block.{Tree}
use strawberry_os.Physical.{Allocation, returned, allocate_physical_memory}

pub record Machine : Type 0 where
  pub words : ℕ → ℕ
  pub cr3 : ℕ
  pub free : Tree

-- `x | SYSTEM_LINEAR`, which sets the upper 17 bits.
abbrev pub system_linear : ℕ → ℕ
system_linear x = x % 2 ^ 47 + 0xFFFF800000000000

-- `x & ~0xFFF`
abbrev pub table_of : ℕ → ℕ
table_of x = x / 4096 * 4096

-- `x & 1` and `x & 0x80`, as tests.
abbrev pub present : ℕ → Bool
present x = x % 2 == 1

abbrev pub is_page : ℕ → Bool
is_page x = x / 128 % 2 == 1

-- `&PT[idx]`
abbrev pub slot : ℕ → ℕ → ℕ
slot pt idx = add64 pt (8 * idx)

abbrev pub entry : Machine → ℕ → ℕ → ℕ
entry m pt idx = m.words (slot pt idx)

-- `PT[idx] = x`
abbrev pub store_entry : Machine → ℕ → ℕ → ℕ → Machine
store_entry m pt idx x = record m { words = λ p. if p == slot pt idx then x else m.words p }

-- `memset(p, 0, 4096)`, on words.
abbrev pub clear_page : Machine → ℕ → Machine
clear_page m p = record m { words = λ q. if leb p q && ltb q (p + 4096) then 0 else m.words q }

-- `empty_page`: a page of 4K, or no return.
unfoldable pub empty_page : ℕ → (Tree → ℕ) → Machine → Option (ℕ × Machine)
empty_page fuel new_node m = elim (allocate_physical_memory fuel new_node m.free 0 0 1) [
  | returned code page pcnt t ↦ if pcnt == 0 then none else some (page, record m { free = t })
  | _ ↦ none
]

-- `PT[idx] & 0x80 ? 0 : (PT[idx] & ~0xFFF) | SYSTEM_LINEAR`
abbrev pub next_table : ℕ → ℕ
next_table x = if is_page x then 0 else system_linear (table_of x)

-- `page_entry`: the table that an entry points to, made first if it is not present.
unfoldable pub page_entry : ℕ → (Tree → ℕ) → Machine → ℕ → ℕ → Option (ℕ × Machine)
page_entry fuel new_node m pt idx =
    if pt == 0
    then some (0, m)
    else if leb 512 idx
    then some (0, m)
    else if present (entry m pt idx)
    then some (next_table (entry m pt idx), m)
    else do
      (l, m') ← empty_page fuel new_node m
      let linked = store_entry (clear_page m' (system_linear l)) pt idx (l / 4 * 4 + 3)
      some (next_table (entry linked pt idx), linked)

-- The four indices of a linear address.
abbrev pub idx0 : ℕ → ℕ
idx0 linear = linear / 2 ^ 39 % 512

abbrev pub idx1 : ℕ → ℕ
idx1 linear = linear / 2 ^ 30 % 512

abbrev pub idx2 : ℕ → ℕ
idx2 linear = linear / 2 ^ 21 % 512

abbrev pub idx3 : ℕ → ℕ
idx3 linear = linear / 2 ^ 12 % 512

-- `options ^= 4; ((options & 4) << 61) | (options & 3)`: bit 2 clear sets bit 63, No Execute.
abbrev pub no_execute : ℕ → ℕ
no_execute options = if options / 4 % 2 == 1 then 0 else 2 ^ 63

-- The entry for a page at an address whose lower bits are clear, `flag` being 0x80 or 0, with the
-- options: `|=` sets bits 0, 1 and 63.
abbrev pub page_word : ℕ → ℕ → ℕ → ℕ
page_word base flag options =
    base % 2 ^ 63 + (if leb (2 ^ 63) base then 2 ^ 63 else no_execute options) + flag + options % 4

-- `L && size == wanted && !(L[idx] & 1)`
abbrev pub can_map : Machine → ℕ → ℕ → ℕ → ℕ → Bool
can_map m pt idx size wanted =
    if pt == 0
    then false
    else if size == wanted
    then (if present (entry m pt idx) then false else true)
    else false

-- The three levels of `linear_mapping` at which a page can be mapped, the last first.
abbrev pub map_4k : Machine → ℕ → ℕ → ℕ → ℕ → ℕ → ℕ × Machine
map_4k m l3 addr linear size options =
    if can_map m l3 (idx3 linear) size 0
    then (0, store_entry m l3 (idx3 linear) (page_word (addr / 2 ^ 12 * 2 ^ 12) 0 options))
    else (1, m)

unfoldable pub map_2m : ℕ → (Tree → ℕ) → Machine → ℕ → ℕ → ℕ → ℕ → ℕ → Option (ℕ × Machine)
map_2m fuel new_node m l2 addr linear size options =
    if can_map m l2 (idx2 linear) size 1
    then some (0, store_entry m l2 (idx2 linear) (page_word (addr / 2 ^ 21 * 2 ^ 21) 128 options))
    else do
      (l3, m3) ← page_entry fuel new_node m l2 (idx2 linear)
      some (map_4k m3 l3 addr linear size options)

unfoldable pub map_1g : ℕ → (Tree → ℕ) → Machine → ℕ → ℕ → ℕ → ℕ → ℕ → Option (ℕ × Machine)
map_1g fuel new_node m l1 addr linear size options =
    if can_map m l1 (idx1 linear) size 2
    then some (0, store_entry m l1 (idx1 linear) (page_word (addr / 2 ^ 30 * 2 ^ 30) 128 options))
    else do
      (l2, m2) ← page_entry fuel new_node m l1 (idx1 linear)
      map_2m fuel new_node m2 l2 addr linear size options

-- `linear_mapping`
unfoldable pub linear_mapping : ℕ → (Tree → ℕ) → Machine → ℕ → ℕ → ℕ → ℕ → Option (ℕ × Machine)
linear_mapping fuel new_node m addr linear size options = do
  (l1, m1) ← page_entry fuel new_node m (system_linear m.cr3) (idx0 linear)
  map_1g fuel new_node m1 l1 addr linear size options

-- `x ^ 1`
abbrev pub flip_present : ℕ → ℕ
flip_present x = if present x then x - 1 else x + 1

-- `linear_unmapping`: the table of the last level is taken from `L2[idx2] & !0xFFFULL`, and the
-- logical `!` of a number that is not 0 is 0.
unfoldable pub linear_unmapping : Machine → ℕ → ℕ × Machine
linear_unmapping m linear =
    let l0 = system_linear m.cr3 in
    let e0 = entry m l0 (idx0 linear) in
    let l1 = system_linear (table_of e0) in
    let e1 = entry m l1 (idx1 linear) in
    let l2 = system_linear (table_of e1) in
    let e2 = entry m l2 (idx2 linear) in
    let l3 = system_linear 0 in
    let e3 = entry m l3 (idx3 linear) in
    if present e0
    then if present e1
      then if is_page e1
        then (2, store_entry m l1 (idx1 linear) (flip_present e1))
        else if present e2
        then if is_page e2
          then (1, store_entry m l2 (idx2 linear) (flip_present e2))
          else if present e3
          then (0, store_entry m l3 (idx3 linear) (flip_present e3))
          else (0xFF, m)
        else (0xFF, m)
      else (0xFF, m)
    else (0xFF, m)

-- `x & addressMask`
abbrev pub masked : ℕ → ℕ
masked x = x % 2 ^ 59 / 2 ^ 12 * 2 ^ 12

-- `~(0ULL)`
abbrev pub unmapped : ℕ
unmapped = 2 ^ 64 - 1

-- `physical_mapping`
unfoldable pub physical_mapping : Machine → ℕ → ℕ
physical_mapping m linear =
    let e0 = entry m (system_linear m.cr3) (idx0 linear) in
    let e1 = entry m (system_linear (table_of e0)) (idx1 linear) in
    let e2 = entry m (system_linear (table_of e1)) (idx2 linear) in
    let e3 = entry m (system_linear (table_of e2)) (idx3 linear) in
    if present e0
    then if present e1
      then if is_page e1
        then add64 (masked e1) (linear % 2 ^ 30)
        else if present e2
        then if is_page e2
          then add64 (masked e2) (linear % 2 ^ 21)
          else if present e3
          then add64 (masked e3) (linear % 2 ^ 12)
          else unmapped
        else unmapped
      else unmapped
    else unmapped

-- ===== src/Bios/Tables.antt =====
-- The page tables of the loader: `setup_paging`, `physical_mapping`, and the table of the kernel.
--
-- The memory is its words at physical addresses, which the code reaches at these addresses, and later
-- behind `SYSTEM_LNR`. Addresses of pages end with zeros, so that an attribute is added to them.
pub mod Pages
pub mod Entries
pub mod Direct
mod Tests
use strawberry_os.Prelude.{
  ℕ, zero, suc, ◌+◌, ◌-◌, ◌*◌, ◌/◌, ◌%◌, ◌^◌, true, false, ◌&&◌, Option, none, some, List, leb, ltb,
  ◌==◌, if◌then◌else◌, add64, ◌>>=◌,
}
use strawberry_os.Paging.{system_linear}
use strawberry_os.Bios.Memory.{Area, allocate_physical}

-- The words of the memory, and the map of it.
pub record BootMemory : Type 0 where
  pub words : ℕ → ℕ
  pub areas : List Area

-- `L[i] = x`
unfoldable pub store_at : BootMemory → ℕ → ℕ → ℕ → BootMemory
store_at m l i x = record m { words = λ p. if p == l + 8 * i then x else m.words p }

-- A cleared page of 4K for a table.
unfoldable pub new_table : BootMemory → Option (ℕ × BootMemory)
new_table m = allocate_physical m.areas 0 1 >>= λ p. some (
  p.address,
  record {
    words = λ q. if leb p.address q && ltb q (p.address + 2 ^ 12) then 0 else m.words q;
    areas = p.areas;
  },
)

-- Some pages of 2M in entries of the table from `idx2` on.
unfoldable pub fill_pages : ℕ → BootMemory → ℕ → ℕ → ℕ → BootMemory
fill_pages zero m l3 idx2 address = m
fill_pages (suc i) m l3 idx2 address =
    fill_pages i (store_at m l3 idx2 (address + 0x183)) l3 (idx2 + 1) (add64 address (2 ^ 21))

-- The loop that fills the entries from `idx2` up to `stop`, on fuel.
unfoldable pub fill_table : ℕ → BootMemory → ℕ → ℕ → ℕ → Option BootMemory
fill_table zero m l3 idx2 stop = none
fill_table (suc fuel) m l3 idx2 stop =
    let next = allocate_physical m.areas 1 (stop - idx2) >>= λ p.
    fill_table fuel (fill_pages p.count (record m { areas = p.areas }) l3 idx2 p.address) l3
      (idx2 + p.count) stop in
    if ltb idx2 stop then next else some m

-- The four pages of 1G at the addresses of the memory.
unfoldable pub low_pages : BootMemory → ℕ → BootMemory
low_pages m l2 =
    store_at
      (store_at (store_at (store_at m l2 0 0x183) l2 1 (2 ^ 30 + 0x183)) l2 2 (2 * 2 ^ 30 + 0x183))
      l2 3 (3 * 2 ^ 30 + 0x183)

-- `setup_paging`: the value of `CR3`, and the memory; `none` is that the processor stops.
unfoldable pub setup_paging : BootMemory → Option (ℕ × BootMemory)
setup_paging m = do
  (l1, m1) ← new_table m
  (low, m2) ← new_table m1
  (l2, m3) ← new_table (low_pages (store_at (store_at m2 l1 0x100 (low + 3)) l1 0 (low + 3)) low)
  (l3, m4) ← new_table (store_at m3 l1 0x1FF (l2 + 3))
  m5 ← fill_table 9 (store_at m4 l2 0x1FF (l3 + 3)) l3 0x1F8 0x200
  m6 ← fill_table 9 m5 l3 0 8
  some (l1, m6)

-- `L[idx] | 1`
abbrev pub set_present : ℕ → ℕ
set_present x = if x % 2 == 1 then x else x + 1

abbrev pub masked : ℕ → ℕ
masked x = x / 2 ^ 12 * 2 ^ 12

-- `physical_mapping`, in which a word is read at a linear address behind `SYSTEM_LNR`. The first three
-- levels are not tested with `&` but with `|`.
unfoldable pub physical_mapping : (ℕ → ℕ) → ℕ → ℕ → ℕ
physical_mapping m cr3 linear =
    let e0 = m (system_linear cr3 + 8 * (linear / 2 ^ 39 % 2 ^ 9)) in
    let e1 = m (system_linear (masked e0) + 8 * (linear / 2 ^ 30 % 2 ^ 9)) in
    let e2 = m (system_linear (masked e1) + 8 * (linear / 2 ^ 21 % 2 ^ 9)) in
    let e3 = m (system_linear (masked e2) + 8 * (linear / 2 ^ 12 % 2 ^ 9)) in
    if set_present e0 == 0
    then 2 ^ 64 - 1
    else if set_present e1 == 0
    then 2 ^ 64 - 1
    else if e1 / 2 ^ 7 % 2 == 1
    then add64 (masked e1) (linear % 2 ^ 30)
    else if set_present e2 == 0
    then 2 ^ 64 - 1
    else if e2 / 2 ^ 7 % 2 == 1
    then add64 (masked e2) (linear % 2 ^ 21)
    else if e3 % 2 == 1
    then add64 (masked e3) (linear % 2 ^ 12)
    else 2 ^ 64 - 1

-- The search of `setup_acpi` for the signature with `n` places left from `start` on: the last place
-- that has it, or what was known.
unfoldable pub find_rsdp : ℕ → (ℕ → ℕ) → ℕ → ℕ → ℕ
find_rsdp zero m start rsdp = rsdp
find_rsdp (suc n) m start rsdp =
    find_rsdp n m (start + 16) (if m start == 0x2052545020445352 then start else rsdp)

-- `setup_acpi`: `SYSTEM_TABLE.RSDP`, from that of the boot table.
unfoldable pub setup_acpi : (ℕ → ℕ) → ℕ → ℕ
setup_acpi m rsdp =
    let found = find_rsdp 0x2000 m (system_linear 0xE0000) 0 in
    system_linear (if rsdp == 0 then found else rsdp)

-- The entry point that `main` jumps to, behind the headers of the kernel at `base`.
unfoldable pub entry_point : (ℕ → ℕ) → ℕ → ℕ
entry_point dword base =
    let nt_header = base + dword (base + 0x3C) in add64 base (dword (add64 nt_header 0x28))

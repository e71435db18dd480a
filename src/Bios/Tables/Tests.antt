-- ===== src/Bios/Tables/Tests.antt =====
-- The tables of a machine with 64 MB above the first.
use strawberry_os.Prelude.{
  ℕ, ◌+◌, ◌*◌, ◌≡◌, ◌==◌, Option, refl, [], ◌∷◌, some, ◌>>=◌, if◌then◌else◌,
}
use strawberry_os.Bios.Memory.{allocate_physical, find_pages, is_skipped, take_from, with_gap}
use strawberry_os.Bios.Tables.{
  BootMemory, store_at, new_table, fill_pages, fill_table, low_pages, setup_paging,
  physical_mapping, find_rsdp,
}

abbrev memory : BootMemory
memory = record { words = λ p. 7; areas = record { a0 = 0x100000; s0 = 0x4008000; f0 = 1 } ∷ [] }

abbrev read_boot : ℕ → ℕ → Option ℕ
read_boot table index = setup_paging memory >>= λ r. some ((r.1).words (table + 8 * index))

first_table : (setup_paging memory >>= λ r. some (r.0)) ≡ some 0x100000
unfolding setup_paging new_table fill_table fill_pages low_pages store_at allocate_physical
    find_pages is_skipped take_from with_gap
first_table = refl

kernel_entry : read_boot 0x103000 0x1F8 ≡ some 0x200183
unfolding setup_paging new_table fill_table fill_pages low_pages store_at allocate_physical
    find_pages is_skipped take_from with_gap
kernel_entry = refl

-- An entry that is 0 is taken for a table at address 0.
absent_table :
    physical_mapping (λ p. if p == 0xFFFF800000000000 + 8 * 3 then 0x5001 else 0) 0x1000 0x3000
    ≡ 0x5000
unfolding physical_mapping
absent_table = refl

signature_found : find_rsdp 4 (λ a. if a == 32 then 0x2052545020445352 else 0) 0 0 ≡ 32
unfolding find_rsdp
signature_found = refl

-- ===== src/Acpi/Fadt/Tests.antt =====
-- A DSDT with the name `_S5_` and its package.
use strawberry_os.Prelude.{ℕ, zero, suc, ◌≡◌, refl, List, [], ◌∷◌, some}
use strawberry_os.Acpi.Fadt.{
  FadtState, find_s5, skip_prefix, sleep_types, acpi_power_off, power_off_writes, sleep_word,
}

abbrev bytes_from : List ℕ → ℕ → ℕ
bytes_from [] a = 0
bytes_from (b ∷ bs) zero = b
bytes_from (b ∷ bs) (suc a) = bytes_from bs a

-- A byte, `NameOp`, the name, `PackageOp`, its length, its count, and the elements 5 and 0.
abbrev dsdt_data : ℕ → ℕ
dsdt_data = bytes_from (1 ∷ 8 ∷ 0x5F ∷ 0x53 ∷ 0x35 ∷ 0x5F ∷ 0x12 ∷ 6 ∷ 4 ∷ 0x0A ∷ 5 ∷ 0 ∷ [])

found_s5 : find_s5 dsdt_data 0 12 ≡ (2, 10)
unfolding find_s5
found_s5 = refl

types_of_s5 : sleep_types dsdt_data 2 ≡ (0x1400, 0)
unfolding sleep_types skip_prefix
types_of_s5 = refl

abbrev known : FadtState
known = record {
  fixed_acpi_table = some (record { dsdt = 1; smic = 0xB2; ae = 1; pmac = 0x404; pmbc = 0 });
  fadt_status = 1;
  pm1_slp_typ5_a = 0x1400;
  pm1_slp_typ5_b = 0;
}

powers_off : acpi_power_off known ≡ some (record { port = 0x404; value = 0x3400 } ∷ [])
unfolding acpi_power_off power_off_writes sleep_word
powers_off = refl

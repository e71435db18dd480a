-- ===== src/Acpi/Tests.antt =====
-- A MADT with two processors.
use strawberry_os.Prelude.{ℕ, ◌≡◌, refl, arith, ◌==◌, if◌then◌else◌, some, [], ◌∷◌}
use strawberry_os.Acpi.{walk_madt}
use strawberry_os.Acpi.Madt.{MadtEntry, IsTable, walk_madt-processors, processors, starts}

-- Two entries of 8 bytes, for the enabled processors 0 and 1.
abbrev two_processors : ℕ → ℕ
two_processors a =
    if a == 1
    then 8
    else (if a == 4
        then 1
        else (if a == 9 then 8 else (if a == 11 then 1 else (if a == 12 then 1 else 0))))

abbrev entry : ℕ → MadtEntry
entry id = record { kind = 0; size = 8; apic_id = id; flags = 1 }

two_processors-IsTable : IsTable two_processors 0 16 (entry 0 ∷ entry 1 ∷ [])
unfolding IsTable
two_processors-IsTable = (
  record {
    has_kind = refl;
    has_size = refl;
    has_id = refl;
    has_flags = refl;
    some_size = omega arith;
    inside = omega arith;
  },
  (
    record {
      has_kind = refl;
      has_size = refl;
      has_id = refl;
      has_flags = refl;
      some_size = omega arith;
      inside = omega arith;
    },
    refl,
  ),
)

walk_madt-processors_example :
    walk_madt 20 two_processors 0 0 16 ≡ some (processors 0 (entry 0 ∷ entry 1 ∷ []))
walk_madt-processors_example =
    walk_madt-processors 20 two_processors 0 0 16 (entry 0 ∷ entry 1 ∷ []) (omega arith)
      (omega arith) two_processors-IsTable

only_other : processors 0 (entry 0 ∷ entry 1 ∷ []) ≡ 1 ∷ []
unfolding processors starts
only_other = refl

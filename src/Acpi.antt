-- ===== src/Acpi.antt =====
-- KERNEL/SOURCE/acpi/acpi.c and madt.c: the tables of the firmware and the processors that it lists.
--
-- The memory is a function from an address to a byte.
pub mod Madt
pub mod Fadt
mod Tests
use strawberry_os.Prelude.{
  ℕ, zero, suc, ◌+◌, ◌-◌, ◌*◌, ◌/◌, ◌%◌, ◌^◌, Bool, true, false, Option, none, some, List, [], ◌∷◌,
  ◌==◌, ◌&&◌, if◌then◌else◌, ◌>>=◌, sub64,
}
use strawberry_os.Paging.{system_linear}

-- `ACPI_SIGNATURE_MADT`
abbrev pub acpi_signature_madt : ℕ
acpi_signature_madt = 0x43495041

-- A `WORD`, a `DWORD` and a `QWORD` at an address.
abbrev pub word_at : (ℕ → ℕ) → ℕ → ℕ
word_at m a = m a + m (a + 1) * 2 ^ 8

abbrev pub dword_at : (ℕ → ℕ) → ℕ → ℕ
dword_at m a = m a + m (a + 1) * 2 ^ 8 + m (a + 2) * 2 ^ 16 + m (a + 3) * 2 ^ 24

abbrev pub qword_at : (ℕ → ℕ) → ℕ → ℕ
qword_at m a = dword_at m a + dword_at m (a + 4) * 2 ^ 32

-- The table that `SetupACPI` chooses by the revision; `none` is its result 1.
unfoldable pub choose_xsdt : (ℕ → ℕ) → ℕ → Option ℕ
choose_xsdt m rsdp =
    let revision = m (rsdp + 15) in
    if revision == 0
    then some (system_linear (dword_at m (rsdp + 16)))
    else (if revision == 2 then some (system_linear (qword_at m (rsdp + 24))) else none)

-- The search of a table by its signature, where 0 is no table; `none` is out of fuel.
unfoldable pub find_table : ℕ → (ℕ → ℕ) → ℕ → ℕ → ℕ → Option ℕ
find_table zero m signature sdt size = none
find_table (suc fuel) m signature sdt size =
    let header = system_linear (qword_at m sdt) in
    let rest = find_table fuel m signature (sdt + 8) (sub64 size 8) in
    if size == 0 then some 0 else (if dword_at m header == signature then some header else rest)

-- Whether the entry at an address starts its processor, which is not the one that runs.
unfoldable pub starts_here : (ℕ → ℕ) → ℕ → ℕ → Bool
starts_here m bsp entry =
    m entry == 0
    && (dword_at m (entry + 4) % 2 == 1 && (if m (entry + 3) == bsp then false else true))

-- "Foreach MADT data": the processors that `StartupAP` is called for, in order.
unfoldable pub walk_madt : ℕ → (ℕ → ℕ) → ℕ → ℕ → ℕ → Option (List ℕ)
walk_madt zero m bsp entry length = none
walk_madt (suc fuel) m bsp entry length =
    let rest = walk_madt fuel m bsp (entry + m (entry + 1)) (sub64 length (m (entry + 1))) in
    if length == 0
    then some []
    else (rest >>= λ ids. some (if starts_here m bsp entry then m (entry + 3) ∷ ids else ids))

-- `SetupMADT`
unfoldable pub setup_madt : ℕ → (ℕ → ℕ) → ℕ → ℕ → Option (List ℕ)
setup_madt fuel m bsp xsdt =
    find_table fuel m acpi_signature_madt (xsdt + 36) (sub64 (dword_at m (xsdt + 4)) 36) >>= λ madt.
    if madt == 0
    then some []
    else walk_madt fuel m bsp (madt + 44) (sub64 (dword_at m (madt + 4)) 44)

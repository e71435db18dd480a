-- ===== src/Acpi/Fadt.antt =====
-- KERNEL/SOURCE/acpi/fadt.c: the fixed ACPI table, the state S5 of the DSDT, and `ACPIPowerOff`.
--
-- A port is read by an argument, and so is the time that the code waits for a port: `none` is a port
-- whose bit is never set, for which the code waits for ever.
mod Tests
use strawberry_os.Prelude.{
  ℕ, zero, suc, ◌+◌, ◌-◌, ◌*◌, ◌/◌, ◌%◌, ◌^◌, Bool, true, false, ◌&&◌, ◌||◌, Option, none, some,
  List, [], ◌∷◌, ◌++◌, ltb, ◌==◌, if◌then◌else◌, ◌>>=◌, u8, u16, u32, sub64,
}
use strawberry_os.Paging.{system_linear}
use strawberry_os.Acpi.{dword_at, find_table}
use strawberry_os.Timer.{PortWrite}

-- `ACPI_SIGNATURE_FADT`, `ACPI_SIGNATURE_DADT` and `DSDT_SIGNATURE_S5`
abbrev pub acpi_signature_fadt : ℕ
acpi_signature_fadt = 0x50434146

abbrev pub acpi_signature_dadt : ℕ
acpi_signature_dadt = 0x54445344

abbrev pub dsdt_signature_s5 : ℕ
dsdt_signature_s5 = 0x5F35535F

-- What the code reads of `ACPI_FADT`.
pub record AcpiFadt : Type 0 where
  pub dsdt : ℕ
  pub smic : ℕ
  pub ae : ℕ
  pub pmac : ℕ
  pub pmbc : ℕ

abbrev pub fadt_of : (ℕ → ℕ) → ℕ → AcpiFadt
fadt_of m fadt = record {
  dsdt = dword_at m (fadt + 40);
  smic = dword_at m (fadt + 48);
  ae = m (fadt + 52);
  pmac = dword_at m (fadt + 64);
  pmbc = dword_at m (fadt + 68);
}

-- The loop for the name `_S5_`: where it stands, and the bytes that are left.
unfoldable pub find_s5 : (ℕ → ℕ) → ℕ → ℕ → ℕ × ℕ
find_s5 m s5_addr zero = (s5_addr, 0)
find_s5 m s5_addr (suc s5_len) =
    let rest = find_s5 m (s5_addr + 1) s5_len in
    if dword_at m s5_addr == dsdt_signature_s5 then (s5_addr, suc s5_len) else rest

-- Whether a `NameOp` stands before the name.
unfoldable pub is_named : (ℕ → ℕ) → ℕ → Bool
is_named m s5_addr = m (s5_addr - 1) == 8 || (m (s5_addr - 2) == 8 && m (s5_addr - 1) == 0x5C)

-- The begin of an element of the package, behind its prefix.
unfoldable pub skip_prefix : (ℕ → ℕ) → ℕ → ℕ
skip_prefix m s5_addr = if m s5_addr == 0x0A then s5_addr + 1 else s5_addr

-- `PM1_SLP_TYP5_A` and `PM1_SLP_TYP5_B` of the package.
unfoldable pub sleep_types : (ℕ → ℕ) → ℕ → ℕ × ℕ
sleep_types m s5_addr =
    let elements = s5_addr + 5 + (m (s5_addr + 5) / 2 ^ 6 % 4 + 2) in
    let first = skip_prefix m elements in
    let second = skip_prefix m (first + 1) in (u16 (m first * 2 ^ 10), u16 (m second * 2 ^ 10))

-- What the file keeps: `FIXED_ACPI_TABLE`, `FADT_STATUS` and the two types.
pub record FadtState : Type 0 where
  pub fixed_acpi_table : Option AcpiFadt
  pub fadt_status : ℕ
  pub pm1_slp_typ5_a : ℕ
  pub pm1_slp_typ5_b : ℕ

-- "Find S5 state"
unfoldable pub find_s5_state : (ℕ → ℕ) → AcpiFadt → FadtState → FadtState
find_s5_state m fadt s =
    let dsdt = system_linear fadt.dsdt in
    let (s5_addr, s5_len) = find_s5 m (dsdt + 36) (u32 (dword_at m (dsdt + 4) + 2 ^ 32 - 36)) in
    let (a, b) = sleep_types m s5_addr in
    if fadt.dsdt == 0 || (if dword_at m dsdt == acpi_signature_dadt then false else true)
    then s
    else (if s5_len == 0 || (if is_named m s5_addr then false else true) then s else record s {
      fadt_status = s.fadt_status / 2 * 2 + 1;
      pm1_slp_typ5_a = a;
      pm1_slp_typ5_b = b;
    })

-- "Enable SCI": the write of the command, and whether the code goes on; `waited` is the time for a port.
unfoldable pub enable_sci : (ℕ → ℕ) → (ℕ → Option ℕ) → AcpiFadt → Option (List PortWrite × Bool)
enable_sci inw waited fadt =
    let command : List PortWrite = record { port = fadt.smic; value = fadt.ae } ∷ [] in
    if inw fadt.pmac % 2 == 1
    then some ([], true)
    else (waited fadt.pmac >>= λ time.
        if ltb 1000 time
        then some (command, false)
        else if fadt.pmbc == 0
        then some (command, true)
        else (waited fadt.pmbc >>= λ time'. some (command, if ltb 1000 time' then false else true)))

-- `SetupFADT`: what is written, and the state; `none` is the endless wait, or out of fuel.
unfoldable pub setup_fadt :
    ℕ → (ℕ → ℕ) → (ℕ → ℕ) → (ℕ → Option ℕ) → ℕ → FadtState → Option (List PortWrite × FadtState)
setup_fadt fuel m inw waited xsdt s =
    find_table fuel m acpi_signature_fadt (xsdt + 36) (sub64 (dword_at m (xsdt + 4)) 36) >>= λ at.
    let fadt = fadt_of m at in
    let s' = record s { fixed_acpi_table = some fadt } in
    if at == 0 then some ([], s) else (do
      (writes, goes_on) ← enable_sci inw waited fadt
      some (writes, if goes_on then find_s5_state m fadt s' else s'))

-- `PM1_SLP_EN | x`
unfoldable pub sleep_word : ℕ → ℕ
sleep_word x = if x / 2 ^ 13 % 2 == 1 then x else x + 2 ^ 13

-- The words that `ACPIPowerOff` writes to a table's ports.
unfoldable pub power_off_writes : FadtState → AcpiFadt → List PortWrite
power_off_writes s fadt =
    record { port = fadt.pmac; value = sleep_word s.pm1_slp_typ5_a }
    ∷ (if fadt.pmbc == 0
        then []
        else record { port = fadt.pmbc; value = sleep_word s.pm1_slp_typ5_b } ∷ [])

-- `ACPIPowerOff`; `none` is the use of the table without one.
unfoldable pub acpi_power_off : FadtState → Option (List PortWrite)
acpi_power_off s =
    if s.fadt_status % 2 == 1
    then (s.fixed_acpi_table >>= λ fadt. some (power_off_writes s fadt))
    else some []

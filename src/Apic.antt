-- ===== src/Apic.antt =====
-- KERNEL/SOURCE/interrupt/apic.c: the local APIC, its timer, and the start of a processor.
--
-- The registers and the ports are lists of what is written to them, in order; what is read of them, the
-- end of a wait and the model-specific register are arguments. The processor that is started is not
-- part of the model.
mod Tests
use strawberry_os.Prelude.{
  ℕ, zero, suc, ◌+◌, ◌-◌, ◌*◌, ◌/◌, ◌%◌, ◌^◌, Bool, true, false, ◌&&◌, Option, none, some, List, [],
  ◌∷◌, ◌++◌, ltb, leb, ◌==◌, if◌then◌else◌, u8, u16, u32, add64, mul64, ◌>>=◌,
}
use strawberry_os.Block.{Tree}
use strawberry_os.Physical.{returned, allocate_physical_memory, free_physical_memory}
use strawberry_os.Paging.{Machine, system_linear, store_entry, clear_page, linear_mapping}
use strawberry_os.Timer.{pit_frequency}

-- A write to a register of the APIC, or to a port.
pub data ApicWrite : Type 0 where
  register : ℕ → ℕ → ApicWrite
  port : ℕ → ℕ → ApicWrite

-- `SetAPICAddress`: `APIC_REGISTERS`, from the value of the model-specific register.
unfoldable pub set_apic_address : ℕ → ℕ
set_apic_address apic_base_msr = system_linear (apic_base_msr / 2 ^ 12 * 2 ^ 12)

-- `EOIAPIC`
unfoldable pub eoi_apic : ℕ → List ApicWrite
eoi_apic id = if leb 0x20 id && ltb id 0x30 then register 0x0B 0 ∷ [] else []

-- `check_apic`, from the `EDX` of the processor's features.
unfoldable pub check_apic : ℕ → Bool
check_apic edx = edx / 2 ^ 9 % 2 == 1

-- `ConfigureAPIC`, from the value of the logical destination.
unfoldable pub configure_apic : ℕ → List ApicWrite
configure_apic ldr =
    let low = ldr % 2 ^ 24 in
    register 0x08 0
    ∷ register 0x0E 0xFFFFFFFF
    ∷ register 0x0D (if low % 2 == 1 then low else low + 1)
    ∷ register 0x2F (2 ^ 17)
    ∷ register 0x32 (2 ^ 16)
    ∷ register 0x33 (2 ^ 17)
    ∷ register 0x34 (2 ^ 10)
    ∷ register 0x35 (2 ^ 17)
    ∷ register 0x36 (2 ^ 17)
    ∷ register 0x0F 0x1FF
    ∷ []

-- The loop of `setup_apic_timer` that rounds the frequency, a `DWORD`, and its multiplication by
-- `shift`.
unfoldable pub settle_freq : ℕ → ℕ → ℕ → Option ℕ
settle_freq zero freq shift = none
settle_freq (suc fuel) freq shift =
    let rest = settle_freq fuel (u32 (freq + 1) / 10) (mul64 shift 10) in
    if leb 99 freq then rest else some (u32 (freq * shift))

-- The frequency of the timer, from its counter after a wait of the PIT.
unfoldable pub apic_frequency : ℕ → ℕ → ℕ → Option ℕ
apic_frequency fuel tccr rate = settle_freq fuel (u32 (u32 (2 ^ 32 - tccr + 1) * rate)) 1

-- What `setup_apic_timer` writes before the wait, where `PIT2_GATE` reads `gate` and then `gate'`.
unfoldable pub start_measure : ℕ → ℕ → ℕ → List ApicWrite
start_measure rate gate gate' =
    let frq = pit_frequency / rate in
    let al = gate' / 2 * 2 in
    let open_gate = (if gate / 2 % 2 == 1 then gate - 2 else gate) in
    register 0x32 0x20
    ∷ register 0x3E 0xB
    ∷ port 0x61 (open_gate / 2 * 2 + 1)
    ∷ port 0x43 0xB2
    ∷ port 0x42 (frq % 2 ^ 8)
    ∷ port 0x42 (frq / 2 ^ 8 % 2 ^ 8)
    ∷ port 0x61 al
    ∷ port 0x61 (al + 1)
    ∷ register 0x38 0xFFFFFFFF
    ∷ []

-- `setup_apic_timer`: all that it writes; `none` is out of fuel.
unfoldable pub setup_apic_timer : ℕ → ℕ → ℕ → ℕ → ℕ → Option (List ApicWrite)
setup_apic_timer fuel rate gate gate' tccr = apic_frequency fuel tccr rate >>= λ freq. some (
    start_measure rate gate gate'
    ++ (register 0x32 (2 ^ 16)
        ∷ register 0x38 (freq / rate)
        ∷ register 0x3E 0xB
        ∷ register 0x32 (0x20 + 2 ^ 17)
        ∷ []))

-- `CurrentAPIC`, from `APIC_REGISTERS` and the register of the identity.
unfoldable pub current_apic : ℕ → ℕ → ℕ
current_apic registers id = if registers == 0 then 0 else id / 2 ^ 24

-- `WRICR`
unfoldable pub wricr : ℕ → List ApicWrite
wricr x = register 0x31 (u32 (x / 2 ^ 32)) ∷ register 0x30 (u32 x) ∷ []

-- `InterruptIPI`
unfoldable pub interrupt_ipi : ℕ → ℕ → List ApicWrite
interrupt_ipi apicid intr = let low = 0x4000 + intr in wricr (apicid % 2 ^ 8 * 2 ^ 56 + low)

-- `AP_BOOT_CODE`
abbrev pub ap_boot_code : List ℕ
ap_boot_code =
    0xFA ∷ 0xEA ∷ 0x20 ∷ 0x00 ∷ 0x00 ∷ 0x00 ∷ 0xEB ∷ 0xFE ∷ 0x00 ∷ 0x00 ∷ 0x00 ∷ 0x00 ∷ 0x00 ∷ 0x00
    ∷ 0x00 ∷ 0x00 ∷ 0x00 ∷ 0x00 ∷ 0x00 ∷ 0x00 ∷ 0x00 ∷ 0x9A ∷ 0x20 ∷ 0x00 ∷ 0x00 ∷ 0x00 ∷ 0x00
    ∷ 0x00 ∷ 0x00 ∷ 0x92 ∷ 0x00 ∷ 0x00 ∷ 0x8C ∷ 0xC8 ∷ 0x8E ∷ 0xD8 ∷ 0x8E ∷ 0xC0 ∷ 0x8E ∷ 0xD0
    ∷ 0xBC ∷ 0x00 ∷ 0x10 ∷ 0x66 ∷ 0x33 ∷ 0xC0 ∷ 0x8C ∷ 0xC8 ∷ 0xB1 ∷ 0x04 ∷ 0x66 ∷ 0xD3 ∷ 0xE0
    ∷ 0xBE ∷ 0xA5 ∷ 0x00 ∷ 0x66 ∷ 0x01 ∷ 0x04 ∷ 0xE4 ∷ 0x92 ∷ 0x0C ∷ 0x02 ∷ 0xE6 ∷ 0x92 ∷ 0x66
    ∷ 0x33 ∷ 0xC0 ∷ 0x66 ∷ 0x50 ∷ 0x8C ∷ 0xC8 ∷ 0xB1 ∷ 0x0C ∷ 0xD3 ∷ 0xE8 ∷ 0x50 ∷ 0x8C ∷ 0xC8
    ∷ 0xB1 ∷ 0x04 ∷ 0xD3 ∷ 0xE0 ∷ 0xB9 ∷ 0x08 ∷ 0x00 ∷ 0x03 ∷ 0xC1 ∷ 0x50 ∷ 0xB8 ∷ 0x17 ∷ 0x00
    ∷ 0x50 ∷ 0x8B ∷ 0xF4 ∷ 0x3E ∷ 0x0F ∷ 0x01 ∷ 0x14 ∷ 0x83 ∷ 0xC4 ∷ 0x0A ∷ 0x66 ∷ 0xB8 ∷ 0x00
    ∷ 0x00 ∷ 0x10 ∷ 0x00 ∷ 0x66 ∷ 0x0F ∷ 0x22 ∷ 0x18 ∷ 0x66 ∷ 0x0F ∷ 0x20 ∷ 0x20 ∷ 0x66 ∷ 0x83
    ∷ 0xC8 ∷ 0x20 ∷ 0x66 ∷ 0x0D ∷ 0x80 ∷ 0x00 ∷ 0x00 ∷ 0x00 ∷ 0x66 ∷ 0x0F ∷ 0x22 ∷ 0x20 ∷ 0x66
    ∷ 0xB9 ∷ 0x80 ∷ 0x00 ∷ 0x00 ∷ 0xC0 ∷ 0x0F ∷ 0x32 ∷ 0x66 ∷ 0x0D ∷ 0x00 ∷ 0x01 ∷ 0x00 ∷ 0x00
    ∷ 0x0F ∷ 0x30 ∷ 0x66 ∷ 0x0F ∷ 0x20 ∷ 0x00 ∷ 0x66 ∷ 0xB9 ∷ 0x01 ∷ 0x00 ∷ 0x00 ∷ 0x80 ∷ 0x66
    ∷ 0x0B ∷ 0xC1 ∷ 0x66 ∷ 0x0F ∷ 0x22 ∷ 0x00 ∷ 0x66 ∷ 0xEA ∷ 0xAB ∷ 0x00 ∷ 0x00 ∷ 0x00 ∷ 0x08
    ∷ 0x00 ∷ 0x31 ∷ 0xC9 ∷ 0x66 ∷ 0x8E ∷ 0xE1 ∷ 0x66 ∷ 0x8E ∷ 0xE9 ∷ 0x83 ∷ 0xC1 ∷ 0x10 ∷ 0x66
    ∷ 0x8E ∷ 0xC1 ∷ 0x66 ∷ 0x8E ∷ 0xD1 ∷ 0x66 ∷ 0x8E ∷ 0xD9 ∷ 0x48 ∷ 0xBC ∷ 0x00 ∷ 0x00 ∷ 0x00
    ∷ 0x00 ∷ 0x00 ∷ 0x00 ∷ 0x00 ∷ 0x00 ∷ 0xB9 ∷ 0x00 ∷ 0x00 ∷ 0x00 ∷ 0x00 ∷ 0xFF ∷ 0x25 ∷ 0x00
    ∷ 0x00 ∷ 0x00 ∷ 0x00 ∷ 0x00 ∷ 0x00 ∷ 0x00 ∷ 0x00 ∷ 0x00 ∷ 0x00 ∷ 0x00 ∷ 0x00 ∷ []

-- The bytes of a list from an address on, over those that were there.
unfoldable pub put_bytes : (ℕ → ℕ) → ℕ → List ℕ → ℕ → ℕ
put_bytes m a [] = m
put_bytes m a (b ∷ bs) = let m' = put_bytes m (a + 1) bs in λ k. if k == a then b else m' k

-- The `n` bytes of a number, the lowest first.
unfoldable pub bytes_of : ℕ → ℕ → List ℕ
bytes_of zero x = []
bytes_of (suc n) x = x % 2 ^ 8 ∷ bytes_of n (x / 2 ^ 8)

-- The stack of a processor.
abbrev pub stack_of : ℕ → ℕ
stack_of apicid = add64 0xFFFFE00000000000 (apicid * 2 ^ 21 + 2 ^ 64 - 0x28)

-- The code at `apcode` for a processor, which calls the function at `main`: the bytes of the memory.
unfoldable pub boot_code : (ℕ → ℕ) → ℕ → ℕ → ℕ → ℕ → ℕ
boot_code m apcode apicid main =
    put_bytes
      (put_bytes
        (put_bytes
          (put_bytes (put_bytes m apcode ap_boot_code) (apcode + 4)
            (bytes_of 2 (u16 (apcode / 2 ^ 4))))
          (apcode + 0xC1) (bytes_of 8 (stack_of apicid)))
        (apcode + 0xCA) (bytes_of 4 (u32 apicid)))
      (apcode + 0xD4) (bytes_of 8 main)

-- One page of 4K, or no return.
unfoldable pub take_page : ℕ → (Tree → ℕ) → Machine → Option (ℕ × Machine)
take_page fuel new_node m = elim (allocate_physical_memory fuel new_node m.free 0 0 1) [
  | returned code page pcnt t ↦ some (page, record m { free = t })
  | _ ↦ none
]

-- A page goes back to the map.
unfoldable pub give_page : (Tree → ℕ) → Machine → ℕ → Option Machine
give_page new_node m page =
    free_physical_memory (new_node m.free) m.free page 0 1 >>= λ r. some (record m { free = r.1 })

-- The low 4G of the memory at their own addresses, by the table at `ptpd`. A page ends with 12 zeros.
unfoldable pub map_low : Machine → ℕ → Machine
map_low m ptpd =
    let l1 = system_linear ptpd in
    let m' = store_entry (clear_page m l1) (system_linear m.cr3) 0 (ptpd + 3) in
    store_entry
      (store_entry (store_entry (store_entry m' l1 0 0x83) l1 1 (2 ^ 30 + 0x83)) l1 2
        (2 * 2 ^ 30 + 0x83))
      l1 3 (3 * 2 ^ 30 + 0x83)

-- What `StartupAP` leaves: the machine, the address of the code, and the commands to the APIC.
pub record StartedAp : Type 0 where
  pub machine : Machine
  pub apcode : ℕ
  pub commands : List ApicWrite

-- `StartupAP`; `none` is that it does not return.
unfoldable pub startup_ap : ℕ → (Tree → ℕ) → Machine → ℕ → Option StartedAp
startup_ap fuel new_node m apicid = take_page fuel new_node m >>= λ p.
    if ltb (2 ^ 20) (p.0) then none else (do
      (ptpd, m2) ← take_page fuel new_node (p.1)
      (pa, m3) ← take_page fuel new_node (map_low m2 ptpd)
      (code, m4) ← linear_mapping fuel new_node m3 pa (stack_of apicid) 0 7
      m5 ← give_page new_node (store_entry m4 (system_linear m4.cr3) 0 0) ptpd
      m6 ← give_page new_node m5 (p.0)
      some (record {
        machine = m6;
        apcode = p.0;
        commands =
            wricr (apicid % 2 ^ 8 * 2 ^ 56 + 0x4500)
            ++ wricr (apicid % 2 ^ 8 * 2 ^ 56 + 0x4600 + u8 (p.0 / 2 ^ 12));
      }))

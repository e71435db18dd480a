-- ===== src/Interrupt.antt =====
-- KERNEL/SOURCE/interrupt/interrupt.c and 8259A.c: the table of the interrupts and its dispatch.
--
-- A routine and `__isr` are their addresses, and so are the arrays `ISR`, which has 9 bytes for each
-- interrupt, and `INTERRUPT_ROUTINE`, in which 0 is no routine.
pub mod Table
mod Tests
use strawberry_os.Prelude.{
  ℕ, zero, suc, ◌+◌, ◌-◌, ◌*◌, ◌/◌, ◌%◌, ◌^◌, Bool, true, false, List, [], ◌∷◌, ltb, ◌==◌,
  if◌then◌else◌, ◌&&◌, u8, u16, u32, add64, sub64,
}
use strawberry_os.Timer.{PortWrite}

-- `INTERRUPT64`, with the fields that are not 0.
pub record Interrupt64 : Type 0 where
  pub a0 : ℕ
  pub s : ℕ
  pub type : ℕ
  pub p : ℕ
  pub a1 : ℕ
  pub a2 : ℕ

-- `IDT`, `ISR` and `INTERRUPT_ROUTINE`
pub record Interrupts : Type 0 where
  pub idt : ℕ → Interrupt64
  pub isr : ℕ → ℕ → ℕ
  pub routines : ℕ → ℕ

-- Whether the processor pushes an error code.
unfoldable pub has_error_code : ℕ → Bool
has_error_code id = ltb id 32 && (0x00027D00 / 2 ^ id % 2 == 1)

-- The address of the code of an interrupt.
abbrev pub isr_address : ℕ → ℕ → ℕ
isr_address base id = add64 base (9 * id)

-- The distance of the jump to `__isr`.
abbrev pub isr_distance : ℕ → ℕ → ℕ → ℕ
isr_distance base target id = u32 (sub64 target (add64 (isr_address base id) 9))

-- The bytes of that code.
unfoldable pub isr_code : ℕ → ℕ → ℕ → ℕ → ℕ
isr_code base target id k =
    if k == 0
    then (if has_error_code id then 0x90 else 0x6A)
    else (if k == 1
        then (if has_error_code id then 0x90 else 0x00)
        else (if k == 2
            then 0x6A
            else (if k == 3
                then id
                else (if k == 4
                    then 0xE9
                    else (if k == 5
                        then u8 (isr_distance base target id)
                        else (if k == 6
                            then u8 (isr_distance base target id / 2 ^ 8)
                            else (if k == 7
                                then u8 (isr_distance base target id / 2 ^ 16)
                                else (u8 (isr_distance base target id / 2 ^ 24)))))))))

-- The gate of an interrupt whose code is at `at`.
unfoldable pub set_gate : Interrupt64 → ℕ → Interrupt64
set_gate g at = record g { a0 = u16 at; a1 = u16 (at / 2 ^ 16); a2 = u32 (at / 2 ^ 32); p = 1 }

-- `register_interrupt`
unfoldable pub register_interrupt : ℕ → ℕ → Interrupts → ℕ → ℕ → Interrupts
register_interrupt base target t id routine = record {
  idt = λ i. if i == id then set_gate (t.idt i) (isr_address base id) else t.idt i;
  isr = λ i. if i == id then isr_code base target id else t.isr i;
  routines = λ i. if i == id then routine else t.routines i;
}

-- `setup_interrupt`: a gate before its registration, the loop over the gates, and the faults.
abbrev pub new_gate : Interrupt64
new_gate = record { a0 = 0; s = 0x08; type = 0x0E; p = 0; a1 = 0; a2 = 0 }

abbrev pub new_table : Interrupts
new_table = record { idt = λ i. new_gate; isr = λ i k. 0; routines = λ i. 0 }

unfoldable pub register_all : ℕ → ℕ → ℕ → Interrupts
register_all base target zero = new_table
register_all base target (suc n) = register_interrupt base target (register_all base target n) n 0

unfoldable pub setup_interrupt : ℕ → ℕ → ℕ → Interrupts
setup_interrupt base target fault =
    let faults = register_interrupt base target (register_all base target 256) 0x08 fault in
    register_interrupt base target faults 0x0D fault

-- What `__isr_common` calls: the end of the interrupt, the routine, or the output of its number.
pub data Call : Type 0 where
  interrupt_eoi : ℕ → Call
  call_routine : ℕ → Call
  output : ℕ → Call

unfoldable pub isr_common : Bool → Interrupts → ℕ → List Call
isr_common eoi t int =
    let id = u8 int in
    let at = t.routines id in
    let rest = (if at == 0 then output id else call_routine at) ∷ [] in
    if eoi then interrupt_eoi id ∷ rest else rest

-- The bytes that 8259A.c writes to the ports.
abbrev write : ℕ → ℕ → PortWrite
write port value = record { port = port; value = value }

unfoldable pub setup_8259A : List PortWrite
setup_8259A =
    write 0x20 0x11
    ∷ write 0x21 0x20
    ∷ write 0x21 4
    ∷ write 0x21 1
    ∷ write 0xA0 0x11
    ∷ write 0xA1 0x28
    ∷ write 0xA1 2
    ∷ write 0xA1 1
    ∷ []

unfoldable pub eoi_8259A : ℕ → List PortWrite
eoi_8259A id =
    if ltb id 0x30
    then (if ltb 0x27 id then write 0xA0 0x20 ∷ write 0x20 0x20 ∷ [] else write 0x20 0x20 ∷ [])
    else []

unfoldable pub disable_8259A : List PortWrite
disable_8259A = write 0x21 0xFF ∷ write 0xA1 0xFF ∷ []

-- ===== src/Interrupt/Table.antt =====
-- The table of the interrupts: what every gate and its code lead to.
use strawberry_os.Prelude.{ℕ, ◌+◌, ◌-◌, ◌*◌, ◌^◌, ◌≡◌, ◌==◌, ltb, if◌then◌else◌, add64}
use strawberry_os.Interrupt.{Interrupts}

-- The target of a jump with the distance `d`, a word with a sign, from the address `next`.
abbrev pub jump_target : ℕ → ℕ → ℕ
jump_target next d = add64 next (if ltb d (2 ^ 31) then d else d + (2 ^ 64 - 2 ^ 32))

-- The word of four bytes, the lowest first.
abbrev pub word_of : ℕ → ℕ → ℕ → ℕ → ℕ
word_of b0 b1 b2 b3 = b0 + b1 * 2 ^ 8 + b2 * 2 ^ 16 + b3 * 2 ^ 24

-- The interrupt `id` has a gate in the segment of the kernel that leads to its code, which pushes its
-- number and jumps to `target`, and has the routine.
pub record IsEntry (base target routine id : ℕ) (t : Interrupts) : Type 0 where
  pub present : (t.idt id).p ≡ 1
  pub address : (t.idt id).a0 + (t.idt id).a1 * 2 ^ 16 + (t.idt id).a2 * 2 ^ 32 ≡ base + 9 * id
  pub pushes : t.isr id 2 ≡ 0x6A
  pub number : t.isr id 3 ≡ id
  pub jumps : t.isr id 4 ≡ 0xE9
  pub to_target :
      jump_target (base + 9 * id + 9) (word_of (t.isr id 5) (t.isr id 6) (t.isr id 7) (t.isr id 8))
      ≡ target
  pub has_routine : t.routines id ≡ routine

-- The routine that the start registers: `__FAULT` for the faults 8 and 13.
abbrev pub first_routine : ℕ → ℕ → ℕ
first_routine fault id = if id == 0x0D then fault else (if id == 0x08 then fault else 0)

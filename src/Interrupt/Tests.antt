-- ===== src/Interrupt/Tests.antt =====
-- Runs of KERNEL/SOURCE/interrupt/interrupt.c and 8259A.c.
use strawberry_os.Prelude.{◌≡◌, refl, true, [], ◌∷◌}
use strawberry_os.Interrupt.{
  isr_common, register_interrupt, isr_code, has_error_code, new_table, interrupt_eoi, call_routine,
  output, eoi_8259A,
}

-- A fault pushes its error code itself, and a timer interrupt does not.
fault_code : has_error_code 13 ≡ true
unfolding has_error_code
fault_code = refl

nop_for_fault : isr_code 0x300000 0x201000 13 0 ≡ 0x90
unfolding isr_code has_error_code
nop_for_fault = refl

push_for_timer : isr_code 0x300000 0x201000 0x20 0 ≡ 0x6A
unfolding isr_code has_error_code
push_for_timer = refl

-- Interrupt 0x21 is ended and dispatched to its routine; 0x22 has none.
dispatch_21 :
    isr_common true (register_interrupt 0x300000 0x201000 new_table 0x21 0x5000) 0x21
    ≡ interrupt_eoi 0x21 ∷ call_routine 0x5000 ∷ []
unfolding isr_common register_interrupt
dispatch_21 = refl

dispatch_22 :
    isr_common true (register_interrupt 0x300000 0x201000 new_table 0x21 0x5000) 0x22
    ≡ interrupt_eoi 0x22 ∷ output 0x22 ∷ []
unfolding isr_common register_interrupt
dispatch_22 = refl

-- An interrupt of the second controller is ended at both.
eoi_28 :
    eoi_8259A 0x28
    ≡ record { port = 0xA0; value = 0x20 } ∷ record { port = 0x20; value = 0x20 } ∷ []
unfolding eoi_8259A
eoi_28 = refl

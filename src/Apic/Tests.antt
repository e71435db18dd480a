-- ===== src/Apic/Tests.antt =====
-- The APIC at concrete inputs.
use strawberry_os.Prelude.{◌^◌, ◌-◌, ◌≡◌, refl, [], ◌∷◌, some, length}
use strawberry_os.Apic.{
  register, wricr, interrupt_ipi, settle_freq, apic_frequency, ap_boot_code, boot_code, put_bytes,
  bytes_of, set_apic_address,
}

registers_at : set_apic_address 0xFEE00900 ≡ 0xFFFF8000FEE00000
unfolding set_apic_address
registers_at = refl

-- A counter that went down by 999999 in a fiftieth of a second.
fifty_megahertz : apic_frequency 10 (2 ^ 32 - 999998) 50 ≡ some 50000000
unfolding apic_frequency settle_freq
fifty_megahertz = refl

sends_interrupt : interrupt_ipi 3 0x42 ≡ register 0x31 0x03000000 ∷ register 0x30 0x4042 ∷ []
unfolding interrupt_ipi wricr
sends_interrupt = refl

code_size : length ap_boot_code ≡ 220
code_size = refl

-- The segment, the number of the processor, and a byte of the code.
patched : boot_code (λ a. 0) 0x8000 2 0 0x8005 ≡ 8
unfolding boot_code put_bytes bytes_of
patched = refl

numbered : boot_code (λ a. 0) 0x8000 2 0 0x80CA ≡ 2
unfolding boot_code put_bytes bytes_of
numbered = refl

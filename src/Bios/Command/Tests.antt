-- ===== src/Bios/Command/Tests.antt =====
-- Commands and searches at concrete inputs.
use strawberry_os.Prelude.{ℕ, ◌+◌, ◌*◌, ◌≡◌, refl, ◌==◌, if◌then◌else◌}
use strawberry_os.Bios.Command.{
  BootPort, ahciio, spin_idle, boot_command, reg_fis, check_type, find_pci, find_port,
}

-- A port that is busy at the first two polls, and keeps the number of its last block.
abbrev slow_port : BootPort ℕ
slow_port = record {
  clear_is = λ w. w;
  tfd = λ w n. if n == 0 then 0x80 else (if n == 1 then 0x08 else 0x50);
  issue =
      λ c memory w. record { ist = 0; memory = λ _. 7; world = c.cfis.lba0 + c.cfis.lba1 * 256 };
}

served : (ahciio 10 slow_port 0x1234 1 0xA000 (λ _. 0) 0x25 0).world ≡ 0x1234
unfolding ahciio spin_idle boot_command reg_fis
served = refl

timed_out : (ahciio 2 slow_port 0x1234 1 0xA000 (λ _. 0) 0x25 0).ret ≡ 3
unfolding ahciio spin_idle
timed_out = refl

too_many : (ahciio 10 slow_port 0x1234 129 0xA000 (λ _. 0) 0x25 0).ret ≡ 1
unfolding ahciio
too_many = refl

sata : check_type 0x113 0x101 ≡ 1
unfolding check_type
sata = refl

-- The port 2 of the ports 0 and 2 loads the kernel.
second_port : find_port 32 5 0 (λ p w. 1) (λ p w. (if p == 2 then 0 else 1, w + 1)) 0 ≡ (0, 2)
unfolding find_port
second_port = refl

-- A device that is absent is not tried.
third_device :
    find_pci 8 0x80000000
      (λ c w. if c == 0x80001000 then 0x12348086 else 0xFFFFFFFF)
      (λ c i w. (0, w + 1))
      0
    ≡ (0, 1)
unfolding find_pci
third_device = refl

-- ===== src/Ahci/Tests.antt =====
-- A port whose disk is a function from a byte's place to the byte, and runs of the code.
use strawberry_os.Prelude.{ℕ, ◌+◌, ◌*◌, ◌^◌, ◌≡◌, refl, arith, ◌==◌, if◌then◌else◌, [], ◌∷◌, none}
use strawberry_os.Disk.{Buffer, memcpy, diskrw, cmd_reset}
use strawberry_os.Disk.Refused.{diskrw_ignored}
use strawberry_os.Ahci.{AtaCommand, HbaPort, AhciPort, wait_idle, prdt_entries, operation_ata}
use strawberry_os.Ahci.Target.{ahci_drive, operation_ahci_default}

abbrev block_of : AtaCommand → ℕ
block_of c =
    c.fis.ba0
    + c.fis.ba1 * 2 ^ 8
    + c.fis.ba2 * 2 ^ 16
    + c.fis.ba3 * 2 ^ 24
    + c.fis.ba4 * 2 ^ 32
    + c.fis.ba5 * 2 ^ 40

-- The port is busy at the first poll.
abbrev simple_port : HbaPort Buffer
simple_port = record {
  clear_ist = λ w. w;
  clear_sae = λ w. w;
  tfd = λ w. 0x80 ∷ 0x50 ∷ [];
  issue = λ c memory w. record {
    ist = 0;
    memory =
        if c.fis.cmd == 0x25
        then memcpy memory 0x5000 w (block_of c * 512) (c.fis.cnt * 512)
        else memory;
    world =
        if c.fis.cmd == 0x35
        then memcpy w (block_of c * 512) (λ j. memory (0x5000 + j)) 0 (c.fis.cnt * 512)
        else w;
  };
}

abbrev simple : AhciPort Buffer
simple = record { port = simple_port; bs = 512; ser = λ _. 0; mod_name = λ _. 0 }

-- 20 sectors are an entry of 8 KB and one of 2 KB.
two_entries :
    prdt_entries 20 20 0x5000
    ≡ record { dba = 0x5000; dbc = 0x1FFF } ∷ record { dba = 0x7000; dbc = 0x7FF } ∷ []
unfolding prdt_entries
two_entries = refl

-- A port that stays busy is an error.
always_busy :
    (operation_ata
      (record simple_port { tfd = λ w. 0x80 ∷ 0x80 ∷ [] })
      0x5000
      3
      1
      0x25
      (λ _. 0)
      (λ _. 7)).ret
    ≡ 0x10000
unfolding operation_ata wait_idle
always_busy = refl

-- A reset of a disk on a port.
diskrw_ignored_example :
    diskrw 100 (ahci_drive simple 0x5000 1000 1) (λ _. 0) 0 1 cmd_reset (λ _. 0) (λ _. 7) ≡ none
diskrw_ignored_example =
    diskrw_ignored 100 (ahci_drive simple 0x5000 1000 1) (λ _. 0) (λ _. 0) 0 1 cmd_reset (λ _. 7)
      (λ op w e. operation_ahci_default simple 0x5000 op w (rw e refl)) refl (omega arith)
      (omega arith)

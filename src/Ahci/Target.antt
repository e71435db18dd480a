-- ===== src/Ahci/Target.antt =====
-- A disk behind a port is a drive of sectors.
use strawberry_os.Prelude.{
  ℕ, ◌+◌, ◌*◌, ◌/◌, ◌%◌, ◌^◌, ◌<◌, ◌≤◌, ◌≡◌, refl, ap, arith, ◌==◌, true, false, ◌||◌,
}
use strawberry_os.Disk.{
  Buffer, memcpy, DiskOperation, DiskDriver, cmd_identify, cmd_read, cmd_write, is_ignored,
  default_disk_operation,
}
use strawberry_os.Ahci.{
  HbaPort, AhciPort, AtaCommand, Completed, placed, wait_idle, command_of, operation_ahci,
}
use strawberry_os.Ahci.Command.{IsAtaCommand}

-- The port when `OperationATA` issues its command.
abbrev pub cleared : {W : Type 0} → HbaPort W → W → W
cleared port w = port.clear_sae (port.clear_ist w)

-- What a port with a disk does: it is idle in time, and a command for 1 to 8 sectors of the disk with
-- memory at `base` reads their bytes into the memory and keeps the disk, or stores the bytes that the
-- memory has.
pub record AtaTarget {W : Type 0} (port : HbaPort W) (bytes : W → Buffer) (sct base : ℕ)
    : Type 0 where
  pub idle : (w : W) → wait_idle (port.tfd (cleared port w)) ≡ true
  pub kept : (w : W) (k : ℕ) → bytes (cleared port w) k ≡ bytes w k
  pub reads :
      (c : AtaCommand) (memory : Buffer) (w : W) (lba n : ℕ)
      → 0 < n
      → n ≤ 8
      → lba + n ≤ sct
      → IsAtaCommand 0x25 0 lba n base c
      → (let d = port.issue c memory w in
          (d.ist / 2 ^ 30 % 2 ≡ 0)
          × ((k : ℕ) → k < n * 512 → d.memory (base + k) ≡ bytes w (lba * 512 + k))
          × ((k : ℕ) → bytes d.world k ≡ bytes w k))
  pub writes :
      (c : AtaCommand) (memory : Buffer) (w : W) (lba n : ℕ)
      → 0 < n
      → n ≤ 8
      → lba + n ≤ sct
      → IsAtaCommand 0x35 1 lba n base c
      → (let d = port.issue c memory w in
          (d.ist / 2 ^ 30 % 2 ≡ 0)
          × ((k : ℕ)
              → bytes d.world k
                ≡ memcpy (bytes w) (lba * 512) (λ j. memory (base + j)) 0 (n * 512) k))

-- The drive that `ConfigureAHCI` links.
abbrev pub ahci_drive : {W : Type 0} → AhciPort W → ℕ → ℕ → ℕ → DiskDriver W
ahci_drive ap base sct id = record {
  operate = operation_ahci ap base;
  sct = sct;
  bs = ap.bs;
  id = id;
}

module _ {W : Type 0} (ap' : AhciPort W) (bytes : W → Buffer) (sct base : ℕ)
    (target : AtaTarget ap'.port bytes sct base) (small : sct ≤ 2 ^ 48)
    (page : base + 4096 < 2 ^ 64) (normal : ap'.bs ≡ 512) where
  -- What the port has done with the command of a request.
  abbrev done : ℕ → DiskOperation → W → Completed W
  done code op w =
      ap'.port.issue (command_of code op.lba op.cnt base) (placed base op.dat) (cleared ap'.port w)

-- The commands that the port leaves to `DefaultDiskOperation`.
pub operation_ahci_default :
    {W : Type 0} (ap : AhciPort W) (buf_addr : ℕ) (op : DiskOperation) (w : W)
    → is_ignored op.cmd ≡ true
    → operation_ahci ap buf_addr op w ≡ default_disk_operation op w
unfolding operation_ahci
operation_ahci_default ap buf_addr op w h =
    let identify : (op.cmd == cmd_identify) ≡ false = ground arith in
    let transfer : (op.cmd == cmd_read || op.cmd == cmd_write) ≡ false = ground arith in
    rw (identify, transfer) refl

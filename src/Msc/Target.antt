-- ===== src/Msc/Target.antt =====
-- A disk behind a bulk-only target is a drive of sectors.
use strawberry_os.Prelude.{ℕ, ◌+◌, ◌*◌, ◌<◌, ◌≤◌, ◌≡◌}
use strawberry_os.Disk.{Buffer, memcpy, DiskDriver}
use strawberry_os.Scsi.{zeros}
use strawberry_os.Msc.{Xfer, Moved, UsbDisk, dir_in, dir_out, operation_msc}
use strawberry_os.Msc.Wrapper.{IsWrapper}

-- The three transfers of a command, and that all succeed.
pub record IsAnswered {W : Type 0} (a b c : Moved W) : Type 0 where
  pub wrapper_sent : a.cc ≡ 0
  pub moved_data : b.cc ≡ 0
  pub status_sent : c.cc ≡ 0
  pub no_error : c.buf 12 ≡ 0

-- What a target does with a wrapper that asks for sectors of its disk: a read of 1 to 8 sectors
-- answers with their bytes and keeps the disk, and a write stores the bytes that it is sent.
pub record BulkTarget {W : Type 0} (xfer : Xfer W) (bytes : W → Buffer) (sct : ℕ) : Type 0 where
  pub reads :
      (cbw buf : Buffer) (w : W) (lba n : ℕ)
      → 0 < n
      → n ≤ 8
      → lba + n ≤ sct
      → IsWrapper 0x28 lba n (n * 512) dir_in cbw
      → (let a = xfer dir_out cbw 31 w in
          let b = xfer dir_in buf (n * 512) a.world in
          let c = xfer dir_in zeros 13 b.world in
          IsAnswered a b c
          × ((k : ℕ) → k < n * 512 → b.buf k ≡ bytes w (lba * 512 + k))
          × ((k : ℕ) → bytes c.world k ≡ bytes w k))
  pub writes :
      (cbw buf : Buffer) (w : W) (lba n : ℕ)
      → 0 < n
      → n ≤ 8
      → lba + n ≤ sct
      → IsWrapper 0x2A lba n (n * 512) dir_out cbw
      → (let a = xfer dir_out cbw 31 w in
          let b = xfer dir_out buf (n * 512) a.world in
          let c = xfer dir_in zeros 13 b.world in
          IsAnswered a b c
          × ((k : ℕ) → bytes c.world k ≡ memcpy (bytes w) (lba * 512) buf 0 (n * 512) k))

-- The drive that `SetupMSCLUN` links, once `SCSISetup` has found its size.
abbrev pub msc_drive : {W : Type 0} → Xfer W → UsbDisk → ℕ → ℕ → DiskDriver W
msc_drive xfer disk sct id = record {
  operate = operation_msc xfer disk;
  sct = sct;
  bs = disk.bs;
  id = id;
}

-- ===== src/Disk/Sectors.antt =====
-- What `DISKRW` relies on of a driver: a drive of sectors of 512 bytes.
use strawberry_os.Prelude.{ℕ, ◌+◌, ◌*◌, ◌<◌, ◌≤◌, ◌≡◌}
use strawberry_os.Disk.{
  Buffer, memcpy, DiskDriver, DiskOperation, Outcome, ret_success, cmd_read, cmd_write,
}

-- A request of `cmd` for 1 to 8 sectors of the disk.
pub record IsRequest (cmd sct : ℕ) (op : DiskOperation) : Type 0 where
  pub command : op.cmd ≡ cmd
  pub some_sectors : 0 < op.cnt
  pub one_page : op.cnt ≤ 8
  pub on_disk : op.lba + op.cnt ≤ sct

-- A driver that serves one sector of a request at least, and says how many.
pub record IsServed {W : Type 0} (op : DiskOperation) (out : Outcome W) : Type 0 where
  pub success : out.code ≡ ret_success
  pub progress : 0 < out.op.cnt
  pub at_most : out.op.cnt ≤ op.cnt

-- A drive whose sectors hold the bytes `bytes w` of the disk.
pub record SectorDrive {W : Type 0} (drive : DiskDriver W) (bytes : W → Buffer) : Type 0 where
  pub size_512 : drive.bs ≡ 512
  pub read_served :
      (op : DiskOperation) (w : W)
      → IsRequest cmd_read drive.sct op
      → IsServed op (drive.operate op w)
  pub read_bytes :
      (op : DiskOperation) (w : W)
      → IsRequest cmd_read drive.sct op
      → (k : ℕ) → k < (drive.operate op w).op.cnt * 512
      → (drive.operate op w).op.dat k ≡ bytes w (op.lba * 512 + k)
  pub read_keeps :
      (op : DiskOperation) (w : W)
      → IsRequest cmd_read drive.sct op
      → (k : ℕ) → bytes (drive.operate op w).world k ≡ bytes w k
  pub write_served :
      (op : DiskOperation) (w : W)
      → IsRequest cmd_write drive.sct op
      → IsServed op (drive.operate op w)
  pub write_bytes :
      (op : DiskOperation) (w : W)
      → IsRequest cmd_write drive.sct op
      → (k : ℕ)
      → bytes (drive.operate op w).world k
        ≡ memcpy (bytes w) (op.lba * 512) op.dat 0 ((drive.operate op w).op.cnt * 512) k

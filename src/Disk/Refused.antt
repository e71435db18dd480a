-- ===== src/Disk/Refused.antt =====
-- `DISKRW` over drives that fail or that ignore a command.
use strawberry_os.Prelude.{
  ℕ, zero, suc, ◌≤◌, ◌<◌, ◌≡◌, refl, ◌≢◌, none, some, arith, ◌==◌, true, false, lt→ltb,
}
use native.Mathlib.Nat.{mul-le-mul}
use strawberry_os.Disk.{
  Buffer, DiskDriver, DiskOperation, Transfer, execute_disk_operation, current_operation,
  copied_back, diskrw_rounds, default_disk_operation, is_ignored, diskrw, cmd_identify, ret_success,
  current_count, exceeds,
}

-- The first request that fails ends the loop.
pub rounds_failed :
    {W : Type 0} (fuel : ℕ) (drive : DiskDriver W) (lba count cmd : ℕ) (buf page : Buffer) (w : W)
    → 0 < count
    → (execute_disk_operation drive (current_operation buf page lba count cmd 0) w).code
      ≢ ret_success
    → (t : Transfer W) × (diskrw_rounds (suc fuel) drive lba count cmd 0 buf page w ≡ some t)
      × (t.code ≢ ret_success)
      × (t.buf ≡ buf)
unfolding diskrw_rounds
rounds_failed fuel drive lba count cmd buf page w some_sectors bad =
    let c = (execute_disk_operation drive (current_operation buf page lba count cmd 0) w).code in
    let other : (c == ret_success) ≡ false = ground arith in
    rw (lt→ltb 0 count some_sectors, other) (_, refl, bad, refl)

pub diskrw_other :
    {W : Type 0} (fuel : ℕ) (drive : DiskDriver W) (lba count cmd : ℕ) (buf page : Buffer) (w : W)
    → (cmd == cmd_identify) ≡ false
    → diskrw (suc fuel) drive buf lba count cmd page w
      ≡ diskrw_rounds (suc fuel) drive lba count cmd 0 buf page w
unfolding diskrw
diskrw_other fuel drive lba count cmd buf page w h = rw h refl

small_count : (cnt bs : ℕ) → cnt ≤ 8 → bs ≤ 8192 → exceeds cnt bs ≡ false
small_count cnt bs h k = let e = mul-le-mul h k in ground (arith, e)

module _ {W : Type 0} (drive : DiskDriver W) (lba count cmd : ℕ)
    (default : (op : DiskOperation) (w : W)
      → op.cmd ≡ cmd
      → drive.operate op w ≡ default_disk_operation op w)
    (ignored : is_ignored cmd ≡ true) (small : drive.bs ≤ 8192) (some_sectors : 0 < count) where
  ignored_round :
      (buf page : Buffer) (w : W)
      → ((execute_disk_operation drive (current_operation buf page lba count cmd 0) w).code
          ≡ ret_success)
        × ((execute_disk_operation drive (current_operation buf page lba count cmd 0) w).op.cnt ≡ 0)
  unfolding execute_disk_operation current_operation default_disk_operation
  ignored_round buf page w =
      let n = current_count count 0 in
      let fits : exceeds n drive.bs ≡ false = small_count n drive.bs (ground arith) small in
      let op = current_operation buf page lba count cmd 0 in
      rw (fits, default op w refl) (rw ignored (refl, refl))

  ignored_rounds :
      (fuel : ℕ) (buf page : Buffer) (w : W)
      → diskrw_rounds fuel drive lba count cmd 0 buf page w ≡ none
  unfolding diskrw_rounds
  ignored_rounds zero buf page w = refl
  ignored_rounds (suc fuel) buf page w =
      let out = execute_disk_operation drive (current_operation buf page lba count cmd 0) w in
      let r = ignored_round buf page w in
      rw (lt→ltb 0 count some_sectors, r.0, r.1)
        (ignored_rounds fuel (copied_back buf out.op cmd 0) out.op.dat out.world)

-- A driver that leaves a command to `DefaultDiskOperation`, which ignores it, answers it with success
-- and a count of 0, so that `DISKRW` of a count that is not 0, over blocks of at most 8192 bytes, asks
-- again: with no amount of fuel does it return.
pub diskrw_ignored :
    {W : Type 0} (fuel : ℕ) (drive : DiskDriver W) (buf page : Buffer) (lba count cmd : ℕ) (w : W)
    → ((op : DiskOperation) (w : W)
        → op.cmd ≡ cmd
        → drive.operate op w ≡ default_disk_operation op w)
    → is_ignored cmd ≡ true
    → drive.bs ≤ 8192
    → 0 < count
    → diskrw fuel drive buf lba count cmd page w ≡ none
unfolding diskrw
diskrw_ignored fuel drive buf page lba count cmd w default ignored small some_sectors =
    let other : (cmd == 0) ≡ false = ground arith in
    rw other (ignored_rounds drive lba count cmd default ignored small some_sectors fuel buf page w)

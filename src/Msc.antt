-- ===== src/Msc.antt =====
-- KERNEL/SOURCE/device/usb/msc.c: a disk behind the bulk-only transport of USB.
--
-- The controller's `XFER` on the two bulk pipes is an argument: from the direction, the buffer and
-- its size it gives its result, the buffer as it is then, and what else it changes.
pub mod Wrapper
pub mod Target
mod Tests
use strawberry_os.Prelude.{
  ℕ, ◌+◌, ◌-◌, ◌*◌, ◌/◌, ◌%◌, ◌^◌, Option, none, some, Bool, ◌&&◌, ◌||◌, ltb, leb, ◌==◌,
  if◌then◌else◌, true, false, u16, u32,
}
use strawberry_os.Disk.{
  Buffer, memcpy, DiskOperation, Outcome, default_disk_operation, cmd_identify, cmd_read, cmd_write,
  cmd_scsi, ret_success, ret_ebadtrack,
}
use strawberry_os.Scsi.{store_word, load32, zeros, scsi_setup_command}

-- What a transfer leaves: the result, 0 for success, the buffer, and the rest.
pub record Moved (W : Type 0) : Type 0 where
  pub cc : ℕ
  pub buf : Buffer
  pub world : W

-- `USB_DIR_OUT` and `USB_DIR_IN`
abbrev pub dir_out : ℕ
dir_out = 0x00

abbrev pub dir_in : ℕ
dir_in = 0x80

-- `MSCSendCBW`: a transfer of so many bytes on the pipe of the direction.
abbrev pub Xfer : Type 0 → Type 0
Xfer W = ℕ → Buffer → ℕ → W → Moved W

-- What `OperationMSC` uses of `USB_DISK_DRIVER`.
pub record UsbDisk : Type 0 where
  pub model : Buffer
  pub lun : ℕ
  pub bs : ℕ

-- `blocksize`; `none` is -1.
abbrev pub msc_block_size : UsbDisk → DiskOperation → Option ℕ
msc_block_size disk op =
    if op.cmd == cmd_scsi
    then some op.bsz
    else (if op.cmd == cmd_read || op.cmd == cmd_write then some disk.bs else none)

-- `op->CNT` cut to a page; 4096 / -1 is -4096, which is stored as a `WORD`.
abbrev pub msc_count : Option ℕ → ℕ → ℕ
msc_count none cnt = u16 (2 ^ 32 - 4096)
msc_count (some size) cnt =
    if size == 0 then cnt else (if ltb (4096 / size) cnt then 4096 / size else cnt)

abbrev pub msc_dir : DiskOperation → ℕ
msc_dir op =
    if op.cmd == cmd_read
    then dir_in
    else (if op.cmd == cmd_scsi then (if op.bsz == 0 then dir_out else dir_in) else dir_out)

-- The command block wrapper of 31 bytes: `SIG`, `TAG`, `DTL`, `FLG`, `LUN`, `CBL` and `CMD`.
unfoldable pub wrapper : UsbDisk → DiskOperation → ℕ → Buffer
wrapper disk op bytes =
    let cmd = (scsi_setup_command disk.bs op zeros 12).1 in
    let head = store_word 4 (store_word 4 (store_word 4 zeros 0 0x43425355) 4 999) 8 bytes in
    let flags = store_word 1 (store_word 1 (store_word 1 head 12 (msc_dir op)) 13 disk.lun) 14 12 in
    memcpy flags 15 cmd 0 16

-- The last part of `OperationMSC`, on the status wrapper: `RSD` and `STS`.
unfoldable pub take_status : {W : Type 0} → ℕ → DiskOperation → Moved W → Outcome W
take_status size op csw =
    let sts = csw.buf 12 in
    let fewer = record op { cnt = u16 (op.cnt + 2 ^ 32 - load32 csw.buf 8 / size) } in
    if csw.cc == 0
    then (if sts == 0 then record { code = ret_success; op = op; world = csw.world } else record {
      code = ret_ebadtrack;
      op = if sts == 2 || size == 0 then op else fewer;
      world = csw.world;
    })
    else record { code = ret_ebadtrack; op = op; world = csw.world }

-- The three transfers: the wrapper, the data where there are some, and the status.
unfoldable pub msc_transfers : {W : Type 0} → Xfer W → UsbDisk → ℕ → DiskOperation → W → Outcome W
msc_transfers xfer disk size op w =
    let bytes = u32 (size * op.cnt) in
    let a = xfer dir_out (wrapper disk op bytes) 31 w in
    let b = xfer (msc_dir op) op.dat bytes a.world in
    let moved = if bytes == 0 then record a { buf = op.dat } else b in
    let op1 = record op { dat = if msc_dir op == dir_in then moved.buf else op.dat } in
    if a.cc == 0
    then (if moved.cc == 0
        then take_status size op1 (xfer dir_in zeros 13 moved.world)
        else record { code = ret_ebadtrack; op = op1; world = moved.world })
    else record { code = ret_ebadtrack; op = op; world = a.world }

-- `OperationMSC`
unfoldable pub operation_msc : {W : Type 0} → Xfer W → UsbDisk → DiskOperation → W → Outcome W
operation_msc xfer disk op w =
    let size = msc_block_size disk op in
    let op1 = record op { cnt = msc_count size op.cnt } in
    let named = memcpy (memcpy op.dat 0 zeros 0 0x60) 0x30 disk.model 0 0x18 in
    if op.cmd == cmd_identify
    then record { code = ret_success; op = record op { cnt = 1; dat = named }; world = w }
    else elim size [
      | none ↦ default_disk_operation op1 w
      | some s ↦ msc_transfers xfer disk s op1 w
    ]

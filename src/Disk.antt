-- ===== src/Disk.antt =====
-- KERNEL/SOURCE/device/disk.c and KERNEL/HEADER/device/disk.h: the layer between a request for
-- sectors and the drivers.
--
-- The buffers of C are functions from an offset to a byte. What a driver changes besides the
-- request (its queues, the sectors) is a type `W` of the model, and the pointer `OP` of a drive is
-- a function on it. The page that `DISKRW` takes from the page allocator is an argument, with what
-- it holds, and the loop of `DISKRW` runs on fuel.
pub mod Sectors
pub mod Copy
pub mod Rounds
pub mod Refused
mod Tests
use strawberry_os.Prelude.{
  ℕ, zero, suc, ◌+◌, ◌-◌, ◌*◌, ◌^◌, ◌%◌, Bool, true, false, ◌&&◌, ◌||◌, Option, none, some, List,
  [], ◌∷◌, ltb, leb, ◌==◌, if◌then◌else◌, u16, u32, u64, add64,
}

abbrev pub Buffer : Type 0
Buffer = ℕ → ℕ

-- `memcpy(to + at, from + start, size)`
abbrev pub memcpy : Buffer → ℕ → Buffer → ℕ → ℕ → Buffer
memcpy to at from start size i =
    if leb at i && ltb i (at + size) then from (start + (i - at)) else to i

-- `CMD_*`
abbrev pub cmd_identify : ℕ
cmd_identify = 0x00

abbrev pub cmd_reset : ℕ
cmd_reset = 0x01

abbrev pub cmd_read : ℕ
cmd_read = 0x02

abbrev pub cmd_write : ℕ
cmd_write = 0x03

abbrev pub cmd_verify : ℕ
cmd_verify = 0x04

abbrev pub cmd_format : ℕ
cmd_format = 0x05

abbrev pub cmd_seek : ℕ
cmd_seek = 0x07

abbrev pub cmd_isready : ℕ
cmd_isready = 0x10

abbrev pub cmd_scsi : ℕ
cmd_scsi = 0x20

-- `DISK_RET_*`
abbrev pub ret_success : ℕ
ret_success = 0x00

abbrev pub ret_eparam : ℕ
ret_eparam = 0x01

abbrev pub ret_eboundary : ℕ
ret_eboundary = 0x09

abbrev pub ret_ebadtrack : ℕ
ret_ebadtrack = 0x0C

-- `DISK_OPERATION`, without the drive, which the operations below have as an argument.
pub record DiskOperation : Type 0 where
  pub dat : Buffer
  pub cdb : Buffer
  pub lba : ℕ
  pub bsz : ℕ
  pub cnt : ℕ
  pub cmd : ℕ

-- What an operation returns: the code, the request as it was changed, and the rest.
pub record Outcome (W : Type 0) : Type 0 where
  pub code : ℕ
  pub op : DiskOperation
  pub world : W

-- `DISK_DRIVER`: the operation, the number of sectors, the size of a block and the id.
pub record DiskDriver (W : Type 0) : Type 0 where
  pub operate : DiskOperation → W → Outcome W
  pub sct : ℕ
  pub bs : ℕ
  pub id : ℕ

-- `origcnt * (op->DRV->BS) > 65536`, a product of two `int`s, cut to 32 bits.
abbrev pub exceeds : ℕ → ℕ → Bool
exceeds cnt bs = ltb 65536 (u32 (cnt * bs)) && ltb (u32 (cnt * bs)) (2 ^ 31)

-- `ExecuteDiskOperation`
unfoldable pub execute_disk_operation : {W : Type 0} → DiskDriver W → DiskOperation → W → Outcome W
execute_disk_operation drive op w =
    if exceeds op.cnt drive.bs
    then record { code = ret_eboundary; op = record op { cnt = 0 }; world = w }
    else drive.operate op w

-- The commands that `DefaultDiskOperation` lets pass.
abbrev pub is_ignored : ℕ → Bool
is_ignored cmd =
    cmd == cmd_format
    || cmd == cmd_reset
    || cmd == cmd_isready
    || cmd == cmd_verify
    || cmd == cmd_seek

-- `DefaultDiskOperation`
unfoldable pub default_disk_operation : {W : Type 0} → DiskOperation → W → Outcome W
default_disk_operation op w = record {
  code = if is_ignored op.cmd then ret_success else ret_eparam;
  op = record op { cnt = 0 };
  world = w;
}

-- `OperationWR`
abbrev pub operation_wr : ℕ → ℕ
operation_wr cmd = if cmd == cmd_write then 1 else 0

-- `sizeof(DISK_IDENTIFY)`, or a sector.
abbrev pub block_size : ℕ → ℕ
block_size cmd = if cmd == cmd_identify then 0x60 else 0x200

-- What `DISKRW` returns: the code, the caller's buffer, the page, and the rest.
pub record Transfer (W : Type 0) : Type 0 where
  pub code : ℕ
  pub buf : Buffer
  pub page : Buffer
  pub world : W

-- `currentCNT`
abbrev pub current_count : ℕ → ℕ → ℕ
current_count count i = if ltb 8 (count - i) then 8 else count - i

-- `dop`, over the page that a write fills first.
unfoldable pub current_operation : Buffer → Buffer → ℕ → ℕ → ℕ → ℕ → DiskOperation
current_operation buf page lba count cmd i =
    let size = block_size cmd in
    let n = current_count count i in
    record {
      dat = if operation_wr cmd == 0 then page else memcpy page 0 buf (i * size) (n * size);
      cdb = λ _. 0;
      lba = add64 lba i;
      bsz = 0;
      cnt = n;
      cmd = cmd;
    }

-- What the round copies back to the caller, at `currentBuf`.
unfoldable pub copied_back : Buffer → DiskOperation → ℕ → ℕ → Buffer
copied_back buf op cmd i =
    let size = block_size cmd in
    if operation_wr cmd == 0 then memcpy buf (i * size) op.dat 0 (op.cnt * size) else buf

-- The loop of `DISKRW` from `i` on.
unfoldable pub diskrw_rounds :
    {W : Type 0} → ℕ → DiskDriver W → ℕ → ℕ → ℕ → ℕ → Buffer → Buffer → W → Option (Transfer W)
diskrw_rounds zero drive lba count cmd i buf page w = none
diskrw_rounds (suc fuel) drive lba count cmd i buf page w =
    if ltb i count
    then (let out = execute_disk_operation drive (current_operation buf page lba count cmd i) w in
        let next =
          diskrw_rounds fuel drive lba count cmd (u16 (i + out.op.cnt))
            (copied_back buf out.op cmd i) out.op.dat out.world in
        if out.code == ret_success
        then next
        else some (record { code = out.code; buf = buf; page = out.op.dat; world = out.world }))
    else some (record { code = ret_success; buf = buf; page = page; world = w })

-- `DISKRW`, with the page that it allocates for its time.
unfoldable pub diskrw :
    {W : Type 0} → ℕ → DiskDriver W → Buffer → ℕ → ℕ → ℕ → Buffer → W → Option (Transfer W)
diskrw fuel drive buf lba count cmd page w =
    diskrw_rounds fuel drive lba (if cmd == cmd_identify then 1 else count) cmd 0 buf page w

-- The list `DISKDVC` of the drives, by their addresses, newest first.
pub record DiskLink : Type 0 where
  pub ptr : ℕ
  pub prv : ℕ
  pub nxt : ℕ

abbrev head_of : List DiskLink → ℕ
head_of [] = 0
head_of (x ∷ xs) = x.ptr

abbrev set_prv : List DiskLink → ℕ → List DiskLink
set_prv [] p = []
set_prv (x ∷ xs) p = record x { prv = p } ∷ xs

-- `LinkupDisk`
unfoldable pub linkup_disk : List DiskLink → ℕ → List DiskLink
linkup_disk xs disk = record { ptr = disk; prv = 0; nxt = head_of xs } ∷ set_prv xs disk

-- ===== src/Scsi.antt =====
-- KERNEL/SOURCE/device/scsi.c and KERNEL/HEADER/device/scsi.h: SCSI commands over the disk layer.
--
-- A command block and the data of a command are buffers of bytes. The values that `TimestampCPU`
-- returns in `SCSIWaitReady` are an argument, one for each turn of its loop. The result -1 of an
-- `int` is `2 ^ 32 - 1`.
pub mod Commands
pub mod Wait
mod Tests
use strawberry_os.Prelude.{
  ℕ, zero, suc, ◌+◌, ◌-◌, ◌*◌, ◌/◌, ◌%◌, ◌^◌, Bool, true, false, ◌&&◌, Option, none, some, List, [],
  ◌∷◌, ltb, leb, ◌==◌, if◌then◌else◌, u16, u32, u64, add64,
}
use strawberry_os.ByteOrder.{reverse16, reverse32}
use strawberry_os.Strings.{leading_whitespace, strlen}
use strawberry_os.Disk.{
  Buffer, memcpy, DiskOperation, Outcome, DiskDriver, execute_disk_operation, cmd_read, cmd_write,
  cmd_scsi, ret_success,
}

-- Byte `i` of a word.
abbrev pub byte : ℕ → ℕ → ℕ
byte x i = x / 256 ^ i % 256

-- The store of a word of `n` bytes.
abbrev pub store_word : ℕ → Buffer → ℕ → ℕ → Buffer
store_word n a at x k = if leb at k && ltb k (at + n) then byte x (k - at) else a k

abbrev pub load16 : Buffer → ℕ → ℕ
load16 a at = a at + a (at + 1) * 256

abbrev pub load32 : Buffer → ℕ → ℕ
load32 a at = load16 a at + load16 a (at + 2) * 65536

abbrev pub zeros : Buffer
zeros k = 0

-- `memset(cmd, 0, 16)` and the code of the command.
abbrev pub clear_command : Buffer → ℕ → Buffer
clear_command cdb code = store_word 1 (memcpy cdb 0 zeros 0 16) 0 code

-- `SCSI_CMD_READ_10` and `SCSI_CMD_WRITE_10`, which differ in their code.
unfoldable pub command_10 : Buffer → ℕ → ℕ → ℕ → Buffer
command_10 cdb code lba count =
    store_word 2 (store_word 4 (clear_command cdb code) 2 (reverse32 (u32 lba))) 7 (reverse16 count)

-- `SCSISetupCommand`: the size of a block, and the command block.
unfoldable pub scsi_setup_command : ℕ → DiskOperation → Buffer → ℕ → ℕ × Buffer
scsi_setup_command bs op cdbcmd maxcdb =
    if op.cmd == cmd_read
    then (bs, command_10 cdbcmd 0x28 op.lba op.cnt)
    else (if op.cmd == cmd_write
        then (bs, command_10 cdbcmd 0x2A op.lba op.cnt)
        else (if op.cmd == cmd_scsi
            then (op.bsz, memcpy cdbcmd 0 op.cdb 0 maxcdb)
            else (2 ^ 32 - 1, cdbcmd)))

-- A request of the command `CMD_SCSI`.
abbrev scsi_operation : DiskOperation → ℕ → Buffer → ℕ → DiskOperation
scsi_operation op cnt cdb bsz = record op {
  cmd = cmd_scsi;
  cnt = cnt;
  dat = zeros;
  cdb = cdb;
  bsz = bsz;
}

-- `SCSI_CMD_TEST_UNIT_READY` and `SCSI_CMD_REQUEST_SENSE`
abbrev pub test_unit_ready : DiskOperation → DiskOperation
test_unit_ready op = scsi_operation op 0 (clear_command zeros 0x00) 0

abbrev pub request_sense : DiskOperation → DiskOperation
request_sense op = scsi_operation op 1 (store_word 1 (clear_command zeros 0x03) 4 18) 18

-- The variables of `SCSIWaitReady`.
pub record Waiting : Type 0 where
  pub tries : ℕ
  pub in_progress : Bool
  pub end : ℕ

-- What the sense data changes; `none` where no tries are left. The additional sense code and its
-- qualifier are the bytes 12 and 13.
unfoldable pub sensed : Waiting → Buffer → Option Waiting
sensed s sense =
    let missing = sense 12 == 0x3A in
    let tries = if missing then s.tries - 1 else s.tries in
    let detecting = sense 12 == 0x04 && sense 13 == 0x01 in
    let next =
      if detecting && (if s.in_progress then false else true)
      then record { tries = tries; in_progress = true; end = add64 s.end 30 }
      else record s { tries = tries } in
    if missing && tries == 0 then none else some next

-- "SENSE FAILED" goes on with the next turn.
unfoldable pub after_sense : {W : Type 0} → Waiting → Outcome W → Option Waiting
after_sense s out = if out.code == ret_success then sensed s out.op.dat else some s

-- The turns of `SCSIWaitReady`, given the times that they read; `none` is that more turns follow.
unfoldable pub wait_rounds :
    {W : Type 0} → List ℕ → DiskDriver W → DiskOperation → W → Waiting → Option (Outcome W)
wait_rounds [] drive op w s = none
wait_rounds (now ∷ times) drive op w s =
    let ready = execute_disk_operation drive (test_unit_ready op) w in
    let sense = execute_disk_operation drive (request_sense ready.op) ready.world in
    elim (leb s.end now) [
      | true ↦ some (record { code = 2 ^ 32 - 1; op = op; world = w })
      | false ↦ elim (ready.code == ret_success) [
        | true ↦ some ready
        | false ↦ elim (after_sense s sense) [
          | none ↦ some (record sense { code = 2 ^ 32 - 1 })
          | some next ↦ wait_rounds times drive sense.op sense.world next
        ]
      ]
    ]

-- `SCSIWaitReady`, where `start` is the time at which it begins.
unfoldable pub scsi_wait_ready :
    {W : Type 0} → ℕ → List ℕ → DiskDriver W → DiskOperation → W → Option (Outcome W)
scsi_wait_ready start times drive op w =
    wait_rounds times drive op w (record { tries = 3; in_progress = false; end = add64 start 5000 })

-- What `SCSISetup` finds out of a disk: the fields of `SCSI_DISK_DRIVER` that it sets.
pub record ScsiDisk : Type 0 where
  pub rmv : ℕ
  pub bs : ℕ
  pub sct : ℕ
  pub model : Buffer

-- The text of `n` bytes at `from` of the data, without the blanks at its end, copied to `at`: the
-- model, and the length of the text. The pointer that `LeadingWhitespace` returns is not used.
unfoldable pub copy_text : Buffer → ℕ → ℕ → Buffer → ℕ → Buffer × ℕ
copy_text data_in from n model at =
    let buf = store_word 1 (memcpy zeros 0 data_in from n) n 0 in
    let trimmed = (leading_whitespace buf 0 n).0 in
    let len = strlen (n + 1) trimmed 0 in (memcpy model at trimmed 0 len, len)

-- The name of the disk: the vendor, and behind it the product.
unfoldable pub disk_model : Buffer → Buffer → Buffer
disk_model inquiry model =
    let vendor = copy_text inquiry 8 8 model 0 in (copy_text inquiry 16 16 vendor.0 vendor.1).0

-- The end of `SCSISetup`, on the answer to `SCSI_CMD_READ_CAPACITY`: the result, and the disk.
unfoldable pub take_capacity : Buffer → ScsiDisk → ℕ × ScsiDisk
take_capacity capacity disk =
    let sized = record disk { bs = u16 (reverse32 (load32 capacity 4)) } in
    if sized.bs == 512
    then (0, record sized { sct = u32 (reverse32 (load32 capacity 0) + 1) })
    else (2 ^ 32 - 1, sized)

-- `SCSISetup`: the result and the disk; `none` is that `SCSIWaitReady` takes more turns.
unfoldable pub scsi_setup :
    {W : Type 0} → ℕ → List ℕ → DiskDriver W → ScsiDisk → W → Option (ℕ × ScsiDisk × W)
scsi_setup start times drive disk w =
    let blank : DiskOperation = record {
      dat = zeros;
      cdb = zeros;
      lba = 0;
      bsz = 0;
      cnt = 0;
      cmd = 0;
    } in
    let ask = store_word 2 (clear_command zeros 0x12) 3 (reverse16 44) in
    let inquiry = execute_disk_operation drive (scsi_operation blank 1 ask 44) w in
    let named = record disk {
      model = disk_model inquiry.op.dat disk.model;
      rmv = inquiry.op.dat 1 / 128 % 2;
    } in
    if inquiry.code == ret_success
    then (if inquiry.op.dat 0 % 32 == 0
        then elim (scsi_wait_ready start times drive inquiry.op inquiry.world) [
          | none ↦ none
          | some ready ↦
              let capacity =
                execute_disk_operation drive
                  (scsi_operation ready.op 1 (clear_command zeros 0x25) 8) ready.world in
              if ready.code == 0
              then (if capacity.code == ret_success
                  then (let r = take_capacity capacity.op.dat named in
                      some (r.0, r.1, capacity.world))
                  else some (2 ^ 32 - 1, named, capacity.world))
              else some (2 ^ 32 - 1, named, ready.world)
        ]
        else some (2 ^ 32 - 1, named, inquiry.world))
    else some (inquiry.code, disk, inquiry.world)

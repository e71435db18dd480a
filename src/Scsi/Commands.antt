-- ===== src/Scsi/Commands.antt =====
-- The command blocks of reads and writes.
use strawberry_os.Prelude.{
  ℕ, ◌+◌, ◌*◌, ◌/◌, ◌%◌, ◌^◌, ◌<◌, ◌≡◌, ◌⊎◌, refl, ap, ◌∙◌, arith, inl, inr, ◌==◌, u32,
  if◌then◌else◌,
}
use strawberry_os.ByteOrder.{reverse16, reverse32}
use strawberry_os.ByteOrder.Bytes.{reverse32_bytes, four}
use strawberry_os.Disk.{Buffer, DiskOperation, cmd_read, cmd_write}
use strawberry_os.Scsi.{byte, scsi_setup_command, command_10}

-- The number of four bytes, and of two, the highest first.
abbrev pub big32 : Buffer → ℕ → ℕ
big32 a at = ((a at * 256 + a (at + 1)) * 256 + a (at + 2)) * 256 + a (at + 3)

abbrev pub big16 : Buffer → ℕ → ℕ
big16 a at = a at * 256 + a (at + 1)

reverse32-four :
    (x : ℕ)
    → x < 2 ^ 32
    → reverse32 x ≡ four (x / 2 ^ 24) (x / 2 ^ 16 % 256) (x / 2 ^ 8 % 256) (x % 256)
reverse32-four x h =
    let whole : x ≡ four (x % 256) (x / 2 ^ 8 % 256) (x / 2 ^ 16 % 256) (x / 2 ^ 24) =
      omega arith in
    ap reverse32 whole
    ∙ reverse32_bytes (x % 256) (x / 2 ^ 8 % 256) (x / 2 ^ 16 % 256) (x / 2 ^ 24) (omega arith)
        (omega arith) (omega arith) (omega arith)

bytes_four :
    (a b c d : ℕ)
    → a < 256
    → b < 256
    → c < 256
    → d < 256
    → (byte (four a b c d) 0 ≡ a)
      × (byte (four a b c d) 1 ≡ b)
      × (byte (four a b c d) 2 ≡ c)
      × (byte (four a b c d) 3 ≡ d)
bytes_four a b c d ha hb hc hd = (omega arith, omega arith, omega arith, omega arith)

bytes-reverse16 : (x : ℕ) → x < 2 ^ 16 → byte (reverse16 x) 0 * 256 + byte (reverse16 x) 1 ≡ x
unfolding reverse16
bytes-reverse16 x h = omega arith

-- The fields of a command block of 10 bytes.
pub record IsCommand (code lba count : ℕ) (cdb : Buffer) : Type 0 where
  pub opcode : cdb 0 ≡ code
  pub address : big32 cdb 2 ≡ lba
  pub length_field : big16 cdb 7 ≡ count
  pub others : (cdb 1 ≡ 0) × (cdb 6 ≡ 0) × (cdb 9 ≡ 0)

IsCommand-command_10 :
    (cdb : Buffer) (code lba count : ℕ)
    → code < 256
    → lba < 2 ^ 32
    → count < 2 ^ 16
    → IsCommand code lba count (command_10 cdb code lba count)
unfolding command_10
IsCommand-command_10 cdb code lba count hc hl hn =
    let small : u32 lba ≡ lba = omega arith in
    let b =
      bytes_four (lba / 2 ^ 24) (lba / 2 ^ 16 % 256) (lba / 2 ^ 8 % 256) (lba % 256) (omega arith)
        (omega arith) (omega arith) (omega arith) in
    record {
      opcode = omega arith;
      address = rw (small, reverse32-four lba hl) (rw (b.0, b.1, b.2, b.3) (omega arith));
      length_field = bytes-reverse16 count hn;
      others = (refl, refl, refl);
    }

-- `SCSISetupCommand` for a read or a write of a block below 2^32 returns the size of a block, and
-- its command block has the code of the command, and the block and the count of the request with
-- the highest byte first.
pub scsi_setup_command-IsCommand :
    (bs : ℕ) (op : DiskOperation) (cdb : Buffer) (maxcdb : ℕ)
    → op.lba < 2 ^ 32
    → op.cnt < 2 ^ 16
    → (op.cmd ≡ cmd_read) ⊎ (op.cmd ≡ cmd_write)
    → ((scsi_setup_command bs op cdb maxcdb).0 ≡ bs)
      × IsCommand
          (if op.cmd == cmd_read then 0x28 else 0x2A)
          op.lba
          op.cnt
          (scsi_setup_command bs op cdb maxcdb).1
unfolding scsi_setup_command
scsi_setup_command-IsCommand bs op cdb maxcdb hl hn (inl e) =
    rw e (refl, IsCommand-command_10 cdb 0x28 op.lba op.cnt (omega arith) hl hn)
scsi_setup_command-IsCommand bs op cdb maxcdb hl hn (inr e) =
    rw e (refl, IsCommand-command_10 cdb 0x2A op.lba op.cnt (omega arith) hl hn)

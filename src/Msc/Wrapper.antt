-- ===== src/Msc/Wrapper.antt =====
-- The command block wrapper of a read or a write.
use strawberry_os.Prelude.{
  ℕ, ◌+◌, ◌-◌, leb, ltb, ◌&&◌, true, ◌^◌, ◌<◌, ◌≡◌, ◌⊎◌, refl, ◌∙◌, arith, ◌==◌, if◌then◌else◌,
}
use strawberry_os.Disk.{Buffer, DiskOperation, cmd_read, cmd_write}
use strawberry_os.Scsi.{load32, zeros, scsi_setup_command}
use strawberry_os.Scsi.Commands.{IsCommand, scsi_setup_command-IsCommand}
use strawberry_os.Msc.{UsbDisk, wrapper, msc_dir}

-- A wrapper of a command of 10 bytes: its signature, the count of bytes, the direction, and the
-- command behind 15 bytes.
pub record IsWrapper (code lba count bytes dir : ℕ) (cbw : Buffer) : Type 0 where
  pub signature : load32 cbw 0 ≡ 0x43425355
  pub transfer_length : load32 cbw 8 ≡ bytes
  pub direction : cbw 12 ≡ dir
  pub command_length : cbw 14 ≡ 12
  pub command : IsCommand code lba count (λ k. cbw (15 + k))

wrapper_fields :
    (disk : UsbDisk) (op : DiskOperation) (bytes : ℕ)
    → bytes < 2 ^ 32
    → msc_dir op < 256
    → (load32 (wrapper disk op bytes) 0 ≡ 0x43425355)
      × (load32 (wrapper disk op bytes) 8 ≡ bytes)
      × (wrapper disk op bytes 12 ≡ msc_dir op)
      × (wrapper disk op bytes 14 ≡ 12)
unfolding wrapper
wrapper_fields disk op bytes h k = (refl, omega arith, omega arith, refl)

command-wrapper :
    (disk : UsbDisk) (op : DiskOperation) (bytes : ℕ) (k : ℕ)
    → k < 10
    → wrapper disk op bytes (15 + k) ≡ (scsi_setup_command disk.bs op zeros 12).1 k
unfolding wrapper
command-wrapper disk op bytes k h =
    let inner : (leb 15 (15 + k) && ltb (15 + k) 31) ≡ true = ground arith in
    let place : 0 + (15 + k - 15) ≡ k = omega arith in rw (inner, place) refl

-- Only the first ten bytes matter.
IsCommand-same :
    (code lba count : ℕ) (a b : Buffer)
    → ((k : ℕ) → k < 10 → a k ≡ b k)
    → IsCommand code lba count b
    → IsCommand code lba count a
IsCommand-same code lba count a b e v =
    let s = λ (k : ℕ) (h : k < 10). e k h in
    record {
      opcode = s 0 (omega arith) ∙ v.opcode;
      address =
          rw (s 2 (omega arith), s 3 (omega arith), s 4 (omega arith), s 5 (omega arith)) v.address;
      length_field = rw (s 7 (omega arith), s 8 (omega arith)) v.length_field;
      others = (
        s 1 (omega arith) ∙ v.others.0,
        s 6 (omega arith) ∙ v.others.1,
        s 9 (omega arith) ∙ v.others.2,
      );
    }

-- The command of a request.
abbrev pub code_of : ℕ → ℕ
code_of cmd = if cmd == cmd_read then 0x28 else 0x2A

pub IsWrapper-wrapper :
    (disk : UsbDisk) (op : DiskOperation) (bytes : ℕ)
    → bytes < 2 ^ 32
    → op.lba < 2 ^ 32
    → op.cnt < 2 ^ 16
    → (op.cmd ≡ cmd_read) ⊎ (op.cmd ≡ cmd_write)
    → IsWrapper (code_of op.cmd) op.lba op.cnt bytes (msc_dir op) (wrapper disk op bytes)
IsWrapper-wrapper disk op bytes hb hl hn c =
    let f = wrapper_fields disk op bytes hb (ground arith) in
    record {
      signature = f.0;
      transfer_length = f.1;
      direction = f.2;
      command_length = f.3;
      command =
          IsCommand-same (code_of op.cmd) op.lba op.cnt (λ k. wrapper disk op bytes (15 + k)) _
            (command-wrapper disk op bytes)
            (scsi_setup_command-IsCommand disk.bs op zeros 12 hl hn c).1;
    }

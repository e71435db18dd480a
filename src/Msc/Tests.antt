-- ===== src/Msc/Tests.antt =====
-- `OperationMSC` over a target in memory.
use strawberry_os.Prelude.{ℕ, ◌+◌, ◌*◌, ◌==◌, if◌then◌else◌}
use strawberry_os.Disk.{Buffer, memcpy}
use strawberry_os.Scsi.{zeros}
use strawberry_os.Scsi.Commands.{big32}
use strawberry_os.Msc.{Xfer, Moved, UsbDisk}

-- A target with the bytes of its disk and the command that it was sent last.
record Memory : Type 0 where
  bytes : Buffer
  opcode : ℕ
  lba : ℕ

abbrev data_phase : Buffer → ℕ → Memory → Moved Memory
data_phase buf len w =
    if w.opcode == 0x28
    then record { cc = 0; buf = λ k. w.bytes (w.lba * 512 + k); world = w }
    else record {
      cc = 0;
      buf = buf;
      world = record w { bytes = memcpy w.bytes (w.lba * 512) buf 0 len };
    }

abbrev memory_xfer : Xfer Memory
memory_xfer dir buf len w =
    if len == 31
    then record {
      cc = 0;
      buf = buf;
      world = record w { opcode = buf 15; lba = big32 (λ k. buf (15 + k)) 2 };
    }
    else (if len == 13 then record { cc = 0; buf = zeros; world = w } else data_phase buf len w)

abbrev stick : UsbDisk
stick = record { model = zeros; lun = 0; bs = 512 }

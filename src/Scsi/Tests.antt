-- ===== src/Scsi/Tests.antt =====
-- SCSI commands at concrete inputs.
use strawberry_os.Prelude.{ℕ, ◌≡◌, refl, [], ◌∷◌, some, inl, inr, arith, if◌then◌else◌, ◌==◌}
use strawberry_os.Disk.{
  Buffer, DiskOperation, DiskDriver, Outcome, cmd_read, default_disk_operation,
}
use strawberry_os.Strings.{strlen}
use strawberry_os.Scsi.{scsi_setup_command, scsi_wait_ready}
use strawberry_os.Scsi.Commands.{IsCommand, scsi_setup_command-IsCommand}
use strawberry_os.Scsi.Wait.{scsi_wait_ready_returns}

abbrev blank : Buffer
blank k = 0xFF

abbrev request : DiskOperation
request = record { dat = blank; cdb = blank; lba = 0x01020304; bsz = 0; cnt = 8; cmd = cmd_read }

scsi_setup_command-IsCommand_example :
    ((scsi_setup_command 512 request blank 16).0 ≡ 512)
    × IsCommand 0x28 0x01020304 8 (scsi_setup_command 512 request blank 16).1
scsi_setup_command-IsCommand_example =
    scsi_setup_command-IsCommand 512 request blank 16 (omega arith) (omega arith) (inl refl)

-- A device that knows no command.
abbrev dead : DiskDriver ℕ
dead = record { operate = default_disk_operation; sct = 0; bs = 0; id = 0 }

scsi_wait_ready_returns_example :
    (r : Outcome ℕ) × (scsi_wait_ready 100 (100 ∷ 900 ∷ 9000 ∷ []) dead request 0 ≡ some r)
scsi_wait_ready_returns_example =
    scsi_wait_ready_returns dead 100 (100 ∷ 900 ∷ 9000 ∷ []) request 0 (omega arith)
      (inr (inr (inl (omega arith))))

abbrev text : Buffer
text k = if k == 3 then 0 else 0x41

strlen_text : strlen 10 text 0 ≡ 3
unfolding strlen
strlen_text = refl

-- ===== src/Nvme/Tests.antt =====
-- The queues of a controller and the transfer of blocks at concrete inputs.
use strawberry_os.Prelude.{◌+◌, ◌*◌, ◌%◌, ◌^◌, ◌≡◌, ◌≢◌, refl, List, [], ◌∷◌, some, inl, arith, suc}
use strawberry_os.Disk.{Buffer, Transfer, diskrw, cmd_read, ret_success}
use strawberry_os.Nvme.{
  SubmissionQueue, SubmissionEntry, CompletionRing, zero_entry, nvme_waiting_cmd, nvme_configure_q,
  nvme_configure_cq, nvme_configure_sq, errcqe, NvmeNamespace, NvmeDevice, transfer_command,
}
use strawberry_os.Nvme.Commands.{IsServing, nvme_waiting_cmd-IsServing, nvme_waiting_cmd_timeout}
use strawberry_os.Nvme.Blocks.{transfer_command_fields, diskrw-operation_nvme, nvme_drive}

-- Queues of 4 places as they are configured, at the start.
abbrev fresh : SubmissionQueue
fresh = nvme_configure_sq 0x1000 4 0 4 (nvme_configure_cq 0x1000 4 1 4)

fresh-IsServing : IsServing 0 fresh
unfolding nvme_configure_sq nvme_configure_cq nvme_configure_q
fresh-IsServing = record {
  two_places = omega arith;
  word = omega arith;
  head = refl;
  tail = refl;
  completions = record { two_places = omega arith; word = omega arith; place = refl; phase = refl };
}

-- A completion of the first command, and none.
abbrev done : CompletionRing
done i = record { dw0 = 0; dw1 = 0; qhd = 1; qid = 0; cid = 0; sts = 1 }

abbrev idle : CompletionRing
idle i = record { dw0 = 0; dw1 = 0; qhd = 0; qid = 0; cid = 0; sts = 0 }

-- The same queues behind 5 commands, on the second round of both rings: place 1, phase 0.
abbrev busy : SubmissionQueue
busy = record fresh {
  common = record fresh.common { had = 1; tal = 1 };
  icq = record fresh.icq { had = 1; pha = 0 };
}

busy-IsServing : IsServing 5 busy
unfolding nvme_configure_sq nvme_configure_cq nvme_configure_q
busy-IsServing = record {
  two_places = omega arith;
  word = omega arith;
  head = refl;
  tail = refl;
  completions = record { two_places = omega arith; word = omega arith; place = refl; phase = refl };
}

-- A read, the completion of the command before it, and its own.
abbrev read_entry : SubmissionEntry
read_entry = record zero_entry { cdw0 = 2; nsid = 1 }

abbrev older : CompletionRing
older i = record { dw0 = 0; dw1 = 0; qhd = 1; qid = 0; cid = 0; sts = 1 }

abbrev newer : CompletionRing
newer i = record { dw0 = 0; dw1 = 0; qhd = 2; qid = 0; cid = 1; sts = 0 }

nvme_waiting_cmd-IsServing_example :
    ((nvme_waiting_cmd busy read_entry (older ∷ newer ∷ [])).0 ≡ newer 1)
    × IsServing 6 (nvme_waiting_cmd busy read_entry (older ∷ newer ∷ [])).1
    × ((nvme_waiting_cmd busy read_entry (older ∷ newer ∷ [])).1.common.rung ≡ 2)
    × ((nvme_waiting_cmd busy read_entry (older ∷ newer ∷ [])).1.sqe 1
        ≡ record read_entry { cdw0 = 0x00010002 })
unfolding nvme_configure_sq nvme_configure_cq nvme_configure_q
nvme_waiting_cmd-IsServing_example =
    nvme_waiting_cmd-IsServing 5 busy read_entry (older ∷ []) newer [] busy-IsServing (omega arith)
      (omega arith, tt) refl refl

nvme_waiting_cmd_timeout_example :
    ((nvme_waiting_cmd fresh zero_entry (idle ∷ [])).0 ≡ errcqe)
    × ((later : SubmissionEntry) (polls : List CompletionRing)
        → nvme_waiting_cmd (nvme_waiting_cmd fresh zero_entry (idle ∷ [])).1 later polls
          ≡ (errcqe, (nvme_waiting_cmd fresh zero_entry (idle ∷ [])).1))
unfolding nvme_configure_sq nvme_configure_cq nvme_configure_q
nvme_waiting_cmd_timeout_example =
    nvme_waiting_cmd_timeout 0 fresh zero_entry (idle ∷ []) fresh-IsServing (omega arith, tt)

abbrev namespace_512 : NvmeNamespace
namespace_512 = record { nsid = 1; bsz = 512; mxrs = 256 }

transfer_command_fields_example :
    ((transfer_command namespace_512 0x9000 0x500000007 8 0).cdwa
        + (transfer_command namespace_512 0x9000 0x500000007 8 0).cdwb * 2 ^ 32
      ≡ 0x500000007)
    × ((transfer_command namespace_512 0x9000 0x500000007 8 0).cdwc % 2 ^ 16 + 1 ≡ 8)
    × ((transfer_command namespace_512 0x9000 0x500000007 8 0).nsid ≡ 1)
transfer_command_fields_example =
    transfer_command_fields namespace_512 0x9000 0x500000007 8 0 (omega arith) (omega arith)
      (omega arith)

abbrev blank : Buffer
blank k = 0

-- A controller that answers.
abbrev device : NvmeDevice
device = record {
  ser = blank;
  model = blank;
  physical_mapping = λ x. x;
  buf_addr = 0x7000;
  polls = λ op sq. done ∷ [];
  filled = λ op sq k. 7;
}

diskrw-operation_nvme_example :
    (t : Transfer SubmissionQueue) × (diskrw
        (suc 4)
        (nvme_drive namespace_512 device 100 0)
        blank
        0
        1
        cmd_read
        blank
        fresh
      ≡ some t)
    × (t.code ≢ ret_success)
    × (t.buf ≡ blank)
diskrw-operation_nvme_example =
    diskrw-operation_nvme 4 namespace_512 device 100 0 blank blank 0 1 cmd_read fresh (inl refl)
      (omega arith)

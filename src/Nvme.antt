-- ===== src/Nvme.antt =====
-- KERNEL/SOURCE/device/nvme.c and KERNEL/HEADER/device/nvme.h: the queues of an NVMe controller and
-- the transfer of blocks.
--
-- The controller writes its completions into memory while the driver polls it. What the driver sees
-- is an argument of the operations: the contents of the completion ring at each poll, up to the poll
-- after which `TimestampCPU` has passed the limit. A submission queue has its completion queue as a
-- field, which no other queue shares. The doorbell is the last value that was written to it.
pub mod Commands
pub mod Phase
pub mod Blocks
mod Tests
use strawberry_os.Prelude.{
  ℕ, zero, suc, ◌+◌, ◌-◌, ◌*◌, ◌/◌, ◌%◌, ◌^◌, Option, none, some, Bool, List, [], ◌∷◌, ltb, leb,
  ◌==◌, if◌then◌else◌, u16, u32, u64, bit_or,
}
use strawberry_os.Disk.{
  Buffer, memcpy, DiskOperation, Outcome, default_disk_operation, cmd_identify, cmd_read, cmd_write,
  ret_success, ret_ebadtrack,
}

-- `NVME_SUBMISSION_QUEUE_ENTRY`
pub record SubmissionEntry : Type 0 where
  pub cdw0 : ℕ
  pub nsid : ℕ
  pub cdw2 : ℕ
  pub cdw3 : ℕ
  pub meta : ℕ
  pub data0 : ℕ
  pub data1 : ℕ
  pub cdwa : ℕ
  pub cdwb : ℕ
  pub cdwc : ℕ
  pub cdwd : ℕ
  pub cdwe : ℕ
  pub cdwf : ℕ

-- `NVME_COMPLETION_QUEUE_ENTRY`
pub record CompletionEntry : Type 0 where
  pub dw0 : ℕ
  pub dw1 : ℕ
  pub qhd : ℕ
  pub qid : ℕ
  pub cid : ℕ
  pub sts : ℕ

-- `NVME_QUEUE_COMMON`, with the address of the doorbell and the word last written there.
pub record QueueCommon : Type 0 where
  pub dbl : ℕ
  pub rung : ℕ
  pub msk : ℕ
  pub had : ℕ
  pub tal : ℕ
  pub pha : ℕ

-- `NVME_SUBMISSION_QUEUE`, with the place of its completion queue `ICQ`.
pub record SubmissionQueue : Type 0 where
  pub common : QueueCommon
  pub sqe : ℕ → SubmissionEntry
  pub icq : QueueCommon

-- The contents of a ring of completions.
abbrev pub CompletionRing : Type 0
CompletionRing = ℕ → CompletionEntry

-- `NVMEConfigureQ`: `cap` is the address of the registers and `dst` the doorbell stride.
unfoldable pub nvme_configure_q : ℕ → ℕ → ℕ → ℕ → QueueCommon
nvme_configure_q cap dst idx len = record {
  dbl = u64 (cap + 0x1000 + idx * dst);
  rung = 0;
  msk = u16 (len + 2 ^ 32 - 1);
  had = 0;
  tal = 0;
  pha = 0;
}

-- `NVMEConfigureCQ`, but for its page.
unfoldable pub nvme_configure_cq : ℕ → ℕ → ℕ → ℕ → QueueCommon
nvme_configure_cq cap dst idx len = record (nvme_configure_q cap dst idx len) {
  had = 0;
  tal = 0;
  pha = 1;
}

-- An entry of a page that was cleared.
abbrev pub zero_entry : SubmissionEntry
zero_entry = record {
  cdw0 = 0;
  nsid = 0;
  cdw2 = 0;
  cdw3 = 0;
  meta = 0;
  data0 = 0;
  data1 = 0;
  cdwa = 0;
  cdwb = 0;
  cdwc = 0;
  cdwd = 0;
  cdwe = 0;
  cdwf = 0;
}

-- `NVMEConfigureSQ`, but for its page, and `ICQ`, which its callers set.
unfoldable pub nvme_configure_sq : ℕ → ℕ → ℕ → ℕ → QueueCommon → SubmissionQueue
nvme_configure_sq cap dst idx len icq = record {
  common = record (nvme_configure_q cap dst idx len) { had = 0; tal = 0; pha = 0 };
  sqe = λ _. zero_entry;
  icq = icq;
}

-- `errcqe`: every byte is 0xFF.
abbrev pub errcqe : CompletionEntry
errcqe = record {
  dw0 = 0xFFFFFFFF;
  dw1 = 0xFFFFFFFF;
  qhd = 0xFFFF;
  qid = 0xFFFF;
  cid = 0xFFFF;
  sts = 0xFFFF;
}

-- `sq->COM.MSK + 1ULL`
abbrev pub entries : QueueCommon → ℕ
entries common = common.msk + 1

-- The test for a full queue.
abbrev pub is_full : QueueCommon → Bool
is_full common = (common.had + 1) % entries common == common.tal

-- `sqe->CDW0 |= TAL << 16`
abbrev pub with_id : SubmissionEntry → ℕ → SubmissionEntry
with_id e tal = record e { cdw0 = u32 (bit_or e.cdw0 (tal * 2 ^ 16)) }

-- "Commit" and "Doorbell"
unfoldable pub submit : SubmissionQueue → SubmissionEntry → SubmissionQueue
submit sq e =
    let tal = u16 (sq.common.tal + 1) % entries sq.common in
    record sq {
      sqe = λ i. if i == sq.common.tal then with_id e sq.common.tal else sq.sqe i;
      common = record sq.common { tal = tal; rung = tal };
    }

-- "Check completion": the first of the contents whose entry at `HAD` has the phase `PHA`.
unfoldable pub await_completion : QueueCommon → List CompletionRing → Option CompletionEntry
await_completion cq [] = none
await_completion cq (ring ∷ polls) =
    if (ring cq.had).sts % 2 == cq.pha then some (ring cq.had) else await_completion cq polls

-- `x ^ 1`
abbrev pub flip : ℕ → ℕ
flip x = if x % 2 == 0 then x + 1 else x - 1

-- "Consume CQE": the next place of the completion queue, and its phase.
unfoldable pub consume : QueueCommon → QueueCommon
consume cq =
    let next = u16 ((cq.had + 1) % entries cq) in
    record cq { had = next; rung = next; pha = if ltb next cq.had then flip cq.pha else cq.pha }

-- `NVMEWaitingCMD`
unfoldable pub nvme_waiting_cmd :
    SubmissionQueue → SubmissionEntry → List CompletionRing → CompletionEntry × SubmissionQueue
nvme_waiting_cmd sq e polls =
    if is_full sq.common
    then (errcqe, sq)
    else (let sent = submit sq e in
        elim (await_completion sq.icq polls) [
          | none ↦ (errcqe, sent)
          | some cqe ↦ (
            cqe,
            record sent { icq = consume sq.icq; common = record sent.common { had = cqe.qhd } },
          )
        ])

-- What the transfer uses of `NVME_NAMESPACE`.
pub record NvmeNamespace : Type 0 where
  pub nsid : ℕ
  pub bsz : ℕ
  pub mxrs : ℕ

-- The count of blocks that one command moves.
unfoldable pub clip_count : NvmeNamespace → ℕ → ℕ → ℕ
clip_count ns buf_addr count =
    let max_count = u32 (4096 / ns.bsz + 2 ^ 64 - buf_addr % 4096 / ns.bsz) in
    let count1 = if ltb max_count count then max_count else count in
    if ltb ns.mxrs count1 then ns.mxrs else count1

-- The command of `NVMETransfer`: `physical` is the address that `physical_mapping` gives.
unfoldable pub transfer_command : NvmeNamespace → ℕ → ℕ → ℕ → ℕ → SubmissionEntry
transfer_command ns physical lba count write = record zero_entry {
  cdw0 = if write == 0 then 2 else 1;
  data0 = physical;
  nsid = ns.nsid;
  cdwa = u32 lba;
  cdwb = u32 (lba / 2 ^ 32);
  cdwc = 2 ^ 31 + (count + 2 ^ 32 - 1) % 2 ^ 16;
}

-- `NVMETransfer`; -1 is `2 ^ 32 - 1`.
unfoldable pub nvme_transfer :
    SubmissionQueue
    → NvmeNamespace
    → (ℕ → ℕ)
    → ℕ
    → ℕ
    → ℕ
    → ℕ
    → List CompletionRing
    → ℕ × SubmissionQueue
nvme_transfer sq ns physical_mapping buf_addr lba count write polls =
    if count == 0
    then (0, sq)
    else (let n = clip_count ns buf_addr count in
        let r =
          nvme_waiting_cmd sq (transfer_command ns (physical_mapping buf_addr) lba n write) polls in
        (if (r.0).sts / 2 % 2 ^ 8 == 0 then n else 2 ^ 32 - 1, r.1))

-- What `OperationNVME` uses of the controller and of the rest: the serial number and the model of
-- the identification, the page tables, the address of the buffer, and what the controller does with
-- a command: what the driver sees in the completion ring, and what the buffer holds then.
pub record NvmeDevice : Type 0 where
  pub ser : Buffer
  pub model : Buffer
  pub physical_mapping : ℕ → ℕ
  pub buf_addr : ℕ
  pub polls : DiskOperation → SubmissionQueue → List CompletionRing
  pub filled : DiskOperation → SubmissionQueue → Buffer

-- The `DISK_IDENTIFY` of a controller, in a buffer.
abbrev pub identify_into : NvmeDevice → Buffer → Buffer
identify_into dev dat =
    memcpy (memcpy (memcpy dat 0 (λ _. 0) 0 0x60) 0 dev.ser 0 0x14) 0x30 dev.model 0 0x28

-- `CMD_READ` and `CMD_WRITE` of `OperationNVME`: a transfer that fails leaves the switch, and one
-- that succeeds falls through to `default`.
unfoldable pub operation_nvme_rw :
    NvmeNamespace → NvmeDevice → DiskOperation → SubmissionQueue → Outcome SubmissionQueue
operation_nvme_rw ns dev op sq =
    let op1 = if ltb (4096 / ns.bsz) op.cnt then record op { cnt = 4096 / ns.bsz } else op in
    let r =
      nvme_transfer sq ns dev.physical_mapping dev.buf_addr op1.lba op1.cnt
        (if op1.cmd == cmd_write then 1 else 0) (dev.polls op1 sq) in
    let op2 = record op1 { dat = dev.filled op1 sq } in
    if leb (2 ^ 31) r.0
    then record { code = ret_ebadtrack; op = record op2 { cnt = 0 }; world = r.1 }
    else default_disk_operation op2 r.1

-- `OperationNVME`
unfoldable pub operation_nvme :
    NvmeNamespace → NvmeDevice → DiskOperation → SubmissionQueue → Outcome SubmissionQueue
operation_nvme ns dev op sq =
    if op.cmd == cmd_identify
    then record {
      code = ret_success;
      op = record op { cnt = 1; dat = identify_into dev op.dat };
      world = sq;
    }
    else (if op.cmd == cmd_read
        then operation_nvme_rw ns dev op sq
        else (if op.cmd == cmd_write
            then operation_nvme_rw ns dev op sq
            else default_disk_operation op sq))

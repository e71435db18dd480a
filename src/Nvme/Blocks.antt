-- ===== src/Nvme/Blocks.antt =====
-- The blocks that `NVMETransfer` moves with one command, and `OperationNVME`.
use native.Mathlib.Nat.{mul-div_left, mul-le-mul, add-mul, lt_of_mul-lt-mul_right, mul-zero}
use strawberry_os.Prelude.{
  ℕ, zero, suc, ◌+◌, ◌-◌, ◌*◌, ◌/◌, ◌%◌, ◌^◌, ◌<◌, ◌≤◌, ◌≡◌, ◌≢◌, ◌⊎◌, refl, sym, ◌∙◌, arith, ltb,
  leb, ◌==◌, if◌then◌else◌, u16, u32, some, inl, inr, true, false, Bool-cases,
}
use strawberry_os.Disk.{
  Buffer, DiskDriver, DiskOperation, Outcome, Transfer, default_disk_operation,
  execute_disk_operation, diskrw, exceeds, current_operation, is_ignored, cmd_read, cmd_write,
  cmd_identify, ret_success, ret_ebadtrack,
}
use strawberry_os.Disk.Refused.{rounds_failed, diskrw_other}
use strawberry_os.Nvme.{
  NvmeNamespace, NvmeDevice, SubmissionQueue, clip_count, transfer_command, operation_nvme_rw,
  operation_nvme,
}

pos_factor : (bsz k : ℕ) → k * bsz ≡ 4096 → 0 < bsz
pos_factor zero k e = absurd (omega (arith, mul-zero k))
pos_factor (suc bsz) k e = omega arith

-- The blocks of a page, and the place of a buffer that begins at one of them.
block_place :
    (bsz k j off : ℕ)
    → k * bsz ≡ 4096
    → off ≡ j * bsz
    → off < 4096
    → (0 < bsz) × (4096 / bsz ≡ k) × (off / bsz ≡ j) × (j < k)
block_place bsz k j off page place inside =
    let some_bytes : 0 < bsz = pos_factor bsz k page in
    let below : j * bsz < k * bsz = omega arith in
    (
      some_bytes,
      rw (← page) (mul-div_left k some_bytes),
      rw place (mul-div_left j some_bytes),
      lt_of_mul-lt-mul_right bsz below,
    )

-- Places of a page that `c` blocks behind the first `j` leave free.
blocks_end : (bsz k j c : ℕ) → k * bsz ≡ 4096 → c ≤ k - j → j < k → j * bsz + c * bsz ≤ 4096
blocks_end bsz k j c page le lt =
    let e : j * bsz + c * bsz ≡ (j + c) * bsz = sym (add-mul j c bsz) in
    let m : (j + c) * bsz ≤ k * bsz = mul-le-mul (omega arith) (omega arith) in omega arith

-- The count of the code, with its divisions done.
abbrev clipped : ℕ → ℕ → ℕ → ℕ
clipped room count most =
    let count1 = if ltb room count then room else count in if ltb most count1 then most else count1

clipped_bounds :
    (room count most : ℕ)
    → 0 < room
    → 0 < count
    → 0 < most
    → (0 < clipped room count most)
      × (clipped room count most ≤ count)
      × (clipped room count most ≤ most)
      × (clipped room count most ≤ room)
clipped_bounds room count most a b c = (ground arith, ground arith, ground arith, ground arith)

-- The count that one command moves is not 0, at most the count that is asked for and the greatest
-- transfer of the controller, and its blocks end in the page of the buffer's address, for a size of
-- blocks that divides the page and a buffer that begins at a block of its page.
clip_count_bounds :
    (ns : NvmeNamespace) (buf_addr count k j : ℕ)
    → k * ns.bsz ≡ 4096
    → buf_addr % 4096 ≡ j * ns.bsz
    → 0 < count
    → 0 < ns.mxrs
    → (0 < clip_count ns buf_addr count)
      × (clip_count ns buf_addr count ≤ count)
      × (clip_count ns buf_addr count ≤ ns.mxrs)
      × (buf_addr % 4096 + clip_count ns buf_addr count * ns.bsz ≤ 4096)
unfolding clip_count
clip_count_bounds ns buf_addr count k j page place asked some_blocks =
    let b = block_place ns.bsz k j (buf_addr % 4096) page place (omega arith) in
    let some_bytes = b.0 in
    let fewer : k * 1 ≤ k * ns.bsz = mul-le-mul (omega arith) (omega arith) in
    let room : u32 (4096 / ns.bsz + 2 ^ 64 - buf_addr % 4096 / ns.bsz) ≡ k - j =
      rw (b.1, b.2) (omega (arith, b.3)) in
    let c = clipped_bounds (k - j) count ns.mxrs (omega (arith, b.3)) asked some_blocks in
    rw (room, place) (c.0, c.1, c.2, blocks_end ns.bsz k j _ page c.3 b.3)

-- A command says the number of its first block and its count of blocks.
pub transfer_command_fields :
    (ns : NvmeNamespace) (physical lba count write : ℕ)
    → lba < 2 ^ 64
    → 0 < count
    → count ≤ 2 ^ 16
    → ((transfer_command ns physical lba count write).cdwa
          + (transfer_command ns physical lba count write).cdwb * 2 ^ 32
        ≡ lba)
      × ((transfer_command ns physical lba count write).cdwc % 2 ^ 16 + 1 ≡ count)
      × ((transfer_command ns physical lba count write).nsid ≡ ns.nsid)
unfolding transfer_command
transfer_command_fields ns physical lba count write h some_blocks k =
    (omega arith, omega arith, refl)

-- A request to read or write.
abbrev IsTransfer : ℕ → Type 0
IsTransfer cmd = (cmd ≡ cmd_read) ⊎ (cmd ≡ cmd_write)

abbrev IsFailed : Outcome SubmissionQueue → Type 0
IsFailed out = (out.code ≢ ret_success) × (out.op.cnt ≡ 0)

not_ignored : (cmd : ℕ) → IsTransfer cmd → is_ignored cmd ≡ false
not_ignored cmd (inl e) = rw e refl
not_ignored cmd (inr e) = rw e refl

default_fails :
    (op : DiskOperation) (sq : SubmissionQueue)
    → IsTransfer op.cmd
    → IsFailed (default_disk_operation op sq)
unfolding default_disk_operation
default_fails op sq c = rw (not_ignored op.cmd c) (omega arith, refl)

-- The end of the case, for any answer.
end_fails :
    (n : ℕ) (op : DiskOperation) (sq : SubmissionQueue)
    → IsTransfer op.cmd
    → IsFailed (
        if leb (2 ^ 31) n
        then record { code = ret_ebadtrack; op = record op { cnt = 0 }; world = sq }
        else default_disk_operation op sq)
end_fails n op sq c = elim (Bool-cases (leb (2 ^ 31) n)) [
  | inl y ↦ rw y (omega arith, refl)
  | inr g ↦ rw g (default_fails op sq c)
]

operation_nvme_rw_fails :
    (ns : NvmeNamespace) (dev : NvmeDevice) (op : DiskOperation) (sq : SubmissionQueue)
    → IsTransfer op.cmd
    → IsFailed (operation_nvme_rw ns dev op sq)
unfolding operation_nvme_rw
operation_nvme_rw_fails ns dev op sq c = elim (Bool-cases (ltb (4096 / ns.bsz) op.cnt)) [
  | inl y ↦ rw y (end_fails _ _ _ c)
  | inr g ↦ rw g (end_fails _ _ _ c)
]

operation_nvme_fails :
    (ns : NvmeNamespace) (dev : NvmeDevice) (op : DiskOperation) (sq : SubmissionQueue)
    → IsTransfer op.cmd
    → IsFailed (operation_nvme ns dev op sq)
unfolding operation_nvme
operation_nvme_fails ns dev op sq (inl e) =
    let c0 : (op.cmd == cmd_identify) ≡ false = rw e refl in
    let c1 : (op.cmd == cmd_read) ≡ true = rw e refl in
    rw (c0, c1) (operation_nvme_rw_fails ns dev op sq (inl e))
operation_nvme_fails ns dev op sq (inr e) =
    let c0 : (op.cmd == cmd_identify) ≡ false = rw e refl in
    let c1 : (op.cmd == cmd_read) ≡ false = rw e refl in
    let c2 : (op.cmd == cmd_write) ≡ true = rw e refl in
    rw (c0, c1, c2) (operation_nvme_rw_fails ns dev op sq (inr e))

-- The drive that `ConfigureNVME` links for a namespace.
abbrev pub nvme_drive : NvmeNamespace → NvmeDevice → ℕ → ℕ → DiskDriver SubmissionQueue
nvme_drive ns dev sct id = record {
  operate = operation_nvme ns dev;
  sct = sct;
  bs = u16 ns.bsz;
  id = id;
}

execute_fails :
    (ns : NvmeNamespace) (dev : NvmeDevice) (sct id : ℕ) (op : DiskOperation) (sq : SubmissionQueue)
    → IsTransfer op.cmd
    → (execute_disk_operation (nvme_drive ns dev sct id) op sq).code ≢ ret_success
unfolding execute_disk_operation
execute_fails ns dev sct id op sq c = elim (Bool-cases (exceeds op.cnt (u16 ns.bsz))) [
  | inl y ↦ rw y (omega arith)
  | inr g ↦ rw g ((operation_nvme_fails ns dev op sq c).0)
]

IsTransfer-current :
    (buf page : Buffer) (lba count cmd : ℕ)
    → IsTransfer cmd
    → IsTransfer (current_operation buf page lba count cmd 0).cmd
unfolding current_operation
IsTransfer-current buf page lba count cmd c = c

not_identify : (cmd : ℕ) → IsTransfer cmd → (cmd == cmd_identify) ≡ false
not_identify cmd (inl e) = rw e refl
not_identify cmd (inr e) = rw e refl

-- `DISKRW` on a namespace, of a count that is not 0, never reads and never writes with success: the
-- first request returns an error, also where the controller moved its blocks, since the case of
-- `OperationNVME` falls through to the default; the caller's buffer is unchanged.
pub diskrw-operation_nvme :
    (fuel : ℕ) (ns : NvmeNamespace) (dev : NvmeDevice) (sct id : ℕ) (buf page : Buffer)
    (lba count cmd : ℕ) (sq : SubmissionQueue)
    → IsTransfer cmd
    → 0 < count
    → (t : Transfer SubmissionQueue) × (diskrw
          (suc fuel)
          (nvme_drive ns dev sct id)
          buf
          lba
          count
          cmd
          page
          sq
        ≡ some t)
      × (t.code ≢ ret_success)
      × (t.buf ≡ buf)
diskrw-operation_nvme fuel ns dev sct id buf page lba count cmd sq c some_blocks =
    let drive = nvme_drive ns dev sct id in
    let other : (cmd == cmd_identify) ≡ false = not_identify cmd c in
    let f =
      execute_fails ns dev sct id (current_operation buf page lba count cmd 0) sq
        (IsTransfer-current buf page lba count cmd c) in
    let r = rounds_failed fuel drive lba count cmd buf page sq some_blocks f in
    (r.0, diskrw_other fuel drive lba count cmd buf page sq other ∙ r.1, r.2, r.3)

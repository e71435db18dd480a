-- ===== src/Disk/Rounds.antt =====
-- The loop of `DISKRW` over a drive of sectors.
use strawberry_os.Prelude.{
  ℕ, zero, suc, ◌+◌, ◌-◌, ◌*◌, ◌^◌, ◌≤◌, ◌<◌, ◌≡◌, refl, sym, ap, ◌∙◌, some, arith, ltb, false, u16,
  Bool-cases, inl, inr, ltb→lt, ltb_false→le,
}
use strawberry_os.Disk.{
  Buffer, memcpy, DiskDriver, DiskOperation, Transfer, execute_disk_operation, current_operation,
  copied_back, diskrw_rounds, diskrw, cmd_read, cmd_write, ret_success, current_count, exceeds,
}
use strawberry_os.Disk.Sectors.{SectorDrive, IsRequest}
use strawberry_os.Disk.Copy.{memcpy_in, memcpy_below, memcpy_above, memcpy_nothing, within, join}

copied_back-read :
    (buf : Buffer) (op : DiskOperation) (i k : ℕ)
    → copied_back buf op cmd_read i k ≡ memcpy buf (i * 512) op.dat 0 (op.cnt * 512) k
unfolding copied_back
copied_back-read buf op i k = refl

-- The buffer `d` from sector `i` to sector `to` holds the disk, and is as `buf` elsewhere.
abbrev pub IsFilled : Buffer → Buffer → ℕ → ℕ → ℕ → Buffer → Type 0
IsFilled disk buf lba i to d =
    (k : ℕ) → d k ≡ memcpy buf (i * 512) disk ((lba + i) * 512) ((to - i) * 512) k

-- What a write of the sectors from `i` to `to` leaves of the disk `disk`.
record IsWritten {W : Type 0} (bytes : W → Buffer) (disk buf : Buffer) (lba i to : ℕ)
    (t : Transfer W) : Type 0 where
  success : t.code ≡ ret_success
  filled :
      (k : ℕ) → bytes t.world k ≡ memcpy disk ((lba + i) * 512) buf (i * 512) ((to - i) * 512) k
  same : t.buf ≡ buf

record IsRead {W : Type 0} (bytes : W → Buffer) (disk buf : Buffer) (lba i to : ℕ) (t : Transfer W)
    : Type 0 where
  success : t.code ≡ ret_success
  filled : IsFilled disk buf lba i to t.buf
  kept : (k : ℕ) → bytes t.world k ≡ disk k

module _ {W : Type 0} (drive : DiskDriver W) (bytes : W → Buffer)
    (sectors : SectorDrive drive bytes) where
  small_request :
      (op : DiskOperation) (w : W)
      → op.cnt ≤ 8
      → execute_disk_operation drive op w ≡ drive.operate op w
  unfolding execute_disk_operation
  small_request op w h =
      let e : exceeds op.cnt drive.bs ≡ false = rw sectors.size_512 (ground arith) in rw e refl

  module _ (lba count : ℕ) (on_disk : lba + count ≤ drive.sct)
      (addressed : drive.sct ≤ 2 ^ 64) where
    IsRequest-current_operation :
        (buf page : Buffer) (cmd i : ℕ)
        → i < count
        → IsRequest cmd drive.sct (current_operation buf page lba count cmd i)
    unfolding current_operation
    IsRequest-current_operation buf page cmd i h = record {
      command = refl;
      some_sectors = ground arith;
      one_page = ground arith;
      on_disk = ground arith;
    }

    current_operation_lem :
        (buf page : Buffer) (cmd i : ℕ)
        → i < count
        → ((current_operation buf page lba count cmd i).lba ≡ lba + i)
          × ((current_operation buf page lba count cmd i).cnt ≤ count - i)
          × ((current_operation buf page lba count cmd i).cnt ≤ 8)
    unfolding current_operation
    current_operation_lem buf page cmd i h = (omega arith, ground arith, ground arith)

    fetch_rounds :
        (fuel : ℕ) (i : ℕ) (buf page disk : Buffer) (w : W)
        → i ≤ count
        → count < 2 ^ 16
        → count - i < fuel
        → ((k : ℕ) → bytes w k ≡ disk k)
        → (t : Transfer W) × (diskrw_rounds fuel drive lba count cmd_read i buf page w ≡ some t)
          × IsRead bytes disk buf lba i count t
    unfolding diskrw_rounds
    fetch_rounds zero i buf page disk w le word more same = absurd (omega arith)
    fetch_rounds (suc fuel) i buf page disk w le word more same = elim (Bool-cases (ltb i count)) [
      | inr n ↦ rw n (
        _,
        refl,
        record {
          success = refl;
          filled = λ k. sym (
              memcpy_nothing buf disk (i * 512) ((lba + i) * 512) ((count - i) * 512) k
                (omega (arith, ltb_false→le i count n)));
          kept = same;
        },
      )
      | inl y ↦
          let lt = ltb→lt i count y in
          let op = current_operation buf page lba count cmd_read i in
          let req = IsRequest-current_operation buf page cmd_read i lt in
          let facts = current_operation_lem buf page cmd_read i lt in
          let out = drive.operate op w in
          let served = sectors.read_served op w req in
          let n = out.op.cnt in
          let next : u16 (i + n) ≡ i + n = omega (arith, served.at_most, facts.1) in
          let rest =
            fetch_rounds fuel (i + n) (copied_back buf out.op cmd_read i) out.op.dat disk out.world
              (omega (arith, served.at_most, facts.1)) word (omega (arith, served.progress))
              (λ k. sectors.read_keeps op w req k ∙ same k) in
          rw (y, small_request op w facts.2, served.success, next)
            (
              rest.0,
              rest.1,
              record {
                success = rest.2.success;
                filled = λ k.
                    rest.2.filled k
                    ∙ join buf (copied_back buf out.op cmd_read i) disk out.op.dat i (lba + i) n
                        (count - (i + n)) k (omega arith) (omega arith)
                        (omega (arith, served.at_most, facts.1))
                        (λ j h.
                          sectors.read_bytes op w req j h
                          ∙ (same (op.lba * 512 + j) ∙ ap (λ b. disk (b * 512 + j)) facts.0))
                        (copied_back-read buf out.op i k);
                kept = rest.2.kept;
              },
            )
    ]

    write_page :
        (buf page : Buffer) (i j : ℕ)
        → j < (current_operation buf page lba count cmd_write i).cnt * 512
        → (current_operation buf page lba count cmd_write i).dat j ≡ buf (i * 512 + j)
    unfolding current_operation
    write_page buf page i j h =
        memcpy_in page buf 0 (i * 512) (current_count count i * 512) j (omega arith)
          (omega (arith, h))
        ∙ ap (λ x. buf (i * 512 + x)) (omega arith)

    copied_back-write :
        (buf : Buffer) (op : DiskOperation) (i : ℕ) → copied_back buf op cmd_write i ≡ buf
    unfolding copied_back
    copied_back-write buf op i = refl

    write_rounds :
        (fuel : ℕ) (i : ℕ) (buf page : Buffer) (w : W)
        → i ≤ count
        → count < 2 ^ 16
        → count - i < fuel
        → (t : Transfer W) × (diskrw_rounds fuel drive lba count cmd_write i buf page w ≡ some t)
          × IsWritten bytes (bytes w) buf lba i count t
    unfolding diskrw_rounds
    write_rounds zero i buf page w le word more = absurd (omega arith)
    write_rounds (suc fuel) i buf page w le word more = elim (Bool-cases (ltb i count)) [
      | inr n ↦ rw n (
        _,
        refl,
        record {
          success = refl;
          filled = λ k. sym (
              memcpy_nothing (bytes w) buf ((lba + i) * 512) (i * 512) ((count - i) * 512) k
                (omega (arith, ltb_false→le i count n)));
          same = refl;
        },
      )
      | inl y ↦
          let lt = ltb→lt i count y in
          let op = current_operation buf page lba count cmd_write i in
          let req = IsRequest-current_operation buf page cmd_write i lt in
          let facts = current_operation_lem buf page cmd_write i lt in
          let out = drive.operate op w in
          let served = sectors.write_served op w req in
          let n = out.op.cnt in
          let next : u16 (i + n) ≡ i + n = omega (arith, served.at_most, facts.1) in
          let rest =
            write_rounds fuel (i + n) buf out.op.dat out.world
              (omega (arith, served.at_most, facts.1)) word (omega (arith, served.progress)) in
          rw (y, small_request op w facts.2, served.success, next, copied_back-write buf out.op i)
            (
              rest.0,
              rest.1,
              record {
                success = rest.2.success;
                filled = λ k.
                    rest.2.filled k
                    ∙ join (bytes w) (bytes out.world) buf op.dat (lba + i) i n (count - (i + n)) k
                        (omega arith) (omega arith) (omega (arith, served.at_most, facts.1))
                        (λ j h. write_page buf page i j (within j n op.cnt h served.at_most))
                        (sectors.write_bytes op w req k
                          ∙ ap (λ l. memcpy (bytes w) (l * 512) op.dat 0 (n * 512) k) facts.0);
                same = rest.2.same;
              },
            )
    ]

    -- With fuel for every sector, a read of `count` sectors from `lba` on, which all lie on the disk,
    -- succeeds whatever part of a request the driver serves at a time: the caller's buffer then
    -- begins with the bytes of those sectors, is unchanged behind them, and so is the disk.
    pub diskrw_reads :
        (fuel : ℕ) (buf page : Buffer) (w : W)
        → count < 2 ^ 16
        → count < fuel
        → (t : Transfer W) × (diskrw fuel drive buf lba count cmd_read page w ≡ some t)
          × (t.code ≡ ret_success)
          × ((k : ℕ) → k < count * 512 → t.buf k ≡ bytes w (lba * 512 + k))
          × ((k : ℕ) → count * 512 ≤ k → t.buf k ≡ buf k)
          × ((k : ℕ) → bytes t.world k ≡ bytes w k)
    unfolding diskrw
    diskrw_reads fuel buf page w word more =
        let r =
          fetch_rounds fuel 0 buf page (bytes w) w (omega arith) word (omega arith) (λ k. refl) in
        (
          r.0,
          r.1,
          r.2.success,
          λ k h.
              r.2.filled k
              ∙ (memcpy_in buf (bytes w) 0 ((lba + 0) * 512) ((count - 0) * 512) k (omega arith)
                    (omega arith)
                  ∙ ap (bytes w) (omega arith)),
          λ k h.
              r.2.filled k
              ∙ memcpy_above buf (bytes w) 0 ((lba + 0) * 512) ((count - 0) * 512) k (omega arith),
          r.2.kept,
        )

    -- With fuel for every sector, a write of `count` sectors from `lba` on, which all lie on the disk,
    -- succeeds whatever part of a request the driver serves at a time: those sectors then hold the
    -- bytes of the caller's buffer, the rest of the disk is unchanged, and so is the buffer.
    pub diskrw_writes :
        (fuel : ℕ) (buf page : Buffer) (w : W)
        → count < 2 ^ 16
        → count < fuel
        → (t : Transfer W) × (diskrw fuel drive buf lba count cmd_write page w ≡ some t)
          × (t.code ≡ ret_success)
          × ((k : ℕ) → k < count * 512 → bytes t.world (lba * 512 + k) ≡ buf k)
          × ((k : ℕ) → k < lba * 512 → bytes t.world k ≡ bytes w k)
          × ((k : ℕ) → (lba + count) * 512 ≤ k → bytes t.world k ≡ bytes w k)
          × (t.buf ≡ buf)
    unfolding diskrw
    diskrw_writes fuel buf page w word more =
        let r = write_rounds fuel 0 buf page w (omega arith) word (omega arith) in
        let at = (lba + 0) * 512 in
        let size = (count - 0) * 512 in
        (
          r.0,
          r.1,
          r.2.success,
          λ k h.
              r.2.filled (lba * 512 + k)
              ∙ (memcpy_in (bytes w) buf at 0 size (lba * 512 + k) (omega arith) (omega arith)
                  ∙ ap buf (omega arith)),
          λ k h. r.2.filled k ∙ memcpy_below (bytes w) buf at 0 size k (omega arith),
          λ k h. r.2.filled k ∙ memcpy_above (bytes w) buf at 0 size k (omega arith),
          r.2.same,
        )

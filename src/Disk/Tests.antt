-- ===== src/Disk/Tests.antt =====
-- The disk layer over a drive in memory.
use strawberry_os.Prelude.{
  ℕ, ◌+◌, ◌*◌, ◌<◌, ◌≤◌, ◌%◌, ◌≡◌, refl, some, ltb, ◌==◌, if◌then◌else◌, arith,
}
use strawberry_os.Disk.{
  Buffer, memcpy, DiskDriver, DiskOperation, Outcome, Transfer, diskrw, cmd_read, cmd_write,
  ret_success,
}
use strawberry_os.Disk.Sectors.{SectorDrive}
use strawberry_os.Disk.Rounds.{diskrw_reads, diskrw_writes}

-- A drive that serves at most 3 sectors at a time.
abbrev part : ℕ → ℕ
part n = if ltb 3 n then 3 else n

abbrev ram_operate : DiskOperation → Buffer → Outcome Buffer
ram_operate op w =
    if op.cmd == cmd_write
    then record {
      code = ret_success;
      op = record op { cnt = part op.cnt };
      world = memcpy w (op.lba * 512) op.dat 0 (part op.cnt * 512);
    }
    else record {
      code = ret_success;
      op = record op { cnt = part op.cnt; dat = λ k. w (op.lba * 512 + k) };
      world = w;
    }

abbrev ram : DiskDriver Buffer
ram = record { operate = ram_operate; sct = 16; bs = 512; id = 0 }

ram-SectorDrive : SectorDrive ram (λ w. w)
ram-SectorDrive = record {
  size_512 = refl;
  read_served = λ op w r. rw r.command (record {
    success = refl;
    progress = ground (arith, r.some_sectors);
    at_most = ground arith;
  });
  read_bytes = λ op w r. rw r.command (λ k h. refl);
  read_keeps = λ op w r. rw r.command (λ k. refl);
  write_served = λ op w r. rw r.command (record {
    success = refl;
    progress = ground (arith, r.some_sectors);
    at_most = ground arith;
  });
  write_bytes = λ op w r. rw r.command (λ k. refl);
}

abbrev disk : Buffer
disk k = k * 7 % 251

abbrev blank : Buffer
blank k = 0

-- Four sectors, read in two parts.
diskrw_reads_example :
    (t : Transfer Buffer) × (diskrw 5 ram blank 2 4 cmd_read blank disk ≡ some t)
    × (t.code ≡ ret_success)
    × ((k : ℕ) → k < 4 * 512 → t.buf k ≡ disk (2 * 512 + k))
    × ((k : ℕ) → 4 * 512 ≤ k → t.buf k ≡ 0)
    × ((k : ℕ) → t.world k ≡ disk k)
diskrw_reads_example =
    diskrw_reads ram (λ w. w) ram-SectorDrive 2 4 (omega arith) (omega arith) 5 blank blank disk
      (omega arith) (omega arith)

diskrw_writes_example :
    (t : Transfer Buffer) × (diskrw 5 ram disk 2 4 cmd_write blank blank ≡ some t)
    × (t.code ≡ ret_success)
    × ((k : ℕ) → k < 4 * 512 → t.world (2 * 512 + k) ≡ disk k)
    × ((k : ℕ) → k < 2 * 512 → t.world k ≡ 0)
    × ((k : ℕ) → (2 + 4) * 512 ≤ k → t.world k ≡ 0)
    × (t.buf ≡ disk)
diskrw_writes_example =
    diskrw_writes ram (λ w. w) ram-SectorDrive 2 4 (omega arith) (omega arith) 5 disk blank blank
      (omega arith) (omega arith)

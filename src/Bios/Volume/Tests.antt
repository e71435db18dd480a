-- ===== src/Bios/Volume/Tests.antt =====
-- The search for the kernel at concrete inputs.
use strawberry_os.Prelude.{ℕ, ◌≡◌, refl, ◌==◌, ◌+◌, if◌then◌else◌, some, true, false}
use strawberry_os.Disk.{Buffer}
use strawberry_os.Bios.Volume.{
  BootTable, Reader, done, failed, part_entry, find_data, find_volume, read_page,
}

abbrev boot : BootTable
boot = record { mft = 40; guid0_low = 0x11; guid0_high = 0; guid1_low = 0x22; guid1_high = 0 }

-- The second entry is the partition.
abbrev table : Buffer
table k = if k == 0x10 then 0x99 else (if k == 0x90 then 0x22 else (if k == 0xA0 then 3 else 0))

second_entry : part_entry boot table 4 0 ≡ 0x80
unfolding part_entry
second_entry = refl

-- An attribute of 0x20 bytes before the attribute 0x80.
data_attribute :
    find_data 5
      (λ k.
        if k == 0x38 then 0x10 else (if k == 0x3C then 0x20 else (if k == 0x58 then 0x80 else 0)))
      0x38
    ≡ some 0x58
unfolding find_data
data_attribute = refl

-- A disk whose sector 1 has the header, and sector 2 the table.
abbrev disk : ℕ → Reader ℕ
disk guid = record {
  into_page = λ sector count page w. (
    0,
    λ k.
        if sector == 1
        then (if k == 0x38 then guid else (if k == 0x40 then 5 else (if k == 0x48 then 2 else 0)))
        else table k,
    w + 1,
  );
  cluster = λ r w. (0, w);
}

volume_sector : (let (r, w) = find_volume (disk 0x11) boot (λ _. 0) 0 in w) ≡ 2
unfolding find_volume read_page part_entry
volume_sector = refl

-- One half of the identifier is enough, although the other differs; both have to differ to be refused.
half_guid :
    (let (r, w) = find_volume (disk 0x11) boot (λ _. 0) 0 in elim r [ done a ↦ true | _ ↦ false ])
    ≡ true
unfolding find_volume read_page part_entry
half_guid = refl

other_disk :
    (let (r, w) = find_volume (disk 0x77) boot (λ _. 0) 0 in elim r [ failed ↦ true | _ ↦ false ])
    ≡ true
unfolding find_volume read_page part_entry
other_disk = refl

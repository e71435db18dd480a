-- ===== src/Bios/Volume.antt =====
-- `LoadingSATA`: the partition with the kernel, the record of its file, and its clusters.
--
-- A sector that `AHCIIO` reads into the page is a function of the page as it was.
mod Tests
use strawberry_os.Prelude.{
  ℕ, zero, suc, ◌+◌, ◌-◌, ◌*◌, ◌/◌, ◌%◌, ◌^◌, Bool, true, false, Option, none, some, ◌&&◌, ◌||◌,
  List, [], ◌∷◌, ltb, leb, ◌==◌, if◌then◌else◌, u64, add64, mul64,
}
use strawberry_os.Disk.{Buffer, memcpy}
use strawberry_os.Acpi.{word_at, dword_at, qword_at}
use strawberry_os.Bios.Runs.{ClusterRead, run_reads, perform}

-- How an attempt to load ends: the model's fuel does not last, it returns 1, or it goes on.
pub data Attempt (A : Type 0) : Type 0 where
  out_of_fuel : Attempt A
  failed : Attempt A
  done : A → Attempt A

abbrev pub Loader : Type 0 → Type 0 → Type 0
Loader W A = W → Attempt A × W

infixl 5 ◌>>=◌ ◌>>◌
abbrev pub ◌>>=◌ : {W A B : Type 0} → Loader W A → (A → Loader W B) → Loader W B
◌>>=◌ m f w =
    let (r, w') = m w in
    elim r [ out_of_fuel ↦ (out_of_fuel, w') | failed ↦ (failed, w') | done a ↦ f a w' ]

abbrev pub ◌>>◌ : {W A B : Type 0} → Loader W A → Loader W B → Loader W B
m >> k = m >>= λ _. k

abbrev pub pure : {W A : Type 0} → A → Loader W A
pure a w = (done a, w)

abbrev pub check : {W : Type 0} → Bool → Loader W (Unit {0})
check ok w = if ok then (done tt, w) else (failed, w)

abbrev pub with_fuel : {W A : Type 0} → Option A → Loader W A
with_fuel none w = (out_of_fuel, w)
with_fuel (some a) w = (done a, w)

-- `AHCIIO` of so many sectors into the page, and of a cluster to its place: the result and what is left.
pub record Reader (W : Type 0) : Type 0 where
  pub into_page : ℕ → ℕ → Buffer → W → ℕ × Buffer × W
  pub cluster : ClusterRead → W → ℕ × W

unfoldable pub read_page : {W : Type 0} → Reader W → ℕ → ℕ → Buffer → Loader W Buffer
read_page io sector count page w =
    let (cc, page', w') = io.into_page sector count page w in
    if cc == 0 then (done page', w') else (failed, w')

-- What `LoadingSATA` uses of `STBRBOOT`.
pub record BootTable : Type 0 where
  pub mft : ℕ
  pub guid0_low : ℕ
  pub guid0_high : ℕ
  pub guid1_low : ℕ
  pub guid1_high : ℕ

-- The loop over the entries of the partition table, with `n` left: where it stops.
unfoldable pub part_entry : BootTable → Buffer → ℕ → ℕ → ℕ
part_entry boot page zero entry = entry
part_entry boot page (suc n) entry =
    let low = qword_at page (entry + 0x10) in
    let high = qword_at page (entry + 0x18) in
    let next = part_entry boot page n (entry + 0x80) in
    if (low == 0 && high == 0) || (low == boot.guid1_low && high == boot.guid1_high)
    then entry
    else next

-- The attribute 0x80 of the record, or the end of its attributes, from `attribute` on.
unfoldable pub find_data : ℕ → Buffer → ℕ → Option ℕ
find_data zero page attribute = none
find_data (suc fuel) page attribute =
    let type = word_at page attribute in
    let next = find_data fuel page (attribute + dword_at page (attribute + 4)) in
    if type == 0xFFFF || type == 0x0080 then some attribute else next

-- "Fix the end of the sector by update array"
unfoldable pub fixed_up : Buffer → Buffer
fixed_up page = memcpy (memcpy page 0x3FE page 0x34 2) 0x1FE page 0x32 2

-- The sector of the partition with the kernel.
unfoldable pub find_volume : {W : Type 0} → Reader W → BootTable → Buffer → Loader W (ℕ × Buffer)
find_volume io boot page = do
  header ← read_page io 1 1 page
  check (qword_at header 0x38 == boot.guid0_low || qword_at header 0x40 == boot.guid0_high)
  table ← read_page io (qword_at header 0x48) 1 header
  let cleared : Buffer = memcpy table 0x200 (λ _. 0) 0 0x200
  let entry : ℕ = part_entry boot cleared 4 0
  check (
      if qword_at cleared (entry + 0x10) == 0 && qword_at cleared (entry + 0x18) == 0
      then false
      else true)
  pure (qword_at cleared (entry + 0x20), cleared)

-- What `LoadingSATA` uses of `NTFS_BPB`.
pub record NtfsBpb : Type 0 where
  pub cluster : ℕ
  pub hidden : ℕ
  pub mft : ℕ

abbrev pub bpb_of : Buffer → NtfsBpb
bpb_of page = record { cluster = page 0x0D; hidden = dword_at page 0x1C; mft = qword_at page 0x30 }

-- `KERNEL_LNR`
abbrev pub kernel_lnr : ℕ
kernel_lnr = 0xFFFFFFFFFF000000

-- `LoadingSATA`: `done` is its result 0.
unfoldable pub loading_sata : {W : Type 0} → ℕ → Reader W → BootTable → Buffer → Loader W (Unit {0})
loading_sata fuel io boot page = do
  (sector, page1) ← find_volume io boot page
  first ← read_page io sector 1 page1
  let bpb : NtfsBpb = bpb_of first
  let mft_sector : ℕ = add64 bpb.hidden (mul64 bpb.mft bpb.cluster)
  file ← read_page io (add64 mft_sector (u64 (boot.mft * 2))) 2 first
  let entry : Buffer = fixed_up file
  attribute ← with_fuel (find_data fuel entry (word_at entry 0x14))
  check (if word_at entry attribute == 0xFFFF then false else true)
  reads ← with_fuel (
      run_reads fuel entry bpb.cluster (attribute + word_at entry (attribute + 0x20)) bpb.hidden
        kernel_lnr)
  λ w. let (ok, w') = perform io.cluster reads w in check ok w'

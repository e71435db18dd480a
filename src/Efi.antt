-- ===== src/Efi.antt =====
-- EFI/main.c: the memory map that the EFI loader hands to the kernel.
--
-- An array of descriptors or regions is a function from its index. The pool that `SortMemoryMap`
-- takes for its exchange is not modelled.
pub mod Items
pub mod Sort
pub mod Compact
pub mod Regions
pub mod Handoff
mod Tests
use strawberry_os.Prelude.{
  ℕ, zero, suc, ◌+◌, ◌-◌, ◌*◌, ◌^◌, ◌%◌, Bool, ◌&&◌, ◌||◌, List, [], ◌∷◌, ltb, ◌==◌, if◌then◌else◌,
  add64, mul64, u64,
}

-- `EFI_MEMORY_DESCRIPTOR`
pub record Descriptor : Type 0 where
  pub type : ℕ
  pub physical_start : ℕ
  pub virtual_start : ℕ
  pub number_of_pages : ℕ
  pub attribute : ℕ

-- `MEMORY_REGION`
pub record Region : Type 0 where
  pub a : ℕ
  pub l : ℕ
  pub f : ℕ
  pub x : ℕ

-- A store in an array.
abbrev pub store_at : (ℕ → Descriptor) → ℕ → Descriptor → ℕ → Descriptor
store_at m i d k = if k == i then d else m k

-- The inner loop of `SortMemoryMap` from `j` on: the index of the least start so far is `min`.
unfoldable pub min_entry : (ℕ → Descriptor) → ℕ → ℕ → ℕ → ℕ
min_entry m zero j min = min
min_entry m (suc n) j min =
    min_entry m n (j + 1) (if ltb (m j).physical_start (m min).physical_start then j else min)

-- The exchange through `desc`.
unfoldable pub exchange : (ℕ → Descriptor) → ℕ → ℕ → ℕ → Descriptor
exchange m i min = store_at (store_at m i (m min)) min (m i)

-- `SortMemoryMap` with `n` entries left from `i` on.
unfoldable pub sort_from : (ℕ → Descriptor) → ℕ → ℕ → ℕ → Descriptor
sort_from m zero i = m
sort_from m (suc n) i =
    let min = min_entry m n (i + 1) i in
    sort_from (if min == i then m else exchange m i min) n (i + 1)

unfoldable pub sort_memory_map : (ℕ → Descriptor) → ℕ → ℕ → Descriptor
sort_memory_map m count = sort_from m count 0

-- Whether `CompactMemoryMap` joins the entry `ej` to the entry `ei`.
unfoldable pub joins : Descriptor → Descriptor → Bool
joins ei ej =
    ej.type == ei.type
    && add64 ei.physical_start (mul64 ei.number_of_pages 4096) == ej.physical_start

abbrev pub grown : Descriptor → Descriptor → Descriptor
grown ei ej = record ei { number_of_pages = add64 ei.number_of_pages ej.number_of_pages }

-- The loop of `CompactMemoryMap` with `n` entries left from `j` on: the array, and the last `i`.
unfoldable pub compact_from : (ℕ → Descriptor) → ℕ → ℕ → ℕ → (ℕ → Descriptor) × ℕ
compact_from m zero j i = (m, i)
compact_from m (suc n) j i =
    let joined = joins (m i) (m j) in
    compact_from
      (if joined
        then store_at m i (grown (m i) (m j))
        else (if i + 1 == j then m else store_at m (i + 1) (m j)))
      n (j + 1) (if joined then i else i + 1)

-- `CompactMemoryMap`: the array, and the number of entries.
unfoldable pub compact_memory_map : (ℕ → Descriptor) → ℕ → (ℕ → Descriptor) × ℕ
compact_memory_map m count = let (m', i) = compact_from m (count - 1) 1 0 in (m', i + 1)

-- The `F` of a region, by the type of its descriptor.
unfoldable pub region_kind : ℕ → ℕ
region_kind type =
    if type == 0 || type == 11 || type == 12
    then 2
    else (if type == 9 then 3 else (if type == 10 then 4 else (if type == 8 then 5 else 1)))

abbrev pub region_of : Descriptor → Region
region_of d = record {
  a = d.physical_start;
  l = mul64 d.number_of_pages 4096;
  f = region_kind d.type;
  x = 0;
}

-- The first region, before the loop of `EFIMainCRTStartup` over the entries.
abbrev pub first_region : Region
first_region = record { a = 0; l = 0; f = 0xFF; x = 0 }

-- Whether a region is joined to the last one, and the last one then.
unfoldable pub extends : Region → Region → Bool
extends beg region = beg.f == 0xFF || (beg.f == region.f && add64 beg.a beg.l == region.a)

abbrev pub extended : Region → Region → Region
extended beg region = record beg {
  f = if beg.f == 0xFF then region.f else beg.f;
  l = add64 beg.l region.l;
}

-- The loop with `n` entries left from `i` on: the regions from `beg` on.
unfoldable pub regions_from : (ℕ → Descriptor) → ℕ → ℕ → Region → List Region
regions_from m zero i beg = beg ∷ []
regions_from m (suc n) i beg =
    let region = region_of (m i) in
    let more = regions_from m n (i + 1) region in
    let same = regions_from m n (i + 1) (extended beg region) in
    if extends beg region then same else beg ∷ more

-- The regions that `EFIMainCRTStartup` makes of the memory map of the firmware.
unfoldable pub boot_regions : (ℕ → Descriptor) → ℕ → List Region
boot_regions m count =
    let (m', entries) = compact_memory_map (sort_memory_map m count) count in
    regions_from m' entries 0 first_region

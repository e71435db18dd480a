-- ===== src/Efi/Tests.antt =====
-- A memory map of four descriptors, out of order.
use strawberry_os.Prelude.{ℕ, ◌≡◌, refl, arith, ◌==◌, if◌then◌else◌, [], ◌∷◌}
use strawberry_os.Efi.{
  Descriptor, sort_memory_map, sort_from, min_entry, exchange, compact_memory_map, compact_from,
  joins, boot_regions, regions_from, region_kind, extends,
}
use strawberry_os.Efi.Items.{slice, any}
use strawberry_os.Efi.Sort.{IsAscending, sort_memory_map-IsAscending}
use strawberry_os.Efi.Regions.{covers, holds}
use strawberry_os.Efi.Handoff.{boot_regions-covers}

abbrev entry : ℕ → ℕ → ℕ → Descriptor
entry t s p = record {
  type = t;
  physical_start = s;
  virtual_start = 0;
  number_of_pages = p;
  attribute = 0;
}

-- Two descriptors of conventional memory, one of boot services behind them, and one that is reserved.
abbrev firmware_map : ℕ → Descriptor
firmware_map k =
    if k == 0
    then entry 7 0x1000 1
    else (if k == 1 then entry 0 0x5000 2 else (if k == 2 then entry 7 0 1 else entry 4 0x2000 2))

sort_memory_map-IsAscending_example : IsAscending firmware_map (sort_memory_map firmware_map 4) 0 4
sort_memory_map-IsAscending_example = sort_memory_map-IsAscending firmware_map 4

boot_regions-covers_example :
    any (boot_regions firmware_map 4) (holds 1 0x2345)
    ≡ any (slice firmware_map 0 4) (covers 1 0x2345)
boot_regions-covers_example =
    boot_regions-covers firmware_map 3 (λ k h. ground arith) 2 (omega arith) refl 1 0x2345

-- The regions of it: all that is free in one, and the reserved one.
regions_of_map :
    boot_regions firmware_map 4
    ≡ record { a = 0; l = 0x4000; f = 1; x = 0 }
      ∷ record { a = 0x5000; l = 0x2000; f = 2; x = 0 }
      ∷ []
unfolding boot_regions regions_from extends region_kind compact_memory_map compact_from joins
    sort_memory_map sort_from min_entry exchange
regions_of_map = refl

-- Without a descriptor at address 0 the first region still begins there, and ends too early.
begins_at_zero :
    boot_regions (λ k. entry 7 0x1000 1) 1 ≡ record { a = 0; l = 0x1000; f = 1; x = 0 } ∷ []
unfolding boot_regions regions_from extends region_kind compact_memory_map compact_from joins
    sort_memory_map sort_from min_entry exchange
begins_at_zero = refl

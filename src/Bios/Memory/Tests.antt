-- ===== src/Bios/Memory/Tests.antt =====
-- The memory map of the BIOS at concrete inputs.
use strawberry_os.Prelude.{◌+◌, ◌*◌, ◌^◌, ◌≡◌, refl, arith, some, none, List, [], ◌∷◌}
use strawberry_os.Bios.Memory.{Area, allocate_physical, find_pages, is_skipped, take_from, with_gap}
use strawberry_os.Bios.Memory.Taken.{AllocateOutcome, allocate_physical-AllocateOutcome}

-- The memory below 1 MB, and 10 MB from 1 MB on.
abbrev two_areas : List Area
two_areas =
    record { a0 = 0; s0 = 0x9F000; f0 = 1 } ∷ record { a0 = 0x100000; s0 = 0xA00000; f0 = 1 } ∷ []

allocate_physical-AllocateOutcome_example :
    AllocateOutcome (2 ^ (12 + 9 * 1)) 8 two_areas (allocate_physical two_areas 1 8)
allocate_physical-AllocateOutcome_example =
    allocate_physical-AllocateOutcome two_areas 1 8 (omega arith) (omega arith) (omega arith)

-- Four pages of 2 MB from 2 MB on, and the gap of 1 MB at the end of the map.
four_pages :
    allocate_physical two_areas 1 8
    ≡ some (record {
      address = 0x200000;
      count = 4;
      areas =
          record { a0 = 0; s0 = 0x9F000; f0 = 1 }
          ∷ record { a0 = 0xA00000; s0 = 0x100000; f0 = 1 }
          ∷ record { a0 = 0x100000; s0 = 0x100000; f0 = 1 }
          ∷ [];
      gap_base = 0x100000;
      gap = 0x100000;
    })
unfolding allocate_physical find_pages is_skipped take_from with_gap
four_pages = refl

-- No page of 1 GB.
no_page : allocate_physical two_areas 2 1 ≡ none
unfolding allocate_physical find_pages is_skipped
no_page = refl

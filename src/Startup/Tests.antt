-- ===== src/Startup/Tests.antt =====
-- The start of the map at concrete inputs.
use strawberry_os.Prelude.{ℕ, ◌≤◌, ◌≡◌, refl, arith, ◌==◌, if◌then◌else◌, List, [], ◌∷◌, some}
use strawberry_os.Block.Items.{items}
use strawberry_os.Block.Cover.{overlaps}
use strawberry_os.Block.Fresh.{next_node, next_node_fresh}
use strawberry_os.Efi.{Descriptor, Region, boot_regions, region_kind}
use strawberry_os.Efi.Items.{how_many, slice}
use strawberry_os.Efi.Regions.{covers}
use strawberry_os.Startup.{Started, setup_paging, total_memory}
use strawberry_os.Startup.Regions.{IsStarted, setup_paging-boot_regions}

abbrev region : ℕ → ℕ → ℕ → Region
region a l f = record { a = a; l = l; f = f; x = 0 }

-- Two regions of free memory that touch, and one between them in the list that is reserved.
abbrev three_regions : List Region
three_regions = region 0x1000 0x1000 1 ∷ region 0x9000 0x1000 2 ∷ region 0x2000 0x3000 1 ∷ []

total_of_regions : total_memory three_regions 0 ≡ 0x5000
unfolding total_memory
total_of_regions = refl

abbrev entry : ℕ → ℕ → ℕ → Descriptor
entry t s p = record {
  type = t;
  physical_start = s;
  virtual_start = 0;
  number_of_pages = p;
  attribute = 0;
}

-- Conventional memory above that of boot services.
abbrev two_descriptors : ℕ → Descriptor
two_descriptors k = if k == 0 then entry 7 0x3000 2 else entry 4 0 2

two_descriptors_apart : (x : ℕ) → how_many (slice two_descriptors 0 2) (covers 1 x) ≤ 1
unfolding slice covers region_kind
two_descriptors_apart x = ground arith

setup_paging-boot_regions_example :
    (s : Started) × (setup_paging next_node (boot_regions two_descriptors 2) ≡ some s)
    × IsStarted (boot_regions two_descriptors 2) s
    × ((x : ℕ) → overlaps x (items s.map) ≡ how_many (slice two_descriptors 0 2) (covers 1 x))
setup_paging-boot_regions_example =
    setup_paging-boot_regions next_node two_descriptors 1 1 next_node_fresh (λ k h. ground arith)
      (omega arith) refl two_descriptors_apart

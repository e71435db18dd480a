-- ===== src/Virtual/Tests.antt =====
-- The regions of virtual memory at concrete inputs.
use strawberry_os.Prelude.{◌+◌, ◌≡◌, refl, arith, ap, inl, inr}
use strawberry_os.Block.{MemoryBlock, Tree, leaf, node, higher}
use strawberry_os.Block.Items.{items}
use strawberry_os.Block.Map.{IsMap}
use strawberry_os.Block.Fresh.{greatest, greatest-items, uses_greater}
use strawberry_os.Virtual.{
  VirtualMemory, NewNode, from_range, from_region, behind, nothing_common, common_range, round_up,
}
use strawberry_os.Virtual.Request.{reserve, auto_address}
use strawberry_os.Virtual.Reserve.{IsApart}
use strawberry_os.Virtual.Moves.{IsRegions, ReserveOutcome, reserve-ReserveOutcome}
use strawberry_os.Virtual.Auto.{AutoOutcome, auto_address-AutoOutcome}

-- Two free regions and a reserved one.
abbrev free_regions : Tree
free_regions =
    node leaf (record { ptr = 1; h = 2; a = 0x10000; s = 0x4000; v = 0 })
      (node leaf (record { ptr = 2; h = 1; a = 0x20000; s = 0x8000; v = 0 }) leaf)

abbrev reserved_regions : Tree
reserved_regions = node leaf (record { ptr = 3; h = 1; a = 0x30000; s = 0x1000; v = 0 }) leaf

abbrev regions : VirtualMemory
regions = record {
  fre = free_regions;
  rsv = reserved_regions;
  cmt = leaf;
  machine = record { words = λ _. 0; cr3 = 0; free = leaf };
}

abbrev next_node : NewNode
next_node v = greatest v.fre + greatest v.rsv + 1

free_regions-IsMap : IsMap 1 free_regions
unfolding higher
free_regions-IsMap = record {
  avl = (tt, (tt, tt, refl, omega arith, omega arith), refl, omega arith, omega arith);
  sorted = omega arith;
  fits = omega arith;
  distinct = λ p. ground arith;
}

reserved_regions-IsMap : IsMap 1 reserved_regions
unfolding higher
reserved_regions-IsMap = record {
  avl = (tt, tt, refl, omega arith, omega arith);
  sorted = omega arith;
  fits = omega arith;
  distinct = λ p. ground arith;
}

fields : {x b : MemoryBlock} → x ≡ b → (x.a ≡ b.a) × (x.s ≡ b.s)
fields e = (ap (λ z. z.a) e, ap (λ z. z.s) e)

free_regions-IsApart : IsApart free_regions
free_regions-IsApart = record {
  once = λ x. ground arith;
  gap = λ b c h k lt. elim h [
    | inl e ↦ elim k [
      | inl f ↦ absurd (omega (arith, fields e, fields f))
      | inr (inl f) ↦ omega (arith, fields e, fields f)
      | inr (inr z) ↦ absurd z
    ]
    | inr (inl e) ↦ elim k [
      | inl f ↦ absurd (omega (arith, fields e, fields f))
      | inr (inl f) ↦ absurd (omega (arith, fields e, fields f))
      | inr (inr z) ↦ absurd z
    ]
    | inr (inr z) ↦ absurd z
  ];
}

regions-IsRegions : IsRegions next_node regions
regions-IsRegions = record {
  free_map = free_regions-IsMap;
  free_apart = free_regions-IsApart;
  reserved_map = reserved_regions-IsMap;
  disjoint = λ x. ground arith;
  new_free = λ w. uses_greater (items w.fre) _ (omega (arith, greatest-items w.fre));
  new_reserved = λ w. uses_greater (items w.rsv) _ (omega (arith, greatest-items w.rsv));
}

-- The first two pages of the second region.
reserve-ReserveOutcome_example :
    ReserveOutcome regions 0x20000 0x2000 (reserve next_node regions 0x20000 0x2000)
reserve-ReserveOutcome_example =
    reserve-ReserveOutcome next_node regions regions-IsRegions 0x20000 0x2000 (omega arith)
      (omega arith)

-- A request of five pages passes over the first region.
auto_address-AutoOutcome_example :
    AutoOutcome free_regions 0x5000 (auto_address 3 free_regions 0 0x5000)
auto_address-AutoOutcome_example =
    auto_address-AutoOutcome free_regions 0x5000 free_regions-IsMap (λ x. ground arith) 3
      (omega arith)

-- A range that begins in a region, one that reaches over its base, and one below it.
common_range_cases :
    (common_range (record { ptr = 1; h = 1; a = 0x1000; s = 0x3000; v = 0 }) 0x2000 0x5000
      ≡ from_range 0x2000 0x2000)
    × (common_range (record { ptr = 1; h = 1; a = 0x3000; s = 0x3000; v = 0 }) 0x2000 0x3000
        ≡ from_region 0x3000 0x2000)
    × (common_range (record { ptr = 1; h = 1; a = 0x8000; s = 0x3000; v = 0 }) 0x2000 0x3000
        ≡ behind)
    × (common_range (record { ptr = 1; h = 1; a = 0x1000; s = 0x1000; v = 0 }) 0x2000 0x3000
        ≡ nothing_common)
unfolding common_range
common_range_cases = (refl, refl, refl, refl)

round_up_cases : (round_up 1 ≡ 4096) × (round_up 4096 ≡ 4096) × (round_up 0 ≡ 0)
round_up_cases = (refl, refl, refl)

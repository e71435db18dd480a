-- ===== src/Startup/Regions.antt =====
-- The map that `setup_paging` makes.
use strawberry_os.Prelude.{
  ℕ, ◌+◌, ◌^◌, ◌≤◌, ◌<◌, ◌≡◌, refl, ◌∙◌, sym, ap, ◌&&◌, true, false, List, [], ◌∷◌, ◌++◌, some,
  ◌==◌, if◌then◌else◌, ltb, leb, All, arith, suc, inl, inr, Bool-cases, add64, u64,
}
use strawberry_os.Block.{MemoryBlock, Tree, leaf, node}
use strawberry_os.Block.Items.{item, items}
use strawberry_os.Block.Removal.{uses}
use strawberry_os.Block.Cover.{inside, overlaps}
use strawberry_os.Block.Map.{IsMap}
use strawberry_os.Physical.{new_block}
use strawberry_os.Physical.Taken.{insert_apart}
use strawberry_os.Efi.{Region, Descriptor, boot_regions}
use strawberry_os.Efi.Items.{how_many, slice}
use strawberry_os.Efi.Regions.{holds, fits, covers, IsRegion}
use strawberry_os.Efi.Handoff.{boot_regions-how_many, boot_regions-IsRegion}
use strawberry_os.Startup.{
  Started, MapLine, add_region, add_regions, total_memory, foreach_memory_map, setup_paging,
}

-- A region adds its addresses to the map, if it is one of free memory.
add_region_lem :
    (new_node : Tree → ℕ) (r : Region) (t : Tree)
    → IsMap 1 t
    → uses (new_node t) (items t) ≡ 0
    → r.a + r.l < 2 ^ 64
    → ((x : ℕ) → overlaps x (items t) + (if holds 1 x r then 1 else 0) ≤ 1)
    → (t' : Tree) × (add_region new_node r t ≡ some t')
      × IsMap 1 t'
      × ((x : ℕ) → overlaps x (items t') ≡ overlaps x (items t) + (if holds 1 x r then 1 else 0))
unfolding add_region holds
add_region_lem new_node r t v fresh fit apart =
    elim (Bool-cases (r.f == 1 && (if r.l == 0 then false else true))) [
      | inl y ↦
          let block : MemoryBlock = new_block (new_node t) r.a r.l in
          let same : (x : ℕ)
              → inside x block ≡ (if r.f == 1 && (leb r.a x && ltb x (r.a + r.l)) then 1 else 0) =
            λ x. ground arith in
          let (t', freed, e, v', added) =
            insert_apart t block v (ground arith) fresh (λ x. omega (arith, apart x, same x)) in
          (t', rw (y, e) refl, v', λ x. added x ∙ ap (λ k. overlaps x (items t) + k) (same x))
      | inr n ↦ (t, rw n refl, v, λ x. ground arith)
    ]

add_regions_lem :
    (new_node : Tree → ℕ) (rs : List Region) (t : Tree)
    → ((t : Tree) → uses (new_node t) (items t) ≡ 0)
    → IsMap 1 t
    → All (λ r. r.a + r.l < 2 ^ 64) rs
    → ((x : ℕ) → overlaps x (items t) + how_many rs (holds 1 x) ≤ 1)
    → (t' : Tree) × (add_regions new_node rs t ≡ some t')
      × IsMap 1 t'
      × ((x : ℕ) → overlaps x (items t') ≡ overlaps x (items t) + how_many rs (holds 1 x))
unfolding add_regions
add_regions_lem new_node [] t fresh v fit apart = (t, refl, v, λ x. omega arith)
add_regions_lem new_node (r ∷ rs) t fresh v (fit, fits) apart =
    let (t1, e1, v1, added1) =
      add_region_lem new_node r t v (fresh t) fit (λ x. omega (arith, apart x)) in
    let (t2, e2, v2, added2) =
      add_regions_lem new_node rs t1 fresh v1 fits (λ x. omega (arith, apart x, added1 x)) in
    (t2, rw (e1, e2) refl, v2, λ x. omega (arith, added1 x, added2 x))

-- The memory that ranges take, and the ranges.
abbrev pub bytes_of : List MemoryBlock → ℕ
bytes_of [] = 0
bytes_of (b ∷ bs) = b.s + bytes_of bs

abbrev pub ranges : List MemoryBlock → List (ℕ × ℕ)
ranges [] = []
ranges (b ∷ bs) = (b.a, b.s) ∷ ranges bs

abbrev pub printed : List MapLine → List (ℕ × ℕ)
printed [] = []
printed (l ∷ ls) = (l.a, l.s) ∷ printed ls

bytes_of-append : (xs ys : List MemoryBlock) → bytes_of (xs ++ ys) ≡ bytes_of xs + bytes_of ys
bytes_of-append [] ys = omega arith
bytes_of-append (b ∷ bs) ys = omega (arith, bytes_of-append bs ys)

ranges-append : (xs ys : List MemoryBlock) → ranges (xs ++ ys) ≡ ranges xs ++ ranges ys
ranges-append [] ys = refl
ranges-append (b ∷ bs) ys = ap (λ l. (b.a, b.s) ∷ l) (ranges-append bs ys)

printed-append : (xs ys : List MapLine) → printed (xs ++ ys) ≡ printed xs ++ printed ys
printed-append [] ys = refl
printed-append (l ∷ ls) ys = ap (λ k. (l.a, l.s) ∷ k) (printed-append ls ys)

-- `ForeachMemoryMap` prints the ranges of the map in their order, and returns the memory that they take.
foreach_memory_map_lem :
    (t : Tree) (height flag : ℕ)
    → ((foreach_memory_map t height flag).0 ≡ u64 (bytes_of (items t)))
      × (printed ((foreach_memory_map t height flag).1) ≡ ranges (items t))
unfolding foreach_memory_map
foreach_memory_map_lem leaf height flag = (refl, refl)
foreach_memory_map_lem (node l b r) height flag =
    let (el, pl) = foreach_memory_map_lem l (height + 1) flag in
    let (er, pr) = foreach_memory_map_lem r (height + 1) flag in
    let sum = bytes_of-append (items l) (item b ∷ items r) in
    (
      rw (el, er) (omega (arith, sum)),
      printed-append ((foreach_memory_map l (height + 1) flag).1) _
          ∙ ap (λ k. k ++ ((b.a, b.s) ∷ printed ((foreach_memory_map r (height + 1) flag).1))) pl
          ∙ ap (λ k. ranges (items l) ++ ((b.a, b.s) ∷ k)) pr
          ∙ sym (ranges-append (items l) (item b ∷ items r)),
    )

abbrev pub lengths : List Region → ℕ
lengths [] = 0
lengths (r ∷ rs) = r.l + lengths rs

total_memory_lem :
    (rs : List Region) (n : ℕ) → n < 2 ^ 64 → total_memory rs n ≡ u64 (n + lengths rs)
unfolding total_memory
total_memory_lem [] n h = omega arith
total_memory_lem (r ∷ rs) n h =
    let e : u64 (add64 n r.l + lengths rs) ≡ u64 (n + (r.l + lengths rs)) = omega arith in
    total_memory_lem rs (add64 n r.l) (omega arith) ∙ e

-- The map has the addresses of the regions of free memory, and what is printed is the map and the sums
-- of the memory that is free, and of all regions.
pub record IsStarted (regions : List Region) (s : Started) : Type 0 where
  pub valid : IsMap 1 s.map
  pub exact : (x : ℕ) → overlaps x (items s.map) ≡ how_many regions (holds 1 x)
  pub free : s.free ≡ u64 (bytes_of (items s.map))
  pub total : s.total ≡ u64 (lengths regions)
  pub lines : printed s.lines ≡ ranges (items s.map)

empty-IsMap : IsMap 1 leaf
empty-IsMap = record { avl = tt; sorted = tt; fits = tt; distinct = λ p. omega arith }

-- On regions that end below 2^64, of which no address is in two of free memory, and with nodes that
-- the map does not use, `setup_paging` returns. Its map is well formed, and an address is in as many
-- of its ranges as in regions of free memory; it prints the ranges in their order, the memory that
-- they take, and the memory of all regions, both modulo 2^64.
setup_paging-IsStarted :
    (new_node : Tree → ℕ) (regions : List Region)
    → ((t : Tree) → uses (new_node t) (items t) ≡ 0)
    → All (λ r. r.a + r.l < 2 ^ 64) regions
    → ((x : ℕ) → how_many regions (holds 1 x) ≤ 1)
    → (s : Started) × (setup_paging new_node regions ≡ some s) × IsStarted regions s
unfolding setup_paging
setup_paging-IsStarted new_node regions fresh fit apart =
    let (t, e, v, added) =
      add_regions_lem new_node regions leaf fresh empty-IsMap fit (λ x. omega (arith, apart x)) in
    let (free, lines) = foreach_memory_map_lem t 1 0 in
    let total : total_memory regions 0 ≡ u64 (lengths regions) =
      omega (arith, total_memory_lem regions 0 (omega arith)) in
    (
      _,
      rw e refl,
      record {
        valid = v;
        exact = λ x. omega (arith, added x);
        free = free;
        total = total;
        lines = lines;
      },
    )

ends-IsRegion : (rs : List Region) → All IsRegion rs → All (λ r. r.a + r.l < 2 ^ 64) rs
ends-IsRegion [] v = tt
ends-IsRegion (r ∷ rs) (h, v) = (h.ends, ends-IsRegion rs v)

-- The loader and the kernel together: where every descriptor of the firmware ends below 2^64, one of
-- them begins at address 0, no address is in two whose types are free to the kernel, and the nodes are
-- ones that the map does not use, `setup_paging` of the regions that the EFI loader makes returns. Its
-- map is well formed, and has an address exactly as often as the descriptors whose types are free; it
-- prints the ranges in their order, the memory that they take, and that of all regions, both modulo
-- 2^64.
pub setup_paging-boot_regions :
    (new_node : Tree → ℕ) (m : ℕ → Descriptor) (n z : ℕ)
    → ((t : Tree) → uses (new_node t) (items t) ≡ 0)
    → ((k : ℕ) → k < suc n → fits (m k) ≡ true)
    → z < suc n
    → (m z).physical_start ≡ 0
    → ((x : ℕ) → how_many (slice m 0 (suc n)) (covers 1 x) ≤ 1)
    → (s : Started) × (setup_paging new_node (boot_regions m (suc n)) ≡ some s)
      × IsStarted (boot_regions m (suc n)) s
      × ((x : ℕ) → overlaps x (items s.map) ≡ how_many (slice m 0 (suc n)) (covers 1 x))
setup_paging-boot_regions new_node m n z fresh fit inside at_zero apart =
    let same = boot_regions-how_many m n fit z inside at_zero 1 in
    let (s, e, v) =
      setup_paging-IsStarted new_node (boot_regions m (suc n)) fresh
        (ends-IsRegion _ (boot_regions-IsRegion m n fit z inside at_zero))
        (λ x. omega (arith, apart x, same x)) in
    (s, e, v, λ x. v.exact x ∙ same x)

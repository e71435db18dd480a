-- ===== src/Physical/Allocate.antt =====
-- `AllocatePhysicalMemory`, from the empty search to the pages that it takes.
use strawberry_os.Prelude.{
  ℕ, zero, suc, ◌+◌, ◌*◌, ◌%◌, ◌≤◌, ◌<◌, ◌≡◌, refl, List, ◌∷◌, ◌++◌, arith, inl, inr, ◌==◌, All,
  Option, some, none, false, ltb, length, sub64, add64, Bool-cases, Option-cases, some_inj, ltb→lt,
  ltb_false→le,
}
use strawberry_os.Block.{MemoryBlock, Tree, search_memory_node}
use strawberry_os.Block.Items.{item, items}
use strawberry_os.Block.Search.{IsNearestHigh, nothing_high, high, search_above-IsNearestHigh}
use strawberry_os.Block.Removal.{uses}
use strawberry_os.Block.Cover.{inside, overlaps, IsFit, Holds, All-Holds, Holds-middle}
use strawberry_os.Block.Map.{IsMap}
use strawberry_os.Physical.{
  Allocation, returned, halted, finish, take_pages, allocate_rounds, allocate_physical_memory,
  page_bytes, reminder, new_block,
}
use strawberry_os.Physical.Taken.{take_pages_lem}
use strawberry_os.Physical.Search.{
  IsTooSmall, round_lem, remaining, remaining_lt, remaining-length, passed,
}

-- The pages from `address` were free, and are the only ones that are not free any more.
pub record IsAllocated (page count : ℕ) (t : Tree) (address taken : ℕ) (t' : Tree) : Type 0 where
  pub valid : IsMap 1 t'
  pub aligned : address % page ≡ 0
  pub some_pages : 0 < taken
  pub no_more : taken ≤ count
  pub exact :
      (x : ℕ)
      → overlaps x (items t) ≡ overlaps x (items t') + inside x (new_block 0 address (taken * page))

-- Either no free range has an aligned page, and the processor halts, or pages are allocated.
pub data Outcome (page count : ℕ) (t : Tree) (result : Allocation) : Type 0 where
  no_memory :
      result ≡ halted
      → ((c : MemoryBlock) → Holds c (items t) → IsTooSmall page c)
      → Outcome page count t result
  allocated :
      (address taken : ℕ) (t' : Tree)
      → result ≡ returned 0 address taken t'
      → IsAllocated page count t address taken t'
      → Outcome page count t result

pub nearest_none :
    (xs : List MemoryBlock) (search : ℕ) (found : Option MemoryBlock)
    → IsNearestHigh search xs found
    → found ≡ none
    → All (λ x. x.a < search) xs
nearest_none xs search _ (nothing_high v) e = v
nearest_none xs search _ (high ls rs b ex le lt) e = cc

pub nearest_some :
    (xs : List MemoryBlock) (search : ℕ) (found : Option MemoryBlock) (c : MemoryBlock)
    → IsNearestHigh search xs found
    → found ≡ some c
    → (ls rs : List MemoryBlock) × (xs ≡ ls ++ (item c ∷ rs))
      × (search ≤ c.a)
      × All (λ x. x.a < search) ls
nearest_some xs search _ c (nothing_high v) e = cc
nearest_some xs search _ c (high ls rs b ex le lt) e = rw (← some_inj e) (ls, rs, ex, le, lt)

module _ (new_node : Tree → ℕ) (fresh : (t : Tree) → uses (new_node t) (items t) ≡ 0) (n count : ℕ)
    (size : n ≤ 2) (some_count : 0 < count) (t : Tree) (v : IsMap 1 t)
    (apart : (x : ℕ) → overlaps x (items t) ≤ 1) where
  take_round :
      (b : MemoryBlock) (page gap taken : ℕ)
      → Holds (item b) (items t)
      → (b.a + gap) % page ≡ 0
      → 0 < taken
      → taken ≤ count
      → 0 < taken * page
      → gap + taken * page ≤ b.s
      → Outcome page count t (
          finish
            (add64 b.a gap)
            taken
            (take_pages new_node t b (add64 b.a gap) (sub64 b.s gap) page taken))
  unfolding finish
  take_round b page gap taken h start pos bound whole room =
      let fit : IsFit 1 (item b) = All-Holds (IsFit 1) (items t) (item b) v.fits h in
      let (t', e, v', exact) =
        take_pages_lem new_node t b gap taken page v fresh apart h fit room whole in
      let unwrapped : add64 b.a gap ≡ b.a + gap = omega arith in
      allocated (b.a + gap) taken t' (rw (e, unwrapped) refl)
        (record { valid = v'; aligned = start; some_pages = pos; no_more = bound; exact = exact })

  -- The search goes on behind a block that is too small.
  skip :
      (search : ℕ) (b : MemoryBlock)
      → search_memory_node t search 1 ≡ some b
      → ((c : MemoryBlock) → Holds c (items t) → c.a < search → IsTooSmall (page_bytes n) c)
      → IsTooSmall (page_bytes n) (item b)
      → (remaining (add64 b.a b.s) (items t) < remaining search (items t))
        × ((c : MemoryBlock)
            → Holds c (items t)
            → c.a < add64 b.a b.s
            → IsTooSmall (page_bytes n) c)
  skip search b e small b_small =
      let (ls, rs, ex, le, lt) =
        nearest_some (items t) search _ b (search_above-IsNearestHigh t search v.sorted) e in
      let h : Holds (item b) (items t) = rw ex (Holds-middle ls rs (item b)) in
      let fit : IsFit 1 (item b) = All-Holds (IsFit 1) (items t) (item b) v.fits h in
      let unwrapped : add64 b.a b.s ≡ b.a + b.s = omega arith in
      (
        remaining_lt (items t) (item b) search _ h le (omega arith),
        rw (unwrapped, ex)
            (passed (IsTooSmall (page_bytes n)) search ls rs (item b) (rw ex at v.sorted)
              (rw ex at v.fits) (rw ex at apart) lt (rw ex at small) b_small),
      )

  rounds :
      (fuel search : ℕ)
      → remaining search (items t) < fuel
      → ((c : MemoryBlock) → Holds c (items t) → c.a < search → IsTooSmall (page_bytes n) c)
      → Outcome (page_bytes n) count t (allocate_rounds fuel new_node t search (page_bytes n) count)
  unfolding allocate_rounds
  rounds zero search enough small = absurd (omega arith)
  rounds (suc fuel) search enough small =
      let page = page_bytes n in
      elim (Option-cases (search_memory_node t search 1)) [
        | inl e ↦
            let v0 =
              nearest_none (items t) search _ (search_above-IsNearestHigh t search v.sorted) e in
            no_memory (rw (allocate_rounds, e) refl)
              (λ c h. small c h (All-Holds (λ x. x.a < search) (items t) c v0 h))
        | inr (b, e) ↦
            let (ls, rs, ex, le, lt) =
              nearest_some (items t) search _ b (search_above-IsNearestHigh t search v.sorted) e in
            let h : Holds (item b) (items t) = rw ex (Holds-middle ls rs (item b)) in
            let fit : IsFit 1 (item b) = All-Holds (IsFit 1) (items t) (item b) v.fits h in
            let (short, tight, fits) = round_lem b.a b.s count fit.1 some_count n size in
            let go : IsTooSmall page (item b)
                → Outcome page count t
                    (allocate_rounds fuel new_node t (add64 b.a b.s) page count) =
              λ b_small.
                let (less, small') = skip search b e small b_small in
                rounds fuel (add64 b.a b.s) (omega arith) small' in
            elim (Bool-cases (ltb b.s (reminder b.a page))) [
              | inl y ↦ rw (allocate_rounds, e, y) (go (short (ltb→lt _ _ y)))
              | inr n1 ↦ elim (Bool-cases (ltb (sub64 b.s (reminder b.a page)) page)) [
                | inl y ↦
                    rw (allocate_rounds, e, n1, y) (go (tight (ltb_false→le _ _ n1) (ltb→lt _ _ y)))
                | inr n2 ↦
                    let (start, pos, bound, whole, room) =
                      fits (ltb_false→le _ _ n1) (ltb_false→le _ _ n2) in
                    rw (allocate_rounds, e, n1, n2)
                      (take_round b page (reminder b.a page) _ h start pos bound whole room)
              ]
            ]
      ]

-- `AllocatePhysicalMemory`, with a page size of 4K, 2M or 1G and a count that is not 0, on a
-- well-formed map of free memory none of whose ranges overlap, where `HeapAlloc` gives an address
-- that no node has: it ends, without the use of a freed node. Either no free range has an aligned
-- page, and the processor halts; or it returns 0, an aligned address, and a number of pages that is
-- at most the count and not 0, and the map is well formed, covers what it covered before but not
-- the pages that were allocated, and none of its ranges overlap.
pub allocate_physical_memory-Outcome :
    (new_node : Tree → ℕ) (t : Tree) (address n count fuel : ℕ)
    → ((t : Tree) → uses (new_node t) (items t) ≡ 0)
    → n ≤ 2
    → 0 < count
    → IsMap 1 t
    → ((x : ℕ) → overlaps x (items t) ≤ 1)
    → length (items t) < fuel
    → Outcome (page_bytes n) count t (allocate_physical_memory fuel new_node t address n count)
unfolding allocate_physical_memory
allocate_physical_memory-Outcome new_node t address n count fuel fresh size pos v apart enough =
    let some_count : (count == 0) ≡ false = ground arith in
    let known_size : ltb 2 n ≡ false = ground arith in
    rw (some_count, known_size)
      (rounds new_node fresh n count size pos t v apart fuel 0
        (omega (arith, remaining-length (items t) 0)) (λ c h lt. absurd (omega arith)))

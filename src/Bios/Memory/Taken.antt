-- ===== src/Bios/Memory/Taken.antt =====
-- `allocate_physical` takes the pages that it returns out of the map, and nothing else.
use native.Mathlib.Nat.{le-div_iff_mul-le}
use strawberry_os.Prelude.{
  ℕ, zero, suc, ◌+◌, ◌-◌, ◌*◌, ◌/◌, ◌%◌, ◌^◌, ◌≤◌, ◌<◌, ◌≡◌, arith, Bool, true, false, ◌&&◌, Option,
  none, some, List, [], ◌∷◌, ◌++◌, ltb, leb, ◌==◌, if◌then◌else◌, ◌>>=◌, add64, Bool-cases, inl,
  inr, All,
}
use strawberry_os.Bios.Memory.{
  Area, Pages, gap_of, is_skipped, take_from, find_pages, with_gap, allocate_physical,
}

abbrev pub one_if : Bool → ℕ
one_if b = if b then 1 else 0

-- The address `x` is one of the `size` bytes at `a`.
abbrev pub within : ℕ → ℕ → ℕ → Bool
within a size x = leb a x && ltb x (a + size)

-- How many free regions the address belongs to.
abbrev pub free_at : ℕ → List Area → ℕ
free_at x [] = 0
free_at x (r ∷ rs) = one_if (r.f0 == 1 && within r.a0 r.s0 x) + free_at x rs

-- What is left of the map when a number of pages at an address are taken.
pub record IsTaken (page count : ℕ) (areas : List Area) (p : Pages) : Type 0 where
  pub aligned : p.address % page ≡ 0
  pub above_1m : 2 ^ 20 ≤ p.address
  pub some_pages : 0 < p.count
  pub no_more : p.count ≤ count
  pub taken :
      (x : ℕ) → free_at x p.areas + one_if (within p.address (p.count * page) x) ≡ free_at x areas

free_at-append : (x : ℕ) (xs ys : List Area) → free_at x (xs ++ ys) ≡ free_at x xs + free_at x ys
free_at-append x [] ys = omega arith
free_at-append x (r ∷ rs) ys = omega (arith, free_at-append x rs ys)

-- The pages of a region, its gap and its rest are the region.
three_parts :
    (a gap n left x : ℕ)
    → one_if (within a gap x) + one_if (within (a + gap) n x) + one_if (within (a + gap + n) left x)
      ≡ one_if (within a (gap + n + left) x)
three_parts a gap n left x = ground arith

-- A page of 4K, 2M or 1G, as a number of bytes, with what the code relies on of it.
pub record IsPage (page : ℕ) : Type 0 where
  pub some_bytes : 0 < page
  pub below : page ≤ 2 ^ 30
  pub aligned : (a : ℕ) → (a + gap_of page a) % page ≡ 0

pub IsPage-size : (page_size : ℕ) → page_size < 3 → IsPage (2 ^ (12 + 9 * page_size))
IsPage-size zero h = record {
  some_bytes = omega arith;
  below = omega arith;
  aligned = λ a. omega arith;
}
IsPage-size (suc zero) h = record {
  some_bytes = omega arith;
  below = omega arith;
  aligned = λ a. omega arith;
}
IsPage-size (suc (suc zero)) h = record {
  some_bytes = omega arith;
  below = omega arith;
  aligned = λ a. omega arith;
}
IsPage-size (suc (suc (suc n))) h = absurd (omega arith)

-- A free region above 1 MB with a whole page behind its gap.
pub record IsFound (page : ℕ) (r : Area) : Type 0 where
  pub is_free : (r.f0 == 1) ≡ true
  pub above : 2 ^ 20 ≤ r.a0
  pub gap_fits : gap_of page r.a0 ≤ r.s0
  pub one_page : page ≤ r.s0 - gap_of page r.a0

pub IsFound-kept : (page : ℕ) (r : Area) → is_skipped page r ≡ false → IsFound page r
unfolding is_skipped
IsFound-kept page r h = elim (Bool-cases (r.f0 == 1)) [
  | inl y ↦
      let h' = rw y at h in
      record { is_free = y; above = ground arith; gap_fits = ground arith; one_page = ground arith }
  | inr n ↦ absurd (let h' = rw n at h in cc)
]

-- The map before the gap is put back.
record IsCut (page count : ℕ) (areas : List Area) (p : Pages) : Type 0 where
  aligned : p.address % page ≡ 0
  above_1m : 2 ^ 20 ≤ p.address
  some_pages : 0 < p.count
  no_more : p.count ≤ count
  cut :
      (x : ℕ)
      → free_at x p.areas
          + one_if (within p.address (p.count * page) x)
          + one_if (within p.gap_base p.gap x)
        ≡ free_at x areas

take_from-IsCut :
    (page count : ℕ) (r : Area) (rs : List Area)
    → IsPage page
    → 0 < count
    → IsFound page r
    → r.a0 + r.s0 < 2 ^ 64
    → IsCut page count (r ∷ rs) (take_from page count r rs)
unfolding take_from
take_from-IsCut page count r rs w some_count v fits =
    let gap = gap_of page r.a0 in
    let size = r.s0 - gap in
    let n = if ltb (size / page) count then size / page else count in
    let pos = w.some_bytes in
    let at_least : 0 < size / page =
      (le-div_iff_mul-le {k = page} {x = 1} {y = size} pos).1 (omega (arith, v.one_page)) in
    let less : n ≤ size / page = ground arith in
    let inside : n * page ≤ size = (le-div_iff_mul-le {k = page} {x = n} {y = size} pos).0 less in
    let gap_in = v.gap_fits in
    let address : add64 r.a0 gap ≡ r.a0 + gap = omega arith in
    let rest : add64 r.a0 (gap + n * page) ≡ r.a0 + gap + n * page = omega arith in
    record {
      aligned = rw address (w.aligned r.a0);
      above_1m = omega (arith, v.above);
      some_pages = ground arith;
      no_more = ground arith;
      cut = λ x.
          let parts = three_parts r.a0 gap (n * page) (size - n * page) x in
          let whole_size : gap + n * page + (size - n * page) ≡ r.s0 = omega arith in
          rw (v.is_free, address, rest) (omega (arith, rw whole_size at parts));
    }

IsFound-skipped : (page : ℕ) (r : Area) → is_skipped page r ≡ true → ¬ IsFound page r
unfolding is_skipped
IsFound-skipped page r h v =
    let free = v.is_free in
    let h' = rw free at h in
    let above = v.above in let gap = v.gap_fits in let whole = v.one_page in ground arith

-- What the search through the regions gives.
FindOutcome : ℕ → ℕ → List Area → Option Pages → Type 0
FindOutcome page count areas none = All (λ r. ¬ IsFound page r) areas
FindOutcome page count areas (some p) = IsCut page count areas p

FindOutcome-more :
    (page count : ℕ) (r : Area) (rs : List Area) (o : Option Pages)
    → ¬ IsFound page r
    → FindOutcome page count rs o
    → FindOutcome page count (r ∷ rs) (o >>= λ p. some (record p { areas = r ∷ p.areas }))
unfolding FindOutcome
FindOutcome-more page count r rs none not v = (not, v)
FindOutcome-more page count r rs (some p) not v = record {
  aligned = v.aligned;
  above_1m = v.above_1m;
  some_pages = v.some_pages;
  no_more = v.no_more;
  cut = λ x. omega (arith, v.cut x);
}

find_pages-FindOutcome :
    (page count : ℕ) (areas : List Area)
    → IsPage page
    → 0 < count
    → All (λ r. r.a0 + r.s0 < 2 ^ 64) areas
    → FindOutcome page count areas (find_pages page count areas)
unfolding find_pages FindOutcome
find_pages-FindOutcome page count [] w some_count fits = tt
find_pages-FindOutcome page count (r ∷ rs) w some_count (fit, fits) =
    elim (Bool-cases (is_skipped page r)) [
      | inl y ↦ rw y (
          FindOutcome-more page count r rs (find_pages page count rs) (IsFound-skipped page r y)
            (find_pages-FindOutcome page count rs w some_count fits))
      | inr n ↦ rw n (take_from-IsCut page count r rs w some_count (IsFound-kept page r n) fit)
    ]

with_gap-IsTaken :
    (page count : ℕ) (areas : List Area) (p : Pages)
    → IsCut page count areas p
    → IsTaken page count areas (with_gap p)
unfolding with_gap
with_gap-IsTaken page count areas p v = elim (Bool-cases (p.gap == 0)) [
  | inl y ↦ rw y (record {
    aligned = v.aligned;
    above_1m = v.above_1m;
    some_pages = v.some_pages;
    no_more = v.no_more;
    taken = λ x.
        let none_in : one_if (within p.gap_base p.gap x) ≡ 0 = ground arith in
        omega (arith, v.cut x, none_in);
  })
  | inr n ↦ rw n (record {
    aligned = v.aligned;
    above_1m = v.above_1m;
    some_pages = v.some_pages;
    no_more = v.no_more;
    taken = λ x. omega (
      arith,
      v.cut x,
      free_at-append x p.areas (record { a0 = p.gap_base; s0 = p.gap; f0 = 1 } ∷ []),
    );
  })
]

-- What `allocate_physical` gives: pages that are taken, or, where the processor stops, a map without a
-- region that serves.
unfoldable pub AllocateOutcome : ℕ → ℕ → List Area → Option Pages → Type 0
AllocateOutcome page count areas none = All (λ r. ¬ IsFound page r) areas
AllocateOutcome page count areas (some p) = IsTaken page count areas p

AllocateOutcome-with_gap :
    (page count : ℕ) (areas : List Area) (o : Option Pages)
    → FindOutcome page count areas o
    → AllocateOutcome page count areas (o >>= λ p. some (with_gap p))
unfolding FindOutcome AllocateOutcome
AllocateOutcome-with_gap page count areas none v = v
AllocateOutcome-with_gap page count areas (some p) v = with_gap-IsTaken page count areas p v

-- On a map whose regions end below 2^64, for pages of 4K, 2M or 1G and a count that is not 0,
-- `allocate_physical` gives an aligned address above 1 MB and a count of pages from 1 to the one that
-- was asked for; an address is in as many free regions afterwards as before, less one if it is in these
-- pages. It stops the processor only where no free region above 1 MB has a page.
pub allocate_physical-AllocateOutcome :
    (areas : List Area) (page_size count : ℕ)
    → page_size < 3
    → 0 < count
    → All (λ r. r.a0 + r.s0 < 2 ^ 64) areas
    → AllocateOutcome
        (2 ^ (12 + 9 * page_size))
        count
        areas
        (allocate_physical areas page_size count)
unfolding allocate_physical
allocate_physical-AllocateOutcome areas page_size count h some_count fits =
    let page = 2 ^ (12 + 9 * page_size) in
    AllocateOutcome-with_gap page count areas (find_pages page count areas)
      (find_pages-FindOutcome page count areas (IsPage-size page_size h) some_count fits)

-- ===== src/Bios/Memory/Room.antt =====
-- The map has room: `allocate_physical` gives pages while a free region above 1 MB is large enough.
use native.Mathlib.Nat.{le-div_iff_mul-le}
use strawberry_os.Prelude.{
  ℕ, ◌+◌, ◌-◌, ◌*◌, ◌/◌, ◌^◌, ◌≤◌, ◌<◌, ◌≡◌, arith, true, Option, none, some, List, [], ◌∷◌, ◌++◌,
  ltb, ◌==◌, if◌then◌else◌, ◌>>=◌, add64, Bool-cases, inl, inr, ◌⊎◌, All, refl, Option-cases,
}
use strawberry_os.Bios.Memory.{
  Area, Pages, gap_of, is_skipped, take_from, find_pages, with_gap, allocate_physical,
}
use strawberry_os.Bios.Memory.Taken.{
  free_at, IsTaken, IsPage-size, IsFound, IsFound-kept, AllocateOutcome,
  allocate_physical-AllocateOutcome,
}

-- The region ends below 2^47.
abbrev pub Low : Area → Type 0
Low r = r.a0 + r.s0 < 2 ^ 47

-- A free region above 1 MB of at least `k` bytes.
abbrev pub Room : ℕ → List Area → Type 0
Room k [] = ⊥
Room k (r ∷ rs) = (((r.f0 == 1) ≡ true) × (2 ^ 20 ≤ r.a0) × (k ≤ r.s0)) ⊎ Room k rs

-- A map of regions that do not overlap, with room.
pub record IsReady (k : ℕ) (areas : List Area) : Type 0 where
  pub low : All Low areas
  pub once : (x : ℕ) → free_at x areas ≤ 1
  pub room : Room k areas

pub Room-less : (k j : ℕ) (areas : List Area) → j ≤ k → Room k areas → Room j areas
Room-less k j [] le v = v
Room-less k j (r ∷ rs) le (inl (f, a, s)) = inl (f, a, omega arith)
Room-less k j (r ∷ rs) le (inr v) = inr (Room-less k j rs le v)

Room-append : (k : ℕ) (xs ys : List Area) → Room k xs → Room k (xs ++ ys)
Room-append k [] ys v = absurd v
Room-append k (r ∷ rs) ys (inl v) = inl v
Room-append k (r ∷ rs) ys (inr v) = inr (Room-append k rs ys v)

Low-append : (xs ys : List Area) → All Low xs → All Low ys → All Low (xs ++ ys)
Low-append [] ys v w = w
Low-append (r ∷ rs) ys (h, v) w = (h, Low-append rs ys v w)

-- What is left once pages were taken: the regions, and room for less their bytes and a gap.
record IsLeft (page k : ℕ) (p : Pages) : Type 0 where
  low : All Low p.areas
  gap_low : p.gap_base + p.gap < 2 ^ 47
  room : Room (k - (p.count + 1) * page) p.areas

take_from-IsLeft :
    (page count k : ℕ) (r : Area) (rs : List Area)
    → 0 < page
    → IsFound page r
    → All Low (r ∷ rs)
    → Room k (r ∷ rs)
    → IsLeft page k (take_from page count r rs)
unfolding take_from
take_from-IsLeft page count k r rs pos v (low, lows) room =
    let gap = gap_of page r.a0 in
    let size = r.s0 - gap in
    let n = if ltb (size / page) count then size / page else count in
    let less : n ≤ size / page = ground arith in
    let inside : n * page ≤ size = (le-div_iff_mul-le {k = page} {x = n} {y = size} pos).0 less in
    let gap_in = v.gap_fits in
    let gap_less : gap < page = grind arith in
    let both : (n + 1) * page ≡ n * page + page = grind arith in
    let rest : add64 r.a0 (gap + n * page) ≡ r.a0 + gap + n * page = omega arith in
    record {
      low = (rw rest (omega arith), lows);
      gap_low = omega arith;
      room = elim room [
        | inl (f, a, s) ↦ inl (f, rw rest (omega arith), omega arith)
        | inr w ↦ inr (Room-less k (k - (n + 1) * page) rs (omega arith) w)
      ];
    }

-- The same of a search that may find no region, and of the map with the gap put back.
FindLeft : ℕ → ℕ → Option Pages → Type 0
FindLeft page k none = Unit
FindLeft page k (some p) = IsLeft page k p

FindLeft-more :
    (page k : ℕ) (r : Area) (o : Option Pages)
    → Low r
    → FindLeft page k o
    → FindLeft page k (o >>= λ p. some (record p { areas = r ∷ p.areas }))
unfolding FindLeft
FindLeft-more page k r none low v = tt
FindLeft-more page k r (some p) low v = record {
  low = (low, v.low);
  gap_low = v.gap_low;
  room = inr v.room;
}

-- A region that is passed over does not have room, if there is room for a page and its gap.
Room-rest :
    (page k : ℕ) (r : Area) (rs : List Area)
    → 0 < page
    → 2 * page ≤ k
    → is_skipped page r ≡ true
    → Room k (r ∷ rs)
    → Room k rs
unfolding is_skipped
Room-rest page k r rs pos enough h (inl (f, a, s)) =
    let gap_less : gap_of page r.a0 < page = grind arith in
    let h' = rw f at h in absurd (ground arith)
Room-rest page k r rs pos enough h (inr v) = v

find_pages-FindLeft :
    (page count k : ℕ) (areas : List Area)
    → 0 < page
    → 2 * page ≤ k
    → All Low areas
    → Room k areas
    → FindLeft page k (find_pages page count areas)
unfolding find_pages FindLeft
find_pages-FindLeft page count k [] pos enough low room = absurd room
find_pages-FindLeft page count k (r ∷ rs) pos enough (low, lows) room =
    elim (Bool-cases (is_skipped page r)) [
      | inl y ↦ rw y (
          FindLeft-more page k r (find_pages page count rs) low (
            find_pages-FindLeft page count k rs pos enough lows
              (Room-rest page k r rs pos enough y room)))
      | inr n ↦
          rw n (take_from-IsLeft page count k r rs pos (IsFound-kept page r n) (low, lows) room)
    ]

with_gap-IsLeft :
    (page k : ℕ) (p : Pages)
    → IsLeft page k p
    → All Low (with_gap p).areas × Room (k - (p.count + 1) * page) (with_gap p).areas
unfolding with_gap
with_gap-IsLeft page k p v = elim (Bool-cases (p.gap == 0)) [
  | inl y ↦ rw y (v.low, v.room)
  | inr n ↦ rw n (Low-append p.areas _ v.low (v.gap_low, tt), Room-append _ p.areas _ v.room)
]

ends-Low : (areas : List Area) → All Low areas → All (λ r. r.a0 + r.s0 < 2 ^ 64) areas
ends-Low [] v = tt
ends-Low (r ∷ rs) (h, v) = (omega arith, ends-Low rs v)

Room-IsFound :
    (page k : ℕ) (areas : List Area)
    → 0 < page
    → 2 * page ≤ k
    → Room k areas
    → ¬ All (λ r. ¬ IsFound page r) areas
Room-IsFound page k [] pos enough room all = room
Room-IsFound page k (r ∷ rs) pos enough (inl (f, a, s)) (one, all) =
    let gap_less : gap_of page r.a0 < page = grind arith in
    one (record { is_free = f; above = a; gap_fits = omega arith; one_page = omega arith })
Room-IsFound page k (r ∷ rs) pos enough (inr v) (one, all) = Room-IsFound page k rs pos enough v all

count-with_gap : (p : Pages) → (with_gap p).count ≡ p.count
unfolding with_gap
count-with_gap p = ground arith

free_at-once :
    (page count : ℕ) (areas : List Area) (p : Pages)
    → IsTaken page count areas p
    → ((x : ℕ) → free_at x areas ≤ 1)
    → (x : ℕ) → free_at x p.areas ≤ 1
free_at-once page count areas p v once x = omega (arith, v.taken x, once x)

-- With room for a page and its gap, `allocate_physical` returns pages, and leaves the rest of the room.
pub allocate_physical-IsReady :
    (areas : List Area) (page_size count k : ℕ)
    → page_size < 3
    → 0 < count
    → 2 * 2 ^ (12 + 9 * page_size) ≤ k
    → IsReady k areas
    → (p : Pages) × (allocate_physical areas page_size count ≡ some p)
      × IsTaken (2 ^ (12 + 9 * page_size)) count areas p
      × IsReady (k - (p.count + 1) * 2 ^ (12 + 9 * page_size)) p.areas
unfolding allocate_physical AllocateOutcome FindLeft
allocate_physical-IsReady areas page_size count k h some_count enough v =
    let page = 2 ^ (12 + 9 * page_size) in
    let pos = (IsPage-size page_size h).some_bytes in
    let out =
      allocate_physical-AllocateOutcome areas page_size count h some_count (ends-Low areas v.low) in
    let left = find_pages-FindLeft page count k areas pos enough v.low v.room in
    elim (Option-cases (find_pages page count areas)) [
      | inl e ↦ absurd (Room-IsFound page k areas pos enough v.room (rw e at out))
      | inr (q, e) ↦
          let left' : IsLeft page k q = rw e at left in
          let taken : IsTaken page count areas (with_gap q) = rw e at out in
          let (low, room) = with_gap-IsLeft page k q left' in
          (
            with_gap q,
            rw e refl,
            taken,
            record {
              low = low;
              once = free_at-once page count areas (with_gap q) taken v.once;
              room = rw (count-with_gap q) room;
            },
          )
    ]

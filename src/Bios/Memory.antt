-- ===== src/Bios/Memory.antt =====
-- `allocate_physical`: pages from the memory map of the BIOS.
--
-- The map at `SYSTEM_TABLE_MMAP` is the list of its regions up to `end`.
pub mod Taken
pub mod Room
mod Tests
use strawberry_os.Prelude.{
  ℕ, zero, suc, ◌+◌, ◌-◌, ◌*◌, ◌/◌, ◌%◌, ◌^◌, Bool, true, false, ◌||◌, Option, none, some, List, [],
  ◌∷◌, ◌++◌, ltb, ◌==◌, if◌then◌else◌, ◌>>=◌, add64,
}

-- A region: `A0`, `S0`, and the `DWORD` of `F0`.
pub record Area : Type 0 where
  pub a0 : ℕ
  pub s0 : ℕ
  pub f0 : ℕ

-- What `allocate_physical` gives: the address, the number of pages, the map, and the size of the gap
-- before the address, with the base of it.
pub record Pages : Type 0 where
  pub address : ℕ
  pub count : ℕ
  pub areas : List Area
  pub gap_base : ℕ
  pub gap : ℕ

-- `(-S1) & (page - 1)`
abbrev pub gap_of : ℕ → ℕ → ℕ
gap_of page a0 = (page - a0 % page) % page

-- Whether the loop goes on to the next region.
unfoldable pub is_skipped : ℕ → Area → Bool
is_skipped page r =
    (if r.f0 == 1 then false else true)
    || ltb r.a0 (2 ^ 20)
    || ltb r.s0 (gap_of page r.a0)
    || ltb (r.s0 - gap_of page r.a0) page

-- The pages of one region.
unfoldable pub take_from : ℕ → ℕ → Area → List Area → Pages
take_from page count r rs =
    let gap = gap_of page r.a0 in
    let size = r.s0 - gap in
    let n = if ltb (size / page) count then size / page else count in
    record {
      address = add64 r.a0 gap;
      count = n;
      areas = record r { a0 = add64 r.a0 (gap + n * page); s0 = size - n * page } ∷ rs;
      gap_base = r.a0;
      gap = gap;
    }

-- The loop over the regions; without one that serves, the processor stops.
unfoldable pub find_pages : ℕ → ℕ → List Area → Option Pages
find_pages page count [] = none
find_pages page count (r ∷ rs) =
    let rest = find_pages page count rs in
    if is_skipped page r
    then (rest >>= λ p. some (record p { areas = r ∷ p.areas }))
    else some (take_from page count r rs)

-- The gap becomes a region at the end of the map.
unfoldable pub with_gap : Pages → Pages
with_gap p =
    if p.gap == 0
    then p
    else record p { areas = p.areas ++ record { a0 = p.gap_base; s0 = p.gap; f0 = 1 } ∷ [] }

-- `allocate_physical`
unfoldable pub allocate_physical : List Area → ℕ → ℕ → Option Pages
allocate_physical areas page_size count =
    find_pages (2 ^ (12 + 9 * page_size)) count areas >>= λ p. some (with_gap p)

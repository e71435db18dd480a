-- ===== src/Physical/Free.antt =====
-- `FreePhysicalMemory`.
use strawberry_os.Prelude.{
  ℕ, ◌+◌, ◌*◌, ◌^◌, ◌≤◌, ◌<◌, ◌≡◌, refl, List, arith, inl, inr, ◌==◌, some, true, false, ltb, mul64,
  u64,
}
use strawberry_os.Block.{Tree}
use strawberry_os.Block.Insert.{insert_memory_node}
use strawberry_os.Block.Items.{items}
use strawberry_os.Block.Removal.{uses}
use strawberry_os.Block.Cover.{inside, overlaps}
use strawberry_os.Block.Map.{IsMap}
use strawberry_os.Physical.{free_physical_memory, page_bytes, new_block}
use strawberry_os.Physical.Taken.{insert_apart}
use strawberry_os.Physical.Search.{page_bytes_cases}

page_bytes_pos : (n count : ℕ) → n ≤ 2 → 0 < count → 0 < page_bytes n * count
page_bytes_pos n count h k = elim (page_bytes_cases n h) [
  | inl e ↦ rw e (omega arith)
  | inr (inl e) ↦ rw e (omega arith)
  | inr (inr e) ↦ rw e (omega arith)
]

free_physical_memory-eq :
    (ptr : ℕ) (t : Tree) (address n count : ℕ) (t' : Tree) (freed : List ℕ)
    → n ≤ 2
    → 0 < count
    → address + 1 < 2 ^ 64
    → page_bytes n * count < 2 ^ 64
    → insert_memory_node t (new_block ptr address (page_bytes n * count)) true ≡ some (t', freed)
    → free_physical_memory ptr t address n count ≡ some (0, t')
unfolding free_physical_memory
free_physical_memory-eq ptr t address n count t' freed size pos not_last bounded e =
    let known_size : ltb 2 n ≡ false = ground arith in
    let some_count : (count == 0) ≡ false = ground arith in
    let not_null : (u64 (address + 1) == 0) ≡ false = ground arith in
    let whole : mul64 (page_bytes n) count ≡ page_bytes n * count = omega arith in
    rw (known_size, some_count, not_null, whole, e) refl

-- `FreePhysicalMemory` of pages that are not free, and whose end is a `QWORD`, gives exactly these
-- pages back to a well-formed map.
pub free_physical_memory_lem :
    (ptr : ℕ) (t : Tree) (address n count : ℕ)
    → IsMap 1 t
    → uses ptr (items t) ≡ 0
    → n ≤ 2
    → 0 < count
    → address + page_bytes n * count < 2 ^ 64
    → ((x : ℕ) → overlaps x (items t) + inside x (new_block 0 address (page_bytes n * count)) ≤ 1)
    → (t' : Tree) × (free_physical_memory ptr t address n count ≡ some (0, t'))
      × IsMap 1 t'
      × ((x : ℕ)
          → overlaps x (items t')
            ≡ overlaps x (items t) + inside x (new_block 0 address (page_bytes n * count)))
free_physical_memory_lem ptr t address n count v fresh size pos fit apart =
    let some_bytes = page_bytes_pos n count size pos in
    let (t', freed, e, v', added) =
      insert_apart t (new_block ptr address (page_bytes n * count)) v (omega arith) fresh apart in
    (
      t',
      free_physical_memory-eq ptr t address n count t' freed size pos (omega arith) (omega arith) e,
      v',
      added,
    )

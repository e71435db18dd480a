-- ===== src/Startup.antt =====
-- KERNEL/SOURCE/memory/page.c: `setup_paging`, which makes the map of the physical memory from the
-- regions that the loader hands over, and `ForeachMemoryMap`, which prints it.
--
-- The regions are those of EFI/main.c, and the node of each is what `HeapAlloc` gives for it.
pub mod Regions
mod Tests
use strawberry_os.Prelude.{
  ℕ, ◌+◌, ◌&&◌, true, false, List, [], ◌∷◌, ◌++◌, Option, some, none, ◌%◌, ◌==◌, if◌then◌else◌,
  add64, ◌>>=◌,
}
use strawberry_os.Block.{Tree, leaf, node}
use strawberry_os.Block.Insert.{insert_memory_node}
use strawberry_os.Physical.{new_block}
use strawberry_os.Efi.{Region}

-- The node of one region.
unfoldable pub add_region : (Tree → ℕ) → Region → Tree → Option Tree
add_region new_node beg t =
    if beg.f == 1 && (if beg.l == 0 then false else true)
    then (do (t', freed) ← insert_memory_node t (new_block (new_node t) beg.a beg.l) true; some t')
    else some t

-- The loop over the regions.
unfoldable pub add_regions : (Tree → ℕ) → List Region → Tree → Option Tree
add_regions new_node [] t = some t
add_regions new_node (beg ∷ rs) t = do t' ← add_region new_node beg t; add_regions new_node rs t'

-- `total`
unfoldable pub total_memory : List Region → ℕ → ℕ
total_memory [] total = total
total_memory (beg ∷ rs) total = total_memory rs (add64 total beg.l)

-- A line that `ForeachMemoryMap` prints: the base, the size, the state, which it prints only if bit 0
-- of its flag is set, and the height.
pub record MapLine : Type 0 where
  pub a : ℕ
  pub s : ℕ
  pub v : Option ℕ
  pub height : ℕ

-- `ForeachMemoryMap`: what it returns, and the lines.
unfoldable pub foreach_memory_map : Tree → ℕ → ℕ → ℕ × List MapLine
foreach_memory_map leaf height flag = (0, [])
foreach_memory_map (node l b r) height flag =
    let (left, above) = foreach_memory_map l (height + 1) flag in
    let (right, below) = foreach_memory_map r (height + 1) flag in
    let v : Option ℕ = if flag % 2 == 1 then some b.v else none in
    let line : MapLine = record { a = b.a; s = b.s; v = v; height = height } in
    (add64 (add64 left b.s) right, above ++ (line ∷ below))

-- What `setup_paging` leaves: the map, the free and the total memory that it prints, and the lines.
pub record Started : Type 0 where
  pub map : Tree
  pub free : ℕ
  pub total : ℕ
  pub lines : List MapLine

-- `setup_paging`, from an empty map; `none` is the use of a node that was freed.
unfoldable pub setup_paging : (Tree → ℕ) → List Region → Option Started
setup_paging new_node regions = do
  t ← add_regions new_node regions leaf
  let (free, lines) = foreach_memory_map t 1 0
  some (record { map = t; free = free; total = total_memory regions 0; lines = lines })

-- ===== src/Physical/Tests.antt =====
-- The allocator of physical pages at concrete inputs.
use strawberry_os.Prelude.{ℕ, ◌+◌, ◌≡◌, refl, arith, some}
use strawberry_os.Block.{Tree, leaf, node, higher}
use strawberry_os.Block.Items.{items}
use strawberry_os.Block.Cover.{inside, overlaps}
use strawberry_os.Block.Map.{IsMap}
use strawberry_os.Block.Fresh.{next_node, next_node_fresh}
use strawberry_os.Physical.{new_block, allocate_physical_memory, free_physical_memory}
use strawberry_os.Physical.Allocate.{Outcome, allocate_physical_memory-Outcome}
use strawberry_os.Physical.Free.{free_physical_memory_lem}

-- Two ranges of free memory, of which only the second has a whole page.
abbrev free_memory : Tree
free_memory =
    node leaf (record { ptr = 2; h = 2; a = 100; s = 4096; v = 0 })
      (node leaf (record { ptr = 3; h = 1; a = 8000; s = 20000; v = 0 }) leaf)

free_memory-IsMap : IsMap 1 free_memory
unfolding higher
free_memory-IsMap = record {
  avl = (tt, (tt, tt, refl, omega arith, omega arith), refl, omega arith, omega arith);
  sorted = omega arith;
  fits = omega arith;
  distinct = λ p. ground arith;
}

allocate_physical_memory-Outcome_example :
    Outcome 4096 3 free_memory (allocate_physical_memory 3 next_node free_memory 0 0 3)
allocate_physical_memory-Outcome_example =
    allocate_physical_memory-Outcome next_node free_memory 0 0 3 3 next_node_fresh (omega arith)
      (omega arith) free_memory-IsMap (λ x. ground arith) (omega arith)

free_physical_memory_lem_example :
    (t' : Tree) × (free_physical_memory 9 free_memory 32768 0 2 ≡ some (0, t'))
    × IsMap 1 t'
    × ((x : ℕ)
        → overlaps x (items t')
          ≡ overlaps x (items free_memory) + inside x (new_block 0 32768 8192))
free_physical_memory_lem_example =
    free_physical_memory_lem 9 free_memory 32768 0 2 free_memory-IsMap refl (omega arith)
      (omega arith) (omega arith) (λ x. ground arith)

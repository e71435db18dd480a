-- ===== src/Heap/Tests.antt =====
-- The kernel heap at concrete inputs.
use strawberry_os.Prelude.{ℕ, ◌^◌, ◌-◌, ◌≡◌, ◌==◌, if◌then◌else◌, refl, List, [], ◌∷◌, some, arith}
use strawberry_os.Heap.{heap_alloc, heap_free}
use strawberry_os.Heap.Layout.{Chunk, IsLaid, in_use}
use strawberry_os.Heap.Alloc.{used_chunk, free_chunk, IsAdded, IsServed, heap_alloc-IsServed}
use strawberry_os.Heap.Free.{heap_free_lem}

-- A used block of 2 `QWORD`s, two free ones of 1 and 4, and the end.
abbrev heap_words : ℕ → ℕ
heap_words p = if p == 100 then 17 else if p == 103 then 8 else if p == 105 then 32 else 2 ^ 64 - 1

abbrev chunks : List Chunk
chunks = used_chunk 2 ∷ free_chunk 1 ∷ free_chunk 4 ∷ []

heap_alloc-IsServed_example :
    (r : ℕ) × (w' : ℕ → ℕ) × (heap_alloc 4 heap_words 100 20 ≡ some (r, w'))
    × IsServed heap_words 100 3 chunks r w'
heap_alloc-IsServed_example =
    heap_alloc-IsServed 4 heap_words 100 20 chunks (omega arith) (omega arith)
      (refl, (refl, (refl, refl))) (omega arith) (omega arith)

heap_free_lem_example :
    IsLaid (heap_free heap_words 101) 100 (free_chunk 2 ∷ free_chunk 1 ∷ free_chunk 4 ∷ [])
    × IsAdded
        (100, 2)
        (in_use 100 (free_chunk 2 ∷ free_chunk 1 ∷ free_chunk 4 ∷ []))
        (in_use 100 chunks)
heap_free_lem_example =
    heap_free_lem heap_words 100 2 [] (free_chunk 1 ∷ free_chunk 4 ∷ [])
      (refl, (refl, (refl, refl)))

-- ===== src/Heap/Setup.antt =====
-- `setup_heap`.
use strawberry_os.Prelude.{ℕ, ◌+◌, ◌≡◌, ◌∙◌, [], ◌∷◌, arith, ◌/◌, ◌^◌, ◌-◌}
use strawberry_os.Heap.{set_word, setup_heap}
use strawberry_os.Heap.Layout.{IsLaid, set_word_same, set_word_other}
use strawberry_os.Heap.Alloc.{free_chunk}

-- `setup_heap` leaves words that describe one free block, which with its header and the last word
-- takes 16 MB.
setup_heap-IsLaid :
    (w : ℕ → ℕ) (heap : ℕ) → IsLaid (setup_heap w heap) heap (free_chunk (0x1000000 / 8 - 2) ∷ [])
unfolding setup_heap
setup_heap-IsLaid w heap =
    let first = set_word w heap 0x00FFFFF0 in
    let last = heap + 0x00FFFFF8 / 8 in
    let e : heap + (0x1000000 / 8 - 2) + 1 ≡ last = omega arith in
    (
      set_word_other first last (2 ^ 64 - 1) heap (omega arith) ∙ set_word_same w heap 0x00FFFFF0,
      rw e (set_word_same first last (2 ^ 64 - 1)),
    )

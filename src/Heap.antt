-- ===== src/Heap.antt =====
-- KERNEL/SOURCE/memory/heap.c: the kernel heap.
--
-- The memory of the heap is a function from the index of a `QWORD` to its value, and a pointer to a
-- `QWORD` is such an index. A header has the size of the payload in bytes, and bit 0 where the block is
-- in use. The loops run on fuel, and `none` is the end of the fuel.
pub mod Layout
pub mod Alloc
pub mod Free
pub mod Setup
mod Tests
use strawberry_os.Prelude.{
  ℕ, zero, suc, ◌+◌, ◌*◌, ◌/◌, ◌%◌, ◌^◌, ◌-◌, Option, none, some, ltb, leb, ◌==◌, if◌then◌else◌,
  u64, add64, sub64, ◌>>=◌, Bool,
}

-- `*p = x`
abbrev pub set_word : (ℕ → ℕ) → ℕ → ℕ → ℕ → ℕ
set_word w p x q = if q == p then x else w q

-- `*p & 1`
abbrev pub is_used : ℕ → Bool
is_used x = x % 2 == 1

-- `size` rounded up to whole `QWORD`s.
abbrev pub fix_size : ℕ → ℕ
fix_size size = u64 (u64 (sub64 size 1 / 8 + 1) * 8)

-- The header behind the payload of a block: `p += *p >> 3; p++`.
abbrev pub next_header : (ℕ → ℕ) → ℕ → ℕ
next_header w p = p + w p / 8 + 1

-- `while (!(*next & 1))`: free blocks are merged into the one at `block`.
unfoldable pub merge_free : ℕ → (ℕ → ℕ) → ℕ → ℕ → Option (ℕ → ℕ)
merge_free zero w block next = none
merge_free (suc fuel) w block next =
    let w' = set_word w block (add64 (add64 (w block) (w next / 8 * 8)) 8) in
    let rest = merge_free fuel w' block (next_header w' next) in
    if is_used (w next) then some w else rest

-- The block is used: where it is larger than needed, what is left becomes a block.
unfoldable pub use_block : (ℕ → ℕ) → ℕ → ℕ → ℕ → ℕ → ℕ
use_block w block size block_size =
    let cut = set_word w block size in
    let split = set_word cut (block + size / 8 + 1) (sub64 (sub64 block_size size) 8) in
    let chosen = if ltb size block_size then split else w in
    set_word chosen block (chosen block / 2 * 2 + 1)

-- The blocks from `block` on, up to one that is free and large enough: its payload, or 0.
unfoldable pub walk_blocks : ℕ → (ℕ → ℕ) → ℕ → ℕ → Option (ℕ × (ℕ → ℕ))
walk_blocks zero w block size = none
walk_blocks (suc fuel) w block size =
    let further = walk_blocks fuel w (next_header w block) size in
    let merged = (do
      w' ← merge_free fuel w block (next_header w block)
      let block_size = w' block / 8 * 8
      let rest = walk_blocks fuel w' (next_header w' block) size
      if leb size block_size then some (block + 1, use_block w' block size block_size) else rest) in
    if w block == 2 ^ 64 - 1 then some (0, w) else if is_used (w block) then further else merged

-- `setup_heap`, for the heap at `heap`: one free block, and the last word.
unfoldable pub setup_heap : (ℕ → ℕ) → ℕ → ℕ → ℕ
setup_heap w heap = set_word (set_word w heap 0x00FFFFF0) (heap + 0x00FFFFF8 / 8) (2 ^ 64 - 1)

-- `HeapAlloc`
unfoldable pub heap_alloc : ℕ → (ℕ → ℕ) → ℕ → ℕ → Option (ℕ × (ℕ → ℕ))
heap_alloc fuel w heap size = walk_blocks fuel w heap (fix_size size)

-- `HeapFree`
unfoldable pub heap_free : (ℕ → ℕ) → ℕ → ℕ → ℕ
heap_free w p = set_word w (p - 1) (w (p - 1) / 2 * 2)

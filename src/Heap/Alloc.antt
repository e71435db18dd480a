-- ===== src/Heap/Alloc.antt =====
-- `HeapAlloc` and `HeapFree` on the blocks of a heap.
use mathlib.Core.Path.{subst}
use strawberry_os.Prelude.{
  ℕ, zero, suc, ◌+◌, ◌*◌, ◌/◌, ◌^◌, ◌-◌, ◌≤◌, ◌<◌, ◌≡◌, ◌≢◌, refl, sym, ap, ◌∙◌, Option, some, ltb,
  leb, ◌==◌, true, false, List, [], ◌∷◌, ◌++◌, length, arith, inl, inr, Bool-cases, ==_iff, All,
  sub64,
}
use strawberry_os.Heap.{
  set_word, is_used, next_header, merge_free, use_block, walk_blocks, heap_alloc, fix_size,
}
use strawberry_os.Heap.Layout.{
  Chunk, IsLaid, extent, in_use, absorb_free, set_word_same, set_word_other, IsLaid-agree,
  length-absorb_free, extent-absorb_free, in_use-absorb_free, merge_free_lem,
}

-- `ys` is `xs` with one block more.
abbrev pub IsAdded : ℕ × ℕ → List (ℕ × ℕ) → List (ℕ × ℕ) → Type 0
IsAdded b xs ys =
    (ls : List (ℕ × ℕ)) × (rs : List (ℕ × ℕ)) × (xs ≡ ls ++ rs) × (ys ≡ ls ++ (b ∷ rs))

-- Every free block is smaller.
abbrev pub IsFull : ℕ → List Chunk → Type 0
IsFull n cs = All (λ c. c.used ≡ false → c.size < n) cs

-- What an allocation of `n` `QWORD`s returns, and leaves.
pub data Reply (n p : ℕ) (cs cs' : List Chunk) : ℕ → Type 0 where
  null : in_use p cs' ≡ in_use p cs → IsFull n cs' → Reply n p cs cs' 0
  block : (q : ℕ) → IsAdded (q, n) (in_use p cs) (in_use p cs') → Reply n p cs cs' (q + 1)

pub record IsServed (w : ℕ → ℕ) (p n : ℕ) (cs : List Chunk) (r : ℕ) (w' : ℕ → ℕ) : Type 0 where
  pub chunks : List Chunk
  pub laid : IsLaid w' p chunks
  pub same_extent : extent chunks ≡ extent cs
  pub reply : Reply n p cs chunks r
  pub outside : (q : ℕ) → q < p → w' q ≡ w q

abbrev pub used_chunk : ℕ → Chunk
used_chunk n = record { size = n; used = true }

abbrev pub free_chunk : ℕ → Chunk
free_chunk n = record { size = n; used = false }

-- A used block with a free one in front of blocks that did not change.
IsLaid-split :
    (w v : ℕ → ℕ) (p s n : ℕ) (cs : List Chunk)
    → n < s
    → v p ≡ n * 8 + 1
    → v (p + n + 1) ≡ (s - n - 1) * 8
    → ((q : ℕ) → p + n + 1 < q → v q ≡ w q)
    → IsLaid w (p + s + 1) cs
    → IsLaid v p (used_chunk n ∷ free_chunk (s - n - 1) ∷ cs)
IsLaid-split w v p s n cs lt e1 e2 same laid = (
  e1,
  (
    e2 ∙ omega arith,
    IsLaid-agree w v _ cs (λ q le. same q (omega arith))
        (subst (λ r. IsLaid w r cs) (omega arith) laid),
  ),
)

IsLaid-whole :
    (w v : ℕ → ℕ) (p s n : ℕ) (cs : List Chunk)
    → n ≡ s
    → v p ≡ s * 8 + 1
    → ((q : ℕ) → p < q → v q ≡ w q)
    → IsLaid w (p + s + 1) cs
    → IsLaid v p (used_chunk n ∷ cs)
IsLaid-whole w v p s n cs ns e same laid = (
  e ∙ omega arith,
  IsLaid-agree w v (p + n + 1) cs (λ q le. same q (omega arith))
      (subst (λ r. IsLaid w r cs) (omega arith) laid),
)

-- What `use_block` writes, where it splits the block and where it does not.
module _ (w : ℕ → ℕ) (p s n : ℕ) where
  use_block-split :
      n < s
      → s < 2 ^ 61
      → (use_block w p (n * 8) (s * 8) p ≡ n * 8 + 1)
        × (use_block w p (n * 8) (s * 8) (p + n + 1) ≡ (s - n - 1) * 8)
        × ((q : ℕ) → q ≢ p → q ≢ p + n + 1 → use_block w p (n * 8) (s * 8) q ≡ w q)
  unfolding use_block
  use_block-split lt room =
      let y : ltb (n * 8) (s * 8) ≡ true = ground arith in
      let place : p + n * 8 / 8 + 1 ≡ p + n + 1 = omega arith in
      let cut = set_word w p (n * 8) in
      let x = sub64 (sub64 (s * 8) (n * 8)) 8 in
      let v = set_word cut (p + n + 1) x in
      let z = v p / 2 * 2 + 1 in
      let here : set_word cut (p + n + 1) x p ≡ n * 8 =
        set_word_other cut (p + n + 1) x p (omega arith) ∙ set_word_same w p (n * 8) in
      (
        rw (y, place) (set_word_same v p z ∙ rw here (omega arith)),
        rw (y, place)
            (set_word_other v p z (p + n + 1) (omega arith)
              ∙ (set_word_same cut (p + n + 1) x ∙ omega arith)),
        λ q ne1 ne2.
            rw (y, place)
              (set_word_other v p z q ne1
                ∙ (set_word_other cut (p + n + 1) x q ne2 ∙ set_word_other w p (n * 8) q ne1)),
      )

  use_block-whole :
      n ≡ s
      → w p ≡ s * 8
      → (use_block w p (n * 8) (s * 8) p ≡ s * 8 + 1)
        × ((q : ℕ) → q ≢ p → use_block w p (n * 8) (s * 8) q ≡ w q)
  unfolding use_block
  use_block-whole e h =
      let k : ltb (n * 8) (s * 8) ≡ false = ground arith in
      (rw k (set_word_same w p _ ∙ rw h (omega arith)), λ q ne. rw k (set_word_other w p _ q ne))

-- The free block at `p` with `s` `QWORD`s is used for `n` of them.
use_block_lem :
    (w : ℕ → ℕ) (p s n : ℕ) (cs : List Chunk)
    → s + extent cs < 2 ^ 61
    → n ≤ s
    → w p ≡ s * 8
    → IsLaid w (p + s + 1) cs
    → (cs' : List Chunk) × IsLaid (use_block w p (n * 8) (s * 8)) p (used_chunk n ∷ cs')
      × (n + extent cs' ≡ s + extent cs)
      × (in_use (p + n + 1) cs' ≡ in_use (p + s + 1) cs)
      × ((q : ℕ) → q < p → use_block w p (n * 8) (s * 8) q ≡ w q)
use_block_lem w p s n cs room le h laid = elim (Bool-cases (ltb n s)) [
  | inl y ↦
      let lt : n < s = ground arith in
      let (e1, e2, same) = use_block-split w p s n lt (omega arith) in
      (
        free_chunk (s - n - 1) ∷ cs,
        IsLaid-split w _ p s n cs lt e1 e2 (λ q gt. same q (omega arith) (omega arith)) laid,
        omega arith,
        ap (λ r. in_use r cs) (omega arith),
        λ q lt'. same q (omega arith) (omega arith),
      )
  | inr k ↦
      let e : n ≡ s = ground arith in
      let (e1, same) = use_block-whole w p s n e h in
      (
        cs,
        IsLaid-whole w _ p s n cs e e1 (λ q gt. same q (omega arith)) laid,
        omega arith,
        ap (λ r. in_use (p + r + 1) cs) e,
        λ q lt'. same q (omega arith),
      )
]

-- What one round of the walk does.
module _ (fuel : ℕ) (w : ℕ → ℕ) (p size : ℕ) where
  walk_end : w p ≡ 2 ^ 64 - 1 → walk_blocks (suc fuel) w p size ≡ some (0, w)
  unfolding walk_blocks
  walk_end e = let y : (w p == 2 ^ 64 - 1) ≡ true = (==_iff _ _).1 e in rw y refl

  walk_used :
      (next : ℕ) (o : Option (ℕ × (ℕ → ℕ)))
      → (w p == 2 ^ 64 - 1) ≡ false
      → is_used (w p) ≡ true
      → next_header w p ≡ next
      → walk_blocks fuel w next size ≡ o
      → walk_blocks (suc fuel) w p size ≡ o
  unfolding walk_blocks
  walk_used next o n u e h = rw (n, u, e) h

  walk_fit :
      (w' : ℕ → ℕ) (next s : ℕ)
      → (w p == 2 ^ 64 - 1) ≡ false
      → is_used (w p) ≡ false
      → next_header w p ≡ next
      → merge_free fuel w p next ≡ some w'
      → w' p / 8 * 8 ≡ s
      → leb size s ≡ true
      → walk_blocks (suc fuel) w p size ≡ some (p + 1, use_block w' p size s)
  unfolding walk_blocks
  walk_fit w' next s n u e h b fit = rw (n, u, e, h, b, fit) refl

  walk_small :
      (w' : ℕ → ℕ) (next next' s : ℕ) (o : Option (ℕ × (ℕ → ℕ)))
      → (w p == 2 ^ 64 - 1) ≡ false
      → is_used (w p) ≡ false
      → next_header w p ≡ next
      → merge_free fuel w p next ≡ some w'
      → w' p / 8 * 8 ≡ s
      → leb size s ≡ false
      → next_header w' p ≡ next'
      → walk_blocks fuel w' next' size ≡ o
      → walk_blocks (suc fuel) w p size ≡ o
  unfolding walk_blocks
  walk_small w' next next' s o n u e h b small e' r = rw (n, u, e, h, b, small, e') r

-- The reply for the blocks behind a used one, and behind a free one that is too small.
Reply-used :
    (n p : ℕ) (c : Chunk) (cs cs' : List Chunk) (r : ℕ)
    → c.used ≡ true
    → Reply n (p + c.size + 1) cs cs' r
    → Reply n p (c ∷ cs) (c ∷ cs') r
Reply-used n p c cs cs' _ u (null same full) =
    null (rw u (ap (λ l. (p, c.size) ∷ l) same)) ((λ f. cc), full)
Reply-used n p c cs cs' _ u (block q (ls, rs, ex, ey)) =
    block q
      (rw u ((p, c.size) ∷ ls, rs, ap (λ l. (p, c.size) ∷ l) ex, ap (λ l. (p, c.size) ∷ l) ey))

Reply-free :
    (n p s : ℕ) (cs0 cs cs' : List Chunk) (r : ℕ)
    → s < n
    → in_use (p + s + 1) cs ≡ in_use p cs0
    → Reply n (p + s + 1) cs cs' r
    → Reply n p cs0 (free_chunk s ∷ cs') r
Reply-free n p s cs0 cs cs' _ lt e (null same full) = null (same ∙ e) ((λ f. lt), full)
Reply-free n p s cs0 cs cs' _ lt e (block q (ls, rs, ex, ey)) = block q (ls, rs, sym e ∙ ex, ey)

-- The walk from the header at `p`.
walk_blocks_lem :
    (fuel : ℕ) (w : ℕ → ℕ) (p n : ℕ) (cs : List Chunk)
    → length cs < fuel
    → extent cs < 2 ^ 61
    → IsLaid w p cs
    → (r : ℕ) × (w' : ℕ → ℕ) × (walk_blocks fuel w p (n * 8) ≡ some (r, w'))
      × IsServed w p n cs r w'
walk_blocks_lem zero w p n cs enough room laid = absurd (omega arith)
walk_blocks_lem (suc fuel) w p n [] enough room laid = (
  0,
  w,
  walk_end fuel w p (n * 8) laid,
  record {
    chunks = [];
    laid = laid;
    same_extent = refl;
    reply = null refl tt;
    outside = λ q lt. refl;
  },
)
walk_blocks_lem (suc fuel) w p n (c ∷ cs) enough room laid = elim (Bool-cases c.used) [
  | inl y ↦
      let e : w p ≡ c.size * 8 + 1 = rw y at laid.0 in
      let (r, w', e', served) =
        walk_blocks_lem fuel w (p + c.size + 1) n cs (omega arith) (omega arith) laid.1 in
      (
        r,
        w',
        walk_used fuel w p (n * 8) (p + c.size + 1) _ (ground arith) (ground arith) (omega arith)
            e',
        record {
          chunks = c ∷ served.chunks;
          laid = (served.outside p (omega arith) ∙ laid.0, served.laid);
          same_extent = omega (arith, served.same_extent);
          reply = Reply-used n p c cs served.chunks r y served.reply;
          outside = λ q lt. served.outside q (omega arith);
        },
      )
  | inr k ↦
      let e : w p ≡ c.size * 8 + 0 = rw k at laid.0 in
      let (w1, e1, h1, kept, laid1) =
        merge_free_lem fuel w p c.size cs (omega arith) (omega arith) (omega arith) laid.1 in
      let s = (absorb_free c.size cs).0 in
      let cs1 = (absorb_free c.size cs).1 in
      let total : s + extent cs1 ≡ c.size + extent cs = extent-absorb_free c.size cs in
      let uses1 : in_use (p + s + 1) cs1 ≡ in_use p (c ∷ cs) =
        rw k (in_use-absorb_free p c.size cs) in
      elim (Bool-cases (leb (n * 8) (s * 8))) [
        | inl fit ↦
            let le : n ≤ s = ground arith in
            let (cs2, laid2, total2, uses2, kept2) =
              use_block_lem w1 p s n cs1 (omega arith) le h1 laid1 in
            (
              p + 1,
              use_block w1 p (n * 8) (s * 8),
              walk_fit fuel w p (n * 8) w1 (p + c.size + 1) (s * 8) (ground arith) (ground arith)
                  (omega arith) e1 (omega arith) fit,
              record {
                chunks = used_chunk n ∷ cs2;
                laid = laid2;
                same_extent = omega arith;
                reply = block p ([], in_use p (c ∷ cs), refl, ap (λ l. (p, n) ∷ l) (uses2 ∙ uses1));
                outside = λ q lt. kept2 q lt ∙ kept q (omega arith);
              },
            )
        | inr small ↦
            let (r, w', e', served) =
              walk_blocks_lem fuel w1 (p + s + 1) n cs1
                (omega (arith, length-absorb_free c.size cs)) (omega arith) laid1 in
            (
              r,
              w',
              walk_small fuel w p (n * 8) w1 (p + c.size + 1) (p + s + 1) (s * 8) _ (ground arith)
                  (ground arith) (omega arith) e1 (omega arith) small (omega arith) e',
              record {
                chunks = free_chunk s ∷ served.chunks;
                laid = (served.outside p (omega arith) ∙ (h1 ∙ omega arith), served.laid);
                same_extent = omega (arith, served.same_extent);
                reply =
                    Reply-free n p s (c ∷ cs) cs1 served.chunks r (ground arith) uses1 served.reply;
                outside = λ q lt. served.outside q (omega arith) ∙ kept q (omega arith);
              },
            )
      ]
]

-- `HeapAlloc` of a size that is not 0, on a heap whose words describe blocks: it ends, and what it
-- leaves describes blocks of the same extent. Either it returns 0, the blocks in use are the same,
-- and every free block is too small; or it returns the payload of a block that holds the size rounded
-- up to whole `QWORD`s, and the blocks in use are those from before and this one.
pub heap_alloc-IsServed :
    (fuel : ℕ) (w : ℕ → ℕ) (heap size : ℕ) (cs : List Chunk)
    → length cs < fuel
    → extent cs < 2 ^ 61
    → IsLaid w heap cs
    → 0 < size
    → size + 8 < 2 ^ 64
    → (r : ℕ) × (w' : ℕ → ℕ) × (heap_alloc fuel w heap size ≡ some (r, w'))
      × IsServed w heap ((size + 7) / 8) cs r w'
unfolding heap_alloc
heap_alloc-IsServed fuel w heap size cs enough room laid pos bound =
    let fixed : fix_size size ≡ (size + 7) / 8 * 8 = omega arith in
    rw fixed (walk_blocks_lem fuel w heap ((size + 7) / 8) cs enough room laid)

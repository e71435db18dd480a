-- ===== src/Heap/Free.antt =====
-- `HeapFree` on the blocks of a heap.
use mathlib.Core.Path.{subst}
use strawberry_os.Prelude.{
  ℕ, ◌+◌, ◌*◌, ◌/◌, ◌-◌, ◌≡◌, refl, ap, ◌∙◌, List, [], ◌∷◌, ◌++◌, arith, inl, inr, Bool-cases,
}
use strawberry_os.Heap.{set_word, heap_free}
use strawberry_os.Heap.Layout.{
  Chunk, header, IsLaid, extent, in_use, set_word_same, set_word_other, IsLaid-agree,
}
use strawberry_os.Heap.Alloc.{used_chunk, free_chunk, IsAdded}

in_use-append :
    (p : ℕ) (ls cs : List Chunk) → in_use p (ls ++ cs) ≡ in_use p ls ++ in_use (p + extent ls) cs
in_use-append p [] cs = ap (λ r. in_use r cs) (omega arith)
in_use-append p (l ∷ ls) cs =
    let e : in_use (p + l.size + 1) (ls ++ cs)
        ≡ in_use (p + l.size + 1) ls ++ in_use (p + extent (l ∷ ls)) cs =
      in_use-append (p + l.size + 1) ls cs
      ∙ ap (λ r. in_use (p + l.size + 1) ls ++ in_use r cs) (omega arith) in
    elim (Bool-cases l.used) [ inl y ↦ rw y (ap (λ r. (p, l.size) ∷ r) e) | inr n ↦ rw n e ]

header_at :
    (w : ℕ → ℕ) (p : ℕ) (ls rs : List Chunk) (c : Chunk)
    → IsLaid w p (ls ++ (c ∷ rs))
    → w (p + extent ls) ≡ header c
header_at w p [] rs c laid = subst (λ q. w q ≡ header c) (omega arith) laid.0
header_at w p (l ∷ ls) rs c laid =
    subst (λ q. w q ≡ header c) (omega arith) (header_at w (p + l.size + 1) ls rs c laid.1)

-- A header of the same size can be stored over another.
store_header :
    (w : ℕ → ℕ) (p h x : ℕ) (ls rs : List Chunk) (c c' : Chunk)
    → h ≡ p + extent ls
    → x ≡ header c'
    → c'.size ≡ c.size
    → IsLaid w p (ls ++ (c ∷ rs))
    → IsLaid (set_word w h x) p (ls ++ (c' ∷ rs))
store_header w p h x [] rs c c' at e size laid =
    let here : h ≡ p = omega arith in
    (
      subst (λ q. set_word w h x q ≡ header c') here (set_word_same w h x ∙ e),
      IsLaid-agree w (set_word w h x) (p + c'.size + 1) rs
          (λ q le. set_word_other w h x q (omega arith))
          (subst (λ r. IsLaid w r rs) (omega arith) laid.1),
    )
store_header w p h x (l ∷ ls) rs c c' at e size laid = (
  set_word_other w h x p (omega arith) ∙ laid.0,
  store_header w (p + l.size + 1) h x ls rs c c' (omega arith) e size laid.1,
)

-- `HeapFree` of the payload of a block in use: the words describe the same blocks, except that this
-- one is free, and the blocks in use are the others.
pub heap_free_lem :
    (w : ℕ → ℕ) (heap s : ℕ) (ls rs : List Chunk)
    → IsLaid w heap (ls ++ (used_chunk s ∷ rs))
    → IsLaid (heap_free w (heap + extent ls + 1)) heap (ls ++ (free_chunk s ∷ rs))
      × IsAdded
          (heap + extent ls, s)
          (in_use heap (ls ++ (free_chunk s ∷ rs)))
          (in_use heap (ls ++ (used_chunk s ∷ rs)))
unfolding heap_free
heap_free_lem w heap s ls rs laid =
    let h = heap + extent ls in
    let found = header_at w heap ls rs (used_chunk s) laid in
    let place : heap + extent ls + 1 - 1 ≡ heap + extent ls = omega arith in
    (
      rw place (
          store_header w heap h (w h / 2 * 2) ls rs (used_chunk s) (free_chunk s) refl (omega arith)
            refl laid),
      (
        in_use heap ls,
        in_use (h + s + 1) rs,
        in_use-append heap ls (free_chunk s ∷ rs),
        in_use-append heap ls (used_chunk s ∷ rs),
      ),
    )

-- ===== src/Heap/Layout.antt =====
-- The blocks that the words of a heap describe.
use mathlib.Core.Path.{subst}
use strawberry_os.Prelude.{
  ℕ, zero, suc, ◌+◌, ◌*◌, ◌/◌, ◌^◌, ◌-◌, ◌≤◌, ◌<◌, ◌≡◌, ◌≢◌, refl, ◌∙◌, some, ◌==◌, if◌then◌else◌,
  Bool, true, false, List, [], ◌∷◌, length, arith, inl, inr, Bool-cases, ==_iff, add64,
}
use strawberry_os.Heap.{set_word, is_used, next_header, merge_free}

-- A block: the `QWORD`s of its payload, and whether it is in use.
pub record Chunk : Type 0 where
  pub size : ℕ
  pub used : Bool

abbrev pub header : Chunk → ℕ
header c = c.size * 8 + (if c.used then 1 else 0)

-- The blocks stand one behind the other from `p` on, and the word of the last block is behind them.
abbrev pub IsLaid : (ℕ → ℕ) → ℕ → List Chunk → Type 0
IsLaid w p [] = w p ≡ 2 ^ 64 - 1
IsLaid w p (c ∷ cs) = (w p ≡ header c) × IsLaid w (p + c.size + 1) cs

-- The words that the blocks take, with their headers.
abbrev pub extent : List Chunk → ℕ
extent [] = 0
extent (c ∷ cs) = c.size + 1 + extent cs

-- The blocks in use: where the header stands, and the size.
abbrev pub in_use : ℕ → List Chunk → List (ℕ × ℕ)
in_use p [] = []
in_use p (c ∷ cs) =
    let rest = in_use (p + c.size + 1) cs in if c.used then (p, c.size) ∷ rest else rest

-- A free block is merged with the free ones behind it.
abbrev pub absorb_free : ℕ → List Chunk → ℕ × List Chunk
absorb_free s [] = (s, [])
absorb_free s (c ∷ cs) = if c.used then (s, c ∷ cs) else absorb_free (s + c.size + 1) cs

pub set_word_same : (w : ℕ → ℕ) (p x : ℕ) → set_word w p x p ≡ x
set_word_same w p x = rw ((==_iff p p).1 refl) refl

pub set_word_other : (w : ℕ → ℕ) (p x q : ℕ) → q ≢ p → set_word w p x q ≡ w q
set_word_other w p x q ne = elim (Bool-cases (q == p)) [
  | inl y ↦ absurd (ne ((==_iff q p).0 y))
  | inr n ↦ rw n refl
]

-- Words that agree from `p` on have the same blocks there.
pub IsLaid-agree :
    (w w' : ℕ → ℕ) (p : ℕ) (cs : List Chunk)
    → ((q : ℕ) → p ≤ q → w' q ≡ w q)
    → IsLaid w p cs
    → IsLaid w' p cs
IsLaid-agree w w' p [] same h = same p (omega arith) ∙ h
IsLaid-agree w w' p (c ∷ cs) same h = (
  same p (omega arith) ∙ h.0,
  IsLaid-agree w w' (p + c.size + 1) cs (λ q le. same q (omega arith)) h.1,
)

pub length-absorb_free : (s : ℕ) (cs : List Chunk) → length (absorb_free s cs).1 ≤ length cs
length-absorb_free s [] = omega arith
length-absorb_free s (c ∷ cs) = elim (Bool-cases c.used) [
  | inl y ↦ rw y (omega arith)
  | inr n ↦ rw n (omega (arith, length-absorb_free (s + c.size + 1) cs))
]

pub extent-absorb_free :
    (s : ℕ) (cs : List Chunk) → (absorb_free s cs).0 + extent (absorb_free s cs).1 ≡ s + extent cs
extent-absorb_free s [] = refl
extent-absorb_free s (c ∷ cs) = elim (Bool-cases c.used) [
  | inl y ↦ rw y refl
  | inr n ↦ rw n (omega (arith, extent-absorb_free (s + c.size + 1) cs))
]

pub in_use-absorb_free :
    (p s : ℕ) (cs : List Chunk)
    → in_use (p + (absorb_free s cs).0 + 1) (absorb_free s cs).1 ≡ in_use (p + s + 1) cs
in_use-absorb_free p s [] = refl
in_use-absorb_free p s (c ∷ cs) = elim (Bool-cases c.used) [
  | inl y ↦ rw y refl
  | inr n ↦
      let e : p + (s + c.size + 1) + 1 ≡ p + s + 1 + c.size + 1 = omega arith in
      rw (n, ← e) (in_use-absorb_free p (s + c.size + 1) cs)
]

merge_free-free :
    (fuel : ℕ) (w : ℕ → ℕ) (block next n : ℕ) (w' : ℕ → ℕ)
    → is_used (w next) ≡ false
    → next_header (set_word w block (add64 (add64 (w block) (w next / 8 * 8)) 8)) next ≡ n
    → merge_free fuel (set_word w block (add64 (add64 (w block) (w next / 8 * 8)) 8)) block n
      ≡ some w'
    → merge_free (suc fuel) w block next ≡ some w'
unfolding merge_free
merge_free-free fuel w block next n w' free there e = rw (free, there) e

merge_free-used :
    (fuel : ℕ) (w : ℕ → ℕ) (block next : ℕ)
    → is_used (w next) ≡ true
    → merge_free (suc fuel) w block next ≡ some w
unfolding merge_free
merge_free-used fuel w block next used = rw used refl

-- `merge_free` merges exactly the free blocks that follow, and writes no word but the header.
pub merge_free_lem :
    (fuel : ℕ) (w : ℕ → ℕ) (block s : ℕ) (cs : List Chunk)
    → length cs < fuel
    → s + extent cs < 2 ^ 61
    → w block ≡ s * 8
    → IsLaid w (block + s + 1) cs
    → (w' : ℕ → ℕ) × (merge_free fuel w block (block + s + 1) ≡ some w')
      × (w' block ≡ (absorb_free s cs).0 * 8)
      × ((q : ℕ) → q ≢ block → w' q ≡ w q)
      × IsLaid w' (block + (absorb_free s cs).0 + 1) (absorb_free s cs).1
merge_free_lem zero w block s cs enough room h laid = absurd (omega arith)
merge_free_lem (suc fuel) w block s [] enough room h laid =
    (w, merge_free-used fuel w block (block + s + 1) (rw laid refl), h, λ q ne. refl, laid)
merge_free_lem (suc fuel) w block s (c ∷ cs) enough room h laid = elim (Bool-cases c.used) [
  | inl y ↦
      let e : w (block + s + 1) ≡ c.size * 8 + 1 = rw y at laid.0 in
      let used : is_used (w (block + s + 1)) ≡ true = ground arith in
      rw y (w, merge_free-used fuel w block (block + s + 1) used, h, λ q ne. refl, (e, laid.1))
  | inr n ↦
      let next = block + s + 1 in
      let s' = s + c.size + 1 in
      let e : w next ≡ c.size * 8 + 0 = rw n at laid.0 in
      let free : is_used (w next) ≡ false = ground arith in
      let x = add64 (add64 (w block) (w next / 8 * 8)) 8 in
      let larger : x ≡ s' * 8 = omega arith in
      let w1 = set_word w block x in
      let kept = set_word_other w block x in
      let there : next_header w1 next ≡ block + s' + 1 =
        rw (kept next (omega arith)) (omega arith) in
      let laid1 : IsLaid w1 (block + s' + 1) cs =
        IsLaid-agree w w1 (block + s' + 1) cs (λ q le. kept q (omega arith))
          (subst (λ r. IsLaid w r cs) (omega arith) laid.1) in
      let (w', e', h', kept', laid') =
        merge_free_lem fuel w1 block s' cs (omega arith) (omega arith)
          (set_word_same w block x ∙ larger) laid1 in
      rw n (
        w',
        merge_free-free fuel w block next (block + s' + 1) w' free there e',
        h',
        λ q ne. kept' q ne ∙ kept q ne,
        laid',
      )
]

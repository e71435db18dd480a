-- ===== src/Block/Cover.antt =====
-- The addresses that a sequence of nodes covers, and which nodes it holds.
use strawberry_os.Prelude.{
  ℕ, ◌+◌, ◌^◌, ◌≤◌, ◌<◌, ◌≡◌, refl, sym, ◌∙◌, Bool, false, ◌&&◌, ◌||◌, List, [], ◌∷◌, ◌++◌, arith,
  inl, inr, ◌⊎◌, ltb, leb, All, if◌then◌else◌,
}
use strawberry_os.Block.{MemoryBlock}
use strawberry_os.Block.Removal.{uses}

-- The address lies in the range of the block.
abbrev pub within : ℕ → MemoryBlock → Bool
within x b = leb b.a x && ltb x (b.a + b.s)

abbrev pub covers : ℕ → List MemoryBlock → Bool
covers x [] = false
covers x (b ∷ bs) = within x b || covers x bs

-- How many of the ranges cover the address.
abbrev pub inside : ℕ → MemoryBlock → ℕ
inside x b = if within x b then 1 else 0

abbrev pub overlaps : ℕ → List MemoryBlock → ℕ
overlaps x [] = 0
overlaps x (b ∷ bs) = inside x b + overlaps x bs

-- A range of at least so many addresses whose end is a `QWORD`.
abbrev pub IsFit : ℕ → MemoryBlock → Type 0
IsFit least b = (least ≤ b.s) × (b.a + b.s < 2 ^ 64)

abbrev pub Holds : MemoryBlock → List MemoryBlock → Type 0
Holds b [] = ⊥
Holds b (x ∷ xs) = (x ≡ b) ⊎ Holds b xs

pub covers-append :
    (x : ℕ) (xs ys : List MemoryBlock) → covers x (xs ++ ys) ≡ (covers x xs || covers x ys)
covers-append x [] ys = refl
covers-append x (b ∷ bs) ys = ground (arith, covers-append x bs ys)

pub overlaps-append :
    (x : ℕ) (xs ys : List MemoryBlock) → overlaps x (xs ++ ys) ≡ overlaps x xs + overlaps x ys
overlaps-append x [] ys = omega arith
overlaps-append x (b ∷ bs) ys = omega (arith, overlaps-append x bs ys)

pub Holds-middle : (ls rs : List MemoryBlock) (b : MemoryBlock) → Holds b (ls ++ (b ∷ rs))
Holds-middle [] rs b = inl refl
Holds-middle (x ∷ ls) rs b = inr (Holds-middle ls rs b)

pub Holds-append :
    (ls rs : List MemoryBlock) (b : MemoryBlock) → Holds b (ls ++ rs) → Holds b ls ⊎ Holds b rs
Holds-append [] rs b h = inr h
Holds-append (x ∷ ls) rs b (inl e) = inl (inl e)
Holds-append (x ∷ ls) rs b (inr h) = elim (Holds-append ls rs b h) [
  | inl k ↦ inl (inr k)
  | inr k ↦ inr k
]

pub Holds-left : (ls rs : List MemoryBlock) (b : MemoryBlock) → Holds b ls → Holds b (ls ++ rs)
Holds-left [] rs b h = absurd h
Holds-left (x ∷ ls) rs b (inl e) = inl e
Holds-left (x ∷ ls) rs b (inr h) = inr (Holds-left ls rs b h)

pub Holds-right : (ls rs : List MemoryBlock) (b : MemoryBlock) → Holds b rs → Holds b (ls ++ rs)
Holds-right [] rs b h = h
Holds-right (x ∷ ls) rs b h = inr (Holds-right ls rs b h)

pub All-Holds {κ} :
    (P : MemoryBlock → Type κ) (xs : List MemoryBlock) (b : MemoryBlock)
    → All P xs
    → Holds b xs
    → P b
All-Holds P [] b p h = absurd h
All-Holds P (x ∷ xs) b p (inl e) = rw e at p.0
All-Holds P (x ∷ xs) b p (inr h) = All-Holds P xs b p.1 h

pub uses_pos : (xs : List MemoryBlock) (b : MemoryBlock) → Holds b xs → 0 < uses b.ptr xs
uses_pos [] b h = absurd h
uses_pos (x ∷ xs) b (inl e) = ground arith
uses_pos (x ∷ xs) b (inr h) = omega (arith, uses_pos xs b h)

-- Where no address is used twice, the address names the node.
pub Holds-unique :
    (xs : List MemoryBlock) (b c : MemoryBlock)
    → uses b.ptr xs ≤ 1
    → b.ptr ≡ c.ptr
    → Holds b xs
    → Holds c xs
    → b ≡ c
Holds-unique [] b c d e h k = absurd h
Holds-unique (x ∷ xs) b c d e (inl p) (inl q) = sym p ∙ q
Holds-unique (x ∷ xs) b c d e (inl p) (inr q) = ground (arith, uses_pos xs c q)
Holds-unique (x ∷ xs) b c d e (inr p) (inl q) = ground (arith, uses_pos xs b p)
Holds-unique (x ∷ xs) b c d e (inr p) (inr q) = Holds-unique xs b c (omega arith) e p q

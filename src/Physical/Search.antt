-- ===== src/Physical/Search.antt =====
-- The search of `AllocatePhysicalMemory`: what it has passed over, and why it ends.
use strawberry_os.Prelude.{
  ℕ, zero, suc, ◌+◌, ◌*◌, ◌%◌, ◌^◌, ◌≤◌, ◌<◌, ◌≡◌, refl, List, [], ◌∷◌, ◌++◌, arith, inl, inr, ◌⊎◌,
  if◌then◌else◌, All, leb, length, sub64,
}
use mathlib.Core.Path.{subst}
use strawberry_os.Block.{MemoryBlock}
use strawberry_os.Block.Search.{IsSorted}
use strawberry_os.Block.Cover.{
  inside, overlaps, overlaps-append, IsFit, Holds, Holds-append, All-Holds,
}
use strawberry_os.Block.Effects.{IsSorted-right}
use strawberry_os.Physical.{page_bytes, reminder, allocate_count}

-- No aligned page lies in the range of the block.
abbrev pub IsTooSmall : ℕ → MemoryBlock → Type 0
IsTooSmall page b = (x : ℕ) → x % page ≡ 0 → b.a ≤ x → b.a + b.s < x + page

-- The three page sizes.
pub page_bytes_cases :
    (n : ℕ)
    → n ≤ 2
    → (page_bytes n ≡ 4096) ⊎ ((page_bytes n ≡ 2097152) ⊎ (page_bytes n ≡ 1073741824))
page_bytes_cases zero h = inl refl
page_bytes_cases (suc zero) h = inr (inl refl)
page_bytes_cases (suc (suc zero)) h = inr (inr refl)
page_bytes_cases (suc (suc (suc n))) h = absurd (omega arith)

-- What the two tests of a round tell of a block.
abbrev pub IsRound : ℕ → ℕ → ℕ → ℕ → Type 0
IsRound page a s count =
    let gap = reminder a page in
    let taken = allocate_count (sub64 s gap) page count in
    (s < gap → IsTooSmall page (record { ptr = 0; h = 0; a = a; s = s; v = 0 }))
    × (gap ≤ s
        → sub64 s gap < page
        → IsTooSmall page (record { ptr = 0; h = 0; a = a; s = s; v = 0 }))
    × (gap ≤ s
        → page ≤ sub64 s gap
        → ((a + gap) % page ≡ 0)
          × (0 < taken)
          × (taken ≤ count)
          × (0 < taken * page)
          × (gap + taken * page ≤ s))

module _ (a s count : ℕ) (fit : a + s < 2 ^ 64) (some_count : 0 < count) where
  round_small_lem : IsRound 4096 a s count
  round_small_lem = (λ h x m le. omega arith, λ h k x m le. omega arith, λ h k. ground arith)

  round_middle_lem : IsRound 2097152 a s count
  round_middle_lem = (λ h x m le. omega arith, λ h k x m le. omega arith, λ h k. ground arith)

  round_large_lem : IsRound 1073741824 a s count
  round_large_lem = (λ h x m le. omega arith, λ h k x m le. omega arith, λ h k. ground arith)

  pub round_lem : (n : ℕ) → n ≤ 2 → IsRound (page_bytes n) a s count
  round_lem n h = elim (page_bytes_cases n h) [
    | inl e ↦ rw e round_small_lem
    | inr (inl e) ↦ rw e round_middle_lem
    | inr (inr e) ↦ rw e round_large_lem
  ]

-- The nodes that the search has not passed.
abbrev pub remaining : ℕ → List MemoryBlock → ℕ
remaining search [] = 0
remaining search (b ∷ bs) = (if leb search b.a then 1 else 0) + remaining search bs

remaining_le :
    (xs : List MemoryBlock) (search next : ℕ)
    → search ≤ next
    → remaining next xs ≤ remaining search xs
remaining_le [] search next h = omega arith
remaining_le (b ∷ xs) search next h = ground (arith, remaining_le xs search next h)

pub remaining_lt :
    (xs : List MemoryBlock) (b : MemoryBlock) (search next : ℕ)
    → Holds b xs
    → search ≤ b.a
    → b.a < next
    → remaining next xs < remaining search xs
remaining_lt [] b search next h le lt = absurd h
remaining_lt (x ∷ xs) b search next (inl e) le lt =
    ground (arith, remaining_le xs search next (omega arith))
remaining_lt (x ∷ xs) b search next (inr h) le lt =
    ground (arith, remaining_lt xs b search next h le lt)

pub remaining-length : (xs : List MemoryBlock) (search : ℕ) → remaining search xs ≤ length xs
remaining-length [] search = omega arith
remaining-length (x ∷ xs) search = ground (arith, remaining-length xs search)

pub inside_le_overlaps :
    (xs : List MemoryBlock) (b : MemoryBlock) (x : ℕ) → Holds b xs → inside x b ≤ overlaps x xs
inside_le_overlaps [] b x h = absurd h
inside_le_overlaps (y ∷ xs) b x (inl e) = rw e (omega arith)
inside_le_overlaps (y ∷ xs) b x (inr h) = omega (arith, inside_le_overlaps xs b x h)

-- What the search has passed over, once a block is passed over as well.
pub passed {κ} :
    (P : MemoryBlock → Type κ) (search : ℕ) (ls rs : List MemoryBlock) (b : MemoryBlock)
    → IsSorted (ls ++ (b ∷ rs))
    → All (IsFit 1) (ls ++ (b ∷ rs))
    → ((x : ℕ) → overlaps x (ls ++ (b ∷ rs)) ≤ 1)
    → All (λ x. x.a < search) ls
    → ((c : MemoryBlock) → Holds c (ls ++ (b ∷ rs)) → c.a < search → P c)
    → P b
    → (c : MemoryBlock) → Holds c (ls ++ (b ∷ rs))
    → c.a < b.a + b.s
    → P c
passed P search ls rs b sorted fits apart before before_small small c h lt =
    elim (Holds-append ls (b ∷ rs) c h) [
      | inl k ↦ before_small c h (All-Holds (λ x. x.a < search) ls c before k)
      | inr (inl e) ↦ subst P e small
      | inr (inr k) ↦
          let above : b.a ≤ c.a =
            All-Holds (λ x. b.a ≤ x.a) rs c (IsSorted-right ls (b ∷ rs) sorted).0 k in
          let fit : IsFit 1 c = All-Holds (IsFit 1) (ls ++ (b ∷ rs)) c fits h in
          absurd (
            ground
              (arith, apart c.a, overlaps-append c.a ls (b ∷ rs), inside_le_overlaps rs c c.a k))
    ]

-- ===== src/Virtual/Auto.antt =====
-- The search of `NtAllocateVirtualMemory` for an address, where the request gives none.
use strawberry_os.Prelude.{
  ℕ, zero, suc, ◌+◌, ◌≤◌, ◌<◌, ◌≡◌, refl, ap, List, ◌∷◌, ◌++◌, arith, inl, inr, Option, some, none,
  leb, Bool-cases, Option-cases, add64, All, length, leb→le, leb_false→lt,
}
use strawberry_os.Block.{MemoryBlock, Tree, search_memory_node}
use strawberry_os.Block.Items.{item, items}
use strawberry_os.Block.Search.{IsSorted, search_above-IsNearestHigh}
use strawberry_os.Block.Cover.{overlaps, IsFit, Holds, Holds-middle, Holds-append, All-Holds}
use strawberry_os.Block.Effects.{IsSorted-right}
use strawberry_os.Block.Map.{IsMap}
use strawberry_os.Physical.Search.{remaining, remaining_lt, remaining-length, passed}
use strawberry_os.Physical.Allocate.{nearest_none, nearest_some}
use strawberry_os.Virtual.Request.{auto_address}

-- The base of the first region that is large enough, or none is.
pub data AutoOutcome (t : Tree) (size : ℕ) (result : Option (Option ℕ)) : Type 0 where
  none_fits :
      result ≡ some none
      → ((c : MemoryBlock) → Holds c (items t) → c.s < size)
      → AutoOutcome t size result
  first_fit :
      (b : MemoryBlock)
      → result ≡ some (some b.a)
      → Holds b (items t)
      → size ≤ b.s
      → ((c : MemoryBlock) → Holds c (items t) → c.a < b.a → c.s < size)
      → AutoOutcome t size result

-- A region below the one that the search found lies below the address of the search.
before_nearest :
    (ls rs : List MemoryBlock) (b c : MemoryBlock) (search : ℕ)
    → IsSorted (ls ++ (b ∷ rs))
    → All (λ x. x.a < search) ls
    → Holds c (ls ++ (b ∷ rs))
    → c.a < b.a
    → c.a < search
before_nearest ls rs b c search sorted lt h lower = elim (Holds-append ls (b ∷ rs) c h) [
  | inl k ↦ All-Holds (λ x. x.a < search) ls c lt k
  | inr (inl e) ↦ let same : b.a ≡ c.a = ap (λ z. z.a) e in absurd (omega arith)
  | inr (inr k) ↦
      let above = All-Holds (λ x. b.a ≤ x.a) rs c (IsSorted-right ls (b ∷ rs) sorted).0 k in
      absurd (omega arith)
]

module _ (t : Tree) (size : ℕ) (v : IsMap 1 t) (once : (x : ℕ) → overlaps x (items t) ≤ 1) where
  rounds :
      (fuel from : ℕ)
      → remaining from (items t) < fuel
      → ((c : MemoryBlock) → Holds c (items t) → c.a < from → c.s < size)
      → AutoOutcome t size (auto_address fuel t from size)
  unfolding auto_address
  rounds zero from enough small = absurd (omega arith)
  rounds (suc fuel) from enough small = elim (Option-cases (search_memory_node t from 1)) [
    | inl e ↦
        let v0 = nearest_none (items t) from _ (search_above-IsNearestHigh t from v.sorted) e in
        none_fits (rw (auto_address, e) refl)
          (λ c h. small c h (All-Holds (λ x. x.a < from) (items t) c v0 h))
    | inr (b, e) ↦
        let (ls, rs, ex, le, lt) =
          nearest_some (items t) from _ b (search_above-IsNearestHigh t from v.sorted) e in
        let h : Holds (item b) (items t) = rw ex (Holds-middle ls rs (item b)) in
        let fit : IsFit 1 (item b) = All-Holds (IsFit 1) (items t) (item b) v.fits h in
        let unwrapped : add64 b.a b.s ≡ b.a + b.s = omega arith in
        elim (Bool-cases (leb size b.s)) [
          | inl y ↦ first_fit (item b) (rw (auto_address, e, y) refl) h (leb→le _ _ y) (λ c k lower.
              small c k
                (before_nearest ls rs (item b) c from (rw ex at v.sorted) lt (rw ex at k) lower))
          | inr n ↦
              rw (auto_address, e, n)
                (rounds fuel (add64 b.a b.s)
                  (omega (
                    arith,
                    remaining_lt (items t) (item b) from (add64 b.a b.s) h le (omega arith),
                  ))
                  (rw (unwrapped, ex)
                    (passed (λ c. c.s < size) from ls rs (item b) (rw ex at v.sorted)
                      (rw ex at v.fits) (rw ex at once) lt (rw ex at small) (leb_false→lt _ _ n))))
        ]
  ]

  -- The search for a region of at least `size` addresses, in a map of regions that do not overlap
  -- and with fuel for one more round than there are regions, ends: it returns the base of the first
  -- region that is large enough, or nothing where none is.
  pub auto_address-AutoOutcome :
      (fuel : ℕ) → length (items t) < fuel → AutoOutcome t size (auto_address fuel t 0 size)
  auto_address-AutoOutcome fuel enough =
      rounds fuel 0 (omega (arith, remaining-length (items t) 0)) (λ c h lt. absurd (omega arith))

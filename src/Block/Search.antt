-- ===== src/Block/Search.antt =====
-- `SearchMemoryNode` in a tree whose nodes are sorted by their bases.
use mathlib.Core.List.{append_assoc}
use strawberry_os.Prelude.{
  ℕ, ◌≤◌, ◌<◌, ◌≡◌, refl, ap, ◌∙◌, List, [], ◌∷◌, ◌++◌, arith, inl, inr, ◌⊎◌, Option, none, some,
  false, leb, leb→le, leb_false→lt, Bool-cases, All, All-append, All-imp, All-append_left,
  All-append_right,
}
use strawberry_os.Block.{
  MemoryBlock, Tree, leaf, node, search_below, search_above, search_memory_node,
}
use strawberry_os.Block.Items.{item, items}

-- Bases from left to right never fall.
abbrev pub IsSorted : List MemoryBlock → Type 0
IsSorted [] = Unit
IsSorted (x ∷ xs) = All (λ y. x.a ≤ y.a) xs × IsSorted xs

-- A sorted list, cut at one of its nodes.
pub record IsCut (ls : List MemoryBlock) (b : MemoryBlock) (rs : List MemoryBlock) : Type 0 where
  pub left_sorted : IsSorted ls
  pub right_sorted : IsSorted rs
  pub left_below : All (λ x. x.a ≤ b.a) ls
  pub right_above : All (λ x. b.a ≤ x.a) rs

pub IsSorted-IsCut :
    (ls : List MemoryBlock) (b : MemoryBlock) (rs : List MemoryBlock)
    → IsSorted (ls ++ (b ∷ rs))
    → IsCut ls b rs
IsSorted-IsCut [] b rs s = record {
  left_sorted = tt;
  right_sorted = s.1;
  left_below = tt;
  right_above = s.0;
}
IsSorted-IsCut (x ∷ ls) b rs s =
    let c = IsSorted-IsCut ls b rs s.1 in
    record {
      left_sorted = (All-append_left _ ls (b ∷ rs) s.0, c.left_sorted);
      right_sorted = c.right_sorted;
      left_below = ((All-append_right _ ls (b ∷ rs) s.0).0, c.left_below);
      right_above = c.right_above;
    }

-- The last node with a base at or below the address, of nodes that are sorted: the nodes behind it
-- lie above the address, and if there is none, all do.
pub data IsNearestLow (address : ℕ) (xs : List MemoryBlock) : Option MemoryBlock → Type 0 where
  nothing_low : All (λ x. address < x.a) xs → IsNearestLow address xs none
  low :
      (ls rs : List MemoryBlock) (b : MemoryBlock)
      → xs ≡ ls ++ (item b ∷ rs)
      → b.a ≤ address
      → All (λ x. address < x.a) rs
      → IsNearestLow address xs (some b)

-- The first node with a base at or above the address.
pub data IsNearestHigh (address : ℕ) (xs : List MemoryBlock) : Option MemoryBlock → Type 0 where
  nothing_high : All (λ x. x.a < address) xs → IsNearestHigh address xs none
  high :
      (ls rs : List MemoryBlock) (b : MemoryBlock)
      → xs ≡ ls ++ (item b ∷ rs)
      → address ≤ b.a
      → All (λ x. x.a < address) ls
      → IsNearestHigh address xs (some b)

-- Nodes behind one that lies above the address, and before one that lies below it.
above_rest :
    (address a : ℕ) (xs : List MemoryBlock)
    → address < a
    → All (λ x. a ≤ x.a) xs
    → All (λ x. address < x.a) xs
above_rest address a xs h = All-imp _ _ (λ x k. omega arith) xs

below_rest :
    (address a : ℕ) (xs : List MemoryBlock)
    → a < address
    → All (λ x. x.a ≤ a) xs
    → All (λ x. x.a < address) xs
below_rest address a xs h = All-imp _ _ (λ x k. omega arith) xs

-- The same node, in a list that goes on to the left or to the right.
cons_left :
    {xs : List MemoryBlock} (ls rs more : List MemoryBlock) (b c : MemoryBlock)
    → xs ≡ ls ++ (b ∷ rs)
    → more ++ (c ∷ xs) ≡ (more ++ (c ∷ ls)) ++ (b ∷ rs)
cons_left ls rs more b c e = ap (λ ys. more ++ (c ∷ ys)) e ∙ simp append_assoc

extend_right :
    {xs : List MemoryBlock} (ls rs more : List MemoryBlock) (b : MemoryBlock)
    → xs ≡ ls ++ (b ∷ rs)
    → xs ++ more ≡ ls ++ (b ∷ (rs ++ more))
extend_right ls rs more b e = ap (λ ys. ys ++ more) e ∙ simp append_assoc

-- A walk either finds nothing below its node and returns what it was given, or finds the node.
search_below-walk :
    (t : Tree) (address : ℕ) (next : Option MemoryBlock)
    → IsSorted (items t)
    → (All (λ x. address < x.a) (items t) × (search_below t address next ≡ next))
      ⊎ ((b : MemoryBlock) × (search_below t address next ≡ some b)
          × IsNearestLow address (items t) (some b))
unfolding search_below
search_below-walk leaf address next s = inl (tt, refl)
search_below-walk (node l b r) address next s = elim (Bool-cases (leb b.a address)) [
  | inl y ↦
      rw (y, search_below)
        (elim (search_below-walk r address (some b) cut.right_sorted) [
          | inl (here, e) ↦ inr (b, e, low (items l) (items r) b refl (leb→le _ _ y) here)
          | inr (c, e, low ls rs _ es le gt) ↦ inr (
            c,
            e,
            low (items l ++ (item b ∷ ls)) rs c (cons_left ls rs (items l) (item c) (item b) es) le
                gt,
          )
        ])
  | inr n ↦
      rw (n, search_below)
        (elim (search_below-walk l address next cut.left_sorted) [
          | inl (here, e) ↦ inl (All-append _ (items l) _ here (beyond n), e)
          | inr (c, e, low ls rs _ es le gt) ↦ inr (
            c,
            e,
            low ls (rs ++ (item b ∷ items r)) c (extend_right ls rs (item b ∷ items r) (item c) es)
                le (All-append _ rs _ gt (beyond n)),
          )
        ])
]
  where
    cut : IsCut (items l) (item b) (items r)
    cut = IsSorted-IsCut (items l) (item b) (items r) s

    beyond : leb b.a address ≡ false → All (λ (x : MemoryBlock). address < x.a) (item b ∷ items r)
    beyond n =
        let gt = leb_false→lt _ _ n in (gt, above_rest address b.a (items r) gt cut.right_above)

search_above-walk :
    (t : Tree) (address : ℕ) (next : Option MemoryBlock)
    → IsSorted (items t)
    → (All (λ x. x.a < address) (items t) × (search_above t address next ≡ next))
      ⊎ ((b : MemoryBlock) × (search_above t address next ≡ some b)
          × IsNearestHigh address (items t) (some b))
unfolding search_above
search_above-walk leaf address next s = inl (tt, refl)
search_above-walk (node l b r) address next s = elim (Bool-cases (leb address b.a)) [
  | inl y ↦
      rw (y, search_above)
        (elim (search_above-walk l address (some b) cut.left_sorted) [
          | inl (here, e) ↦ inr (b, e, high (items l) (items r) b refl (leb→le _ _ y) here)
          | inr (c, e, high ls rs _ es le lt) ↦ inr (
            c,
            e,
            high ls (rs ++ (item b ∷ items r)) c (extend_right ls rs (item b ∷ items r) (item c) es)
                le lt,
          )
        ])
  | inr n ↦
      rw (n, search_above)
        (elim (search_above-walk r address next cut.right_sorted) [
          | inl (here, e) ↦
              inl (All-append _ (items l) _ (before_node n) (leb_false→lt _ _ n, here), e)
          | inr (c, e, high ls rs _ es le lt) ↦ inr (
            c,
            e,
            high (items l ++ (item b ∷ ls)) rs c (cons_left ls rs (items l) (item c) (item b) es) le
                (All-append _ (items l) _ (before_node n) (leb_false→lt _ _ n, lt)),
          )
        ])
]
  where
    cut : IsCut (items l) (item b) (items r)
    cut = IsSorted-IsCut (items l) (item b) (items r) s

    before_node : leb address b.a ≡ false → All (λ (x : MemoryBlock). x.a < address) (items l)
    before_node n = below_rest address b.a (items l) (leb_false→lt _ _ n) cut.left_below

-- `SearchMemoryNode` with option 0 returns the last node with a base at or below the address.
pub search_below-IsNearestLow :
    (t : Tree) (address : ℕ)
    → IsSorted (items t)
    → IsNearestLow address (items t) (search_memory_node t address 0)
unfolding search_memory_node
search_below-IsNearestLow t address s = elim (search_below-walk t address none s) [
  | inl (all, e) ↦ rw e (nothing_low all)
  | inr (b, e, found) ↦ rw e found
]

-- `SearchMemoryNode` with option 1 returns the first node with a base at or above the address.
pub search_above-IsNearestHigh :
    (t : Tree) (address : ℕ)
    → IsSorted (items t)
    → IsNearestHigh address (items t) (search_memory_node t address 1)
unfolding search_memory_node
search_above-IsNearestHigh t address s = elim (search_above-walk t address none s) [
  | inl (all, e) ↦ rw e (nothing_high all)
  | inr (b, e, found) ↦ rw e found
]

-- On a sorted tree, `SearchMemoryNode` with option 0 returns the last node with a base at or below the
-- address, and with option 1 the first node with a base at or above it.
pub search_memory_node-IsNearest :
    (t : Tree) (address : ℕ)
    → IsSorted (items t)
    → IsNearestLow address (items t) (search_memory_node t address 0)
      × IsNearestHigh address (items t) (search_memory_node t address 1)
search_memory_node-IsNearest t address s =
    (search_below-IsNearestLow t address s, search_above-IsNearestHigh t address s)

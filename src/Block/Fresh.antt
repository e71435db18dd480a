-- ===== src/Block/Fresh.antt =====
-- Addresses of nodes that a tree does not use.
use strawberry_os.Prelude.{ℕ, ◌+◌, ◌<◌, ◌≡◌, refl, List, [], ◌∷◌, ◌++◌, arith}
use strawberry_os.Block.{Tree, leaf, node, MemoryBlock}
use strawberry_os.Block.Items.{item, items}
use strawberry_os.Block.Removal.{uses}

-- An address that is greater than all that are used.
abbrev pub greatest : Tree → ℕ
greatest leaf = 0
greatest (node l b r) = b.ptr + (greatest l + greatest r)

abbrev pub next_node : Tree → ℕ
next_node t = greatest t + 1

abbrev pub greatest_of : List MemoryBlock → ℕ
greatest_of [] = 0
greatest_of (b ∷ bs) = b.ptr + greatest_of bs

greatest_of-append :
    (xs ys : List MemoryBlock) → greatest_of (xs ++ ys) ≡ greatest_of xs + greatest_of ys
greatest_of-append [] ys = omega arith
greatest_of-append (x ∷ xs) ys = omega (arith, greatest_of-append xs ys)

pub greatest-items : (t : Tree) → greatest t ≡ greatest_of (items t)
greatest-items leaf = refl
greatest-items (node l b r) =
    omega
      (arith, greatest-items l, greatest-items r, greatest_of-append (items l) (item b ∷ items r))

pub uses_greater : (xs : List MemoryBlock) (p : ℕ) → greatest_of xs < p → uses p xs ≡ 0
uses_greater [] p h = refl
uses_greater (x ∷ xs) p h = ground (arith, uses_greater xs p (omega arith))

pub next_node_fresh : (t : Tree) → uses (next_node t) (items t) ≡ 0
next_node_fresh t = uses_greater (items t) _ (omega (arith, greatest-items t))

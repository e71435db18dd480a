-- ===== src/Block/Balance.antt =====
-- The balance of the tree: the stored heights are right, and the two children of a node differ by
-- at most one, after every operation of block.c.
use strawberry_os.Prelude.{
  ℕ, suc, ◌+◌, ◌≤◌, ◌≡◌, ◌⊎◌, refl, List, [], ◌∷◌, arith, ltb, inl, inr, Bool-cases, ltb→lt,
  ltb_false→le,
}
use strawberry_os.Block.{
  MemoryBlock, Tree, leaf, node, lift_left, lift_right, higher, adjust_height, adjust_avl,
  adjust_block, straighten_left, straighten_right, tree_height,
}

abbrev pub IsAvl : Tree → Type 0
IsAvl leaf = Unit
IsAvl (node l b r) =
    IsAvl l
    × IsAvl r
    × (b.h ≡ higher (tree_height l) (tree_height r) + 1)
    × (tree_height l ≤ tree_height r + 1)
    × (tree_height r ≤ tree_height l + 1)

-- A balanced tree is `h` high, or one higher.
abbrev IsAvlOf : ℕ → Tree → Type 0
IsAvlOf h t = IsAvl t × (h ≤ tree_height t) × (tree_height t ≤ h + 1)

pub higher_bounds :
    (a b : ℕ) → (a ≤ higher a b) × (b ≤ higher a b) × ((higher a b ≡ a) ⊎ (higher a b ≡ b))
unfolding higher
higher_bounds a b = ground arith

IsAvlOf-eq : {m n : ℕ} (t : Tree) → m ≡ n → IsAvlOf m t → IsAvlOf n t
IsAvlOf-eq t e p = rw e at p

pub ruleset bounds = (arith, higher_bounds)

-- The four rotations, by the shape of the heavy child.
module _ (b : MemoryBlock) (t : Tree) (avl : IsAvl t) where
  single_left :
      (ll : Tree) (c : MemoryBlock) (lr : Tree)
      → IsAvl ll
      → IsAvl lr
      → tree_height ll ≡ tree_height t + 1
      → tree_height lr ≤ tree_height ll
      → tree_height ll ≤ tree_height lr + 1
      → IsAvlOf
          (tree_height ll + 1)
          (adjust_height (adjust_avl (node (node ll c lr) b t) lift_left))
  unfolding adjust_avl adjust_height
  single_left ll c lr p q e f g = (
    (p, (q, avl, refl, omega arith, omega arith), refl, omega bounds, omega bounds),
    omega bounds,
    omega bounds,
  )

  double_left :
      (ll : Tree) (c : MemoryBlock) (lr : Tree)
      → IsAvl ll
      → IsAvl lr
      → tree_height ll ≡ tree_height t
      → tree_height lr ≡ tree_height ll + 1
      → IsAvlOf
          (tree_height lr + 1)
          (adjust_height (adjust_avl (node (adjust_avl (node ll c lr) lift_right) b t) lift_left))
  unfolding adjust_avl adjust_height
  double_left ll c leaf p q e f = absurd (omega arith)
  double_left ll c (node x d y) p q e f = (
    (
      (p, q.0, refl, omega bounds, omega bounds),
      (q.1, avl, refl, omega bounds, omega bounds),
      refl,
      omega bounds,
      omega bounds,
    ),
    omega bounds,
    omega bounds,
  )

  single_right :
      (rl : Tree) (c : MemoryBlock) (rr : Tree)
      → IsAvl rl
      → IsAvl rr
      → tree_height rr ≡ tree_height t + 1
      → tree_height rl ≤ tree_height rr
      → tree_height rr ≤ tree_height rl + 1
      → IsAvlOf
          (tree_height rr + 1)
          (adjust_height (adjust_avl (node t b (node rl c rr)) lift_right))
  unfolding adjust_avl adjust_height
  single_right rl c rr p q e f g = (
    ((avl, p, refl, omega arith, omega arith), q, refl, omega bounds, omega bounds),
    omega bounds,
    omega bounds,
  )

  double_right :
      (rl : Tree) (c : MemoryBlock) (rr : Tree)
      → IsAvl rl
      → IsAvl rr
      → tree_height rr ≡ tree_height t
      → tree_height rl ≡ tree_height rr + 1
      → IsAvlOf
          (tree_height rl + 1)
          (adjust_height (adjust_avl (node t b (adjust_avl (node rl c rr) lift_left)) lift_right))
  unfolding adjust_avl adjust_height
  double_right leaf c rr p q e f = absurd (omega arith)
  double_right (node x d y) c rr p q e f = (
    (
      (avl, p.0, refl, omega bounds, omega bounds),
      (p.1, q, refl, omega bounds, omega bounds),
      refl,
      omega bounds,
      omega bounds,
    ),
    omega bounds,
    omega bounds,
  )

  balance_left :
      (l : Tree)
      → IsAvl l
      → tree_height l ≡ tree_height t + 2
      → IsAvlOf
          (tree_height l)
          (adjust_height (adjust_avl (node (straighten_left l) b t) lift_left))
  unfolding straighten_left
  balance_left leaf p e = absurd (omega arith)
  balance_left (node ll c lr) p e = elim (Bool-cases (ltb (tree_height ll) (tree_height lr))) [
    | inl y ↦
        let lt = ltb→lt _ _ y in
        rw y
          (IsAvlOf-eq _ (omega bounds) (double_left ll c lr p.0 p.1 (omega bounds) (omega bounds)))
    | inr n ↦
        let ge = ltb_false→le _ _ n in
        rw n (
          IsAvlOf-eq _ (omega bounds)
            (single_left ll c lr p.0 p.1 (omega bounds) (omega bounds) (omega bounds)))
  ]

  balance_even :
      (l : Tree)
      → IsAvl l
      → tree_height l ≤ tree_height t + 1
      → tree_height t ≤ tree_height l + 1
      → IsAvl (adjust_height (node l b t))
        × (tree_height (adjust_height (node l b t)) ≡ higher (tree_height l) (tree_height t) + 1)
  unfolding adjust_height
  balance_even l p e f = ((p, avl, refl, e, f), refl)

  balance_right :
      (r : Tree)
      → IsAvl r
      → tree_height r ≡ tree_height t + 2
      → IsAvlOf
          (tree_height r)
          (adjust_height (adjust_avl (node t b (straighten_right r)) lift_right))
  unfolding straighten_right
  balance_right leaf p e = absurd (omega arith)
  balance_right (node rl c rr) p e = elim (Bool-cases (ltb (tree_height rr) (tree_height rl))) [
    | inl y ↦
        let lt = ltb→lt _ _ y in
        rw y
          (IsAvlOf-eq _ (omega bounds) (double_right rl c rr p.0 p.1 (omega bounds) (omega bounds)))
    | inr n ↦
        let ge = ltb_false→le _ _ n in
        rw n (
          IsAvlOf-eq _ (omega bounds)
            (single_right rl c rr p.0 p.1 (omega bounds) (omega bounds) (omega bounds)))
  ]

-- The height of a subtree is `h` or differs from it by one.
abbrev pub IsNear : ℕ → Tree → Type 0
IsNear h t = IsAvl t × (h ≤ tree_height t + 1) × (tree_height t ≤ h + 1)

-- One round of the balancing, at a node of which one child was balanced and has grown or shrunk by
-- one: `l` and `r` were the heights of the children before.
pub adjust_block-IsNear :
    (l r : ℕ) (t : Tree) (b : MemoryBlock) (u : Tree)
    → l ≤ r + 1
    → r ≤ l + 1
    → IsNear l t
    → IsNear r u
    → (tree_height t ≡ l) ⊎ (tree_height u ≡ r)
    → IsNear (higher l r + 1) (adjust_block (node t b u))
unfolding adjust_block
adjust_block-IsNear l r t b u f g p q o =
    elim (Bool-cases (ltb (tree_height u + 1) (tree_height t))) [
      | inl y ↦
          let lt = ltb→lt _ _ y in
          let m = balance_left b u q.0 t p.0 (omega arith) in rw y (m.0, omega bounds, omega bounds)
      | inr n ↦
          let ge = ltb_false→le _ _ n in
          rw n (elim (Bool-cases (ltb (tree_height t + 1) (tree_height u))) [
            | inl y ↦
                let lt = ltb→lt _ _ y in
                let m = balance_right b t p.0 u q.0 (omega arith) in
                rw y (m.0, omega bounds, omega bounds)
            | inr n' ↦
                let ge' = ltb_false→le _ _ n' in
                let m = balance_even b u q.0 t p.0 ge ge' in rw n' (m.0, omega bounds, omega bounds)
          ])
    ]

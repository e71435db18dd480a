-- ===== src/Block/Path.antt =====
-- The balance along the path from a node to the root, and the operations that walk it.
use mathlib.Core.Path.{subst}
use strawberry_os.Prelude.{
  ℕ, ◌+◌, ◌≤◌, ◌≡◌, refl, ap, List, [], ◌∷◌, ◌++◌, arith, inl, inr, ◌⊎◌, Bool-cases, true, false,
  some, ltb, some_inj, >>=-eq-some,
}
use strawberry_os.Block.{
  MemoryBlock, Tree, leaf, node, Frame, left_of, right_of, Location, higher, adjust_block,
  adjust_memory_map, adjust_parent, adjust_height, tree_height, find, rightmost, unlink,
  remove_memory_node,
}
use strawberry_os.Block.Insert.{insert_at}
use strawberry_os.Block.Balance.{IsAvl, IsNear, adjust_block-IsNear, bounds}

-- The path is that of a balanced tree in which the place has a subtree of height `h`.
abbrev pub IsAvlPath : ℕ → List Frame → Type 0
IsAvlPath h [] = Unit
IsAvlPath h (left_of b r ∷ path) =
    IsAvl r
    × (h ≤ tree_height r + 1)
    × (tree_height r ≤ h + 1)
    × IsAvlPath (higher h (tree_height r) + 1) path
IsAvlPath h (right_of l b ∷ path) =
    IsAvl l
    × (h ≤ tree_height l + 1)
    × (tree_height l ≤ h + 1)
    × IsAvlPath (higher (tree_height l) h + 1) path

adjust_memory_map-IsAvl :
    (h : ℕ) (t : Tree) (path : List Frame)
    → IsNear h (adjust_block t)
    → IsAvlPath h path
    → IsAvl (adjust_memory_map t path)
unfolding adjust_memory_map
adjust_memory_map-IsAvl h t [] n p = n.0
adjust_memory_map-IsAvl h t (left_of b r ∷ path) n p =
    adjust_memory_map-IsAvl (higher h (tree_height r) + 1) (node (adjust_block t) b r) path
      (adjust_block-IsNear h (tree_height r) (adjust_block t) b r p.1 p.2 n
        (p.0, omega arith, omega arith) (inr refl))
      p.3
adjust_memory_map-IsAvl h t (right_of l b ∷ path) n p =
    adjust_memory_map-IsAvl (higher (tree_height l) h + 1) (node l b (adjust_block t)) path
      (adjust_block-IsNear (tree_height l) h l b (adjust_block t) p.2 p.1
        (p.0, omega arith, omega arith) n (inl refl))
      p.3

adjust_parent-IsAvl :
    (h : ℕ) (t : Tree) (path : List Frame)
    → IsNear h t
    → IsAvlPath h path
    → IsAvl (adjust_parent t path)
unfolding adjust_parent
adjust_parent-IsAvl h t [] n p = n.0
adjust_parent-IsAvl h t (left_of b r ∷ path) n p =
    adjust_memory_map-IsAvl (higher h (tree_height r) + 1) (node t b r) path
      (adjust_block-IsNear h (tree_height r) t b r p.1 p.2 n (p.0, omega arith, omega arith)
        (inr refl))
      p.3
adjust_parent-IsAvl h t (right_of l b ∷ path) n p =
    adjust_memory_map-IsAvl (higher (tree_height l) h + 1) (node l b t) path
      (adjust_block-IsNear (tree_height l) h l b t p.2 p.1 (p.0, omega arith, omega arith) n
        (inl refl))
      p.3

-- Where a pointer is found: to the left, at the root, or to the right.
pub find-cases :
    (q : ℕ) (l : Tree) (b : MemoryBlock) (r : Tree) (path : List Frame) (loc : Location)
    → find q (node l b r) path ≡ some loc
    → (find q l (left_of b r ∷ path) ≡ some loc)
      ⊎ (((b.ptr ≡ q) × (record { left = l; block = b; right = r; path = path } ≡ loc))
          ⊎ (find q r (right_of l b ∷ path) ≡ some loc))
unfolding find
find-cases q l b r path loc e = ground arith

-- A walk down a balanced tree keeps the path balanced.
IsAvlPath-left :
    (l : Tree) (b : MemoryBlock) (r : Tree) (path : List Frame)
    → IsAvl (node l b r)
    → IsAvlPath b.h path
    → IsAvlPath (tree_height l) (left_of b r ∷ path)
IsAvlPath-left l b r path a p = (a.1, a.3, a.4, subst (λ h. IsAvlPath h path) a.2 p)

IsAvlPath-right :
    (l : Tree) (b : MemoryBlock) (r : Tree) (path : List Frame)
    → IsAvl (node l b r)
    → IsAvlPath b.h path
    → IsAvlPath (tree_height r) (right_of l b ∷ path)
IsAvlPath-right l b r path a p = (a.0, a.4, a.3, subst (λ h. IsAvlPath h path) a.2 p)

-- `InsertMemoryNode` without a merge keeps the tree balanced.
new_leaf-IsNear : (block : MemoryBlock) → IsNear 0 (adjust_block (node leaf block leaf))
unfolding adjust_block adjust_height higher
new_leaf-IsNear block = ((tt, tt, refl, omega arith, omega arith), omega arith, omega arith)

-- The two steps of the walk to the place of a new block.
pub insert_at-right :
    (l : Tree) (b : MemoryBlock) (r : Tree) (block : MemoryBlock) (path : List Frame)
    → ltb b.a block.a ≡ true
    → insert_at (node l b r) block path ≡ insert_at r block (right_of l b ∷ path)
unfolding insert_at
insert_at-right l b r block path y = rw (y, insert_at)

pub insert_at-left :
    (l : Tree) (b : MemoryBlock) (r : Tree) (block : MemoryBlock) (path : List Frame)
    → ltb b.a block.a ≡ false
    → insert_at (node l b r) block path ≡ insert_at l block (left_of b r ∷ path)
unfolding insert_at
insert_at-left l b r block path n = rw (n, insert_at)

pub insert_at-IsAvl :
    (t : Tree) (block : MemoryBlock) (path : List Frame)
    → IsAvl t
    → IsAvlPath (tree_height t) path
    → IsAvl (insert_at t block path)
unfolding insert_at
insert_at-IsAvl leaf block path a p =
    adjust_memory_map-IsAvl 0 (node leaf block leaf) path (new_leaf-IsNear block) p
insert_at-IsAvl (node l b r) block path a p = elim (Bool-cases (ltb b.a block.a)) [
  | inl y ↦
      rw (insert_at-right l b r block path y)
        (insert_at-IsAvl r block (right_of l b ∷ path) a.1 (IsAvlPath-right l b r path a p))
  | inr n ↦
      rw (insert_at-left l b r block path n)
        (insert_at-IsAvl l block (left_of b r ∷ path) a.0 (IsAvlPath-left l b r path a p))
]

-- A node with the path above it, in a balanced tree.
abbrev IsAvlAt : Location → Type 0
IsAvlAt loc = IsAvl (node loc.left loc.block loc.right) × IsAvlPath loc.block.h loc.path

find-IsAvlAt :
    (q : ℕ) (t : Tree) (path : List Frame) (loc : Location)
    → find q t path ≡ some loc
    → IsAvl t
    → IsAvlPath (tree_height t) path
    → IsAvlAt loc
unfolding find
find-IsAvlAt q leaf path loc e a p = cc
find-IsAvlAt q (node l b r) path loc e a p = elim (find-cases q l b r path loc e) [
  | inl f ↦ find-IsAvlAt q l (left_of b r ∷ path) loc f a.0 (IsAvlPath-left l b r path a p)
  | inr (inl f) ↦ subst IsAvlAt (f.1) (a, p)
  | inr (inr f) ↦ find-IsAvlAt q r (right_of l b ∷ path) loc f a.1 (IsAvlPath-right l b r path a p)
]

rightmost-IsAvlAt :
    (l : Tree) (b : MemoryBlock) (r : Tree) (path : List Frame)
    → IsAvl (node l b r)
    → IsAvlPath b.h path
    → IsAvlAt (rightmost l b r path)
unfolding rightmost
rightmost-IsAvlAt l b leaf path a p = (a, p)
rightmost-IsAvlAt l b (node rl rb rr) path a p =
    rightmost-IsAvlAt rl rb rr (right_of l b ∷ path) a.1
      (IsAvlPath-right l b (node rl rb rr) path a p)

pub right-rightmost :
    (l : Tree) (b : MemoryBlock) (r : Tree) (path : List Frame)
    → (rightmost l b r path).right ≡ leaf
unfolding rightmost
right-rightmost l b leaf path = refl
right-rightmost l b (node rl rb rr) path = right-rightmost rl rb rr (right_of l b ∷ path)

-- The walk to the right only adds to the path that it is given.
pub rightmost-append :
    (l : Tree) (b : MemoryBlock) (r : Tree) (path more : List Frame)
    → rightmost l b r (path ++ more)
      ≡ record (rightmost l b r path) { path = (rightmost l b r path).path ++ more }
unfolding rightmost
rightmost-append l b leaf path more = refl
rightmost-append l b (node rl rb rr) path more =
    rightmost-append rl rb rr (right_of l b ∷ path) more

-- `RemoveMemoryNode` keeps the tree balanced.
unlink-IsAvl :
    (l : Tree) (b : MemoryBlock) (r : Tree) (path : List Frame)
    → IsAvl (node l b r)
    → IsAvlPath b.h path
    → IsAvl (unlink l b r path).0
unfolding unlink
unlink-IsAvl leaf b r path a p = adjust_parent-IsAvl b.h r path (a.1, omega bounds, omega bounds) p
unlink-IsAvl (node ll lb lr) b leaf path a p =
    adjust_parent-IsAvl b.h (node ll lb lr) path (a.0, omega bounds, omega bounds) p
unlink-IsAvl (node ll lb lr) b (node rl rb rr) path a p =
    adjust_parent-IsAvl prev.block.h prev.left _
      (
        at.0.0,
        omega (bounds, ends, at.0.2, at.0.3, at.0.4),
        omega (bounds, ends, at.0.2, at.0.3, at.0.4),
      )
      at.1
  where
    prev : Location
    prev = rightmost ll lb lr []

    copied : MemoryBlock
    copied = record prev.block { ptr = b.ptr }

    ends : tree_height prev.right ≡ 0
    ends = ap tree_height (right-rightmost ll lb lr [])

    at : IsAvlAt (record prev { path = prev.path ++ (left_of copied (node rl rb rr) ∷ path) })
    at = subst IsAvlAt (rightmost-append ll lb lr [] _) (
        rightmost-IsAvlAt ll lb lr (left_of copied (node rl rb rr) ∷ path) a.0
          (IsAvlPath-left (node ll lb lr) b (node rl rb rr) path a p))

pub remove_memory_node-IsAvl :
    (t : Tree) (p : ℕ) {t' : Tree} {freed : ℕ}
    → IsAvl t
    → remove_memory_node t p ≡ some (t', freed)
    → IsAvl t'
unfolding remove_memory_node
remove_memory_node-IsAvl t p {t'} a e =
    let (loc, f, g) = >>=-eq-some (find p t []) _ e in
    let at = find-IsAvlAt p t [] loc f a tt in
    subst IsAvl (ap (λ (x : Tree × ℕ). x.0) (some_inj g))
      (unlink-IsAvl loc.left loc.block loc.right loc.path at.0 at.1)

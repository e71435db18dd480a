-- ===== src/Block/Items.antt =====
-- The nodes of a tree from left to right, and that the operations of block.c keep their order.
use mathlib.Core.List.{append-nil, append_assoc}
use strawberry_os.Prelude.{◌≡◌, refl, List, [], ◌∷◌, ◌++◌, arith, ltb, inl, inr, Bool-cases, ◌+◌}
use strawberry_os.Block.{
  MemoryBlock, Tree, leaf, node, Frame, left_of, right_of, Rotation, lift_left, lift_right,
  adjust_height, adjust_avl, adjust_block, adjust_memory_map, adjust_parent, straighten_left,
  straighten_right, tree_height,
}

-- A node without its height, which the balancing may change.
abbrev pub item : MemoryBlock → MemoryBlock
item b = record b { h = 0 }

abbrev pub items : Tree → List MemoryBlock
items leaf = []
items (node l b r) = items l ++ (item b ∷ items r)

-- What stands to the left and to the right of a place in the tree.
abbrev pub before : List Frame → List MemoryBlock
before [] = []
before (left_of b r ∷ path) = before path
before (right_of l b ∷ path) = before path ++ (items l ++ (item b ∷ []))

abbrev pub after : List Frame → List MemoryBlock
after [] = []
after (left_of b r ∷ path) = item b ∷ (items r ++ after path)
after (right_of l b ∷ path) = after path

pub items-adjust_height : (t : Tree) → items (adjust_height t) ≡ items t
unfolding adjust_height
items-adjust_height leaf = refl
items-adjust_height (node l b r) = refl

-- A rotation keeps the order of the nodes.
pub items-adjust_avl : (t : Tree) (type : Rotation) → items (adjust_avl t type) ≡ items t
unfolding adjust_avl adjust_height
items-adjust_avl leaf type = refl
items-adjust_avl (node l b leaf) lift_right = refl
items-adjust_avl (node l b (node m c r)) lift_right = simp append_assoc
items-adjust_avl (node leaf b r) lift_left = refl
items-adjust_avl (node (node l c m) b r) lift_left = simp append_assoc

items-straighten_left : (t : Tree) → items (straighten_left t) ≡ items t
unfolding straighten_left
items-straighten_left t = ground (arith, items-adjust_avl t lift_right)

items-straighten_right : (t : Tree) → items (straighten_right t) ≡ items t
unfolding straighten_right
items-straighten_right t = ground (arith, items-adjust_avl t lift_left)

ruleset rotation_laws =
    (items-adjust_height, items-adjust_avl, items-straighten_left, items-straighten_right)

-- One round of the balancing keeps the order of the nodes.
pub items-adjust_block : (t : Tree) → items (adjust_block t) ≡ items t
unfolding adjust_block
items-adjust_block leaf = refl
items-adjust_block (node l b r) = elim (Bool-cases (ltb (tree_height r + 1) (tree_height l))) [
  | inl e ↦ rw e (simp rotation_laws)
  | inr n ↦ rw n (elim (Bool-cases (ltb (tree_height l + 1) (tree_height r))) [
    | inl e ↦ rw e (simp rotation_laws)
    | inr e ↦ rw e (simp rotation_laws)
  ])
]

pub items-adjust_memory_map :
    (t : Tree) (path : List Frame)
    → items (adjust_memory_map t path) ≡ before path ++ (items t ++ after path)
unfolding adjust_memory_map
items-adjust_memory_map t [] = simp (items-adjust_block, append-nil)
items-adjust_memory_map t (left_of b r ∷ path) =
    simp
      (items-adjust_memory_map (node (adjust_block t) b r) path, items-adjust_block, append_assoc)
items-adjust_memory_map t (right_of l b ∷ path) =
    simp
      (items-adjust_memory_map (node l b (adjust_block t)) path, items-adjust_block, append_assoc)

pub items-adjust_parent :
    (t : Tree) (path : List Frame)
    → items (adjust_parent t path) ≡ before path ++ (items t ++ after path)
unfolding adjust_parent
items-adjust_parent t [] = simp append-nil
items-adjust_parent t (left_of b r ∷ path) = simp (items-adjust_memory_map, append_assoc)
items-adjust_parent t (right_of l b ∷ path) = simp (items-adjust_memory_map, append_assoc)

pub before-append : (path more : List Frame) → before (path ++ more) ≡ before more ++ before path
before-append [] more = simp append-nil
before-append (left_of b r ∷ path) more = before-append path more
before-append (right_of l b ∷ path) more = simp (before-append path more, append_assoc)

pub after-append : (path more : List Frame) → after (path ++ more) ≡ after path ++ after more
after-append [] more = refl
after-append (left_of b r ∷ path) more = simp (after-append path more, append_assoc)
after-append (right_of l b ∷ path) more = after-append path more

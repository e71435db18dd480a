-- ===== src/Block.antt =====
-- KERNEL/SOURCE/memory/block.c: the AVL tree of address ranges.
--
-- A tree of `MEMORY_BLOCK` nodes is the data type `Tree`; a node keeps its own address as `ptr`,
-- which is how `HeapAlloc` and `HeapFree` name it. The links `P` are the path from a node up to the
-- root, a list of frames, so `NodeReference` is the hole that the path leaves.
pub mod Items
pub mod Balance
pub mod Path
pub mod Search
pub mod Cover
mod Tests
pub mod Union
pub mod Fresh
pub mod Map
pub mod Placement
pub mod Effects
pub mod Removal
pub mod Insert
use strawberry_os.Prelude.{
  ℕ, ◌+◌, Bool, true, false, List, [], ◌∷◌, ◌++◌, Option, none, some, ltb, leb, ◌==◌, if◌then◌else◌,
  ◌>>=◌,
}

-- `MEMORY_BLOCK` without its links: its address, the height, the base, the size and the flags.
pub record MemoryBlock : Type 0 where
  pub ptr : ℕ
  pub h : ℕ
  pub a : ℕ
  pub s : ℕ
  pub v : ℕ

pub data Tree : Type 0 where
  leaf : Tree
  node : Tree → MemoryBlock → Tree → Tree

-- One step of a walk along `P`: the node is the `L` or the `R` of its parent.
pub data Frame : Type 0 where
  left_of : MemoryBlock → Tree → Frame
  right_of : Tree → MemoryBlock → Frame

-- The `type` argument of `AdjustAVL`: 0 lifts `R`, 1 lifts `L`.
pub data Rotation : Type 0 where
  lift_right lift_left : Rotation

-- A node with the path to the root, which is what a `MEMORY_BLOCK *` into a tree gives access to.
pub record Location : Type 0 where
  pub left : Tree
  pub block : MemoryBlock
  pub right : Tree
  pub path : List Frame

-- Store the parent's link.
abbrev pub plug : Frame → Tree → Tree
plug (left_of b r) t = node t b r
plug (right_of l b) t = node l b t

abbrev pub left_child : Tree → Tree
left_child leaf = leaf
left_child (node l b r) = l

abbrev pub right_child : Tree → Tree
right_child leaf = leaf
right_child (node l b r) = r

-- `TreeHeight`: a null pointer has height 0. A height counts nodes on the heap and cannot wrap.
abbrev pub tree_height : Tree → ℕ
tree_height leaf = 0
tree_height (node l b r) = b.h

-- `LH > RH ? LH : RH`
unfoldable pub higher : ℕ → ℕ → ℕ
higher lh rh = if ltb rh lh then lh else rh

-- `AdjustHeight`
pub adjust_height : Tree → Tree
adjust_height leaf = leaf
adjust_height (node l b r) = node l (record b { h = higher (tree_height l) (tree_height r) + 1 }) r

-- `AdjustAVL`: the child that is lifted is not null where the code rotates, since its height is
-- above another height. At a null child nothing is modelled: the tree is left as it is.
pub adjust_avl : Tree → Rotation → Tree
adjust_avl leaf type = leaf
adjust_avl (node l b leaf) lift_right = node l b leaf
adjust_avl (node l b (node m c r)) lift_right =
    adjust_height (node (adjust_height (node l b m)) c r)
adjust_avl (node leaf b r) lift_left = node leaf b r
adjust_avl (node (node l c m) b r) lift_left = adjust_height (node l c (adjust_height (node m b r)))

-- `if (TreeHeight(L->R) > TreeHeight(L->L)) AdjustAVL(&block->L, 0);`
pub straighten_left : Tree → Tree
straighten_left l =
    if ltb (tree_height (left_child l)) (tree_height (right_child l))
    then adjust_avl l lift_right
    else l

-- `if (TreeHeight(R->L) > TreeHeight(R->R)) AdjustAVL(&block->R, 1);`
pub straighten_right : Tree → Tree
straighten_right r =
    if ltb (tree_height (right_child r)) (tree_height (left_child r))
    then adjust_avl r lift_left
    else r

-- The body of the loop of `AdjustMemoryMap`, for the subtree of `block`.
pub adjust_block : Tree → Tree
adjust_block leaf = leaf
adjust_block (node l b r) = adjust_height (
    if ltb (tree_height r + 1) (tree_height l)
    then adjust_avl (node (straighten_left l) b r) lift_left
    else if ltb (tree_height l + 1) (tree_height r)
    then adjust_avl (node l b (straighten_right r)) lift_right
    else node l b r)

-- `AdjustMemoryMap`, from the root of the subtree up along its path.
pub adjust_memory_map : Tree → List Frame → Tree
adjust_memory_map t [] = adjust_block t
adjust_memory_map t (f ∷ path) = adjust_memory_map (plug f (adjust_block t)) path

-- `AdjustMemoryMap(root, P)` where `P` is the parent of the place that `t` was stored at.
pub adjust_parent : Tree → List Frame → Tree
adjust_parent t [] = t
adjust_parent t (f ∷ path) = adjust_memory_map (plug f t) path

-- The place that a pointer refers to, if its node is in the tree.
pub find : ℕ → Tree → List Frame → Option Location
find p leaf path = none
find p (node l b r) path = elim (find p l (left_of b r ∷ path)) [
  | some found ↦ some found
  | none ↦
      let rest = find p r (right_of l b ∷ path) in
      if b.ptr == p then some (record { left = l; block = b; right = r; path = path }) else rest
]

-- `while (prev->R) prev = prev->R;`, with the path walked.
pub rightmost : Tree → MemoryBlock → Tree → List Frame → Location
rightmost l b leaf path = record { left = l; block = b; right = leaf; path = path }
rightmost l b (node rl rb rr) path = rightmost rl rb rr (right_of l b ∷ path)

-- `RemoveMemoryNode` at a node, with the node that it frees. With two children the node takes over
-- the contents of its predecessor, and the predecessor's node is unlinked and freed.
pub unlink : Tree → MemoryBlock → Tree → List Frame → Tree × ℕ
unlink leaf b r path = (adjust_parent r path, b.ptr)
unlink (node ll lb lr) b leaf path = (adjust_parent (node ll lb lr) path, b.ptr)
unlink (node ll lb lr) b (node rl rb rr) path =
    let prev = rightmost ll lb lr [] in
    let copied = record prev.block { ptr = b.ptr } in
    (adjust_parent prev.left (prev.path ++ (left_of copied (node rl rb rr) ∷ path)), prev.block.ptr)

-- `RemoveMemoryNode`; `none` is a pointer to a node that is not in the tree.
pub remove_memory_node : Tree → ℕ → Option (Tree × ℕ)
remove_memory_node t p = do loc ← find p t []; some (unlink loc.left loc.block loc.right loc.path)

-- `*p` for a node; `none` is a read of a node that is not in the tree.
pub load : ℕ → Tree → Option MemoryBlock
load p t = do loc ← find p t []; some loc.block

-- `SearchMemoryNode` with option 0: the node of the greatest base at or below the address.
pub search_below : Tree → ℕ → Option MemoryBlock → Option MemoryBlock
search_below leaf address next = next
search_below (node l b r) address next = elim (leb b.a address) [
  | true ↦ search_below r address (some b)
  | false ↦ search_below l address next
]

-- `SearchMemoryNode` with option 1: the node of the least base at or above the address.
pub search_above : Tree → ℕ → Option MemoryBlock → Option MemoryBlock
search_above leaf address next = next
search_above (node l b r) address next = elim (leb address b.a) [
  | true ↦ search_above l address (some b)
  | false ↦ search_above r address next
]

-- `SearchMemoryNode`
pub search_memory_node : Tree → ℕ → ℕ → Option MemoryBlock
search_memory_node t address option =
    if option == 0
    then search_below t address none
    else if option == 1
    then search_above t address none
    else none

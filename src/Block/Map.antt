-- ===== src/Block/Map.antt =====
-- The maps of address ranges that block.c keeps, and `RemoveMemoryNode` and `InsertMemoryNode` on them.
use mathlib.Core.Path.{subst}
use mathlib.Core.List.{append-nil}
use strawberry_os.Prelude.{
  ℕ, ◌+◌, ◌≤◌, ◌≡◌, refl, ◌∙◌, ◌||◌, List, [], ◌∷◌, arith, inl, inr, some, Option-cases, ◌==◌,
  if◌then◌else◌, All,
}
use strawberry_os.Block.{MemoryBlock, Tree, node, find, load, remove_memory_node}
use strawberry_os.Block.Insert.{Merge, absorb}
use strawberry_os.Block.Items.{item, items, before}
use strawberry_os.Block.Balance.{IsAvl}
use strawberry_os.Block.Path.{remove_memory_node-IsAvl}
use strawberry_os.Block.Search.{IsSorted}
use strawberry_os.Block.Removal.{
  Removed, uses, uses-Removed, find-around, find-none, remove_memory_node_total,
  remove_memory_node-Removed,
}
use strawberry_os.Block.Cover.{
  within, covers, inside, overlaps, IsFit, Holds, Holds-middle, Holds-left, Holds-right,
  Holds-unique, uses_pos,
}
use strawberry_os.Block.Effects.{
  IsSorted-Removed, All-IsFit-Removed, covers-Removed, overlaps-Removed,
}

-- A balanced tree of ranges of at least `least` addresses, sorted by their bases, none of which
-- wraps, in nodes of their own.
pub record IsMap (least : ℕ) (t : Tree) : Type 0 where
  pub avl : IsAvl t
  pub sorted : IsSorted (items t)
  pub fits : All (IsFit least) (items t)
  pub distinct : (p : ℕ) → uses p (items t) ≤ 1

-- A node of the map is read through its address.
pub load-Holds :
    (least : ℕ) (t : Tree) (b : MemoryBlock)
    → IsMap least t
    → Holds (item b) (items t)
    → (now : MemoryBlock) × (load b.ptr t ≡ some now) × (item now ≡ item b)
unfolding load
load-Holds least t b v h = elim (Option-cases (find b.ptr t [])) [
  | inl e ↦ absurd (omega (arith, find-none b.ptr t [] e, uses_pos (items t) (item b) h))
  | inr (loc, e) ↦
      let (q, around) = find-around b.ptr t [] loc e in
      (
        loc.block,
        rw e,
        Holds-unique (items t) (item loc.block) (item b) (v.distinct loc.block.ptr) q
            (subst (Holds (item loc.block)) (around ∙ append-nil _) (
              Holds-right (before loc.path) _ _ (
                Holds-left (items (node loc.left loc.block loc.right)) _ _
                  (Holds-middle (items loc.left) _ _))))
            h,
      )
]

-- `RemoveMemoryNode` of a node of the map leaves a map.
pub remove_memory_node-IsMap :
    (least : ℕ) (t : Tree) (b : MemoryBlock)
    → IsMap least t
    → Holds (item b) (items t)
    → (t' : Tree) × (freed : ℕ) × (remove_memory_node t b.ptr ≡ some (t', freed))
      × Removed b.ptr (items t) (items t') freed
      × IsMap least t'
remove_memory_node-IsMap least t b v h =
    let (t', freed, e) = remove_memory_node_total t b.ptr (uses_pos (items t) (item b) h) in
    let gone = remove_memory_node-Removed t b.ptr e in
    (
      t',
      freed,
      e,
      gone,
      record {
        avl = remove_memory_node-IsAvl t b.ptr v.avl e;
        sorted = IsSorted-Removed gone v.sorted;
        fits = All-IsFit-Removed least gone v.fits;
        distinct = λ p. omega (arith, uses-Removed p gone, v.distinct p);
      },
    )

-- How often an address is among those freed.
abbrev pub times : ℕ → List ℕ → ℕ
times p [] = 0
times p (q ∷ qs) = (if q == p then 1 else 0) + times p qs

-- An insertion of `block` into `t` on its way: the tree and the block that is still outside of it
-- cover what they covered at first, and each node is in the tree or has been freed.
pub record IsMerging (least : ℕ) (t : Tree) (block : MemoryBlock) (m : Merge) : Type 0 where
  pub valid : IsMap least m.tree
  pub fit : IsFit least m.block
  pub same_ptr : m.block.ptr ≡ block.ptr
  pub accounts : (p : ℕ) → uses p (items t) ≡ uses p (items m.tree) + times p m.freed
  pub no_overlap :
      (x : ℕ) → overlaps x (items m.tree) + inside x m.block ≤ overlaps x (items t) + inside x block
  pub cover :
      (x : ℕ)
      → (covers x (items m.tree) || within x m.block) ≡ (covers x (items t) || within x block)

module _ (least : ℕ) (t : Tree) (block : MemoryBlock) where
  pub absorb-IsMerging :
      (m : Merge) (b grown : MemoryBlock)
      → IsMerging least t block m
      → Holds (item b) (items m.tree)
      → IsFit least grown
      → grown.ptr ≡ m.block.ptr
      → ((x : ℕ) → within x grown ≡ (within x m.block || within x b))
      → (m' : Merge) × (absorb m b.ptr grown ≡ some m')
        × IsMerging least t block m'
        × (m'.block ≡ grown)
        × ((freed : ℕ) × Removed b.ptr (items m.tree) (items m'.tree) freed)
  unfolding absorb
  absorb-IsMerging m b grown v h f q w =
      let (t', freed, e, gone, v') = remove_memory_node-IsMap least m.tree b v.valid h in
      let m' : Merge = record { tree = t'; block = grown; freed = freed ∷ m.freed } in
      (
        m',
        rw e,
        record {
          valid = v';
          fit = f;
          same_ptr = q ∙ v.same_ptr;
          accounts = λ p. omega (arith, v.accounts p, uses-Removed p gone);
          no_overlap = λ x. ground (
            arith,
            w x,
            v.no_overlap x,
            overlaps-Removed (item b) (items m.tree) (v.valid.distinct b.ptr) h x gone,
          );
          cover = λ x. ground (
            arith,
            w x,
            v.cover x,
            covers-Removed (item b) (items m.tree) (v.valid.distinct b.ptr) h x gone,
          );
        },
        refl,
        (freed, gone),
      )

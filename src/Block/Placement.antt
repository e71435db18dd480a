-- ===== src/Block/Placement.antt =====
-- Where `InsertMemoryNode` stores a new node: before the first node with a base not below its own.
use mathlib.Core.List.{append-nil, append_assoc}
use strawberry_os.Prelude.{
  ℕ, ◌+◌, ◌≤◌, ◌<◌, ◌≡◌, ◌∙◌, ◌||◌, List, [], ◌∷◌, ◌++◌, arith, inl, inr, ltb, ltb→lt, ltb_false→le,
  ◌==◌, if◌then◌else◌, Bool-cases, All, All-imp,
}
use strawberry_os.Block.{MemoryBlock, Tree, leaf, node, Frame, left_of, right_of}
use strawberry_os.Block.Insert.{insert_at}
use strawberry_os.Block.Items.{item, items, before, after, items-adjust_memory_map}
use strawberry_os.Block.Path.{insert_at-left, insert_at-right}
use strawberry_os.Block.Search.{IsSorted, IsCut, IsSorted-IsCut}
use strawberry_os.Block.Removal.{uses}
use strawberry_os.Block.Cover.{within, covers, inside, overlaps, IsFit}

-- Insertion into a sorted list.
abbrev pub insert_item : MemoryBlock → List MemoryBlock → List MemoryBlock
insert_item b [] = b ∷ []
insert_item b (x ∷ xs) = if ltb x.a b.a then x ∷ insert_item b xs else b ∷ x ∷ xs

insert_item_behind :
    (b : MemoryBlock) (ls : List MemoryBlock) (x : MemoryBlock) (rs : List MemoryBlock)
    → All (λ y. y.a ≤ x.a) ls
    → x.a < b.a
    → insert_item b (ls ++ (x ∷ rs)) ≡ ls ++ (x ∷ insert_item b rs)
insert_item_behind b [] x rs p h = ground arith
insert_item_behind b (y ∷ ls) x rs p h = ground (arith, insert_item_behind b ls x rs p.1 h)

insert_item_before :
    (b : MemoryBlock) (ls : List MemoryBlock) (x : MemoryBlock) (rs : List MemoryBlock)
    → b.a ≤ x.a
    → insert_item b (ls ++ (x ∷ rs)) ≡ insert_item b ls ++ (x ∷ rs)
insert_item_before b [] x rs h = ground arith
insert_item_before b (y ∷ ls) x rs h = ground (arith, insert_item_before b ls x rs h)

items-insert_at :
    (t : Tree) (block : MemoryBlock) (path : List Frame)
    → IsSorted (items t)
    → items (insert_at t block path)
      ≡ before path ++ (insert_item (item block) (items t) ++ after path)
unfolding insert_at
items-insert_at leaf block path s = items-adjust_memory_map (node leaf block leaf) path
items-insert_at (node l b r) block path s = elim (Bool-cases (ltb b.a block.a)) [
  | inl y ↦
      rw
        (
          insert_at-right l b r block path y,
          items-insert_at r block (right_of l b ∷ path) cut.right_sorted,
          insert_item_behind (item block) (items l) (item b) (items r) cut.left_below
              (ltb→lt _ _ y),
        )
        (simp append_assoc)
  | inr n ↦
      rw
        (
          insert_at-left l b r block path n,
          items-insert_at l block (left_of b r ∷ path) cut.left_sorted,
          insert_item_before (item block) (items l) (item b) (items r) (ltb_false→le _ _ n),
        )
        (simp append_assoc)
]
  where
    cut : IsCut (items l) (item b) (items r)
    cut = IsSorted-IsCut (items l) (item b) (items r) s

-- The new node joins the others in the order of the bases, and no other node is touched.
pub items-insert_at_root :
    (t : Tree) (block : MemoryBlock)
    → IsSorted (items t)
    → items (insert_at t block []) ≡ insert_item (item block) (items t)
items-insert_at_root t block s = items-insert_at t block [] s ∙ append-nil _

pub All-insert_item {κ} :
    (P : MemoryBlock → Type κ) (b : MemoryBlock) (xs : List MemoryBlock)
    → P b
    → All P xs
    → All P (insert_item b xs)
All-insert_item P b [] p q = (p, tt)
All-insert_item P b (x ∷ xs) p q = elim (Bool-cases (ltb x.a b.a)) [
  | inl y ↦ rw y (q.0, All-insert_item P b xs p q.1)
  | inr n ↦ rw n (p, q)
]

pub All-IsFit-insert_item :
    (least : ℕ) (b : MemoryBlock) (xs : List MemoryBlock)
    → IsFit least b
    → All (IsFit least) xs
    → All (IsFit least) (insert_item b xs)
All-IsFit-insert_item least b xs p q = All-insert_item (IsFit least) b xs p q

pub IsSorted-insert_item :
    (b : MemoryBlock) (xs : List MemoryBlock) → IsSorted xs → IsSorted (insert_item b xs)
IsSorted-insert_item b [] s = (tt, tt)
IsSorted-insert_item b (x ∷ xs) s = elim (Bool-cases (ltb x.a b.a)) [
  | inl y ↦
      let lt = ltb→lt _ _ y in
      rw y (All-insert_item (λ z. x.a ≤ z.a) b xs (omega arith) s.0, IsSorted-insert_item b xs s.1)
  | inr n ↦ let ge = ltb_false→le _ _ n in rw n ((ge, All-imp _ _ (λ z h. omega arith) xs s.0), s)
]

pub covers-insert_item :
    (x : ℕ) (b : MemoryBlock) (xs : List MemoryBlock)
    → covers x (insert_item b xs) ≡ (covers x xs || within x b)
covers-insert_item x b [] = ground arith
covers-insert_item x b (y ∷ xs) = ground (arith, covers-insert_item x b xs)

pub overlaps-insert_item :
    (x : ℕ) (b : MemoryBlock) (xs : List MemoryBlock)
    → overlaps x (insert_item b xs) ≡ overlaps x xs + inside x b
overlaps-insert_item x b [] = omega arith
overlaps-insert_item x b (y ∷ xs) = elim (Bool-cases (ltb y.a b.a)) [
  | inl t ↦ rw t (omega (arith, overlaps-insert_item x b xs))
  | inr n ↦ rw n (omega arith)
]

pub uses-insert_item :
    (p : ℕ) (b : MemoryBlock) (xs : List MemoryBlock)
    → uses p (insert_item b xs) ≡ uses p xs + (if b.ptr == p then 1 else 0)
uses-insert_item p b [] = ground arith
uses-insert_item p b (y ∷ xs) = ground (arith, uses-insert_item p b xs)

-- ===== src/Block/Removal.antt =====
-- `RemoveMemoryNode`: which range leaves the tree, and which node is freed.
use mathlib.Core.Path.{subst, subst₂}
use mathlib.Core.List.{append-nil, append_assoc}
use strawberry_os.Prelude.{
  ℕ, ◌+◌, ◌<◌, ◌≡◌, refl, sym, ap, ◌∙◌, List, [], ◌∷◌, ◌++◌, arith, inl, inr, Option-cases, none,
  some, ◌==◌, if◌then◌else◌, >>=-eq-some, some_inj,
}
use strawberry_os.Block.{
  MemoryBlock, Tree, leaf, node, Frame, left_of, right_of, Location, find, rightmost, unlink,
  remove_memory_node,
}
use strawberry_os.Block.Items.{
  item, items, before, after, items-adjust_parent, before-append, after-append,
}
use strawberry_os.Block.Path.{find-cases, right-rightmost}

-- The nodes of the whole tree, seen from one of its places.
abbrev pub around : Location → List MemoryBlock
around loc = before loc.path ++ (items (node loc.left loc.block loc.right) ++ after loc.path)

pub find-around :
    (p : ℕ) (t : Tree) (path : List Frame) (loc : Location)
    → find p t path ≡ some loc
    → (loc.block.ptr ≡ p) × (around loc ≡ before path ++ (items t ++ after path))
unfolding find
find-around p leaf path loc e = cc
find-around p (node l b r) path loc e = elim (find-cases p l b r path loc e) [
  | inl f ↦ let (q, h) = find-around p l (left_of b r ∷ path) loc f in (q, h ∙ simp append_assoc)
  | inr (inl f) ↦ (ap (λ (x : Location). x.block.ptr) (sym f.1) ∙ f.0, ap around (sym f.1))
  | inr (inr f) ↦
      let (q, h) = find-around p r (right_of l b ∷ path) loc f in (q, h ∙ simp append_assoc)
]

rightmost-around :
    (l : Tree) (b : MemoryBlock) (r : Tree) (path : List Frame)
    → around (rightmost l b r path) ≡ before path ++ (items (node l b r) ++ after path)
unfolding rightmost
rightmost-around l b leaf path = refl
rightmost-around l b (node rl rb rr) path =
    rightmost-around rl rb rr (right_of l b ∷ path) ∙ simp append_assoc

-- How the nodes `xs` become `ys` when the node `p` is removed: it is unlinked itself, or it takes
-- over the contents of the node before it, which is unlinked in its place.
pub data Removed (p : ℕ) (xs ys : List MemoryBlock) (freed : ℕ) : Type 0 where
  unlinked :
      (ls rs : List MemoryBlock) (b : MemoryBlock)
      → b.ptr ≡ p
      → xs ≡ ls ++ (b ∷ rs)
      → ys ≡ ls ++ rs
      → freed ≡ p
      → Removed p xs ys freed
  replaced :
      (ls rs : List MemoryBlock) (c b : MemoryBlock)
      → b.ptr ≡ p
      → xs ≡ ls ++ (c ∷ b ∷ rs)
      → ys ≡ ls ++ (record c { ptr = p } ∷ rs)
      → freed ≡ c.ptr
      → Removed p xs ys freed

after-rightmost :
    (l : Tree) (b : MemoryBlock) (r : Tree) (path : List Frame)
    → after (rightmost l b r path).path ≡ after path
unfolding rightmost
after-rightmost l b leaf path = refl
after-rightmost l b (node rl rb rr) path = after-rightmost rl rb rr (right_of l b ∷ path)

rightmost-items :
    (l : Tree) (b : MemoryBlock) (r : Tree)
    → before (rightmost l b r []).path
        ++ (items (rightmost l b r []).left ++ (item (rightmost l b r []).block ∷ []))
      ≡ items (node l b r)
rightmost-items l b r =
    simp (right-rightmost, after-rightmost, append-nil) at (rightmost-around l b r [])

unlink-Removed :
    (l : Tree) (b : MemoryBlock) (r : Tree) (path : List Frame)
    → Removed b.ptr
        (before path ++ (items (node l b r) ++ after path))
        (items (unlink l b r path).0)
        (unlink l b r path).1
unfolding unlink
unlink-Removed leaf b r path =
    unlinked (before path) (items r ++ after path) (item b) refl refl (items-adjust_parent r path)
      refl
unlink-Removed (node ll lb lr) b leaf path =
    unlinked (before path ++ items (node ll lb lr)) (after path) (item b) refl (simp append_assoc)
      (items-adjust_parent (node ll lb lr) path ∙ simp append_assoc) refl
unlink-Removed (node ll lb lr) b (node rl rb rr) path =
    replaced (before path ++ (before prev.path ++ items prev.left))
      (items (node rl rb rr) ++ after path) (item prev.block) (item b) refl
      (rw (← rightmost-items ll lb lr) (simp append_assoc))
      (items-adjust_parent prev.left _
        ∙ simp (before-append, after-append, after-rightmost ll lb lr [], append_assoc))
      refl
  where
    prev : Location
    prev = rightmost ll lb lr []

-- `RemoveMemoryNode` takes one node out of the sequence of nodes and leaves the others as they are.
pub remove_memory_node-Removed :
    (t : Tree) (p : ℕ) {t' : Tree} {freed : ℕ}
    → remove_memory_node t p ≡ some (t', freed)
    → Removed p (items t) (items t') freed
unfolding remove_memory_node
remove_memory_node-Removed t p {t'} {freed} e =
    let (loc, f, g) = >>=-eq-some (find p t []) _ e in
    let (q, h) = find-around p t [] loc f in
    subst₂ (λ xs (r : Tree × ℕ). Removed p xs (items r.0) r.1) (h ∙ append-nil _) (some_inj g)
      (subst
        (λ k.
          Removed k (around loc) (items (unlink loc.left loc.block loc.right loc.path).0)
            (unlink loc.left loc.block loc.right loc.path).1)
        q (unlink-Removed loc.left loc.block loc.right loc.path))

-- How many nodes stand at an address.
abbrev pub uses : ℕ → List MemoryBlock → ℕ
uses p [] = 0
uses p (b ∷ bs) = (if b.ptr == p then 1 else 0) + uses p bs

pub uses-append : (p : ℕ) (xs ys : List MemoryBlock) → uses p (xs ++ ys) ≡ uses p xs + uses p ys
uses-append p [] ys = omega arith
uses-append p (x ∷ xs) ys = omega (arith, uses-append p xs ys)

-- Only a node that is not in the tree is not found.
pub find-none : (p : ℕ) (t : Tree) (path : List Frame) → find p t path ≡ none → uses p (items t) ≡ 0
unfolding find
find-none p leaf path e = refl
find-none p (node l b r) path e = ground (
  arith,
  uses-append p (items l) (item b ∷ items r),
  find-none p l (left_of b r ∷ path),
  find-none p r (right_of l b ∷ path),
)

-- `RemoveMemoryNode` of a node of the tree removes it.
pub remove_memory_node_total :
    (t : Tree) (p : ℕ)
    → 0 < uses p (items t)
    → (t' : Tree) × (freed : ℕ) × (remove_memory_node t p ≡ some (t', freed))
unfolding remove_memory_node
remove_memory_node_total t p h = elim (Option-cases (find p t [])) [
  | inl e ↦ absurd (omega (arith, find-none p t [] e))
  | inr (loc, e) ↦ (
    (unlink loc.left loc.block loc.right loc.path).0,
    (unlink loc.left loc.block loc.right loc.path).1,
    rw e,
  )
]

-- No node is lost and none is freed twice: what is freed is what the tree no longer holds.
pub uses-Removed :
    {p : ℕ} {xs ys : List MemoryBlock} {freed : ℕ} (q : ℕ)
    → Removed p xs ys freed
    → uses q xs ≡ uses q ys + (if freed == q then 1 else 0)
uses-Removed {p} {xs} {ys} {freed} q (unlinked ls rs b eb ex ey ef) =
    rw (ex, ey, ef, uses-append, uses-append, ← eb) (omega arith)
uses-Removed {p} {xs} {ys} {freed} q (replaced ls rs c b eb ex ey ef) =
    rw (ex, ey, ef, uses-append, uses-append, ← eb) (omega arith)

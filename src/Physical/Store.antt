-- ===== src/Physical/Store.antt =====
-- What the store of a size through a pointer does to the nodes of the map.
use strawberry_os.Prelude.{
  ℕ, ◌+◌, ◌-◌, ◌≤◌, ◌≡◌, ◌≢◌, refl, ◌∙◌, List, [], ◌∷◌, ◌++◌, arith, inl, inr, ◌⊎◌, ◌==◌,
  if◌then◌else◌, All, All-imp, Bool-cases, ==_iff, ap,
}
use strawberry_os.Block.{MemoryBlock, Tree, leaf, node, tree_height}
use strawberry_os.Block.Items.{item, items}
use strawberry_os.Block.Balance.{IsAvl}
use strawberry_os.Block.Search.{IsSorted}
use strawberry_os.Block.Removal.{uses}
use strawberry_os.Block.Cover.{inside, overlaps, IsFit, Holds, uses_pos}
use strawberry_os.Physical.{store_size}

abbrev pub resized : ℕ → ℕ → MemoryBlock → MemoryBlock
resized p s b = if b.ptr == p then record b { s = s } else b

abbrev pub resize : ℕ → ℕ → List MemoryBlock → List MemoryBlock
resize p s [] = []
resize p s (b ∷ bs) = resized p s b ∷ resize p s bs

resize-append :
    (p s : ℕ) (xs ys : List MemoryBlock) → resize p s (xs ++ ys) ≡ resize p s xs ++ resize p s ys
resize-append p s [] ys = refl
resize-append p s (b ∷ bs) ys = ap (λ r. resized p s b ∷ r) (resize-append p s bs ys)

item-resized : (p s : ℕ) (b : MemoryBlock) → item (resized p s b) ≡ resized p s (item b)
item-resized p s b = elim (Bool-cases (b.ptr == p)) [ inl y ↦ rw y refl | inr n ↦ rw n refl ]

pub items-store_size : (t : Tree) (p s : ℕ) → items (store_size t p s) ≡ resize p s (items t)
unfolding store_size
items-store_size leaf p s = refl
items-store_size (node l b r) p s =
    rw (resize-append, items-store_size l p s, items-store_size r p s, item-resized p s b) refl

-- The store leaves the rest of the node.
kept_fields :
    (p s : ℕ) (b : MemoryBlock)
    → ((resized p s b).h ≡ b.h) × ((resized p s b).a ≡ b.a) × ((resized p s b).ptr ≡ b.ptr)
kept_fields p s b = elim (Bool-cases (b.ptr == p)) [
  | inl y ↦ rw y (refl, refl, refl)
  | inr n ↦ rw n (refl, refl, refl)
]

tree_height-store_size : (t : Tree) (p s : ℕ) → tree_height (store_size t p s) ≡ tree_height t
unfolding store_size
tree_height-store_size leaf p s = refl
tree_height-store_size (node l b r) p s = (kept_fields p s b).0

pub IsAvl-store_size : (t : Tree) (p s : ℕ) → IsAvl t → IsAvl (store_size t p s)
unfolding store_size
IsAvl-store_size leaf p s v = v
IsAvl-store_size (node l b r) p s (vl, vr, e, lo, hi) =
    let el = tree_height-store_size l p s in
    let er = tree_height-store_size r p s in
    (
      IsAvl-store_size l p s vl,
      IsAvl-store_size r p s vr,
      rw ((kept_fields p s b).0, el, er) e,
      rw (el, er) lo,
      rw (el, er) hi,
    )

above-resize :
    (xs : List MemoryBlock) (p s a : ℕ) → All (λ x. a ≤ x.a) xs → All (λ x. a ≤ x.a) (resize p s xs)
above-resize [] p s a v = v
above-resize (x ∷ xs) p s a (h, v) = (rw (kept_fields p s x).1 h, above-resize xs p s a v)

pub IsSorted-resize : (xs : List MemoryBlock) (p s : ℕ) → IsSorted xs → IsSorted (resize p s xs)
IsSorted-resize [] p s v = v
IsSorted-resize (x ∷ xs) p s (h, v) =
    (rw (kept_fields p s x).1 (above-resize xs p s x.a h), IsSorted-resize xs p s v)

pub uses-resize : (xs : List MemoryBlock) (p s q : ℕ) → uses q (resize p s xs) ≡ uses q xs
uses-resize [] p s q = refl
uses-resize (x ∷ xs) p s q = rw ((kept_fields p s x).2, uses-resize xs p s q) refl

resize_absent : (xs : List MemoryBlock) (p s : ℕ) → uses p xs ≡ 0 → resize p s xs ≡ xs
resize_absent [] p s e = refl
resize_absent (x ∷ xs) p s e = elim (Bool-cases (x.ptr == p)) [
  | inl y ↦ absurd (ground arith)
  | inr n ↦ rw n (ap (λ r. x ∷ r) (resize_absent xs p s (omega arith)))
]

-- The range that a node loses when it is cut to the size `left`.
abbrev pub cut : MemoryBlock → ℕ → MemoryBlock
cut b left = record b { a = b.a + left; s = b.s - left }

inside-cut :
    (b : MemoryBlock) (left x : ℕ)
    → left ≤ b.s
    → inside x b ≡ inside x (record b { s = left }) + inside x (cut b left)
inside-cut b left x le = ground arith

resized_same : (b : MemoryBlock) (s : ℕ) → resized b.ptr s b ≡ record b { s = s }
resized_same b s = rw ((==_iff b.ptr b.ptr).1 refl) refl

resized_other : (b : MemoryBlock) (p s : ℕ) → b.ptr ≢ p → resized p s b ≡ b
resized_other b p s ne = elim (Bool-cases (b.ptr == p)) [
  | inl y ↦ absurd (ground arith)
  | inr n ↦ rw n refl
]

pub overlaps-resize :
    (xs : List MemoryBlock) (b : MemoryBlock) (left x : ℕ)
    → uses b.ptr xs ≤ 1
    → Holds b xs
    → left ≤ b.s
    → overlaps x xs ≡ overlaps x (resize b.ptr left xs) + inside x (cut b left)
overlaps-resize [] b left x u h le = absurd h
overlaps-resize (y ∷ xs) b left x u (inl e) le =
    let gone : uses b.ptr xs ≡ 0 = ground arith in
    rw (e, resized_same b left, resize_absent xs b.ptr left gone)
      (omega (arith, inside-cut b left x le))
overlaps-resize (y ∷ xs) b left x u (inr h) le =
    let other : y.ptr ≢ b.ptr = ground (arith, uses_pos xs b h) in
    rw (resized_other y b.ptr left other)
      (omega (arith, overlaps-resize xs b left x (omega arith) h le))

-- Ranges of at least `least` addresses stay so when one of them is cut to `left`.
pub All-IsFit-resize :
    (least : ℕ) (xs : List MemoryBlock) (b : MemoryBlock) (left : ℕ)
    → uses b.ptr xs ≤ 1
    → Holds b xs
    → left ≤ b.s
    → least ≤ left
    → least ≤ 1
    → All (IsFit 1) xs
    → All (IsFit least) (resize b.ptr left xs)
All-IsFit-resize least [] b left u h le lo one v = v
All-IsFit-resize least (y ∷ xs) b left u (inl e) le lo one (f, v) =
    let gone : uses b.ptr xs ≡ 0 = ground arith in
    let fit : IsFit 1 b = rw e at f in
    let cut_fit : IsFit least (record b { s = left }) = omega arith in
    rw (e, resized_same b left, resize_absent xs b.ptr left gone)
      (cut_fit, All-imp _ _ (λ z k. (omega arith, k.1)) xs v)
All-IsFit-resize least (y ∷ xs) b left u (inr h) le lo one (f, v) =
    let other : y.ptr ≢ b.ptr = ground (arith, uses_pos xs b h) in
    let fit : IsFit least y = omega arith in
    rw (resized_other y b.ptr left other)
      (fit, All-IsFit-resize least xs b left (omega arith) h le lo one v)

pub Holds-resize :
    (xs : List MemoryBlock) (b : MemoryBlock) (left : ℕ)
    → Holds b xs
    → Holds (record b { s = left }) (resize b.ptr left xs)
Holds-resize [] b left h = h
Holds-resize (y ∷ xs) b left (inl e) = inl (rw e (resized_same b left))
Holds-resize (y ∷ xs) b left (inr h) = inr (Holds-resize xs b left h)

abbrev pub IsOther : ℕ → MemoryBlock → Type 0
IsOther p b = IsFit 1 b ⊎ (b.ptr ≡ p)

-- Only the node at the address can be empty.
pub All-IsOther-resize :
    (xs : List MemoryBlock) (p s : ℕ) → All (IsFit 1) xs → All (IsOther p) (resize p s xs)
All-IsOther-resize [] p s v = v
All-IsOther-resize (y ∷ xs) p s (f, v) = (
  elim (Bool-cases (y.ptr == p)) [
    | inl e ↦ inr ((kept_fields p s y).2 ∙ (==_iff y.ptr p).0 e)
    | inr n ↦ inl (rw n f)
  ],
  All-IsOther-resize xs p s v,
)

pub All-IsFit-absent :
    (xs : List MemoryBlock) (p : ℕ) → uses p xs ≡ 0 → All (IsOther p) xs → All (IsFit 1) xs
All-IsFit-absent [] p u v = v
All-IsFit-absent (y ∷ xs) p u (inl f, v) = (f, All-IsFit-absent xs p (omega arith) v)
All-IsFit-absent (y ∷ xs) p u (inr e, v) = absurd (ground arith)

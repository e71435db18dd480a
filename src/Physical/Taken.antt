-- ===== src/Physical/Taken.antt =====
-- One round of `AllocatePhysicalMemory` that takes pages: what it leaves of the map.
use strawberry_os.Prelude.{
  ℕ, ◌+◌, ◌-◌, ◌*◌, ◌^◌, ◌≤◌, ◌<◌, ◌≡◌, ◌≢◌, refl, ap, List, [], ◌∷◌, ◌++◌, arith, inl, inr, ◌==◌,
  All, All-append, All-append_left, All-append_right, some, true, ltb, Bool-cases, ==_iff, add64,
  sub64, mul64,
}
use strawberry_os.Block.{MemoryBlock, Tree}
use strawberry_os.Block.Insert.{insert_memory_node}
use strawberry_os.Block.Items.{item, items}
use strawberry_os.Block.Removal.{Removed, unlinked, replaced, uses, uses-append}
use strawberry_os.Block.Cover.{covers, inside, overlaps, IsFit, Holds}
use strawberry_os.Block.Effects.{overlaps-Removed}
use strawberry_os.Block.Map.{IsMap, remove_memory_node-IsMap}
use strawberry_os.Block.Union.{insert_memory_node-IsInserted}
use strawberry_os.Physical.{store_size, shrink, split, take_pages, new_block}
use strawberry_os.Physical.Store.{
  IsAvl-store_size, items-store_size, IsSorted-resize, uses-resize, cut, overlaps-resize,
  All-IsFit-resize, Holds-resize, IsOther, All-IsOther-resize, All-IsFit-absent, resize,
}

-- When the node at the address is removed, the nodes that stay are not empty.
pub All-IsOther-Removed :
    {p : ℕ} {xs ys : List MemoryBlock} {freed : ℕ}
    → Removed p xs ys freed
    → uses p xs ≤ 1
    → All (IsOther p) xs
    → All (IsFit 1) ys
All-IsOther-Removed {p} {xs} {ys} {freed} (unlinked ls rs b eb ex ey ef) u v =
    let w = rw ex at v in
    let n : uses p (ls ++ (b ∷ rs)) ≤ 1 = rw ex at u in
    let k = uses-append p ls (b ∷ rs) in
    rw ey (
      All-append _ ls rs (All-IsFit-absent ls p (ground arith) (All-append_left _ ls _ w))
        (All-IsFit-absent rs p (ground arith) (All-append_right _ ls (b ∷ rs) w).1))
All-IsOther-Removed {p} {xs} {ys} {freed} (replaced ls rs c b eb ex ey ef) u v =
    let w = rw ex at v in
    let n : uses p (ls ++ (c ∷ b ∷ rs)) ≤ 1 = rw ex at u in
    let k = uses-append p ls (c ∷ b ∷ rs) in
    let (fit, (_, rest)) = All-append_right _ ls (c ∷ b ∷ rs) w in
    let (kept, _) = All-IsFit-absent (c ∷ []) p (ground arith) (fit, tt) in
    rw ey (
      All-append _ ls _ (All-IsFit-absent ls p (ground arith) (All-append_left _ ls _ w))
        (kept, All-IsFit-absent rs p (ground arith) rest))

-- The store of a size that is not greater leaves a map.
pub store_size-IsMap :
    (least : ℕ) (t : Tree) (b : MemoryBlock) (left : ℕ)
    → IsMap 1 t
    → Holds (item b) (items t)
    → left ≤ b.s
    → least ≤ left
    → least ≤ 1
    → IsMap least (store_size t b.ptr left)
store_size-IsMap least t b left v h le lo one =
    let e = items-store_size t b.ptr left in
    record {
      avl = IsAvl-store_size t b.ptr left v.avl;
      sorted = rw e (IsSorted-resize (items t) b.ptr left v.sorted);
      fits =
          rw e
            (All-IsFit-resize least (items t) (item b) left (v.distinct b.ptr) h le lo one v.fits);
      distinct = λ p. rw (e, uses-resize (items t) b.ptr left p) (v.distinct p);
    }

pub shrink_lem :
    (t : Tree) (b : MemoryBlock) (left : ℕ)
    → IsMap 1 t
    → Holds (item b) (items t)
    → left ≤ b.s
    → (t' : Tree) × (shrink t b left ≡ some t')
      × IsMap 1 t'
      × ((x : ℕ) → overlaps x (items t) ≡ overlaps x (items t') + inside x (cut (item b) left))
unfolding shrink
shrink_lem t b left v h le =
    let stored = store_size t b.ptr left in
    let e = items-store_size t b.ptr left in
    let once = v.distinct b.ptr in
    elim (Bool-cases (left == 0)) [
      | inl y ↦
          let zero_left : left ≡ 0 = (==_iff left 0).0 y in
          let b0 : MemoryBlock = record b { s = left } in
          let h0 : Holds (item b0) (items stored) = rw e (Holds-resize (items t) (item b) left h) in
          let v0 : IsMap 0 stored =
            store_size-IsMap 0 t b left v h le (omega arith) (omega arith) in
          let (t', freed, e', gone, v') = remove_memory_node-IsMap 0 stored b0 v0 h0 in
          let others : All (IsOther b.ptr) (items stored) =
            rw e (All-IsOther-resize (items t) b.ptr left v.fits) in
          (
            t',
            rw (y, e') refl,
            record {
              avl = v'.avl;
              sorted = v'.sorted;
              fits = All-IsOther-Removed gone (v0.distinct b.ptr) others;
              distinct = v'.distinct;
            },
            λ x.
                let lost =
                  overlaps-Removed (item b0) (items stored) (v0.distinct b.ptr) h0 x gone in
                let before_it = overlaps-resize (items t) (item b) left x once h le in
                let same : overlaps x (items stored) ≡ overlaps x (resize b.ptr left (items t)) =
                  ap (overlaps x) e in
                ground arith,
          )
      | inr n ↦ (
        stored,
        rw n refl,
        store_size-IsMap 1 t b left v h le (ground arith) (omega arith),
        λ x. rw e (overlaps-resize (items t) (item b) left x once h le),
      )
    ]

overlaps_absent :
    (xs : List MemoryBlock) (x : ℕ) → overlaps x xs ≡ 0 → All (IsFit 1) xs → All (λ b. b.a ≢ x) xs
overlaps_absent [] x e v = v
overlaps_absent (b ∷ xs) x e (f, v) = (ground arith, overlaps_absent xs x (omega arith) v)

pub covers-overlaps : (xs : List MemoryBlock) (x : ℕ) → covers x xs ≡ ltb 0 (overlaps x xs)
covers-overlaps [] x = refl
covers-overlaps (b ∷ xs) x = ground (arith, covers-overlaps xs x)

-- A block that overlaps nothing is added to the map.
pub insert_apart :
    (t : Tree) (block : MemoryBlock)
    → IsMap 1 t
    → IsFit 1 block
    → uses block.ptr (items t) ≡ 0
    → ((x : ℕ) → overlaps x (items t) + inside x block ≤ 1)
    → (t' : Tree) × (freed : List ℕ) × (insert_memory_node t block true ≡ some (t', freed))
      × IsMap 1 t'
      × ((x : ℕ) → overlaps x (items t') ≡ overlaps x (items t) + inside x block)
insert_apart t block v fit fresh apart =
    let alone : overlaps block.a (items t) ≡ 0 = ground (arith, apart block.a) in
    let (t', freed, e, added) =
      insert_memory_node-IsInserted 1 t block v fit fresh
        (overlaps_absent (items t) block.a alone v.fits) in
    (
      t',
      freed,
      e,
      added.valid,
      λ x. ground (
        arith,
        apart x,
        added.no_overlap x,
        added.cover x,
        covers-overlaps (items t) x,
        covers-overlaps (items t') x,
      ),
    )

pub split_lem :
    (new_node : Tree → ℕ) (t : Tree) (address size : ℕ)
    → IsMap 1 t
    → uses (new_node t) (items t) ≡ 0
    → address + size < 2 ^ 64
    → ((x : ℕ) → overlaps x (items t) + inside x (new_block 0 address size) ≤ 1)
    → (t' : Tree) × (split new_node t address size ≡ some t')
      × IsMap 1 t'
      × ((x : ℕ)
          → overlaps x (items t') ≡ overlaps x (items t) + inside x (new_block 0 address size))
unfolding split
split_lem new_node t address size v fresh fit apart = elim (Bool-cases (size == 0)) [
  | inl y ↦ (t, rw y refl, v, λ x. ground arith)
  | inr n ↦
      let (t', freed, e, v', added) =
        insert_apart t (new_block (new_node t) address size) v (ground arith) fresh apart in
      (t', rw (n, e) refl, v', added)
]

-- The arithmetic of a round does not wrap.
take_pages-eq :
    (new_node : Tree → ℕ) (t : Tree) (b : MemoryBlock) (gap count page : ℕ) (t1 t2 : Tree)
    → IsFit 1 b
    → gap + count * page ≤ b.s
    → shrink t b gap ≡ some t1
    → split new_node t1 (b.a + gap + count * page) (b.s - gap - count * page) ≡ some t2
    → take_pages new_node t b (add64 b.a gap) (sub64 b.s gap) page count ≡ some t2
unfolding take_pages
take_pages-eq new_node t b gap count page t1 t2 fit room e1 e2 =
    let start : add64 b.a gap ≡ b.a + gap = omega arith in
    let lower : sub64 (b.a + gap) b.a ≡ gap = omega arith in
    let whole : mul64 count page ≡ count * page = omega arith in
    let rest : sub64 (sub64 b.s gap) (count * page) ≡ b.s - gap - count * page = omega arith in
    let next : add64 (b.a + gap) (count * page) ≡ b.a + gap + count * page = omega arith in
    rw (start, lower, whole, rest, next, e1) e2

-- The range that a round takes from the block `b`: it begins `gap` above its base.
pub take_pages_lem :
    (new_node : Tree → ℕ) (t : Tree) (b : MemoryBlock) (gap count page : ℕ)
    → IsMap 1 t
    → ((t' : Tree) → uses (new_node t') (items t') ≡ 0)
    → ((x : ℕ) → overlaps x (items t) ≤ 1)
    → Holds (item b) (items t)
    → IsFit 1 b
    → gap + count * page ≤ b.s
    → 0 < count * page
    → (t' : Tree) × (take_pages new_node t b (add64 b.a gap) (sub64 b.s gap) page count ≡ some t')
      × IsMap 1 t'
      × ((x : ℕ)
          → overlaps x (items t)
            ≡ overlaps x (items t') + inside x (new_block 0 (b.a + gap) (count * page)))
take_pages_lem new_node t b gap count page v fresh apart h fit room some_page =
    let taken = count * page in
    let (t1, e1, v1, cut1) = shrink_lem t b gap v h (omega arith) in
    let free : (x : ℕ)
        → overlaps x (items t1) + inside x (new_block 0 (b.a + gap + taken) (b.s - gap - taken))
          ≤ 1 =
      λ x. ground (arith, cut1 x, apart x) in
    let (t2, e2, v2, added) =
      split_lem new_node t1 (b.a + gap + taken) (b.s - gap - taken) v1 (fresh t1) (omega arith)
        free in
    (
      t2,
      take_pages-eq new_node t b gap count page t1 t2 fit room e1 e2,
      v2,
      λ x. ground (arith, cut1 x, added x),
    )

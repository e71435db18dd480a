-- ===== src/Virtual/Region.antt =====
-- A range that is taken out of a free region whose base it has: the remainder is inserted while the
-- empty region is still in the map.
use strawberry_os.Prelude.{
  ℕ, ◌+◌, ◌-◌, ◌^◌, ◌≤◌, ◌<◌, ◌≡◌, ◌≢◌, refl, sym, ap, ◌∙◌, ◌⊎◌, List, [], ◌∷◌, arith, inl, inr,
  ◌==◌, All, Option, some, none, true, false, leb, ltb, Bool-cases, some_inj, ==_iff,
}
use strawberry_os.Block.{MemoryBlock, Tree, remove_memory_node}
use strawberry_os.Block.Insert.{
  Merge, insert_memory_node, insert_at, merge_prev, merge_above, merge_next, block_end,
}
use strawberry_os.Block.Items.{item, items}
use strawberry_os.Block.Path.{insert_at-IsAvl}
use strawberry_os.Block.Search.{
  IsNearestLow, nothing_low, low, IsNearestHigh, search_below-IsNearestLow,
  search_above-IsNearestHigh,
}
use strawberry_os.Block.Removal.{uses}
use strawberry_os.Block.Cover.{
  inside, overlaps, IsFit, Holds, Holds-middle, Holds-unique, All-Holds,
}
use strawberry_os.Block.Placement.{
  insert_item, items-insert_at_root, IsSorted-insert_item, All-insert_item, overlaps-insert_item,
  uses-insert_item,
}
use strawberry_os.Block.Effects.{overlaps-Removed}
use strawberry_os.Block.Union.{above_held}
use strawberry_os.Block.Map.{IsMap, load-Holds, remove_memory_node-IsMap}
use strawberry_os.Physical.Search.{inside_le_overlaps}
use strawberry_os.Physical.Store.{
  IsOther, resize, resized, items-store_size, Holds-resize, All-IsOther-resize, overlaps-resize,
  uses-resize, cut,
}
use strawberry_os.Physical.{store_size, new_block}
use strawberry_os.Physical.Taken.{All-IsOther-Removed, store_size-IsMap}

pub below_held :
    (xs : List MemoryBlock) (address : ℕ) (found : Option MemoryBlock) (c : MemoryBlock)
    → IsNearestLow address xs found
    → found ≡ some c
    → Holds (item c) xs × (c.a ≤ address)
below_held xs address _ c (nothing_low v) e = cc
below_held xs address _ c (low ls rs b ex le lt) e =
    rw (← some_inj e) (rw ex (Holds-middle ls rs (item b)), le)

-- Two nodes at different addresses do not cover an address that is covered at most once.
inside_twice :
    (xs : List MemoryBlock) (b c : MemoryBlock) (x : ℕ)
    → Holds b xs
    → Holds c xs
    → b.ptr ≢ c.ptr
    → inside x b + inside x c ≤ overlaps x xs
inside_twice [] b c x h k ne = absurd h
inside_twice (y ∷ xs) b c x (inl e) (inl f) ne = absurd (ne (ap (λ z. z.ptr) (sym e ∙ f)))
inside_twice (y ∷ xs) b c x (inl e) (inr k) ne =
    rw (sym e) (omega (arith, inside_le_overlaps xs c x k))
inside_twice (y ∷ xs) b c x (inr h) (inl f) ne =
    rw (sym f) (omega (arith, inside_le_overlaps xs b x h))
inside_twice (y ∷ xs) b c x (inr h) (inr k) ne = omega (arith, inside_twice xs b c x h k ne)

-- A node of the map where one was resized.
resize-Holds :
    (xs : List MemoryBlock) (p s : ℕ) (c : MemoryBlock)
    → Holds c (resize p s xs)
    → (o : MemoryBlock) × Holds o xs × (c ≡ resized p s o)
resize-Holds [] p s c h = absurd h
resize-Holds (y ∷ xs) p s c (inl e) = (y, inl refl, sym e)
resize-Holds (y ∷ xs) p s c (inr h) = let (o, k, e) = resize-Holds xs p s c h in (o, inr k, e)

-- No region of the map touches the block.
record IsFree (xs : List MemoryBlock) (block : MemoryBlock) : Type 0 where
  ends_below : (c : MemoryBlock) → Holds c xs → c.a ≤ block.a → c.a + c.s < block.a
  begins_above : (c : MemoryBlock) → Holds c xs → block.a ≤ c.a → block.a + block.s < c.a

module _ (least : ℕ) (t : Tree) (block : MemoryBlock) (v : IsMap least t)
    (fit : block.a + block.s < 2 ^ 64) (apart : IsFree (items t) block) where
  merge_prev_none :
      (m : Merge) (found : Option MemoryBlock)
      → m.block ≡ block
      → IsNearestLow block.a (items t) found
      → merge_prev m found ≡ some m
  unfolding merge_prev
  merge_prev_none m none e n = refl
  merge_prev_none m (some prev) e n =
      let (h, le) = below_held (items t) block.a (some prev) prev n refl in
      let f : IsFit least (item prev) = All-Holds (IsFit least) (items t) (item prev) v.fits h in
      let free = apart.ends_below (item prev) h le in
      let c : leb m.block.a (block_end prev) ≡ false = rw e (ground arith) in rw c refl

  merge_above_none :
      (m : Merge) (found : Option MemoryBlock)
      → m.block ≡ block
      → m.tree ≡ t
      → IsNearestHigh block.a (items t) found
      → merge_above m found ≡ some m
  unfolding merge_above merge_next
  merge_above_none m none e et n = refl
  merge_above_none m (some next) e et n =
      let (h, le) = above_held (items t) block.a (some next) n next refl in
      let (now, el, same) = load-Holds least t next v h in
      let free = apart.begins_above (item next) h le in
      let base : now.a ≡ next.a = ap (λ b. b.a) same in
      let c : leb now.a (block_end m.block) ≡ false = rw (e, base) (ground arith) in
      rw (et, el) (rw c refl)

  plain_insert : insert_memory_node t block true ≡ some (insert_at t block [], [])
  unfolding insert_memory_node
  plain_insert =
      rw
        (
          merge_prev_none (record { tree = t; block = block; freed = [] }) _ refl
              (search_below-IsNearestLow t block.a v.sorted),
          merge_above_none (record { tree = t; block = block; freed = [] }) _ refl refl
              (search_above-IsNearestHigh t block.a v.sorted),
        )
        refl

-- An empty region is removed.
pub remove_empty_lem :
    (t : Tree) (b : MemoryBlock)
    → IsMap 0 t
    → Holds (item b) (items t)
    → b.s ≡ 0
    → All (IsOther b.ptr) (items t)
    → (t' : Tree) × (freed : ℕ) × (remove_memory_node t b.ptr ≡ some (t', freed))
      × IsMap 1 t'
      × ((x : ℕ) → overlaps x (items t') ≡ overlaps x (items t))
remove_empty_lem t b v h empty others =
    let (t', freed, e, gone, v') = remove_memory_node-IsMap 0 t b v h in
    (
      t',
      freed,
      e,
      record {
        avl = v'.avl;
        sorted = v'.sorted;
        fits = All-IsOther-Removed gone (v.distinct b.ptr) others;
        distinct = v'.distinct;
      },
      λ x.
          let lost = overlaps-Removed (item b) (items t) (v.distinct b.ptr) h x gone in
          ground arith,
    )

Holds-insert_item :
    (b c : MemoryBlock) (xs : List MemoryBlock) → Holds c xs → Holds c (insert_item b xs)
Holds-insert_item b c [] h = absurd h
Holds-insert_item b c (x ∷ xs) h = elim (Bool-cases (ltb x.a b.a)) [
  | inl y ↦ rw y (elim h [ inl e ↦ inl e | inr k ↦ inr (Holds-insert_item b c xs k) ])
  | inr n ↦ rw n (inr h)
]

inside_parts :
    (x a size s : ℕ)
    → size ≤ s
    → inside x (new_block 0 (a + 0) (s - 0))
      ≡ inside x (new_block 0 a size) + inside x (new_block 0 (a + size) (s - size))
inside_parts x a size s h = ground arith

-- A region of a map of regions that do not overlap and do not touch, of which the first `size`
-- addresses are taken.
module _ (t : Tree) (b : MemoryBlock) (size ptr : ℕ) (v : IsMap 1 t)
    (held : Holds (item b) (items t)) (once : (x : ℕ) → overlaps x (items t) ≤ 1)
    (gap : (c : MemoryBlock) → Holds c (items t) → b.a < c.a → b.a + b.s < c.a)
    (some_size : 0 < size) (smaller : size < b.s) (fresh : uses ptr (items t) ≡ 0) where
  abbrev stored : Tree
  stored = store_size t b.ptr 0

  abbrev rest : MemoryBlock
  rest = new_block ptr (b.a + size) (b.s - size)

  -- A region besides the empty one is a region of the map, and no part of `b`.
  other_region :
      (c : MemoryBlock)
      → Holds c (items stored)
      → (c ≡ record (item b) { s = 0 }) ⊎ (Holds c (items t) × (c.ptr ≢ b.ptr))
  other_region c h =
      let (o, k, e) = resize-Holds (items t) b.ptr 0 c (rw (sym (items-store_size t b.ptr 0)) h) in
      elim (Bool-cases (o.ptr == b.ptr)) [
        | inl y ↦
            let p = (==_iff o.ptr b.ptr).0 y in
            let same : o ≡ item b = Holds-unique (items t) o (item b) (v.distinct o.ptr) p k held in
            inl (e ∙ (rw y (ap {A = MemoryBlock} {B = MemoryBlock} (λ z. record z { s = 0 }) same)))
        | inr n ↦ let kept : c ≡ o = e ∙ (rw n refl) in inr (rw kept k, rw kept (λ f. ground arith))
      ]

  IsFree-rest : IsFree (items stored) rest
  IsFree-rest = record {
    ends_below = λ c h le. elim (other_region c h) [
      | inl e ↦ rw e (omega arith)
      | inr (k, ne) ↦
          let fit : IsFit 1 c = All-Holds (IsFit 1) (items t) c v.fits k in
          let at = inside_twice (items t) c (item b) (b.a + size) k held ne in
          let under = inside_twice (items t) c (item b) (b.a + size - 1) k held ne in
          ground (arith, at, under, once (b.a + size), once (b.a + size - 1))
    ];
    begins_above = λ c h le. elim (other_region c h) [
      | inl e ↦ let base : c.a ≡ b.a = ap (λ z. z.a) e in absurd (omega arith)
      | inr (k, ne) ↦ let above = gap c k (omega arith) in omega arith
    ];
  }

  abbrev inserted : Tree
  inserted = insert_at stored rest []

  stored-IsMap : IsMap 0 stored
  stored-IsMap = store_size-IsMap 0 t b 0 v held (omega arith) (omega arith) (omega arith)

  items-inserted : items inserted ≡ insert_item (item rest) (items stored)
  items-inserted = items-insert_at_root stored rest stored-IsMap.sorted

  rest-IsFit : IsFit 1 (item rest)
  rest-IsFit =
      let fit : IsFit 1 (item b) = All-Holds (IsFit 1) (items t) (item b) v.fits held in omega arith

  inserted-IsMap : IsMap 0 inserted
  inserted-IsMap =
      let w = stored-IsMap in
      let same = uses-resize (items t) b.ptr 0 in
      let e = items-store_size t b.ptr 0 in
      record {
        avl = insert_at-IsAvl stored rest [] w.avl tt;
        sorted = rw items-inserted (IsSorted-insert_item (item rest) (items stored) w.sorted);
        fits = rw items-inserted (
            All-insert_item (IsFit 0) (item rest) (items stored) (omega (arith, rest-IsFit))
              w.fits);
        distinct = λ p.
            let u : uses p (items stored) ≡ uses p (items t) = rw e (same p) in
            rw items-inserted (
              ground
                (arith, uses-insert_item p (item rest) (items stored), v.distinct p, u, fresh));
      }

  pub base_region_lem :
      (t1 t' : Tree) × (freed : ℕ) × (insert_memory_node stored rest true ≡ some (t1, []))
      × (remove_memory_node t1 b.ptr ≡ some (t', freed))
      × IsMap 1 t'
      × ((x : ℕ) → overlaps x (items t) ≡ overlaps x (items t') + inside x (new_block 0 b.a size))
  base_region_lem =
      let b0 : MemoryBlock = record b { s = 0 } in
      let xs = items stored in
      let fit : IsFit 1 (item b) = All-Holds (IsFit 1) (items t) (item b) v.fits held in
      let ex = items-store_size t b.ptr 0 in
      let h0 : Holds (item b0) xs = rw ex (Holds-resize (items t) (item b) 0 held) in
      let others : All (IsOther b.ptr) xs = rw ex (All-IsOther-resize (items t) b.ptr 0 v.fits) in
      let (t', freed, e, valid, same) =
        remove_empty_lem inserted b0 inserted-IsMap
          (rw items-inserted (Holds-insert_item (item rest) (item b0) xs h0)) refl
          (rw items-inserted
            (All-insert_item (IsOther b.ptr) (item rest) xs (inl rest-IsFit) others)) in
      (
        inserted,
        t',
        freed,
        plain_insert 0 stored rest stored-IsMap rest-IsFit.1 IsFree-rest,
        e,
        valid,
        λ x.
            let before_it =
              overlaps-resize (items t) (item b) 0 x (v.distinct b.ptr) held (omega arith) in
            let added = overlaps-insert_item x (item rest) xs in
            let i1 : overlaps x (items inserted) ≡ overlaps x (insert_item (item rest) xs) =
              ap (overlaps x) items-inserted in
            let i0 : overlaps x xs ≡ overlaps x (resize b.ptr 0 (items t)) = ap (overlaps x) ex in
            let parts : inside x (cut (item b) 0)
                ≡ inside x (new_block 0 b.a size) + inside x (item rest) =
              inside_parts x b.a size b.s (omega arith) in
            omega (arith, same x),
      )

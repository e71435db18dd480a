-- ===== src/Block/Union.antt =====
-- `InsertMemoryNode` with its merge: it never uses a node that was freed, and the map covers the
-- addresses of the new block besides those that it covered.
use strawberry_os.Prelude.{
  ℕ, ◌+◌, ◌^◌, ◌≤◌, ◌<◌, ◌≡◌, ◌≢◌, refl, ap, ◌∙◌, ◌||◌, List, [], arith, inl, inr, ◌⊎◌, Option,
  none, some, some_inj, leb, ◌==◌, if◌then◌else◌, All, Bool-cases, leb→le, true, sub64,
}
use strawberry_os.Block.{MemoryBlock, Tree, search_memory_node}
use strawberry_os.Block.Insert.{
  Merge, merge_prev, merge_next, merge_above, block_end, greater_end, insert_at, insert_memory_node,
}
use strawberry_os.Block.Items.{item, items}
use strawberry_os.Block.Path.{insert_at-IsAvl}
use strawberry_os.Block.Search.{
  IsNearestLow, nothing_low, low, IsNearestHigh, nothing_high, high, search_below-IsNearestLow,
  search_above-IsNearestHigh,
}
use strawberry_os.Block.Removal.{uses}
use strawberry_os.Block.Cover.{
  within, covers, inside, overlaps, IsFit, Holds, Holds-middle, All-Holds,
}
use strawberry_os.Block.Placement.{
  items-insert_at_root, IsSorted-insert_item, All-IsFit-insert_item, covers-insert_item,
  overlaps-insert_item, uses-insert_item,
}
use strawberry_os.Block.Effects.{Holds-Removed}
use strawberry_os.Block.Map.{IsMap, IsMerging, absorb-IsMerging, load-Holds, times}

-- The range from `lo` up to the end `z` of a `QWORD`.
range_fit : (lo z : ℕ) → lo ≤ z → z < 2 ^ 64 → lo + sub64 z lo ≡ z
range_fit lo z h k = omega arith

end_fit : (b : MemoryBlock) → b.a + b.s < 2 ^ 64 → block_end b ≡ b.a + b.s
end_fit b f = omega arith

greater_end_bounds :
    (other kept : ℕ)
    → ((greater_end other kept ≡ other) ⊎ (greater_end other kept ≡ kept))
      × (other ≤ greater_end other kept)
      × (kept ≤ greater_end other kept)
greater_end_bounds other kept = ground arith

-- The range that begins at the lower base and ends at the greater end is the union of two ranges
-- that touch.
union_of_touching :
    (least : ℕ) (b c grown : MemoryBlock) (z : ℕ)
    → IsFit least b
    → IsFit least c
    → b.a ≤ c.a
    → c.a ≤ block_end b
    → ((z ≡ block_end b) ⊎ (z ≡ block_end c)) × (block_end b ≤ z) × (block_end c ≤ z)
    → grown.a ≡ b.a
    → grown.s ≡ sub64 z b.a
    → IsFit least grown × ((x : ℕ) → within x grown ≡ (within x b || within x c))
union_of_touching least b c grown z lo hi le touch bounds base size =
    let eb = end_fit b lo.1 in
    let ec = end_fit c hi.1 in
    let r = range_fit b.a z (omega arith) (omega arith) in (omega arith, λ x. ground arith)

-- What the insertion of a block into a map leaves: a map that covers the addresses that it covered
-- and those of the block, none of them more often than before, in nodes that each are in the tree
-- or have been freed.
pub record IsInserted (least : ℕ) (t : Tree) (block : MemoryBlock) (t' : Tree) (freed : List ℕ)
    : Type 0 where
  pub valid : IsMap least t'
  pub cover : (x : ℕ) → covers x (items t') ≡ (covers x (items t) || within x block)
  pub no_overlap : (x : ℕ) → overlaps x (items t') ≤ overlaps x (items t) + inside x block
  pub accounts :
      (p : ℕ)
      → uses p (items t) + (if block.ptr == p then 1 else 0) ≡ uses p (items t') + times p freed

module _ (least : ℕ) (t : Tree) (block : MemoryBlock) where
  -- The merge with a block whose base is not above that of the new one.
  merge_prev_lem :
      (m : Merge) (prev : MemoryBlock)
      → IsMerging least t block m
      → Holds (item prev) (items m.tree)
      → prev.a ≤ m.block.a
      → (m' : Merge) × (merge_prev m (some prev) ≡ some m')
        × IsMerging least t block m'
        × (m'.block.a ≤ m.block.a)
        × ((c : MemoryBlock) → m.block.a < c.a → Holds c (items m.tree) → Holds c (items m'.tree))
  unfolding merge_prev
  merge_prev_lem m prev v h le = elim (Bool-cases (leb m.block.a (block_end prev))) [
    | inl y ↦
        let fit : IsFit least prev =
          All-Holds (IsFit least) (items m.tree) (item prev) v.valid.fits h in
        let z = greater_end (block_end prev) (block_end m.block) in
        let grown : MemoryBlock = record m.block { a = prev.a; s = sub64 z prev.a } in
        let (f, w) =
          union_of_touching least prev m.block grown z fit v.fit le (leb→le _ _ y)
            (greater_end_bounds (block_end prev) (block_end m.block)) refl refl in
        let (m', e, v', eb, (freed, gone)) =
          absorb-IsMerging least t block m prev grown v h f refl (λ x. ground (arith, w x)) in
        (
          m',
          rw y e,
          v',
          rw eb le,
          λ c lt k.
              Holds-Removed (item prev) (items m.tree) (v.valid.distinct prev.ptr) h c gone
                v.valid.sorted (omega arith) k,
        )
    | inr n ↦ (m, rw n, v, omega arith, λ c lt k. k)
  ]

  -- The merge with a block whose base is not below that of the new one.
  merge_next_lem :
      (m : Merge) (next : MemoryBlock)
      → IsMerging least t block m
      → Holds (item next) (items m.tree)
      → m.block.a ≤ next.a
      → (m' : Merge) × (merge_next m next ≡ some m') × IsMerging least t block m'
  unfolding merge_next
  merge_next_lem m next v h le = elim (Bool-cases (leb next.a (block_end m.block))) [
    | inl y ↦
        let fit : IsFit least next =
          All-Holds (IsFit least) (items m.tree) (item next) v.valid.fits h in
        let z = greater_end (block_end m.block) (block_end next) in
        let grown : MemoryBlock = record m.block { s = sub64 z m.block.a } in
        let (o, p, q) = greater_end_bounds (block_end m.block) (block_end next) in
        let (f, w) =
          union_of_touching least m.block next grown z v.fit fit le (leb→le _ _ y) (o, p, q) refl
            refl in
        let (m', e, v', _, _) = absorb-IsMerging least t block m next grown v h f refl w in
        (m', rw y e, v')
    | inr n ↦ (m, rw n, v)
  ]

  -- The same through the pointer that the search returned.
  merge_above_lem :
      (m : Merge) (next : MemoryBlock)
      → IsMerging least t block m
      → Holds (item next) (items m.tree)
      → m.block.a ≤ next.a
      → (m' : Merge) × (merge_above m (some next) ≡ some m') × IsMerging least t block m'
  unfolding merge_above
  merge_above_lem m next v h le =
      let (now, e, same) = load-Holds least m.tree next v.valid h in
      let (m', e', v') =
        merge_next_lem m now v (rw same h)
          (let a : now.a ≡ next.a = ap (λ (x : MemoryBlock). x.a) same in omega arith) in
      (m', rw e e', v')

  -- The merge with what the search below the base of the new block returned.
  prev_stage :
      (m : Merge) (prev : Option MemoryBlock)
      → IsMerging least t block m
      → IsNearestLow m.block.a (items m.tree) prev
      → (m' : Merge) × (merge_prev m prev ≡ some m')
        × IsMerging least t block m'
        × (m'.block.a ≤ m.block.a)
        × ((c : MemoryBlock) → m.block.a < c.a → Holds c (items m.tree) → Holds c (items m'.tree))
  unfolding merge_prev
  prev_stage m _ v (nothing_low none_below) = (m, refl, v, omega arith, λ c lt k. k)
  prev_stage m _ v (low ls rs b e le gt) =
      merge_prev_lem m b v (rw e (Holds-middle ls rs (item b))) le

  -- The merge with what the search above the base of the new block returned.
  next_stage :
      (m : Merge) (next : Option MemoryBlock)
      → IsMerging least t block m
      → ((c : MemoryBlock) → next ≡ some c → Holds (item c) (items m.tree) × (m.block.a ≤ c.a))
      → (m' : Merge) × (merge_above m next ≡ some m') × IsMerging least t block m'
  unfolding merge_above
  next_stage m none v held = (m, refl, v)
  next_stage m (some c) v held = merge_above_lem m c v (held c refl).0 (held c refl).1

  -- The block is stored, and the tree is a map that covers what was covered.
  place_stage :
      (m : Merge)
      → IsMerging least t block m
      → uses block.ptr (items t) ≡ 0
      → IsInserted least t block (insert_at m.tree m.block []) m.freed
  place_stage m v fresh =
      let xs = items m.tree in
      let b = item m.block in
      let e = items-insert_at_root m.tree m.block v.valid.sorted in
      record {
        valid = record {
          avl = insert_at-IsAvl m.tree m.block [] v.valid.avl tt;
          sorted = rw e (IsSorted-insert_item b xs v.valid.sorted);
          fits = rw e (All-IsFit-insert_item least b xs v.fit v.valid.fits);
          distinct = λ p. rw e (
              ground
                (arith, uses-insert_item p b xs, v.valid.distinct p, v.accounts p, v.same_ptr));
        };
        cover = λ x. rw e (covers-insert_item x b xs ∙ v.cover x);
        no_overlap = λ x. rw e (omega (arith, overlaps-insert_item x b xs, v.no_overlap x));
        accounts = λ p. rw e (ground (arith, uses-insert_item p b xs, v.accounts p, v.same_ptr));
      }

-- What the search above an address returns is a node of the tree, and lies above.
pub above_held :
    (xs : List MemoryBlock) (address : ℕ) (next : Option MemoryBlock)
    → IsNearestHigh address xs next
    → (c : MemoryBlock) → next ≡ some c
    → Holds (item c) xs × (address ≤ c.a)
above_held xs address _ (nothing_high _) c e = cc
above_held xs address _ (high ls rs b ex le lt) c e =
    let same = some_inj e in rw (← same) (rw ex (Holds-middle ls rs (item b)), le)

-- `InsertMemoryNode` with a merge, into a well-formed map, of a block that does not wrap, at a new
-- address and with a base that is the base of no other block: it returns without the use of a freed
-- node, and the map is well formed again. It covers the addresses that it covered and those of the
-- block, no address is covered more often than by both, and each node is in the tree or is freed,
-- once.
pub insert_memory_node-IsInserted :
    (least : ℕ) (t : Tree) (block : MemoryBlock)
    → IsMap least t
    → IsFit least block
    → uses block.ptr (items t) ≡ 0
    → All (λ b. b.a ≢ block.a) (items t)
    → (t' : Tree) × (freed : List ℕ) × (insert_memory_node t block true ≡ some (t', freed))
      × IsInserted least t block t' freed
unfolding insert_memory_node
insert_memory_node-IsInserted least t block v fit fresh differ =
    let start : Merge = record { tree = t; block = block; freed = [] } in
    let (m, e, vm, le, keep) =
      prev_stage least t block start _ begin (search_below-IsNearestLow t block.a v.sorted) in
    let (m', e', vm') =
      next_stage least t block m (search_memory_node t block.a 1) vm (next_held m le keep) in
    (insert_at m'.tree m'.block [], m'.freed, rw (e, e'), place_stage least t block m' vm' fresh)
  where
    begin : IsMerging least t block (record { tree = t; block = block; freed = [] })
    begin = record {
      valid = v;
      fit = fit;
      same_ptr = refl;
      accounts = λ p. omega arith;
      no_overlap = λ x. omega arith;
      cover = λ x. refl;
    }

    next_held :
        (m : Merge)
        → m.block.a ≤ block.a
        → ((c : MemoryBlock) → block.a < c.a → Holds c (items t) → Holds c (items m.tree))
        → (c : MemoryBlock) → search_memory_node t block.a 1 ≡ some c
        → Holds (item c) (items m.tree) × (m.block.a ≤ c.a)
    next_held m le keep c e =
        let (h, ge) =
          above_held (items t) block.a _ (search_above-IsNearestHigh t block.a v.sorted) c e in
        let ne = All-Holds (λ b. b.a ≢ block.a) (items t) (item c) differ h in
        (keep (item c) (omega arith) h, omega arith)

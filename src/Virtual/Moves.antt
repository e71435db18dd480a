-- ===== src/Virtual/Moves.antt =====
-- "Step.1 RESERVE" moves a range from the free regions to the reserved ones.
use mathlib.Core.Path.{subst}
use strawberry_os.Prelude.{
  ℕ, ◌+◌, ◌-◌, ◌^◌, ◌≤◌, ◌<◌, ◌≡◌, refl, sym, ap, ◌∙◌, List, ◌∷◌, ◌++◌, arith, inl, inr, Option,
  some, none, true, false, Bool-cases, Option-cases, some_inj, All,
}
use strawberry_os.Block.{MemoryBlock, Tree, search_memory_node}
use strawberry_os.Block.Items.{item, items}
use strawberry_os.Block.Search.{
  IsSorted, IsSorted-IsCut, IsNearestLow, nothing_low, low, search_below-IsNearestLow,
}
use strawberry_os.Block.Removal.{uses}
use strawberry_os.Block.Cover.{
  inside, overlaps, overlaps-append, IsFit, Holds, Holds-append, Holds-middle, All-Holds,
}
use strawberry_os.Block.Map.{IsMap}
use strawberry_os.Physical.{new_block}
use strawberry_os.Physical.Search.{inside_le_overlaps}
use strawberry_os.Physical.Taken.{insert_apart}
use strawberry_os.Virtual.{VirtualMemory, NewNode}
use strawberry_os.Virtual.Request.{
  Step, going, refused, insert_region, reserve, lies_in, take_region,
}
use strawberry_os.Virtual.Reserve.{IsApart, take_region_lem}

-- The region contains the range.
abbrev pub Contains : MemoryBlock → ℕ → ℕ → Type 0
Contains b address size = (b.a ≤ address) × (address + size ≤ b.a + b.s)

-- Free and reserved regions that are well formed and disjoint, and nodes at new addresses.
pub record IsRegions (new_node : NewNode) (v : VirtualMemory) : Type 0 where
  pub free_map : IsMap 1 v.fre
  pub free_apart : IsApart v.fre
  pub reserved_map : IsMap 1 v.rsv
  pub disjoint : (x : ℕ) → overlaps x (items v.fre) + overlaps x (items v.rsv) ≤ 1
  pub new_free : (w : VirtualMemory) → uses (new_node w) (items w.fre) ≡ 0
  pub new_reserved : (w : VirtualMemory) → uses (new_node w) (items w.rsv) ≡ 0

-- The range is free no more, and reserved.
pub record IsMoved (v : VirtualMemory) (address size : ℕ) (w : VirtualMemory) : Type 0 where
  pub free_map : IsMap 1 w.fre
  pub reserved_map : IsMap 1 w.rsv
  pub taken :
      (x : ℕ)
      → overlaps x (items v.fre) ≡ overlaps x (items w.fre) + inside x (new_block 0 address size)
  pub gained :
      (x : ℕ)
      → overlaps x (items w.rsv) ≡ overlaps x (items v.rsv) + inside x (new_block 0 address size)
  pub same_committed : w.cmt ≡ v.cmt
  pub same_machine : w.machine ≡ v.machine

pub data ReserveOutcome (v : VirtualMemory) (address size : ℕ) (result : Step) : Type 0 where
  no_region :
      result ≡ refused v
      → ((c : MemoryBlock) → Holds c (items v.fre) → Contains c address size → ⊥)
      → ReserveOutcome v address size result
  moved :
      (w : VirtualMemory)
      → result ≡ going w
      → IsMoved v address size w
      → ReserveOutcome v address size result

-- Only the region that the search returns can contain the range.
only_nearest :
    (xs ls rs : List MemoryBlock) (b c : MemoryBlock) (address size : ℕ)
    → xs ≡ ls ++ (b ∷ rs)
    → IsSorted xs
    → All (IsFit 1) xs
    → ((x : ℕ) → overlaps x xs ≤ 1)
    → b.a ≤ address
    → All (λ x. address < x.a) rs
    → 0 < size
    → Holds c xs
    → Contains c address size
    → b ≡ c
only_nearest xs ls rs b c address size ex sorted fits once le above some_size h inn =
    elim (Holds-append ls (b ∷ rs) c (rw ex at h)) [
      | inl k ↦
          let f = All-Holds (IsFit 1) xs b fits (rw ex (Holds-middle ls rs b)) in
          let o : overlaps b.a (ls ++ (b ∷ rs)) ≤ 1 = rw ex at once b.a in
          let cut = IsSorted-IsCut ls b rs (rw ex at sorted) in
          let lower = All-Holds (λ x. x.a ≤ b.a) ls c cut.left_below k in
          absurd (ground (arith, o, overlaps-append b.a ls (b ∷ rs), inside_le_overlaps ls c b.a k))
      | inr (inl e) ↦ e
      | inr (inr k) ↦ let g = All-Holds (λ x. address < x.a) rs c above k in absurd (omega arith)
    ]

nearest_low_none :
    (xs : List MemoryBlock) (address : ℕ) (found : Option MemoryBlock)
    → IsNearestLow address xs found
    → found ≡ none
    → All (λ x. address < x.a) xs
nearest_low_none xs address _ (nothing_low v) e = v
nearest_low_none xs address _ (low ls rs b ex le lt) e = cc

nearest_low_some :
    (xs : List MemoryBlock) (address : ℕ) (found : Option MemoryBlock) (c : MemoryBlock)
    → IsNearestLow address xs found
    → found ≡ some c
    → (ls rs : List MemoryBlock) × (xs ≡ ls ++ (item c ∷ rs))
      × (c.a ≤ address)
      × All (λ x. address < x.a) rs
nearest_low_some xs address _ c (nothing_low v) e = cc
nearest_low_some xs address _ c (low ls rs b ex le lt) e = rw (← some_inj e) (ls, rs, ex, le, lt)

insert_region_lem :
    (ptr : ℕ) (t : Tree) (a s : ℕ)
    → IsMap 1 t
    → uses ptr (items t) ≡ 0
    → 0 < s
    → a + s < 2 ^ 64
    → ((x : ℕ) → overlaps x (items t) + inside x (new_block 0 a s) ≤ 1)
    → (t' : Tree) × (insert_region ptr t a s ≡ some t')
      × IsMap 1 t'
      × ((x : ℕ) → overlaps x (items t') ≡ overlaps x (items t) + inside x (new_block 0 a s))
unfolding insert_region
insert_region_lem ptr t a s v fresh some_size fit apart =
    let (t', freed, e, v', added) =
      insert_apart t (new_block ptr a s) v (omega arith) fresh apart in
    (t', rw e refl, v', added)

module _ (new_node : NewNode) (v : VirtualMemory) (regions : IsRegions new_node v)
    (address size : ℕ) (some_size : 0 < size) (fit : address + size < 2 ^ 64) where
  reserve-eq :
      (b : MemoryBlock) (t r : Tree)
      → search_memory_node v.fre address 0 ≡ some b
      → lies_in b address size ≡ true
      → take_region (λ t. new_node (record v { fre = t })) v.fre b address size ≡ some t
      → insert_region (new_node (record v { fre = t })) v.rsv address size ≡ some r
      → reserve new_node v address size ≡ going (record v { fre = t; rsv = r })
  unfolding reserve
  reserve-eq b t r e whole et er = rw (reserve, e, whole, et, er) refl

  -- The region that the search returned contains the range.
  reserve_in :
      (b : MemoryBlock)
      → search_memory_node v.fre address 0 ≡ some b
      → Holds (item b) (items v.fre)
      → Contains b address size
      → ReserveOutcome v address size (reserve new_node v address size)
  reserve_in b e h inn =
      let region : IsFit 1 (item b) =
        All-Holds (IsFit 1) (items v.fre) (item b) regions.free_map.fits h in
      let below = address - b.a in
      let start : b.a + below ≡ address = omega (arith, inn.0) in
      let whole : lies_in b address size ≡ true = ground (arith, inn.0, inn.1, region.1) in
      let (t, et, vt, taken) =
        take_region_lem (λ t. new_node (record v { fre = t })) v.fre b regions.free_map
          regions.free_apart h (λ t. regions.new_free (record v { fre = t })) below size
          (omega (arith, inn.0, inn.1)) some_size in
      let taken' : (x : ℕ)
          → overlaps x (items v.fre) ≡ overlaps x (items t) + inside x (new_block 0 address size) =
        λ x. taken x ∙ ap (λ a. overlaps x (items t) + inside x (new_block 0 a size)) start in
      let (r, er, vr, gained) =
        insert_region_lem (new_node (record v { fre = t })) v.rsv address size regions.reserved_map
          (regions.new_reserved (record v { fre = t })) some_size fit
          (λ x. omega (arith, taken' x, regions.disjoint x)) in
      moved (record v { fre = t; rsv = r })
        (reserve-eq b t r e whole
          (ap (λ a. take_region (λ t. new_node (record v { fre = t })) v.fre b a size) (sym start)
            ∙ et)
          er)
        (record {
          free_map = vt;
          reserved_map = vr;
          taken = taken';
          gained = gained;
          same_committed = refl;
          same_machine = refl;
        })

  reserve-none :
      search_memory_node v.fre address 0 ≡ none → reserve new_node v address size ≡ refused v
  unfolding reserve
  reserve-none e = rw (reserve, e) refl

  reserve_out :
      (b : MemoryBlock)
      → search_memory_node v.fre address 0 ≡ some b
      → lies_in b address size ≡ false
      → reserve new_node v address size ≡ refused v
  unfolding reserve
  reserve_out b e out = rw (reserve, e, out) refl

  -- `NtAllocateVirtualMemory` reserves a range that is not empty and does not wrap, where the free
  -- and the reserved regions are well formed and disjoint, no free regions touch, and nodes are new:
  -- either no free region contains the range, and nothing is changed, or exactly the addresses of
  -- the range move from the free regions to the reserved ones, and nothing else is changed.
  pub reserve-ReserveOutcome : ReserveOutcome v address size (reserve new_node v address size)
  reserve-ReserveOutcome = elim (Option-cases (search_memory_node v.fre address 0)) [
    | inl e ↦
        let above =
          nearest_low_none (items v.fre) address _
            (search_below-IsNearestLow v.fre address regions.free_map.sorted) e in
        no_region (reserve-none e) (λ c h inn.
          let g = All-Holds (λ x. address < x.a) (items v.fre) c above h in omega (arith, inn.0))
    | inr (b, e) ↦
        let (ls, rs, ex, le, above) =
          nearest_low_some (items v.fre) address _ b
            (search_below-IsNearestLow v.fre address regions.free_map.sorted) e in
        let h : Holds (item b) (items v.fre) = rw ex (Holds-middle ls rs (item b)) in
        let region : IsFit 1 (item b) =
          All-Holds (IsFit 1) (items v.fre) (item b) regions.free_map.fits h in
        elim (Bool-cases (lies_in b address size)) [
          | inl y ↦ reserve_in b e h (le, ground (arith, region.1))
          | inr n ↦ no_region (reserve_out b e n) (λ c k inn.
              let same =
                only_nearest (items v.fre) ls rs (item b) c address size ex regions.free_map.sorted
                  regions.free_map.fits regions.free_apart.once le above some_size k inn in
              let inn_b = subst (λ z. Contains z address size) (sym same) inn in
              ground (arith, inn_b.0, inn_b.1, region.1))
        ]
  ]

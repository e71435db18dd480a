-- ===== src/Virtual/Reserve.antt =====
-- "Step.1 RESERVE" of `NtAllocateVirtualMemory`.
use strawberry_os.Prelude.{
  ℕ, zero, suc, ◌+◌, ◌-◌, ◌^◌, ◌≤◌, ◌<◌, ◌≡◌, refl, sym, ap, ◌∙◌, [], arith, inl, inr, ◌==◌, Option,
  some, true, false, Bool-cases, ==_iff, add64, sub64, ◌>>=◌,
}
use strawberry_os.Block.{MemoryBlock, Tree, remove_memory_node}
use strawberry_os.Block.Insert.{insert_memory_node}
use strawberry_os.Block.Items.{item, items}
use strawberry_os.Block.Removal.{uses}
use strawberry_os.Block.Cover.{inside, overlaps, IsFit, Holds, All-Holds}
use strawberry_os.Block.Map.{IsMap}
use strawberry_os.Physical.{store_size, shrink, split, new_block}
use strawberry_os.Physical.Store.{items-store_size, overlaps-resize, uses-resize, cut}
use strawberry_os.Physical.Taken.{split_lem, shrink_lem, store_size-IsMap}
use strawberry_os.Virtual.Region.{base_region_lem}
use strawberry_os.Virtual.Request.{take_region, drop_empty}

-- Regions that neither overlap nor touch.
pub record IsApart (t : Tree) : Type 0 where
  pub once : (x : ℕ) → overlaps x (items t) ≤ 1
  pub gap :
      (b c : MemoryBlock) → Holds b (items t) → Holds c (items t) → b.a < c.a → b.a + b.s < c.a

drop_empty-shrink :
    (t : Tree) (b : MemoryBlock) → drop_empty (store_size t b.ptr 0) b.ptr 0 ≡ shrink t b 0
unfolding drop_empty shrink
drop_empty-shrink t b = refl

-- The arithmetic of the step does not wrap.
take_region-eq :
    (new_node : Tree → ℕ) (t : Tree) (b : MemoryBlock) (below size : ℕ)
    → b.a + b.s < 2 ^ 64
    → below + size ≤ b.s
    → take_region new_node t b (b.a + below) size ≡ (
        split new_node (store_size t b.ptr below) (b.a + below + size) (b.s - below - size)
        >>= λ t'. drop_empty t' b.ptr below)
unfolding take_region
take_region-eq new_node t b below size fit room =
    let lower : sub64 (b.a + below) b.a ≡ below = omega arith in
    let above : add64 (b.a + below) size ≡ b.a + below + size = omega arith in
    let rest : sub64 (add64 b.a b.s) (b.a + below + size) ≡ b.s - below - size = omega arith in
    rw (lower, above, rest) refl

split_none : (new_node : Tree → ℕ) (t : Tree) (address : ℕ) → split new_node t address 0 ≡ some t
unfolding split
split_none new_node t address = refl

drop_empty_keeps : (t : Tree) (p s : ℕ) → 0 < s → drop_empty t p s ≡ some t
unfolding drop_empty
drop_empty_keeps t p s h = let n : (s == 0) ≡ false = ground arith in rw n refl

inside_cut_parts :
    (x a below size s : ℕ)
    → below + size ≤ s
    → inside x (new_block 0 (a + below) (s - below))
      ≡ inside x (new_block 0 (a + below) size)
        + inside x (new_block 0 (a + below + size) (s - below - size))
inside_cut_parts x a below size s h = ground arith

module _ (new_node : Tree → ℕ) (t : Tree) (b : MemoryBlock) (v : IsMap 1 t) (apart : IsApart t)
    (held : Holds (item b) (items t))
    (fresh : (t' : Tree) → uses (new_node t') (items t') ≡ 0) where
  -- What is left of the map when the range is taken from `b`.
  abbrev pub IsTaken : ℕ → ℕ → Option Tree → Type 0
  IsTaken below size r =
      (t' : Tree) × (r ≡ some t')
      × IsMap 1 t'
      × ((x : ℕ)
          → overlaps x (items t)
            ≡ overlaps x (items t') + inside x (new_block 0 (b.a + below) size))

  take_above_base :
      (below size : ℕ)
      → below + size ≤ b.s
      → 0 < below
      → IsTaken below size (take_region new_node t b (b.a + below) size)
  take_above_base below size room some_below =
      let fit : IsFit 1 (item b) = All-Holds (IsFit 1) (items t) (item b) v.fits held in
      let stored = store_size t b.ptr below in
      let e : (x : ℕ)
          → overlaps x (items t)
            ≡ overlaps x (items stored) + inside x (new_block 0 (b.a + below) (b.s - below)) =
        λ x.
          overlaps-resize (items t) (item b) below x (v.distinct b.ptr) held (omega arith)
          ∙ ap (λ xs. overlaps x xs + inside x (cut (item b) below))
              (sym (items-store_size t b.ptr below)) in
      let parts = λ (x : ℕ). inside_cut_parts x b.a below size b.s room in
      let valid : IsMap 1 stored =
        store_size-IsMap 1 t b below v held (omega arith) (omega arith) (omega arith) in
      let (t', split_some, valid', added) =
        split_lem new_node stored (b.a + below + size) (b.s - below - size) valid (fresh stored)
          (omega arith) (λ x. omega (arith, e x, parts x, apart.once x)) in
      (
        t',
        take_region-eq new_node t b below size fit.1 room
            ∙ (ap (λ o. o >>= λ t'. drop_empty t' b.ptr below) split_some
                ∙ drop_empty_keeps t' b.ptr below some_below),
        valid',
        λ x. omega (arith, e x, parts x, added x),
      )

  take_all : (size : ℕ) → size ≡ b.s → IsTaken 0 size (take_region new_node t b (b.a + 0) size)
  take_all size whole =
      let fit : IsFit 1 (item b) = All-Holds (IsFit 1) (items t) (item b) v.fits held in
      let stored = store_size t b.ptr 0 in
      let (t', e, valid, taken) = shrink_lem t b 0 v held (omega arith) in
      let nothing : b.s - 0 - size ≡ 0 = omega arith in
      (
        t',
        take_region-eq new_node t b 0 size fit.1 (omega arith)
            ∙ (ap (λ n. split new_node stored (b.a + 0 + size) n >>= λ t'. drop_empty t' b.ptr 0)
                  nothing
                ∙ (ap (λ o. o >>= λ t'. drop_empty t' b.ptr 0)
                      (split_none new_node stored (b.a + 0 + size))
                    ∙ (drop_empty-shrink t b ∙ e))),
        valid,
        λ x.
            taken x
            ∙ ap (λ n. overlaps x (items t') + inside x (new_block 0 (b.a + 0) n)) (omega arith),
      )

  split_some_lem :
      (u t1 : Tree) (a s : ℕ)
      → 0 < s
      → insert_memory_node u (new_block (new_node u) a s) true ≡ some (t1, [])
      → split new_node u a s ≡ some t1
  unfolding split
  split_some_lem u t1 a s some_size e = let n : (s == 0) ≡ false = ground arith in rw (n, e) refl

  drop_empty_removes :
      (u t' : Tree) (p freed : ℕ)
      → remove_memory_node u p ≡ some (t', freed)
      → drop_empty u p 0 ≡ some t'
  unfolding drop_empty
  drop_empty_removes u t' p freed e = rw e refl

  take_base :
      (size : ℕ) → 0 < size → size < b.s → IsTaken 0 size (take_region new_node t b (b.a + 0) size)
  take_base size some_size smaller =
      let fit : IsFit 1 (item b) = All-Holds (IsFit 1) (items t) (item b) v.fits held in
      let stored = store_size t b.ptr 0 in
      let p = new_node stored in
      let unused : uses p (items t) ≡ 0 =
        sym (uses-resize (items t) b.ptr 0 p)
        ∙ (ap (uses p) (sym (items-store_size t b.ptr 0)) ∙ fresh stored) in
      let (t1, t', freed, put, gone, valid, taken) =
        base_region_lem t b size p v held apart.once (λ c h. apart.gap (item b) c held h) some_size
          smaller unused in
      let base : b.a + 0 + size ≡ b.a + size = omega arith in
      let rest : b.s - 0 - size ≡ b.s - size = omega arith in
      (
        t',
        take_region-eq new_node t b 0 size fit.1 (omega arith)
            ∙ rw (base, rest, split_some_lem stored t1 (b.a + size) (b.s - size) (omega arith) put)
                (drop_empty_removes t1 t' b.ptr freed gone),
        valid,
        λ x.
            taken x ∙ ap (λ n. overlaps x (items t') + inside x (new_block 0 n size)) (omega arith),
      )

  pub take_region_lem :
      (below size : ℕ)
      → below + size ≤ b.s
      → 0 < size
      → IsTaken below size (take_region new_node t b (b.a + below) size)
  take_region_lem zero size room some_size = elim (Bool-cases (size == b.s)) [
    | inl y ↦ take_all size ((==_iff size b.s).0 y)
    | inr n ↦ take_base size some_size (ground arith)
  ]
  take_region_lem (suc below) size room some_size =
      take_above_base (suc below) size room (omega arith)

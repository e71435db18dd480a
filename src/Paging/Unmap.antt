-- ===== src/Paging/Unmap.antt =====
-- `linear_unmapping` of large pages, and of a page of 4K.
use strawberry_os.Prelude.{ℕ, ◌≡◌, ◌≢◌, refl, true, false, arith, Bool-cases, inl, inr, ◌⊎◌}
use strawberry_os.Paging.{
  Machine, system_linear, present, is_page, slot, entry, store_entry, idx0, idx1, idx2, idx3,
  flip_present, linear_unmapping, unmapped, physical_mapping,
}
use strawberry_os.Paging.Walk.{
  table1, table2, table3, IsWalk, IsApart, IsMapped, entry_kept, entry_stored, others_kept,
}

flip_present_absent : (x : ℕ) → present x ≡ true → present (flip_present x) ≡ false
flip_present_absent x h = ground arith

resolve_absent :
    (m : Machine) (linear x : ℕ)
    → present (entry m (system_linear m.cr3) (idx0 linear)) ≡ true
    → entry m (table1 m linear) (idx1 linear) ≡ x
    → present x ≡ false
    → physical_mapping m linear ≡ unmapped
unfolding physical_mapping
resolve_absent m linear x h0 e h1 = rw (h0, e, h1) refl

-- What was found at the four levels decides where an address resolves.
same_walk :
    (m m' : Machine) (linear : ℕ)
    → entry m' (system_linear m'.cr3) (idx0 linear) ≡ entry m (system_linear m.cr3) (idx0 linear)
    → entry m' (table1 m linear) (idx1 linear) ≡ entry m (table1 m linear) (idx1 linear)
    → entry m' (table2 m linear) (idx2 linear) ≡ entry m (table2 m linear) (idx2 linear)
    → entry m' (table3 m linear) (idx3 linear) ≡ entry m (table3 m linear) (idx3 linear)
    → physical_mapping m' linear ≡ physical_mapping m linear
unfolding physical_mapping
same_walk m m' linear k0 k1 k2 k3 = rw (k0, k1, k2, k3) refl

linear_unmapping_1g-eq :
    (m : Machine) (linear x : ℕ)
    → present (entry m (system_linear m.cr3) (idx0 linear)) ≡ true
    → present (entry m (table1 m linear) (idx1 linear)) ≡ true
    → is_page (entry m (table1 m linear) (idx1 linear)) ≡ true
    → flip_present (entry m (table1 m linear) (idx1 linear)) ≡ x
    → linear_unmapping m linear ≡ (2, store_entry m (table1 m linear) (idx1 linear) x)
unfolding linear_unmapping
linear_unmapping_1g-eq m linear x h0 h1 large e = rw (h0, h1, large) (rw (← e) (rw h1 refl))

linear_unmapping_4k-cases :
    (m : Machine) (linear : ℕ)
    → IsWalk m linear
    → ((x : ℕ) × (linear_unmapping m linear ≡ (0, store_entry m (system_linear 0) (idx3 linear) x)))
      ⊎ (linear_unmapping m linear ≡ (0xFF, m))
unfolding linear_unmapping
linear_unmapping_4k-cases m linear w =
    elim (Bool-cases (present (entry m (system_linear 0) (idx3 linear)))) [
      | inl y ↦ inl (
        flip_present (entry m (system_linear 0) (idx3 linear)),
        rw (w.link0.0, w.link1.0, w.link1.1, w.link2.0, w.link2.1, y) refl,
      )
      | inr n ↦ inr (rw (w.link0.0, w.link1.0, w.link1.1, w.link2.0, w.link2.1, n) refl)
    ]

-- `linear_unmapping` of an address in a page of 1G, whose entry is not the one that leads to it: it
-- returns 2, the address does not resolve any more, and no other entry was changed.
linear_unmapping_1g :
    (m : Machine) (linear : ℕ)
    → present (entry m (system_linear m.cr3) (idx0 linear)) ≡ true
    → present (entry m (table1 m linear) (idx1 linear)) ≡ true
    → is_page (entry m (table1 m linear) (idx1 linear)) ≡ true
    → slot (system_linear m.cr3) (idx0 linear) ≢ slot (table1 m linear) (idx1 linear)
    → (m' : Machine) × (linear_unmapping m linear ≡ (2, m'))
      × IsMapped m linear (slot (table1 m linear) (idx1 linear)) unmapped m'
linear_unmapping_1g m linear h0 h1 large ne =
    let l1 = table1 m linear in
    let x = flip_present (entry m l1 (idx1 linear)) in
    let m' = store_entry m l1 (idx1 linear) x in
    let kept = entry_kept m l1 (idx1 linear) x _ _ ne in
    (
      m',
      linear_unmapping_1g-eq m linear x h0 h1 large refl,
      record {
        resolves =
            resolve_absent m' linear x (rw kept h0) (rw kept (entry_stored m l1 (idx1 linear) x))
              (flip_present_absent _ h1);
        others = others_kept m l1 (idx1 linear) x;
      },
    )

-- The word that `linear_unmapping` can change on its way to a page of 4K: the one at the index of
-- the page in the table at physical address 0, whatever the table of the page is. Where that word is
-- none of those that the page is found by, the address resolves as before: the page stays mapped.
pub linear_unmapping_4k :
    (m : Machine) (linear : ℕ)
    → IsWalk m linear
    → IsApart m linear (slot (system_linear 0) (idx3 linear))
    → slot (table3 m linear) (idx3 linear) ≢ slot (system_linear 0) (idx3 linear)
    → (code : ℕ) × (m' : Machine) × (linear_unmapping m linear ≡ (code, m'))
      × IsMapped m linear (slot (system_linear 0) (idx3 linear)) (physical_mapping m linear) m'
linear_unmapping_4k m linear w a ne = elim (linear_unmapping_4k-cases m linear w) [
  | inl (x, e) ↦
      let l3 = system_linear 0 in
      let kept = entry_kept m l3 (idx3 linear) x in
      (
        0,
        store_entry m l3 (idx3 linear) x,
        e,
        record {
          resolves =
              same_walk m (store_entry m l3 (idx3 linear) x) linear (kept _ _ a.apart0)
                (kept _ _ a.apart1) (kept _ _ a.apart2) (kept _ _ ne);
          others = others_kept m l3 (idx3 linear) x;
        },
      )
  | inr e ↦ (0xFF, m, e, record { resolves = refl; others = λ q q_ne. refl })
]

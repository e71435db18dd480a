-- ===== src/Paging/Walk.antt =====
-- `linear_mapping` where the tables are there, and `physical_mapping` after it.
use strawberry_os.Prelude.{
  ℕ, ◌+◌, ◌*◌, ◌/◌, ◌%◌, ◌^◌, ◌<◌, ◌≡◌, ◌≢◌, refl, ◌∙◌, some, leb, ◌==◌, add64, true, false, arith,
  Bool-cases, inl, inr, ==_iff,
}
use strawberry_os.Block.{Tree}
use strawberry_os.Paging.{
  Machine, system_linear, table_of, present, is_page, slot, entry, store_entry, page_entry, idx0,
  idx1, idx2, idx3, page_word, can_map, map_2m, map_1g, linear_mapping, masked, physical_mapping,
}

-- The tables of a linear address.
abbrev pub table1 : Machine → ℕ → ℕ
table1 m linear = system_linear (table_of (entry m (system_linear m.cr3) (idx0 linear)))

abbrev pub table2 : Machine → ℕ → ℕ
table2 m linear = system_linear (table_of (entry m (table1 m linear) (idx1 linear)))

abbrev pub table3 : Machine → ℕ → ℕ
table3 m linear = system_linear (table_of (entry m (table2 m linear) (idx2 linear)))

-- An entry that points to a table.
abbrev pub IsLink : ℕ → Type 0
IsLink e = (present e ≡ true) × (is_page e ≡ false)

-- An entry that is not a page leads to its table.
pub page_entry_linked :
    (fuel : ℕ) (new_node : Tree → ℕ) (m : Machine) (pt idx : ℕ)
    → pt ≢ 0
    → idx < 512
    → IsLink (entry m pt idx)
    → page_entry fuel new_node m pt idx ≡ some (system_linear (table_of (entry m pt idx)), m)
unfolding page_entry
page_entry_linked fuel new_node m pt idx nonzero small (there, table) =
    let a : (pt == 0) ≡ false = ground arith in
    let b : leb 512 idx ≡ false = ground arith in rw (a, b, there, table) refl

-- The word that was stored, and the others.
pub entry_stored : (m : Machine) (pt idx x : ℕ) → entry (store_entry m pt idx x) pt idx ≡ x
entry_stored m pt idx x = rw ((==_iff (slot pt idx) (slot pt idx)).1 refl) refl

pub entry_kept :
    (m : Machine) (pt idx x other i : ℕ)
    → slot other i ≢ slot pt idx
    → entry (store_entry m pt idx x) other i ≡ entry m other i
entry_kept m pt idx x other i ne = elim (Bool-cases (slot other i == slot pt idx)) [
  | inl y ↦ absurd (ne ((==_iff _ _).0 y))
  | inr n ↦ rw n refl
]

pub present-page_word :
    (base flag options : ℕ)
    → base % 4096 ≡ 0
    → flag % 128 ≡ 0
    → options % 2 ≡ 1
    → present (page_word base flag options) ≡ true
present-page_word base flag options a f o = ground arith

masked-page_word :
    (base options : ℕ) → base % 4096 ≡ 0 → base < 2 ^ 59 → masked (page_word base 0 options) ≡ base
masked-page_word base options a b = ground arith

pub masked-page_word_large :
    (base options : ℕ)
    → base % 4096 ≡ 0
    → base < 2 ^ 59
    → masked (page_word base 128 options) ≡ base
masked-page_word_large base options a b = ground arith

pub page_word_large :
    (base options : ℕ) → base % 4096 ≡ 0 → is_page (page_word base 128 options) ≡ true
page_word_large base options a = ground arith

-- The tables down to the last level are there.
pub record IsWalk (m : Machine) (linear : ℕ) : Type 0 where
  pub link0 : IsLink (entry m (system_linear m.cr3) (idx0 linear))
  pub link1 : IsLink (entry m (table1 m linear) (idx1 linear))
  pub link2 : IsLink (entry m (table2 m linear) (idx2 linear))

-- The entry in the last table is not one of those that lead to it.
pub record IsApart (m : Machine) (linear at : ℕ) : Type 0 where
  pub apart0 : slot (system_linear m.cr3) (idx0 linear) ≢ at
  pub apart1 : slot (table1 m linear) (idx1 linear) ≢ at
  pub apart2 : slot (table2 m linear) (idx2 linear) ≢ at

-- What a mapping does: the address resolves, and one word was stored.
pub record IsMapped (m : Machine) (linear at result : ℕ) (m' : Machine) : Type 0 where
  pub resolves : physical_mapping m' linear ≡ result
  pub others : (q : ℕ) → q ≢ at → m'.words q ≡ m.words q

pub others_kept :
    (m : Machine) (pt idx x q : ℕ) → q ≢ slot pt idx → (store_entry m pt idx x).words q ≡ m.words q
others_kept m pt idx x q ne = elim (Bool-cases (q == slot pt idx)) [
  | inl y ↦ absurd (ne ((==_iff _ _).0 y))
  | inr n ↦ rw n refl
]

-- An address through four levels.
resolve_4k :
    (m : Machine) (linear x : ℕ)
    → IsWalk m linear
    → entry m (table3 m linear) (idx3 linear) ≡ x
    → present x ≡ true
    → physical_mapping m linear ≡ add64 (masked x) (linear % 2 ^ 12)
unfolding physical_mapping
resolve_4k m linear x w e h = rw (w.link0.0, w.link1.0, w.link1.1, w.link2.0, w.link2.1, e, h) refl

module _ (m : Machine) (linear x : ℕ) (w : IsWalk m linear)
    (a : IsApart m linear (slot (table3 m linear) (idx3 linear))) where
  IsWalk-store_entry : IsWalk (store_entry m (table3 m linear) (idx3 linear) x) linear
  IsWalk-store_entry =
      let l3 = table3 m linear in
      let k0 = entry_kept m l3 (idx3 linear) x _ _ a.apart0 in
      let k1 = entry_kept m l3 (idx3 linear) x _ _ a.apart1 in
      let k2 = entry_kept m l3 (idx3 linear) x _ _ a.apart2 in
      record { link0 = rw k0 w.link0; link1 = rw (k0, k1) w.link1; link2 = rw (k0, k1, k2) w.link2 }

  table3-store_entry :
      table3 (store_entry m (table3 m linear) (idx3 linear) x) linear ≡ table3 m linear
  table3-store_entry =
      let l3 = table3 m linear in
      let k0 = entry_kept m l3 (idx3 linear) x _ _ a.apart0 in
      let k1 = entry_kept m l3 (idx3 linear) x _ _ a.apart1 in
      let k2 = entry_kept m l3 (idx3 linear) x _ _ a.apart2 in rw (k0, k1, k2) refl

can_map_other :
    (m : Machine) (pt idx size wanted : ℕ)
    → (size == wanted) ≡ false
    → can_map m pt idx size wanted ≡ false
can_map_other m pt idx size wanted e = elim (Bool-cases (pt == 0)) [
  | inl y ↦ rw y refl
  | inr n ↦ rw (n, e) refl
]

pub can_map_absent :
    (m : Machine) (pt idx size : ℕ)
    → pt ≢ 0
    → present (entry m pt idx) ≡ false
    → can_map m pt idx size size ≡ true
can_map_absent m pt idx size nonzero e =
    let a : (pt == 0) ≡ false = ground arith in rw (a, (==_iff size size).1 refl, e) refl

-- `linear_mapping` of a present page of 4K, where the tables are there, the last one has no entry
-- yet, and its slot is none of those that lead to it: it returns 0, stores that entry and nothing
-- else, and `physical_mapping` then takes the address to its place in the page.
pub physical_mapping-linear_mapping :
    (fuel : ℕ) (new_node : Tree → ℕ) (m : Machine) (addr linear options : ℕ)
    → IsWalk m linear
    → IsApart m linear (slot (table3 m linear) (idx3 linear))
    → present (entry m (table3 m linear) (idx3 linear)) ≡ false
    → addr < 2 ^ 59
    → options % 2 ≡ 1
    → (m' : Machine) × (linear_mapping fuel new_node m addr linear 0 options ≡ some (0, m'))
      × IsMapped m linear
          (slot (table3 m linear) (idx3 linear))
          (addr / 4096 * 4096 + linear % 4096)
          m'
unfolding linear_mapping map_1g map_2m
physical_mapping-linear_mapping fuel new_node m addr linear options w a free small here =
    let x = page_word (addr / 2 ^ 12 * 2 ^ 12) 0 options in
    let stored = store_entry m (table3 m linear) (idx3 linear) x in
    let p0 =
      page_entry_linked fuel new_node m (system_linear m.cr3) (idx0 linear) (omega arith)
        (omega arith) w.link0 in
    let p1 =
      page_entry_linked fuel new_node m (table1 m linear) (idx1 linear) (omega arith) (omega arith)
        w.link1 in
    let p2 =
      page_entry_linked fuel new_node m (table2 m linear) (idx2 linear) (omega arith) (omega arith)
        w.link2 in
    (
      stored,
      rw
          (
            p0,
            can_map_other m (table1 m linear) (idx1 linear) 0 2 refl,
            p1,
            can_map_other m (table2 m linear) (idx2 linear) 0 1 refl,
            p2,
            can_map_absent m (table3 m linear) (idx3 linear) 0 (omega arith) free,
          )
          refl,
      record {
        resolves =
            resolve_4k stored linear x (IsWalk-store_entry m linear x w a)
              (rw (table3-store_entry m linear x w a)
                (entry_stored m (table3 m linear) (idx3 linear) x))
              (present-page_word _ 0 options (omega arith) refl here)
            ∙ rw (masked-page_word (addr / 2 ^ 12 * 2 ^ 12) options (omega arith) (omega arith))
                (omega arith);
        others = others_kept m (table3 m linear) (idx3 linear) x;
      },
    )

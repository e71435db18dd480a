-- ===== src/Paging/Large.antt =====
-- `linear_mapping` of a page of 1G, and `physical_mapping` after it.
use strawberry_os.Prelude.{
  ℕ, ◌+◌, ◌*◌, ◌/◌, ◌%◌, ◌^◌, ◌<◌, ◌≡◌, ◌≢◌, refl, ◌∙◌, some, add64, true, false, arith,
}
use strawberry_os.Block.{Tree}
use strawberry_os.Paging.{
  Machine, system_linear, present, is_page, slot, entry, store_entry, idx0, idx1, page_word, map_1g,
  linear_mapping, masked, physical_mapping,
}
use strawberry_os.Paging.Walk.{
  table1, IsLink, IsMapped, page_entry_linked, can_map_absent, entry_stored, entry_kept,
  others_kept, present-page_word, masked-page_word_large, page_word_large,
}

resolve_1g :
    (m : Machine) (linear x : ℕ)
    → present (entry m (system_linear m.cr3) (idx0 linear)) ≡ true
    → entry m (table1 m linear) (idx1 linear) ≡ x
    → present x ≡ true
    → is_page x ≡ true
    → physical_mapping m linear ≡ add64 (masked x) (linear % 2 ^ 30)
unfolding physical_mapping
resolve_1g m linear x h0 e h1 large = rw (h0, e, h1, large) refl

-- `linear_mapping` of a present page of 1G, where the first table is there, the second one has no
-- entry yet, and its slot is not the one that leads to it: it returns 0, stores that entry and
-- nothing else, and `physical_mapping` then takes the address to its place in the page.
pub linear_mapping_1g :
    (fuel : ℕ) (new_node : Tree → ℕ) (m : Machine) (addr linear options : ℕ)
    → IsLink (entry m (system_linear m.cr3) (idx0 linear))
    → slot (system_linear m.cr3) (idx0 linear) ≢ slot (table1 m linear) (idx1 linear)
    → present (entry m (table1 m linear) (idx1 linear)) ≡ false
    → addr < 2 ^ 59
    → options % 2 ≡ 1
    → (m' : Machine) × (linear_mapping fuel new_node m addr linear 2 options ≡ some (0, m'))
      × IsMapped m linear
          (slot (table1 m linear) (idx1 linear))
          (addr / 2 ^ 30 * 2 ^ 30 + linear % 2 ^ 30)
          m'
unfolding linear_mapping map_1g
linear_mapping_1g fuel new_node m addr linear options link ne free small here =
    let l1 = table1 m linear in
    let base = addr / 2 ^ 30 * 2 ^ 30 in
    let x = page_word base 128 options in
    let stored = store_entry m l1 (idx1 linear) x in
    let kept = entry_kept m l1 (idx1 linear) x _ _ ne in
    let p0 =
      page_entry_linked fuel new_node m (system_linear m.cr3) (idx0 linear) (omega arith)
        (omega arith) link in
    (
      stored,
      rw (p0, can_map_absent m l1 (idx1 linear) 2 (omega arith) free) refl,
      record {
        resolves =
            resolve_1g stored linear x (rw kept link.0)
              (rw kept (entry_stored m l1 (idx1 linear) x))
              (present-page_word base 128 options (omega arith) refl here)
              (page_word_large base options (omega arith))
            ∙ rw (masked-page_word_large base options (omega arith) (omega arith)) (omega arith);
        others = others_kept m l1 (idx1 linear) x;
      },
    )

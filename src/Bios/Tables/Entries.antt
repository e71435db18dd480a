-- ===== src/Bios/Tables/Entries.antt =====
-- The entries for the low 4 GB, and what `physical_mapping` reads of them.
use strawberry_os.Prelude.{
  ℕ, ◌+◌, ◌-◌, ◌*◌, ◌/◌, ◌%◌, ◌^◌, ◌<◌, ◌≡◌, ◌≢◌, refl, ap, ◌∙◌, arith, true, false, List, ◌==◌,
  add64,
}
use strawberry_os.Paging.{system_linear}
use strawberry_os.Bios.Memory.{Area}
use strawberry_os.Bios.Memory.Taken.{within}
use strawberry_os.Bios.Tables.{
  BootMemory, store_at, low_pages, physical_mapping, set_present, masked,
}
use strawberry_os.Bios.Tables.Pages.{IsTable, KeptOutside}

-- The entries that map the low 4 GB.
pub record IsMappedLow (m : BootMemory) (l1 low : ℕ) : Type 0 where
  pub first : m.words (l1 + 8 * 0) ≡ low + 3
  pub half : m.words (l1 + 8 * 0x100) ≡ low + 3
  pub pages : (i : ℕ) → i < 4 → m.words (low + 8 * i) ≡ i * 2 ^ 30 + 0x183

outside_table :
    (t a i : ℕ)
    → t % 2 ^ 12 ≡ 0
    → a % 2 ^ 12 ≡ 0
    → a ≢ t
    → i < 512
    → within t (2 ^ 12) (a + 8 * i) ≡ false
outside_table t a i ht ha ne lt = ground arith

pub IsMappedLow-kept :
    (m m' : BootMemory) (l1 low t : ℕ)
    → l1 % 2 ^ 12 ≡ 0
    → low % 2 ^ 12 ≡ 0
    → t % 2 ^ 12 ≡ 0
    → l1 ≢ t
    → low ≢ t
    → KeptOutside t m m'
    → IsMappedLow m l1 low
    → IsMappedLow m' l1 low
IsMappedLow-kept m m' l1 low t h1 h2 ht ne1 ne2 kept v = record {
  first = kept _ (outside_table t l1 0 ht h1 ne1 (omega arith)) ∙ v.first;
  half = kept _ (outside_table t l1 0x100 ht h1 ne1 (omega arith)) ∙ v.half;
  pages = λ i lt. kept _ (outside_table t low i ht h2 ne2 (omega arith)) ∙ v.pages i lt;
}

-- The stores of the low 4 GB, and the one behind them in the first table.
pub low_pages-IsMappedLow :
    (m : BootMemory) (l1 low : ℕ)
    → l1 % 2 ^ 12 ≡ 0
    → low % 2 ^ 12 ≡ 0
    → l1 ≢ low
    → IsMappedLow (low_pages (store_at (store_at m l1 0x100 (low + 3)) l1 0 (low + 3)) low) l1 low
unfolding low_pages store_at
low_pages-IsMappedLow m l1 low h1 h2 ne = record {
  first = ground arith;
  half = ground arith;
  pages = λ i lt. ground arith;
}

pub store_at-IsMappedLow :
    (m : BootMemory) (l1 low x : ℕ)
    → l1 % 2 ^ 12 ≡ 0
    → low % 2 ^ 12 ≡ 0
    → l1 ≢ low
    → IsMappedLow m l1 low
    → IsMappedLow (store_at m l1 0x1FF x) l1 low
unfolding store_at
store_at-IsMappedLow m l1 low x h1 h2 ne v =
    let first = v.first in
    let half = v.half in
    record {
      first = ground arith;
      half = ground arith;
      pages = λ i lt. let page = v.pages i lt in ground arith;
    }

-- The memory behind `SYSTEM_LNR`.
abbrev pub behind : BootMemory → ℕ → ℕ
behind m a = m.words (a - 0xFFFF800000000000)

physical_mapping-large :
    (m : ℕ → ℕ) (cr3 linear e0 e1 : ℕ)
    → m (system_linear cr3 + 8 * (linear / 2 ^ 39 % 2 ^ 9)) ≡ e0
    → m (system_linear (masked e0) + 8 * (linear / 2 ^ 30 % 2 ^ 9)) ≡ e1
    → (set_present e0 == 0) ≡ false
    → (set_present e1 == 0) ≡ false
    → (e1 / 2 ^ 7 % 2 == 1) ≡ true
    → physical_mapping m cr3 linear ≡ add64 (masked e1) (linear % 2 ^ 30)
unfolding physical_mapping
physical_mapping-large m cr3 linear e0 e1 h0 h1 p0 p1 large = rw (h0, h1, p0, p1, large) refl

-- An address whose entry in the first table leads to the table of the low 4 GB.
physical_mapping-low :
    (m : BootMemory) (l1 low linear index x : ℕ)
    → l1 % 2 ^ 12 ≡ 0
    → low % 2 ^ 12 ≡ 0
    → l1 < 2 ^ 47
    → low < 2 ^ 47
    → IsMappedLow m l1 low
    → m.words (l1 + 8 * index) ≡ low + 3
    → linear / 2 ^ 39 % 2 ^ 9 ≡ index
    → x < 2 ^ 32
    → linear % 2 ^ 39 ≡ x
    → physical_mapping (behind m) l1 linear ≡ x
physical_mapping-low m l1 low linear index x h1 h2 b1 b2 v entry at lt same =
    let i = linear / 2 ^ 30 % 2 ^ 9 in
    let a0 : system_linear l1 + 8 * (linear / 2 ^ 39 % 2 ^ 9) - 0xFFFF800000000000
        ≡ l1 + 8 * index =
      omega arith in
    let a1 : system_linear (masked (low + 3)) + 8 * i - 0xFFFF800000000000 ≡ low + 8 * i =
      omega arith in
    let present0 : (set_present (low + 3) == 0) ≡ false = ground arith in
    let present1 : (set_present (i * 2 ^ 30 + 0x183) == 0) ≡ false = ground arith in
    let large : ((i * 2 ^ 30 + 0x183) / 2 ^ 7 % 2 == 1) ≡ true = ground arith in
    let sum : add64 (masked (i * 2 ^ 30 + 0x183)) (linear % 2 ^ 30) ≡ x = omega arith in
    physical_mapping-large (behind m) l1 linear (low + 3) (i * 2 ^ 30 + 0x183)
      (ap m.words a0 ∙ entry) (ap m.words a1 ∙ v.pages i (omega arith)) present0 present1 large
    ∙ sum

-- What the tables give: the low 4 GB at their own addresses, and behind `SYSTEM_LNR`.
abbrev pub IsDirect : ℕ → BootMemory → Type 0
IsDirect l1 m =
    (x : ℕ)
    → x < 2 ^ 32
    → (physical_mapping (behind m) l1 x ≡ x)
      × (physical_mapping (behind m) l1 (system_linear x) ≡ x)

pub IsDirect-low :
    (m : BootMemory) (areas : List Area) (l1 low : ℕ)
    → IsTable areas l1
    → IsTable areas low
    → IsMappedLow m l1 low
    → IsDirect l1 m
IsDirect-low m areas l1 low t1 t2 v x lt = (
  physical_mapping-low m l1 low x 0 x t1.aligned t2.aligned t1.low t2.low v v.first (omega arith) lt
      (omega arith),
  physical_mapping-low m l1 low (system_linear x) 0x100 x t1.aligned t2.aligned t1.low t2.low v
      v.half (omega arith) lt (omega arith),
)

-- ===== src/Efi/Handoff.antt =====
-- From the memory map of the firmware to the regions of the kernel.
use strawberry_os.Prelude.{
  ℕ, zero, suc, ◌<◌, ◌+◌, ◌≡◌, refl, sym, ap, ◌∙◌, arith, Bool, true, List, [], ◌∷◌, ltb, ◌==◌, All,
  Bool-cases, ==_iff, inl, inr, ltb→lt, add64, mul64,
}
use strawberry_os.Efi.{
  Descriptor, joins, grown, region_of, first_region, extends, extended, regions_from, boot_regions,
  sort_memory_map, compact_memory_map,
}
use strawberry_os.Efi.Items.{
  slice, any, any-how_many, how_many, how_many-count, one_if, count-each, count-all, count-some,
  count-find,
}
use strawberry_os.Efi.Sort.{sort_memory_map-IsAscending}
use strawberry_os.Efi.Compact.{joined_list, compact_memory_map-joined_list}
use strawberry_os.Efi.Regions.{
  covers, holds, fits, Fit, Fit-joined_list, how_many-joined_list, how_many-regions_from, IsRegion,
  IsRegion-region_of, IsRegion-regions_from, holds-region_of,
}

-- The start of the first of some descriptors.
abbrev head_start : List Descriptor → ℕ
head_start [] = 0
head_start (d ∷ ds) = d.physical_start

head_start-joined_list :
    (d : Descriptor) (es : List Descriptor) → head_start (joined_list d es) ≡ d.physical_start
unfolding joined_list
head_start-joined_list d [] = refl
head_start-joined_list d (e ∷ es) = elim (Bool-cases (joins d e)) [
  | inl y ↦ rw y (head_start-joined_list (grown d e) es)
  | inr n ↦ rw n refl
]

-- The first entry, at address 0, becomes the first region.
first_joined :
    (d : Descriptor)
    → fits d ≡ true
    → d.physical_start ≡ 0
    → extended first_region (region_of d) ≡ region_of d
first_joined d h z =
    let e : add64 0 (mul64 d.number_of_pages 4096) ≡ mul64 d.number_of_pages 4096 =
      omega (arith, ltb→lt _ _ h) in
    rw (e, z) refl

regions_first :
    (m : ℕ → Descriptor) (n : ℕ)
    → fits (m 0) ≡ true
    → (m 0).physical_start ≡ 0
    → regions_from m (suc n) 0 first_region ≡ regions_from m n 1 (region_of (m 0))
unfolding regions_from extends
regions_first m n h z = ap (regions_from m n 1) (first_joined (m 0) h z)

how_many-regions :
    (f x : ℕ) (m : ℕ → Descriptor) (n : ℕ)
    → 0 < n
    → Fit (slice m 0 n)
    → head_start (slice m 0 n) ≡ 0
    → how_many (regions_from m n 0 first_region) (holds f x) ≡ how_many (slice m 0 n) (covers f x)
unfolding slice
how_many-regions f x m zero some h z = absurd (omega arith)
how_many-regions f x m (suc n) some (h, hs) z =
    ap (λ l. how_many l (holds f x)) (regions_first m n h z)
    ∙ how_many-regions_from f x m n 1 (region_of (m 0)) (IsRegion-region_of (m 0) h) hs
    ∙ ap (λ b. one_if b + how_many (slice m 1 n) (covers f x)) (holds-region_of f x (m 0) h)

IsRegion-regions :
    (m : ℕ → Descriptor) (n : ℕ)
    → 0 < n
    → Fit (slice m 0 n)
    → head_start (slice m 0 n) ≡ 0
    → All IsRegion (regions_from m n 0 first_region)
unfolding slice
IsRegion-regions m zero some h z = absurd (omega arith)
IsRegion-regions m (suc n) some (h, hs) z =
    rw (regions_first m n h z)
      (IsRegion-regions_from m n 1 (region_of (m 0)) (IsRegion-region_of (m 0) h) hs)

-- After the sort: the entries fit, are the same ones, and the first is at address 0.
module _ (m : ℕ → Descriptor) (n : ℕ) (fit : (k : ℕ) → k < suc n → fits (m k) ≡ true) (z : ℕ)
    (inside : z < suc n) (at_zero : (m z).physical_start ≡ 0) where
  sorted-Fit : Fit (slice (sort_memory_map m (suc n)) 0 (suc n))
  sorted-Fit = count-all fits (sort_memory_map m (suc n)) 0 (suc n) (
      (sort_memory_map-IsAscending m (suc n)).counted fits
      ∙ count-each fits m 0 (suc n) (λ k a b. fit k (omega arith)))

  sorted_same :
      (p : Descriptor → Bool)
      → how_many (slice (sort_memory_map m (suc n)) 0 (suc n)) p ≡ how_many (slice m 0 (suc n)) p
  sorted_same p =
      how_many-count p (sort_memory_map m (suc n)) 0 (suc n)
      ∙ (sort_memory_map-IsAscending m (suc n)).counted p
      ∙ sym (how_many-count p m 0 (suc n))

  sorted_first : ((sort_memory_map m (suc n)) 0).physical_start ≡ 0
  sorted_first =
      let v = sort_memory_map-IsAscending m (suc n) in
      let p : Descriptor → Bool = λ d. d.physical_start == 0 in
      let here = count-some p m z 0 (suc n) (omega arith) (omega arith) (rw at_zero refl) in
      let (k, a, b, e) =
        count-find p (sort_memory_map m (suc n)) 0 (suc n) (omega (arith, here, v.counted p)) in
      let low = (==_iff ((sort_memory_map m (suc n)) k).physical_start 0).0 e in
      elim (Bool-cases (k == 0)) [
        | inl y ↦
            ap (λ j. ((sort_memory_map m (suc n)) j).physical_start) (sym ((==_iff k 0).0 y)) ∙ low
        | inr ne ↦ omega (arith, v.ascending 0 k (omega arith) (ground arith) b, low)
      ]

  -- As many regions of a kind have an address as descriptors whose type is of that kind.
  pub boot_regions-how_many :
      (f x : ℕ)
      → how_many (boot_regions m (suc n)) (holds f x) ≡ how_many (slice m 0 (suc n)) (covers f x)
  unfolding boot_regions slice
  boot_regions-how_many f x =
      let s = sort_memory_map m (suc n) in
      let (some, less, list) = compact_memory_map-joined_list s n in
      let (fit0, rest) = sorted-Fit in
      let fit' : Fit (joined_list (s 0) (slice s 1 n)) =
        Fit-joined_list (s 0) (slice s 1 n) fit0 rest in
      how_many-regions f x ((compact_memory_map s (suc n)).0) ((compact_memory_map s (suc n)).1)
        some (rw list fit') (rw list (head_start-joined_list (s 0) (slice s 1 n) ∙ sorted_first))
      ∙ ap (λ l. how_many l (covers f x)) list
      ∙ how_many-joined_list f x (s 0) (slice s 1 n) fit0 rest
      ∙ sorted_same (covers f x)

  pub boot_regions-IsRegion : All IsRegion (boot_regions m (suc n))
  unfolding boot_regions slice
  boot_regions-IsRegion =
      let s = sort_memory_map m (suc n) in
      let (some, less, list) = compact_memory_map-joined_list s n in
      let (fit0, rest) = sorted-Fit in
      let fit' : Fit (joined_list (s 0) (slice s 1 n)) =
        Fit-joined_list (s 0) (slice s 1 n) fit0 rest in
      IsRegion-regions ((compact_memory_map s (suc n)).0) ((compact_memory_map s (suc n)).1) some
        (rw list fit') (rw list (head_start-joined_list (s 0) (slice s 1 n) ∙ sorted_first))

  -- Where every descriptor of the firmware ends below 2^64, and one of them begins at address 0, an
  -- address is in a region of a kind exactly where it is in a descriptor whose type is of that kind.
  pub boot_regions-covers :
      (f x : ℕ) → any (boot_regions m (suc n)) (holds f x) ≡ any (slice m 0 (suc n)) (covers f x)
  boot_regions-covers f x =
      any-how_many (boot_regions m (suc n)) (holds f x)
      ∙ ap (ltb 0) (boot_regions-how_many f x)
      ∙ sym (any-how_many (slice m 0 (suc n)) (covers f x))

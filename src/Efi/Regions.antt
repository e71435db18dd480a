-- ===== src/Efi/Regions.antt =====
-- The regions that the kernel is given cover the addresses that the descriptors of the firmware cover.
use strawberry_os.Prelude.{
  ℕ, zero, suc, ◌+◌, ◌*◌, ◌^◌, ◌<◌, ◌≤◌, ◌≡◌, refl, ap, arith, Bool, true, false, ◌&&◌, List, [],
  ◌∷◌, ltb, leb, ◌==◌, Bool-cases, inl, inr, ltb→lt, add64, mul64, All,
}
use strawberry_os.Efi.{
  Descriptor, Region, joins, grown, region_kind, region_of, extends, extended, regions_from,
}
use strawberry_os.Efi.Items.{slice, how_many, one_if}
use strawberry_os.Efi.Compact.{joined_list}

-- The address behind a descriptor.
abbrev pub end_of : Descriptor → ℕ
end_of d = d.physical_start + d.number_of_pages * 4096

-- The descriptor ends below 2^64.
abbrev pub fits : Descriptor → Bool
fits d = ltb (end_of d) (2 ^ 64)

-- The address `x` belongs to the descriptor, and the kernel's kind of its type is `f`.
unfoldable pub covers : ℕ → ℕ → Descriptor → Bool
covers f x d = region_kind d.type == f && (leb d.physical_start x && ltb x (end_of d))

-- The address `x` belongs to the region, which is of the kind `f`.
unfoldable pub holds : ℕ → ℕ → Region → Bool
holds f x r = r.f == f && (leb r.a x && ltb x (r.a + r.l))

abbrev pub Fit : List Descriptor → Type 0
Fit ds = All (λ d. fits d ≡ true) ds

end_lem :
    (d : Descriptor)
    → fits d ≡ true
    → add64 d.physical_start (mul64 d.number_of_pages 4096) ≡ end_of d
end_lem d h = omega (arith, ltb→lt _ _ h)

-- A join is of the same type, and begins where the other ends.
record IsNext (d e : Descriptor) : Type 0 where
  same : e.type ≡ d.type
  next : e.physical_start ≡ end_of d

IsNext-joins : (d e : Descriptor) → fits d ≡ true → joins d e ≡ true → IsNext d e
unfolding joins
IsNext-joins d e h j = let at = end_lem d h in record { same = ground arith; next = ground arith }

grown_end : (d e : Descriptor) → fits e ≡ true → IsNext d e → end_of (grown d e) ≡ end_of e
grown_end d e h v = omega (arith, ltb→lt _ _ h, v.next)

fits-grown : (d e : Descriptor) → fits e ≡ true → IsNext d e → fits (grown d e) ≡ true
fits-grown d e h v = rw (grown_end d e h v) h

covers-grown :
    (f x : ℕ) (d e : Descriptor)
    → fits e ≡ true
    → IsNext d e
    → one_if (covers f x (grown d e)) ≡ one_if (covers f x d) + one_if (covers f x e)
unfolding covers
covers-grown f x d e h v =
    let ends = grown_end d e h v in
    let next = v.next in
    let below : d.physical_start ≤ end_of d = omega arith in
    let below' : e.physical_start ≤ end_of e = omega arith in rw (ends, v.same) (ground arith)

pub Fit-joined_list :
    (d : Descriptor) (es : List Descriptor) → fits d ≡ true → Fit es → Fit (joined_list d es)
unfolding joined_list
Fit-joined_list d [] h hs = (h, tt)
Fit-joined_list d (e ∷ es) h (he, hs) = elim (Bool-cases (joins d e)) [
  | inl y ↦ rw y (Fit-joined_list (grown d e) es (fits-grown d e he (IsNext-joins d e h y)) hs)
  | inr n ↦ rw n (h, Fit-joined_list e es he hs)
]

-- Joining neighbours covers the same addresses as often.
pub how_many-joined_list :
    (f x : ℕ) (d : Descriptor) (es : List Descriptor)
    → fits d ≡ true
    → Fit es
    → how_many (joined_list d es) (covers f x) ≡ how_many (d ∷ es) (covers f x)
unfolding joined_list
how_many-joined_list f x d [] h hs = refl
how_many-joined_list f x d (e ∷ es) h (he, hs) = elim (Bool-cases (joins d e)) [
  | inl y ↦
      let v = IsNext-joins d e h y in
      let one = covers-grown f x d e he v in
      let more = how_many-joined_list f x (grown d e) es (fits-grown d e he v) hs in
      rw y (omega (arith, one, more))
  | inr n ↦ rw n (ap (λ k. one_if (covers f x d) + k) (how_many-joined_list f x e es he hs))
]

-- The region of a descriptor.
pub holds-region_of :
    (f x : ℕ) (d : Descriptor) → fits d ≡ true → holds f x (region_of d) ≡ covers f x d
unfolding holds covers
holds-region_of f x d h =
    let e : mul64 d.number_of_pages 4096 ≡ d.number_of_pages * 4096 = omega (arith, ltb→lt _ _ h) in
    rw e refl

region_kind-small : (t : ℕ) → (region_kind t == 0xFF) ≡ false
unfolding region_kind
region_kind-small t = ground arith

-- A region whose kind is set, and which ends below 2^64.
pub record IsRegion (r : Region) : Type 0 where
  pub kind_set : (r.f == 0xFF) ≡ false
  pub ends : r.a + r.l < 2 ^ 64

pub IsRegion-region_of : (d : Descriptor) → fits d ≡ true → IsRegion (region_of d)
IsRegion-region_of d h = record {
  kind_set = region_kind-small d.type;
  ends = omega (arith, ltb→lt _ _ h);
}

record IsJoin (beg r : Region) : Type 0 where
  kind_same : beg.f ≡ r.f
  follows : beg.a + beg.l ≡ r.a

IsJoin-extends : (beg r : Region) → IsRegion beg → extends beg r ≡ true → IsJoin beg r
unfolding extends
IsJoin-extends beg r v h =
    let k = v.kind_set in
    let e = v.ends in record { kind_same = ground arith; follows = ground arith }

IsRegion-extended :
    (beg r : Region) → IsRegion beg → IsRegion r → IsJoin beg r → IsRegion (extended beg r)
IsRegion-extended beg r v w j = record {
  kind_set = rw v.kind_set v.kind_set;
  ends = omega (arith, v.ends, w.ends, j.follows);
}

holds-extended :
    (f x : ℕ) (beg r : Region)
    → IsRegion beg
    → IsRegion r
    → IsJoin beg r
    → one_if (holds f x (extended beg r)) ≡ one_if (holds f x beg) + one_if (holds f x r)
unfolding holds
holds-extended f x beg r v w j =
    let k = v.kind_set in
    let l : add64 beg.l r.l ≡ beg.l + r.l = omega (arith, w.ends, j.follows) in
    let same = j.kind_same in let follows = j.follows in rw (k, l) (ground arith)

-- The loop over the entries.
pub how_many-regions_from :
    (f x : ℕ) (m : ℕ → Descriptor) (n i : ℕ) (beg : Region)
    → IsRegion beg
    → Fit (slice m i n)
    → how_many (regions_from m n i beg) (holds f x)
      ≡ one_if (holds f x beg) + how_many (slice m i n) (covers f x)
unfolding regions_from slice
how_many-regions_from f x m zero i beg v hs = refl
how_many-regions_from f x m (suc n) i beg v (h, hs) =
    let r = region_of (m i) in
    let w = IsRegion-region_of (m i) h in
    let one = ap one_if (holds-region_of f x (m i) h) in
    elim (Bool-cases (extends beg r)) [
      | inl y ↦
          let j = IsJoin-extends beg r v y in
          let both = holds-extended f x beg r v w j in
          let more =
            how_many-regions_from f x m n (i + 1) (extended beg r) (IsRegion-extended beg r v w j)
              hs in
          rw y (omega (arith, one, both, more))
      | inr n' ↦
          let more = how_many-regions_from f x m n (i + 1) r w hs in
          rw n' (omega (arith, one, more))
    ]

pub IsRegion-regions_from :
    (m : ℕ → Descriptor) (n i : ℕ) (beg : Region)
    → IsRegion beg
    → Fit (slice m i n)
    → All IsRegion (regions_from m n i beg)
unfolding regions_from slice
IsRegion-regions_from m zero i beg v hs = (v, tt)
IsRegion-regions_from m (suc n) i beg v (h, hs) =
    let r = region_of (m i) in
    let w = IsRegion-region_of (m i) h in
    elim (Bool-cases (extends beg r)) [
      | inl y ↦
          let j = IsJoin-extends beg r v y in
          rw y
            (IsRegion-regions_from m n (i + 1) (extended beg r) (IsRegion-extended beg r v w j) hs)
      | inr n' ↦ rw n' (v, IsRegion-regions_from m n (i + 1) r w hs)
    ]

-- ===== src/Efi/Compact.antt =====
-- `CompactMemoryMap` works in place, and makes what joining the neighbours of a list makes.
use mathlib.Core.List.{append_assoc}
use strawberry_os.Prelude.{
  ℕ, zero, suc, ◌+◌, ◌-◌, ◌≤◌, ◌<◌, ◌≡◌, refl, ap, ◌∙◌, arith, true, false, List, [], ◌∷◌, ◌++◌,
  ◌==◌, if◌then◌else◌, Bool-cases, ==_iff, inl, inr,
}
use strawberry_os.Efi.{Descriptor, store_at, joins, grown, compact_from, compact_memory_map}
use strawberry_os.Efi.Items.{slice, store_at_self, store_at_ne}

-- A descriptor and those behind it, each joined to the one before it where the code joins them.
unfoldable pub joined_list : Descriptor → List Descriptor → List Descriptor
joined_list d [] = d ∷ []
joined_list d (e ∷ es) =
    let same = joined_list (grown d e) es in
    let other = d ∷ joined_list e es in if joins d e then same else other

-- A store before or behind the entries.
slice-store_before :
    (m : ℕ → Descriptor) (k : ℕ) (d : Descriptor) (i n : ℕ)
    → k < i
    → slice (store_at m k d) i n ≡ slice m i n
unfolding slice
slice-store_before m k d i zero lt = refl
slice-store_before m k d i (suc n) lt =
    let e = store_at_ne m k i d (ground arith) in
    let rest = slice-store_before m k d (i + 1) n (omega arith) in cc

slice-store_behind :
    (m : ℕ → Descriptor) (k : ℕ) (d : Descriptor) (i n : ℕ)
    → i + n ≤ k
    → slice (store_at m k d) i n ≡ slice m i n
unfolding slice
slice-store_behind m k d i zero le = refl
slice-store_behind m k d i (suc n) le =
    let e = store_at_ne m k i d (ground arith) in
    let rest = slice-store_behind m k d (i + 1) n (omega arith) in cc

slice-last : (m : ℕ → Descriptor) (i n : ℕ) → slice m i (suc n) ≡ slice m i n ++ m (i + n) ∷ []
unfolding slice
slice-last m i zero = let e : i + 0 ≡ i = omega arith in rw e refl
slice-last m i (suc n) =
    let e : i + suc n ≡ i + 1 + n = omega arith in rw e (ap (λ l. m i ∷ l) (slice-last m (i + 1) n))

-- The entries up to `i` and what is left to join give `whole`.
abbrev Joins : (ℕ → Descriptor) → ℕ → ℕ → ℕ → List Descriptor → Type 0
Joins m i j n whole = slice m 0 i ++ joined_list (m i) (slice m j n) ≡ whole

-- One round.
same-Joins :
    (m : ℕ → Descriptor) (i j n : ℕ) (whole : List Descriptor)
    → i < j
    → joins (m i) (m j) ≡ true
    → Joins m i j (suc n) whole
    → Joins (store_at m i (grown (m i) (m j))) i (j + 1) n whole
unfolding slice joined_list
same-Joins m i j n whole lt y h =
    let g = grown (m i) (m j) in
    let before = slice-store_behind m i g 0 i (omega arith) in
    let behind = slice-store_before m i g (j + 1) n (omega arith) in
    let here = store_at_self m i g in rw (before, behind, here) (rw y at h)

next-Joins :
    (m m' : ℕ → Descriptor) (i j n : ℕ) (whole : List Descriptor)
    → joins (m i) (m j) ≡ false
    → slice m' 0 i ≡ slice m 0 i
    → m' i ≡ m i
    → m' (i + 1) ≡ m j
    → slice m' (j + 1) n ≡ slice m (j + 1) n
    → Joins m i j (suc n) whole
    → Joins m' (i + 1) (j + 1) n whole
unfolding slice joined_list
next-Joins m m' i j n whole no_join before here there behind h =
    let last : slice m' 0 (i + 1) ≡ slice m 0 i ++ m i ∷ [] =
      let up : i + 1 ≡ suc i = omega arith in
      let e : 0 + i ≡ i = omega arith in rw up (slice-last m' 0 i ∙ rw (e, before, here) refl) in
    rw (last, there, behind)
      (append_assoc (slice m 0 i) (m i ∷ []) (joined_list (m j) (slice m (j + 1) n))
        ∙ (rw no_join at h))

-- What the loop leaves: fewer than `bound` entries, the last of them at `i`, which are `whole`.
record IsCompact (bound : ℕ) (whole : List Descriptor) (r : (ℕ → Descriptor) × ℕ) : Type 0 where
  inside : r.1 < bound
  entries : slice (r.0) 0 (suc r.1) ≡ whole

compact_from-IsCompact :
    (n : ℕ) (m : ℕ → Descriptor) (j i : ℕ) (whole : List Descriptor)
    → i < j
    → Joins m i j n whole
    → IsCompact (j + n) whole (compact_from m n j i)
unfolding compact_from
compact_from-IsCompact zero m j i whole lt h = record {
  inside = omega arith;
  entries =
      unfold slice joined_list in let e : 0 + i ≡ i = omega arith in slice-last m 0 i ∙ rw e h;
}
compact_from-IsCompact (suc n) m j i whole lt h =
    let e : j + suc n ≡ j + 1 + n = omega arith in
    elim (Bool-cases (joins (m i) (m j))) [
      | inl y ↦
          rw (e, y)
            (compact_from-IsCompact n (store_at m i (grown (m i) (m j))) (j + 1) i whole
              (omega arith) (same-Joins m i j n whole lt y h))
      | inr no_join ↦ elim (Bool-cases (i + 1 == j)) [
        | inl y ↦
            let at = (==_iff (i + 1) j).0 y in
            rw (e, no_join, y)
              (compact_from-IsCompact n m (j + 1) (i + 1) whole (omega arith)
                (next-Joins m m i j n whole no_join refl refl (ap m at) refl h))
        | inr ne ↦
            rw (e, no_join, ne)
              (compact_from-IsCompact n (store_at m (i + 1) (m j)) (j + 1) (i + 1) whole
                (omega arith)
                (next-Joins m (store_at m (i + 1) (m j)) i j n whole no_join
                  (slice-store_behind m (i + 1) (m j) 0 i (omega arith))
                  (store_at_ne m (i + 1) i (m j) (omega arith)) (store_at_self m (i + 1) (m j))
                  (slice-store_before m (i + 1) (m j) (j + 1) n (ground arith)) h))
      ]
    ]

-- `CompactMemoryMap` of at least one entry: at least one and no more entries than before, which are
-- the list of the entries with their neighbours joined.
pub compact_memory_map-joined_list :
    (m : ℕ → Descriptor) (n : ℕ)
    → (let r = compact_memory_map m (suc n) in
        (0 < r.1) × (r.1 ≤ suc n) × (slice (r.0) 0 (r.1) ≡ joined_list (m 0) (slice m 1 n)))
unfolding compact_memory_map
compact_memory_map-joined_list m n =
    let e : suc n - 1 ≡ n = omega arith in
    let v =
      compact_from-IsCompact n m 1 0 (joined_list (m 0) (slice m 1 n)) (omega arith)
        (unfold slice in refl) in
    let inside = v.inside in
    let up : (compact_from m n 1 0).1 + 1 ≡ suc ((compact_from m n 1 0).1) = omega arith in
    rw (e, up) (omega arith, omega arith, v.entries)

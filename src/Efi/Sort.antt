-- ===== src/Efi/Sort.antt =====
-- `SortMemoryMap` sorts the descriptors by their starts, and keeps each of them.
use strawberry_os.Prelude.{
  ℕ, zero, suc, ◌+◌, ◌≤◌, ◌<◌, ◌≡◌, ◌≢◌, refl, ap, ◌∙◌, arith, Bool, ltb, ◌==◌, if◌then◌else◌,
  Bool-cases, ==_iff, inl, inr, ltb→lt, ltb_false→le,
}
use strawberry_os.Efi.{Descriptor, store_at, min_entry, exchange, sort_from, sort_memory_map}
use strawberry_os.Efi.Items.{count, one_if, count-exchange, store_at_self, store_at_ne}

abbrev start : (ℕ → Descriptor) → ℕ → ℕ
start m k = (m k).physical_start

-- The entry `r` is the one with the least start from `lo` up to `hi`.
record IsLeast (m : ℕ → Descriptor) (lo hi r : ℕ) : Type 0 where
  above : lo ≤ r
  below : r < hi
  least : (k : ℕ) → lo ≤ k → k < hi → start m r ≤ start m k

-- One more entry.
IsLeast-more :
    (m : ℕ → Descriptor) (lo j min : ℕ)
    → IsLeast m lo j min
    → IsLeast m lo (j + 1) (if ltb (start m j) (start m min) then j else min)
IsLeast-more m lo j min v =
    let up = v.above in
    let down = v.below in
    elim (Bool-cases (ltb (start m j) (start m min))) [
      | inl y ↦ rw y (record {
        above = omega arith;
        below = omega arith;
        least = λ k a b. elim (Bool-cases (k == j)) [
          | inl e ↦ let s = ap (start m) ((==_iff k j).0 e) in omega (arith, s)
          | inr e ↦ let h = v.least k a (ground arith) in omega (arith, h, ltb→lt _ _ y)
        ];
      })
      | inr y ↦ rw y (record {
        above = v.above;
        below = omega arith;
        least = λ k a b. elim (Bool-cases (k == j)) [
          | inl e ↦ let s = ap (start m) ((==_iff k j).0 e) in omega (arith, s, ltb_false→le _ _ y)
          | inr e ↦ v.least k a (ground arith)
        ];
      })
    ]

min_entry-IsLeast :
    (m : ℕ → Descriptor) (n lo j min : ℕ)
    → IsLeast m lo j min
    → IsLeast m lo (j + n) (min_entry m n j min)
unfolding min_entry
min_entry-IsLeast m zero lo j min v = let e : j + 0 ≡ j = omega arith in rw e v
min_entry-IsLeast m (suc n) lo j min v =
    let e : j + suc n ≡ j + 1 + n = omega arith in
    rw e (min_entry-IsLeast m n lo (j + 1) _ (IsLeast-more m lo j min v))

-- What the exchange of the entry `i` with a later one leaves at each place.
exchange-first : (m : ℕ → Descriptor) (i min : ℕ) → i < min → exchange m i min i ≡ m min
unfolding exchange
exchange-first m i min lt =
    store_at_ne (store_at m i (m min)) min i (m i) (ground arith) ∙ store_at_self m i (m min)

exchange-second : (m : ℕ → Descriptor) (i min : ℕ) → exchange m i min min ≡ m i
unfolding exchange
exchange-second m i min = store_at_self (store_at m i (m min)) min (m i)

exchange-other : (m : ℕ → Descriptor) (i min k : ℕ) → k ≢ i → k ≢ min → exchange m i min k ≡ m k
unfolding exchange
exchange-other m i min k a b =
    store_at_ne (store_at m i (m min)) min k (m i) b ∙ store_at_ne m i k (m min) a

-- One round: the array `m'` has its least entry from `i` on at `i`, and the same entries.
record IsRound (m m' : ℕ → Descriptor) (i n : ℕ) : Type 0 where
  least : (k : ℕ) → i ≤ k → k < i + n → start m' i ≤ start m k
  bounded :
      (c : ℕ)
      → ((k : ℕ) → i ≤ k → k < i + n → c ≤ start m k)
      → (k : ℕ) → i ≤ k
      → k < i + n
      → c ≤ start m' k
  outside : (k : ℕ) → (k < i) → m' k ≡ m k
  counted : (p : Descriptor → Bool) → count p m' i n ≡ count p m i n

exchange-IsRound :
    (m : ℕ → Descriptor) (i n min : ℕ)
    → i < min
    → IsLeast m i (i + n) min
    → IsRound m (exchange m i min) i n
exchange-IsRound m i n min lt v =
    let up = v.above in
    let down = v.below in
    record {
      least = λ k a b.
          let h = v.least k a b in
          omega (arith, ap (λ d. d.physical_start) (exchange-first m i min lt), h);
      bounded = λ c all k a b. elim (Bool-cases (k == i)) [
        | inl e ↦
            let s = ap (start (exchange m i min)) ((==_iff k i).0 e) in
            omega
              (arith, s, ap (λ d. d.physical_start) (exchange-first m i min lt), all min up down)
        | inr ne ↦ elim (Bool-cases (k == min)) [
          | inl e ↦
              let s = ap (start (exchange m i min)) ((==_iff k min).0 e) in
              omega (
                arith,
                s,
                ap (λ d. d.physical_start) (exchange-second m i min),
                all i (omega arith) (omega arith),
              )
          | inr ne' ↦ omega (
            arith,
            ap (λ d. d.physical_start) (exchange-other m i min k (ground arith) (ground arith)),
            all k a b,
          )
        ]
      ];
      outside = λ k h. exchange-other m i min k (ground arith) (ground arith);
      counted = λ p. count-exchange p m min i n lt down;
    }

stay-IsRound : (m : ℕ → Descriptor) (i n : ℕ) → IsLeast m i (i + n) i → IsRound m m i n
stay-IsRound m i n v = record {
  least = v.least;
  bounded = λ c all. all;
  outside = λ k h. refl;
  counted = λ p. refl;
}

IsRound-min_entry :
    (m : ℕ → Descriptor) (i n : ℕ)
    → (let min = min_entry m n (i + 1) i in
        IsRound m (if min == i then m else exchange m i min) i (suc n))
IsRound-min_entry m i n =
    let only : IsLeast m i (i + 1) i = record {
      above = omega arith;
      below = omega arith;
      least = λ k a b. let e : k ≡ i = omega arith in omega (arith, ap (start m) e);
    } in
    let e : i + 1 + n ≡ i + suc n = omega arith in
    let v = rw e at (min_entry-IsLeast m n i (i + 1) i only) in
    let up = v.above in
    elim (Bool-cases (min_entry m n (i + 1) i == i)) [
      | inl y ↦
          let s = (==_iff (min_entry m n (i + 1) i) i).0 y in
          rw y (stay-IsRound m i (suc n) (rw s at v))
      | inr ne ↦ rw ne (exchange-IsRound m i (suc n) (min_entry m n (i + 1) i) (ground arith) v)
    ]

-- What `SortMemoryMap` leaves of the `n` entries from `i` on.
pub record IsAscending (m s : ℕ → Descriptor) (i n : ℕ) : Type 0 where
  pub ascending : (a b : ℕ) → i ≤ a → a < b → b < i + n → start s a ≤ start s b
  pub bounded :
      (c : ℕ)
      → ((k : ℕ) → i ≤ k → k < i + n → c ≤ start m k)
      → (k : ℕ) → i ≤ k
      → k < i + n
      → c ≤ start s k
  pub outside : (k : ℕ) → (k < i) → s k ≡ m k
  pub counted : (p : Descriptor → Bool) → count p s i n ≡ count p m i n

-- A round, and the rounds from the next entry on.
IsRound-IsAscending :
    (m m' s : ℕ → Descriptor) (i n : ℕ)
    → IsRound m m' i (suc n)
    → IsAscending m' s (i + 1) n
    → IsAscending m s i (suc n)
unfolding count
IsRound-IsAscending m m' s i n r v =
    let here : start s i ≡ start m' i = ap (λ d. d.physical_start) (v.outside i (omega arith)) in
    let above : (k : ℕ) → i + 1 ≤ k → k < i + 1 + n → start m' i ≤ start s k =
      v.bounded (start m' i)
        (λ k a b. r.bounded (start m' i) r.least k (omega arith) (omega arith)) in
    record {
      ascending = λ a b la lt lb. elim (Bool-cases (a == i)) [
        | inl e ↦
            omega
              (arith, ap (start s) ((==_iff a i).0 e), here, above b (ground arith) (omega arith))
        | inr ne ↦ v.ascending a b (ground arith) lt (omega arith)
      ];
      bounded = λ c all k a b. elim (Bool-cases (k == i)) [
        | inl e ↦ omega (
          arith,
          ap (start s) ((==_iff k i).0 e),
          here,
          r.bounded c all i (omega arith) (omega arith),
        )
        | inr ne ↦
            v.bounded c (λ j x y. r.bounded c all j (omega arith) (omega arith)) k (ground arith)
              (omega arith)
      ];
      outside = λ k h. v.outside k (omega arith) ∙ r.outside k h;
      counted = λ p.
          omega
            (arith, ap (λ d. one_if (p d)) (v.outside i (omega arith)), v.counted p, r.counted p);
    }

sort_from-IsAscending : (m : ℕ → Descriptor) (n i : ℕ) → IsAscending m (sort_from m n i) i n
unfolding sort_from
sort_from-IsAscending m zero i = record {
  ascending = λ a b x y z. absurd (omega arith);
  bounded = λ c all. all;
  outside = λ k h. refl;
  counted = λ p. refl;
}
sort_from-IsAscending m (suc n) i = IsRound-IsAscending m _ _ i n (IsRound-min_entry m i n) (
    sort_from-IsAscending
      (if min_entry m n (i + 1) i == i then m else exchange m i (min_entry m n (i + 1) i)) n
      (i + 1))

-- `SortMemoryMap` leaves the entries with ascending starts, and as many entries of any kind as there
-- were: they are the same entries in another order.
pub sort_memory_map-IsAscending :
    (m : ℕ → Descriptor) (n : ℕ) → IsAscending m (sort_memory_map m n) 0 n
unfolding sort_memory_map
sort_memory_map-IsAscending m n = sort_from-IsAscending m n 0

-- ===== src/Efi/Items.antt =====
-- The entries of an array, and how many of them pass a test.
use strawberry_os.Prelude.{
  ℕ, zero, suc, ◌+◌, ◌≤◌, ◌<◌, ◌≡◌, ◌≢◌, refl, sym, ap, ◌∙◌, arith, Bool, true, false, ◌||◌, List,
  ltb, lt→ltb, All, [], ◌∷◌, ◌==◌, if◌then◌else◌, Bool-cases, ==_iff, inl, inr,
}
use strawberry_os.Efi.{Descriptor, store_at, exchange}

module _ {ℓ} {A : Type ℓ} where
  abbrev pub any : List A → (A → Bool) → Bool
  any [] p = false
  any (x ∷ xs) p = p x || any xs p

  abbrev pub how_many : List A → (A → Bool) → ℕ
  how_many [] p = 0
  how_many (x ∷ xs) p = (if p x then 1 else 0) + how_many xs p

  pub any-how_many : (xs : List A) (p : A → Bool) → any xs p ≡ ltb 0 (how_many xs p)
  any-how_many [] p = refl
  any-how_many (x ∷ xs) p = elim (Bool-cases (p x)) [
    | inl y ↦ rw y (sym (lt→ltb _ _ (omega arith)))
    | inr n ↦
        let e : 0 + how_many xs p ≡ how_many xs p = omega arith in rw (n, e) (any-how_many xs p)
  ]

-- The `n` entries from `i` on.
unfoldable pub slice : (ℕ → Descriptor) → ℕ → ℕ → List Descriptor
slice m i zero = []
slice m i (suc n) = m i ∷ slice m (i + 1) n

abbrev pub one_if : Bool → ℕ
one_if b = if b then 1 else 0

-- How many of the `n` entries from `i` on pass a test.
unfoldable pub count : (Descriptor → Bool) → (ℕ → Descriptor) → ℕ → ℕ → ℕ
count p m i zero = 0
count p m i (suc n) = one_if (p (m i)) + count p m (i + 1) n

pub store_at_self : (m : ℕ → Descriptor) (i : ℕ) (d : Descriptor) → store_at m i d i ≡ d
store_at_self m i d = let e : (i == i) ≡ true = ground arith in rw e refl

pub store_at_ne : (m : ℕ → Descriptor) (i k : ℕ) (d : Descriptor) → k ≢ i → store_at m i d k ≡ m k
store_at_ne m i k d ne = let e : (k == i) ≡ false = ground arith in rw e refl

-- A store outside of the entries.
count-store_before :
    (p : Descriptor → Bool) (m : ℕ → Descriptor) (k : ℕ) (d : Descriptor) (i n : ℕ)
    → k < i
    → count p (store_at m k d) i n ≡ count p m i n
unfolding count
count-store_before p m k d i zero lt = refl
count-store_before p m k d i (suc n) lt =
    let e = ap p (store_at_ne m k i d (ground arith)) in
    omega (arith, ap one_if e, count-store_before p m k d (i + 1) n (omega arith))

-- A store at one of them counts the new value for the old one.
pub count-store_at :
    (p : Descriptor → Bool) (m : ℕ → Descriptor) (k : ℕ) (d : Descriptor) (i n : ℕ)
    → i ≤ k
    → k < i + n
    → count p (store_at m k d) i n + one_if (p (m k)) ≡ count p m i n + one_if (p d)
unfolding count
count-store_at p m k d i zero le lt = absurd (omega arith)
count-store_at p m k d i (suc n) le lt = elim (Bool-cases (k == i)) [
  | inl y ↦
      let e = (==_iff k i).0 y in
      let here : one_if (p (store_at m k d i)) ≡ one_if (p d) =
        ap (λ j. one_if (p (store_at m k d j))) (sym e)
        ∙ ap (λ x. one_if (p x)) (store_at_self m k d) in
      let old : one_if (p (m k)) ≡ one_if (p (m i)) = ap (λ j. one_if (p (m j))) e in
      omega (arith, here, old, count-store_before p m k d (i + 1) n (omega arith))
  | inr other ↦
      let here = ap (λ x. one_if (p x)) (store_at_ne m k i d (ground arith)) in
      omega (arith, here, count-store_at p m k d (i + 1) n (ground arith) (omega arith))
]

-- An exchange of two entries.
pub count-exchange :
    (p : Descriptor → Bool) (m : ℕ → Descriptor) (k : ℕ) (i n : ℕ)
    → i < k
    → k < i + n
    → count p (exchange m i k) i n ≡ count p m i n
unfolding exchange
count-exchange p m k i n lt inside =
    let first = count-store_at p m i (m k) i n (omega arith) (omega arith) in
    let second = count-store_at p (store_at m i (m k)) k (m i) i n (omega arith) inside in
    let other = ap (λ x. one_if (p x)) (store_at_ne m i k (m k) (ground arith)) in
    omega (arith, first, second, other)

pub how_many-count :
    (p : Descriptor → Bool) (m : ℕ → Descriptor) (i n : ℕ)
    → how_many (slice m i n) p ≡ count p m i n
unfolding slice count
how_many-count p m i zero = refl
how_many-count p m i (suc n) = ap (λ k. one_if (p (m i)) + k) (how_many-count p m (i + 1) n)

-- A test that each of them passes.
count-le : (p : Descriptor → Bool) (m : ℕ → Descriptor) (i n : ℕ) → count p m i n ≤ n
unfolding count
count-le p m i zero = omega arith
count-le p m i (suc n) = ground (arith, count-le p m (i + 1) n)

pub count-each :
    (p : Descriptor → Bool) (m : ℕ → Descriptor) (i n : ℕ)
    → ((k : ℕ) → i ≤ k → k < i + n → p (m k) ≡ true)
    → count p m i n ≡ n
unfolding count
count-each p m i zero h = refl
count-each p m i (suc n) h =
    let here = h i (omega arith) (omega arith) in
    rw here (omega (arith, count-each p m (i + 1) n (λ k a b. h k (omega arith) (omega arith))))

-- Then the list of them passes it.
pub count-all :
    (p : Descriptor → Bool) (m : ℕ → Descriptor) (i n : ℕ)
    → count p m i n ≡ n
    → All (λ d. p d ≡ true) (slice m i n)
unfolding count slice
count-all p m i zero h = tt
count-all p m i (suc n) h = elim (Bool-cases (p (m i))) [
  | inl y ↦ let here = ap one_if y in (y, count-all p m (i + 1) n (omega (arith, here, h)))
  | inr n' ↦ let here = ap one_if n' in absurd (omega (arith, here, h, count-le p m (i + 1) n))
]

pub count-some :
    (p : Descriptor → Bool) (m : ℕ → Descriptor) (k i n : ℕ)
    → i ≤ k
    → k < i + n
    → p (m k) ≡ true
    → 0 < count p m i n
unfolding count
count-some p m k i zero a b h = absurd (omega arith)
count-some p m k i (suc n) a b h = elim (Bool-cases (k == i)) [
  | inl y ↦
      let here : one_if (p (m i)) ≡ 1 =
        ap (λ j. one_if (p (m j))) (sym ((==_iff k i).0 y)) ∙ ap one_if h in
      omega (arith, here)
  | inr n' ↦ omega (arith, count-some p m k (i + 1) n (ground arith) (omega arith) h)
]

pub count-find :
    (p : Descriptor → Bool) (m : ℕ → Descriptor) (i n : ℕ)
    → 0 < count p m i n
    → (k : ℕ) × (i ≤ k) × (k < i + n) × (p (m k) ≡ true)
unfolding count
count-find p m i zero h = absurd (omega arith)
count-find p m i (suc n) h = elim (Bool-cases (p (m i))) [
  | inl y ↦ (i, omega arith, omega arith, y)
  | inr n' ↦
      let here = ap one_if n' in
      let (k, a, b, e) = count-find p m (i + 1) n (omega (arith, here, h)) in
      (k, omega arith, omega arith, e)
]

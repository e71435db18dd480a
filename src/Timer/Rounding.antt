-- ===== src/Timer/Rounding.antt =====
-- The rounding of the measured frequency.
use strawberry_os.Prelude.{
  ℕ, zero, suc, ◌+◌, ◌-◌, ◌*◌, ◌/◌, ◌^◌, ◌≤◌, ◌<◌, ◌≡◌, refl, sym, ap, ◌∙◌, arith, some, leb, inl,
  inr, ◌⊎◌, Bool-cases, true, u64, mul64, leb→le, leb_false→lt,
}
use native.Mathlib.Nat.{pow-suc, mul_assoc, mul_comm, mul-one, zero-mul, suc-mul, mul-le-mul}
use strawberry_os.Timer.{settle_frequency}

-- The result `r` for the frequency `khz` in units of `shift`: at most two digits and a power of ten
-- that give it, which are less than that power of ten away from the frequency. Where the power is
-- not 1, the digits are two, so that no coarser one will do.
pub record IsRounded (khz shift r : ℕ) : Type 0 where
  pub digits : ℕ
  pub power : ℕ
  pub two_digits : digits < 99
  pub both_digits : (power ≡ 0) ⊎ (10 ≤ digits)
  pub value : r ≡ digits * 10 ^ power * shift
  pub not_less : khz < digits * 10 ^ power + 10 ^ power
  pub not_more : digits * 10 ^ power < khz + 10 ^ power

-- The same product, with the factor 10 elsewhere.
ten_lem : (x s : ℕ) → x * (s * 10) ≡ x * 10 * s
ten_lem x s = ap (λ y. x * y) (mul_comm s 10) ∙ sym (mul_assoc x 10 s)

ten_inner : (x d : ℕ) → x * 10 ^ suc d ≡ x * 10 ^ d * 10
ten_inner x d = ap (λ y. x * y) (pow-suc 10 d) ∙ sym (mul_assoc x (10 ^ d) 10)

-- A frequency of two digits or more is rounded to two digits.
ten_digits : {khz shift r : ℕ} → 10 ≤ khz → (v : IsRounded khz shift r) → 10 ≤ v.digits
ten_digits h v = elim v.both_digits [
  | inl e ↦ let less = rw e at v.not_less in omega (arith, mul-one v.digits)
  | inr d ↦ d
]

step_fits :
    (khz shift : ℕ)
    → 99 ≤ khz
    → (khz - 1) * shift < 2 ^ 63
    → ((khz + 1) / 10 - 1) * (shift * 10) < 2 ^ 63
step_fits khz shift big fit =
    let le =
      mul-le-mul {n₁ = ((khz + 1) / 10 - 1) * 10} {m₁ = shift} {n₂ = khz - 1} {m₂ = shift}
        (omega arith) (omega arith) in
    rw (ten_lem ((khz + 1) / 10 - 1) shift) (omega arith)

shift_fits : (khz shift : ℕ) → 99 ≤ khz → (khz - 1) * shift < 2 ^ 63 → shift * 10 < 2 ^ 63
shift_fits khz shift big fit =
    let le =
      mul-le-mul {n₁ = 98} {m₁ = shift} {n₂ = khz - 1} {m₂ = shift} (omega arith) (omega arith) in
    omega arith

last_fits : (khz shift : ℕ) → (khz - 1) * shift < 2 ^ 63 → shift < 2 ^ 63 → khz * shift < 2 ^ 64
last_fits zero shift fit small = omega (arith, zero-mul shift)
last_fits (suc k) shift fit small =
    let e : suc k - 1 ≡ k = omega arith in omega (arith, suc-mul k shift, rw e at fit)

-- One more round.
settle-more :
    (fuel khz shift : ℕ)
    → leb 99 khz ≡ true
    → khz < 2 ^ 63
    → shift * 10 < 2 ^ 63
    → settle_frequency (suc fuel) khz shift ≡ settle_frequency fuel ((khz + 1) / 10) (shift * 10)
unfolding settle_frequency
settle-more fuel khz shift y small wide =
    let next : u64 (khz + 1) ≡ khz + 1 = omega arith in
    let grown : mul64 shift 10 ≡ shift * 10 = omega arith in
    rw (settle_frequency, y, next, grown) refl

-- The rounds from a frequency and a unit on, with more fuel than the frequency.
settle_from :
    (fuel khz shift : ℕ)
    → khz < fuel
    → khz < 2 ^ 63
    → 0 < shift
    → shift < 2 ^ 63
    → (khz - 1) * shift < 2 ^ 63
    → (r : ℕ) × (settle_frequency fuel khz shift ≡ some r) × IsRounded khz shift r
unfolding settle_frequency
settle_from zero khz shift enough small pos unit fit = absurd (omega arith)
settle_from (suc fuel) khz shift enough small pos unit fit = elim (Bool-cases (leb 99 khz)) [
  | inr n ↦
      let whole : mul64 khz shift ≡ khz * shift = omega (arith, last_fits khz shift fit unit) in
      (
        khz * shift,
        rw (n, whole) refl,
        record {
          digits = khz;
          power = 0;
          two_digits = leb_false→lt 99 khz n;
          both_digits = inl refl;
          value = ap (λ x. x * shift) (sym (mul-one khz));
          not_less = omega (arith, mul-one khz);
          not_more = omega (arith, mul-one khz);
        },
      )
  | inl y ↦
      let big = leb→le 99 khz y in
      let g = (khz + 1) / 10 in
      let wide = shift_fits khz shift big fit in
      let (r, e, v) =
        settle_from fuel g (shift * 10) (omega arith) (omega arith) (omega arith) wide
          (step_fits khz shift big fit) in
      (
        r,
        settle-more fuel khz shift y small wide ∙ e,
        record {
          digits = v.digits;
          power = suc v.power;
          two_digits = v.two_digits;
          both_digits = inr (ten_digits (omega arith) v);
          value =
              v.value
              ∙ (ten_lem (v.digits * 10 ^ v.power) shift
                  ∙ ap (λ x. x * shift) (sym (ten_inner v.digits v.power)));
          not_less = omega (arith, ten_inner v.digits v.power, pow-suc 10 v.power, v.not_less);
          not_more = omega (arith, ten_inner v.digits v.power, pow-suc 10 v.power, v.not_more);
        },
      )
]

-- The rounding of a frequency below 2^63 ends, with more fuel than the frequency; the result is less
-- than 99 times a power of ten, and less than that power away from the frequency; where the power is
-- not 1, it is ten times it at least.
pub settle_frequency-IsRounded :
    (fuel khz : ℕ)
    → khz < fuel
    → khz < 2 ^ 63
    → (r : ℕ) × (settle_frequency fuel khz 1 ≡ some r) × IsRounded khz 1 r
settle_frequency-IsRounded fuel khz enough small =
    settle_from fuel khz 1 enough small (omega arith) (omega arith)
      (omega (arith, mul-one (khz - 1)))

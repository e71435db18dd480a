-- ===== src/Prelude/Bits.antt =====
-- A binary or of numbers whose digits do not meet: it is their sum.
use Prim.Native.Nat.{
  ℕ, zero, suc, ◌+◌, ◌*◌, ◌/◌, ◌%◌, ◌^◌, ◌≤◌, ◌<◌, max, digits, bit_or, bit_or-bitwise,
}
use mathlib.Core.Path.{◌≡◌, sym, ap, ◌∙◌}
use native.Mathlib.Omega.{arith}
use native.Mathlib.Nat.{pow-suc, mul_assoc}

-- The digits of both, lowest first, where `n` is enough digits for the first number.
either_above :
    (n k a b : ℕ) → a ≤ n → a < 2 ^ k → digits (λ y. y) max n a (b * 2 ^ k) ≡ a + b * 2 ^ k
either_above zero k a b enough below = let e : a ≡ 0 = omega arith in rw e (omega arith)
either_above (suc n) k zero b enough below = omega arith
either_above (suc n) zero (suc a) b enough below = absurd (omega arith)
either_above (suc n) (suc k) (suc a) b enough below =
    let shift : b * 2 ^ suc k ≡ b * 2 ^ k * 2 =
      ap (λ x. b * x) (pow-suc 2 k) ∙ sym (mul_assoc b (2 ^ k) 2) in
    let half : b * 2 ^ k * 2 / 2 ≡ b * 2 ^ k = omega arith in
    let even : b * 2 ^ k * 2 % 2 ≡ 0 = omega arith in
    let rest = either_above n k (suc a / 2) b (omega arith) (omega (arith, pow-suc 2 k)) in
    rw shift (rw (half, even, rest) (omega arith))

-- A number of `k` digits below one without them.
pub bit_or_above : (k a b : ℕ) → a < 2 ^ k → bit_or a (b * 2 ^ k) ≡ a + b * 2 ^ k
bit_or_above k a b below = bit_or-bitwise a (b * 2 ^ k) ∙ either_above a k a b (omega arith) below

-- ===== src/ByteOrder/Bytes.antt =====
-- The byte reversals, on the bytes of a word.
use strawberry_os.Prelude.{ℕ, ◌+◌, ◌*◌, ◌/◌, ◌%◌, ◌^◌, ◌<◌, ◌≡◌, ap, ◌∙◌, arith, List, [], ◌∷◌, All}
use mathlib.Core.Path.{ap₂}
use strawberry_os.ByteOrder.{reverse16, reverse32, reverse64}

-- The number with the given bytes, the lowest first.
abbrev pub from_bytes : List ℕ → ℕ
from_bytes [] = 0
from_bytes (b ∷ bs) = b + 256 * from_bytes bs

pub reverse16_bytes : (a b : ℕ) → a < 256 → b < 256 → reverse16 (a + b * 256) ≡ b + a * 256
unfolding reverse16
reverse16_bytes a b h k = omega arith

reverse32_halves :
    (l h : ℕ) → l < 2 ^ 16 → reverse32 (l + h * 2 ^ 16) ≡ reverse16 h + reverse16 l * 2 ^ 16
unfolding reverse32
reverse32_halves l h k =
    let lower : (l + h * 2 ^ 16) % 2 ^ 16 ≡ l = omega arith in
    let upper : (l + h * 2 ^ 16) / 2 ^ 16 ≡ h = omega arith in
    ap₂ (λ a b. reverse16 a + reverse16 b * 2 ^ 16) upper lower

reverse64_halves :
    (l h : ℕ) → l < 2 ^ 32 → reverse64 (l + h * 2 ^ 32) ≡ reverse32 h + reverse32 l * 2 ^ 32
unfolding reverse64
reverse64_halves l h k =
    let lower : (l + h * 2 ^ 32) % 2 ^ 32 ≡ l = omega arith in
    let upper : (l + h * 2 ^ 32) / 2 ^ 32 ≡ h = omega arith in
    ap₂ (λ a b. reverse32 a + reverse32 b * 2 ^ 32) upper lower

abbrev pub four : ℕ → ℕ → ℕ → ℕ → ℕ
four a b c d = (a + b * 256) + (c + d * 256) * 2 ^ 16

pub reverse32_bytes :
    (a b c d : ℕ) → a < 256 → b < 256 → c < 256 → d < 256 → reverse32 (four a b c d) ≡ four d c b a
reverse32_bytes a b c d ha hb hc hd =
    reverse32_halves (a + b * 256) (c + d * 256) (omega arith)
    ∙ ap₂ (λ x y. x + y * 2 ^ 16) (reverse16_bytes c d hc hd) (reverse16_bytes a b ha hb)

-- `__reverse64` of a number reverses its eight bytes.
reverse64_bytes :
    (a b c d e f g h : ℕ)
    → All (λ x. x < 256) (a ∷ b ∷ c ∷ d ∷ e ∷ f ∷ g ∷ h ∷ [])
    → reverse64 (from_bytes (a ∷ b ∷ c ∷ d ∷ e ∷ f ∷ g ∷ h ∷ []))
      ≡ from_bytes (h ∷ g ∷ f ∷ e ∷ d ∷ c ∷ b ∷ a ∷ [])
reverse64_bytes a b c d e f g h (ha, (hb, (hc, (hd, (he, (hf, (hg, (hh, _)))))))) =
    let whole : from_bytes (a ∷ b ∷ c ∷ d ∷ e ∷ f ∷ g ∷ h ∷ [])
        ≡ four a b c d + four e f g h * 2 ^ 32 =
      omega arith in
    ap reverse64 whole
    ∙ (reverse64_halves (four a b c d) (four e f g h) (omega arith)
        ∙ (ap₂ (λ x y. x + y * 2 ^ 32) (reverse32_bytes e f g h he hf hg hh)
              (reverse32_bytes a b c d ha hb hc hd)
            ∙ omega arith))

reverse16_twice : (x : ℕ) → x < 2 ^ 16 → reverse16 (reverse16 x) ≡ x
unfolding reverse16
reverse16_twice x h = omega arith

reverse16_bound : (x : ℕ) → x < 2 ^ 16 → reverse16 x < 2 ^ 16
unfolding reverse16
reverse16_bound x h = omega arith

reverse32_twice : (x : ℕ) → x < 2 ^ 32 → reverse32 (reverse32 x) ≡ x
unfolding reverse32
reverse32_twice x h =
    let l = x % 2 ^ 16 in
    let u = x / 2 ^ 16 in
    reverse32_halves (reverse16 u) (reverse16 l) (reverse16_bound u (omega arith))
    ∙ (ap₂ (λ a b. a + b * 2 ^ 16) (reverse16_twice l (omega arith))
          (reverse16_twice u (omega arith))
        ∙ omega arith)

reverse32_bound : (x : ℕ) → x < 2 ^ 32 → reverse32 x < 2 ^ 32
unfolding reverse32
reverse32_bound x h =
    omega (
      arith,
      reverse16_bound (x / 2 ^ 16) (omega arith),
      reverse16_bound (x % 2 ^ 16) (omega arith),
    )

-- `__reverse64` twice is the number.
reverse64_twice : (x : ℕ) → x < 2 ^ 64 → reverse64 (reverse64 x) ≡ x
unfolding reverse64
reverse64_twice x h =
    let l = x % 2 ^ 32 in
    let u = x / 2 ^ 32 in
    reverse64_halves (reverse32 u) (reverse32 l) (reverse32_bound u (omega arith))
    ∙ (ap₂ (λ a b. a + b * 2 ^ 32) (reverse32_twice l (omega arith))
          (reverse32_twice u (omega arith))
        ∙ omega arith)

-- `__reverse64` reverses the eight bytes of a number, and twice is the number.
pub reverse64-from_bytes :
    (a b c d e f g h : ℕ)
    → All (λ x. x < 256) (a ∷ b ∷ c ∷ d ∷ e ∷ f ∷ g ∷ h ∷ [])
    → (let x = from_bytes (a ∷ b ∷ c ∷ d ∷ e ∷ f ∷ g ∷ h ∷ []) in
        (reverse64 x ≡ from_bytes (h ∷ g ∷ f ∷ e ∷ d ∷ c ∷ b ∷ a ∷ []))
        × (reverse64 (reverse64 x) ≡ x))
reverse64-from_bytes a b c d e f g h v = (
  reverse64_bytes a b c d e f g h v,
  reverse64_twice (from_bytes (a ∷ b ∷ c ∷ d ∷ e ∷ f ∷ g ∷ h ∷ [])) (omega arith),
)

-- ===== src/Console/Number.antt =====
-- What `OUTPUTWORD` and `PRINTRAX` write, read back as a number.
use native.Mathlib.Nat.{
  pow-suc, mul_assoc, mod-lt, mod-eq_of_lt, mul-add-mod_self_right, div-add-mod', mod-one,
}
use strawberry_os.Prelude.{
  ℕ, zero, suc, ◌+◌, ◌*◌, ◌/◌, ◌%◌, ◌-◌, ◌^◌, ◌≤◌, ◌<◌, ◌≡◌, refl, sym, ap, ◌∙◌, List, [], ◌∷◌, ltb,
  ◌==◌, if◌then◌else◌, Bool-cases, arith, inl, inr, ◌⊎◌, All, length,
}
use strawberry_os.Console.{
  Screen, decimal_digits, hex_digits, hex_digit, output_word, print_rax, output_text,
}

-- The number that a text of digits writes, behind digits that write `acc`.
abbrev pub decimal_value : ℕ → List ℕ → ℕ
decimal_value acc [] = acc
decimal_value acc (d ∷ ds) = decimal_value (acc * 10 + (d - 48)) ds

abbrev pub hex_digit_value : ℕ → ℕ
hex_digit_value d = if ltb d 58 then d - 48 else d - 55

abbrev pub hex_value : ℕ → List ℕ → ℕ
hex_value acc [] = acc
hex_value acc (d ∷ ds) = hex_value (acc * 16 + hex_digit_value d) ds

-- The digits `0` to `9`, and with `A` to `F`.
abbrev pub IsDecimal : ℕ → Type 0
IsDecimal d = (48 ≤ d) × (d ≤ 57)

abbrev pub IsHex : ℕ → Type 0
IsHex d = IsDecimal d ⊎ ((65 ≤ d) × (d ≤ 70))

-- The first character of a text, and 0 of an empty one.
abbrev pub first : List ℕ → ℕ
first [] = 0
first (d ∷ ds) = d

-- A decimal number without zeros in front: `0`, or digits of which the first is another.
abbrev pub IsNumeral : List ℕ → Type 0
IsNumeral ds = All IsDecimal ds × ((ds ≡ 48 ∷ []) ⊎ (48 < first ds))

decimal_digits_lem :
    (n x : ℕ) (buf : List ℕ)
    → x < 10 ^ n
    → All IsDecimal buf
    → (decimal_value 0 (decimal_digits n x buf) ≡ decimal_value x buf)
      × All IsDecimal (decimal_digits n x buf)
unfolding decimal_digits
decimal_digits_lem zero x buf h v = let e : x ≡ 0 = omega arith in (rw e refl, v)
decimal_digits_lem (suc n) x buf h v = elim (Bool-cases (x == 0)) [
  | inl y ↦ let e : x ≡ 0 = ground arith in rw y (rw e refl, v)
  | inr k ↦
      let power : x < 10 ^ n * 10 = rw (pow-suc 10 n) at h in
      let (e, w) =
        decimal_digits_lem n (x / 10) ((x % 10 + 48) ∷ buf) (omega arith) (omega arith, v) in
      let digit : x / 10 * 10 + (x % 10 + 48 - 48) ≡ x = omega arith in
      rw k (e ∙ ap (λ a. decimal_value a buf) digit, w)
]

-- Of a number that is not 0, the first digit is not 0.
first-decimal_digits :
    (n x : ℕ) (buf : List ℕ)
    → x < 10 ^ n
    → (0 < x) ⊎ (48 < first buf)
    → 48 < first (decimal_digits n x buf)
unfolding decimal_digits
first-decimal_digits zero x buf h (inl p) = absurd (omega arith)
first-decimal_digits zero x buf h (inr f) = f
first-decimal_digits (suc n) x buf h p = elim (Bool-cases (x == 0)) [
  | inl y ↦ rw y (grind arith)
  | inr k ↦
      let power : x < 10 ^ n * 10 = rw (pow-suc 10 n) at h in
      let next : (0 < x / 10) ⊎ (48 < x % 10 + 48) = ground arith in
      rw k (first-decimal_digits n (x / 10) ((x % 10 + 48) ∷ buf) (omega arith) next)
]

hex_digit_value-hex_digit : (d : ℕ) → d < 16 → hex_digit_value (hex_digit d) ≡ d
hex_digit_value-hex_digit d h = ground arith

hex_digit_lem : (d : ℕ) → d < 16 → IsHex (hex_digit d)
hex_digit_lem d h = ground arith

power_pos : (s : ℕ) → 0 < 16 ^ s
power_pos zero = omega arith
power_pos (suc s) = omega (arith, pow-suc 16 s, power_pos s)

-- The lowest digit of a number of `suc s` digits, and the others.
low_digits : (s x : ℕ) → x % 16 ^ suc s ≡ x / 16 % 16 ^ s * 16 + x % 16
low_digits s x =
    let m = 16 ^ s in
    let q = x / 16 / m in
    let c = x / 16 % m * 16 + x % 16 in
    let below = mod-lt (x / 16) {m = m} (power_pos s) in
    let whole : x ≡ q * (m * 16) + c = omega (arith, div-add-mod' (x / 16) m, mul_assoc q m 16) in
    let lowest : c % (m * 16) ≡ c = mod-eq_of_lt (omega arith) in
    ap (λ k. x % k) (pow-suc 16 s)
    ∙ (ap (λ y. y % (m * 16)) whole ∙ (mul-add-mod_self_right q (m * 16) c ∙ lowest))

hex_digits_lem :
    (s x : ℕ) (buf : List ℕ)
    → All IsHex buf
    → (hex_value 0 (hex_digits s x buf) ≡ hex_value (x % 16 ^ s) buf)
      × All IsHex (hex_digits s x buf)
      × (length (hex_digits s x buf) ≡ s + length buf)
unfolding hex_digits
hex_digits_lem zero x buf v = (ap (λ a. hex_value a buf) (sym (mod-one x)), v, omega arith)
hex_digits_lem (suc s) x buf v =
    let d = hex_digit (x % 16) in
    let (e, w, l) = hex_digits_lem s (x / 16) (d ∷ buf) (hex_digit_lem (x % 16) (omega arith), v) in
    let last = hex_digit_value-hex_digit (x % 16) (omega arith) in
    let whole : x / 16 % 16 ^ s * 16 + hex_digit_value d ≡ x % 16 ^ suc s =
      omega (arith, last, low_digits s x) in
    (e ∙ ap (λ a. hex_value a buf) whole, w, omega (arith, l))

-- `OUTPUTWORD` writes a decimal number without zeros in front, which is the number that it is given;
-- `PRINTRAX` with at most 16 places writes as many digits, which are the number in base 16 without its
-- digits above them.
pub output_word-print_rax :
    (screen : Screen) (x s : ℕ)
    → x < 2 ^ 64
    → s ≤ 16
    → ((ds : List ℕ) × (output_word screen x ≡ output_text screen ds)
        × IsNumeral ds
        × (decimal_value 0 ds ≡ x))
      × ((hs : List ℕ) × (print_rax screen x s ≡ output_text screen hs)
          × All IsHex hs
          × (length hs ≡ s)
          × (hex_value 0 hs ≡ x % 16 ^ s))
unfolding output_word print_rax
output_word-print_rax screen x s h room =
    let (e, w, l) = hex_digits_lem s x [] tt in
    (
      elim (Bool-cases (x == 0)) [
        | inl y ↦
            let e : 0 ≡ x = ground arith in
            rw y (48 ∷ [], refl, (((omega arith, omega arith), tt), inl refl), e)
        | inr n ↦
            let some_digits : 0 < x = ground arith in
            let (value, digits) = decimal_digits_lem 32 x [] (omega arith) tt in
            rw n (
              decimal_digits 32 x [],
              refl,
              (digits, inr (first-decimal_digits 32 x [] (omega arith) (inl some_digits))),
              value,
            )
      ],
      (hex_digits s x [], refl, w, omega (arith, l), e),
    )

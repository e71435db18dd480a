-- ===== src/Strings.antt =====
-- KERNEL/SOURCE/common/string.c: `strlen` and `LeadingWhitespace`.
--
-- The memory is a function from an address to a byte. A `char` is signed, so a byte of 128 or more is
-- less than a space.
pub mod Trim
mod Tests
use strawberry_os.Prelude.{ℕ, zero, suc, ◌+◌, ◌-◌, ◌≤◌, Bool, ltb, leb, ◌==◌, ◌||◌, if◌then◌else◌}

abbrev pub store_char : (ℕ → ℕ) → ℕ → ℕ → ℕ → ℕ
store_char a i x k = if k == i then x else a k

-- `c <= 0x20`
abbrev pub is_blank : ℕ → Bool
is_blank c = leb c 0x20 || leb 0x80 c

-- `while (end > beg && *--end <= 0x20)`, where `end` is `n` behind `beg`: the memory, and where `end`
-- stops.
unfoldable pub trim_end : (ℕ → ℕ) → ℕ → ℕ → (ℕ → ℕ) × ℕ
trim_end a beg zero = (a, beg)
trim_end a beg (suc n) =
    let rest = trim_end (store_char a (beg + n) 0) beg n in
    if is_blank (a (beg + n)) then rest else (a, beg + n)

-- `while (beg < end && *beg <= 0x20)`, where `end` is `n` behind `beg`.
unfoldable pub skip_blanks : (ℕ → ℕ) → ℕ → ℕ → ℕ
skip_blanks a beg zero = beg
skip_blanks a beg (suc n) =
    let rest = skip_blanks a (beg + 1) n in if is_blank (a beg) then rest else beg

-- `strlen`, for a text that ends within `fuel` bytes.
unfoldable pub strlen : ℕ → (ℕ → ℕ) → ℕ → ℕ
strlen zero a x = 0
strlen (suc fuel) a x = let rest = strlen fuel a (x + 1) in if a x == 0 then 0 else suc rest

-- `LeadingWhitespace`: the memory, and the pointer that it returns.
unfoldable pub leading_whitespace : (ℕ → ℕ) → ℕ → ℕ → (ℕ → ℕ) × ℕ
leading_whitespace a beg end =
    let (trimmed, last) = trim_end a beg (end - beg) in
    (trimmed, skip_blanks trimmed beg (last - beg))

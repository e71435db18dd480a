-- ===== src/ByteOrder.antt =====
-- KERNEL/SOURCE/intrinsic.c: the byte reversals of a word.
--
-- The halves of a number are its quotient and remainder, as a little-endian machine stores them.
pub mod Bytes
mod Tests
use strawberry_os.Prelude.{ℕ, ◌+◌, ◌*◌, ◌/◌, ◌%◌, ◌^◌, u16}

-- `__reverse16`: `(x << 8) | (x >> 8)`, cut to a `WORD`.
unfoldable pub reverse16 : ℕ → ℕ
reverse16 x = u16 (x * 2 ^ 8) + x / 2 ^ 8

-- `__reverse32`
unfoldable pub reverse32 : ℕ → ℕ
reverse32 x = reverse16 (x / 2 ^ 16) + reverse16 (x % 2 ^ 16) * 2 ^ 16

-- `__reverse64`
unfoldable pub reverse64 : ℕ → ℕ
reverse64 x = reverse32 (x / 2 ^ 32) + reverse32 (x % 2 ^ 32) * 2 ^ 32

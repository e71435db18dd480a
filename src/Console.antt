-- ===== src/Console.antt =====
-- KERNEL/SOURCE/console/console.c: the text screen.
--
-- The text buffer is a function from the index of a cell, a `WORD` with the character and its colour,
-- and the frame buffer of graphics mode one from the index of a pixel. `ports` are the bytes written
-- to ports, the last first. A screen has at least one row and one column.
pub mod Bounds
pub mod Number
mod Tests
use strawberry_os.Prelude.{
  ℕ, zero, suc, ◌+◌, ◌*◌, ◌/◌, ◌%◌, ◌-◌, ◌^◌, List, [], ◌∷◌, ◌++◌, ltb, leb, ◌==◌, ◌&&◌,
  if◌then◌else◌, u8, u16, u32, get_or, Bool,
}

-- `CONSOLE_SCREEN`, `TEXT_MODE_MEMORY` and `FONT`.
pub record Screen : Type 0 where
  pub text : ℕ → ℕ
  pub pixels : ℕ → ℕ
  pub font : ℕ → ℕ → ℕ
  pub h : ℕ
  pub row : ℕ
  pub clm : ℕ
  pub csr : ℕ
  pub clr : ℕ
  pub dm : Bool
  pub cursor : ℕ
  pub ports : List (ℕ × ℕ)

-- `COLOR_PALETTE`
abbrev pub color_palette : List ℕ
color_palette =
    0x000000 ∷ 0x0000AA ∷ 0x00AA00 ∷ 0x00AAAA ∷ 0xAA0000 ∷ 0xAA00AA ∷ 0xFFAA00 ∷ 0xAAAAAA ∷ 0x555555
    ∷ 0x5555FF ∷ 0x55FF55 ∷ 0x55FFFF ∷ 0xFF5555 ∷ 0xFF55FF ∷ 0xFFFF55 ∷ 0xFFFFFF ∷ []

-- `a[i] = x`
abbrev pub put : (ℕ → ℕ) → ℕ → ℕ → ℕ → ℕ
put a i x k = if k == i then x else a k

-- Where the pixels of a cell begin.
abbrev pub cell_position : Screen → ℕ → ℕ
cell_position s cursor = u32 (s.h * (cursor / s.clm) * 16) + cursor % s.clm * 8

-- The lines of `PAINTCURSOR`.
pub paint_cursor_lines : ℕ → (ℕ → ℕ) → ℕ → ℕ → ℕ → ℕ → ℕ
paint_cursor_lines zero pixels pos h color = pixels
paint_cursor_lines (suc n) pixels pos h color =
    paint_cursor_lines n (put (put pixels (pos + 1) color) pos color) (pos + h) h color

-- `PAINTCURSOR`
pub paint_cursor : Screen → ℕ → Screen
paint_cursor s cursor = record s {
  pixels =
      paint_cursor_lines 16 s.pixels (cell_position s cursor) s.h
        (get_or color_palette (s.clr % 16) 0);
}

-- One line of `PAINTCHAR`: the bits of the font from the highest.
pub paint_bits : ℕ → (ℕ → ℕ) → ℕ → ℕ → ℕ → ℕ → ℕ
paint_bits zero pixels pos bit c = pixels
paint_bits (suc n) pixels pos bit c =
    let color =
      if bit / 128 % 2 == 1
      then get_or color_palette (c % 16) 0
      else get_or color_palette (c / 16 % 16) 0 in
    paint_bits n (put pixels pos color) (pos + 1) (u8 (bit * 2)) c

pub paint_char_lines : ℕ → (ℕ → ℕ) → ℕ → ℕ → (ℕ → ℕ) → ℕ → ℕ → ℕ → ℕ
paint_char_lines zero pixels pos h font k c = pixels
paint_char_lines (suc n) pixels pos h font k c =
    paint_char_lines n (paint_bits 8 pixels pos (font k) c) (pos + h) h font (k + 1) c

-- `PAINTCHAR`
pub paint_char : Screen → ℕ → ℕ → ℕ → Screen
paint_char s x c cursor = record s {
  pixels = paint_char_lines 16 s.pixels (cell_position s cursor) s.h (s.font x) 0 c;
}

-- `memcpy(a, a + from, keep)` and then `memset(a + keep, 0, from)`.
abbrev pub scroll_up : (ℕ → ℕ) → ℕ → ℕ → ℕ → ℕ
scroll_up a keep from i =
    if ltb i keep then a (i + from) else if ltb i (keep + from) then 0 else a i

-- `SCROLLSCREEN`. A cursor is a `DWORD`.
unfoldable pub scroll_screen : Screen → Screen
scroll_screen s =
    let scrolled = record s {
      text = scroll_up s.text (s.clm * (s.row - 1)) s.clm;
      csr = u32 (s.csr + 2 ^ 32 - s.clm);
    } in
    if s.dm
    then record scrolled {
      pixels = scroll_up s.pixels (s.h * 16 * (s.row - 1)) (s.h * 16);
      cursor = u32 (s.cursor + 2 ^ 32 - s.clm);
    }
    else scrolled

-- The cursor of `MOVECURSOR`, on the frame buffer or in the registers of the display.
unfoldable pub show_cursor : Screen → Screen
show_cursor s =
    let cell = s.text s.cursor in
    let painted = paint_char s (cell % 256) (cell / 256) s.cursor in
    if s.dm then paint_cursor (record painted { cursor = s.csr }) s.csr else record s {
      ports =
          (0x03D5, u8 s.csr)
          ∷ (0x03D4, 0x0F)
          ∷ (0x03D5, u8 (s.csr / 256))
          ∷ (0x03D4, 0x0E)
          ∷ s.ports;
    }

-- `MOVECURSOR`
unfoldable pub move_cursor : Screen → Screen
move_cursor s = show_cursor (if leb (s.row * s.clm) s.csr then scroll_screen s else s)

-- `(WORD) x | (SCREEN.CLR << 8)`: a `char` is signed, so the cast extends the sign.
abbrev pub cell_word : ℕ → ℕ → ℕ
cell_word x clr = if ltb x 128 then x + clr * 256 else x + 0xFF00

-- One round of `OUTPUTTEXT`.
unfoldable pub output_char : Screen → ℕ → Screen
output_char s x =
    let line = s.csr - s.csr % s.clm in
    if x == 13
    then move_cursor (record s { csr = line })
    else if x == 10
    then move_cursor (record s { csr = u32 (line + s.clm) })
    else move_cursor
        (record s { text = put s.text s.csr (cell_word x s.clr); csr = u32 (s.csr + 1) })

-- `OUTPUTTEXT`, on the characters before the null character.
unfoldable pub output_text : Screen → List ℕ → Screen
output_text s [] = s
output_text s (x ∷ xs) = output_text (output_char s x) xs

-- `HEXDIG`
abbrev pub hex_digit : ℕ → ℕ
hex_digit d = if ltb d 10 then d + 48 else d + 55

-- The buffer of `PRINTRAX`, of `s` digits in front of the digits of the rest. C has room in it for 16
-- digits, and defines nothing for a larger `s`.
unfoldable pub hex_digits : ℕ → ℕ → List ℕ → List ℕ
hex_digits zero x buf = buf
hex_digits (suc s) x buf = hex_digits s (x / 16) (hex_digit (x % 16) ∷ buf)

-- `PRINTRAX`
unfoldable pub print_rax : Screen → ℕ → ℕ → Screen
print_rax screen x s = output_text screen (hex_digits s x [])

-- The buffer of `OUTPUTWORD`, filled from its end; the fuel is the size of the buffer.
unfoldable pub decimal_digits : ℕ → ℕ → List ℕ → List ℕ
decimal_digits zero x buf = buf
decimal_digits (suc n) x buf =
    let more = decimal_digits n (x / 10) ((x % 10 + 48) ∷ buf) in if x == 0 then buf else more

-- `OUTPUTWORD`
unfoldable pub output_word : Screen → ℕ → Screen
output_word screen x =
    if x == 0 then output_text screen (48 ∷ []) else output_text screen (decimal_digits 32 x [])

-- `OUTCHAR`: the null character ends the text.
unfoldable pub out_char : Screen → ℕ → Screen
out_char s x = output_text s (if u8 x == 0 then [] else u8 x ∷ [])

unfoldable pub carriage_return : Screen → Screen
carriage_return s = out_char s 13

unfoldable pub line_feed : Screen → Screen
line_feed s = out_char s 10

-- `setup_screen`, with the font of the loader and the height `v` in pixels; `text` is the memory that
-- becomes the text buffer, at `SCREEN.A0` or from `HeapAlloc`. The sizes are products of `int`s, for
-- which C defines no overflow.
unfoldable pub setup_screen : (ℕ → ℕ → ℕ) → ℕ → Screen → Screen
setup_screen font v s = record s {
  font = font;
  csr = 0;
  clr = 0x0F;
  pixels = λ p. if s.dm && ltb p (u32 (s.h * v * 4) / 4) then 0 else s.pixels p;
  text = λ p. if ltb p (u32 (s.clm * s.row * 2) / 2) then 0 else s.text p;
  cursor = 0;
}

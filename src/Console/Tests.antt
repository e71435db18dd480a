-- ===== src/Console/Tests.antt =====
-- The text screen at concrete inputs.
use strawberry_os.Prelude.{ℕ, ◌≡◌, refl, List, [], ◌∷◌, All, length, arith, false}
use strawberry_os.Console.{Screen, output_text, decimal_digits, output_word, print_rax}
use strawberry_os.Console.Bounds.{IsKept, IsKept-output_text}
use strawberry_os.Console.Number.{decimal_value, hex_value, IsNumeral, IsHex, output_word-print_rax}

-- A screen of 2 rows and 4 columns in text mode.
abbrev small_screen : Screen
small_screen = record {
  text = λ i. 0;
  pixels = λ i. 0;
  font = λ x k. 0;
  h = 32;
  row = 2;
  clm = 4;
  csr = 3;
  clr = 15;
  dm = false;
  cursor = 0;
  ports = [];
}

IsKept-output_text_example :
    IsKept small_screen (output_text small_screen (65 ∷ 10 ∷ 66 ∷ 13 ∷ 67 ∷ []))
IsKept-output_text_example = IsKept-output_text small_screen (65 ∷ 10 ∷ 66 ∷ 13 ∷ 67 ∷ []) (record {
  some_rows = omega arith;
  some_columns = omega arith;
  fits_dword = omega arith;
  cursor_inside = omega arith;
})

digits_of_1024 : decimal_digits 32 1024 [] ≡ 49 ∷ 48 ∷ 50 ∷ 52 ∷ []
unfolding decimal_digits
digits_of_1024 = refl

output_word-print_rax_example :
    ((ds : List ℕ) × (output_word small_screen 48879 ≡ output_text small_screen ds)
      × IsNumeral ds
      × (decimal_value 0 ds ≡ 48879))
    × ((hs : List ℕ) × (print_rax small_screen 48879 4 ≡ output_text small_screen hs)
        × All IsHex hs
        × (length hs ≡ 4)
        × (hex_value 0 hs ≡ 48879))
output_word-print_rax_example =
    output_word-print_rax small_screen 48879 4 (omega arith) (omega arith)

zero_of_output_word : output_word small_screen 0 ≡ output_text small_screen (48 ∷ [])
unfolding output_word
zero_of_output_word = refl

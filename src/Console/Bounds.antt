-- ===== src/Console/Bounds.antt =====
-- The cursor stays on the screen, and the text is written inside the text buffer.
use mathlib.Core.Path.{ap₂}
use native.Mathlib.Nat.{mul_comm, mul-suc}
use strawberry_os.Prelude.{
  ℕ, zero, suc, ◌+◌, ◌*◌, ◌%◌, ◌-◌, ◌^◌, ◌≤◌, ◌<◌, ◌≡◌, refl, ◌∙◌, List, [], ◌∷◌, ltb, leb, ◌==◌,
  u32, Bool-cases, false, arith, inl, inr, leb→le, leb_false→lt,
}
use strawberry_os.Console.{
  Screen, put, paint_cursor, paint_char, scroll_up, scroll_screen, show_cursor, move_cursor,
  output_char, output_text, cell_word,
}

-- At least one row and one column, few enough for a `DWORD` to count the cells and those of one more
-- row, and the cursor on the screen.
pub record IsOnScreen (s : Screen) : Type 0 where
  pub some_rows : 0 < s.row
  pub some_columns : 0 < s.clm
  pub fits_dword : s.row * s.clm + s.clm < 2 ^ 32
  pub cursor_inside : s.csr < s.row * s.clm

-- What output leaves: the screen has the same size, the cursor is on it, and no cell outside was
-- written.
pub record IsKept (s t : Screen) : Type 0 where
  pub same_row : t.row ≡ s.row
  pub same_clm : t.clm ≡ s.clm
  pub inside : IsOnScreen t
  pub outside : (i : ℕ) → s.row * s.clm ≤ i → t.text i ≡ s.text i

show_cursor_keeps :
    (s : Screen)
    → ((show_cursor s).row ≡ s.row)
      × ((show_cursor s).clm ≡ s.clm)
      × ((show_cursor s).csr ≡ s.csr)
      × ((i : ℕ) → (show_cursor s).text i ≡ s.text i)
unfolding show_cursor paint_cursor paint_char
show_cursor_keeps s = elim (Bool-cases s.dm) [
  | inl y ↦ rw y (refl, refl, refl, λ i. refl)
  | inr n ↦ rw n (refl, refl, refl, λ i. refl)
]

scroll_screen_keeps :
    (s : Screen)
    → ((scroll_screen s).row ≡ s.row)
      × ((scroll_screen s).clm ≡ s.clm)
      × ((scroll_screen s).csr ≡ u32 (s.csr + 2 ^ 32 - s.clm))
      × ((i : ℕ) → (scroll_screen s).text i ≡ scroll_up s.text (s.clm * (s.row - 1)) s.clm i)
unfolding scroll_screen
scroll_screen_keeps s = elim (Bool-cases s.dm) [
  | inl y ↦ rw y (refl, refl, refl, λ i. refl)
  | inr n ↦ rw n (refl, refl, refl, λ i. refl)
]

-- The last row and those above it.
rows_lem : (row clm : ℕ) → 0 < row → clm * (row - 1) + clm ≡ row * clm
rows_lem zero clm h = absurd (omega arith)
rows_lem (suc n) clm h =
    let e : suc n - 1 ≡ n = omega arith in rw (e, mul_comm (suc n) clm, mul-suc clm n) refl

-- A screen of the size of another, with a cursor at most one row behind its end, and the same text
-- outside.
record IsMoving (s t : Screen) : Type 0 where
  same_row : t.row ≡ s.row
  same_clm : t.clm ≡ s.clm
  almost : t.csr < s.row * s.clm + s.clm
  outside : (i : ℕ) → s.row * s.clm ≤ i → t.text i ≡ s.text i

put_other : (a : ℕ → ℕ) (i x k : ℕ) → i < k → put a i x k ≡ a k
put_other a i x k h = let e : (k == i) ≡ false = ground arith in rw e refl

IsKept-fields :
    (s u : Screen)
    → IsOnScreen s
    → u.row ≡ s.row
    → u.clm ≡ s.clm
    → u.csr < s.row * s.clm
    → ((i : ℕ) → s.row * s.clm ≤ i → u.text i ≡ s.text i)
    → IsKept s u
IsKept-fields s u on er ec lt out =
    let size : u.row * u.clm ≡ s.row * s.clm = ap₂ (λ a b. a * b) er ec in
    record {
      same_row = er;
      same_clm = ec;
      inside = record {
        some_rows = omega (arith, on.some_rows);
        some_columns = omega (arith, on.some_columns);
        fits_dword = omega (arith, on.fits_dword);
        cursor_inside = omega arith;
      };
      outside = out;
    }

scroll_up_outside :
    (a : ℕ → ℕ) (keep count i : ℕ) → keep + count ≤ i → scroll_up a keep count i ≡ a i
scroll_up_outside a keep count i h =
    let x : ltb i keep ≡ false = ground arith in
    let y : ltb i (keep + count) ≡ false = ground arith in rw (x, y) refl

IsKept-scroll :
    (s t : Screen)
    → IsOnScreen s
    → IsMoving s t
    → s.row * s.clm ≤ t.csr
    → IsKept s (show_cursor (scroll_screen t))
IsKept-scroll s t on m high =
    let rows = rows_lem s.row s.clm on.some_rows in
    let trows : t.clm * (t.row - 1) + t.clm ≡ s.row * s.clm = rw (m.same_row, m.same_clm) rows in
    let (kr, kc, kx, kt) = scroll_screen_keeps t in
    let (sr, sc, sx, stx) = show_cursor_keeps (scroll_screen t) in
    let clm_t = m.same_clm in
    let back : u32 (t.csr + 2 ^ 32 - t.clm) < s.row * s.clm =
      omega (arith, m.almost, on.fits_dword, m.same_clm) in
    IsKept-fields s (show_cursor (scroll_screen t)) on (sr ∙ (kr ∙ m.same_row))
      (sc ∙ (kc ∙ m.same_clm)) (rw (sx ∙ kx) back)
      (λ i le. stx i ∙ (kt i ∙ (scroll_up_outside t.text _ t.clm i (omega arith) ∙ m.outside i le)))

IsKept-move_cursor : (s t : Screen) → IsOnScreen s → IsMoving s t → IsKept s (move_cursor t)
unfolding move_cursor
IsKept-move_cursor s t on m =
    let size : t.row * t.clm ≡ s.row * s.clm = ap₂ (λ a b. a * b) m.same_row m.same_clm in
    elim (Bool-cases (leb (t.row * t.clm) t.csr)) [
      | inl y ↦ rw y (IsKept-scroll s t on m (omega (arith, leb→le _ _ y)))
      | inr n ↦
          let (sr, sc, sx, stx) = show_cursor_keeps t in
          rw n (
            IsKept-fields s (show_cursor t) on (sr ∙ m.same_row) (sc ∙ m.same_clm)
              (omega (arith, leb_false→lt _ _ n)) (λ i le. stx i ∙ m.outside i le))
    ]

IsKept-output_char : (s : Screen) (x : ℕ) → IsOnScreen s → IsKept s (output_char s x)
unfolding output_char
IsKept-output_char s x on =
    let line = s.csr - s.csr % s.clm in
    elim (Bool-cases (x == 13)) [
      | inl y ↦ rw y (
          IsKept-move_cursor s (record s { csr = line }) on
            (record {
              same_row = refl;
              same_clm = refl;
              almost = omega (arith, on.cursor_inside);
              outside = λ i le. refl;
            }))
      | inr n ↦ elim (Bool-cases (x == 10)) [
        | inl y ↦
            rw (n, y)
              (IsKept-move_cursor s (record s { csr = u32 (line + s.clm) }) on
                (record {
                  same_row = refl;
                  same_clm = refl;
                  almost = omega (arith, on.cursor_inside, on.fits_dword);
                  outside = λ i le. refl;
                }))
        | inr k ↦
            rw (n, k)
              (IsKept-move_cursor s
                (record s { text = put s.text s.csr (cell_word x s.clr); csr = u32 (s.csr + 1) }) on
                (record {
                  same_row = refl;
                  same_clm = refl;
                  almost = omega (arith, on.cursor_inside, on.fits_dword, on.some_columns);
                  outside = λ i le.
                      put_other s.text s.csr (cell_word x s.clr) i
                        (omega (arith, on.cursor_inside));
                }))
      ]
    ]

-- `OUTPUTTEXT` of any text: the screen has the same size, the cursor is on it afterwards, and no cell
-- outside the text buffer was written.
pub IsKept-output_text : (s : Screen) (xs : List ℕ) → IsOnScreen s → IsKept s (output_text s xs)
unfolding output_text
IsKept-output_text s [] on = record {
  same_row = refl;
  same_clm = refl;
  inside = on;
  outside = λ i le. refl;
}
IsKept-output_text s (x ∷ xs) on =
    let k = IsKept-output_char s x on in
    let r = IsKept-output_text (output_char s x) xs k.inside in
    let size : (output_char s x).row * (output_char s x).clm ≡ s.row * s.clm =
      ap₂ (λ a b. a * b) k.same_row k.same_clm in
    record {
      same_row = r.same_row ∙ k.same_row;
      same_clm = r.same_clm ∙ k.same_clm;
      inside = r.inside;
      outside = λ i le. r.outside i (omega arith) ∙ k.outside i le;
    }

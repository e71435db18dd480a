-- ===== src/Strings/Trim.antt =====
-- What `LeadingWhitespace` clears, and what it returns.
use strawberry_os.Prelude.{
  ℕ, zero, suc, ◌+◌, ◌-◌, ◌≤◌, ◌<◌, ◌≡◌, ◌≢◌, refl, sym, ap, ◌∙◌, true, false, ◌==◌, Bool-cases,
  arith, inl, inr, ◌⊎◌, ==_iff,
}
use mathlib.Core.Path.{subst}
use strawberry_os.Strings.{store_char, is_blank, trim_end, skip_blanks, leading_whitespace}

-- The text from `beg` to `end` was cut to end at `m`: what lies behind was blank, and is cleared, and
-- no other place was written. A text that is not empty ends with a character that is no blank.
pub record IsTrimmed (a : ℕ → ℕ) (beg end : ℕ) (b : ℕ → ℕ) (m : ℕ) : Type 0 where
  pub in_range : (beg ≤ m) × (m ≤ end)
  pub kept : (k : ℕ) → (k < m) ⊎ (end ≤ k) → b k ≡ a k
  pub cleared : (k : ℕ) → m ≤ k → k < end → (is_blank (a k) ≡ true) × (b k ≡ 0)
  pub last_kept : (m ≡ beg) ⊎ (is_blank (a (m - 1)) ≡ false)

char_other : (a : ℕ → ℕ) (i x k : ℕ) → k ≢ i → store_char a i x k ≡ a k
char_other a i x k ne = let e : (k == i) ≡ false = ground arith in rw e refl

char_same : (a : ℕ → ℕ) (i x : ℕ) → store_char a i x i ≡ x
char_same a i x = rw ((==_iff i i).1 refl) refl

trim_end_lem :
    (a : ℕ → ℕ) (beg n : ℕ)
    → (m : ℕ) × IsTrimmed a beg (beg + n) (trim_end a beg n).0 m
      × (((m ≡ beg) × ((trim_end a beg n).1 ≡ beg)) ⊎ ((beg < m) × ((trim_end a beg n).1 ≡ m - 1)))
unfolding trim_end
trim_end_lem a beg zero = (
  beg,
  record {
    in_range = omega arith;
    kept = λ k h. refl;
    cleared = λ k lo hi. absurd (omega arith);
    last_kept = inl refl;
  },
  inl (refl, refl),
)
trim_end_lem a beg (suc n) = elim (Bool-cases (is_blank (a (beg + n)))) [
  | inl y ↦
      let a' = store_char a (beg + n) 0 in
      let (m, t, stop) = trim_end_lem a' beg n in
      rw y (
        m,
        record {
          in_range = omega (arith, t.in_range);
          kept = λ k h.
              t.kept k (elim h [ inl lo ↦ inl lo | inr hi ↦ inr (omega arith) ])
              ∙ char_other a (beg + n) 0 k (omega (arith, t.in_range));
          cleared = λ k lo hi. cleared_more k m t lo hi y;
          last_kept = elim t.last_kept [
            | inl e ↦ inl e
            | inr nb ↦ elim (Bool-cases (m == beg)) [
              | inl e ↦ inl ((==_iff m beg).0 e)
              | inr ne ↦ inr (
                  ap is_blank (sym (char_other a (beg + n) 0 (m - 1) (ground (arith, t.in_range))))
                  ∙ nb)
            ]
          ];
        },
        stop,
      )
  | inr k ↦ rw k (
    beg + n + 1,
    record {
      in_range = omega arith;
      kept = λ q h. refl;
      cleared = λ q lo hi. absurd (omega arith);
      last_kept = inr (subst (λ q. is_blank (a q) ≡ false) (omega arith) k);
    },
    inr (omega arith, omega arith),
  )
]
  where
    cleared_more :
        (k m : ℕ)
        → IsTrimmed
            (store_char a (beg + n) 0)
            beg
            (beg + n)
            (trim_end (store_char a (beg + n) 0) beg n).0
            m
        → m ≤ k
        → k < beg + suc n
        → is_blank (a (beg + n)) ≡ true
        → (is_blank (a k) ≡ true) × ((trim_end (store_char a (beg + n) 0) beg n).0 k ≡ 0)
    cleared_more k m t lo hi y = elim (Bool-cases (k == beg + n)) [
      | inl e ↦
          let same : k ≡ beg + n = (==_iff k (beg + n)).0 e in
          (
            ap (λ q. is_blank (a q)) same ∙ y,
            t.kept k (inr (omega arith))
                ∙ (ap (store_char a (beg + n) 0) same ∙ char_same a (beg + n) 0),
          )
      | inr ne ↦
          let other : k ≢ beg + n = λ e. absurd (ground arith) in
          let (bl, z) = t.cleared k lo (ground arith) in
          (ap is_blank (sym (char_other a (beg + n) 0 k other)) ∙ bl, z)
    ]

skip_blanks_lem :
    (b : ℕ → ℕ) (beg n : ℕ)
    → let r = skip_blanks b beg n in
      (beg ≤ r)
      × (r ≤ beg + n)
      × ((k : ℕ) → beg ≤ k → k < r → is_blank (b k) ≡ true)
      × ((r ≡ beg + n) ⊎ (is_blank (b r) ≡ false))
unfolding skip_blanks
skip_blanks_lem b beg zero =
    (omega arith, omega arith, λ k lo hi. absurd (omega arith), inl (omega arith))
skip_blanks_lem b beg (suc n) = elim (Bool-cases (is_blank (b beg))) [
  | inl y ↦
      let (lo, hi, blanks, stop) = skip_blanks_lem b (beg + 1) n in
      rw y (
        omega arith,
        omega arith,
        λ k l h. elim (Bool-cases (k == beg)) [
          | inl e ↦ ap (λ q. is_blank (b q)) ((==_iff k beg).0 e) ∙ y
          | inr ne ↦ blanks k (ground arith) h
        ],
        elim stop [ inl e ↦ inl (e ∙ omega arith) | inr nb ↦ inr nb ],
      )
  | inr k ↦ rw k (omega arith, omega arith, λ q lo hi. absurd (omega arith), inr k)
]

-- Where the text begins: what lies before is blank, and the text is empty or begins with a character
-- that is no blank.
pub record IsStart (b : ℕ → ℕ) (beg m r : ℕ) : Type 0 where
  pub in_front : beg ≤ r
  pub blanks : (k : ℕ) → beg ≤ k → k < r → is_blank (b k) ≡ true
  pub first : ((m ≡ beg) × (r ≡ beg)) ⊎ ((r < m) × (is_blank (b r) ≡ false))

start_lem :
    (a : ℕ → ℕ) (beg n : ℕ) (b : ℕ → ℕ) (last m : ℕ)
    → IsTrimmed a beg (beg + n) b m
    → ((m ≡ beg) × (last ≡ beg)) ⊎ ((beg < m) × (last ≡ m - 1))
    → IsStart b beg m (skip_blanks b beg (last - beg))
start_lem a beg n b last m t stop =
    let (lo, hi, blanks, found) = skip_blanks_lem b beg (last - beg) in
    let r = skip_blanks b beg (last - beg) in
    record {
      in_front = lo;
      blanks = blanks;
      first = elim stop [
        | inl (e, e') ↦ inl (e, omega arith)
        | inr (lt, e) ↦ inr (
          omega arith,
          elim found [
            | inr nb ↦ nb
            | inl at ↦
                let place : m - 1 ≡ r = omega arith in
                let same : b (m - 1) ≡ a (m - 1) = t.kept (m - 1) (inl (omega arith)) in
                let nb : is_blank (a (m - 1)) ≡ false = elim t.last_kept [
                  | inl empty ↦ absurd (omega arith)
                  | inr y ↦ y
                ] in
                subst (λ q. is_blank (b q) ≡ false) place (ap is_blank same ∙ nb)
          ],
        )
      ];
    }

-- `LeadingWhitespace` on the `n` characters from `beg` on: the blanks at the end of the text are
-- cleared, and no other place is written; the pointer that is returned is where the first character
-- stands that is no blank, if there is one, and else the beginning.
pub leading_whitespace_lem :
    (a : ℕ → ℕ) (beg n : ℕ)
    → (m : ℕ) × IsTrimmed a beg (beg + n) (leading_whitespace a beg (beg + n)).0 m
      × IsStart (leading_whitespace a beg (beg + n)).0 beg m (leading_whitespace a beg (beg + n)).1
unfolding leading_whitespace
leading_whitespace_lem a beg n =
    let size : beg + n - beg ≡ n = omega arith in
    let (m, t, stop) = trim_end_lem a beg n in
    rw size (m, t, start_lem a beg n (trim_end a beg n).0 (trim_end a beg n).1 m t stop)

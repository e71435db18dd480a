-- ===== src/Hid/Codes.antt =====
-- The codes that `USBKeyboardEvent` sends, in order.
use strawberry_os.Prelude.{
  ℕ, ◌<◌, ◌≡◌, refl, sym, ap, ◌∙◌, Bool, true, false, ◌&&◌, ◌||◌, List, [], ◌∷◌, ◌==◌,
  if◌then◌else◌, arith, inl, inr, Bool-cases,
}
use strawberry_os.Keyboard.{KeyEventRing, key_event}
use strawberry_os.Hid.{KeyBits, test_key, has_key, press_keys}
use strawberry_os.Hid.Pressed.{
  not, pressed_with, same_key, and_false, or_true, or_false, test_key-pressed_with, ==_same,
}

-- The codes of the report that are sent: those that are pressed neither before nor earlier in it.
abbrev pub new_keys : List ℕ → KeyBits → List ℕ
new_keys [] press = []
new_keys (cod ∷ now) press =
    let rest = new_keys now (pressed_with press cod) in
    if cod == 0 || test_key press cod then rest else cod ∷ rest

-- `KeyEvent` for each code.
abbrev pub send : KeyEventRing → List ℕ → KeyEventRing
send ring [] = ring
send ring (cod ∷ codes) = send (key_event ring cod) codes

pub ring-press_keys :
    (now : List ℕ) (press : KeyBits) (ring : KeyEventRing)
    → (press_keys now press ring).1 ≡ send ring (new_keys now press)
unfolding press_keys
ring-press_keys [] press ring = refl
ring-press_keys (cod ∷ now) press ring = elim (Bool-cases (cod == 0 || test_key press cod)) [
  | inl y ↦ rw (press_keys, y) (ring-press_keys now (pressed_with press cod) ring)
  | inr n ↦ rw (press_keys, n) (ring-press_keys now (pressed_with press cod) (key_event ring cod))
]

old_code :
    (d c : ℕ) (k : Bool) (press : KeyBits)
    → 0 < d
    → (c == 0 || test_key press c) ≡ true
    → (k && not (test_key press d || d == c)) ≡ ((d == c || k) && not (test_key press d))
old_code d c k press h y = elim (Bool-cases (d == c)) [
  | inl e ↦
      let t : test_key press d ≡ true = rw (same_key c d e) (ground (arith, same_key c d e)) in
      rw (e, t) (and_false k)
  | inr m ↦ rw m (ap (λ b. k && not b) (or_false (test_key press d)))
]

new_code :
    (d c : ℕ) (k : Bool) (press : KeyBits)
    → 0 < d
    → (c == 0 || test_key press c) ≡ false
    → (d == c || (k && not (test_key press d || d == c)))
      ≡ ((d == c || k) && not (test_key press d))
new_code d c k press h n = elim (Bool-cases (d == c)) [
  | inl e ↦
      let t : test_key press d ≡ false = rw (same_key c d e) (ground (arith, same_key c d e)) in
      rw (e, t) refl
  | inr m ↦ rw m (ap (λ b. k && not b) (or_false (test_key press d)))
]

pub has_key-new_keys :
    (now : List ℕ) (press : KeyBits) (d : ℕ)
    → 0 < d
    → has_key d (new_keys now press) ≡ (has_key d now && not (test_key press d))
has_key-new_keys [] press d h = refl
has_key-new_keys (cod ∷ now) press d h =
    let r = has_key-new_keys now (pressed_with press cod) d h in
    let s = test_key-pressed_with press cod d h in
    elim (Bool-cases (cod == 0 || test_key press cod)) [
      | inl y ↦ rw (y, r, s) (old_code d cod (has_key d now) press h y)
      | inr n ↦ rw (n, r, s) (new_code d cod (has_key d now) press h n)
    ]

-- No code twice.
abbrev pub IsOnce : List ℕ → Type 0
IsOnce [] = Unit
IsOnce (cod ∷ codes) = (has_key cod codes ≡ false) × IsOnce codes

pub IsOnce-new_keys : (now : List ℕ) (press : KeyBits) → IsOnce (new_keys now press)
IsOnce-new_keys [] press = tt
IsOnce-new_keys (cod ∷ now) press = elim (Bool-cases (cod == 0 || test_key press cod)) [
  | inl y ↦ rw y (IsOnce-new_keys now (pressed_with press cod))
  | inr n ↦
      let some_code : 0 < cod = ground arith in
      let gone : has_key cod (new_keys now (pressed_with press cod)) ≡ false =
        has_key-new_keys now (pressed_with press cod) cod some_code
        ∙ rw (test_key-pressed_with press cod cod some_code) (
            ap (λ b. has_key cod now && not b)
              (ap (λ b. test_key press cod || b) (==_same cod) ∙ or_true (test_key press cod))
            ∙ and_false (has_key cod now)) in
      rw n (gone, IsOnce-new_keys now (pressed_with press cod))
]

pub has_key-new_keys_zero :
    (now : List ℕ) (press : KeyBits) → has_key 0 (new_keys now press) ≡ false
has_key-new_keys_zero [] press = refl
has_key-new_keys_zero (cod ∷ now) press =
    let rest = has_key-new_keys_zero now (pressed_with press cod) in
    elim (Bool-cases (cod == 0 || test_key press cod)) [
      | inl y ↦ rw y rest
      | inr n ↦ let other : (0 == cod) ≡ false = ground arith in rw n (rw other rest)
    ]

-- The codes of a report in its order, but for 0, the keys `old` of the last report, and those that
-- stand earlier in the report, `seen`.
abbrev pub new_codes : List ℕ → List ℕ → List ℕ → List ℕ
new_codes old seen [] = []
new_codes old seen (cod ∷ now) =
    let rest = new_codes old (cod ∷ seen) now in
    if cod == 0 || (has_key cod old || has_key cod seen) then rest else cod ∷ rest

or_later : (o s c : Bool) → ((o || s) || c) ≡ (o || (c || s))
or_later true s c = refl
or_later false true true = refl
or_later false true false = refl
or_later false false c = sym (or_false c)

same_test :
    (press : KeyBits) (old seen : List ℕ) (cod : ℕ)
    → (0 < cod → test_key press cod ≡ (has_key cod old || has_key cod seen))
    → (cod == 0 || test_key press cod) ≡ (cod == 0 || (has_key cod old || has_key cod seen))
same_test press old seen cod h = elim (Bool-cases (cod == 0)) [
  | inl y ↦ rw y refl
  | inr n ↦ let some_code : 0 < cod = ground arith in rw n (h some_code)
]

pub new_keys-new_codes :
    (now : List ℕ) (press : KeyBits) (old seen : List ℕ)
    → ((d : ℕ)
        → 0 < d
        → has_key d now ≡ true
        → test_key press d ≡ (has_key d old || has_key d seen))
    → new_keys now press ≡ new_codes old seen now
new_keys-new_codes [] press old seen h = refl
new_keys-new_codes (cod ∷ now) press old seen h =
    let first : 0 < cod → test_key press cod ≡ (has_key cod old || has_key cod seen) =
      λ p. h cod p (ap (λ b. b || has_key cod now) (==_same cod)) in
    let later : (d : ℕ)
        → 0 < d
        → has_key d now ≡ true
        → test_key (pressed_with press cod) d ≡ (has_key d old || has_key d (cod ∷ seen)) =
      λ d p held.
        test_key-pressed_with press cod d p
        ∙ (ap (λ b. b || d == cod) (h d p (ap (λ b. d == cod || b) held ∙ or_true (d == cod)))
            ∙ or_later (has_key d old) (has_key d seen) (d == cod)) in
    let rest = new_keys-new_codes now (pressed_with press cod) old (cod ∷ seen) later in
    rw (same_test press old seen cod first, rest) refl

-- ===== src/Hid/Pressed.antt =====
-- The bits of `KEYPRESS` behind the loops of `USBKeyboardEvent`.
use strawberry_os.Prelude.{
  ℕ, ◌<◌, ◌≡◌, refl, sym, ap, ◌∙◌, Bool, true, false, ◌&&◌, ◌||◌, List, [], ◌∷◌, ◌==◌,
  if◌then◌else◌, arith, inl, inr, Bool-cases, ==_iff,
}
use strawberry_os.Keyboard.{KeyEventRing}
use strawberry_os.Hid.{KeyBits, test_key, store_key, has_key, release_keys, press_keys}

test_key-store_key :
    (press : KeyBits) (cod d : ℕ) (b : Bool)
    → test_key (store_key press cod b) d ≡ (if d == cod then b else test_key press d)
unfolding store_key
test_key-store_key press cod d b = ground arith

abbrev pub not : Bool → Bool
not true = false
not false = true

pub same_key : (c d : ℕ) → (d == c) ≡ true → d ≡ c
same_key c d h = (==_iff d c).0 h

pub and_false : (b : Bool) → (b && false) ≡ false
and_false true = refl
and_false false = refl

pub or_true : (b : Bool) → (b || true) ≡ true
or_true true = refl
or_true false = refl

pub or_false : (b : Bool) → (b || false) ≡ b
or_false true = refl
or_false false = refl

or_assoc : (a b c : Bool) → ((a || b) || c) ≡ (a || (b || c))
or_assoc true b c = refl
or_assoc false b c = refl

kept_bit :
    (d c : ℕ) (p o : Bool) (now : List ℕ)
    → 0 < d
    → (c == 0 || has_key c now) ≡ true
    → (p && (not o || has_key d now)) ≡ (p && (not (d == c || o) || has_key d now))
kept_bit d c p o now h y = elim (Bool-cases (d == c)) [
  | inl e ↦
      let held : has_key d now ≡ true = rw (same_key c d e) (ground (arith, same_key c d e)) in
      rw (e, held) (ap (λ b. p && b) (or_true (not o)))
  | inr m ↦ rw m refl
]

lost_bit :
    (d c : ℕ) (p o : Bool) (now : List ℕ)
    → 0 < d
    → (c == 0 || has_key c now) ≡ false
    → ((if d == c then false else p) && (not o || has_key d now))
      ≡ (p && (not (d == c || o) || has_key d now))
lost_bit d c p o now h n = elim (Bool-cases (d == c)) [
  | inl e ↦
      let gone : has_key d now ≡ false = rw (same_key c d e) (ground (arith, same_key c d e)) in
      rw (e, gone) (sym (and_false p))
  | inr m ↦ rw m refl
]

pub test_key-release_keys :
    (old now : List ℕ) (press : KeyBits) (d : ℕ)
    → 0 < d
    → test_key (release_keys old now press) d
      ≡ (test_key press d && (not (has_key d old) || has_key d now))
unfolding release_keys
test_key-release_keys [] now press d h = ground arith
test_key-release_keys (cod ∷ old) now press d h =
    let s = test_key-store_key press cod d false in
    elim (Bool-cases (cod == 0 || has_key cod now)) [
      | inl y ↦ rw (y, test_key-release_keys old now press d h) (kept_bit d cod _ _ now h y)
      | inr n ↦
          rw (n, test_key-release_keys old now (store_key press cod false) d h, s)
            (lost_bit d cod _ _ now h n)
    ]

abbrev pub pressed_with : KeyBits → ℕ → KeyBits
pressed_with press cod = if cod == 0 then press else store_key press cod true

pub test_key-pressed_with :
    (press : KeyBits) (cod d : ℕ)
    → 0 < d
    → test_key (pressed_with press cod) d ≡ (test_key press d || d == cod)
test_key-pressed_with press cod d h = elim (Bool-cases (cod == 0)) [
  | inl y ↦ rw y (ground arith)
  | inr n ↦ rw (n, test_key-store_key press cod d true) (ground arith)
]

pub test_key-press_keys :
    (now : List ℕ) (press : KeyBits) (ring : KeyEventRing) (d : ℕ)
    → 0 < d
    → test_key (press_keys now press ring).0 d ≡ (test_key press d || has_key d now)
unfolding press_keys
test_key-press_keys [] press ring d h = ground arith
test_key-press_keys (cod ∷ now) press ring d h =
    test_key-press_keys now (pressed_with press cod) _ d h
    ∙ rw (test_key-pressed_with press cod d h)
        (or_assoc (test_key press d) (d == cod) (has_key d now))

pub ==_same : (a : ℕ) → (a == a) ≡ true
==_same a = ground arith

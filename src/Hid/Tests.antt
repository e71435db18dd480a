-- ===== src/Hid/Tests.antt =====
-- The reports of a keyboard at concrete inputs.
use strawberry_os.Prelude.{
  ℕ, ◌+◌, ◌*◌, ◌/◌, ◌%◌, ◌<◌, ◌≡◌, refl, ap, ◌&&◌, List, [], ◌∷◌, arith, false,
}
use strawberry_os.Hid.{
  KeyBits, UsbKeyboard, has_key, take_report, release_keys, press_keys, store_key,
}
use strawberry_os.Hid.Pressed.{not}
use strawberry_os.Hid.Codes.{IsOnce, send, new_codes}
use strawberry_os.Hid.Keys.{IsTracked, take_report-IsTracked}

-- The keys 4 and 5, then 5 and 6.
abbrev before_keys : List ℕ
before_keys = 4 ∷ 5 ∷ 0 ∷ 0 ∷ 0 ∷ 0 ∷ []

abbrev after_keys : List ℕ
after_keys = 5 ∷ 6 ∷ 0 ∷ 0 ∷ 0 ∷ 0 ∷ []

abbrev bits_of : List ℕ → KeyBits
bits_of keys i j = has_key (i * 16 + j) keys

abbrev keyboard : UsbKeyboard
keyboard = record {
  event0 = record { modifiers = 0; rsv = 1; key = before_keys };
  event1 = record { modifiers = 0; rsv = 0; key = after_keys };
  press = bits_of before_keys;
  ring = record { rng = 0 ∷ 0 ∷ 0 ∷ 0 ∷ []; cnt = 4; nid = 0; eid = 0 };
}

keyboard-IsTracked : IsTracked keyboard
keyboard-IsTracked d h =
    let whole : d / 16 * 16 + d % 16 ≡ d = omega arith in ap (λ x. has_key x before_keys) whole

-- Only the code 6 is sent.
take_report_sends : (take_report keyboard).ring ≡ send keyboard.ring (6 ∷ [])
unfolding take_report release_keys press_keys store_key
take_report_sends = refl

take_report-IsTracked_example :
    IsTracked (take_report keyboard)
    × ((take_report keyboard).event0.key ≡ after_keys)
    × ((take_report keyboard).ring ≡ send keyboard.ring (new_codes before_keys [] after_keys))
    × IsOnce (new_codes before_keys [] after_keys)
    × (has_key 0 (new_codes before_keys [] after_keys) ≡ false)
    × ((d : ℕ)
        → 0 < d
        → has_key d (new_codes before_keys [] after_keys)
          ≡ (has_key d after_keys && not (has_key d before_keys)))
take_report-IsTracked_example = take_report-IsTracked keyboard keyboard-IsTracked

-- In the order of the report, and each code once.
codes_in_order : new_codes (4 ∷ []) [] (9 ∷ 4 ∷ 0 ∷ 7 ∷ 9 ∷ []) ≡ 9 ∷ 7 ∷ []
codes_in_order = refl

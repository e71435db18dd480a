-- ===== src/Hid/Keys.antt =====
-- The keys that `USBKeyboardEvent` finds pressed, and the codes that it sends.
use mathlib.Core.Path.{subst}
use strawberry_os.Prelude.{ℕ, ◌<◌, ◌≡◌, refl, sym, ap, ◌∙◌, Bool, true, false, ◌&&◌, ◌||◌, []}
use strawberry_os.Hid.{UsbKeyboard, test_key, has_key, release_keys, take_report}
use strawberry_os.Hid.Pressed.{not, test_key-release_keys, test_key-press_keys}
use strawberry_os.Hid.Codes.{
  new_keys, send, ring-press_keys, has_key-new_keys, IsOnce, IsOnce-new_keys, has_key-new_keys_zero,
  new_codes, new_keys-new_codes,
}

-- `KEYPRESS` has the keys of the last report.
abbrev pub IsTracked : UsbKeyboard → Type 0
IsTracked kb = (d : ℕ) → 0 < d → test_key kb.press d ≡ has_key d kb.event0.key

-- A report that was received: the keys that `KEYPRESS` has are then those of the report, and the
-- ring of key events is given its codes that are not 0 and were not in the last report, in the order
-- in which they first stand in it. Those are each one code once that the report has and the last
-- report has not, and never 0.
pub take_report-IsTracked :
    (kb : UsbKeyboard)
    → IsTracked kb
    → IsTracked (take_report kb)
      × ((take_report kb).event0.key ≡ kb.event1.key)
      × ((take_report kb).ring ≡ send kb.ring (new_codes kb.event0.key [] kb.event1.key))
      × IsOnce (new_codes kb.event0.key [] kb.event1.key)
      × (has_key 0 (new_codes kb.event0.key [] kb.event1.key) ≡ false)
      × ((d : ℕ)
          → 0 < d
          → has_key d (new_codes kb.event0.key [] kb.event1.key)
            ≡ (has_key d kb.event1.key && not (has_key d kb.event0.key)))
unfolding take_report
take_report-IsTracked kb v =
    let now = kb.event1.key in
    let released = release_keys kb.event0.key now kb.press in
    let bits : (d : ℕ) → 0 < d → test_key released d ≡ (has_key d kb.event0.key && has_key d now) =
      λ d h.
        test_key-release_keys kb.event0.key now kb.press d h
        ∙ rw (v d h) (still (has_key d kb.event0.key) (has_key d now)) in
    let codes : new_keys now released ≡ new_codes kb.event0.key [] now =
      new_keys-new_codes now released kb.event0.key []
        (λ d h held. bits d h ∙ rw held (kept (has_key d kb.event0.key))) in
    (
      λ d h.
          test_key-press_keys now released kb.ring d h
          ∙ rw (bits d h) (absorbed (has_key d kb.event0.key) (has_key d now)),
      refl,
      ring-press_keys now released kb.ring ∙ ap (send kb.ring) codes,
      subst IsOnce codes (IsOnce-new_keys now released),
      ap (has_key 0) (sym codes) ∙ has_key-new_keys_zero now released,
      λ d h.
          ap (has_key d) (sym codes)
          ∙ (has_key-new_keys now released d h
              ∙ rw (bits d h) (fresh (has_key d kb.event0.key) (has_key d now))),
    )
  where
    kept : (o : Bool) → (o && true) ≡ (o || false)
    kept true = refl
    kept false = refl

    still : (o n : Bool) → (o && (not o || n)) ≡ (o && n)
    still true n = refl
    still false n = refl

    absorbed : (o n : Bool) → ((o && n) || n) ≡ n
    absorbed true true = refl
    absorbed true false = refl
    absorbed false n = refl

    fresh : (o n : Bool) → (n && not (o && n)) ≡ (n && not o)
    fresh true true = refl
    fresh true false = refl
    fresh false true = refl
    fresh false false = refl

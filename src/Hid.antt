-- ===== src/Hid.antt =====
-- KERNEL/SOURCE/device/usb/hid.c: the reports of a USB keyboard.
--
-- `KEYPRESS` is the bits of its words, by the index of the word and the place in it. The transfer of
-- the next report is an argument: whether the ring of the pipe is idle, and what `XFER` does.
pub mod Pressed
pub mod Codes
pub mod Keys
mod Tests
use strawberry_os.Prelude.{
  ℕ, ◌+◌, ◌/◌, ◌%◌, Bool, true, false, ◌&&◌, ◌||◌, List, [], ◌∷◌, ◌==◌, if◌then◌else◌,
}
use strawberry_os.Keyboard.{KeyEventRing, key_event}

-- `HID_STANDARD_KEYEVENT`
pub record KeyReport : Type 0 where
  pub modifiers : ℕ
  pub rsv : ℕ
  pub key : List ℕ

abbrev pub KeyBits : Type 0
KeyBits = ℕ → ℕ → Bool

-- `KEYPRESS[cod >> 4] & (1 << (cod & 0xF))`
abbrev pub test_key : KeyBits → ℕ → Bool
test_key press cod = press (cod / 16) (cod % 16)

-- `KEYPRESS[idx] |= msk` and `KEYPRESS[idx] &= ~msk`
unfoldable pub store_key : KeyBits → ℕ → Bool → KeyBits
store_key press cod b i j = if i == cod / 16 && j == cod % 16 then b else press i j

-- The state of the keyboard: `KEYEVENT0`, `KEYEVENT1`, `KEYPRESS` and the ring `KEY_RING`.
pub record UsbKeyboard : Type 0 where
  pub event0 : KeyReport
  pub event1 : KeyReport
  pub press : KeyBits
  pub ring : KeyEventRing

-- Whether the code is among the keys, as the inner loop finds it.
abbrev pub has_key : ℕ → List ℕ → Bool
has_key cod [] = false
has_key cod (k ∷ ks) = cod == k || has_key cod ks

-- The first loop, over the keys of the last report.
unfoldable pub release_keys : List ℕ → List ℕ → KeyBits → KeyBits
release_keys [] now press = press
release_keys (cod ∷ old) now press =
    release_keys old now (if cod == 0 || has_key cod now then press else store_key press cod false)

-- The second loop, over the keys of the new report.
unfoldable pub press_keys : List ℕ → KeyBits → KeyEventRing → KeyBits × KeyEventRing
press_keys [] press ring = (press, ring)
press_keys (cod ∷ now) press ring =
    press_keys now (if cod == 0 then press else store_key press cod true)
      (if cod == 0 || test_key press cod then ring else key_event ring cod)

-- The report in `KEYEVENT1`, once it was received.
unfoldable pub take_report : UsbKeyboard → UsbKeyboard
take_report kb =
    let now = record kb.event1 { rsv = 1 } in
    let released = release_keys kb.event0.key now.key kb.press in
    let r = press_keys now.key released kb.ring in
    record { event0 = now; event1 = now; press = r.0; ring = r.1 }

-- `USBKeyboardEvent`: `has_pipe` is whether there is a keyboard.
unfoldable pub usb_keyboard_event :
    Bool → (UsbKeyboard → Bool) → (UsbKeyboard → UsbKeyboard) → UsbKeyboard → UsbKeyboard
usb_keyboard_event has_pipe is_idle xfer kb =
    let taken = if kb.event1.rsv == 0 then take_report kb else kb in
    if has_pipe then (if is_idle taken then xfer taken else taken) else kb

-- ===== src/Ahci/Ports.antt =====
-- `ConfigureAHCI`: the ports that have a disk, and what a disk says of itself.
use strawberry_os.Prelude.{
  ℕ, zero, suc, ◌+◌, ◌-◌, ◌*◌, ◌/◌, ◌%◌, ◌^◌, ◌<◌, ◌≡◌, refl, ◌∙◌, arith, Bool, true, false, ◌&&◌,
  List, [], ◌∷◌, ◌==◌, if◌then◌else◌, Bool-cases, inl, inr, ==_iff,
}
use strawberry_os.Disk.{Buffer, memcpy}
use strawberry_os.Strings.{leading_whitespace, strlen, store_char}

-- The exchange of two bytes.
abbrev pub swap_bytes : Buffer → ℕ → Buffer
swap_bytes a p = store_char (store_char a p (a (p + 1))) (p + 1) (a p)

-- `ReverseWord` of `cnt` words from `p` on.
unfoldable pub reverse_word : Buffer → ℕ → ℕ → Buffer
reverse_word a p zero = a
reverse_word a p (suc cnt) = reverse_word (swap_bytes a p) (p + 2) cnt

-- A port with an active SATA drive: the device is present, the interface active.
unfoldable pub has_disk : ℕ → ℕ → Bool
has_disk sas sig = sas % 2 ^ 4 == 3 && sas / 2 ^ 8 % 2 ^ 4 == 1 && sig == 0x00000101

-- The loop over `PTI` from port `pn` on; `fuel` is its 32 bits.
unfoldable pub disk_ports : ℕ → ℕ → ℕ → (ℕ → Bool) → List ℕ
disk_ports zero pi pn disk = []
disk_ports (suc fuel) pi pn disk =
    let rest = disk_ports fuel (pi / 2) (pn + 1) disk in
    if pi == 0 then [] else (if pi % 2 == 1 && disk pn then pn ∷ rest else rest)

-- What `AHCI_PORT` takes of the answer to `ATA_CMD_IDENTIFY_DEVICE`.
pub record AtaIdentity : Type 0 where
  pub sct : ℕ
  pub ser : Buffer
  pub mod_name : Buffer

-- A text of `cnt` words at `p`: the buffer, and the text without its blanks.
unfoldable pub identify_text : Buffer → ℕ → ℕ → Buffer × Buffer
identify_text a p cnt =
    let words = reverse_word (store_char a (p + 2 * cnt) 0) p cnt in
    let (text, at) = leading_whitespace words p (p + 2 * cnt) in
    (text, memcpy (λ _. 0) 0 text at (strlen (2 * cnt + 1) text at))

unfoldable pub take_identity : Buffer → AtaIdentity
take_identity buf =
    let (buf1, ser) = identify_text buf 0x14 0x0A in
    let (buf2, mod_name) = identify_text buf1 0x36 0x14 in
    record {
      sct =
          buf 200
          + buf 201 * 2 ^ 8
          + buf 202 * 2 ^ 16
          + buf 203 * 2 ^ 24
          + buf 204 * 2 ^ 32
          + buf 205 * 2 ^ 40
          + buf 206 * 2 ^ 48
          + buf 207 * 2 ^ 56;
      ser = ser;
      mod_name = mod_name;
    }

-- `ReverseWord` exchanges the bytes of a word, and changes no other byte.
reverse_word-below : (a : Buffer) (p cnt k : ℕ) → k < p → reverse_word a p cnt k ≡ a k
unfolding reverse_word
reverse_word-below a p zero k h = refl
reverse_word-below a p (suc cnt) k h =
    let e : (k == p) ≡ false = ground arith in
    let e' : (k == p + 1) ≡ false = ground arith in
    reverse_word-below (swap_bytes a p) (p + 2) cnt k (omega arith) ∙ rw (e, e') refl

-- The place of the other byte of the word.
abbrev partner : ℕ → ℕ
partner i = if i % 2 == 0 then i + 1 else i - 1

pub reverse_word_lem :
    (a : Buffer) (p cnt i : ℕ) → i < 2 * cnt → reverse_word a p cnt (p + i) ≡ a (p + partner i)
unfolding reverse_word
reverse_word_lem a p zero i h = absurd (omega arith)
reverse_word_lem a p (suc cnt) i h = elim (Bool-cases (i == 0)) [
  | inl y ↦
      let z = (==_iff i 0).0 y in
      let at : p + 0 ≡ p = omega arith in
      let e : (p == p + 1) ≡ false = ground arith in
      let e' : (p == p) ≡ true = ground arith in
      rw (z, at) (reverse_word-below (swap_bytes a p) (p + 2) cnt p (omega arith) ∙ rw (e, e') refl)
  | inr n ↦ elim (Bool-cases (i == 1)) [
    | inl y ↦
        let z = (==_iff i 1).0 y in
        let at : p + 0 ≡ p = omega arith in
        let e : (p + 1 == p + 1) ≡ true = ground arith in
        rw z
          (reverse_word-below (swap_bytes a p) (p + 2) cnt (p + 1) (omega arith) ∙ rw (e, at) refl)
    | inr n' ↦
        let two : p + i ≡ p + 2 + (i - 2) = ground arith in
        let other : p + 2 + partner (i - 2) ≡ p + partner i = ground arith in
        let e : (p + partner i == p) ≡ false = ground arith in
        let e' : (p + partner i == p + 1) ≡ false = ground arith in
        rw two (
          reverse_word_lem (swap_bytes a p) (p + 2) cnt (i - 2) (ground arith)
          ∙ rw (other, e', e) refl)
  ]
]

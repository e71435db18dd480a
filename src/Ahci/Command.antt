-- ===== src/Ahci/Command.antt =====
-- What the command of `OperationATA` asks for.
use strawberry_os.Prelude.{
  ℕ, zero, suc, ◌+◌, ◌-◌, ◌*◌, ◌/◌, ◌%◌, ◌^◌, ◌≤◌, ◌<◌, ◌≡◌, refl, arith, List, [], ◌∷◌, ltb, ◌==◌,
  Bool-cases, inl, inr, add64, length,
}
use strawberry_os.Ahci.{AtaCommand, PrdtEntry, command_of, fis_of, prdt_entries, ahci_command_wr}

-- The entries are `size` bytes from the address `a` on, none of them of more than 4 MB.
abbrev pub IsScattered : ℕ → ℕ → List PrdtEntry → Type 0
IsScattered a size [] = size ≡ 0
IsScattered a size (e ∷ es) =
    (e.dba ≡ a)
    × (e.dbc < 2 ^ 22)
    × (e.dbc + 1 ≤ size)
    × IsScattered (a + (e.dbc + 1)) (size - (e.dbc + 1)) es

-- The command of the code `code` for `n` sectors from `lba` on, in the direction `wrt`, with memory
-- at `base`.
pub record IsAtaCommand (code wrt lba n base : ℕ) (c : AtaCommand) : Type 0 where
  pub code_given : c.fis.cmd ≡ code
  pub is_register_fis : c.fis.typ ≡ 0x27
  pub is_command : c.fis.ccc ≡ 1
  pub fis_words : c.cfl * 4 ≡ 20
  pub direction : c.wrt ≡ wrt
  pub block :
      c.fis.ba0
        + c.fis.ba1 * 2 ^ 8
        + c.fis.ba2 * 2 ^ 16
        + c.fis.ba3 * 2 ^ 24
        + c.fis.ba4 * 2 ^ 32
        + c.fis.ba5 * 2 ^ 40
      ≡ lba
  pub sectors : c.fis.cnt ≡ n
  pub entries : c.dtl ≡ length c.prd
  pub memory : IsScattered base (n * 512) c.prd

entry_count : (fuel n a : ℕ) → n ≤ fuel → length (prdt_entries fuel n a) ≡ (n + 15) / 16
unfolding prdt_entries
entry_count zero n a le = omega arith
entry_count (suc fuel) n a le = elim (Bool-cases (n == 0)) [
  | inl y ↦ rw y (ground arith)
  | inr some ↦ elim (Bool-cases (ltb n 16)) [
    | inl y ↦
        rw (some, y)
          (let e = entry_count fuel (n - n) (add64 a (n * 2 ^ 9)) (omega arith) in ground arith)
    | inr big ↦
        rw (some, big)
          (let e = entry_count fuel (n - 16) (add64 a (16 * 2 ^ 9)) (omega arith) in ground arith)
  ]
]

-- One entry of `cnt` sectors, and the others behind it.
IsScattered-more :
    (n cnt a : ℕ) (es : List PrdtEntry)
    → 0 < cnt
    → cnt ≤ 16
    → cnt ≤ n
    → a + n * 512 < 2 ^ 64
    → IsScattered (add64 a (cnt * 2 ^ 9)) ((n - cnt) * 512) es
    → IsScattered a (n * 512) (record { dba = a; dbc = cnt * 2 ^ 9 - 1 } ∷ es)
IsScattered-more n cnt a es some small le fit rest =
    let at : a + (cnt * 2 ^ 9 - 1 + 1) ≡ add64 a (cnt * 2 ^ 9) = omega arith in
    let left : n * 512 - (cnt * 2 ^ 9 - 1 + 1) ≡ (n - cnt) * 512 = omega arith in
    (refl, omega arith, omega arith, rw (at, left) rest)

IsScattered-prdt_entries :
    (fuel n a : ℕ)
    → n ≤ fuel
    → a + n * 512 < 2 ^ 64
    → IsScattered a (n * 512) (prdt_entries fuel n a)
unfolding prdt_entries
IsScattered-prdt_entries zero n a le fit = omega arith
IsScattered-prdt_entries (suc fuel) n a le fit = elim (Bool-cases (n == 0)) [
  | inl y ↦ rw y (ground arith)
  | inr some ↦ elim (Bool-cases (ltb n 16)) [
    | inl y ↦
        rw (some, y)
          (IsScattered-more n n a (prdt_entries fuel (n - n) (add64 a (n * 2 ^ 9))) (ground arith)
            (ground arith) (omega arith) fit
            (IsScattered-prdt_entries fuel (n - n) (add64 a (n * 2 ^ 9)) (omega arith)
              (omega arith)))
    | inr big ↦
        let many : 16 ≤ n = ground arith in
        rw (some, big)
          (IsScattered-more n 16 a (prdt_entries fuel (n - 16) (add64 a (16 * 2 ^ 9))) (omega arith)
            (omega arith) many fit
            (IsScattered-prdt_entries fuel (n - 16) (add64 a (16 * 2 ^ 9)) (omega arith)
              (omega arith)))
  ]
]

block_lem :
    (lba : ℕ)
    → lba < 2 ^ 48
    → lba % 2 ^ 8
        + lba / 2 ^ 8 % 2 ^ 8 * 2 ^ 8
        + lba / 2 ^ 16 % 2 ^ 8 * 2 ^ 16
        + lba / 2 ^ 24 % 2 ^ 8 * 2 ^ 24
        + lba / 2 ^ 32 % 2 ^ 8 * 2 ^ 32
        + lba / 2 ^ 40 % 2 ^ 8 * 2 ^ 40
      ≡ lba
block_lem lba h = omega arith

pub command_of-IsAtaCommand :
    (cmd lba n base : ℕ)
    → cmd < 2 ^ 8
    → lba < 2 ^ 48
    → 0 < n
    → base + n * 512 < 2 ^ 64
    → IsAtaCommand cmd (ahci_command_wr cmd) lba n base (command_of cmd lba n base)
unfolding command_of fis_of
command_of-IsAtaCommand cmd lba n base byte addressed some fit = record {
  code_given = omega arith;
  is_register_fis = refl;
  is_command = refl;
  fis_words = refl;
  direction = refl;
  block = block_lem lba addressed;
  sectors = refl;
  entries = omega (arith, entry_count n n base (omega arith));
  memory = IsScattered-prdt_entries n n base (omega arith) fit;
}

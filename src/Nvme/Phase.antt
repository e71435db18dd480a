-- ===== src/Nvme/Phase.antt =====
-- The place and the phase of a completion queue count the completions that were taken from it.
use native.Mathlib.Nat.{
  mod-add-mod, mod-lt, mod-add-div, add-mul-div_left, div-eq_of_lt, div_self, mod_self,
  mod-eq_of_lt,
}
use strawberry_os.Prelude.{
  ℕ, ◌+◌, ◌*◌, ◌/◌, ◌%◌, ◌^◌, ◌≤◌, ◌<◌, ◌≡◌, refl, sym, ap, ◌∙◌, ◌⊎◌, arith, ltb, u16, Bool-cases,
  inl, inr, ltb→lt, ltb_false→le, false, true,
}
use strawberry_os.Nvme.{QueueCommon, consume, entries, flip}

-- The tag that the controller gives to its completion number `n` in a queue of `len` places, the
-- first round with 1, the next with 0, and so on.
abbrev pub tag : ℕ → ℕ → ℕ
tag len n = (n / len + 1) % 2

-- The state of a completion queue behind `n` completions.
pub record IsConsumed (n : ℕ) (cq : QueueCommon) : Type 0 where
  pub two_places : 1 < entries cq
  pub word : entries cq ≤ 2 ^ 16
  pub place : cq.had ≡ n % entries cq
  pub phase : cq.pha ≡ tag (entries cq) n

div_suc : (len n : ℕ) → 0 < len → (n + 1) / len ≡ (n % len + 1) / len + n / len
div_suc len n h =
    let e : n + 1 ≡ (n % len + 1) + len * (n / len) = omega (arith, mod-add-div n len) in
    ap (λ x. x / len) e ∙ add-mul-div_left (n % len + 1) (n / len) h

-- The next place, on whether the round ends.
pub next_place :
    (len n : ℕ)
    → 1 < len
    → (((n + 1) % len ≡ n % len + 1) × ((n + 1) / len ≡ n / len) × (n % len + 1 < len))
      ⊎ (((n + 1) % len ≡ 0) × ((n + 1) / len ≡ n / len + 1) × (n % len + 1 ≡ len))
next_place len n h =
    let r = n % len in
    let below = mod-lt n {m = len} (omega arith) in
    let m : (r + 1) % len ≡ (n + 1) % len = mod-add-mod n len 1 in
    let d = div_suc len n (omega arith) in
    elim (Bool-cases (ltb (r + 1) len)) [
      | inl y ↦
          let lt = ltb→lt (r + 1) len y in
          inl
            (sym m ∙ mod-eq_of_lt lt, d ∙ ap (λ x. x + n / len) (div-eq_of_lt lt) ∙ omega arith, lt)
      | inr g ↦
          let e : r + 1 ≡ len = omega (arith, ltb_false→le (r + 1) len g) in
          inr (
            sym m ∙ (ap (λ x. x % len) e ∙ mod_self len),
            d
                ∙ (ap (λ x. x / len + n / len) e
                    ∙ (ap (λ x. x + n / len) (div_self (omega arith)) ∙ omega arith)),
            e,
          )
    ]

flip_tag : (q : ℕ) → flip ((q + 1) % 2) ≡ (q + 1 + 1) % 2
flip_tag q = ground arith

-- A completion that is taken moves the queue to the next place, and turns the phase at the end of a
-- round.
pub consume-IsConsumed :
    (n : ℕ) (cq : QueueCommon) → IsConsumed n cq → IsConsumed (n + 1) (consume cq)
unfolding consume
consume-IsConsumed n cq v =
    let len = entries cq in
    let m : (cq.had + 1) % len ≡ (n + 1) % len =
      ap (λ x. (x + 1) % len) v.place ∙ mod-add-mod n len 1 in
    let bound = mod-lt (n + 1) {m = len} (omega (arith, v.two_places)) in
    let nx : u16 ((cq.had + 1) % len) ≡ (n + 1) % len = omega (arith, m, bound, v.word) in
    elim (next_place len n v.two_places) [
      | inl (p, d, lt) ↦
          let c : ltb ((n + 1) % len) cq.had ≡ false = ground (arith, v.place) in
          rw (nx, c)
            (record {
              two_places = v.two_places;
              word = v.word;
              place = refl;
              phase = v.phase ∙ ap (λ q. (q + 1) % 2) (sym d);
            })
      | inr (p, d, e) ↦
          let c : ltb ((n + 1) % len) cq.had ≡ true = ground (arith, v.place, v.two_places) in
          rw (nx, c)
            (record {
              two_places = v.two_places;
              word = v.word;
              place = refl;
              phase = ap flip v.phase ∙ (flip_tag (n / len) ∙ ap (λ q. (q + 1) % 2) (sym d));
            })
    ]

-- ===== src/Disk/Copy.antt =====
-- Copies between the buffers of `DISKRW`, of bytes and of sectors.
use strawberry_os.Prelude.{
  ℕ, ◌+◌, ◌-◌, ◌*◌, ◌≤◌, ◌<◌, ◌≡◌, sym, ap, ◌∙◌, arith, ltb, Bool-cases, inl, inr, ltb→lt,
  ltb_false→le,
}
use strawberry_os.Disk.{Buffer, memcpy}

pub memcpy_in :
    (to from : Buffer) (at start size k : ℕ)
    → at ≤ k
    → k < at + size
    → memcpy to at from start size k ≡ from (start + (k - at))
memcpy_in to from at start size k h l = ground arith

pub memcpy_below :
    (to from : Buffer) (at start size k : ℕ) → k < at → memcpy to at from start size k ≡ to k
memcpy_below to from at start size k h = ground arith

pub memcpy_above :
    (to from : Buffer) (at start size k : ℕ) → at + size ≤ k → memcpy to at from start size k ≡ to k
memcpy_above to from at start size k h = ground arith

pub memcpy_nothing :
    (to from : Buffer) (at start size k : ℕ) → size ≡ 0 → memcpy to at from start size k ≡ to k
memcpy_nothing to from at start size k h = ground arith

-- Two copies of adjacent ranges are one copy of both.
memcpy_twice :
    (to mid from page : Buffer) (base at n m k : ℕ)
    → ((j : ℕ) → j < n → page j ≡ from (base + j))
    → mid k ≡ memcpy to at page 0 n k
    → memcpy mid (at + n) from (base + n) m k ≡ memcpy to at from base (n + m) k
memcpy_twice to mid from page base at n m k same e = elim (Bool-cases (ltb k at)) [
  | inl y ↦
      let below = ltb→lt k at y in
      memcpy_below mid from (at + n) (base + n) m k (omega arith)
      ∙ (e
          ∙ (memcpy_below to page at 0 n k below
              ∙ sym (memcpy_below to from at base (n + m) k below)))
  | inr g ↦
      let from_at = ltb_false→le k at g in
      elim (Bool-cases (ltb k (at + n))) [
        | inl y ↦
            let inner = ltb→lt k (at + n) y in
            memcpy_below mid from (at + n) (base + n) m k inner
            ∙ (e
                ∙ (memcpy_in to page at 0 n k from_at inner
                    ∙ (ap page {y = k - at} (omega arith)
                        ∙ same (k - at) (omega arith)
                        ∙ sym (memcpy_in to from at base (n + m) k from_at (omega arith)))))
        | inr o ↦
            let behind = ltb_false→le k (at + n) o in
            elim (Bool-cases (ltb k (at + n + m))) [
              | inl y ↦
                  let upper = ltb→lt k (at + n + m) y in
                  memcpy_in mid from (at + n) (base + n) m k behind upper
                  ∙ (ap from (omega arith)
                      ∙ sym (memcpy_in to from at base (n + m) k from_at (omega arith)))
              | inr p ↦
                  let over = ltb_false→le k (at + n + m) p in
                  memcpy_above mid from (at + n) (base + n) m k over
                  ∙ (e
                      ∙ (memcpy_above to page at 0 n k behind
                          ∙ sym (memcpy_above to from at base (n + m) k (omega arith))))
            ]
      ]
]

pub within : (j n c : ℕ) → j < n * 512 → n ≤ c → j < c * 512
within j n c h l = omega arith

-- The same, in sectors.
pub join :
    (to mid from page : Buffer) (a b n m : ℕ) {a' b' s : ℕ} (k : ℕ)
    → a' ≡ a + n
    → b' ≡ b + n
    → s ≡ n + m
    → ((j : ℕ) → j < n * 512 → page j ≡ from (b * 512 + j))
    → mid k ≡ memcpy to (a * 512) page 0 (n * 512) k
    → memcpy mid (a' * 512) from (b' * 512) (m * 512) k
      ≡ memcpy to (a * 512) from (b * 512) (s * 512) k
join to mid from page a b n m {a'} {b'} {s} k ea eb es same e =
    let fa : a' * 512 ≡ a * 512 + n * 512 = omega arith in
    let fb : b' * 512 ≡ b * 512 + n * 512 = omega arith in
    let fs : s * 512 ≡ n * 512 + m * 512 = omega arith in
    rw (fa, fb, fs) (memcpy_twice to mid from page (b * 512) (a * 512) (n * 512) (m * 512) k same e)

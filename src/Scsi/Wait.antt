-- ===== src/Scsi/Wait.antt =====
-- `SCSIWaitReady` ends.
use strawberry_os.Prelude.{
  ℕ, ◌+◌, ◌^◌, ◌-◌, ◌≤◌, ◌<◌, ◌≡◌, refl, ◌⊎◌, List, [], ◌∷◌, arith, inl, inr, false, some, ◌==◌,
  leb, if◌then◌else◌, Bool-cases, Option-cases, add64, leb_false→lt, some_inj,
}
use strawberry_os.Disk.{
  Buffer, DiskOperation, Outcome, DiskDriver, execute_disk_operation, ret_success,
}
use strawberry_os.Scsi.{
  Waiting, sensed, after_sense, wait_rounds, scsi_wait_ready, test_unit_ready, request_sense,
}

-- One of the times has come to the limit.
abbrev pub Reaches : List ℕ → ℕ → Type 0
Reaches [] limit = ⊥
Reaches (t ∷ ts) limit = (limit ≤ t) ⊎ Reaches ts limit

-- The end of the waiting time, with what the first report of progress adds.
abbrev latest : Waiting → ℕ
latest s = if s.in_progress then s.end else s.end + 30

latest-sensed :
    (s next : Waiting) (sense : Buffer)
    → latest s < 2 ^ 64
    → sensed s sense ≡ some next
    → latest next ≤ latest s
unfolding sensed
latest-sensed s next sense fit e = ground arith

Reaches-earlier : (times : List ℕ) (a b : ℕ) → a ≤ b → Reaches times b → Reaches times a
Reaches-earlier [] a b h r = absurd r
Reaches-earlier (t ∷ ts) a b h (inl k) = inl (omega arith)
Reaches-earlier (t ∷ ts) a b h (inr r) = inr (Reaches-earlier ts a b h r)

latest-after_sense :
    {W : Type 0} (s next : Waiting) (out : Outcome W)
    → latest s < 2 ^ 64
    → after_sense s out ≡ some next
    → latest next ≤ latest s
unfolding after_sense
latest-after_sense s next out fit e = elim (Bool-cases (out.code == ret_success)) [
  | inl y ↦ latest-sensed s next out.op.dat fit (rw y at e)
  | inr n ↦ let same : some s ≡ some next = rw n at e in rw (some_inj same) (omega arith)
]

module _ {W : Type 0} (drive : DiskDriver W) where
  rounds_end :
      (times : List ℕ) (op : DiskOperation) (w : W) (s : Waiting)
      → latest s < 2 ^ 64
      → Reaches times (latest s)
      → (r : Outcome W) × (wait_rounds times drive op w s ≡ some r)
  unfolding wait_rounds
  rounds_end [] op w s fit r = absurd r
  rounds_end (now ∷ times) op w s fit r =
      let ready = execute_disk_operation drive (test_unit_ready op) w in
      let sense = execute_disk_operation drive (request_sense ready.op) ready.world in
      elim (Bool-cases (leb s.end now)) [
        | inl y ↦ (record { code = 2 ^ 32 - 1; op = op; world = w }, rw (wait_rounds, y) refl)
        | inr n ↦ elim (Bool-cases (ready.code == ret_success)) [
          | inl y ↦ (ready, rw (wait_rounds, n, y) refl)
          | inr m ↦ elim (Option-cases (after_sense s sense)) [
            | inl e ↦ (record sense { code = 2 ^ 32 - 1 }, rw (wait_rounds, n, m, e) refl)
            | inr (next, e) ↦
                let bound = latest-after_sense s next sense fit e in
                let later : Reaches times (latest s) = elim r [
                  | inl k ↦ absurd (ground (arith, leb_false→lt s.end now n))
                  | inr k ↦ k
                ] in
                let (out, eo) =
                  rounds_end times sense.op sense.world next (omega arith)
                    (Reaches-earlier times (latest next) (latest s) bound later) in
                (out, rw (wait_rounds, n, m, e) eo)
          ]
        ]
      ]

  -- `SCSIWaitReady` returns, whatever the device answers, once the clock has come to 5030 behind the
  -- time at which it began, which does not wrap.
  pub scsi_wait_ready_returns :
      (start : ℕ) (times : List ℕ) (op : DiskOperation) (w : W)
      → start + 5030 < 2 ^ 64
      → Reaches times (start + 5030)
      → (r : Outcome W) × (scsi_wait_ready start times drive op w ≡ some r)
  unfolding scsi_wait_ready
  scsi_wait_ready_returns start times op w fit r =
      let e : add64 start 5000 + 30 ≡ start + 5030 = omega arith in
      rounds_end times op w (record { tries = 3; in_progress = false; end = add64 start 5000 })
        (omega arith) (rw e r)

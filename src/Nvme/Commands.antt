-- ===== src/Nvme/Commands.antt =====
-- One command after the other: `NVMEWaitingCMD` on queues in step with the controller.
use native.Mathlib.Nat.{mod-add-mod, mod-lt}
use strawberry_os.Prelude.{
  ℕ, ◌+◌, ◌%◌, ◌^◌, ◌<◌, ◌≡◌, ◌≢◌, refl, ap, ◌∙◌, arith, List, [], ◌∷◌, ◌++◌, All, none, some, ◌==◌,
  u16, u32, inl, inr, true, false, bit_or, bit_or_above, ◌*◌,
}
use strawberry_os.Nvme.{
  QueueCommon, SubmissionQueue, SubmissionEntry, CompletionEntry, CompletionRing, entries, is_full,
  submit, await_completion, nvme_waiting_cmd, errcqe, with_id,
}
use strawberry_os.Nvme.Phase.{IsConsumed, tag, next_place, consume-IsConsumed}

-- The queues behind `n` commands that were all completed.
pub record IsServing (n : ℕ) (sq : SubmissionQueue) : Type 0 where
  pub two_places : 1 < entries sq.common
  pub word : entries sq.common < 2 ^ 16
  pub head : sq.common.had ≡ n % entries sq.common
  pub tail : sq.common.tal ≡ n % entries sq.common
  pub completions : IsConsumed n sq.icq

-- The entry that the controller writes for its completion number `n`, and whether it is there yet.
abbrev pub answer : QueueCommon → ℕ → CompletionRing → CompletionEntry
answer cq n ring = ring (n % entries cq)

abbrev pub IsOld : QueueCommon → ℕ → CompletionRing → Type 0
IsOld cq n ring = (answer cq n ring).sts % 2 ≢ tag (entries cq) n

==_self : (a : ℕ) → (a == a) ≡ true
==_self a = ground arith

await_step :
    (n : ℕ) (cq : QueueCommon) (ring : CompletionRing) (polls : List CompletionRing)
    → IsConsumed n cq
    → IsOld cq n ring
    → await_completion cq (ring ∷ polls) ≡ await_completion cq polls
unfolding await_completion
await_step n cq ring polls v h =
    let c : ((ring cq.had).sts % 2 == cq.pha) ≡ false = rw (v.place, v.phase) (ground arith) in
    rw c refl

await_old :
    (n : ℕ) (cq : QueueCommon) (old polls : List CompletionRing)
    → IsConsumed n cq
    → All (IsOld cq n) old
    → await_completion cq (old ++ polls) ≡ await_completion cq polls
await_old n cq [] polls v h = refl
await_old n cq (ring ∷ old) polls v (h, hs) =
    await_step n cq ring (old ++ polls) v h ∙ await_old n cq old polls v hs

await_none :
    (n : ℕ) (cq : QueueCommon) (old : List CompletionRing)
    → IsConsumed n cq
    → All (IsOld cq n) old
    → await_completion cq old ≡ none
unfolding await_completion
await_none n cq [] v h = refl
await_none n cq (ring ∷ old) v (h, hs) = await_step n cq ring old v h ∙ await_none n cq old v hs

await_new :
    (n : ℕ) (cq : QueueCommon) (ring : CompletionRing) (polls : List CompletionRing)
    → IsConsumed n cq
    → (answer cq n ring).sts % 2 ≡ tag (entries cq) n
    → await_completion cq (ring ∷ polls) ≡ some (answer cq n ring)
unfolding await_completion
await_new n cq ring polls v h =
    let c : ((ring cq.had).sts % 2 == cq.pha) ≡ true = rw (v.place, v.phase) (ground arith) in
    rw c (ap (λ p. some (ring p)) v.place)

not_full : (n : ℕ) (sq : SubmissionQueue) → IsServing n sq → is_full sq.common ≡ false
not_full n sq v =
    let len = entries sq.common in
    let m : (sq.common.had + 1) % len ≡ (n + 1) % len =
      ap (λ x. (x + 1) % len) v.head ∙ mod-add-mod n len 1 in
    elim (next_place len n v.two_places) [
      | inl (p, d, lt) ↦ ground (arith, v.tail)
      | inr (p, d, e) ↦ ground (arith, v.tail, v.two_places)
    ]

tail-submit :
    (n : ℕ) (sq : SubmissionQueue) (e : SubmissionEntry)
    → IsServing n sq
    → (submit sq e).common.tal ≡ (n + 1) % entries sq.common
unfolding submit
tail-submit n sq e v =
    let len = entries sq.common in
    let below = mod-lt n {m = len} (omega (arith, v.two_places)) in
    let small : u16 (sq.common.tal + 1) ≡ n % len + 1 = omega (arith, v.tail, v.word) in
    ap (λ x. x % len) small ∙ mod-add-mod n len 1

-- The number of a command stands in the upper half of its first word, above an opcode.
with_id_lem :
    (e : SubmissionEntry) (tal : ℕ)
    → e.cdw0 < 2 ^ 16
    → tal < 2 ^ 16
    → with_id e tal ≡ record e { cdw0 = e.cdw0 + tal * 2 ^ 16 }
with_id_lem e tal h k =
    let o = bit_or_above 16 e.cdw0 tal h in
    let w : u32 (bit_or e.cdw0 (tal * 2 ^ 16)) ≡ e.cdw0 + tal * 2 ^ 16 = rw o (omega arith) in
    ap (λ x. record e { cdw0 = x }) w

submit_lem :
    (n : ℕ) (sq : SubmissionQueue) (e : SubmissionEntry)
    → IsServing n sq
    → ((submit sq e).sqe (n % entries sq.common) ≡ with_id e (n % entries sq.common))
      × ((submit sq e).common.rung ≡ (submit sq e).common.tal)
      × ((submit sq e).common.had ≡ sq.common.had)
      × ((submit sq e).common.msk ≡ sq.common.msk)
      × ((submit sq e).icq ≡ sq.icq)
unfolding submit
submit_lem n sq e v =
    let here : (n % entries sq.common == sq.common.tal) ≡ true = ground (arith, v.tail) in
    (rw here (ap (with_id e) v.tail), refl, refl, refl, refl)

-- A command whose first word has a clear upper half, on queues that completed `n` commands, both of at
-- least two and less than 2^16 places, where the head pointer of the answer says that the command was
-- taken: the answer is what the controller writes with the tag of completion `n`, however often the
-- ring shows an older entry before, the queues have then completed `n + 1` commands, the doorbell is
-- rung with the next place, and the command is stored at its place, with its number in the upper half
-- of its first word.
pub nvme_waiting_cmd-IsServing :
    (n : ℕ) (sq : SubmissionQueue) (e : SubmissionEntry) (old : List CompletionRing)
    (ring : CompletionRing) (polls : List CompletionRing)
    → IsServing n sq
    → e.cdw0 < 2 ^ 16
    → All (IsOld sq.icq n) old
    → (answer sq.icq n ring).sts % 2 ≡ tag (entries sq.icq) n
    → (answer sq.icq n ring).qhd ≡ (n + 1) % entries sq.common
    → ((nvme_waiting_cmd sq e (old ++ (ring ∷ polls))).0 ≡ answer sq.icq n ring)
      × IsServing (n + 1) (nvme_waiting_cmd sq e (old ++ (ring ∷ polls))).1
      × ((nvme_waiting_cmd sq e (old ++ (ring ∷ polls))).1.common.rung
          ≡ (n + 1) % entries sq.common)
      × ((nvme_waiting_cmd sq e (old ++ (ring ∷ polls))).1.sqe (n % entries sq.common)
          ≡ record e { cdw0 = e.cdw0 + (n % entries sq.common) * 2 ^ 16 })
unfolding nvme_waiting_cmd
nvme_waiting_cmd-IsServing n sq e old ring polls v opcode olds new taken =
    let s = submit_lem n sq e v in
    let t = tail-submit n sq e v in
    let below = mod-lt n {m = entries sq.common} (omega (arith, v.two_places)) in
    let stored = with_id_lem e (n % entries sq.common) opcode (omega (arith, v.word)) in
    rw
      (
        not_full n sq v,
        await_old n sq.icq old (ring ∷ polls) v.completions olds,
        await_new n sq.icq ring polls v.completions new,
      )
      (
        refl,
        record {
          two_places = rw s.3 v.two_places;
          word = rw s.3 v.word;
          head = rw s.3 taken;
          tail = rw s.3 t;
          completions = consume-IsConsumed n sq.icq v.completions;
        },
        s.1 ∙ t,
        s.0 ∙ stored,
      )

full-submit :
    (n : ℕ) (sq : SubmissionQueue) (e : SubmissionEntry)
    → IsServing n sq
    → is_full (submit sq e).common ≡ true
full-submit n sq e v =
    let s = submit_lem n sq e v in
    let m : (sq.common.had + 1) % entries sq.common ≡ (n + 1) % entries sq.common =
      ap (λ x. (x + 1) % entries sq.common) v.head ∙ mod-add-mod n (entries sq.common) 1 in
    rw (s.2, s.3, tail-submit n sq e v, m) (==_self ((n + 1) % entries sq.common))

-- On queues that completed `n` commands, both of at least two and less than 2^16 places, a command that
-- the controller does not answer in time fails, and then so does every later command, answered or not,
-- with the queues left as they are.
pub nvme_waiting_cmd_timeout :
    (n : ℕ) (sq : SubmissionQueue) (e : SubmissionEntry) (old : List CompletionRing)
    → IsServing n sq
    → All (IsOld sq.icq n) old
    → ((nvme_waiting_cmd sq e old).0 ≡ errcqe)
      × ((later : SubmissionEntry) (polls : List CompletionRing)
          → nvme_waiting_cmd (nvme_waiting_cmd sq e old).1 later polls
            ≡ (errcqe, (nvme_waiting_cmd sq e old).1))
unfolding nvme_waiting_cmd
nvme_waiting_cmd_timeout n sq e old v olds =
    let full = full-submit n sq e v in
    rw (not_full n sq v, await_none n sq.icq old v.completions olds)
      (refl, λ later polls. rw full refl)

-- ===== src/Xhci/Marks.antt =====
-- The cycle bits of a ring tell the blocks that were queued in this round from the others.
use strawberry_os.Prelude.{
  ℕ, ◌+◌, ◌-◌, ◌*◌, ◌%◌, ◌^◌, ◌≤◌, ◌<◌, ◌≡◌, refl, sym, ap, ◌∙◌, arith, leb, ◌==◌, u16, true, false,
  inl, inr, Bool-cases, leb→le, leb_false→lt, ==_iff,
}
use strawberry_os.Xhci.{
  TransferBlock, TransferRing, cycle, with_cycle, toggle, link_block, xhci_copy_trb, wrap_ring,
  xhci_queue_trb,
}

-- The blocks before `NID` have the cycle of the ring, and the others, which the controller does not
-- take, have not.
pub record IsMarked (r : TransferRing) : Type 0 where
  pub in_ring : r.nid < 255
  pub bit : r.ccs < 2
  pub queued : (i : ℕ) → i < r.nid → cycle (r.ring i) ≡ r.ccs
  pub open_places : (i : ℕ) → r.nid ≤ i → i < 255 → cycle (r.ring i) ≡ 1 - r.ccs

with_cycle_lem : (x ccs : ℕ) → x % 2 ≡ 0 → ccs < 2 → with_cycle x ccs % 2 ≡ ccs
with_cycle_lem x ccs h k = ground arith

-- A block as it is stored.
abbrev pub stored : TransferBlock → ℕ → TransferBlock
stored b ccs = record b { data3 = with_cycle b.data3 ccs }

copy_here :
    (r : TransferRing) (b : TransferBlock) (i : ℕ)
    → i ≡ r.nid
    → (xhci_copy_trb r b).ring i ≡ stored b r.ccs
unfolding xhci_copy_trb
copy_here r b i e = let c : (i == r.nid) ≡ true = ground arith in rw c refl

copy_other :
    (r : TransferRing) (b : TransferBlock) (i : ℕ)
    → (i == r.nid) ≡ false
    → (xhci_copy_trb r b).ring i ≡ r.ring i
unfolding xhci_copy_trb
copy_other r b i e = rw e refl

IsMarked-wrap_ring :
    (base : ℕ) (r : TransferRing)
    → 254 ≤ r.nid
    → IsMarked r
    → IsMarked (wrap_ring base r)
      × ((wrap_ring base r).nid ≡ 0)
      × ((wrap_ring base r).ccs ≡ 1 - r.ccs)
      × ((wrap_ring base r).ring 254 ≡ stored (link_block base) r.ccs)
unfolding wrap_ring
IsMarked-wrap_ring base r h v =
    let flipped : toggle r.ccs ≡ 1 - r.ccs = ground (arith, v.bit) in
    (
      record {
        in_ring = omega arith;
        bit = rw flipped (omega arith);
        queued = λ i lt. absurd (omega arith);
        open_places = λ i le lt. elim (Bool-cases (i == r.nid)) [
          | inl y ↦
              let e = (==_iff i r.nid).0 y in
              ap cycle (copy_here r (link_block base) i e)
              ∙ (with_cycle_lem (2 + 6 * 2 ^ 10) r.ccs refl v.bit ∙ ground (arith, flipped, v.bit))
          | inr n ↦
              ap cycle (copy_other r (link_block base) i n)
              ∙ (v.queued i (ground (arith, v.in_ring)) ∙ ground (arith, flipped, v.bit))
        ];
      },
      refl,
      flipped,
      copy_here r (link_block base) 254 (omega (arith, v.in_ring)),
    )

-- What is left of a ring to which a block was added.
abbrev pub IsQueued : TransferRing → TransferBlock → TransferRing → Type 0
IsQueued r b r' =
    IsMarked r'
    × (r'.nid ≡ r.nid + 1)
    × (r'.ccs ≡ r.ccs)
    × (r'.ring r.nid ≡ stored b r.ccs)
    × ((i : ℕ) → (i == r.nid) ≡ false → r'.ring i ≡ r.ring i)

IsQueued-copy :
    (r : TransferRing) (b : TransferBlock)
    → r.nid < 254
    → b.data3 % 2 ≡ 0
    → IsMarked r
    → IsQueued r b (record (xhci_copy_trb r b) { nid = u16 (r.nid + 1) })
unfolding xhci_copy_trb
IsQueued-copy r b h even v =
    let next : u16 (r.nid + 1) ≡ r.nid + 1 = omega arith in
    (
      record {
        in_ring = omega (arith, next);
        bit = v.bit;
        queued = λ i lt. elim (Bool-cases (i == r.nid)) [
          | inl y ↦
              ap cycle (copy_here r b i ((==_iff i r.nid).0 y))
              ∙ with_cycle_lem b.data3 r.ccs even v.bit
          | inr n ↦ ap cycle (copy_other r b i n) ∙ v.queued i (ground (arith, next))
        ];
        open_places = λ i le lt.
            let n : (i == r.nid) ≡ false = ground (arith, next) in
            ap cycle (copy_other r b i n) ∙ v.open_places i (omega (arith, next)) lt;
      },
      next,
      refl,
      copy_here r b r.nid refl,
      λ i n. copy_other r b i n,
    )

-- The two cases of `XHCIQueueTRB`.
pub data QueueOutcome (base : ℕ) (r : TransferRing) (b : TransferBlock) (r' : TransferRing)
    : Type 0 where
  appended : r.nid < 254 → IsQueued r b r' → QueueOutcome base r b r'
  wrapped :
      254 ≤ r.nid
      → IsMarked r'
      → r'.nid ≡ 1
      → r'.ccs ≡ 1 - r.ccs
      → r'.ring 254 ≡ stored (link_block base) r.ccs
      → r'.ring 0 ≡ stored b r'.ccs
      → QueueOutcome base r b r'

queue-appended :
    (base : ℕ) (r : TransferRing) (b : TransferBlock)
    → leb 254 r.nid ≡ false
    → xhci_queue_trb base r b ≡ record (xhci_copy_trb r b) { nid = u16 (r.nid + 1) }
unfolding xhci_queue_trb
queue-appended base r b n = rw n refl

queue-wrapped :
    (base : ℕ) (r : TransferRing) (b : TransferBlock)
    → leb 254 r.nid ≡ true
    → xhci_queue_trb base r b
      ≡ (let w = wrap_ring base r in record (xhci_copy_trb w b) { nid = u16 (w.nid + 1) })
unfolding xhci_queue_trb
queue-wrapped base r b y = rw y refl

-- `XHCIQueueTRB` of a block without its cycle bit, on a ring whose cycle bits mark what was queued in
-- this round: the cycle bits mark it again, and the block is the next one of the ring, or, where only
-- the last place is left, that place has the link to the begin of the ring with the old cycle, and
-- the block is the first of the next round, with the other cycle.
pub xhci_queue_trb-QueueOutcome :
    (base : ℕ) (r : TransferRing) (b : TransferBlock)
    → b.data3 % 2 ≡ 0
    → IsMarked r
    → QueueOutcome base r b (xhci_queue_trb base r b)
xhci_queue_trb-QueueOutcome base r b even v = elim (Bool-cases (leb 254 r.nid)) [
  | inr n ↦
      rw (queue-appended base r b n)
        (appended (leb_false→lt 254 r.nid n) (IsQueued-copy r b (leb_false→lt 254 r.nid n) even v))
  | inl y ↦
      let w = wrap_ring base r in
      let (marked, start, other, link) = IsMarked-wrap_ring base r (leb→le 254 r.nid y) v in
      let (again, next, same, here, kept) = IsQueued-copy w b (omega (arith, start)) even marked in
      rw (queue-wrapped base r b y) (
        wrapped (leb→le 254 r.nid y) again (next ∙ ap (λ n. n + 1) start) (same ∙ other)
          (kept 254 (ground (arith, start)) ∙ link)
          (ap (xhci_copy_trb w b).ring (sym start) ∙ (here ∙ ap (stored b) (sym same))))
]

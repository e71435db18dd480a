-- ===== src/Xhci/Tests.antt =====
-- The rings of a controller at concrete inputs.
use strawberry_os.Prelude.{ℕ, ◌≡◌, refl, arith, leb, if◌then◌else◌, some, [], ◌∷◌}
use strawberry_os.Xhci.{
  TransferBlock, TransferRing, EventState, xhci_queue_trb, xhci_process_event, complete_block,
  next_event, transfer_blocks, setup_stage, data_stage, status_stage, DeviceRequest,
}
use strawberry_os.Xhci.Marks.{IsMarked, QueueOutcome, xhci_queue_trb-QueueOutcome}

abbrev marked : ℕ → TransferBlock
marked c = record { data0 = 0; data1 = 0; data2 = 0; data3 = c }

-- A ring whose last place is left, in the round with the cycle 1.
abbrev full_ring : TransferRing
full_ring = record {
  ring = λ i. marked (if leb 254 i then 0 else 1);
  evt = marked 0;
  eid = 0;
  nid = 254;
  ccs = 1;
}

full_ring-IsMarked : IsMarked full_ring
full_ring-IsMarked = record {
  in_ring = omega arith;
  bit = omega arith;
  queued = λ i h. ground arith;
  open_places = λ i h k. ground arith;
}

-- A block of the type `TRB_NORMAL`.
abbrev normal : TransferBlock
normal = record { data0 = 0x1000; data1 = 0; data2 = 8; data3 = 0x420 }

xhci_queue_trb-QueueOutcome_example :
    QueueOutcome 0x5000 full_ring normal (xhci_queue_trb 0x5000 full_ring normal)
xhci_queue_trb-QueueOutcome_example =
    xhci_queue_trb-QueueOutcome 0x5000 full_ring normal refl full_ring-IsMarked

-- The event of the third block of the page 5.
abbrev events : EventState
events = record {
  event = record {
    ring = λ i. record { data0 = 0x5020; data1 = 0; data2 = 0x01000000; data3 = 0x8001 };
    evt = marked 0;
    eid = 0;
    nid = 254;
    ccs = 1;
  };
  rings = λ i. full_ring;
  psc = λ i. 0;
  erd = 0;
}

event_completes :
    ((xhci_process_event (λ p. p) events).0 ≡ 1)
    × (((xhci_process_event (λ p. p) events).1.rings 5).eid ≡ 3)
    × ((xhci_process_event (λ p. p) events).1.event.nid ≡ 0)
    × ((xhci_process_event (λ p. p) events).1.event.ccs ≡ 0)
unfolding xhci_process_event complete_block next_event
event_completes = (refl, refl, refl, refl)

-- "Get descriptor", 18 bytes to the host.
abbrev get_descriptor : DeviceRequest
get_descriptor = record { t = 0x80; c = 6; v = 0x100; i = 0; l = 18 }

three_stages :
    transfer_blocks (some get_descriptor) 0x9000 0
    ≡ record { data0 = 0x01000680; data1 = 0x120000; data2 = 8; data3 = 0x30840 }
      ∷ record { data0 = 0x9000; data1 = 0; data2 = 18; data3 = 0x10C00 }
      ∷ record { data0 = 0; data1 = 0; data2 = 0; data3 = 0x1020 }
      ∷ []
unfolding transfer_blocks setup_stage data_stage status_stage
three_stages = refl

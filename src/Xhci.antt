-- ===== src/Xhci.antt =====
-- KERNEL/SOURCE/device/xhci.c: the rings of an xHCI controller.
--
-- A ring is its blocks by their index, of which 255 are used. Physical addresses of buffers and of a
-- ring are arguments, as `physical_mapping` gives them, and so is the ring that a page belongs to.
pub mod Marks
mod Tests
use strawberry_os.Prelude.{
  ℕ, ◌+◌, ◌-◌, ◌*◌, ◌/◌, ◌%◌, ◌^◌, Option, none, some, List, [], ◌∷◌, leb, ◌==◌, if◌then◌else◌, u16,
  u32,
}

-- `XHCI_TRANSFER_BLOCK`
pub record TransferBlock : Type 0 where
  pub data0 : ℕ
  pub data1 : ℕ
  pub data2 : ℕ
  pub data3 : ℕ

-- The bit `C` and the field `TYPE`.
abbrev pub cycle : TransferBlock → ℕ
cycle b = b.data3 % 2

abbrev pub block_type : TransferBlock → ℕ
block_type b = b.data3 / 2 ^ 10 % 2 ^ 6

-- `XHCI_TRANSFER_RING`
pub record TransferRing : Type 0 where
  pub ring : ℕ → TransferBlock
  pub evt : TransferBlock
  pub eid : ℕ
  pub nid : ℕ
  pub ccs : ℕ

-- `XHCI_RING_ITEMS`
abbrev pub ring_items : ℕ
ring_items = 255

-- `x | CCS`, where `CCS` is 0 or 1.
abbrev pub with_cycle : ℕ → ℕ → ℕ
with_cycle x ccs = if ccs == 0 then x else x / 2 * 2 + 1

-- `x ^ 1`
abbrev pub toggle : ℕ → ℕ
toggle x = if x % 2 == 0 then x + 1 else x - 1

-- `XHCICopyTRB`
unfoldable pub xhci_copy_trb : TransferRing → TransferBlock → TransferRing
xhci_copy_trb r block = record r {
  ring =
      λ i. if i == r.nid then record block { data3 = with_cycle block.data3 r.ccs } else r.ring i;
}

-- The link to the begin of the ring, at the physical address `base`.
abbrev pub link_block : ℕ → TransferBlock
link_block base = record {
  data0 = base / 16 * 16 % 2 ^ 32;
  data1 = base / 2 ^ 32;
  data2 = 0;
  data3 = 2 + 6 * 2 ^ 10;
}

-- The end of the ring: the link is stored, and the ring begins anew with the other cycle.
unfoldable pub wrap_ring : ℕ → TransferRing → TransferRing
wrap_ring base r = record (xhci_copy_trb r (link_block base)) { nid = 0; ccs = toggle r.ccs }

-- `XHCIQueueTRB`
unfoldable pub xhci_queue_trb : ℕ → TransferRing → TransferBlock → TransferRing
xhci_queue_trb base r block =
    let r1 = if leb (ring_items - 1) r.nid then wrap_ring base r else r in
    record (xhci_copy_trb r1 block) { nid = u16 (r1.nid + 1) }

-- `USB_DEVICE_REQUEST`
pub record DeviceRequest : Type 0 where
  pub t : ℕ
  pub c : ℕ
  pub v : ℕ
  pub i : ℕ
  pub l : ℕ

-- `XHCI_TRB_SETUP_STAGE`, `XHCI_TRB_DATA_STAGE`, `XHCI_TRB_STATUS_STAGE` and `XHCI_TRB_NORMAL` as
-- `XHCITransfer` fills them.
unfoldable pub setup_stage : DeviceRequest → TransferBlock
setup_stage req = record {
  data0 = req.t + req.c * 2 ^ 8 + req.v * 2 ^ 16;
  data1 = req.i + req.l * 2 ^ 16;
  data2 = 8;
  data3 = 2 ^ 6 + 2 * 2 ^ 10 + (if req.l == 0 then 0 else 2 + req.t / 2 ^ 7 % 2) * 2 ^ 16;
}

unfoldable pub data_stage : DeviceRequest → ℕ → TransferBlock
data_stage req physical = record {
  data0 = u32 physical;
  data1 = u32 (physical / 2 ^ 32);
  data2 = req.l;
  data3 = 3 * 2 ^ 10 + req.t / 2 ^ 7 % 2 * 2 ^ 16;
}

unfoldable pub status_stage : DeviceRequest → TransferBlock
status_stage req = record {
  data0 = 0;
  data1 = 0;
  data2 = 0;
  data3 = 2 ^ 5 + 4 * 2 ^ 10 + (1 - req.t / 2 ^ 7 % 2) * 2 ^ 16;
}

unfoldable pub normal_block : ℕ → ℕ → TransferBlock
normal_block physical xferlen = record {
  data0 = u32 physical;
  data1 = u32 (physical / 2 ^ 32);
  data2 = xferlen % 2 ^ 17;
  data3 = 2 ^ 5 + 1 * 2 ^ 10;
}

-- The blocks of a transfer, in order.
unfoldable pub transfer_blocks : Option DeviceRequest → ℕ → ℕ → List TransferBlock
transfer_blocks none physical xferlen = normal_block physical xferlen ∷ []
transfer_blocks (some req) physical xferlen =
    if req.l == 0
    then setup_stage req ∷ status_stage req ∷ []
    else setup_stage req ∷ data_stage req physical ∷ status_stage req ∷ []

unfoldable pub queue_all : ℕ → TransferRing → List TransferBlock → TransferRing
queue_all base r [] = r
queue_all base r (b ∷ bs) = queue_all base (xhci_queue_trb base r b) bs

-- What is on the ring of the pipe when `XHCITransfer` rings the doorbell; it returns at once for
-- `USB_REQ_SET_ADDRESS`.
unfoldable pub xhci_transfer : ℕ → TransferRing → Option DeviceRequest → ℕ → ℕ → TransferRing
xhci_transfer base r none physical xferlen =
    queue_all base r (transfer_blocks none physical xferlen)
xhci_transfer base r (some req) physical xferlen =
    if req.c == 5 then r else queue_all base r (transfer_blocks (some req) physical xferlen)

-- The state that the events of a controller change: its event ring, the rings by their addresses,
-- the status of its ports, and the index in `ERD`.
pub record EventState : Type 0 where
  pub event : TransferRing
  pub rings : ℕ → TransferRing
  pub psc : ℕ → ℕ
  pub erd : ℕ

-- `TRB_TRANSFER` and `TRB_COMMAND_COMPLETE`: the ring of the block that was completed has the event,
-- and the index behind that block.
unfoldable pub complete_block : (ℕ → ℕ) → EventState → TransferBlock → EventState
complete_block ring_of s trb =
    let pointer = trb.data0 + trb.data1 * 2 ^ 32 in
    let at = ring_of (pointer / 2 ^ 12) in
    record s {
      rings = λ i.
          if i == at
          then record (s.rings i) { evt = trb; eid = pointer / 2 ^ 4 % 2 ^ 8 + 1 }
          else s.rings i;
    }

-- `TRB_PORT_STATUS_CHANGE`: the bits `PED` and `PR` and the link state, bits 5 to 8, are written as 0,
-- but for bit 5.
unfoldable pub port_status : EventState → TransferBlock → EventState
port_status s trb =
    let port = u32 (trb.data0 / 2 ^ 24 % 2 ^ 8 + 2 ^ 32 - 1) in
    record s {
      psc = λ i.
          if i == port
          then s.psc i % 2 + s.psc i / 2 ^ 2 % 4 * 2 ^ 2 + 2 ^ 5 + s.psc i / 2 ^ 9 * 2 ^ 9
          else s.psc i;
    }

abbrev no_block : TransferBlock
no_block = record { data0 = 0; data1 = 0; data2 = 0; data3 = 0 }

-- "Move ring index": the event is cleared, and the ring goes round at its end.
unfoldable pub next_event : EventState → EventState
next_event s =
    let nid = s.event.nid + 1 in
    let at_end = nid == ring_items in
    let n = if at_end then 0 else nid in
    record s {
      event = record s.event {
        ring = λ i. if i == s.event.nid then no_block else s.event.ring i;
        nid = n;
        ccs = if at_end then toggle s.event.ccs else s.event.ccs;
      };
      erd = n;
    }

-- `XHCIProcessEvent`: whether there was an event, and the state.
unfoldable pub xhci_process_event : (ℕ → ℕ) → EventState → ℕ × EventState
xhci_process_event ring_of s =
    let trb = s.event.ring s.event.nid in
    let kind = block_type trb in
    let handled =
      if kind == 32
      then complete_block ring_of s trb
      else (if kind == 33
          then complete_block ring_of s trb
          else (if kind == 34 then port_status s trb else s)) in
    if kind == 0
    then (0, s)
    else (if cycle trb == s.event.ccs then (1, next_event handled) else (0, s))

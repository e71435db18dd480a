-- ===== src/Keyboard.antt =====
-- KERNEL/SOURCE/device/keyboard.c: the ring of key events.
pub mod Fifo
mod Tests
use strawberry_os.Prelude.{ℕ, ◌+◌, ◌%◌, List, get_or, set, ◌==◌, if◌then◌else◌, u16}

-- `KEY_EVENT_RING`: the bytes, and as `WORD`s their count, the index of the next free place and the
-- index of the next event to read.
pub record KeyEventRing : Type 0 where
  pub rng : List ℕ
  pub cnt : ℕ
  pub nid : ℕ
  pub eid : ℕ

-- `KeyEvent`: an event is dropped when the ring is full. The sum of the test is an `int`.
pub key_event : KeyEventRing → ℕ → KeyEventRing
key_event ring keycode =
    if (ring.nid + 1) % ring.cnt == ring.eid
    then ring
    else record ring { rng = set ring.rng ring.nid keycode; nid = u16 (ring.nid + 1) % ring.cnt }

-- `KeyNext`: the oldest event, or 0 if there is none.
pub key_next : KeyEventRing → ℕ × KeyEventRing
key_next ring =
    if ring.eid == ring.nid
    then (0, ring)
    else (get_or ring.rng ring.eid 0, record ring { eid = u16 (ring.eid + 1) % ring.cnt })

-- `CreateKeyEventRing`, given the page that `AllocatePhysicalMemory` returned.
pub create_key_event_ring : List ℕ → KeyEventRing
create_key_event_ring page = record { rng = page; cnt = 4096; nid = 0; eid = 0 }

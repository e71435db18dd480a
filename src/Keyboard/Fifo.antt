-- ===== src/Keyboard/Fifo.antt =====
-- The ring of key events holds a queue of at most `CNT - 1` codes, oldest first.
use mathlib.Core.Path.{ap₂}
use native.Mathlib.Nat.{mod-eq_of_lt, mod-eq-sub-mod}
use strawberry_os.Prelude.{
  ℕ, zero, suc, ◌+◌, ◌-◌, ◌%◌, ◌^◌, ◌≤◌, ◌<◌, ◌≡◌, refl, sym, ap, ◌∙◌, List, [], ◌∷◌, ◌++◌, get_or,
  set, length, arith, ◌==◌, leb, ltb, if◌then◌else◌, u16, get_or-set_self, get_or-set_ne,
  length-set, inl, inr, Bool-cases, ==_iff,
}
use strawberry_os.Keyboard.{KeyEventRing, key_event, key_next, create_key_event_ring}

-- The index behind `h`, going round at `cnt`.
abbrev step : ℕ → ℕ → ℕ
step cnt h = if h + 1 == cnt then 0 else h + 1

-- The `n` bytes from index `h` on.
abbrev pub window : List ℕ → ℕ → ℕ → ℕ → List ℕ
window rng cnt h zero = []
window rng cnt h (suc n) = get_or rng h 0 ∷ window rng cnt (step cnt h) n

-- How many events wait, and which.
abbrev pub waiting : KeyEventRing → ℕ
waiting r = if leb r.eid r.nid then r.nid - r.eid else r.nid + r.cnt - r.eid

abbrev pub events : KeyEventRing → List ℕ
events r = window r.rng r.cnt r.eid (waiting r)

pub record IsRing (r : KeyEventRing) : Type 0 where
  pub storage : r.cnt ≤ length r.rng
  pub word : r.cnt < 2 ^ 16
  pub nid_in : r.nid < r.cnt
  pub eid_in : r.eid < r.cnt

length-window : (rng : List ℕ) (cnt h n : ℕ) → length (window rng cnt h n) ≡ n
length-window rng cnt h zero = refl
length-window rng cnt h (suc n) = ap suc (length-window rng cnt (step cnt h) n)

mod_step : (cnt h : ℕ) → h < cnt → (h + 1) % cnt ≡ step cnt h
mod_step cnt h p = elim (Bool-cases (h + 1 == cnt)) [
  | inl y ↦
      let e = (==_iff _ _).0 y in
      rw y (
        omega (
          arith,
          mod-eq-sub-mod {n = h + 1} {m = cnt} (omega arith),
          mod-eq_of_lt {n = h + 1 - cnt} {m = cnt} (omega arith),
        ))
  | inr n ↦ rw n (mod-eq_of_lt (ground arith))
]

-- The place `n` behind `h`.
abbrev place : ℕ → ℕ → ℕ → ℕ
place cnt h n = if ltb (h + n) cnt then h + n else h + n - cnt

-- A byte that is stored just behind a window extends it.
window-set :
    (rng : List ℕ) (cnt x h n i : ℕ)
    → cnt ≤ length rng
    → h < cnt
    → n < cnt
    → i ≡ place cnt h n
    → window (set rng i x) cnt h (suc n) ≡ window rng cnt h n ++ (x ∷ [])
window-set rng cnt x h zero i s hh hn e =
    let here : i ≡ h = ground arith in
    rw here (ap (λ y. y ∷ []) (get_or-set_self rng h x 0 (omega arith)))
window-set rng cnt x h (suc n) i s hh hn e =
    ap₂ ◌∷◌ (get_or-set_ne rng x 0 (ground arith))
      (window-set rng cnt x (step cnt h) n i s (ground arith) (omega arith) (ground arith))

window_eq : (rng : List ℕ) (cnt h : ℕ) {m n : ℕ} → m ≡ n → window rng cnt h m ≡ window rng cnt h n
window_eq rng cnt h e = ap (window rng cnt h) e

-- The test of `KeyEvent` finds a ring full that holds one event less than its storage.
full_iff :
    (r : KeyEventRing)
    → IsRing r
    → ((r.nid + 1) % r.cnt == r.eid) ≡ (length (events r) + 1 == r.cnt)
full_iff r v =
    ground (arith, mod_step r.cnt r.nid v.nid_in, length-window r.rng r.cnt r.eid (waiting r))

-- The queue that the ring stands for.
abbrev pub push : ℕ → List ℕ → ℕ → List ℕ
push cap q code = if length q + 1 == cap then q else q ++ (code ∷ [])

abbrev pub pop : List ℕ → ℕ × List ℕ
pop [] = (0, [])
pop (x ∷ q) = (x, q)

pub key_event-IsRing : (r : KeyEventRing) (code : ℕ) → IsRing r → IsRing (key_event r code)
unfolding key_event
key_event-IsRing r code v =
    ground (arith, mod_step r.cnt r.nid v.nid_in, length-set r.rng r.nid code)

pub cnt-key_event : (r : KeyEventRing) (code : ℕ) → (key_event r code).cnt ≡ r.cnt
unfolding key_event
cnt-key_event r code = ground arith

-- An event that arrives is appended, unless the ring is full.
pub events-key_event :
    (r : KeyEventRing) (code : ℕ)
    → IsRing r
    → events (key_event r code) ≡ push r.cnt (events r) code
unfolding key_event
events-key_event r code v = rw (← full_iff r v) (elim (Bool-cases ((r.nid + 1) % r.cnt == r.eid)) [
  | inl y ↦ rw y
  | inr n ↦
      let m = mod_step r.cnt r.nid v.nid_in in
      let room : waiting r + 1 < r.cnt = ground (arith) in
      rw n (
        window_eq (set r.rng r.nid code) r.cnt r.eid {n = suc (waiting r)} (ground arith)
        ∙ window-set r.rng r.cnt code r.eid (waiting r) r.nid v.storage v.eid_in (omega arith)
            (ground arith))
])

pub key_next-IsRing : (r : KeyEventRing) → IsRing r → IsRing (key_next r).1
unfolding key_next
key_next-IsRing r v = ground (arith, mod_step r.cnt r.eid v.eid_in)

pub cnt-key_next : (r : KeyEventRing) → (key_next r).1.cnt ≡ r.cnt
unfolding key_next
cnt-key_next r = ground arith

-- What is read is the oldest event, and 0 where there is none; the others stay.
pub events-key_next :
    (r : KeyEventRing) → IsRing r → ((key_next r).0, events (key_next r).1) ≡ pop (events r)
unfolding key_next
events-key_next r v = elim (Bool-cases (r.eid == r.nid)) [
  | inl y ↦
      let e : events r ≡ [] = window_eq r.rng r.cnt r.eid {n = 0} (ground arith) in
      rw y (ap {B = ℕ × List ℕ} (λ q. (0, q)) e ∙ sym (ap pop e))
  | inr n ↦
      let m = mod_step r.cnt r.eid v.eid_in in
      let r' : KeyEventRing = record r { eid = u16 (r.eid + 1) % r.cnt } in
      let e : events r ≡ get_or r.rng r.eid 0 ∷ events r' =
        window_eq r.rng r.cnt r.eid {n = suc (waiting r')} (ground arith)
        ∙ ap (λ k. get_or r.rng r.eid 0 ∷ window r.rng r.cnt k (waiting r')) (ground arith) in
      rw n (sym (ap pop e))
]

-- What happens to the ring: a key is pressed, or the main loop reads.
pub data Op : Type 0 where
  press : ℕ → Op
  read : Op

-- The codes that are read, in order.
unfoldable pub run : KeyEventRing → List Op → List ℕ
run r [] = []
run r (press code ∷ ops) = run (key_event r code) ops
run r (read ∷ ops) = (key_next r).0 ∷ run (key_next r).1 ops

pub run_queue : ℕ → List ℕ → List Op → List ℕ
run_queue cap q [] = []
run_queue cap q (press code ∷ ops) = run_queue cap (push cap q code) ops
run_queue cap q (read ∷ ops) = (pop q).0 ∷ run_queue cap (pop q).1 ops

-- Whatever the order of key presses and reads, the codes that are read from a well-formed ring are
-- those of a queue that begins with the waiting events, holds at most `CNT - 1` of them, drops what
-- arrives when it is full, and reads as 0 when it is empty.
pub run_refines :
    (ops : List Op) (r : KeyEventRing) → IsRing r → run r ops ≡ run_queue r.cnt (events r) ops
unfolding run run_queue
run_refines [] r v = refl
run_refines (press code ∷ ops) r v =
    run_refines ops (key_event r code) (key_event-IsRing r code v)
    ∙ ap₂ (λ c q. run_queue c q ops) (cnt-key_event r code) (events-key_event r code v)
run_refines (read ∷ ops) r v =
    let next = key_next r in
    ap₂ ◌∷◌ (ap (λ (x : ℕ × List ℕ). x.0) (events-key_next r v)) (
      run_refines ops next.1 (key_next-IsRing r v)
      ∙ ap₂ (λ c q. run_queue c q ops) (cnt-key_next r)
          (ap (λ (x : ℕ × List ℕ). x.1) (events-key_next r v)))

-- A ring that was just created, over a page of 4096 bytes, is well formed and empty.
pub create_key_event_ring-IsRing :
    (page : List ℕ)
    → length page ≡ 4096
    → IsRing (create_key_event_ring page) × (events (create_key_event_ring page) ≡ [])
unfolding create_key_event_ring
create_key_event_ring-IsRing page h = (omega arith, refl)

-- ===== src/Bios/Tables/Pages.antt =====
-- The pages that `setup_paging` takes, and which words it writes.
use strawberry_os.Prelude.{
  ℕ, zero, suc, ◌+◌, ◌-◌, ◌*◌, ◌%◌, ◌^◌, ◌≤◌, ◌<◌, ◌≡◌, ◌≢◌, refl, ◌∙◌, arith, true, false, some,
  List, [], ◌∷◌, ltb, leb, ◌==◌, ◌&&◌, if◌then◌else◌, add64, Bool-cases, inl, inr, All,
}
use strawberry_os.Bios.Memory.{Area}
use strawberry_os.Bios.Memory.Taken.{free_at, within}
use strawberry_os.Bios.Memory.Room.{Low, IsReady, Room-less, allocate_physical-IsReady}
use strawberry_os.Bios.Tables.{BootMemory, store_at, new_table, fill_pages, fill_table}

-- A page of 4K that is not in the map.
pub record IsTable (areas : List Area) (t : ℕ) : Type 0 where
  pub aligned : t % 2 ^ 12 ≡ 0
  pub low : t < 2 ^ 47
  pub used : free_at t areas ≡ 0

-- The words outside of a page.
abbrev pub KeptOutside : ℕ → BootMemory → BootMemory → Type 0
KeptOutside t m m' = (q : ℕ) → within t (2 ^ 12) q ≡ false → m'.words q ≡ m.words q

free_at-Low : (areas : List Area) (x : ℕ) → All Low areas → 0 < free_at x areas → x < 2 ^ 47
free_at-Low [] x v h = absurd (omega arith)
free_at-Low (r ∷ rs) x (low, lows) h = elim (Bool-cases (r.f0 == 1 && within r.a0 r.s0 x)) [
  | inl y ↦ ground arith
  | inr n ↦ free_at-Low rs x lows (let h' = rw n at h in omega (arith, h'))
]

-- What a new table is.
pub record IsNewTable (k : ℕ) (m : BootMemory) (t : ℕ) (m' : BootMemory) : Type 0 where
  pub table : IsTable m'.areas t
  pub was_free : free_at t m.areas ≡ 1
  pub less : (x : ℕ) → free_at x m'.areas ≤ free_at x m.areas
  pub ready : IsReady (k - 2 ^ 13) m'.areas
  pub kept : KeptOutside t m m'

pub new_table_lem :
    (m : BootMemory) (k : ℕ)
    → 2 ^ 13 ≤ k
    → IsReady k m.areas
    → (t : ℕ) × (m' : BootMemory) × (new_table m ≡ some (t, m')) × IsNewTable k m t m'
unfolding new_table
new_table_lem m k enough v =
    let (p, e, taken, ready) =
      allocate_physical-IsReady m.areas 0 1 k (omega arith) (omega arith) (omega arith) v in
    let one : p.count ≡ 1 = omega (arith, taken.some_pages, taken.no_more) in
    let here : within p.address (p.count * 2 ^ 12) p.address ≡ true = ground arith in
    let at_first = rw here at (taken.taken p.address) in
    let was : free_at p.address m.areas ≡ 1 = omega (arith, at_first, v.once p.address) in
    (
      p.address,
      record {
        words = λ q. if leb p.address q && ltb q (p.address + 2 ^ 12) then 0 else m.words q;
        areas = p.areas;
      },
      rw e refl,
      record {
        table = record {
          aligned = taken.aligned;
          low = free_at-Low m.areas p.address v.low (omega (arith, was));
          used = omega (arith, at_first, was);
        };
        was_free = was;
        less = λ x. omega (arith, taken.taken x);
        ready = record {
          low = ready.low;
          once = ready.once;
          room = Room-less _ (k - 2 ^ 13) p.areas (omega (arith, one)) ready.room;
        };
        kept = λ q h. rw h refl;
      },
    )

pub IsTable-less :
    (m m' : BootMemory) (t : ℕ)
    → ((x : ℕ) → free_at x m'.areas ≤ free_at x m.areas)
    → IsTable m.areas t
    → IsTable m'.areas t
IsTable-less m m' t less v =
    let le = less t in record { aligned = v.aligned; low = v.low; used = omega (arith, v.used, le) }

-- A page that was free is another one.
pub other_table : (m : BootMemory) (t a : ℕ) → IsTable m.areas t → free_at a m.areas ≡ 1 → t ≢ a
other_table m t a v h e = let used = rw e at v.used in omega (arith, used, h)

KeptOutside-trans :
    (t : ℕ) (m m1 m2 : BootMemory) → KeptOutside t m m1 → KeptOutside t m1 m2 → KeptOutside t m m2
KeptOutside-trans t m m1 m2 v w q h = w q h ∙ v q h

pub store_at-KeptOutside :
    (m : BootMemory) (t i x : ℕ) → i < 512 → KeptOutside t m (store_at m t i x)
unfolding store_at
store_at-KeptOutside m t i x lt q h = ground arith

fill_pages-KeptOutside :
    (n : ℕ) (m : BootMemory) (t idx2 address : ℕ)
    → idx2 + n ≤ 512
    → KeptOutside t m (fill_pages n m t idx2 address)
      × ((fill_pages n m t idx2 address).areas ≡ m.areas)
unfolding fill_pages store_at
fill_pages-KeptOutside zero m t idx2 address le = (λ q h. refl, refl)
fill_pages-KeptOutside (suc n) m t idx2 address le =
    let m' = store_at m t idx2 (address + 0x183) in
    let (kept, same) =
      fill_pages-KeptOutside n m' t (idx2 + 1) (add64 address (2 ^ 21)) (omega arith) in
    (λ q h. kept q h ∙ store_at-KeptOutside m t idx2 (address + 0x183) (omega arith) q h, same)

-- The loop over a part of a table ends, with room for its pages and as many gaps.
pub fill_table_lem :
    (fuel : ℕ) (m : BootMemory) (t idx2 stop k : ℕ)
    → stop - idx2 < fuel
    → stop ≤ 512
    → (stop - idx2) * 2 ^ 22 ≤ k
    → IsReady k m.areas
    → (m' : BootMemory) × (fill_table fuel m t idx2 stop ≡ some m')
      × IsReady (k - (stop - idx2) * 2 ^ 22) m'.areas
      × ((x : ℕ) → free_at x m'.areas ≤ free_at x m.areas)
      × KeptOutside t m m'
unfolding fill_table
fill_table_lem zero m t idx2 stop k more le enough v = absurd (omega arith)
fill_table_lem (suc fuel) m t idx2 stop k more le enough v = elim (Bool-cases (ltb idx2 stop)) [
  | inl y ↦
      let lt : idx2 < stop = ground arith in
      let (p, e, taken, ready) =
        allocate_physical-IsReady m.areas 1 (stop - idx2) k (omega arith) (omega arith)
          (omega arith) v in
      let some_pages = taken.some_pages in
      let no_more = taken.no_more in
      let (kept, same) =
        fill_pages-KeptOutside p.count (record m { areas = p.areas }) t idx2 p.address
          (omega arith) in
      let m1 = fill_pages p.count (record m { areas = p.areas }) t idx2 p.address in
      let ready1 : IsReady (k - p.count * 2 ^ 22) m1.areas = rw same (record {
        low = ready.low;
        once = ready.once;
        room = Room-less _ (k - p.count * 2 ^ 22) p.areas (omega arith) ready.room;
      }) in
      let less1 : (x : ℕ) → free_at x m1.areas ≤ free_at x m.areas =
        λ x. rw same (omega (arith, taken.taken x)) in
      let (m2, e2, ready2, less2, kept2) =
        fill_table_lem fuel m1 t (idx2 + p.count) stop (k - p.count * 2 ^ 22) (omega arith) le
          (omega arith) ready1 in
      (
        m2,
        rw (y, e) e2,
        record {
          low = ready2.low;
          once = ready2.once;
          room = Room-less _ (k - (stop - idx2) * 2 ^ 22) m2.areas (omega arith) ready2.room;
        },
        λ x. omega (arith, less1 x, less2 x),
        KeptOutside-trans t m m1 m2 kept kept2,
      )
  | inr n ↦
      let done : stop ≤ idx2 = ground arith in
      (
        m,
        rw n refl,
        record {
          low = v.low;
          once = v.once;
          room = Room-less k (k - (stop - idx2) * 2 ^ 22) m.areas (omega arith) v.room;
        },
        λ x. omega arith,
        λ q h. refl,
      )
]

-- ===== src/Acpi/Madt.antt =====
-- The walk through the entries of the MADT.
use strawberry_os.Prelude.{
  ℕ, zero, suc, ◌+◌, ◌-◌, ◌%◌, ◌^◌, ◌≤◌, ◌<◌, ◌≡◌, refl, ◌∙◌, arith, Bool, true, false, some, List,
  [], ◌∷◌, ◌==◌, ◌&&◌, if◌then◌else◌, sub64,
}
use strawberry_os.Acpi.{walk_madt, starts_here, dword_at}

-- An entry of the table, with the fields of an entry for a processor.
pub record MadtEntry : Type 0 where
  pub kind : ℕ
  pub size : ℕ
  pub apic_id : ℕ
  pub flags : ℕ

-- The entry stands at `at`, and is not longer than what is left.
pub record IsEntryAt (m : ℕ → ℕ) (at length : ℕ) (e : MadtEntry) : Type 0 where
  pub has_kind : m at ≡ e.kind
  pub has_size : m (at + 1) ≡ e.size
  pub has_id : m (at + 3) ≡ e.apic_id
  pub has_flags : dword_at m (at + 4) ≡ e.flags
  pub some_size : 0 < e.size
  pub inside : e.size ≤ length

-- The entries fill the bytes from `at` on exactly.
unfoldable pub IsTable : (ℕ → ℕ) → ℕ → ℕ → List MadtEntry → Type 0
IsTable m at length [] = length ≡ 0
IsTable m at length (e ∷ es) =
    IsEntryAt m at length e × IsTable m (at + e.size) (length - e.size) es

-- The entries of processors that are enabled, but for the one that runs.
unfoldable pub starts : ℕ → MadtEntry → Bool
starts bsp e = e.kind == 0 && (e.flags % 2 == 1 && (if e.apic_id == bsp then false else true))

unfoldable pub processors : ℕ → List MadtEntry → List ℕ
processors bsp [] = []
processors bsp (e ∷ es) = if starts bsp e then e.apic_id ∷ processors bsp es else processors bsp es

starts-eq :
    (m : ℕ → ℕ) (bsp at length : ℕ) (e : MadtEntry)
    → IsEntryAt m at length e
    → starts_here m bsp at ≡ starts bsp e
unfolding starts_here starts
starts-eq m bsp at length e v = rw (v.has_kind, v.has_flags, v.has_id) refl

walk-end :
    (fuel : ℕ) (m : ℕ → ℕ) (bsp at length : ℕ)
    → length ≡ 0
    → walk_madt (suc fuel) m bsp at length ≡ some []
unfolding walk_madt
walk-end fuel m bsp at length e = rw (walk_madt, e) refl

walk-more :
    (fuel : ℕ) (m : ℕ → ℕ) (bsp at length size : ℕ) (ids : List ℕ)
    → m (at + 1) ≡ size
    → 0 < size
    → size ≤ length
    → length < 2 ^ 64
    → walk_madt fuel m bsp (at + size) (length - size) ≡ some ids
    → walk_madt (suc fuel) m bsp at length
      ≡ some (if starts_here m bsp at then m (at + 3) ∷ ids else ids)
unfolding walk_madt
walk-more fuel m bsp at length size ids e pos le small rest =
    let more : (length == 0) ≡ false = ground arith in
    let left : sub64 length size ≡ length - size = omega arith in
    rw (walk_madt, e, more, left, rest) refl

-- On entries that fill the data of a MADT shorter than 2^64 exactly, none of them empty, and with more
-- fuel than bytes, the walk ends, and `StartupAP` is called for the entries of enabled processors but
-- for the running one, in order.
pub walk_madt-processors :
    (fuel : ℕ) (m : ℕ → ℕ) (bsp at length : ℕ) (es : List MadtEntry)
    → length < fuel
    → length < 2 ^ 64
    → IsTable m at length es
    → walk_madt fuel m bsp at length ≡ some (processors bsp es)
unfolding IsTable processors
walk_madt-processors zero m bsp at length es enough small v = absurd (omega arith)
walk_madt-processors (suc fuel) m bsp at length [] enough small v = walk-end fuel m bsp at length v
walk_madt-processors (suc fuel) m bsp at length (e ∷ es) enough small (v, more) =
    let left = v.inside in
    let pos = v.some_size in
    let rest =
      walk_madt-processors fuel m bsp (at + e.size) (length - e.size) es (omega arith) (omega arith)
        more in
    walk-more fuel m bsp at length e.size (processors bsp es) v.has_size pos left small rest
    ∙ rw (starts-eq m bsp at length e v, v.has_id) refl

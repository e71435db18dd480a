-- ===== src/Usb/Endpoint.antt =====
-- `USBSearchEndpoint` finds the first endpoint that fits, before the next interface.
use strawberry_os.Prelude.{
  ℕ, zero, suc, ◌+◌, ◌*◌, ◌/◌, ◌%◌, ◌^◌, ◌≤◌, ◌<◌, ◌≡◌, ◌≢◌, refl, ap, arith, true, false, some,
  List, [], ◌∷◌, ◌++◌, leb, ◌==◌, Bool-cases, ==_iff, inl, inr, All, length, le→leb,
}
use strawberry_os.Disk.{Buffer}
use strawberry_os.Acpi.{word_at}
use strawberry_os.Usb.Search.{is_endpoint, endpoint_from, usb_search_endpoint}

-- A descriptor: its size and type, and the address and attributes that an endpoint has there.
pub record UsbDescriptor : Type 0 where
  pub size : ℕ
  pub kind : ℕ
  pub address : ℕ
  pub attributes : ℕ

pub record IsDescriptorAt (config : Buffer) (at : ℕ) (d : UsbDescriptor) : Type 0 where
  pub has_size : config at ≡ d.size
  pub has_kind : config (at + 1) ≡ d.kind
  pub has_address : config (at + 2) ≡ d.address
  pub has_attributes : config (at + 3) ≡ d.attributes
  pub some_size : 0 < d.size

-- The descriptors stand from `at` on, up to the end at `length` bytes; none of them is empty.
abbrev pub IsConfig : Buffer → ℕ → ℕ → List UsbDescriptor → Type 0
IsConfig config length at [] = length ≤ at
IsConfig config length at (d ∷ ds) =
    (at < length) × IsDescriptorAt config at d × IsConfig config length (at + d.size) ds

-- An endpoint of the type and the direction.
pub record Fits (type dir : ℕ) (d : UsbDescriptor) : Type 0 where
  pub of_endpoint : d.kind ≡ 5
  pub direction : d.address / 2 ^ 7 % 2 * 2 ^ 7 ≡ dir
  pub transfer : d.attributes % 2 ^ 2 ≡ type

-- A descriptor that the search goes past.
pub record Passed (type dir : ℕ) (d : UsbDescriptor) : Type 0 where
  pub not_interface : d.kind ≢ 4
  pub fits_not : ¬ Fits type dir d

abbrev pub total_size : List UsbDescriptor → ℕ
total_size [] = 0
total_size (d ∷ ds) = d.size + total_size ds

-- The result of the search from `at` on: the place of an endpoint that fits, with no interface and no
-- other one before it, or 0, where there is none before the next interface or the end.
pub data Found (type dir at : ℕ) (ds : List UsbDescriptor) (r : ℕ) : Type 0 where
  endpoint :
      (before behind : List UsbDescriptor) (d : UsbDescriptor)
      → ds ≡ before ++ d ∷ behind
      → All (Passed type dir) before
      → Fits type dir d
      → r ≡ at + total_size before
      → Found type dir at ds r
  at_interface :
      (before behind : List UsbDescriptor) (d : UsbDescriptor)
      → ds ≡ before ++ d ∷ behind
      → All (Passed type dir) before
      → d.kind ≡ 4
      → r ≡ 0
      → Found type dir at ds r
  at_end : All (Passed type dir) ds → r ≡ 0 → Found type dir at ds r

-- One more descriptor that is passed.
Found-more :
    (type dir at r : ℕ) (d : UsbDescriptor) (ds : List UsbDescriptor)
    → Passed type dir d
    → Found type dir (at + d.size) ds r
    → Found type dir at (d ∷ ds) r
Found-more type dir at r d ds p (endpoint before behind e eq all fits place) =
    endpoint (d ∷ before) behind e (ap (λ l. d ∷ l) eq) (p, all) fits (omega (arith, place))
Found-more type dir at r d ds p (at_interface before behind e eq all kind z) =
    at_interface (d ∷ before) behind e (ap (λ l. d ∷ l) eq) (p, all) kind z
Found-more type dir at r d ds p (at_end all z) = at_end (p, all) z

Fits-is_endpoint :
    (config : Buffer) (type dir at : ℕ) (d : UsbDescriptor)
    → IsDescriptorAt config at d
    → is_endpoint config type dir at ≡ true
    → Fits type dir d
unfolding is_endpoint
Fits-is_endpoint config type dir at d v h =
    let h' = rw (v.has_kind, v.has_address, v.has_attributes) at h in
    record { of_endpoint = ground arith; direction = ground arith; transfer = ground arith }

Fits-not_endpoint :
    (config : Buffer) (type dir at : ℕ) (d : UsbDescriptor)
    → IsDescriptorAt config at d
    → is_endpoint config type dir at ≡ false
    → ¬ Fits type dir d
unfolding is_endpoint
Fits-not_endpoint config type dir at d v h f =
    let h' = rw (v.has_kind, v.has_address, v.has_attributes) at h in
    let a = f.of_endpoint in let b = f.direction in let c = f.transfer in ground arith

-- The search from a descriptor on, with more fuel than descriptors.
endpoint_from-Found :
    (fuel : ℕ) (config : Buffer) (size type dir at : ℕ) (ds : List UsbDescriptor)
    → length ds < fuel
    → IsConfig config size at ds
    → (r : ℕ) × (endpoint_from fuel config size type dir at ≡ some r) × Found type dir at ds r
unfolding endpoint_from
endpoint_from-Found zero config size type dir at ds enough v = absurd (omega arith)
endpoint_from-Found (suc fuel) config size type dir at [] enough v =
    (0, rw (le→leb _ _ v) refl, at_end tt refl)
endpoint_from-Found (suc fuel) config size type dir at (d ∷ ds) enough (inside, v, more) =
    let go_on : leb size at ≡ false = ground arith in
    elim (Bool-cases (d.kind == 4)) [
      | inl y ↦
          let kind = (==_iff d.kind 4).0 y in
          (0, rw (go_on, v.has_kind, y) refl, at_interface [] ds d refl tt kind refl)
      | inr other ↦ elim (Bool-cases (is_endpoint config type dir at)) [
        | inl y ↦ (
          at,
          rw (go_on, v.has_kind, other, y) refl,
          endpoint [] ds d refl tt (Fits-is_endpoint config type dir at d v y) (omega arith),
        )
        | inr n ↦
            let (r, e, f) =
              endpoint_from-Found fuel config size type dir (at + d.size) ds (omega arith) more in
            let p : Passed type dir d = record {
              not_interface = ground arith;
              fits_not = Fits-not_endpoint config type dir at d v n;
            } in
            (
              r,
              rw (endpoint_from, go_on, v.has_kind, other, n, v.has_size) e,
              Found-more type dir at r d ds p f,
            )
      ]
    ]

-- On descriptors behind an interface that are not empty, and with more fuel than descriptors,
-- `USBSearchEndpoint` ends: it returns the first endpoint of the type and the direction, if it stands
-- before the next interface and the end of the configuration, and 0 otherwise.
pub usb_search_endpoint-Found :
    (fuel : ℕ) (config : Buffer) (iface type dir : ℕ) (ds : List UsbDescriptor)
    → length ds < fuel
    → IsConfig config (word_at config 2) (iface + 9) ds
    → (r : ℕ) × (usb_search_endpoint fuel config iface type dir ≡ some r)
      × Found type dir (iface + 9) ds r
unfolding usb_search_endpoint
usb_search_endpoint-Found fuel config iface type dir ds enough v =
    endpoint_from-Found fuel config (word_at config 2) type dir (iface + 9) ds enough v

-- ===== src/Usb/Search.antt =====
-- The searches through the descriptors of a configuration.
use strawberry_os.Prelude.{
  ℕ, zero, suc, ◌+◌, ◌*◌, ◌/◌, ◌%◌, ◌^◌, Bool, ◌&&◌, ◌||◌, Option, none, some, ltb, leb, ◌==◌,
  if◌then◌else◌,
}
use strawberry_os.Disk.{Buffer}
use strawberry_os.Acpi.{word_at}

-- The loop of `ConfigureUSB` for the first interface, with `ic` of them in a configuration of `length`
-- bytes: its offset, or 0 where it fails; `none` is out of fuel.
unfoldable pub first_interface : ℕ → Buffer → ℕ → ℕ → ℕ → Option ℕ
first_interface zero config length ic iface = none
first_interface (suc fuel) config length ic iface =
    let next = first_interface fuel config length ic (iface + config iface) in
    if ic == 0 || ltb length (iface + config iface)
    then some 0
    else (if config (iface + 1) == 4 then some iface else next)

-- Whether the descriptor is an endpoint of the type and the direction.
unfoldable pub is_endpoint : Buffer → ℕ → ℕ → ℕ → Bool
is_endpoint config type dir epdesc =
    config (epdesc + 1) == 5
    && config (epdesc + 2) / 2 ^ 7 % 2 * 2 ^ 7 == dir
    && config (epdesc + 3) % 2 ^ 2 == type

-- The loop of `USBSearchEndpoint` in a configuration of `length` bytes.
unfoldable pub endpoint_from : ℕ → Buffer → ℕ → ℕ → ℕ → ℕ → Option ℕ
endpoint_from zero config length type dir epdesc = none
endpoint_from (suc fuel) config length type dir epdesc =
    let next = endpoint_from fuel config length type dir (epdesc + config epdesc) in
    if leb length epdesc || config (epdesc + 1) == 4
    then some 0
    else (if is_endpoint config type dir epdesc then some epdesc else next)

-- `USBSearchEndpoint` for the interface at `iface`: an offset, or 0; `none` is out of fuel.
unfoldable pub usb_search_endpoint : ℕ → Buffer → ℕ → ℕ → ℕ → Option ℕ
usb_search_endpoint fuel config iface type dir =
    endpoint_from fuel config (word_at config 2) type dir (iface + 9)

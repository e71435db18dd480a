-- ===== src/Usb/Tests.antt =====
-- Descriptors at concrete inputs.
use strawberry_os.Prelude.{ℕ, ◌≡◌, refl, arith, none, some, List, [], ◌∷◌, get_or}
use strawberry_os.Disk.{Buffer}
use strawberry_os.Usb.Search.{usb_search_endpoint, endpoint_from, is_endpoint, first_interface}
use strawberry_os.Usb.Endpoint.{UsbDescriptor, IsConfig, Found, usb_search_endpoint-Found}

-- A configuration of 32 bytes: an interface for a disk at 9, and its endpoints 0x81 and 0x02.
abbrev disk_config : Buffer
disk_config k =
    get_or
      (9 ∷ 2 ∷ 32 ∷ 0 ∷ 1 ∷ 1 ∷ 0 ∷ 0x80 ∷ 50 ∷ 9 ∷ 4 ∷ 0 ∷ 0 ∷ 2 ∷ 8 ∷ 6 ∷ 0x50 ∷ 0 ∷ 7 ∷ 5 ∷ 0x81
        ∷ 2 ∷ 0 ∷ 2 ∷ 0 ∷ 7 ∷ 5 ∷ 0x02 ∷ 2 ∷ 0 ∷ 2 ∷ 0 ∷ [])
      k 0

abbrev endpoints : List UsbDescriptor
endpoints =
    record { size = 7; kind = 5; address = 0x81; attributes = 2 }
    ∷ record { size = 7; kind = 5; address = 0x02; attributes = 2 }
    ∷ []

endpoints-IsConfig : IsConfig disk_config 32 18 endpoints
endpoints-IsConfig = omega arith

usb_search_endpoint-Found_example :
    (r : ℕ) × (usb_search_endpoint 3 disk_config 9 2 0 ≡ some r) × Found 2 0 18 endpoints r
usb_search_endpoint-Found_example =
    usb_search_endpoint-Found 3 disk_config 9 2 0 endpoints (omega arith) endpoints-IsConfig

out_endpoint : usb_search_endpoint 3 disk_config 9 2 0 ≡ some 25
unfolding usb_search_endpoint endpoint_from is_endpoint
out_endpoint = refl

no_interrupt : usb_search_endpoint 3 disk_config 9 3 0x80 ≡ some 0
unfolding usb_search_endpoint endpoint_from is_endpoint
no_interrupt = refl

interface : first_interface 3 disk_config 32 1 9 ≡ some 9
unfolding first_interface
interface = refl

-- A descriptor of size 0 is never left.
empty_descriptor : first_interface 100 (λ _. 0) 32 1 9 ≡ none
unfolding first_interface
empty_descriptor = refl

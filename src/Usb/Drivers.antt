-- ===== src/Usb/Drivers.antt =====
-- KERNEL/SOURCE/device/usb/hub.c, hid.c and msc.c: how a hub, a keyboard and a disk are configured.
use strawberry_os.Prelude.{
  ℕ, zero, suc, ◌+◌, ◌-◌, ◌*◌, ◌%◌, ◌^◌, Bool, false, ◌||◌, Option, some, List, [], ◌∷◌, ltb, ◌==◌,
  if◌then◌else◌, ◌>>=◌, u16,
}
use strawberry_os.Disk.{Buffer, DiskDriver, DiskLink, linkup_disk}
use strawberry_os.Msc.{Moved, Xfer, operation_msc, dir_in, dir_out}
use strawberry_os.Xhci.{DeviceRequest}
use strawberry_os.Keyboard.{create_key_event_ring}
use strawberry_os.Hid.{UsbKeyboard, KeyReport}
use strawberry_os.Scsi.{zeros, ScsiDisk, scsi_setup}
use strawberry_os.Acpi.{word_at}
use strawberry_os.Usb.{HubOperation}
use strawberry_os.Usb.Search.{usb_search_endpoint}

-- What the drivers use of a device and its controller: its pipe, speed, configuration and interface, a
-- transfer, and a pipe for the endpoint at an offset, 0 if there is none.
pub record UsbFunction (W : Type 0) : Type 0 where
  pub pipe : ℕ
  pub spd : ℕ
  pub config : Buffer
  pub ifc : ℕ
  pub xfer : ℕ → DeviceRequest → Buffer → W → Moved W
  pub cpip : ℕ → W → ℕ × W
  pub free_pipe : ℕ → W → W

-- `USB_HUB_DESCRIPTOR`, by the speed of the hub.
abbrev pub hub_request : ℕ → DeviceRequest
hub_request spd = record {
  t = 0xA0;
  c = 6;
  v = (if spd == 3 then 0x2A else 0x29) * 2 ^ 8;
  i = 0;
  l = 7;
}

-- `ConfigureHUB`: its result, and the number of ports where it is 0.
unfoldable pub configure_hub : {W : Type 0} → UsbFunction W → W → ℕ × ℕ × W
configure_hub dev w =
    let got = dev.xfer dev.pipe (hub_request dev.spd) zeros w in
    if got.cc == 0 then (0, got.buf 2, got.world) else (got.cc, 0, got.world)

-- `USBHUBDetect`: a transfer that fails is -1, which is not 0.
abbrev pub status_request : ℕ → DeviceRequest
status_request port = record { t = 0xA3; c = 0; v = 0; i = u16 (port + 1); l = 4 }

unfoldable pub usbhub_detect : {W : Type 0} → UsbFunction W → ℕ → W → ℕ × W
usbhub_detect dev port w =
    let got = dev.xfer dev.pipe (status_request port) zeros w in
    if got.cc == 0 then (word_at got.buf 0 % 2, got.world) else (2 ^ 32 - 1, got.world)

-- What `ConfigureKeyboard` changes: `KEYBOARD_PIPE`, and the reports and the ring of the keyboard.
pub record KeyboardState (W : Type 0) : Type 0 where
  pub keyboard_pipe : ℕ
  pub keyboard : UsbKeyboard
  pub world : W

abbrev pub set_protocol : ℕ → DeviceRequest
set_protocol interface = record { t = 0x21; c = 0x0B; v = 0; i = interface; l = 0 }

abbrev pub set_idle : DeviceRequest
set_idle = record { t = 0x21; c = 0x0A; v = 2 ^ 8; i = 0; l = 0 }

-- `memset(&KEYEVENT0, 0, …)` and the same of `KEYEVENT1`, with its field `RSV`.
abbrev pub empty_report : ℕ → KeyReport
empty_report rsv = record { modifiers = 0; rsv = rsv; key = 0 ∷ 0 ∷ 0 ∷ 0 ∷ 0 ∷ 0 ∷ [] }

-- `ConfigureKeyboard` for the endpoint at `epdesc`, with the page that `CreateKeyEventRing` takes.
unfoldable pub configure_keyboard :
    {W : Type 0} → UsbFunction W → ℕ → List ℕ → KeyboardState W → ℕ × KeyboardState W
configure_keyboard dev epdesc page s =
    let mps = word_at dev.config (epdesc + 4) in
    let protocol = dev.xfer dev.pipe (set_protocol (dev.config (dev.ifc + 2))) zeros s.world in
    let idle = dev.xfer dev.pipe set_idle zeros protocol.world in
    let (pipe, w) = dev.cpip epdesc idle.world in
    if s.keyboard_pipe == 0
    then (if ltb mps 8 || ltb 16 mps
        then (2 ^ 32 - 1, s)
        else (if protocol.cc == 0
            then (if idle.cc == 0
                then (
                  if pipe == 0 then 2 ^ 32 - 1 else 0,
                  record {
                    keyboard_pipe = pipe;
                    keyboard = record s.keyboard {
                      event0 = empty_report 0;
                      event1 = empty_report 1;
                      ring = create_key_event_ring page;
                    };
                    world = w;
                  },
                )
                else (idle.cc, record s { world = idle.world }))
            else (protocol.cc, record s { world = protocol.world })))
    else (2 ^ 32 - 1, s)

-- `ConfigureHID`; `none` is out of fuel in the search for the endpoint.
unfoldable pub configure_hid :
    {W : Type 0} → ℕ → UsbFunction W → List ℕ → KeyboardState W → Option (ℕ × KeyboardState W)
configure_hid fuel dev page s =
    if dev.config (dev.ifc + 6) == 1
    then (usb_search_endpoint fuel dev.config dev.ifc 3 dir_in >>= λ epdesc.
        if epdesc == 0
        then some (2 ^ 32 - 1, s)
        else (if dev.config (dev.ifc + 7) == 1
            then some (configure_keyboard dev epdesc page s)
            else some (2 ^ 32 - 1, s)))
    else some (2 ^ 32 - 1, s)

-- `GET_MAX_LUN`
abbrev pub max_lun_request : DeviceRequest
max_lun_request = record { t = 0xA1; c = 0xFE; v = 0; i = 0; l = 1 }

-- The loop of `ConfigureMSC` with `n` units left from `lun` on: whether one of them was set up.
-- `setup_lun` is the result of `setup_msclun` on the two pipes, 0 for success, and what it changes.
unfoldable pub setup_luns : {W : Type 0} → (ℕ → W → ℕ × W) → ℕ → ℕ → Bool → W → Bool × W
setup_luns setup_lun zero lun used w = (used, w)
setup_luns setup_lun (suc n) lun used w =
    let (cc, w') = setup_lun lun w in setup_luns setup_lun n (lun + 1) (used || cc == 0) w'

-- `FAIL_MSC`
abbrev pub fail_msc : {W : Type 0} → UsbFunction W → ℕ → ℕ → W → ℕ × W
fail_msc dev ipipe opipe w = (2 ^ 32 - 1, dev.free_pipe opipe (dev.free_pipe ipipe w))

-- `ConfigureMSC` once both bulk endpoints are there.
unfoldable pub use_bulk : {W : Type 0} → UsbFunction W → (ℕ → ℕ → ℕ → W → ℕ × W) → ℕ → ℕ → W → ℕ × W
use_bulk dev setup_lun idesc odesc w =
    let (ipipe, w1) = dev.cpip idesc w in
    let (opipe, w2) = dev.cpip odesc w1 in
    let got = dev.xfer dev.pipe max_lun_request zeros w2 in
    let max_lun = if got.cc == 0 then got.buf 0 else 0 in
    let (used, w3) = setup_luns (setup_lun ipipe opipe) (max_lun + 1) 0 false got.world in
    if ipipe == 0 || opipe == 0
    then fail_msc dev ipipe opipe w2
    else (if used then (0, w3) else fail_msc dev ipipe opipe w3)

-- `ConfigureMSC`
unfoldable pub configure_msc :
    {W : Type 0} → ℕ → UsbFunction W → (ℕ → ℕ → ℕ → W → ℕ × W) → W → Option (ℕ × W)
configure_msc fuel dev setup_lun w =
    usb_search_endpoint fuel dev.config dev.ifc 2 dir_in >>= λ idesc.
    usb_search_endpoint fuel dev.config dev.ifc 2 dir_out >>= λ odesc.
    if idesc == 0 || odesc == 0
    then some (fail_msc dev 0 0 w)
    else some (use_bulk dev setup_lun idesc odesc w)

-- `HUB_OPERATION`: USBHUBReset and USBHUBDisconnect do nothing.
unfoldable pub hub_operation : {W : Type 0} → UsbFunction W → HubOperation W
hub_operation dev = record {
  dtc = usbhub_detect dev;
  rst = λ port w. (0, w);
  dcc = λ port w. (0, w);
}

-- `USB_DISK_DRIVER`: a unit with its pipes, and the disk that SCSISetup finds in it.
pub record UsbUnit : Type 0 where
  pub ptr : ℕ
  pub type : ℕ
  pub bip : ℕ
  pub bop : ℕ
  pub lun : ℕ
  pub disk : ScsiDisk

-- The driver of a unit while it is set up: its memory is cleared, but for the operation and the number.
unfoldable pub blank_driver : {W : Type 0} → Xfer W → ℕ → DiskDriver W
blank_driver xfer lun = record {
  operate = operation_msc xfer (record { model = zeros; lun = lun; bs = 0 });
  sct = 0;
  bs = 0;
  id = 0;
}

-- `SetupMSCLUN` with the node `ptr` that `HeapAlloc` gives: the result, the unit, and `DISKDVC`; `none`
-- is that `SCSIWaitReady` takes more turns.
unfoldable pub setup_msclun :
    {W : Type 0}
    → ℕ
    → List ℕ
    → Xfer W
    → Bool
    → UsbUnit
    → List DiskLink
    → W
    → Option (ℕ × UsbUnit × List DiskLink × W)
setup_msclun start times xfer is_xhci unit disks w =
    let type : ℕ = if is_xhci then 1 else 0 in
    let blank : ScsiDisk = record { rmv = 0; bs = 0; sct = 0; model = zeros } in
    scsi_setup start times (blank_driver xfer unit.lun) blank w >>= λ (code, disk, w').
    let unit' : UsbUnit = record unit { type = type; disk = disk } in
    if code == 0
    then some (0, unit', linkup_disk disks unit.ptr, w')
    else some (2 ^ 32 - 1, unit', disks, w')

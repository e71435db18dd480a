-- ===== src/Usb.antt =====
-- KERNEL/SOURCE/device/usb.c: the devices on the ports of a hub, and their descriptors.
--
-- A configuration is a function from an offset to a byte, and a descriptor in it is its offset. The
-- functions of the controller and of the hub, and the drivers, are arguments; what they change is a
-- type `W` of the model. The heap that a device and its configuration are in is not modelled, but for
-- the devices that are freed.
pub mod Search
pub mod Endpoint
pub mod Drivers
mod Tests
use strawberry_os.Prelude.{
  ℕ, zero, suc, ◌+◌, ◌-◌, ◌*◌, ◌/◌, ◌%◌, ◌^◌, Bool, true, false, ◌&&◌, ◌||◌, Option, none, some,
  List, [], ◌∷◌, ltb, leb, ◌==◌, if◌then◌else◌, ◌>>=◌, u8, u16, u32, get_or,
}
use strawberry_os.Disk.{Buffer}
use strawberry_os.Msc.{Moved}
use strawberry_os.Xhci.{DeviceRequest}
use strawberry_os.Scsi.{zeros}
use strawberry_os.Acpi.{word_at}
use strawberry_os.Usb.Search.{first_interface}

-- What `CPIP` takes of an endpoint.
pub record EndpointInfo : Type 0 where
  pub mps : ℕ
  pub at : ℕ

-- `USB_COMMON`: its pipe, speed and port, and the configuration with its interface, where there are any.
pub record UsbCommon : Type 0 where
  pub pipe : ℕ
  pub spd : ℕ
  pub port : ℕ
  pub cfg : Option Buffer
  pub ifc : ℕ

-- `USB_CONTROLLER`: a pipe for an endpoint, 0 if there is none, and a transfer on a pipe.
pub record UsbController (W : Type 0) : Type 0 where
  pub cpip : UsbCommon → ℕ → EndpointInfo → W → ℕ × W
  pub xfer : ℕ → DeviceRequest → Buffer → W → Moved W

-- `SPEED_TO_CTRL_SIZE`; behind its end a number is read that the model takes as 0.
abbrev pub speed_to_ctrl_size : List ℕ
speed_to_ctrl_size = 8 ∷ 8 ∷ 64 ∷ 512 ∷ []

-- What `USBSetAddress` leaves: its result, `MA`, the pipe, and the rest.
pub record Addressed (W : Type 0) : Type 0 where
  pub code : ℕ
  pub ma : ℕ
  pub pipe : ℕ
  pub world : W

abbrev pub set_address_request : DeviceRequest
set_address_request = record { t = 0; c = 5; v = 1; i = 0; l = 0 }

-- `USBSetAddress`
unfoldable pub usb_set_address : {W : Type 0} → UsbController W → ℕ → UsbCommon → W → Addressed W
usb_set_address ctrl ma device w =
    let epdesc : EndpointInfo = record { mps = get_or speed_to_ctrl_size device.spd 0; at = 0 } in
    let (pipe, w1) = ctrl.cpip device 0 epdesc w in
    let sent = ctrl.xfer pipe set_address_request zeros w1 in
    let (pipe2, w2) = ctrl.cpip (record device { pipe = pipe }) pipe epdesc sent.world in
    if leb 127 ma
    then record { code = 1; ma = ma; pipe = device.pipe; world = w }
    else (if pipe == 0
        then record { code = 2 ^ 32 - 1; ma = ma; pipe = 0; world = w1 }
        else (if sent.cc == 0
            then record {
              code = if pipe2 == 0 then 2 ^ 32 - 1 else 0;
              ma = 1 + 1;
              pipe = pipe2;
              world = w2;
            }
            else record { code = 2 ^ 32 - 1; ma = 1; pipe = pipe; world = sent.world }))

-- A request for a descriptor of the device.
abbrev pub get_descriptor : ℕ → ℕ → DeviceRequest
get_descriptor type l = record { t = 0x80; c = 6; v = type * 2 ^ 8; i = 0; l = l }

abbrev pub set_configuration : ℕ → DeviceRequest
set_configuration value = record { t = 0; c = 9; v = value; i = 0; l = 0 }

-- `maxpacket`, from the first 8 bytes of the descriptor of the device; a shift by 16 to 31 leaves no bit
-- of a `WORD`, and C does not define one by more, which is 0 here too.
unfoldable pub max_packet : Buffer → ℕ
max_packet devinfo =
    if leb 0x0300 (word_at devinfo 2)
    then (if ltb (devinfo 7) 16 then 2 ^ devinfo 7 else 0)
    else devinfo 7

-- The configuration of the device, if it has one.
unfoldable pub read_config : {W : Type 0} → UsbController W → ℕ → W → Option Buffer × W
read_config ctrl pipe w =
    let head = ctrl.xfer pipe (get_descriptor 2 9) zeros w in
    let all = ctrl.xfer pipe (get_descriptor 2 (word_at head.buf 2)) zeros head.world in
    if head.cc == 0
    then (if all.cc == 0 && word_at all.buf 2 == word_at head.buf 2
        then (some all.buf, all.world)
        else (none, all.world))
    else (none, head.world)

-- `ConfigureHUB`, `ConfigureMSC` and `ConfigureHID`: 0 for success.
pub record UsbDrivers (W : Type 0) : Type 0 where
  pub configure_hub : UsbCommon → W → ℕ × W
  pub configure_msc : UsbCommon → W → ℕ × W
  pub configure_hid : UsbCommon → W → ℕ × W

-- The driver of an interface.
unfoldable pub choose_driver : {W : Type 0} → UsbDrivers W → Buffer → UsbCommon → W → ℕ × W
choose_driver drivers config common w =
    let class = config (common.ifc + 5) in
    if class == 9
    then drivers.configure_hub common w
    else (if class == 8
        then (if config (common.ifc + 7) == 0x50
            then drivers.configure_msc common w
            else (2 ^ 32 - 1, w))
        else (if class == 3 then drivers.configure_hid common w else (2 ^ 32 - 1, w)))

-- What `ConfigureUSB` leaves: how many devices it configured, the device, and the rest.
pub record Configured (W : Type 0) : Type 0 where
  pub count : ℕ
  pub common : UsbCommon
  pub world : W

-- A device with a configuration, whose interface is at `iface`.
unfoldable pub use_config :
    {W : Type 0} → UsbController W → UsbDrivers W → Buffer → ℕ → UsbCommon → W → Configured W
use_config ctrl drivers config iface common w =
    let set = ctrl.xfer common.pipe (set_configuration (config 5)) zeros w in
    let chosen = record common { cfg = some config; ifc = iface } in
    let (cc, w') = choose_driver drivers config chosen set.world in
    let none_left = record common { cfg = none; ifc = 0 } in
    if set.cc == 0
    then (if cc == 0
        then record { count = 1; common = chosen; world = w' }
        else record { count = 0; common = none_left; world = w' })
    else record { count = 0; common = none_left; world = set.world }

-- `ConfigureUSB`; `none` is out of fuel in the search for an interface.
unfoldable pub configure_usb :
    {W : Type 0} → ℕ → UsbController W → UsbDrivers W → UsbCommon → W → Option (Configured W)
configure_usb fuel ctrl drivers common w =
    let info = ctrl.xfer common.pipe (get_descriptor 1 8) zeros w in
    let maxpacket = max_packet info.buf in
    let (pipe, w1) = ctrl.cpip common common.pipe (record { mps = maxpacket; at = 0 }) info.world in
    let (config, w2) = read_config ctrl pipe w1 in
    let common1 = record common { pipe = pipe } in
    if info.cc == 0
    then (if ltb maxpacket 8
        then some (record { count = 0; common = common; world = info.world })
        else elim config [
          | none ↦ some (record { count = 0; common = common1; world = w2 })
          | some c ↦ first_interface fuel c (word_at c 2) (c 4) 9 >>= λ iface.
              if iface == 0
              then some (record {
                count = 0;
                common = record common1 { cfg = none; ifc = 0 };
                world = w2;
              })
              else some (use_config ctrl drivers c iface common1 w2)
        ])
    else some (record { count = 0; common = common; world = info.world })

-- `USB_HUB_OPERATION`
pub record HubOperation (W : Type 0) : Type 0 where
  pub dtc : ℕ → W → ℕ × W
  pub rst : ℕ → W → ℕ × W
  pub dcc : ℕ → W → ℕ × W

-- An entry of `ALL_USB_DEVICE`, and whether its memory was freed.
pub record ListedDevice : Type 0 where
  pub common : UsbCommon
  pub freed : Bool

-- What `USBEnumerate` changes: `DC`, `MA`, the devices, newest first, and the rest.
pub record HubState (W : Type 0) : Type 0 where
  pub dc : ℕ
  pub ma : ℕ
  pub devices : List ListedDevice
  pub world : W

-- A port with a device that has its address.
unfoldable pub add_device : {W : Type 0} → HubOperation W → HubState W → Configured W → HubState W
add_device hub s r =
    let (x, w) = hub.dcc r.common.port r.world in
    let empty = r.count == 0 in
    record s {
      dc = u32 (s.dc + r.count);
      devices = record { common = r.common; freed = empty } ∷ s.devices;
      world = if empty then w else r.world;
    }

-- One port. The test for a speed below 0 is on a `DWORD` and never holds.
unfoldable pub enumerate_port :
    {W : Type 0}
    → ℕ
    → UsbController W
    → UsbDrivers W
    → HubOperation W
    → ℕ
    → HubState W
    → Option (HubState W)
enumerate_port fuel ctrl drivers hub port s =
    let (found, w1) = hub.dtc port s.world in
    let (spd, w2) = hub.rst port w1 in
    let common : UsbCommon = record { pipe = 0; spd = spd; port = port; cfg = none; ifc = 0 } in
    let a = usb_set_address ctrl s.ma common w2 in
    let (x, w3) = hub.dcc port a.world in
    if found == 0
    then some (record s { world = w1 })
    else (if a.code == 0
        then (configure_usb fuel ctrl drivers (record common { pipe = a.pipe }) a.world >>= λ r.
            some (add_device hub (record s { ma = a.ma }) r))
        else some (record s { ma = a.ma; world = w3 }))

-- `USBEnumerate` with `n` ports left from `port` on.
unfoldable pub usb_enumerate :
    {W : Type 0}
    → ℕ
    → UsbController W
    → UsbDrivers W
    → HubOperation W
    → ℕ
    → ℕ
    → HubState W
    → Option (HubState W)
usb_enumerate fuel ctrl drivers hub zero port s = some s
usb_enumerate fuel ctrl drivers hub (suc n) port s =
    enumerate_port fuel ctrl drivers hub port s >>= usb_enumerate fuel ctrl drivers hub n (port + 1)

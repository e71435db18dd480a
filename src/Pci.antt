-- ===== src/Pci.antt =====
-- KERNEL/SOURCE/device/pci.c: the devices on the PCI bus.
--
-- The configuration space is a view of a world: a `DWORD` at an address, and the store of a `WORD`.
-- What the set-up of a device does, and the memory that `HeapAlloc` gives, are arguments.
mod Tests
use strawberry_os.Prelude.{
  ℕ, zero, suc, ◌+◌, ◌-◌, ◌*◌, ◌/◌, ◌%◌, ◌^◌, true, false, ◌&&◌, ◌||◌, Option, none, some, List, [],
  ◌∷◌, ◌==◌, if◌then◌else◌, u16,
}
use strawberry_os.Paging.{system_linear}

-- `PCI_DEVICE`: the address of the node, and its `CMD`.
pub record PciDevice : Type 0 where
  pub ptr : ℕ
  pub cmd : ℕ

pub record PciConfig (W : Type 0) : Type 0 where
  pub dword : ℕ → W → ℕ
  pub out_word : ℕ → ℕ → W → W

-- `HeapAlloc`, `SetupXHCIControllerPCI`, `ConfigureNVME` and `ConfigureAHCI`.
pub record PciSetup (W : Type 0) : Type 0 where
  pub heap_alloc : W → ℕ × W
  pub setup_xhci : PciDevice → W → W
  pub configure_nvme : PciDevice → W → W
  pub configure_ahci : PciDevice → W → W

-- `PCIGetClassInterface`
unfoldable pub pci_get_class_interface : {W : Type 0} → PciConfig W → ℕ → W → ℕ
pci_get_class_interface io addr w = io.dword (addr + 8) w / 2 ^ 8

-- The set-up by the class of the device.
unfoldable pub setup_by_class : {W : Type 0} → PciSetup W → ℕ → PciDevice → W → W
setup_by_class drivers class device w =
    if class == 0x0C0330
    then drivers.setup_xhci device w
    else if class == 0x010802
    then drivers.configure_nvme device w
    else if class == 0x010601
    then drivers.configure_ahci device w
    else w

-- One round of the loop of `PCIDevice`: `ALL_PCI_DEVICE`, the newest first, and the world.
unfoldable pub probe_device :
    {W : Type 0} → PciConfig W → PciSetup W → ℕ → List PciDevice → W → List PciDevice × W
probe_device io drivers addr all w =
    let id = io.dword addr w in
    let (ptr, w') = drivers.heap_alloc w in
    let device : PciDevice = record { ptr = ptr; cmd = addr } in
    let class = pci_get_class_interface io addr w' in
    if id == 0 || id == 2 ^ 32 - 1
    then (all, w)
    else if ptr == 0
    then (all, w')
    else (device ∷ all, setup_by_class drivers class device w')

-- The loop, with `n` addresses left.
unfoldable pub probe_devices :
    {W : Type 0} → ℕ → PciConfig W → PciSetup W → ℕ → List PciDevice → W → List PciDevice × W
probe_devices zero io drivers addr all w = (all, w)
probe_devices (suc n) io drivers addr all w =
    let (all', w') = probe_device io drivers addr all w in
    probe_devices n io drivers (addr + 0x100) all' w'

-- `PCIDevice`
unfoldable pub pci_device :
    {W : Type 0} → PciConfig W → PciSetup W → List PciDevice → W → List PciDevice × W
pci_device io drivers all w = probe_devices 0x10000 io drivers 0x80000000 all w

-- `PCIEnableMMIO`: the address of the registers, or 0.
unfoldable pub pci_enable_mmio : {W : Type 0} → PciConfig W → ℕ → ℕ → W → ℕ × W
pci_enable_mmio io addr off w =
    let bar = io.dword (addr + off) w in
    let cmd = u16 (io.dword (addr + 4) w) in
    if bar % 2 == 1
    then (0, w)
    else if bar / 4 % 2 == 1 && (if io.dword (addr + off + 4) w == 0 then false else true)
    then (0, w)
    else (
      system_linear (bar / 16 * 16),
      io.out_word (addr + 4) (if cmd / 2 % 2 == 1 then cmd else cmd + 2) w,
    )

-- `PCIEnableBusMaster`
unfoldable pub pci_enable_bus_master : {W : Type 0} → PciConfig W → ℕ → W → W
pci_enable_bus_master io cmd w =
    let val = u16 (io.dword (cmd + 4) w) in
    io.out_word (cmd + 4) (if val / 4 % 2 == 1 then val else val + 4) w

-- The names of the devices.
pub data PciName : Type 0 where
  pci_077a_15ad : PciName
  pci_07e0_15ad : PciName
  pci_07f0_15ad : PciName
  pci_501e_15b7 : PciName
  pci_9100_1e95 : PciName
  pci_06d3_8086 : PciName
  pci_06ed_8086 : PciName
  pci_2829_8086 : PciName
  pci_a282_8086 : PciName

-- `PCIDeviceName`
unfoldable pub pci_device_name : ℕ → Option PciName
pci_device_name id =
    let vendor = id % 2 ^ 16 in
    let device = id / 2 ^ 16 in
    if vendor == 0x15AD
    then (if device == 0x077A
        then some pci_077a_15ad
        else if device == 0x07E0
        then some pci_07e0_15ad
        else if device == 0x07F0
        then some pci_07f0_15ad
        else none)
    else if vendor == 0x15B7
    then (if device == 0x501E then some pci_501e_15b7 else none)
    else if vendor == 0x1E95
    then (if device == 0x9100 then some pci_9100_1e95 else none)
    else if vendor == 0x8086
    then (if device == 0x06D3
        then some pci_06d3_8086
        else if device == 0x06ED
        then some pci_06ed_8086
        else if device == 0x2829
        then some pci_2829_8086
        else if device == 0xA282
        then some pci_a282_8086
        else none)
    else none

-- The place of a device as `OutputPCIDevice` prints it: the bus, the slot and the function.
unfoldable pub pci_place : ℕ → ℕ × ℕ × ℕ
pci_place addr = (addr / 2 ^ 16 % 2 ^ 8, addr / 2 ^ 11 % 2 ^ 5, addr / 2 ^ 8 % 2 ^ 3)

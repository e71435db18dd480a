-- ===== src/Pci/Tests.antt =====
-- A bus with an xHCI controller in slot 1. The world is the words that were stored.
use strawberry_os.Prelude.{ℕ, ◌+◌, ◌≡◌, refl, List, [], ◌∷◌, some, ◌==◌, if◌then◌else◌, length}
use strawberry_os.Pci.{
  PciConfig, PciSetup, pci_07f0_15ad, pci_get_class_interface, setup_by_class, probe_device,
  probe_devices, pci_enable_mmio, pci_device_name, pci_place,
}

abbrev bus : PciConfig (List (ℕ × ℕ))
bus = record {
  dword = λ a w.
      if a == 0x80000100
      then 0x077A15AD
      else (if a == 0x80000108 then 0x0C033000 else (if a == 0x80000110 then 0xFE000004 else 0));
  out_word = λ a v w. (a, v) ∷ w;
}

abbrev setup : PciSetup (List (ℕ × ℕ))
setup = record {
  heap_alloc = λ w. (length w + 1, w);
  setup_xhci = λ d w. (d.cmd, 0) ∷ w;
  configure_nvme = λ d w. w;
  configure_ahci = λ d w. w;
}

one_device :
    probe_devices 4 bus setup 0x80000000 [] []
    ≡ (record { ptr = 1; cmd = 0x80000100 } ∷ [], (0x80000100, 0) ∷ [])
unfolding probe_devices probe_device setup_by_class pci_get_class_interface
one_device = refl

registers : pci_enable_mmio bus 0x80000100 0x10 [] ≡ (0xFFFF8000FE000000, (0x80000104, 2) ∷ [])
unfolding pci_enable_mmio
registers = refl

name_of_disk : pci_device_name 0x07F015AD ≡ some pci_07f0_15ad
unfolding pci_device_name
name_of_disk = refl

place_of_slot : pci_place 0x80000900 ≡ (0, 1, 1)
unfolding pci_place
place_of_slot = refl

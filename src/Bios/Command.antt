-- ===== src/Bios/Command.antt =====
-- `AHCIIO`, and the ports and devices that the loader looks for.
--
-- As for the driver of the kernel, what a port does with a command is an argument; it is polled a
-- million times at most.
mod Tests
use strawberry_os.Prelude.{
  ℕ, zero, suc, ◌+◌, ◌-◌, ◌*◌, ◌/◌, ◌%◌, ◌^◌, Bool, true, false, ◌&&◌, ◌||◌, List, [], ◌∷◌, ltb,
  ◌==◌, if◌then◌else◌, u8, u16,
}
use strawberry_os.Disk.{Buffer}
use strawberry_os.Ahci.{PrdtEntry, prdt_entries, Completed, placed}

-- `FIS_REG_H2D`, with the fields that are not 0.
pub record RegFis : Type 0 where
  pub fis_type : ℕ
  pub c : ℕ
  pub command : ℕ
  pub featurel : ℕ
  pub lba0 : ℕ
  pub lba1 : ℕ
  pub lba2 : ℕ
  pub device : ℕ
  pub lba3 : ℕ
  pub lba4 : ℕ
  pub lba5 : ℕ
  pub countl : ℕ
  pub counth : ℕ

unfoldable pub reg_fis : ℕ → ℕ → ℕ → RegFis
reg_fis cmd sector count = record {
  fis_type = 0x27;
  c = 1;
  command = u8 cmd;
  featurel = 1;
  lba0 = u8 sector;
  lba1 = u8 (sector / 2 ^ 8);
  lba2 = u8 (sector / 2 ^ 16);
  device = 2 ^ 6;
  lba3 = u8 (sector / 2 ^ 24);
  lba4 = u8 (sector / 2 ^ 32);
  lba5 = u8 (sector / 2 ^ 40);
  countl = u8 count;
  counth = u8 (count / 2 ^ 8);
}

-- `HBA_CMD_HEADER` and `HBA_CMD_TBL`: the command in slot 0.
pub record BootCommand : Type 0 where
  pub cfl : ℕ
  pub w : ℕ
  pub prdtl : ℕ
  pub prdt_entry : List PrdtEntry
  pub cfis : RegFis

unfoldable pub boot_command : ℕ → ℕ → ℕ → ℕ → BootCommand
boot_command cmd sector count buffer = record {
  cfl = 5;
  w = 0;
  prdtl = (count - 1) / 2 ^ 4 + 1;
  prdt_entry = prdt_entries count count buffer;
  cfis = reg_fis cmd sector count;
}

-- `HBA_PORT`: the store that clears `is`, the values of `tfd` at the polls, and the issue.
pub record BootPort (W : Type 0) : Type 0 where
  pub clear_is : W → W
  pub tfd : W → ℕ → ℕ
  pub issue : BootCommand → Buffer → W → Completed W

-- Whether the port is idle at the poll `spin` or one of the `n` that are left.
unfoldable pub spin_idle : (ℕ → ℕ) → ℕ → ℕ → Bool
spin_idle tfd zero spin = false
spin_idle tfd (suc n) spin =
    let rest = spin_idle tfd n (spin + 1) in
    if tfd spin / 2 ^ 7 % 2 == 1 || tfd spin / 2 ^ 3 % 2 == 1 then rest else true

-- What `AHCIIO` returns, the buffer, and the rest.
pub record IoResult (W : Type 0) : Type 0 where
  pub ret : ℕ
  pub buf : Buffer
  pub world : W

-- `AHCIIO`, where `spins` is the bound of the polls and `buffer` the physical address of `buf`.
unfoldable pub ahciio : {W : Type 0} → ℕ → BootPort W → ℕ → ℕ → ℕ → Buffer → ℕ → W → IoResult W
ahciio spins port sector count buffer buf cmd w =
    let ready = port.clear_is w in
    let finished = port.issue (boot_command cmd sector count buffer) (placed buffer buf) ready in
    if count == 0
    then record { ret = 0; buf = buf; world = w }
    else (if ltb 128 count
        then record { ret = 1; buf = buf; world = w }
        else (if spin_idle (port.tfd ready) spins 0
            then record {
              ret = if finished.ist / 2 ^ 30 % 2 == 1 then 4 else 0;
              buf = λ k. finished.memory (buffer + k);
              world = finished.world;
            }
            else record { ret = 3; buf = buf; world = ready }))

-- `check_type`, from `ssts` and `sig`: `AHCI_DEVICE_*`.
unfoldable pub check_type : ℕ → ℕ → ℕ
check_type ssts sig =
    if (if ssts % 2 ^ 4 == 3 then false else true)
      || (if ssts / 2 ^ 8 % 2 ^ 4 == 1 then false else true)
    then 0
    else (if sig == 0x00000101
        then 1
        else (if sig == 0xEB140101
            then 4
            else (if sig == 0xC33C0101 then 2 else (if sig == 0x96690101 then 3 else 0))))

-- `find_pci` over the functions 0 of all devices from `cmd` on: 0 where one of them loads the kernel.
-- `id` is the first `DWORD` of a configuration space, and `try` is `pci_device`.
unfoldable pub find_pci : {W : Type 0} → ℕ → ℕ → (ℕ → W → ℕ) → (ℕ → ℕ → W → ℕ × W) → W → ℕ × W
find_pci zero cmd id try w = (1, w)
find_pci (suc n) cmd id try w =
    let vendor = u16 (id cmd w) in
    let (cc, w') = try cmd (id cmd w) w in
    let skip = find_pci n (cmd + 0x800) id try w in
    let next = find_pci n (cmd + 0x800) id try w' in
    if vendor == 0 || vendor == 0xFFFF then skip else (if cc == 0 then (0, w') else next)

-- The loop of `ahci_controller_setup` over the ports: 0 where one of them loads the kernel.
unfoldable pub find_port : {W : Type 0} → ℕ → ℕ → ℕ → (ℕ → W → ℕ) → (ℕ → W → ℕ × W) → W → ℕ × W
find_port zero pi port type load w = (1, w)
find_port (suc n) pi port type load w =
    let (cc, w') = load port w in
    let skip = find_port n (pi / 2) (port + 1) type load w in
    let next = find_port n (pi / 2) (port + 1) type load w' in
    if pi == 0
    then (1, w)
    else (if pi % 2 == 1 && type port w == 1 then (if cc == 0 then (0, w') else next) else skip)

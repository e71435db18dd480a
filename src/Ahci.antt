-- ===== src/Ahci.antt =====
-- KERNEL/SOURCE/device/ahci.c: the disks behind the ports of an AHCI controller.
--
-- The registers of a port and the memory that it reaches are a type `W` of the model: what a store
-- does to them, the values of `TFD` at the polls up to the timeout, and what a command leaves once
-- its bit in `CIS` is clear or `TFES` is set, are an argument. A buffer is at a physical address and
-- without gaps.
pub mod Ports
pub mod Command
pub mod Target
mod Tests
use strawberry_os.Prelude.{
  ℕ, zero, suc, ◌+◌, ◌-◌, ◌*◌, ◌/◌, ◌%◌, ◌^◌, Bool, true, false, ◌&&◌, ◌||◌, List, [], ◌∷◌, ltb,
  ◌==◌, if◌then◌else◌, u8, u16, add64,
}
use strawberry_os.Disk.{
  Buffer, memcpy, DiskOperation, Outcome, default_disk_operation, cmd_identify, cmd_read, cmd_write,
  ret_success, ret_ebadtrack,
}

-- `ATA_CMD_*`
abbrev pub ata_cmd_read_dma_ex : ℕ
ata_cmd_read_dma_ex = 0x25

abbrev pub ata_cmd_write_dma_ext : ℕ
ata_cmd_write_dma_ext = 0x35

abbrev pub ata_cmd_identify_device : ℕ
ata_cmd_identify_device = 0xEC

-- `AHCI_PRDT_ENTRY`, with the fields that are not 0.
pub record PrdtEntry : Type 0 where
  pub dba : ℕ
  pub dbc : ℕ

-- `AHCI_FIS_H2D`, with the fields that are not 0.
pub record FisH2d : Type 0 where
  pub typ : ℕ
  pub ccc : ℕ
  pub cmd : ℕ
  pub ftl : ℕ
  pub ba0 : ℕ
  pub ba1 : ℕ
  pub ba2 : ℕ
  pub dvc : ℕ
  pub ba3 : ℕ
  pub ba4 : ℕ
  pub ba5 : ℕ
  pub cnt : ℕ

-- The head and the table of the command in slot 0.
pub record AtaCommand : Type 0 where
  pub cfl : ℕ
  pub wrt : ℕ
  pub dtl : ℕ
  pub prd : List PrdtEntry
  pub fis : FisH2d

-- `AHCICommandWR`
unfoldable pub ahci_command_wr : ℕ → ℕ
ahci_command_wr cmd = if cmd == ata_cmd_write_dma_ext then 1 else 0

-- The loop that fills `PRD`, for `count1` sectors at `bufAddr`.
unfoldable pub prdt_entries : ℕ → ℕ → ℕ → List PrdtEntry
prdt_entries zero count1 buf_addr = []
prdt_entries (suc fuel) count1 buf_addr =
    let cnt = if ltb count1 16 then count1 else 16 in
    let rest = prdt_entries fuel (count1 - cnt) (add64 buf_addr (cnt * 2 ^ 9)) in
    if count1 == 0 then [] else record { dba = buf_addr; dbc = cnt * 2 ^ 9 - 1 } ∷ rest

unfoldable pub fis_of : ℕ → ℕ → ℕ → FisH2d
fis_of cmd lba count = record {
  typ = 0x27;
  ccc = 1;
  cmd = u8 cmd;
  ftl = 1;
  ba0 = u8 lba;
  ba1 = u8 (lba / 2 ^ 8);
  ba2 = u8 (lba / 2 ^ 16);
  dvc = 2 ^ 6;
  ba3 = u8 (lba / 2 ^ 24);
  ba4 = u8 (lba / 2 ^ 32);
  ba5 = u8 (lba / 2 ^ 40);
  cnt = count;
}

unfoldable pub command_of : ℕ → ℕ → ℕ → ℕ → AtaCommand
command_of cmd lba count buf_addr = record {
  cfl = 5;
  wrt = ahci_command_wr cmd;
  dtl = (count - 1) / 2 ^ 4 + 1;
  prd = prdt_entries count count buf_addr;
  fis = fis_of cmd lba count;
}

-- What a command leaves: the interrupt status, the memory, and the rest.
pub record Completed (W : Type 0) : Type 0 where
  pub ist : ℕ
  pub memory : Buffer
  pub world : W

-- `AHCI_HBA_PORT`: the stores that clear `IST` and `SAE`, the values of `TFD` at the polls before the
-- timeout, and the issue of the command in slot 0.
pub record HbaPort (W : Type 0) : Type 0 where
  pub clear_ist : W → W
  pub clear_sae : W → W
  pub tfd : W → List ℕ
  pub issue : AtaCommand → Buffer → W → Completed W

-- Whether `TFD` is neither `DRQ` nor `BSY` before the timeout.
unfoldable pub wait_idle : List ℕ → Bool
wait_idle [] = false
wait_idle (x ∷ xs) =
    let rest = wait_idle xs in if x / 2 ^ 7 % 2 == 1 || x / 2 ^ 3 % 2 == 1 then rest else true

-- What `OperationATA` returns, the buffer as it is then, and the rest.
pub record AtaResult (W : Type 0) : Type 0 where
  pub ret : ℕ
  pub buf : Buffer
  pub world : W

-- The memory that holds a buffer at an address.
abbrev pub placed : ℕ → Buffer → Buffer
placed buf_addr buf a = buf (a - buf_addr)

-- The count of a command.
abbrev pub ata_count : ℕ → ℕ → ℕ
ata_count count cmd =
    if cmd == ata_cmd_identify_device then 1 else (if ltb 128 count then 128 else count)

-- `OperationATA`, where `buf_addr` is the physical address of `buf`.
unfoldable pub operation_ata : {W : Type 0} → HbaPort W → ℕ → ℕ → ℕ → ℕ → Buffer → W → AtaResult W
operation_ata port buf_addr lba count cmd buf w =
    let n = ata_count count cmd in
    let ready = port.clear_sae (port.clear_ist w) in
    let done = port.issue (command_of cmd lba n buf_addr) (placed buf_addr buf) ready in
    if count == 0
    then record { ret = 0; buf = buf; world = w }
    else (if wait_idle (port.tfd ready)
        then record {
          ret = if done.ist / 2 ^ 30 % 2 == 1 then 2 * 2 ^ 16 else n;
          buf = λ k. done.memory (buf_addr + k);
          world = done.world;
        }
        else record { ret = 1 * 2 ^ 16; buf = buf; world = ready })

-- What `OperationAHCI` uses of `AHCI_PORT`.
pub record AhciPort (W : Type 0) : Type 0 where
  pub port : HbaPort W
  pub bs : ℕ
  pub ser : Buffer
  pub mod_name : Buffer

-- The `DISK_IDENTIFY` of a port, in a buffer.
abbrev pub ahci_identify : {W : Type 0} → AhciPort W → Buffer → Buffer
ahci_identify ap dat =
    memcpy (memcpy (memcpy dat 0 (λ _. 0) 0 0x60) 0 ap.ser 0 0x14) 0x30 ap.mod_name 0 0x28

-- The command of a request.
abbrev pub ata_command : ℕ → ℕ
ata_command cmd = if cmd == cmd_read then ata_cmd_read_dma_ex else ata_cmd_write_dma_ext

abbrev pub ahci_count : ℕ → ℕ → ℕ
ahci_count bs cnt = if ltb (4096 / bs) cnt then 4096 / bs else cnt

-- The request after `OperationATA`.
unfoldable pub ahci_done : {W : Type 0} → DiskOperation → AtaResult W → Outcome W
ahci_done op r =
    if r.ret / 2 ^ 16 == 0
    then record { code = ret_success; op = record op { cnt = r.ret; dat = r.buf }; world = r.world }
    else record { code = ret_ebadtrack; op = record op { cnt = 0; dat = r.buf }; world = r.world }

-- `OperationAHCI`, where `buf_addr` is the physical address of the buffer of the request.
unfoldable pub operation_ahci : {W : Type 0} → AhciPort W → ℕ → DiskOperation → W → Outcome W
operation_ahci ap buf_addr op w =
    let n = ahci_count ap.bs op.cnt in
    if op.cmd == cmd_identify
    then record {
      code = ret_success;
      op = record op { cnt = 1; dat = ahci_identify ap op.dat };
      world = w;
    }
    else (if op.cmd == cmd_read || op.cmd == cmd_write
        then ahci_done op (operation_ata ap.port buf_addr op.lba n (ata_command op.cmd) op.dat w)
        else default_disk_operation op w)

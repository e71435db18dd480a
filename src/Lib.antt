-- ===== src/Lib.antt =====
-- Strawberry-OS: the two boot loaders, and the kernel's memory, disks, devices, interrupts and console,
-- modelled from the C sources.
--
-- Paths below are from the root of the repository. A `QWORD`, `DWORD`, `WORD` or `BYTE` is a native
-- number with its wrap-around written out by `%`. A structure that the code changes through a pointer is
-- a record or a tree that the operations take and return.
--
-- Block (KERNEL/SOURCE/memory/block.c) is the AVL tree of address ranges that the kernel keeps its free
-- physical memory and its virtual memory in. AdjustHeight, AdjustAVL and AdjustMemoryMap are
-- `adjust_height`, `adjust_avl` and `adjust_memory_map`, SearchMemoryNode is `search_memory_node`,
-- RemoveMemoryNode is `remove_memory_node` and InsertMemoryNode is `insert_memory_node`. A node keeps its
-- address, by which `HeapFree` and the callers' pointers name it; the walk along the parent links is a
-- list of frames. The use of a node that was freed is the result `none`.
--
-- Physical (KERNEL/SOURCE/memory/page.c) is the allocator of physical pages on such a tree:
-- AllocatePhysicalMemory is `allocate_physical_memory`, FreePhysicalMemory is `free_physical_memory`. The
-- rounds of the search run on fuel, and more than one unit for each range is enough. The node that
-- `HeapAlloc` gives is an argument. An allocation that finds no page ends in the endless loop of
-- MemoryNotEnough, which is the result `halted`.
--
-- Heap (KERNEL/SOURCE/memory/heap.c) is the kernel heap on its words: setup_heap, HeapAlloc and HeapFree.
-- The loops of HeapAlloc run on fuel, and more than one unit for each block is enough.
--
-- Paging (KERNEL/SOURCE/memory/page.c) is the walk through the page tables: page_entry, linear_mapping,
-- linear_unmapping and physical_mapping, and the handler INT0E of page faults, on the words of the area
-- where physical memory is mapped statically, with pages for new tables from Physical.
--
-- Virtual (KERNEL/SOURCE/memory/virtual.c) is the regions of virtual memory in three such trees:
-- SetupVirtualMemory, UncommitVirtualMemory and, in Virtual.Request, the steps of
-- NtAllocateVirtualMemory. The loops over regions run on fuel, and more than one unit for each region is
-- enough for the search of an address; the loop over the pages of a region has a fuel of its own.
--
-- Disk (KERNEL/SOURCE/device/disk.c) is the layer over the drivers of disks: ExecuteDiskOperation,
-- DefaultDiskOperation, DISKRW and LinkupDisk. A driver is a function on requests and a state of its own;
-- Disk.Sectors says what DISKRW relies on of one. DISKRW runs on fuel, and more than one unit for each
-- sector is enough, since such a driver serves a sector at least. The page that it allocates for its time
-- is an argument.
--
-- Nvme (KERNEL/SOURCE/device/nvme.c) is the queues of an NVMe controller and a driver of disks on them:
-- NVMEConfigureCQ, NVMEConfigureSQ, NVMEWaitingCMD, NVMETransfer and OperationNVME. What the controller
-- writes into the completion queue, as the driver sees it at each poll before its time limit, is an
-- argument.
--
-- Scsi (KERNEL/SOURCE/device/scsi.c) is the commands of a SCSI disk over that layer: SCSISetupCommand,
-- SCSIWaitReady and SCSISetup. The loop of SCSIWaitReady runs over the times that the clock gives.
--
-- Msc (KERNEL/SOURCE/device/usb/msc.c) is a disk behind the bulk-only transport of USB: OperationMSC, over
-- the controller's transfers as an argument. Msc.Target says what such a device does, and makes it a drive
-- of sectors for Disk.
--
-- Hid (KERNEL/SOURCE/device/usb/hid.c) is the reports of a USB keyboard: USBKeyboardEvent, which gives
-- codes to the ring of Keyboard. Hid.Pressed is about the bits of KEYPRESS, Hid.Codes about the codes.
--
-- Xhci (KERNEL/SOURCE/device/xhci.c) is the rings of an xHCI controller: XHCICopyTRB, XHCIQueueTRB, the
-- blocks that XHCITransfer queues on the ring of a pipe, and XHCIProcessEvent on the event ring. The
-- physical address of a ring and the ring that a page belongs to are arguments.
--
-- Interrupt (KERNEL/SOURCE/interrupt/interrupt.c and 8259A.c) is the table of the interrupts:
-- register_interrupt, setup_interrupt, the dispatch of __isr_common, and the ports of the controllers.
--
-- Acpi (KERNEL/SOURCE/acpi/acpi.c and madt.c) is the choice of the firmware's table and SetupMADT, which
-- walks through the entries for processors. Both loops run on fuel, more than the bytes of a table.
--
-- Timer (KERNEL/SOURCE/timer/timer.c and 8254.c) is the ports of setup_8254, the rounding of the
-- measured frequency in setup_timer, TimestampCPU and the times of delay. The rounding loop runs on
-- fuel: every round makes the frequency smaller.
--
-- Ahci (KERNEL/SOURCE/device/ahci.c) is the disks behind an AHCI controller: Ahci is OperationATA, with
-- the head, the table and the frame of its command, and OperationAHCI, and Ahci/Ports the choice of the
-- ports and what is taken of a disk. What a port does with a command is an argument; Ahci/Target says
-- what a port with a disk does, and makes it a drive of sectors for Disk.
--
-- Efi (EFI/main.c) is the memory map that the EFI loader hands to the kernel: SortMemoryMap,
-- CompactMemoryMap, and the regions of EFIMainCRTStartup, which are `boot_regions`.
--
-- Bios (BIOS/STBR64.C) is the loader that a BIOS starts: Bios/Memory is allocate_physical, Bios/Command is
-- AHCIIO and the scans for a disk, Bios/Tables is setup_paging and physical_mapping, Bios/Volume is
-- LoadingSATA, which finds the partition and the file of the kernel, and Bios/Runs is READVD and the loop
-- that reads the file's clusters. A step that fails or stops the processor is a result of its own, and a
-- cluster is read by an argument, which is AHCIIO. The loop over a run list runs on fuel, more than one
-- unit for each run; the loops that fill a table on one for each entry and one more.
--
-- Usb (KERNEL/SOURCE/device/usb.c) is USBEnumerate, USBSetAddress and ConfigureUSB over a controller that
-- is an argument; Usb/Search is the search for interfaces and endpoints in a configuration, and
-- Usb/Drivers the set-up of a hub, a keyboard or a mass storage (device/usb/hub.c, hid.c and msc.c).
-- The searches run on fuel, more than one unit for each descriptor: the code does not end on one whose
-- size is 0.
--
-- Startup (KERNEL/SOURCE/memory/page.c) is setup_paging, which makes the map of Physical from the regions
-- of a loader, and ForeachMemoryMap; Startup/Regions joins it to Efi: from the firmware's memory map to
-- the kernel's. Acpi/Fadt (KERNEL/SOURCE/acpi/fadt.c) is SetupFADT and ACPIPowerOff, and Pci
-- (KERNEL/SOURCE/device/pci.c) the scan of the bus and the registers of a device. Apic
-- (KERNEL/SOURCE/interrupt/apic.c) is the local APIC: the writes to its registers, its timer, and
-- StartupAP, which runs on the machine of Paging.
--
-- Console (KERNEL/SOURCE/console/console.c) is the text screen: OUTPUTTEXT, SCROLLSCREEN and MOVECURSOR on
-- the text buffer, the frame buffer and the display's ports, and the digits of PRINTRAX and OUTPUTWORD.
--
-- Keyboard (KERNEL/SOURCE/device/keyboard.c) is the ring of key events: KeyEvent, KeyNext and
-- CreateKeyEventRing.
--
-- ByteOrder (KERNEL/SOURCE/intrinsic.c) is __reverse16, __reverse32 and __reverse64, and Strings
-- (KERNEL/SOURCE/common/string.c) is strlen and LeadingWhitespace.
--
-- Prelude has the Boolean tests, lists, words, a binary or and the operations on Option that the parts share. The
-- children of a part are named for what they prove, and its Tests run it at concrete inputs.
--
-- Not modelled: the set-up of an NVMe, AHCI or xHCI controller, whose steps are accesses to registers; the
-- screens of the two loaders, and what they ask the firmware; the tables of segments, and what a
-- processor does after its start; and the code in assembly.
pub mod Prelude
pub mod Acpi
pub mod Ahci
pub mod Apic
pub mod Bios
pub mod Block
pub mod ByteOrder
pub mod Console
pub mod Disk
pub mod Efi
pub mod Heap
pub mod Hid
pub mod Interrupt
pub mod Keyboard
pub mod Msc
pub mod Nvme
pub mod Paging
pub mod Pci
pub mod Physical
pub mod Scsi
pub mod Startup
pub mod Strings
pub mod Timer
pub mod Usb
pub mod Virtual
pub mod Xhci

-- ===== src/Bios.antt =====
-- BIOS/STBR64.C: the loader that the BIOS starts, once the processor is in long mode.
--
-- Runs is the run list of the kernel's file, Memory the allocation of pages from the memory map of the
-- BIOS, Command the commands to a disk, Volume the search for the partition and the file, and Tables the
-- page tables.
pub mod Runs
pub mod Memory
pub mod Command
pub mod Volume
pub mod Tables

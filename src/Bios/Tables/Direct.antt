-- ===== src/Bios/Tables/Direct.antt =====
-- `setup_paging` maps the low 4 GB of the memory.
use strawberry_os.Prelude.{ℕ, ◌-◌, ◌%◌, ◌^◌, ◌≡◌, ◌≢◌}
use strawberry_os.Bios.Memory.Room.{IsReady}
use strawberry_os.Bios.Tables.{BootMemory}
use strawberry_os.Bios.Tables.Pages.{IsTable}
use strawberry_os.Bios.Tables.Entries.{IsMappedLow}

-- The tables of the low 4 GB are there, with room for more.
record IsStaged (k l1 low : ℕ) (m : BootMemory) : Type 0 where
  first_table : IsTable m.areas l1
  low_table : IsTable m.areas low
  apart : l1 ≢ low
  mapped : IsMappedLow m l1 low
  ready : IsReady k m.areas

-- One more table, which is another page.
record IsNext (k l1 low : ℕ) (t : ℕ) (m' : BootMemory) : Type 0 where
  staged : IsStaged (k - 2 ^ 13) l1 low m'
  aligned : t % 2 ^ 12 ≡ 0
  apart1 : l1 ≢ t
  apart2 : low ≢ t

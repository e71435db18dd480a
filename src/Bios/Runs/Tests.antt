-- ===== src/Bios/Runs/Tests.antt =====
-- Run lists at concrete inputs.
use strawberry_os.Prelude.{ℕ, ◌+◌, ◌-◌, ◌≡◌, refl, some, ◌==◌, if◌then◌else◌, List, [], ◌∷◌}
use strawberry_os.Bios.Runs.{bytes_value, readvd, cluster_reads, run_reads}
use strawberry_os.Bios.Runs.Mapping.{Run, file_sectors}

-- Three clusters at cluster 5, and two clusters 4 behind it.
abbrev two_runs : ℕ → ℕ
two_runs k =
    if k == 0
    then 0x11
    else (if k == 1
        then 3
        else (if k == 2
            then 5
            else (if k == 3 then 0x11 else (if k == 4 then 2 else (if k == 5 then 4 else 0)))))

abbrev runs : List Run
runs =
    record { clusters = 3; distance = 5; clusters_size = 1; distance_size = 1 }
    ∷ record { clusters = 2; distance = 4; clusters_size = 1; distance_size = 1 }
    ∷ []

second_run : file_sectors 8 2048 runs ≡ 2088 ∷ 2096 ∷ 2104 ∷ 2120 ∷ 2128 ∷ []
second_run = refl

-- A run 2 clusters before the last one, at sector 2088, is read 2^32 sectors too far.
backward :
    run_reads 2
      (λ k. if k == 0 then 0x11 else (if k == 1 then 1 else (if k == 2 then 0xFE else 0)))
      8
      0
      2088
      0
    ≡ some (record { sector = 2088 + 0x100000000 - 16; dst = 0 } ∷ [])
unfolding run_reads readvd bytes_value cluster_reads
backward = refl

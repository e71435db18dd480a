-- ===== src/Bios/Runs/Mapping.antt =====
-- A run list whose runs go forward gives every cluster of the file its place.
use strawberry_os.Prelude.{ℕ, zero, suc, ◌+◌, ◌-◌, ◌*◌, ◌^◌, ◌<◌, ◌≡◌, List, [], ◌∷◌, ◌++◌}
use strawberry_os.Bios.Runs.{bytes_value, ClusterRead}

-- A run: how many clusters, how far behind the last run it begins, in clusters, and the sizes of the two
-- numbers in bytes.
pub record Run : Type 0 where
  pub clusters : ℕ
  pub distance : ℕ
  pub clusters_size : ℕ
  pub distance_size : ℕ

-- The run stands at `at`, with the sign bits of its numbers clear; `READVD` returns a `DWORD`, and
-- the distance in sectors is a product of `DWORD`s, so that its clusters, its distance and that
-- product are below 2^32.
pub record IsRunAt (m : ℕ → ℕ) (size at : ℕ) (r : Run) : Type 0 where
  pub sizes : m at ≡ r.distance_size * 2 ^ 4 + r.clusters_size
  pub some_size : 0 < r.clusters_size
  pub short_size : r.clusters_size < 2 ^ 4
  pub has_clusters : bytes_value m (at + 1) r.clusters_size ≡ r.clusters
  pub clusters_sign : r.clusters < 2 ^ (8 * r.clusters_size - 1)
  pub clusters_small : r.clusters < 2 ^ 32
  pub has_distance : bytes_value m (at + 1 + r.clusters_size) r.distance_size ≡ r.distance
  pub distance_sign : r.distance < 2 ^ (8 * r.distance_size - 1)
  pub distance_small : r.distance * size < 2 ^ 32
  pub distance_fits : r.distance < 2 ^ 32

-- The runs stand from `at` on, behind them a byte 0, and no sector is 2^64 or above; the last run began
-- at `run`.
abbrev pub IsRunList : (ℕ → ℕ) → ℕ → ℕ → ℕ → List Run → Type 0
IsRunList m size at run [] = m at ≡ 0
IsRunList m size at run (r ∷ rs) =
    IsRunAt m size at r
    × (run + r.distance * size + r.clusters * size < 2 ^ 64)
    × IsRunList m size (at + 1 + r.clusters_size + r.distance_size) (run + r.distance * size) rs

-- The sectors at which the clusters of a run begin.
abbrev pub run_sectors : ℕ → ℕ → ℕ → List ℕ
run_sectors size sector zero = []
run_sectors size sector (suc n) = sector ∷ run_sectors size (sector + size) n

-- The sectors at which the clusters of the file begin, in order.
abbrev pub file_sectors : ℕ → ℕ → List Run → List ℕ
file_sectors size run [] = []
file_sectors size run (r ∷ rs) =
    run_sectors size (run + r.distance * size) r.clusters
    ++ file_sectors size (run + r.distance * size) rs

-- One cluster behind the other.
abbrev pub in_order : ℕ → ℕ → List ℕ → List ClusterRead
in_order bytes dst [] = []
in_order bytes dst (s ∷ ss) = record { sector = s; dst = dst } ∷ in_order bytes (dst + bytes) ss

abbrev pub file_clusters : List Run → ℕ
file_clusters [] = 0
file_clusters (r ∷ rs) = r.clusters + file_clusters rs

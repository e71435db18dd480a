-- ===== src/Bios/Runs.antt =====
-- `READVD`, and the run list of `LoadingSATA`: the clusters of the kernel's file, and where they go.
--
-- The record of the file is a function from an address to a byte.
pub mod Mapping
mod Tests
use strawberry_os.Prelude.{
  ℕ, zero, suc, ◌+◌, ◌-◌, ◌*◌, ◌/◌, ◌%◌, ◌^◌, Bool, true, false, Option, none, some, List, [], ◌∷◌,
  ◌++◌, ◌==◌, if◌then◌else◌, ◌>>=◌, u32, u64, add64,
}

-- The number of `size` bytes, the lowest first.
unfoldable pub bytes_value : (ℕ → ℕ) → ℕ → ℕ → ℕ
bytes_value m addr zero = 0
bytes_value m addr (suc size) = m addr + 2 ^ 8 * bytes_value m (addr + 1) size

-- `READVD`: the upper bits are those of the sign, and the result is a `DWORD`.
unfoldable pub readvd : (ℕ → ℕ) → ℕ → ℕ → ℕ
readvd m addr size =
    let x = bytes_value m addr size in
    u32 (if x / 2 ^ (8 * size - 1) % 2 == 1 then x + (2 ^ 64 - 2 ^ (8 * size)) else x)

-- A call of `AHCIIO` that reads one cluster: the sector, and where it goes.
pub record ClusterRead : Type 0 where
  pub sector : ℕ
  pub dst : ℕ

-- "Read clusters"
unfoldable pub cluster_reads : ℕ → ℕ → ℕ → ℕ → List ClusterRead
cluster_reads size zero sector dst = []
cluster_reads size (suc cluster) sector dst =
    record { sector = sector; dst = dst }
    ∷ cluster_reads size cluster (add64 sector size) (add64 dst (size * 2 ^ 9))

-- The loop over the run list from `attribute` on: the reads of clusters of `size` sectors, where the
-- last run began at the sector `run` and the next cluster goes to `dst`. It runs on fuel.
unfoldable pub run_reads : ℕ → (ℕ → ℕ) → ℕ → ℕ → ℕ → ℕ → Option (List ClusterRead)
run_reads zero m size attribute run dst = none
run_reads (suc fuel) m size attribute run dst =
    let start_size = m attribute / 2 ^ 4 in
    let cluster_size = m attribute % 2 ^ 4 in
    let cluster = readvd m (attribute + 1) cluster_size in
    let first = add64 run (u32 (readvd m (attribute + 1 + cluster_size) start_size * size)) in
    let rest =
      run_reads fuel m size (attribute + 1 + cluster_size + start_size) first
        (add64 dst (cluster * (size * 2 ^ 9))) in
    if m attribute == 0
    then some []
    else (rest >>= λ rs. some (cluster_reads size cluster first dst ++ rs))

-- The reads in order, up to one that fails: whether none did, and what they leave. `io` is `AHCIIO`
-- for a cluster.
unfoldable pub perform : {W : Type 0} → (ClusterRead → W → ℕ × W) → List ClusterRead → W → Bool × W
perform io [] w = (true, w)
perform io (r ∷ rs) w =
    let (cc, w') = io r w in let rest = perform io rs w' in if cc == 0 then rest else (false, w')

-- ===== src/Fat16/Content.antt =====
-- What a read of a file delivers.
use amog_os.Base.{ℕ, ◌+◌, ◌-◌, ◌*◌, ◌/◌, ◌%◌, ◌^◌, ◌<◌, ◌≤◌}
use amog_os.Disk.{sector_size}
use amog_os.Fat16.{Fat16Private}
use amog_os.Fat16.Chain.{Chain}

-- The place of the byte `offset` of a file that lies in cluster `c`.
unfoldable pub byte_at : Fat16Private → ℕ → ℕ → ℕ
byte_at private c offset =
    (private.dir_end_sector_pos + (c - 2) * private.sectors_per_cluster) * sector_size
    + offset % (private.sectors_per_cluster * sector_size)

-- The bytes from `offset` on lie in cluster `c`, which the table leads to from the first cluster
-- of the file, all of it is below 2 ^ 32, and an `int` is enough for the
-- offset.
pub record InCluster (content : ℕ → ℕ) (private : Fat16Private) (first c offset size : ℕ)
    : Type 0 where
  pub chain : Chain content private (offset / (private.sectors_per_cluster * sector_size)) first c
  pub some_sectors : 0 < private.sectors_per_cluster
  pub int_offset : offset + private.sectors_per_cluster * sector_size < 2 ^ 31
  pub data_cluster : 2 ≤ c
  pub int : c < 2 ^ 31
  pub whole :
      offset % (private.sectors_per_cluster * sector_size) + size
      ≤ private.sectors_per_cluster * sector_size
  pub low : byte_at private c offset + size < 2 ^ 32

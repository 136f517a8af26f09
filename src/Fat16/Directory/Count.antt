-- ===== src/Fat16/Directory/Count.antt =====
-- The number of entries of a directory.
use amog_os.Base.{
  ℕ, zero, suc, ◌+◌, ◌*◌, ◌^◌, ◌<◌, ◌≡◌, ◌≢◌, ap, ◌∙◌, some, true, false, arith, Bool-cases, inl,
  inr, ◌==◌, if◌then◌else◌,
}
use amog_os.Base.Int.{pos}
use amog_os.Base.Words.{mul32}
use amog_os.Disk.{Ports, DiskStream, sector_size, disk_stream_seek}
use amog_os.Disk.Sectors.{IsDrive}
use amog_os.Disk.Read.{disk_stream_read_lem}
use amog_os.Fat16.Directory.{dir_entry_size, count_items, fat16_get_total_items_in_dir}

-- The entries that are not deleted among the `n` that lie on the disk from the byte `at` on.
abbrev pub not_deleted : (ℕ → ℕ) → ℕ → ℕ → ℕ
not_deleted content at zero = 0
not_deleted content at (suc n) =
    let rest = not_deleted content (at + dir_entry_size) n in
    if content at == 0xE5 then rest else 1 + rest

-- `n` entries, deleted ones among them, and the null entry behind them.
pub record IsDirectory (content : ℕ → ℕ) (at n : ℕ) : Type 0 where
  pub entries : (k : ℕ) → k < n → content (at + k * dir_entry_size) ≢ 0
  pub ends : content (at + n * dir_entry_size) ≡ 0

abbrev stream_at : ℕ → DiskStream
stream_at at = record { disk = 0; byte_offset = at }

module _ (drive : Ports → ℕ → ℕ) (content : ℕ → ℕ) (d : IsDrive drive content) where
  tail-IsDirectory :
      (at n : ℕ) → IsDirectory content at (suc n) → IsDirectory content (at + dir_entry_size) n
  tail-IsDirectory at n i = record {
    entries = λ k lt.
        let e : at + suc k * dir_entry_size ≡ at + dir_entry_size + k * dir_entry_size =
          omega arith in
        rw (← e) (i.entries (suc k) (omega arith));
    ends =
        let e : at + suc n * dir_entry_size ≡ at + dir_entry_size + n * dir_entry_size =
          omega arith in
        rw (← e) i.ends;
  }

  count_items_lem :
      (fuel at n cnt : ℕ)
      → IsDirectory content at n
      → n < fuel
      → at + (n + 1) * dir_entry_size < 2 ^ 32
      → count_items drive fuel (stream_at at) cnt
        ≡ some (pos (cnt + not_deleted content at n), stream_at (at + (n + 1) * dir_entry_size))
  unfolding count_items
  count_items_lem zero at n cnt i lt small = absurd (omega arith)
  count_items_lem (suc f) at zero cnt i lt small =
      let read = disk_stream_read_lem drive content d at 0 dir_entry_size (λ _. 0) (omega arith) in
      let here : at + 0 * dir_entry_size ≡ at + 0 = omega arith in
      let z : (content (at + 0) == 0) ≡ true = ground (arith, ap content here, i.ends) in
      let c : cnt ≡ cnt + 0 = omega arith in
      rw read (rw z (ap (λ (n : ℕ). some (pos n, stream_at (at + dir_entry_size))) c))
  count_items_lem (suc f) at (suc n) cnt i lt small =
      let read = disk_stream_read_lem drive content d at 0 dir_entry_size (λ _. 0) (omega arith) in
      let here : at + 0 * dir_entry_size ≡ at + 0 = omega arith in
      let z : (content (at + 0) == 0) ≡ false =
        ground (arith, ap content here, i.entries 0 (omega arith)) in
      let first : at + 0 ≡ at = omega arith in
      let end : at + dir_entry_size + (n + 1) * dir_entry_size ≡ at + (suc n + 1) * dir_entry_size =
        omega arith in
      let next = λ (c : ℕ).
        count_items_lem f (at + dir_entry_size) n c (tail-IsDirectory at n i) (omega arith)
          (omega arith) in
      rw read (
        rw z (
          rw first (elim (Bool-cases (content at == 0xE5)) [
            | inl t ↦ rw t (
                next cnt
                ∙ ap
                    (λ (a : ℕ).
                      some (pos (cnt + not_deleted content (at + dir_entry_size) n), stream_at a))
                    end)
            | inr t ↦
                let c : cnt + 1 + not_deleted content (at + dir_entry_size) n
                    ≡ cnt + (1 + not_deleted content (at + dir_entry_size) n) =
                  omega arith in
                rw t (
                  next (cnt + 1)
                  ∙ ap
                      (λ (a : ℕ).
                        some (
                          pos (cnt + 1 + not_deleted content (at + dir_entry_size) n),
                          stream_at a,
                        ))
                      end
                  ∙ ap (λ (c : ℕ). some (pos c, stream_at (at + (suc n + 1) * dir_entry_size))) c)
          ])))

  -- On a drive that holds the bytes `content`, when `n` entries whose first byte is not 0 lie from
  -- the first byte of the sector on, with an entry behind them whose first byte is 0, all below
  -- 2 ^ 32, more than `n` rounds suffice, and the count is the number of those entries whose first
  -- byte is not 0xE5.
  pub fat16_get_total_items_in_dir_lem :
      (fuel dir_start_sector n : ℕ) (stream : DiskStream)
      → stream.disk ≡ 0
      → IsDirectory content (dir_start_sector * sector_size) n
      → n < fuel
      → dir_start_sector * sector_size + (n + 1) * dir_entry_size < 2 ^ 32
      → fat16_get_total_items_in_dir drive fuel stream dir_start_sector
        ≡ some (
          pos (not_deleted content (dir_start_sector * sector_size) n),
          stream_at (dir_start_sector * sector_size + (n + 1) * dir_entry_size),
        )
  unfolding fat16_get_total_items_in_dir disk_stream_seek
  fat16_get_total_items_in_dir_lem fuel sec n stream z i lt small =
      let e : mul32 sec sector_size ≡ sec * sector_size = omega arith in
      let c : 0 + not_deleted content (sec * sector_size) n
          ≡ not_deleted content (sec * sector_size) n =
        omega arith in
      let counted = count_items_lem fuel (sec * sector_size) n 0 i lt small in
      let end = sec * sector_size + (n + 1) * dir_entry_size in
      rw (e, z) (counted ∙ ap (λ (k : ℕ). some (pos k, stream_at end)) c)

-- ===== src/Fat16/Directory.antt =====
-- Directories of the FAT16 file system (src/fs/fat/fat16.c): how many entries one has on the disk,
-- and the search for a name among those in memory.
pub mod Count
pub mod Lookup
pub mod Samples
mod Tests
use amog_os.Base.{ℕ, zero, suc, ◌+◌, Option, none, some, Bool, true, false, ◌==◌, if◌then◌else◌}
use amog_os.Base.Int.{ℤ, pos, is_ok}
use amog_os.Base.Options.{◌>>=◌}
use amog_os.Base.Words.{mul32}
use amog_os.CString.{Str, istrncmp}
use amog_os.Disk.{Ports, DiskStream, Reading, disk_stream_seek, disk_stream_read, sector_size}
use amog_os.Fat16.{DirEntry, fat16_get_full_relative_filename}
use amog_os.FilePath.{fs_max_path_len}

-- `sizeof(struct fat16_dir_entry)`
abbrev pub dir_entry_size : ℕ
dir_entry_size = 32

module _ (drive : Ports → ℕ → ℕ) where
  -- The loop of `fat16_get_total_items_in_dir`, of at most `fuel` rounds.
  pub count_items : ℕ → DiskStream → ℕ → Option (ℤ × DiskStream)
  count_items zero stream cnt = none
  count_items (suc fuel) stream cnt = do
    r ← disk_stream_read drive stream 0 dir_entry_size (λ _. 0)
    (let first = r.out 0 in
        let rest = count_items fuel r.stream (if first == 0xE5 then cnt else cnt + 1) in
        if is_ok r.ret
        then (if first == 0 then some (pos cnt, r.stream) else rest)
        else some (r.ret, r.stream))

  -- `fat16_get_total_items_in_dir`: the result, and the directory's stream.
  pub fat16_get_total_items_in_dir : ℕ → DiskStream → ℕ → Option (ℤ × DiskStream)
  fat16_get_total_items_in_dir fuel stream dir_start_sector =
      let (res, stream₁) = disk_stream_seek stream (mul32 dir_start_sector sector_size) in
      if is_ok res then count_items fuel stream₁ 0 else some (res, stream₁)

-- The loop of `fat16_find_item_in_dir_by_name` from the entry `i` on: the index of the entry that
-- it takes. `tmp_filename` is the buffer.
pub find_item : ℕ → ℕ → (ℕ → DirEntry) → Str → Str → Option ℕ
find_item zero i dir_entries file_name tmp_filename = none
find_item (suc left) i dir_entries file_name tmp_filename =
    let name = fat16_get_full_relative_filename (dir_entries i) fs_max_path_len tmp_filename in
    let rest = find_item left (i + 1) dir_entries file_name name in
    if is_ok (istrncmp name file_name fs_max_path_len) then some i else rest

-- ===== src/Fat16.antt =====
-- The FAT16 file system (src/fs/fat/fat16.c), read only, over the streams of `Disk`.
pub mod Name
pub mod Seek
pub mod Chain
pub mod Content
pub mod Directory
pub mod Open
mod Tests
use amog_os.Base.{
  ℕ, zero, suc, ◌+◌, ◌-◌, ◌*◌, ◌/◌, ◌%◌, ◌^◌, bit_and, bit_or, Option, none, some, Bool, true,
  false, not, ltb, leb, ◌==◌, ◌&&◌, ◌||◌, if◌then◌else◌,
}
use amog_os.Base.Int.{ℤ, pos, negsuc, neg, is_ok, is_neg, pos_part, neg_part}
use amog_os.Base.Options.{◌>>=◌}
use amog_os.Disk.{Ports, DiskStream, Reading, disk_stream_seek, disk_stream_read, sector_size}
use amog_os.Base.Memory.{update}
use amog_os.Base.Words.{add32, sub32, mul32}

abbrev pub fat16_max_file_name : ℕ
fat16_max_file_name = 8

abbrev pub fat16_max_ext_name : ℕ
fat16_max_ext_name = 3

-- `struct fat16_dir_entry`, the fields that are used.
pub record DirEntry : Type 0 where
  pub filename : ℕ → ℕ
  pub ext : ℕ → ℕ
  pub attribs : ℕ
  pub high_16_bits_first_cluster : ℕ
  pub low_16_bits_first_cluster : ℕ
  pub file_size : ℕ

-- `fat16_filename_to_proper_str` from the `i`th character on, which goes to `at`: the buffer, and
-- where its NUL stands.
pub proper_str : ℕ → (ℕ → ℕ) → ℕ → ℕ → (ℕ → ℕ) → ℕ × (ℕ → ℕ)
proper_str zero name i at out = (at, update out at 0)
proper_str (suc left) name i at out =
    let rest = proper_str left name (i + 1) (at + 1) (update out at (name i)) in
    if name i == b' ' || name i == 0 then (at, update out at 0) else rest

-- `fat16_get_full_relative_filename` to a buffer of `max_len` bytes.
pub fat16_get_full_relative_filename : DirEntry → ℕ → (ℕ → ℕ) → ℕ → ℕ
fat16_get_full_relative_filename entry max_len out =
    let cleared : ℕ → ℕ = λ j. if ltb j max_len then 0 else out j in
    let (at, out₁) = proper_str fat16_max_file_name entry.filename 0 0 cleared in
    let (last, out₂) = proper_str fat16_max_ext_name entry.ext 0 (at + 1) (update out₁ at b'.') in
    if entry.ext 0 == b' ' || entry.ext 0 == 0 then out₁ else out₂

-- `struct fat16_file_descriptor`, with the entry of its item; `is_file` is the item's type.
pub record FileDescriptor : Type 0 where
  pub is_file : Bool
  pub entry : DirEntry
  pub position : ℕ

-- `fat16_get_first_cluster`
pub fat16_get_first_cluster : DirEntry → ℕ
fat16_get_first_cluster entry =
    bit_or (entry.high_16_bits_first_cluster * 2 ^ 16) entry.low_16_bits_first_cluster

abbrev pub file_seek_set : ℕ
file_seek_set = 0

abbrev pub file_seek_cur : ℕ
file_seek_cur = 1

abbrev pub file_seek_end : ℕ
file_seek_end = 2

-- `fat16_seek`
pub fat16_seek : FileDescriptor → ℕ → ℕ → ℤ × FileDescriptor
fat16_seek fd offset seek_mode =
    if not fd.is_file
    then (neg 2, fd)
    else if leb fd.entry.file_size offset
    then (neg 1, fd)
    else if seek_mode == file_seek_set
    then (pos 0, record fd { position = offset })
    else if seek_mode == file_seek_end
    then (neg 6, fd)
    else if seek_mode == file_seek_cur
    then (if leb fd.entry.file_size (add32 offset fd.position)
        then (neg 2, fd)
        else (pos 0, record fd { position = add32 fd.position offset }))
    else (neg 2, fd)

-- `fat16_stat`: the result, the size and the flags. FILE_STAT_READ_ONLY is 0.
pub fat16_stat : FileDescriptor → ℕ × ℕ → ℤ × (ℕ × ℕ)
fat16_stat fd stat =
    if not fd.is_file
    then (neg 2, stat)
    else (pos 0, (fd.entry.file_size, if bit_and fd.entry.attribs 0x01 == 0 then 0 else bit_or 0 0))

-- `struct fat16_private` and what of its header is used.
pub record Fat16Private : Type 0 where
  pub reserved_sectors : ℕ
  pub sectors_per_cluster : ℕ
  pub dir_end_sector_pos : ℕ
  pub cluster_stream : DiskStream
  pub fat16_read_stream : DiskStream

-- The value of a word as an `int`, and an `int` as a word.
pub signed32 : ℕ → ℤ
signed32 w = if ltb w (2 ^ 31) then pos w else negsuc (2 ^ 32 - 1 - w)

pub word32 : ℤ → ℕ
word32 (pos n) = n
word32 (negsuc n) = 2 ^ 32 - 1 - n

-- The little-endian word at the start of a buffer.
pub word_of : (ℕ → ℕ) → ℕ
word_of b = b 0 + b 1 * 2 ^ 8 + b 2 * 2 ^ 16 + b 3 * 2 ^ 24

-- `fat16_cluster_to_sector`
pub fat16_cluster_to_sector : Fat16Private → ℕ → ℕ
fat16_cluster_to_sector private cluster =
    add32 private.dir_end_sector_pos (mul32 (sub32 cluster 2) private.sectors_per_cluster)

pub bytes_per_cluster : Fat16Private → ℕ
bytes_per_cluster private = private.sectors_per_cluster * sector_size

-- The entries that end the search for a cluster.
pub no_cluster : ℤ → Bool
no_cluster entry =
    is_neg entry
    || pos_part entry == 0xFF8
    || pos_part entry == 0xFFF
    || pos_part entry == 0xFF7
    || pos_part entry == 0xFF0
    || pos_part entry == 0xFF6
    || pos_part entry == 0

-- `total > 0` for the word of an `int`.
pub int_positive : ℕ → Bool
int_positive total = ltb 0 total && ltb total (2 ^ 31)

-- The word of `offset % size` for an `int` `offset`: the remainder has its sign.
pub int_mod : ℕ → ℕ → ℕ
int_mod offset size =
    if ltb offset (2 ^ 31) then offset % size else sub32 0 ((2 ^ 32 - offset) % size)

-- How many clusters follow the first one: `(offset + 1 + size - 1) / size - 1` on `int`, and none
-- where that is negative.
pub int_rounds : ℕ → ℕ → ℕ
int_rounds offset size =
    let sum = sub32 (add32 (add32 offset 1) size) 1 in
    if ltb sum (2 ^ 31) then sum / size - 1 else 0

module _ (drive : Ports → ℕ → ℕ) where
  -- `fat16_get_fat_entry`
  pub fat16_get_fat_entry : Fat16Private → ℕ → Option (ℤ × Fat16Private)
  fat16_get_fat_entry private cluster_num =
      let fat_table_byte_pos = private.reserved_sectors * sector_size in
      let (ok, stream) =
        disk_stream_seek private.fat16_read_stream
          (add32 fat_table_byte_pos (mul32 cluster_num 2)) in
      do
        r ← disk_stream_read drive stream 0 4 (λ _. 0)
        some (
          if is_neg r.ret then r.ret else signed32 (word_of r.out),
          record private { fat16_read_stream = r.stream },
        )

  -- The loop of `fat16_get_cluster_at_byte_offset_from_start`.
  pub next_clusters : ℕ → ℕ → Fat16Private → Option (ℤ × Fat16Private)
  next_clusters zero curr_cluster private = some (pos curr_cluster, private)
  next_clusters (suc rounds) curr_cluster private = do
    (entry, private') ← fat16_get_fat_entry private curr_cluster
    (let rest = next_clusters rounds (pos_part entry) private' in
        if no_cluster entry then some (neg 1, private') else rest)

  -- `fat16_get_cluster_at_byte_offset_from_start`; `offset` is the word of an `int`.
  pub fat16_get_cluster_at_byte_offset_from_start : Fat16Private → ℕ → ℕ → Option (ℤ × Fat16Private)
  fat16_get_cluster_at_byte_offset_from_start private starting_cluster offset =
      next_clusters (int_rounds offset (bytes_per_cluster private)) starting_cluster private

  -- `fat16_read_file_data_from_cluster` with `fuel` rounds at most: the result, the file system
  -- and memory. `offset` and `total_bytes` are the words of two `int`.
  pub read_file_data :
      ℕ → Fat16Private → ℕ → ℕ → ℕ → ℕ → (ℕ → ℕ) → Option (ℤ × Fat16Private × (ℕ → ℕ))
  read_file_data zero private starting_cluster offset total_bytes at out =
      if int_positive total_bytes then none else some (pos 0, private, out)
  read_file_data (suc fuel) private starting_cluster offset total_bytes at out =
      let round = (do
        (curr_cluster, private₁) ←
            fat16_get_cluster_at_byte_offset_from_start private starting_cluster offset
        (let size = bytes_per_cluster private in
            let curr_sector = fat16_cluster_to_sector private₁ (word32 curr_cluster) in
            let curr_byte_pos = add32 (mul32 curr_sector sector_size) (int_mod offset size) in
            let n = (if ltb size total_bytes then size else total_bytes) in
            let (ok, stream) = disk_stream_seek private₁.cluster_stream curr_byte_pos in
            do
              r ← disk_stream_read drive stream at n out
              (let private₂ = record private₁ { cluster_stream = r.stream } in
                  let rest =
                    read_file_data fuel private₂ starting_cluster (add32 offset n) (total_bytes - n)
                      (at + n) r.out in
                  if is_ok r.ret then rest else some (r.ret, private₂, r.out)))) in
      if int_positive total_bytes then round else some (pos 0, private, out)

  -- The loop of `fat16_read`, at the position `offset`: the result and the position after it.
  pub read_members :
      ℕ → Fat16Private → DirEntry → ℕ → ℕ → ℕ → (ℕ → ℕ) → Option (ℤ × ℕ × Fat16Private × (ℕ → ℕ))
  read_members zero private entry offset size at out = some (pos 0, offset, private, out)
  read_members (suc nmembs) private entry offset size at out = do
    (res, private', out') ←
        read_file_data size private (fat16_get_first_cluster entry) offset size at out
    (let rest = read_members nmembs private' entry (add32 offset size) size (at + size) out' in
        if is_neg res then some (res, offset, private', out') else rest)

  -- `fat16_read`
  pub fat16_read :
      Fat16Private
      → FileDescriptor
      → ℕ
      → ℕ
      → ℕ
      → (ℕ → ℕ)
      → Option (ℤ × FileDescriptor × Fat16Private × (ℕ → ℕ))
  fat16_read private fd size nmembs at out = do
    (res, offset, private', out') ← read_members nmembs private fd.entry fd.position size at out
    some (
        if is_neg res
        then (res, fd, private', out')
        else (pos nmembs, record fd { position = offset }, private', out'))

-- ===== src/Fat16/Seek.antt =====
-- Where a file stands after a seek.
use amog_os.Base.{ℕ, ◌+◌, ◌%◌, ◌^◌, ◌<◌, ◌≡◌, ◌≢◌, ◌⊎◌, true, arith}
use amog_os.Base.Int.{pos}
use amog_os.Fat16.{FileDescriptor, fat16_seek, file_seek_set, file_seek_cur}

-- A seek succeeds or leaves the file as it was. When it succeeds, the file is a file and no
-- directory, the new position is inside the file, and is the offset itself or, from the current
-- position, that many bytes further, modulo 2 ^ 32; the entry stays.
pub fat16_seek_lem :
    (fd : FileDescriptor) (offset mode : ℕ)
    → (((fat16_seek fd offset mode).0 ≢ pos 0) × ((fat16_seek fd offset mode).1 ≡ fd))
      ⊎ (((fat16_seek fd offset mode).0 ≡ pos 0)
          × (fd.is_file ≡ true)
          × ((fat16_seek fd offset mode).1.position < fd.entry.file_size)
          × ((fat16_seek fd offset mode).1.entry ≡ fd.entry)
          × (((mode ≡ file_seek_set) × ((fat16_seek fd offset mode).1.position ≡ offset))
              ⊎ ((mode ≡ file_seek_cur)
                  × ((fat16_seek fd offset mode).1.position ≡ (fd.position + offset) % 2 ^ 32))))
unfolding fat16_seek
fat16_seek_lem fd offset mode = ground arith

-- ===== src/Fat16/Tests.antt =====
-- A file system of one sector to the cluster, and a file in the clusters 2 and 4.
use amog_os.Base.{
  ℕ, ◌+◌, ◌*◌, ◌<◌, ◌≡◌, ◌≢◌, refl, ◌⊎◌, [], ◌∷◌, get_or, true, ltb, ◌==◌, if◌then◌else◌, arith,
  ◌%◌, ◌^◌, ◌-◌,
}
use amog_os.Base.Int.{pos}
use amog_os.Disk.{Ports}
use amog_os.FilePath.Spec.{c_string}
use amog_os.Fat16.{
  DirEntry, FileDescriptor, Fat16Private, fat16_seek, fat16_get_full_relative_filename,
  file_seek_set, file_seek_cur,
}
use amog_os.Fat16.Name.{IsPadded, full_name, fat16_get_full_relative_filename_lem}
use amog_os.Fat16.Seek.{fat16_seek_lem}
use amog_os.Fat16.Chain.{Chain}

abbrev content : ℕ → ℕ
content j =
    if j == 516
    then 4
    else if j == 520
    then 0xF8
    else if j == 521
    then 0xFF
    else if ltb j 1024
    then 0
    else j % 251

abbrev drive : Ports → ℕ → ℕ
drive p i = content (
    (p.lba_low + p.lba_mid * 2 ^ 8 + p.lba_high * 2 ^ 16 + (p.drive_head - 0xE0) * 2 ^ 24) * 512
    + i)

abbrev volume : Fat16Private
volume = record {
  reserved_sectors = 1;
  sectors_per_cluster = 1;
  dir_end_sector_pos = 10;
  cluster_stream = record { disk = 0; byte_offset = 0 };
  fat16_read_stream = record { disk = 0; byte_offset = 0 };
}

-- "HELLO   TXT"
abbrev hello : DirEntry
hello = record {
  filename = λ j. get_or (b'H' ∷ b'E' ∷ b'L' ∷ b'L' ∷ b'O' ∷ []) j b' ';
  ext = λ j. get_or (b'T' ∷ b'X' ∷ b'T' ∷ []) j b' ';
  attribs = 0x20;
  high_16_bits_first_cluster = 0;
  low_16_bits_first_cluster = 2;
  file_size = 700;
}

abbrev opened : FileDescriptor
opened = record { is_file = true; entry = hello; position = 517 }

fat16_seek_lem_example :
    (((fat16_seek opened 100 file_seek_cur).0 ≢ pos 0)
      × ((fat16_seek opened 100 file_seek_cur).1 ≡ opened))
    ⊎ (((fat16_seek opened 100 file_seek_cur).0 ≡ pos 0)
        × (true ≡ true)
        × ((fat16_seek opened 100 file_seek_cur).1.position < 700)
        × ((fat16_seek opened 100 file_seek_cur).1.entry ≡ hello)
        × (((file_seek_cur ≡ file_seek_set)
              × ((fat16_seek opened 100 file_seek_cur).1.position ≡ 100))
            ⊎ ((file_seek_cur ≡ file_seek_cur)
                × ((fat16_seek opened 100 file_seek_cur).1.position ≡ 617))))
fat16_seek_lem_example = fat16_seek_lem opened 100 file_seek_cur

hello-IsPadded : IsPadded hello.filename 8 (b'H' ∷ b'E' ∷ b'L' ∷ b'L' ∷ b'O' ∷ [])
unfolding IsPadded
hello-IsPadded = λ j lt. refl

ext-IsPadded : IsPadded hello.ext 3 (b'T' ∷ b'X' ∷ b'T' ∷ [])
unfolding IsPadded
ext-IsPadded = λ j lt. refl

ne : (a b : ℕ) → a < b → b ≢ a
ne a b lt e = absurd (omega (arith, lt, e))

hello_name :
    fat16_get_full_relative_filename hello 108 (λ j. 9) 5
    ≡ c_string (full_name (b'H' ∷ b'E' ∷ b'L' ∷ b'L' ∷ b'O' ∷ []) (b'T' ∷ b'X' ∷ b'T' ∷ [])) 5
unfolding full_name
hello_name =
    fat16_get_full_relative_filename_lem hello (b'H' ∷ b'E' ∷ b'L' ∷ b'L' ∷ b'O' ∷ [])
      (b'T' ∷ b'X' ∷ b'T' ∷ []) 108 5 (λ j. 9) hello-IsPadded ext-IsPadded
      ((
        ne 32 72 (omega arith),
        ne 0 72 (omega arith),
        (
          ne 32 69 (omega arith),
          ne 0 69 (omega arith),
          (
            ne 32 76 (omega arith),
            ne 0 76 (omega arith),
            (
              ne 32 76 (omega arith),
              ne 0 76 (omega arith),
              (ne 32 79 (omega arith), ne 0 79 (omega arith), tt),
            ),
          ),
        ),
      ))
      ((
        ne 32 84 (omega arith),
        ne 0 84 (omega arith),
        (
          ne 32 88 (omega arith),
          ne 0 88 (omega arith),
          (ne 32 84 (omega arith), ne 0 84 (omega arith), tt),
        ),
      ))
      (omega arith) (omega arith) (omega arith)

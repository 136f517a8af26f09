-- ===== src/Fat16/Open/Tests.antt =====
-- B.C is opened in a root directory of two files, over a heap that only grows.
use amog_os.Base.{ℕ, ◌+◌, ◌<◌, ◌≡◌, ◌⊎◌, inl, inr, refl, some, [], bit_and, arith}
use amog_os.Base.Int.{pos, neg}
use amog_os.File.{file_read}
use amog_os.Fat16.{Fat16Private}
use amog_os.Fat16.Directory.Samples.{base, ext, files, wanted, wanted-IsBytes, files-HasName}
use amog_os.Fat16.Directory.Lookup.{IsMatch}
use amog_os.Fat16.Open.{Dir, Volume, dir_entry, fat16_open}
use amog_os.Fat16.Open.Root.{IsFirst, fat16_open_root_lem}

abbrev kzalloc : ℕ → ℕ → ℕ × ℕ
kzalloc n h = (h, h + n)

abbrev kfree : ℕ → ℕ → ℕ
kfree p h = h

abbrev root_dir : Dir
root_dir = record { address = 1; entries_address = 2; dir_entries = files; total_entries = pos 2 }

abbrev private : Fat16Private
private = record {
  reserved_sectors = 1;
  sectors_per_cluster = 1;
  dir_end_sector_pos = 10;
  cluster_stream = record { disk = 0; byte_offset = 0 };
  fat16_read_stream = record { disk = 0; byte_offset = 0 };
}

abbrev volume : Volume kzalloc kfree
volume = record {
  private = private;
  dir_stream = record { disk = 0; byte_offset = 0 };
  heap = 4096;
}

files_plain :
    (k : ℕ)
    → k < 2
    → IsMatch files base ext wanted wanted-IsBytes k
    → bit_and (files k).attribs 0x10 ≡ 0
files_plain k lt m = refl

fat16_open_root_lem_example :
    ((k : ℕ) × (k < 2)
      × IsFirst kzalloc kfree (λ p i. 0) 9 root_dir wanted volume base ext wanted-IsBytes k
      × (fat16_open kzalloc kfree (λ p i. 0) 9 root_dir wanted [] file_read volume
          ≡ some (
            inr (record {
              address = 4096;
              item = record { address = 4104; item = dir_entry 4112 (files k) };
              position = 0;
            }),
            record volume { heap = 4144 },
          )))
    ⊎ (((k : ℕ) → k < 2 → IsMatch files base ext wanted wanted-IsBytes k → ⊥)
        × (fat16_open kzalloc kfree (λ p i. 0) 9 root_dir wanted [] file_read volume
            ≡ some (inl (neg 1), record volume { heap = 4104 })))
fat16_open_root_lem_example =
    fat16_open_root_lem kzalloc kfree (λ p i. 0) 9 root_dir wanted volume base ext wanted-IsBytes 2
      refl files-HasName files_plain (λ e. absurd (omega (arith, e)))
      (λ e. absurd (omega (arith, e))) (λ e. absurd (omega (arith, e)))

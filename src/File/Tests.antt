-- ===== src/File/Tests.antt =====
-- A table with one open file.
use amog_os.Base.{
  ℕ, ◌+◌, ◌<◌, ◌≡◌, ◌≢◌, ◌⊎◌, refl, [], ◌∷◌, get_or, Option, none, some, true, ◌==◌, if◌then◌else◌,
}
use amog_os.Base.Int.{pos, neg}
use amog_os.Base.Options.{is_some}
use amog_os.Base.Memory.{update}
use amog_os.File.{
  FileSystem, Descriptor, new_file_descriptor, get_file_descriptor, free_file_descriptor,
  max_file_descriptors, parse_mode, file_read, file_mode_invalid,
}
use amog_os.File.Open.{HasOpened, HasFailed, kfopen_lem}
use amog_os.FilePath.{FilePath}
use amog_os.CString.{Str, strncmp}
use amog_os.File.Table.{FirstFree, new_file_descriptor_lem}

abbrev ram : FileSystem ℕ
ram = record {
  open_path = λ path mode. some 7;
  stat = λ p st. (pos 0, st);
  seek = λ p offset whence. (pos 0, offset);
  read = λ p size nmembs. (pos nmembs, p + size, λ i. 0);
  close = λ p. pos 0;
}

abbrev one_open : ℕ → Option (Descriptor ℕ)
one_open = update (λ i. none) 0 (some (record { fs = ram; private_data = 7; index = 1; disk = 0 }))

first_slot_taken :
    ((j : ℕ) × (table' : ℕ → Option (Descriptor ℕ)) × FirstFree one_open 0 j
      × (j < max_file_descriptors)
      × (new_file_descriptor true ram 9 0 one_open ≡ (pos (j + 1), table'))
      × (get_file_descriptor (pos (j + 1)) table'
          ≡ some (record { fs = ram; private_data = 9; index = j + 1; disk = 0 }))
      × ((fd : ℕ)
          → fd ≢ j + 1
          → get_file_descriptor (pos fd) table' ≡ get_file_descriptor (pos fd) one_open)
      × (free_file_descriptor (pos (j + 1)) table' ≡ (if j == 1023 then table' else one_open)))
    ⊎ (((k : ℕ) → k < max_file_descriptors → is_some (one_open k) ≡ true)
        × (new_file_descriptor true ram 9 0 one_open ≡ (neg 3, one_open)))
first_slot_taken = new_file_descriptor_lem ram 9 0 one_open

-- "0:/a" and "r"
abbrev name_of_a : Str
name_of_a i = get_or (b'0' ∷ b':' ∷ b'/' ∷ b'a' ∷ []) i 0

abbrev mode_read : Str
mode_read i = get_or (b'r' ∷ []) i 0

kfopen_lem_example :
    ((path : FilePath) × (fs : FileSystem ℕ) × (private_data : ℕ) × (j : ℕ) × (table' : ℕ
        → Option (Descriptor ℕ))
      × HasOpened (some ram) name_of_a mode_read one_open path fs private_data j table')
    ⊎ HasFailed (some ram) name_of_a mode_read one_open
kfopen_lem_example = kfopen_lem (some ram) name_of_a mode_read one_open

modes : (parse_mode mode_read ≡ file_read) × (parse_mode name_of_a ≡ file_mode_invalid)
unfolding parse_mode strncmp
modes = (refl, refl)

-- ===== src/File.antt =====
-- Open files (src/fs/file.c): the table of file descriptors and the calls that go through it to a
-- file system. A file system is the record of its functions, over the type `Private` of its
-- open files; a descriptor that is null is `none`.
pub mod Table
pub mod Open
mod Tests
use amog_os.Base.{
  ℕ, zero, suc, ◌+◌, ◌-◌, Option, none, some, Bool, true, false, ltb, leb, ◌==◌, ◌||◌, List, [],
  ◌∷◌, get_or, if◌then◌else◌,
}
use amog_os.Base.Int.{ℤ, pos, negsuc, neg, is_neg, is_ok, pos_part}
use amog_os.Base.Options.{is_some}
use amog_os.Base.Memory.{update}
use amog_os.CString.{Str, strncmp}
use amog_os.Disk.{get_disk}
use amog_os.FilePath.{FilePath, parse_path}

abbrev pub max_file_descriptors : ℕ
max_file_descriptors = 1024

-- The modes of the enumeration of src/fs/file.h, and FILE_MODE_INVALID.
pub data FileMode : Type 0 where
  file_read : FileMode
  file_write : FileMode
  file_append : FileMode
  file_mode_invalid : FileMode

-- `struct file_system`: open, which gives none for an error pointer, whose code `kfopen` does not
-- pass on, seek, read, stat, with the size and the flags, and close, each with the open file that
-- it leaves.
pub record FileSystem (Private : Type 0) : Type 0 where
  pub open_path : FilePath → FileMode → Option Private
  pub seek : Private → ℕ → ℕ → ℤ × Private
  pub read : Private → ℕ → ℕ → ℤ × Private × (ℕ → ℕ)
  pub stat : Private → ℕ × ℕ → ℤ × (ℕ × ℕ)
  pub close : Private → ℤ

-- `struct file_descriptor`
pub record Descriptor (Private : Type 0) : Type 0 where
  pub fs : FileSystem Private
  pub private_data : Private
  pub index : ℕ
  pub disk : ℕ

-- `parse_mode`
pub parse_mode : Str → FileMode
parse_mode mode =
    if is_ok (strncmp mode (λ i. get_or (b'r' ∷ []) i 0) 1)
    then file_read
    else if is_ok (strncmp mode (λ i. get_or (b'w' ∷ []) i 0) 1)
    then file_write
    else if is_ok (strncmp mode (λ i. get_or (b'a' ∷ []) i 0) 1)
    then file_append
    else file_mode_invalid

abbrev pub is_valid_mode : FileMode → Bool
is_valid_mode file_read = true
is_valid_mode file_write = true
is_valid_mode file_append = true
is_valid_mode file_mode_invalid = false

module _ {Private : Type 0} where
  -- `new_file_descriptor`, with the fields that `kfopen` sets, from slot `i` on; `memory` says
  -- whether the heap has room for it.
  pub new_from :
      Bool
      → FileSystem Private
      → Private
      → ℕ
      → ℕ
      → ℕ
      → (ℕ → Option (Descriptor Private))
      → ℤ × (ℕ → Option (Descriptor Private))
  new_from memory fs private_data disk zero i table = (neg 3, table)
  new_from memory fs private_data disk (suc left) i table =
      let rest = new_from memory fs private_data disk left (i + 1) table in
      if is_some (table i)
      then rest
      else if memory
      then (
        pos (i + 1),
        update table i
            (some (record { fs = fs; private_data = private_data; index = i + 1; disk = disk })),
      )
      else (neg 3, table)

  pub new_file_descriptor :
      Bool
      → FileSystem Private
      → Private
      → ℕ
      → (ℕ → Option (Descriptor Private))
      → ℤ × (ℕ → Option (Descriptor Private))
  new_file_descriptor memory fs private_data disk table =
      new_from memory fs private_data disk max_file_descriptors 0 table

  pub get_file_descriptor : ℤ → (ℕ → Option (Descriptor Private)) → Option (Descriptor Private)
  get_file_descriptor fd table =
      if is_neg fd || pos_part fd == 0 || ltb max_file_descriptors (pos_part fd)
      then none
      else table (pos_part fd - 1)

  pub free_file_descriptor : ℤ → (ℕ → Option (Descriptor Private)) → ℕ → Option (Descriptor Private)
  free_file_descriptor fd table =
      if is_neg fd || pos_part fd == 0 || leb max_file_descriptors (pos_part fd)
      then table
      else update table (pos_part fd - 1) none

  -- `kfclose`
  pub kfclose : ℤ → (ℕ → Option (Descriptor Private)) → ℤ × (ℕ → Option (Descriptor Private))
  kfclose fd table = elim (get_file_descriptor fd table) [
    | none ↦ (neg 2, table)
    | some d ↦ (d.fs.close d.private_data, free_file_descriptor fd table)
  ]

  -- `kfseek`
  pub kfseek : ℤ → ℕ → ℕ → (ℕ → Option (Descriptor Private)) → ℤ × (ℕ → Option (Descriptor Private))
  kfseek fd offset whence table = elim (get_file_descriptor fd table) [
    | none ↦ (neg 2, table)
    | some d ↦
        let (res, private_data) = d.fs.seek d.private_data offset whence in
        (res, update table (pos_part fd - 1) (some (record d { private_data = private_data })))
  ]

  -- `kfread`: the result, the buffer if there is a read, and the table.
  pub kfread :
      ℕ
      → ℕ
      → ℤ
      → (ℕ → Option (Descriptor Private))
      → ℤ × Option (ℕ → ℕ) × (ℕ → Option (Descriptor Private))
  kfread size nmembs fd table = elim (get_file_descriptor fd table) [
    | none ↦ (neg 2, none, table)
    | some d ↦
        let (res, private_data, out) = d.fs.read d.private_data size nmembs in
        let table' =
          update table (pos_part fd - 1) (some (record d { private_data = private_data })) in
        if size == 0 || nmembs == 0 || is_neg fd || pos_part fd == 0
        then (neg 2, none, table)
        else (res, some out, table')
  ]

  -- `kfstat`
  pub kfstat : ℤ → (ℕ → Option (Descriptor Private)) → ℕ × ℕ → ℤ × (ℕ × ℕ)
  kfstat fd table stat = elim (get_file_descriptor fd table) [
    | none ↦ (neg 2, stat)
    | some d ↦ d.fs.stat d.private_data stat
  ]

  -- `kfopen` once the disk is known: `mounted` is the file system of the disk.
  pub open_on :
      Bool
      → ℕ
      → Option (FileSystem Private)
      → FilePath
      → FileMode
      → (ℕ → Option (Descriptor Private))
      → ℤ × (ℕ → Option (Descriptor Private))
  open_on memory disk none path mode table = (neg 1, table)
  open_on memory disk (some fs) path mode table =
      if is_valid_mode mode
      then elim (fs.open_path path mode) [
        | none ↦ (neg 1, table)
        | some private_data ↦ new_file_descriptor memory fs private_data disk table
      ]
      else (neg 2, table)

  -- `kfopen` up to its label `out`.
  pub try_open :
      Bool
      → Option (FileSystem Private)
      → Str
      → Str
      → (ℕ → Option (Descriptor Private))
      → ℤ × (ℕ → Option (Descriptor Private))
  try_open memory mounted filename mode_str table = elim (parse_path filename) [
    | none ↦ (neg 5, table)
    | some root_path ↦
        if root_path.text (get_or root_path.parts 0 0) == 0
        then (neg 5, table)
        else elim (get_disk root_path.drive_no) [
          | none ↦ (neg 5, table)
          | some disk ↦ open_on memory disk mounted root_path (parse_mode mode_str) table
        ]
  ]

  pub kfopen :
      Bool
      → Option (FileSystem Private)
      → Str
      → Str
      → (ℕ → Option (Descriptor Private))
      → ℤ × (ℕ → Option (Descriptor Private))
  kfopen memory mounted filename mode_str table =
      let (res, table') = try_open memory mounted filename mode_str table in
      (if is_neg res then pos 0 else res, table')

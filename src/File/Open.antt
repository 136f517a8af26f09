-- ===== src/File/Open.antt =====
-- What `kfopen` comes to.
use amog_os.Base.{
  ℕ, suc, ◌+◌, ◌<◌, ◌≡◌, ◌≢◌, ◌⊎◌, inl, inr, refl, sym, subst, ◌∙◌, ap, Option, none, some,
  Option-cases, true, false, ◌==◌, get_or, arith, Bool-cases,
}
use amog_os.Base.Int.{pos, neg}
use amog_os.Base.Options.{is_some}
use amog_os.CString.{Str}
use amog_os.Disk.{get_disk}
use amog_os.File.{
  FileSystem, Descriptor, parse_mode, is_valid_mode, new_file_descriptor, get_file_descriptor,
  open_on, try_open, kfopen, max_file_descriptors,
}
use amog_os.File.Table.{FirstFree, new_file_descriptor_lem}
use amog_os.FilePath.{FilePath, parse_path}

module _ {Private : Type 0} (mounted : Option (FileSystem Private)) (filename mode_str : Str)
    (table : ℕ → Option (Descriptor Private)) where
  -- The path names a file of the disk 0, the mode is one of the three, and the file system of the
  -- disk opens the file.
  pub record IsOpened (path : FilePath) (fs : FileSystem Private) (private_data : Private)
      : Type 0 where
    pub parsed : parse_path filename ≡ some path
    pub named : (path.text (get_or path.parts 0 0) == 0) ≡ false
    pub disk : get_disk path.drive_no ≡ some 0
    pub mounted_fs : mounted ≡ some fs
    pub mode : is_valid_mode (parse_mode mode_str) ≡ true
    pub opens : fs.open_path path (parse_mode mode_str) ≡ some private_data

  -- The file is open under the first free number.
  pub record HasOpened (path : FilePath) (fs : FileSystem Private) (private_data : Private) (j : ℕ)
      (table' : ℕ → Option (Descriptor Private)) : Type 0 where
    pub opened : IsOpened path fs private_data
    pub first : FirstFree table 0 j
    pub within : j < max_file_descriptors
    pub returned : kfopen true mounted filename mode_str table ≡ (pos (j + 1), table')
    pub found :
        get_file_descriptor (pos (j + 1)) table'
        ≡ some (record { fs = fs; private_data = private_data; index = j + 1; disk = 0 })
    pub others :
        (fd : ℕ)
        → fd ≢ j + 1
        → get_file_descriptor (pos fd) table' ≡ get_file_descriptor (pos fd) table

  -- Nothing is opened: the file cannot be, or no number is free.
  abbrev pub HasFailed : Type 0
  HasFailed =
      (kfopen true mounted filename mode_str table ≡ (pos 0, table))
      × ((path : FilePath) (fs : FileSystem Private) (private_data : Private)
          → IsOpened path fs private_data
          → (k : ℕ) → k < max_file_descriptors
          → is_some (table k) ≡ true)

  kfopen-error :
      (n : ℕ)
      → try_open true mounted filename mode_str table ≡ (neg (suc n), table)
      → kfopen true mounted filename mode_str table ≡ (pos 0, table)
  unfolding kfopen
  kfopen-error n e = rw e refl

  try_open-opened :
      (path : FilePath) (fs : FileSystem Private) (private_data : Private)
      → IsOpened path fs private_data
      → try_open true mounted filename mode_str table
        ≡ new_file_descriptor true fs private_data 0 table
  unfolding try_open open_on
  try_open-opened path fs private_data o =
      rw (try_open, o.parsed)
        (rw o.named (rw o.disk (rw o.mounted_fs (rw o.mode (rw o.opens refl)))))

  kfopen-opened :
      (path : FilePath) (fs : FileSystem Private) (private_data : Private)
      → IsOpened path fs private_data
      → ((j : ℕ) × (table' : ℕ → Option (Descriptor Private)) × HasOpened path fs private_data j
            table')
        ⊎ HasFailed
  unfolding kfopen
  kfopen-opened path fs private_data o = elim (new_file_descriptor_lem fs private_data 0 table) [
    | inl (j, table', first, lt, e, found, others, freed) ↦
        let run = try_open-opened path fs private_data o ∙ e in
        inl (
          j,
          table',
          record {
            opened = o;
            first = first;
            within = lt;
            returned = rw run refl;
            found = found;
            others = others;
          },
        )
    | inr (full, e) ↦
        let run = try_open-opened path fs private_data o ∙ e in
        inr (kfopen-error 2 run, λ path' fs' data' o'. full)
  ]

  -- What `open_on` gives on the disk 0, for a path that is parsed and named.
  open_on-decides :
      (path : FilePath)
      → parse_path filename ≡ some path
      → (path.text (get_or path.parts 0 0) == 0) ≡ false
      → get_disk path.drive_no ≡ some 0
      → ((fs : FileSystem Private) × (private_data : Private) × IsOpened path fs private_data)
        ⊎ ((n : ℕ) × (open_on true 0 mounted path (parse_mode mode_str) table
              ≡ (neg (suc n), table))
            × ((fs : FileSystem Private) (private_data : Private)
                → IsOpened path fs private_data
                → ⊥))
  unfolding open_on
  open_on-decides path p named disk = elim (Option-cases mounted) [
    | inl e ↦ inr (0, rw (open_on, e) refl, λ fs d o. absurd (cc (e, o.mounted_fs)))
    | inr (fs, e) ↦ elim (Bool-cases (is_valid_mode (parse_mode mode_str))) [
      | inr f ↦ inr (1, rw (open_on, e) (rw f refl), λ fs d o. absurd (cc (f, o.mode)))
      | inl t ↦ elim (Option-cases (fs.open_path path (parse_mode mode_str))) [
        | inl none_opened ↦ inr (
          0,
          rw (open_on, e) (rw t (rw none_opened refl)),
          λ fs' d o.
              let same =
                ap (λ (m : Option (FileSystem Private)). opened_by m path) (sym o.mounted_fs ∙ e) in
              absurd (cc (sym o.opens ∙ same ∙ none_opened)),
        )
        | inr (d, opens) ↦ inl (
          fs,
          d,
          record {
            parsed = p;
            named = named;
            disk = disk;
            mounted_fs = e;
            mode = t;
            opens = opens;
          },
        )
      ]
    ]
  ]
    where
      opened_by : Option (FileSystem Private) → FilePath → Option Private
      opened_by none path = none
      opened_by (some fs) path = fs.open_path path (parse_mode mode_str)

  disk_zero : (i disk : ℕ) → get_disk i ≡ some disk → disk ≡ 0
  unfolding get_disk
  disk_zero i disk e = ground (arith, e)

  same_path : (p q : FilePath) → parse_path filename ≡ some p → parse_path filename ≡ some q → q ≡ p
  same_path p q e e' = ap or_p (sym e' ∙ e)
    where
      or_p : Option FilePath → FilePath
      or_p none = p
      or_p (some r) = r

  -- `try_open` of a path that is not opened.
  Refused : Type 0
  Refused =
      (n : ℕ) × (try_open true mounted filename mode_str table ≡ (neg (suc n), table))
      × ((path : FilePath) (fs : FileSystem Private) (d : Private) → IsOpened path fs d → ⊥)

  decides :
      ((path : FilePath) × (fs : FileSystem Private) × (private_data : Private) × IsOpened path fs
          private_data)
      ⊎ Refused
  unfolding try_open Refused
  decides = elim (Option-cases (parse_path filename)) [
    | inl e ↦ inr (4, rw (try_open, e) refl, λ p fs d o. absurd (cc (e, o.parsed)))
    | inr (path, e) ↦ elim (Bool-cases (path.text (get_or path.parts 0 0) == 0)) [
      | inl t ↦ inr (
        4,
        rw (try_open, e) (rw t refl),
        λ p fs d o.
            let named =
              subst (λ (q : FilePath). (q.text (get_or q.parts 0 0) == 0) ≡ false)
                (same_path path p e o.parsed) o.named in
            absurd (cc (t, named)),
      )
      | inr named ↦ elim (Option-cases (get_disk path.drive_no)) [
        | inl none_there ↦ inr (
          4,
          rw (try_open, e) (rw named (rw none_there refl)),
          λ p fs d o.
              let there =
                subst (λ (q : FilePath). get_disk q.drive_no ≡ some 0) (same_path path p e o.parsed)
                  o.disk in
              absurd (cc (none_there, there)),
        )
        | inr (disk, there) ↦
            let at_zero = there ∙ ap some (disk_zero path.drive_no disk there) in
            elim (open_on-decides path e named at_zero) [
              | inl (fs, d, o) ↦ inl (path, fs, d, o)
              | inr (n, refused, no_way) ↦ inr (
                n,
                rw (try_open, e) (rw named (rw at_zero refused)),
                λ p fs d o.
                    no_way fs d
                      (subst (λ (q : FilePath). IsOpened q fs d) (same_path path p e o.parsed) o),
              )
            ]
      ]
    ]
  ]

  -- With memory for a descriptor, `kfopen` either opens the file that the path names on the disk 0,
  -- in one of the three modes, and returns one more than the first free slot of the table, under
  -- which the open file is found while every other number finds what it found before; or it
  -- returns 0 and leaves the table, and then the file cannot be opened or every slot is taken.
  pub kfopen_lem :
      ((path : FilePath) × (fs : FileSystem Private) × (private_data : Private) × (j : ℕ)
        × (table' : ℕ → Option (Descriptor Private)) × HasOpened path fs private_data j table')
      ⊎ HasFailed
  unfolding Refused
  kfopen_lem = elim decides [
    | inr (n, e, no_way) ↦ inr (kfopen-error n e, λ path fs d o. absurd (no_way path fs d o))
    | inl (path, fs, d, o) ↦ elim (kfopen-opened path fs d o) [
      | inl (j, table', h) ↦ inl (path, fs, d, j, table', h)
      | inr failed ↦ inr failed
    ]
  ]

-- ===== src/Fat16/Open/Root.antt =====
-- Files in the root directory, which every program is loaded from.
use amog_os.Base.{
  ℕ, ◌<◌, ◌≡◌, ◌≢◌, ◌⊎◌, inl, inr, refl, none, some, List, [], ◌==◌, bit_and, true, false, arith,
}
use amog_os.Base.Int.{pos, neg, pos_part}
use amog_os.CString.{Str}
use amog_os.CString.Compare.{IsBytes}
use amog_os.Disk.{Ports}
use amog_os.File.{file_read}
use amog_os.Fat16.Directory.{find_item}
use amog_os.Fat16.Directory.Lookup.{HasName, IsMatch, find_item_lem}
use amog_os.Fat16.Open.{
  Dir, dir_entry, Volume, fat16_attr_sub_directory, fat16_clone_dir_entry, new_contents,
  fat16_new_fat_item_from_dir_entry, fat16_find_item_in_dir_by_name, fat16_get_dir_entry, walk,
  fat16_open,
}

module _ {Heap : Type 0} (kzalloc : ℕ → Heap → ℕ × Heap) (kfree : ℕ → Heap → Heap)
    (drive : Ports → ℕ → ℕ) (fuel : ℕ) (root_dir : Dir) (name : Str)
    (v : Volume kzalloc kfree) where
  -- The three allocations of an open file: its descriptor, its item and the copy of its entry.
  abbrev pub file : ℕ × Heap
  file = kzalloc 8 v.heap

  abbrev pub item : ℕ × Heap
  item = kzalloc 8 file.1

  abbrev pub copy : ℕ × Heap
  copy = kzalloc 32 item.1

  abbrev after_file : Volume kzalloc kfree
  after_file = record v { heap = file.1 }

  missing :
      find_item (pos_part root_dir.total_entries) 0 root_dir.dir_entries name (λ _. 0) ≡ none
      → file.0 ≢ 0
      → fat16_open kzalloc kfree drive fuel root_dir name [] file_read v
        ≡ some (inl (neg 1), record v { heap = kfree file.0 file.1 })
  unfolding fat16_open fat16_get_dir_entry fat16_find_item_in_dir_by_name
  missing e got =
      let z : (file.0 == 0) ≡ false = ground (arith, got) in
      rw (z, fat16_find_item_in_dir_by_name, e) refl

  there :
      (k : ℕ)
      → find_item (pos_part root_dir.total_entries) 0 root_dir.dir_entries name (λ _. 0) ≡ some k
      → bit_and (root_dir.dir_entries k).attribs fat16_attr_sub_directory ≡ 0
      → file.0 ≢ 0
      → item.0 ≢ 0
      → fat16_open kzalloc kfree drive fuel root_dir name [] file_read v
        ≡ some (
          inr (record {
            address = file.0;
            item = record { address = item.0; item = dir_entry copy.0 (root_dir.dir_entries k) };
            position = 0;
          }),
          record v { heap = copy.1 },
        )
  unfolding fat16_open fat16_get_dir_entry fat16_new_fat_item_from_dir_entry new_contents
      fat16_clone_dir_entry walk fat16_find_item_in_dir_by_name
  there k e plain got got' =
      let z : (file.0 == 0) ≡ false = ground (arith, got) in
      let z' : (item.0 == 0) ≡ false = ground (arith, got') in
      let p : (bit_and (root_dir.dir_entries k).attribs fat16_attr_sub_directory == 0) ≡ true =
        ground (arith, plain) in
      rw (z, fat16_find_item_in_dir_by_name, e, z', p) refl

  module _ (base ext : ℕ → List ℕ) (bytes : IsBytes name) where
    -- The entry `k` is the first that has the name.
    abbrev pub IsFirst : ℕ → Type 0
    IsFirst k =
        IsMatch root_dir.dir_entries base ext name bytes k
        × ((j : ℕ) → j < k → IsMatch root_dir.dir_entries base ext name bytes j → ⊥)

    -- With memory for the three allocations, in a root directory of `total` entries with names of
    -- the 8.3 form, of which those that match are no directories: when a name matches, but for the
    -- case of its letters, `fat16_open` for reading opens the first entry that does, at position 0;
    -- when none matches, it returns -STATUS_IO_ERROR and has freed its descriptor.
    pub fat16_open_root_lem :
        (total : ℕ)
        → root_dir.total_entries ≡ pos total
        → ((k : ℕ) → k < total → HasName (root_dir.dir_entries k) (base k) (ext k))
        → ((k : ℕ)
            → k < total
            → IsMatch root_dir.dir_entries base ext name bytes k
            → bit_and (root_dir.dir_entries k).attribs fat16_attr_sub_directory ≡ 0)
        → file.0 ≢ 0
        → item.0 ≢ 0
        → copy.0 ≢ 0
        → ((k : ℕ) × (k < total)
            × IsFirst k
            × (fat16_open kzalloc kfree drive fuel root_dir name [] file_read v
                ≡ some (
                  inr (record {
                    address = file.0;
                    item = record {
                      address = item.0;
                      item = dir_entry copy.0 (root_dir.dir_entries k);
                    };
                    position = 0;
                  }),
                  record v { heap = copy.1 },
                )))
          ⊎ (((k : ℕ) → k < total → IsMatch root_dir.dir_entries base ext name bytes k → ⊥)
              × (fat16_open kzalloc kfree drive fuel root_dir name [] file_read v
                  ≡ some (inl (neg 1), record v { heap = kfree file.0 file.1 })))
    fat16_open_root_lem total e named plain a b c =
        let found =
          find_item_lem root_dir.dir_entries base ext name bytes total (λ _. 0) (λ k. omega arith)
            named in
        let same : total ≡ pos_part root_dir.total_entries = rw e refl in
        elim found [
          | inl (run, no_match) ↦
              inr (λ k lt. no_match k (omega arith) (omega arith), missing (rw (← same) run) a)
          | inr (k, run, ge, lt, m, first) ↦
              let lt' : k < total = omega arith in
              inl (
                k,
                lt',
                (m, λ j l. first j (omega arith) l),
                there k (rw (← same) run) (plain k lt' m) a b,
              )
        ]

-- ===== src/Fat16/Open.antt =====
-- Opening and closing files (src/fs/fat/fat16.c): the walk along a path, with the directories that
-- it loads and the allocations that it makes and gives back. The kernel heap is a parameter of the
-- definitions. `none` is a loop that does not end within its fuel, or the use of a null pointer.
pub mod Root
mod Tests
use amog_os.Base.{
  ℕ, ◌+◌, ◌*◌, ◌^◌, Option, none, some, List, [], ◌∷◌, Bool, true, false, ◌==◌, not, ◌⊎◌, inl, inr,
  bit_and, if◌then◌else◌,
}
use amog_os.Base.Int.{ℤ, pos, neg, is_ok, pos_part}
use amog_os.Base.Options.{◌>>=◌}
use amog_os.Base.Words.{mul32}
use amog_os.CString.{Str}
use amog_os.Disk.{Ports, DiskStream}
use amog_os.Fat16.{
  DirEntry, Fat16Private, fat16_get_first_cluster, fat16_cluster_to_sector, read_file_data, word32,
}
use amog_os.Fat16.Directory.{dir_entry_size, fat16_get_total_items_in_dir, find_item}
use amog_os.File.{FileMode, file_read, file_write, file_append, file_mode_invalid}

abbrev pub fat16_attr_sub_directory : ℕ
fat16_attr_sub_directory = 0x10

-- `struct fat16_dir`, with its address and that of its entries.
pub record Dir : Type 0 where
  pub address : ℕ
  pub entries_address : ℕ
  pub dir_entries : ℕ → DirEntry
  pub total_entries : ℤ

-- The union of `struct fat16_item`: a directory, or none for a null pointer, or a copy of an entry
-- at an address.
pub data Contents : Type 0 where
  dir : Option Dir → Contents
  dir_entry : ℕ → DirEntry → Contents

-- `struct fat16_item`, with its address.
pub record Item : Type 0 where
  pub address : ℕ
  pub item : Contents

-- `struct fat16_file_descriptor`, with its address.
pub record OpenFile : Type 0 where
  pub address : ℕ
  pub item : Item
  pub position : ℕ

-- The entry whose 32 bytes begin at `at` in a buffer.
pub entry_of : (ℕ → ℕ) → ℕ → DirEntry
entry_of mem at = record {
  filename = λ j. mem (at + j);
  ext = λ j. mem (at + 8 + j);
  attribs = mem (at + 11);
  high_16_bits_first_cluster = mem (at + 20) + mem (at + 21) * 2 ^ 8;
  low_16_bits_first_cluster = mem (at + 26) + mem (at + 27) * 2 ^ 8;
  file_size =
      mem (at + 28) + mem (at + 29) * 2 ^ 8 + mem (at + 30) * 2 ^ 16 + mem (at + 31) * 2 ^ 24;
}

abbrev pub is_file_read : FileMode → Bool
is_file_read file_read = true
is_file_read file_write = false
is_file_read file_append = false
is_file_read file_mode_invalid = false

module _ {Heap : Type 0} (kzalloc : ℕ → Heap → ℕ × Heap) (kfree : ℕ → Heap → Heap) where
  -- The state of the file system: the streams, and the heap.
  pub record Volume : Type 0 where
    pub private : Fat16Private
    pub dir_stream : DiskStream
    pub heap : Heap

  -- `fat16_free_dir`
  pub fat16_free_dir : Option Dir → Heap → Heap
  fat16_free_dir none h = h
  fat16_free_dir (some d) h =
      kfree d.address (if d.entries_address == 0 then h else kfree d.entries_address h)

  free_contents : Contents → Heap → Heap
  free_contents (dir d) h = fat16_free_dir d h
  free_contents (dir_entry at entry) h = if at == 0 then h else kfree at h

  -- `fat16_free_item` of an item that is not null.
  pub fat16_free_item : Item → Heap → Heap
  fat16_free_item i h = kfree i.address (free_contents i.item h)

  -- The item is freed, and the pointer to it is null.
  abbrev pub give_up : Item → Volume → Option Item × Volume
  give_up i v = (none, record v { heap = fat16_free_item i v.heap })

  -- `fat16_clone_dir_entry`: the address of the copy.
  pub fat16_clone_dir_entry : Heap → ℕ × Heap
  fat16_clone_dir_entry h = kzalloc dir_entry_size h

  -- `fat16_free_fd`, and the result of `fat16_close`.
  pub fat16_close : OpenFile → Heap → ℤ × Heap
  fat16_close fd h = (pos 0, kfree fd.address (fat16_free_item fd.item h))

  module _ (drive : Ports → ℕ → ℕ) (fuel : ℕ) where
    -- `fat16_load_fat_dir` from the reading of the entries on; `at` is the directory's address, and
    -- `entries` that of its entries.
    pub load_entries : ℕ → ℕ → ℤ → DirEntry → Volume → Option (Option Dir × Volume)
    load_entries at entries total_items entry v =
        let cluster = fat16_get_first_cluster entry in
        let dir_size = mul32 (word32 total_items) dir_entry_size in
        let read = (do
          (res, private, out) ← read_file_data drive fuel v.private cluster 0 dir_size 0 (λ _. 0)
          (let v₁ : Volume = record v { private = private } in
              let freed : Volume = record v₁ { heap = kfree at (kfree entries v.heap) } in
              let loaded : Dir = record {
                address = at;
                entries_address = entries;
                dir_entries = λ i. entry_of out (dir_entry_size * i);
                total_entries = total_items;
              } in
              some (if is_ok res then (some loaded, v₁) else (none, freed)))) in
        if entries == 0 then some (none, record v { heap = kfree at v.heap }) else read

    -- `fat16_load_fat_dir` once it has memory at the address `at`.
    pub load_at : ℕ → DirEntry → Volume → Option (Option Dir × Volume)
    load_at at entry v =
        let sector = fat16_cluster_to_sector v.private (fat16_get_first_cluster entry) in
        do
          (total_items, stream) ← fat16_get_total_items_in_dir drive fuel v.dir_stream sector
          (let (entries, h) = kzalloc (mul32 (word32 total_items) dir_entry_size) v.heap in
              load_entries at entries total_items entry
                (record v { dir_stream = stream; heap = h }))

    pub fat16_load_fat_dir : DirEntry → Volume → Option (Option Dir × Volume)
    fat16_load_fat_dir entry v =
        let (at, h) = kzalloc 16 v.heap in
        let v₁ : Volume = record v { heap = h } in
        if at == 0 then some (none, v₁) else load_at at entry v₁

    -- What `fat16_new_fat_item_from_dir_entry` puts in the item.
    pub new_contents : DirEntry → Volume → Option (Contents × Volume)
    new_contents entry v =
        let (at, h) = fat16_clone_dir_entry v.heap in
        if bit_and entry.attribs fat16_attr_sub_directory == 0
        then some (dir_entry at entry, record v { heap = h })
        else (do (d, v') ← fat16_load_fat_dir entry v; some (dir d, v'))

    pub fat16_new_fat_item_from_dir_entry : DirEntry → Volume → Option (Option Item × Volume)
    fat16_new_fat_item_from_dir_entry entry v =
        let (at, h) = kzalloc 8 v.heap in
        let v₁ : Volume = record v { heap = h } in
        if at == 0 then some (none, v₁) else (do
          (contents, v₂) ← new_contents entry v₁
          some (some (record { address = at; item = contents }), v₂))

    pub fat16_find_item_in_dir_by_name : Dir → Str → Volume → Option (Option Item × Volume)
    fat16_find_item_in_dir_by_name d file_name v =
        elim (find_item (pos_part d.total_entries) 0 d.dir_entries file_name (λ _. 0)) [
          | none ↦ some (none, v)
          | some i ↦ fat16_new_fat_item_from_dir_entry (d.dir_entries i) v
        ]

    -- The loop of `fat16_get_dir_entry` with a null item: with a name left the item is used.
    pub null_item : List Str → Volume → Option (Option Item × Volume)
    null_item [] v = some (none, v)
    null_item (name ∷ path) v = none

    -- The loop: `path` is what follows the name of `curr_item`.
    pub walk : List Str → Item → Volume → Option (Option Item × Volume)
    walk [] curr_item v = some (some curr_item, v)
    walk (name ∷ path) curr_item v = elim curr_item.item [
      | dir_entry at entry ↦ some (give_up curr_item v)
      | dir d ↦ if name 0 == 0 then some (give_up curr_item v) else elim d [
        | none ↦ none
        | some d ↦ do
          (next_item, v₁) ← fat16_find_item_in_dir_by_name d name v
          (let v₂ : Volume = record v₁ { heap = fat16_free_item curr_item v₁.heap } in
              elim next_item [ none ↦ null_item path v₂ | some i ↦ walk path i v₂ ])
      ]
    ]

    -- `fat16_get_dir_entry` of the path `name`, `path` from the directory `root_dir`.
    pub fat16_get_dir_entry : Dir → Str → List Str → Volume → Option (Option Item × Volume)
    fat16_get_dir_entry root_dir name path v = do
      (curr_item, v₁) ← fat16_find_item_in_dir_by_name root_dir name v
      elim curr_item [ none ↦ some (none, v₁) | some i ↦ walk path i v₁ ]

    -- `fat16_open`: an error, or the open file.
    pub fat16_open : Dir → Str → List Str → FileMode → Volume → Option ((ℤ ⊎ OpenFile) × Volume)
    fat16_open root_dir name path mode v =
        let (at, h) = kzalloc 8 v.heap in
        let v₁ : Volume = record v { heap = h } in
        if not (is_file_read mode)
        then some (inl (neg 2), v)
        else if at == 0
        then some (inl (neg 3), v₁)
        else (do
          (item, v₂) ← fat16_get_dir_entry root_dir name path v₁
          some (elim item [
            | none ↦ (inl (neg 1), record v₂ { heap = kfree at v₂.heap })
            | some i ↦ (inr (record { address = at; item = i; position = 0 }), v₂)
          ]))

-- ===== src/Paging/Identity.antt =====
-- `paging_create_4gb_page_tables` (src/memory/paging/paging.c): the page tables of a task, which
-- map every address to itself. `kfree` is that of the heap. The offset is an `int` in the source;
-- it wraps here, as it does when the program runs.
pub mod Fill
pub mod Tables
mod Tests
use amog_os.Base.{ℕ, zero, suc, ◌+◌, ◌-◌, ◌*◌, ◌/◌, bit_or, Bool, true, false, ◌==◌, if◌then◌else◌}
use amog_os.Base.Int.{ℤ, pos, neg, is_ok}
use amog_os.Base.Memory.{update}
use amog_os.Base.Words.{add32, mul32}
use amog_os.Paging.Interface.{Allocator}
use amog_os.Paging.{
  Machine, kzalloc, word_at, frame, page_size, num_page_table_entries, page_write_allow,
}

-- The loop over the entries `j` of one table.
pub fill_table : ℕ → ℕ → ℕ → ℕ → ℕ → (ℕ → ℕ) → ℕ → ℕ
fill_table zero j table offset flags mem = mem
fill_table (suc rounds) j table offset flags mem =
    fill_table rounds (j + 1) table offset flags
      (update mem (word_at table j) (bit_or (add32 offset (j * page_size)) flags))

-- The directory entry of the table at `page`.
pub dir_entry : ℕ → ℕ → ℕ
dir_entry page flags = bit_or (bit_or (mul32 (page / page_size) page_size) flags) page_write_allow

module _ (a : Allocator) (kfree : ℕ → a.State → a.State) where
  -- The tables `j` and the following ones are freed, after the directory.
  pub free_tables : ℕ → ℕ → ℕ → Machine a → Machine a
  free_tables zero j dir m = m
  free_tables (suc rounds) j dir m =
      free_tables rounds (j + 1) dir
        (record m { heap = kfree (frame (m.mem (word_at dir j))) m.heap })

  -- The loop over the tables.
  pub create_tables : ℕ → ℕ → ℕ → ℕ → ℕ → Machine a → ℤ × Machine a
  create_tables zero i dir offset flags m = (pos 0, m)
  create_tables (suc rounds) i dir offset flags m =
      let (page, m₁) = kzalloc a m in
      let table = fill_table num_page_table_entries 0 page offset flags m₁.mem in
      let m₂ = record m₁ { mem = update table (word_at dir i) (dir_entry page flags) } in
      let rest =
        create_tables rounds (i + 1) dir (add32 offset (page_size * num_page_table_entries)) flags
          m₂ in
      if page == 0
      then (neg 3, free_tables i 0 dir (record m₁ { heap = kfree dir m₁.heap }))
      else rest

  -- The result, `cr3`, which is not set on an error, and the machine.
  pub paging_create_4gb_page_tables : ℕ → Machine a → ℤ × ℕ × Machine a
  paging_create_4gb_page_tables flags m =
      let (dir, m₁) = kzalloc a m in
      let (res, m₂) = create_tables num_page_table_entries 0 dir 0 flags m₁ in
      if dir == 0 then (neg 3, 0, m₁) else if is_ok res then (pos 0, dir, m₂) else (res, 0, m₂)

-- ===== src/Paging/Discard.antt =====
-- `paging_free_page_table` of src/memory/paging/paging.c, on top of a `kfree`.
use amog_os.Base.{ℕ, zero, suc, ◌+◌, if◌then◌else◌}
use amog_os.Paging.Interface.{Allocator}
use amog_os.Paging.{Machine, num_page_table_entries, is_present, frame, word_at}

module _ (a : Allocator) (kfree : ℕ → a.State → a.State) where
  -- The loop over the entries of the directory from `i` on.
  unfoldable pub free_second_levels : ℕ → ℕ → ℕ → Machine a → Machine a
  free_second_levels cr3 zero i m = m
  free_second_levels cr3 (suc left) i m =
      let pte = m.mem (word_at cr3 i) in
      free_second_levels cr3 left (i + 1)
        (if is_present pte then record m { heap = kfree (frame pte) m.heap } else m)

  -- The tables of the second level, and the directory.
  unfoldable pub paging_free_page_table : ℕ → Machine a → Machine a
  paging_free_page_table cr3 m =
      let m' = free_second_levels cr3 num_page_table_entries 0 m in
      record m' { heap = kfree cr3 m'.heap }

-- ===== src/Process/Mmap.antt =====
-- The system calls mmap and munmap (src/syscall/umem.c) of a process whose task has the page table
-- `cr3`; their arguments have been read from its stack. `kzalloc` and `kfree` are those of the
-- heap.
pub mod Regions
mod Tests
use amog_os.Base.{ℕ, Bool, true, false, not, ◌||◌, ◌==◌, leb, bit_and, bit_or, if◌then◌else◌}
use amog_os.Base.Int.{ℤ, pos, negsuc, neg, is_ok}
use amog_os.Base.Memory.{update}
use amog_os.Base.Words.{sub32}
use amog_os.Paging.Interface.{Allocator}
use amog_os.Paging.{
  Machine, page_present, page_user_access_allow, page_write_allow, paging_down_align_addr,
  paging_up_align_addr, paging_map_memory_region,
}
use amog_os.Process.{Process, process_add_vmem_block, process_free_vmem_block}
use amog_os.Task.UserCopy.{verify_user_pointer}

abbrev pub o_write : ℕ
o_write = 2

pub page_flags : ℕ → ℕ
page_flags user_flags =
    let flags = bit_or page_present page_user_access_allow in
    if bit_and user_flags o_write == 0 then flags else bit_or flags page_write_allow

-- The two tests of the arguments.
pub is_misaligned : ℕ → ℕ → Bool
is_misaligned va_start va_end =
    not (va_start == paging_down_align_addr va_start) || not (va_end == paging_up_align_addr va_end)

pub is_no_user_region : ℕ → ℕ → Bool
is_no_user_region va_start va_end =
    not (is_ok (verify_user_pointer va_start))
    || not (is_ok (verify_user_pointer va_end))
    || leb va_end va_start

module _ (a : Allocator) (kzalloc : ℕ → Machine a → ℕ × Machine a)
    (kfree : ℕ → Machine a → Machine a) where
  -- From the test of `block_idx` on; `added` is the process with its block.
  pub map_block : ℤ → ℕ → ℕ → ℕ → ℕ → ℕ → Process → Process → Machine a → ℤ × Process × Machine a
  map_block (negsuc n) cr3 flags pa_start va_start va_end proc added m =
      (negsuc n, proc, kfree pa_start m)
  map_block (pos i) cr3 flags pa_start va_start va_end proc added m =
      let (res, m') = paging_map_memory_region a cr3 va_start pa_start va_end flags m in
      if is_ok res then (pos 0, added, m') else (
        res,
        record added {
          vmem_blocks_start = update added.vmem_blocks_start i 0;
          vmem_blocks_end = update added.vmem_blocks_end i 0;
        },
        kfree pa_start m',
      )

  pub syscall_mmap : ℕ → Process → ℕ → ℕ → ℕ → Machine a → ℤ × Process × Machine a
  syscall_mmap cr3 proc va_start va_end user_flags m =
      let (pa_start, m₁) = kzalloc (sub32 va_end va_start) m in
      let (block_idx, added) = process_add_vmem_block proc va_start va_end in
      if is_misaligned va_start va_end
      then (neg 2, proc, m)
      else if is_no_user_region va_start va_end
      then (neg 9, proc, m)
      else if pa_start == 0
      then (neg 3, proc, m₁)
      else map_block block_idx cr3 (page_flags user_flags) pa_start va_start va_end proc added m₁

  -- `syscall_munmap`
  pub syscall_munmap : ℕ → Process → ℕ → Machine a → ℤ × Process × Machine a
  syscall_munmap cr3 proc addr m = process_free_vmem_block a cr3 proc addr m

-- ===== src/Process/Mmap/Tests.antt =====
-- A process that maps two pages, with memory for them at 0x20000.
use amog_os.Base.{ℕ}
use amog_os.Base.Int.{pos}
use amog_os.Base.Memory.{update}
use amog_os.Paging.{Machine}
use amog_os.Paging.Heap.{kheap_allocator}
use amog_os.Process.{Process, proc_can_start}

abbrev shell : Process
shell = record {
  pid = 1;
  parent_pid = 1;
  exit_status = pos 0;
  status = proc_can_start;
  vmem_blocks_start = update (λ i. 0) 0 0x9000000;
  vmem_blocks_end = update (λ i. 0) 0 0x9001000;
}

abbrev kzalloc : ℕ → Machine kheap_allocator → ℕ × Machine kheap_allocator
kzalloc n m = (0x20000, m)

abbrev kfree : ℕ → Machine kheap_allocator → Machine kheap_allocator
kfree p m = m

-- ===== src/Process/Birth/Tests.antt =====
-- The task of a second process, over the kernel heap of 25600 blocks.
use amog_os.Base.{ℕ, refl, true, arith}
use amog_os.Base.Memory.{update}
use amog_os.Kheap.{Kheap, is_free}
use amog_os.Kheap.Laws.{IsValid}
use amog_os.Paging.{Machine}
use amog_os.Paging.Heap.{kheap_allocator, kheap_free}
use amog_os.Process.{cleared}
use amog_os.Process.Lifecycle.{System, no_image}
use amog_os.Task.{Scheduler, task_running}

abbrev heap : Kheap
heap = record {
  mem = update (λ _. 0) 0xE400 1;
  table = 0x8000;
  num_entries = 25600;
  start_addr = 0x1000000;
}

heap-IsValid : IsValid heap
unfolding is_free
heap-IsValid = record { above_null = omega arith; below_end = omega arith; bounded = refl }

abbrev machine : Machine kheap_allocator
machine = record {
  mem = λ _. 0;
  heap = record { heap = heap; valid = heap-IsValid; start_aligned = refl };
}

abbrev one_task : Scheduler
one_task = record {
  curr_task = 0x8000;
  head = 0x8000;
  tail = 0x8000;
  tasks = λ p. record { state = task_running; proc = 1; next = 0; prev = 0 };
  current_proc = 1;
  can_start = λ proc. true;
}

abbrev booted : System kheap_allocator kheap_free
booted = record {
  procs = λ i. cleared;
  images = λ i. no_image;
  sched = one_task;
  page_table = λ p. 0;
  elf_memory = λ p. 0;
  machine = machine;
}

abbrev kzalloc : ℕ → Machine kheap_allocator → ℕ × Machine kheap_allocator
kzalloc n m = (0x9000, m)

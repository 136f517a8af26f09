-- ===== src/Process/Lifecycle/Samples.antt =====
-- A system of two processes: the process 1, with one block, is a child of the process 0.
use amog_os.Base.{refl, [], ◌∷◌, true, arith, ◌==◌, if◌then◌else◌}
use amog_os.Base.Int.{pos}
use amog_os.Base.Memory.{update}
use amog_os.Kheap.{Kheap, is_free}
use amog_os.Kheap.Laws.{IsValid}
use amog_os.Paging.{Machine}
use amog_os.Paging.Heap.{kheap_allocator, kheap_free}
use amog_os.Task.{Scheduler, task_running, task_ready}
use amog_os.Task.Queue.{IsList}
use amog_os.Process.{Process, proc_can_start, cleared}
use amog_os.Process.Lifecycle.{System, proc_file_type_binary, no_image}

abbrev pub parent : Process
parent = record cleared { status = proc_can_start }

abbrev pub child : Process
child = record {
  pid = 1;
  parent_pid = 0;
  exit_status = pos 0;
  status = proc_can_start;
  vmem_blocks_start = update (λ i. 0) 3 0x9000000;
  vmem_blocks_end = update (λ i. 0) 3 0x9001000;
}

-- Four blocks from 0x1000 on: a program, a stack, a task and its page directory.
abbrev pub heap : Kheap
heap = record { mem = λ a. 0x41; table = 100; num_entries = 4; start_addr = 0x1000 }

pub heap-IsValid : IsValid heap
unfolding is_free
heap-IsValid = record { above_null = omega arith; below_end = omega arith; bounded = refl }

abbrev pub machine : Machine kheap_allocator
machine = record {
  mem = λ _. 0;
  heap = record { heap = heap; valid = heap-IsValid; start_aligned = refl };
}

abbrev pub two_tasks : Scheduler
two_tasks = record {
  curr_task = 0x3000;
  head = 0x8000;
  tail = 0x3000;
  tasks = λ p.
      if p == 0x8000
      then (record { state = task_ready; proc = 1; next = 0x3000; prev = 0 })
      else (record { state = task_running; proc = 2; next = 0; prev = 0x8000 });
  current_proc = 2;
  can_start = λ proc. true;
}

pub two_tasks-IsList : IsList two_tasks (0x8000 ∷ 0x3000 ∷ [])
two_tasks-IsList = record {
  head = refl;
  tail = refl;
  linked = (
    (λ e. absurd (omega (arith, e))),
    refl,
    refl,
    ((λ e. absurd (omega (arith, e))), refl, refl, tt),
  );
  distinct = (((λ e. absurd (omega (arith, e))), tt), (tt, tt));
}

abbrev pub running : System kheap_allocator kheap_free
running = record {
  procs = λ i. if i == 0 then parent else if i == 1 then child else cleared;
  images = λ i.
      if i == 1
      then (record {
        task = 0x3000;
        file_type = proc_file_type_binary;
        program = 0x1000;
        stack_paddr = 0x2000;
      })
      else (record no_image { task = 0x8000 });
  sched = two_tasks;
  page_table = λ p. 0x4000;
  elf_memory = λ p. 0;
  machine = machine;
}

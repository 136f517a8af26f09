-- ===== src/Process/Manage/Tests.antt =====
-- The process 1 of two exits: the task of the process 0 runs.
use amog_os.Base.{ℕ, ◌⊎◌, ◌≡◌, [], ◌∷◌, none, some, arith}
use amog_os.Base.Int.{pos}
use amog_os.Paging.Heap.{kheap_allocator, kheap_free}
use amog_os.Process.Lifecycle.Samples.{running, two_tasks, two_tasks-IsList}
use amog_os.Process.Manage.{syscall_exit}
use amog_os.Process.Manage.Exit.{exited, syscall_exit_lem}
use amog_os.Task.{panics}
use amog_os.Task.Switch.{Runs}
use amog_os.Task.Choice.{first_ready}

syscall_exit_lem_example :
    let o = syscall_exit kheap_allocator kheap_free 3 1 (pos 7) running in
    ((first_ready two_tasks.tasks (0x8000 ∷ []) ≡ none) × (o ≡ panics))
    ⊎ ((q : ℕ) × (first_ready two_tasks.tasks (0x8000 ∷ []) ≡ some q)
        × Runs q (exited kheap_allocator kheap_free 1 running) o)
syscall_exit_lem_example =
    syscall_exit_lem kheap_allocator kheap_free 3 1 (pos 7) running (0x8000 ∷ []) []
      two_tasks-IsList (omega arith)

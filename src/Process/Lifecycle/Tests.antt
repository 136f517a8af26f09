-- ===== src/Process/Lifecycle/Tests.antt =====
-- The process 1 of two, with one block, exits, and the process 0 waits for it.
use amog_os.Base.{ℕ, ◌<◌, ◌≡◌, ◌≢◌, refl, some, [], ◌∷◌, arith}
use amog_os.Base.Int.{pos}
use amog_os.Paging.Heap.{kheap_allocator, kheap_free}
use amog_os.Task.Queue.{IsList}
use amog_os.Process.{cleared}
use amog_os.Process.Lifecycle.{System, no_image, process_exit, process_waitpid}
use amog_os.Process.Lifecycle.Reap.{process_waitpid-process_exit}
use amog_os.Process.Lifecycle.Samples.{running, two_tasks-IsList}

process_waitpid-process_exit_example :
    (s' : System kheap_allocator kheap_free) × (process_waitpid kheap_allocator kheap_free 0 1
        (process_exit kheap_allocator kheap_free 1 (pos 7) running)
      ≡ some (pos 0, s'))
    × (s'.procs 1 ≡ cleared)
    × ((j : ℕ) → 1 ≢ j → s'.procs j ≡ running.procs j)
    × (s'.images 1 ≡ no_image)
    × IsList s'.sched (0x8000 ∷ [])
process_waitpid-process_exit_example =
    process_waitpid-process_exit kheap_allocator kheap_free 1 0 (pos 7) running (0x8000 ∷ []) []
      (omega arith) (λ e. omega arith) first refl two_tasks-IsList
  where
    first : (k : ℕ) → k < 1 → (running.procs k).pid ≢ (running.procs 1).pid
    first k lt e = absurd (ground (arith, lt, e))

-- ===== src/Process/Birth/Start.antt =====
-- What `task_new` comes to: a task at the end of the list, ready to start.
use amog_os.Base.{ℕ, ◌≡◌}
use amog_os.Base.Memory.{update}
use amog_os.Paging.Interface.{Allocator}
use amog_os.Paging.{Machine}
use amog_os.Process.Lifecycle.{System, address}
use amog_os.Task.{Task, task_ready, set_task, task_link}

-- Linking changes only pointers.
abbrev SameTask : Task → Task → Type 0
SameTask t u = (t.state ≡ u.state) × (t.proc ≡ u.proc)

module _ (a : Allocator) (kfree : ℕ → a.State → a.State)
    (kzalloc : ℕ → Machine a → ℕ × Machine a) where
  -- The system with the task at `p`.
  abbrev with_task : ℕ → ℕ → ℕ → Machine a → System a kfree → System a kfree
  with_task i p cr3 m s = record s {
    sched =
        task_link p (
          set_task p (record { state = task_ready; proc = address i; next = 0; prev = 0 }) s.sched);
    page_table = update s.page_table p cr3;
    machine = m;
  }

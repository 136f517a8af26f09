-- ===== src/Process/Manage.antt =====
-- The system calls exit and waitpid (src/syscall/proc_mgmt.c) of the process in the slot `i`; their
-- arguments have been read from its stack.
pub mod Exit
mod Tests
use amog_os.Base.{ℕ, Option}
use amog_os.Base.Int.{ℤ}
use amog_os.Paging.Interface.{Allocator}
use amog_os.Process.Lifecycle.{System, process_exit, process_waitpid}
use amog_os.Task.{Outcome, task_switch_and_run_any}

module _ (a : Allocator) (kfree : ℕ → a.State → a.State) where
  -- `syscall_exit`, which does not return.
  pub syscall_exit : ℕ → ℕ → ℤ → System a kfree → Outcome
  syscall_exit fuel i status s =
      task_switch_and_run_any fuel (process_exit a kfree i status s).sched

  -- `syscall_wait_pid`
  pub syscall_wait_pid : ℕ → ℕ → System a kfree → Option (ℤ × System a kfree)
  syscall_wait_pid i pid s = process_waitpid a kfree i pid s

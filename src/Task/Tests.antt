-- ===== src/Task/Tests.antt =====
-- Two tasks at the addresses 4096 and 8192: the first one runs.
use amog_os.Base.{
  ℕ, ◌+◌, ◌%◌, ◌^◌, ◌≤◌, ◌<◌, ◌⊎◌, ltb, some, ◌≡◌, refl, [], ◌∷◌, none, true, ◌==◌, if◌then◌else◌,
  arith,
}
use amog_os.Task.{
  Scheduler, panics, task_running, task_ready, task_switch_and_run, task_switch_and_run_any,
  task_switch_to_next_and_run, task_link, task_unlink, task_dead,
}
use amog_os.Base.Int.{pos}
use amog_os.CString.{Str}
use amog_os.Task.UserCopy.{
  kheap_safe_boundary, copy_data_from_user, verify_user_pointer, copy_data_from_user_lem,
}
use amog_os.Task.Queue.{IsList, task_link-IsList, task_unlink-IsList}
use amog_os.Task.Next.{Chosen, task_switch_to_next_and_run_lem}
use amog_os.Task.Choice.{Linked, first_ready, task_switch_and_run_any_lem}

abbrev two_tasks : Scheduler
two_tasks = record {
  curr_task = 4096;
  head = 4096;
  tail = 8192;
  tasks = λ p.
      if p == 4096
      then (record { state = task_running; proc = 1; next = 8192; prev = 0 })
      else (record { state = task_ready; proc = 2; next = 0; prev = 4096 });
  current_proc = 1;
  can_start = λ proc. true;
}

two_tasks-Linked : Linked two_tasks.tasks (4096 ∷ 8192 ∷ [])
unfolding Linked
two_tasks-Linked =
    ((λ e. absurd (omega (arith, e))), refl, ((λ e. absurd (omega (arith, e))), refl, tt))

second_task_runs :
    task_switch_and_run_any 3 two_tasks ≡ elim (first_ready two_tasks.tasks (4096 ∷ 8192 ∷ [])) [
      | none ↦ panics
      | some p ↦ task_switch_and_run p two_tasks
    ]
second_task_runs =
    task_switch_and_run_any_lem two_tasks (4096 ∷ 8192 ∷ []) 3 two_tasks-Linked refl (omega arith)

-- The same two tasks, the first of them dead.
abbrev dead_task : Scheduler
dead_task = record two_tasks {
  tasks = λ p.
      if p == 4096
      then (record { state = task_dead; proc = 1; next = 8192; prev = 0 })
      else (record { state = task_ready; proc = 2; next = 0; prev = 4096 });
}

two_tasks-IsList : IsList two_tasks (4096 ∷ 8192 ∷ [])
two_tasks-IsList = record {
  head = refl;
  tail = refl;
  linked = (
    (λ e. absurd (omega (arith, e))),
    refl,
    refl,
    ((λ e. absurd (omega (arith, e))), refl, refl, tt),
  );
  distinct = (((λ e. absurd (omega (arith, e))), tt), (tt, tt));
}

dead_task-IsList : IsList dead_task (4096 ∷ 8192 ∷ [])
dead_task-IsList = record {
  head = refl;
  tail = refl;
  linked = (
    (λ e. absurd (omega (arith, e))),
    refl,
    refl,
    ((λ e. absurd (omega (arith, e))), refl, refl, tt),
  );
  distinct = (((λ e. absurd (omega (arith, e))), tt), (tt, tt));
}

task_switch_to_next_and_run_lem_example :
    Chosen two_tasks 8192 (task_switch_to_next_and_run 1 two_tasks)
task_switch_to_next_and_run_lem_example =
    task_switch_to_next_and_run_lem two_tasks [] (8192 ∷ []) 0 two_tasks-IsList

task_link-IsList_example : IsList (task_link 12288 two_tasks) (4096 ∷ 8192 ∷ 12288 ∷ [])
task_link-IsList_example =
    task_link-IsList two_tasks (4096 ∷ 8192 ∷ []) 12288 (λ e. absurd (omega (arith, e)))
      ((λ e. absurd (omega (arith, e))), ((λ e. absurd (omega (arith, e))), tt)) two_tasks-IsList

task_unlink-IsList_example :
    (s' : Scheduler) × (task_unlink 4096 dead_task ≡ some s')
    × IsList s' (8192 ∷ [])
    × (s'.curr_task ≡ (if 4096 == dead_task.curr_task then 0 else dead_task.curr_task))
task_unlink-IsList_example = task_unlink-IsList dead_task [] 4096 (8192 ∷ []) dead_task-IsList refl

-- Three bytes of user memory.
copy_data_from_user_lem_example :
    ((out : Str) × (copy_data_from_user (λ a. a % 256) (λ k. 7) 0x8000001 3 ≡ some (pos 0, out))
      × (verify_user_pointer 0x8000001 ≡ pos 0)
      × (kheap_safe_boundary ≤ 0x8000001)
      × (0x8000001 + 3 < 2 ^ 32)
      × ((k : ℕ) → out k ≡ (if ltb k 3 then (0x8000001 + k) % 256 else 7)))
    ⊎ ((copy_data_from_user (λ a. a % 256) (λ k. 7) 0x8000001 3 ≡ none)
        × ((0x8000001 < kheap_safe_boundary) ⊎ (2 ^ 32 ≤ 0x8000001 + 3)))
copy_data_from_user_lem_example =
    copy_data_from_user_lem (λ a. a % 256) (λ k. 7) 0x8000001 3 (omega arith) (omega arith)

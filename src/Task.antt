-- ===== src/Task.antt =====
-- The scheduler (src/task/task.c): the doubly linked list of tasks and the choice of the next one.
-- A task is named by its address, with 0 for NULL.
pub mod Choice
pub mod Next
pub mod Queue
pub mod Segment
pub mod Switch
pub mod Unlink
pub mod UserCopy
mod Tests
use amog_os.Base.{
  ℕ, zero, suc, ◌+◌, Option, none, some, Bool, true, false, not, ◌==◌, ◌&&◌, if◌then◌else◌,
}
use amog_os.Base.Memory.{update}

pub data TaskState : Type 0 where
  task_running : TaskState
  task_blocked : TaskState
  task_ready : TaskState
  task_dead : TaskState

abbrev pub is_running : TaskState → Bool
is_running task_running = true
is_running task_blocked = false
is_running task_ready = false
is_running task_dead = false

abbrev pub is_ready : TaskState → Bool
is_ready task_running = false
is_ready task_blocked = false
is_ready task_ready = true
is_ready task_dead = false

abbrev pub is_dead : TaskState → Bool
is_dead task_running = false
is_dead task_blocked = false
is_dead task_ready = false
is_dead task_dead = true

-- `struct task`, without its registers and its page table.
pub record Task : Type 0 where
  pub state : TaskState
  pub proc : ℕ
  pub next : ℕ
  pub prev : ℕ

-- The globals of the scheduler, the tasks in memory, the current process, and whether a process is
-- in the state PROC_CAN_START.
pub record Scheduler : Type 0 where
  pub curr_task : ℕ
  pub head : ℕ
  pub tail : ℕ
  pub tasks : ℕ → Task
  pub current_proc : ℕ
  pub can_start : ℕ → Bool

-- What a call that switches tasks comes to: the task that runs, a panic, or no end of its loop
-- within the fuel.
pub data Outcome : Type 0 where
  runs : ℕ → Scheduler → Outcome
  panics : Outcome
  loops : Outcome

unfoldable pub set_task : ℕ → Task → Scheduler → Scheduler
set_task p t s = record s { tasks = update s.tasks p t }

-- `task_new` once the task is set up at `p`: it is put at the end of the list.
unfoldable pub task_link : ℕ → Scheduler → Scheduler
task_link p s =
    let s₁ = set_task s.tail (record (s.tasks s.tail) { next = p }) s in
    let s₂ = set_task p (record (s₁.tasks p) { prev = s.tail; next = 0 }) s₁ in
    if s.head == 0
    then record (set_task p (record (s.tasks p) { prev = 0; next = 0 }) s) { head = p; tail = p }
    else record s₂ { tail = p }

-- `task_get_next`
pub task_get_next : Scheduler → ℕ
task_get_next s =
    let next = (s.tasks s.curr_task).next in
    if s.curr_task == 0 then 0 else if next == 0 then s.head else next

-- The neighbours of the task at `p` are linked with each other.
pub unlink_next : ℕ → (ℕ → Task) → ℕ → Task
unlink_next p tasks =
    let t = tasks p in
    if t.prev == 0 then tasks else update tasks t.prev (record (tasks t.prev) { next = t.next })

pub unlink_prev : ℕ → (ℕ → Task) → ℕ → Task
unlink_prev p tasks =
    let t = tasks p in
    if t.next == 0 then tasks else update tasks t.next (record (tasks t.next) { prev = t.prev })

-- `task_free` of a dead task, on the list; none where the kernel panics.
pub task_unlink : ℕ → Scheduler → Option Scheduler
task_unlink p s =
    let tasks = unlink_prev p (unlink_next p s.tasks) in
    if p == 0
    then some s
    else if not (is_dead (s.tasks p).state)
    then none
    else some (record s {
      tasks = tasks;
      head = (if p == s.head then (tasks p).next else s.head);
      tail = (if p == s.tail then (tasks p).prev else s.tail);
      curr_task = (if p == s.curr_task then 0 else s.curr_task);
    })

-- `curr_task->state = TASK_READY` if it runs.
pub make_ready : Scheduler → Scheduler
make_ready s =
    let t = s.tasks s.curr_task in
    if is_running t.state then set_task s.curr_task (record t { state = task_ready }) s else s

-- `task_switch`, with the test of `set_current_process`.
pub task_switch : ℕ → Scheduler → Option Scheduler
task_switch p s =
    let s₁ = (if s.curr_task == 0 then s else make_ready s) in
    let s₂ =
      set_task p (record (s₁.tasks p) { state = task_running }) (record s₁ { curr_task = p }) in
    let proc = (s₂.tasks p).proc in
    if s₂.can_start proc then some (record s₂ { current_proc = proc }) else none

-- `task_switch_and_run`, which does not return when it runs the task.
pub task_switch_and_run : ℕ → Scheduler → Outcome
task_switch_and_run p s =
    if is_ready (s.tasks p).state
    then elim (task_switch p s) [ none ↦ panics | some s' ↦ runs p s' ]
    else panics

-- The loop of `task_switch_and_run_any`.
pub run_first : ℕ → ℕ → Scheduler → Outcome
run_first zero p s = loops
run_first (suc fuel) p s =
    let rest = run_first fuel (s.tasks p).next s in
    if p == 0 then panics else if is_ready (s.tasks p).state then task_switch_and_run p s else rest

pub task_switch_and_run_any : ℕ → Scheduler → Outcome
task_switch_and_run_any fuel s = run_first fuel s.head s

-- The loop of `task_switch_to_next_and_run`: the task that it chooses.
pub find_next : ℕ → ℕ → ℕ → Scheduler → Option ℕ
find_next zero start next s = none
find_next (suc fuel) start next s =
    let rest = find_next fuel start (task_get_next s) s in
    if next == start then some next else if is_ready (s.tasks next).state then some next else rest

pub task_switch_to_next_and_run : ℕ → Scheduler → Outcome
task_switch_to_next_and_run fuel s =
    let s' = make_ready s in
    if s.curr_task == 0 then panics else elim (find_next fuel s.curr_task (task_get_next s') s') [
      | none ↦ loops
      | some next ↦ task_switch_and_run next s'
    ]

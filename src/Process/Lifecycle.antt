-- ===== src/Process/Lifecycle.antt =====
-- The end of a process: `process_exit`, `process_reap` and `process_waitpid` of src/task/process.c,
-- and `task_free` of src/task/task.c, on the table of processes, the scheduler, the page tables
-- and the heap.
pub mod Exit
pub mod Reap
pub mod Samples
mod Tests
use amog_os.Base.{
  ℕ, zero, suc, ◌+◌, Option, none, some, Bool, true, false, not, ◌==◌, if◌then◌else◌,
}
use amog_os.Base.Int.{ℤ, pos, neg}
use amog_os.Base.Memory.{update}
use amog_os.Base.Options.{◌>>=◌}
use amog_os.Paging.Interface.{Allocator}
use amog_os.Paging.{Machine}
use amog_os.Paging.Discard.{paging_free_page_table}
use amog_os.Task.{Scheduler, Task, task_dead, set_task, task_unlink}
use amog_os.Process.{
  Process, is_zombie, proc_zombie, free_pid_slot, get_proc_by_pid, process_free_vmem_block,
  process_vmem_max_blocks,
}

pub data FileType : Type 0 where
  proc_file_type_elf : FileType
  proc_file_type_binary : FileType

-- The program, the task and the stack in `struct process`. `program` is the union: the address of
-- the code, or of the `struct elf_file`.
pub record Image : Type 0 where
  pub task : ℕ
  pub file_type : FileType
  pub program : ℕ
  pub stack_paddr : ℕ

-- `process_init`
abbrev pub no_image : Image
no_image = record { task = 0; file_type = proc_file_type_elf; program = 0; stack_paddr = 0 }

-- The address of the process in a slot, with 0 for NULL.
abbrev pub address : ℕ → ℕ
address slot = slot + 1

module _ (a : Allocator) (kfree : ℕ → a.State → a.State) where
  -- In the scheduler, `can_start` is the status of the processes in `procs`. The table of
  -- processes, the scheduler, the page tables of the tasks and the field `elf_memory` of the ELF
  -- files by address, and the machine.
  pub record System : Type 0 where
    pub procs : ℕ → Process
    pub images : ℕ → Image
    pub sched : Scheduler
    pub page_table : ℕ → ℕ
    pub elf_memory : ℕ → ℕ
    pub machine : Machine a

  pub free_memory : ℕ → Machine a → Machine a
  free_memory p m = record m { heap = kfree p m.heap }

  -- What of the program is freed.
  pub program_memory : Image → (ℕ → ℕ) → ℕ
  program_memory image elf_memory = elim image.file_type [
    | proc_file_type_binary ↦ image.program
    | proc_file_type_elf ↦ elf_memory image.program
  ]

  -- The block `i`, unless it is unused, as `process_exit` frees it.
  pub free_block : ℕ → ℕ → Process → Machine a → Process × Machine a
  free_block cr3 i proc m =
      let start = proc.vmem_blocks_start i in
      let freed = process_free_vmem_block a cr3 proc start m in
      if start == 0 then (proc, m) else (freed.1, freed.2)

  -- The loop of `process_exit` over the blocks, from `i` on.
  pub free_blocks : ℕ → ℕ → ℕ → Process → Machine a → Process × Machine a
  free_blocks cr3 zero i proc m = (proc, m)
  free_blocks cr3 (suc left) i proc m =
      let r = free_block cr3 i proc m in free_blocks cr3 left (i + 1) r.0 r.1

  -- `process_exit` of the process in the slot `i`.
  unfoldable pub process_exit : ℕ → ℤ → System → System
  process_exit i status s =
      let image = s.images i in
      let sched₁ =
        set_task image.task (record (s.sched.tasks image.task) { state = task_dead }) s.sched in
      let m₁ = free_memory (program_memory image s.elf_memory) s.machine in
      let r₂ = free_blocks (s.page_table image.task) process_vmem_max_blocks 0 (s.procs i) m₁ in
      let m₃ = (if image.stack_paddr == 0 then r₂.1 else free_memory image.stack_paddr r₂.1) in
      let proc₄ = record r₂.0 { status = proc_zombie; exit_status = status } in
      record s {
        procs = update s.procs i proc₄;
        sched = record sched₁ {
          current_proc = (if address i == sched₁.current_proc then 0 else sched₁.current_proc);
          can_start = update sched₁.can_start (address i) false;
        };
        machine = m₃;
      }

  -- `task_free`; none where the kernel panics.
  pub task_free : ℕ → System → Option System
  task_free p s = do
    sched' ← task_unlink p s.sched
    (let m' = free_memory p (paging_free_page_table a kfree (s.page_table p) s.machine) in
        some (if p == 0 then s else record s { sched = sched'; machine = m' }))

  -- `free_pid_slot`, with the other half of the process.
  pub clear_slot : ℕ → System → System
  clear_slot pid s = record s {
    procs = (free_pid_slot pid s.procs).1;
    images = elim (get_proc_by_pid pid s.procs) [
      | none ↦ s.images
      | some j ↦ update s.images j no_image
    ];
  }

  pub process_reap : ℕ → System → Option (ℤ × System)
  process_reap i s =
      let reaped = (do
        s' ← task_free (s.images i).task s
        some (pos 0, clear_slot (s.procs i).pid s')) in
      if is_zombie (s.procs i).status then reaped else some (neg 14, s)

  -- `waitpid` of the process in the slot `i`.
  pub process_waitpid : ℕ → ℕ → System → Option (ℤ × System)
  process_waitpid i waitpid s = elim (get_proc_by_pid waitpid s.procs) [
    | none ↦ some (neg 2, s)
    | some j ↦
        if (s.procs j).parent_pid == (s.procs i).pid then process_reap j s else some (neg 2, s)
  ]

-- ===== src/Process.antt =====
-- Processes (src/task/process.c): their table and the memory blocks that a process has mapped.
pub mod Arguments
pub mod Blocks
pub mod Mmap
pub mod Loading
pub mod Birth
pub mod Manage
pub mod Lifecycle
mod Tests
use amog_os.Base.{ℕ, zero, suc, ◌+◌, Option, none, some, Bool, true, false, ◌==◌, if◌then◌else◌}
use amog_os.Base.Int.{ℤ, pos, negsuc, neg}
use amog_os.Base.Memory.{update}
use amog_os.Paging.Interface.{Allocator}
use amog_os.Paging.{Machine, paging_free_va}

abbrev pub max_procs : ℕ
max_procs = 64

abbrev pub process_vmem_max_blocks : ℕ
process_vmem_max_blocks = 10

pub data ProcStatus : Type 0 where
  proc_unused : ProcStatus
  proc_creating : ProcStatus
  proc_can_start : ProcStatus
  proc_zombie : ProcStatus

abbrev pub is_unused : ProcStatus → Bool
is_unused proc_unused = true
is_unused proc_creating = false
is_unused proc_can_start = false
is_unused proc_zombie = false

abbrev pub is_creating : ProcStatus → Bool
is_creating proc_unused = false
is_creating proc_creating = true
is_creating proc_can_start = false
is_creating proc_zombie = false

abbrev pub is_zombie : ProcStatus → Bool
is_zombie proc_unused = false
is_zombie proc_creating = false
is_zombie proc_can_start = false
is_zombie proc_zombie = true

-- `struct process`, without its program, its task and its ring.
pub record Process : Type 0 where
  pub pid : ℕ
  pub parent_pid : ℕ
  pub exit_status : ℤ
  pub status : ProcStatus
  pub vmem_blocks_start : ℕ → ℕ
  pub vmem_blocks_end : ℕ → ℕ

-- `process_init`: a cleared process, whose status is PROC_UNUSED.
abbrev pub cleared : Process
cleared = record {
  pid = 0;
  parent_pid = 0;
  exit_status = pos 0;
  status = proc_unused;
  vmem_blocks_start = λ i. 0;
  vmem_blocks_end = λ i. 0;
}

free_slot_from : ℕ → ℕ → (ℕ → Process) → ℤ
free_slot_from zero i procs = neg 1
free_slot_from (suc left) i procs =
    let rest = free_slot_from left (i + 1) procs in
    if is_unused (procs i).status then pos i else rest

pub get_free_slot : (ℕ → Process) → ℤ
get_free_slot procs = free_slot_from max_procs 0 procs

-- The loop over the process numbers.
pid_from : ℕ → ℕ → ℕ → (ℕ → Process) → Option ℕ
pid_from pid zero i procs = none
pid_from pid (suc left) i procs =
    let rest = pid_from pid left (i + 1) procs in if (procs i).pid == pid then some i else rest

-- `get_proc_by_pid`: the slot.
pub get_proc_by_pid : ℕ → (ℕ → Process) → Option ℕ
get_proc_by_pid pid procs = pid_from pid max_procs 0 procs

pub free_pid_slot : ℕ → (ℕ → Process) → ℤ × (ℕ → Process)
free_pid_slot pid procs = elim (pid_from pid max_procs 0 procs) [
  | none ↦ (neg 2, procs)
  | some i ↦ (pos 0, update procs i cleared)
]

-- The loop for the first block from `i` on that starts at `va`; a block that starts at 0 is free.
pub find_block : ℕ → (ℕ → ℕ) → ℕ → ℕ → Option ℕ
find_block va starts zero i = none
find_block va starts (suc left) i =
    let rest = find_block va starts left (i + 1) in if starts i == va then some i else rest

pub process_add_vmem_block : Process → ℕ → ℕ → ℤ × Process
process_add_vmem_block proc va_start va_end =
    elim (find_block 0 proc.vmem_blocks_start process_vmem_max_blocks 0) [
      | none ↦ (neg 12, proc)
      | some i ↦ (
        pos i,
        record proc {
          vmem_blocks_start = update proc.vmem_blocks_start i va_start;
          vmem_blocks_end = update proc.vmem_blocks_end i va_end;
        },
      )
    ]

pub process_get_vmem_block : Process → ℕ → ℤ
process_get_vmem_block proc va_start =
    elim (find_block va_start proc.vmem_blocks_start process_vmem_max_blocks 0) [
      | none ↦ neg 2
      | some i ↦ pos i
    ]

module _ (a : Allocator) where
  -- `process_free_vmem_block` of a process whose task has the page table `cr3`.
  pub process_free_vmem_block : ℕ → Process → ℕ → Machine a → ℤ × Process × Machine a
  process_free_vmem_block cr3 proc va_start m = elim (process_get_vmem_block proc va_start) [
    | negsuc n ↦ (negsuc n, proc, m)
    | pos i ↦
        let (res, m') = paging_free_va a cr3 va_start (proc.vmem_blocks_end i) m in
        (
          pos 0,
          record proc {
            vmem_blocks_start = update proc.vmem_blocks_start i 0;
            vmem_blocks_end = update proc.vmem_blocks_end i 0;
          },
          m',
        )
  ]

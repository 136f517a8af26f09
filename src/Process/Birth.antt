-- ===== src/Process/Birth.antt =====
-- `task_new` with `task_init` of src/task/task.c: the task of a new process. `kzalloc` is that of
-- the heap.
pub mod Start
mod Tests
use amog_os.Base.{ℕ, ◌==◌, ◌+◌, true, false, if◌then◌else◌}
use amog_os.Base.Int.{ℤ, pos, is_ok}
use amog_os.Base.Memory.{update}
use amog_os.Paging.Interface.{Allocator}
use amog_os.Paging.{Machine}
use amog_os.Paging.Identity.{paging_create_4gb_page_tables}
use amog_os.Process.Arguments.{default_user_stack_start}
use amog_os.Process.Lifecycle.{
  System, FileType, proc_file_type_elf, proc_file_type_binary, address, free_memory,
}
use amog_os.Process.Loading.{default_user_prog_entry}
use amog_os.Task.{task_ready, set_task, task_link}

-- `sizeof(struct task)`
abbrev pub task_size : ℕ
task_size = 76

abbrev pub default_user_data_segment : ℕ
default_user_data_segment = 0x23

abbrev pub default_user_code_segment : ℕ
default_user_code_segment = 0x1B

pub record Registers : Type 0 where
  pub edi : ℕ
  pub esi : ℕ
  pub ebp : ℕ
  pub ebx : ℕ
  pub edx : ℕ
  pub ecx : ℕ
  pub eax : ℕ
  pub eip : ℕ
  pub cs : ℕ
  pub eflags : ℕ
  pub esp : ℕ
  pub ss : ℕ

-- `memset(task, 0, sizeof(struct task))`, for the registers.
abbrev pub no_registers : Registers
no_registers = record {
  edi = 0;
  esi = 0;
  ebp = 0;
  ebx = 0;
  edx = 0;
  ecx = 0;
  eax = 0;
  eip = 0;
  cs = 0;
  eflags = 0;
  esp = 0;
  ss = 0;
}

-- `e_entry` is that of the header of an ELF file.
pub entry_point : FileType → ℕ → ℕ
entry_point proc_file_type_elf e_entry = e_entry
entry_point proc_file_type_binary e_entry = default_user_prog_entry

pub start_registers : FileType → ℕ → Registers
start_registers file_type e_entry = record no_registers {
  eip = entry_point file_type e_entry;
  ss = default_user_data_segment;
  esp = default_user_stack_start;
  cs = default_user_code_segment;
  eflags = 0x202;
}

module _ (a : Allocator) (kfree : ℕ → a.State → a.State)
    (kzalloc : ℕ → Machine a → ℕ × Machine a) where
  -- `task_init`: the result, the page table, the registers and the machine.
  pub task_init : FileType → ℕ → Machine a → ℤ × ℕ × Registers × Machine a
  task_init file_type e_entry m =
      let (res, cr3, m') = paging_create_4gb_page_tables a kfree 3 m in
      (res, cr3, if is_ok res then start_registers file_type e_entry else no_registers, m')

  -- `task_new` for the process in the slot `i`: the task, or 0, and its registers.
  pub task_new : ℕ → FileType → ℕ → System a kfree → ℕ × Registers × System a kfree
  task_new i file_type e_entry s =
      let (p, m₁) = kzalloc task_size s.machine in
      let (res, cr3, registers, m₂) = task_init file_type e_entry m₁ in
      let sched₁ =
        set_task p (record { state = task_ready; proc = address i; next = 0; prev = 0 }) s.sched in
      if p == 0
      then (0, no_registers, record s { machine = m₁ })
      else if is_ok res
      then (
        p,
        registers,
        record s {
          sched = task_link p sched₁;
          page_table = update s.page_table p cr3;
          machine = m₂;
        },
      )
      else (0, no_registers, record s { machine = free_memory a kfree p m₂ })

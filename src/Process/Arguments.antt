-- ===== src/Process/Arguments.antt =====
-- `process_add_arguments` (src/task/process.c): the arguments of a program on its stack, which the
-- kernel writes at its physical address while the pointers in it are virtual. `argc` and `len` are
-- not negative; the caller's copy of the arguments is apart from the stack.
pub mod Pointers
pub mod Layout
pub mod Push
pub mod Argv
mod Tests
use amog_os.Base.{
  ℕ, zero, suc, ◌+◌, ◌-◌, ◌*◌, Option, none, some, ltb, leb, ◌==◌, if◌then◌else◌, not, Bool, true,
  false,
}
use amog_os.Base.Options.{◌>>=◌}
use amog_os.Base.Int.{ℤ, pos, neg}
use amog_os.Base.Words.{add32, sub32, mul32}
use amog_os.Base.Bytes.{write_word}
use amog_os.CString.{Str, strlen, memcpy}
use amog_os.Process.{ProcStatus, proc_can_start, is_creating}

abbrev pub default_user_stack_start : ℕ
default_user_stack_start = 0x83FF000

abbrev pub default_user_stack_size : ℕ
default_user_stack_size = 1024 * 16

-- What the call reads and writes: physical memory, the stack pointer of the task, the status.
pub record Launch : Type 0 where
  pub memory : ℕ → ℕ
  pub esp : ℕ
  pub status : ProcStatus

-- What the call comes to: its result, a panic, or no end of `strlen` within the fuel.
pub data Added : Type 0 where
  returns : ℤ → Launch → Added
  panics : Added
  loops : Added

-- `memcpy` to an address.
pub memcpy_at : (ℕ → ℕ) → ℕ → Str → ℕ → ℕ → ℕ
memcpy_at mem a src len j = if leb a j then memcpy (λ i. mem (a + i)) src len (j - a) else mem j

-- The loop from `arg_ptrs[i]` on, for `left` pointers.
pub set_pointers : ℕ → ℕ → ℕ → ℕ → ℕ → ℕ → (ℕ → ℕ) → Option (ℕ → ℕ)
set_pointers fuel zero i arg_ptrs curr_arg curr_arg_va mem = some mem
set_pointers fuel (suc left) i arg_ptrs curr_arg curr_arg_va mem =
    let next = λ (len : ℕ).
      let va = add32 curr_arg_va len in
      set_pointers fuel left (i + 1) arg_ptrs (add32 curr_arg len) va
        (write_word mem (add32 arg_ptrs (mul32 4 i)) va) in
    strlen fuel (λ k. mem (add32 curr_arg k)) >>= λ n. next (n + 1)

-- From `push_argc_argv` on.
pub push_argc_argv : ℕ → ℕ → ℕ → ℕ → (ℕ → ℕ) → Added
push_argc_argv argc stack esp arg_ptrs_va mem =
    let stack₁ = sub32 stack 4 in
    let stack₂ = sub32 stack₁ 4 in
    returns (pos 0) (record {
      memory = write_word (write_word mem stack₁ arg_ptrs_va) stack₂ argc;
      esp = sub32 esp 8;
      status = proc_can_start;
    })

-- What follows the loop: `argv` is where the stack pointer is.
abbrev pub after_pointers : ℕ → ℕ → ℕ → Option (ℕ → ℕ) → Added
after_pointers argc stack esp none = loops
after_pointers argc stack esp (some mem) = push_argc_argv argc stack esp esp mem

-- `uninit` is what `arg_ptrs_va` holds when nothing has set it.
pub process_add_arguments : ℕ → ℕ → ℕ → ℕ → ℕ → Str → Launch → Added
process_add_arguments fuel uninit stack_paddr argc len args p =
    let stack = add32 stack_paddr default_user_stack_size in
    let args_buf = sub32 stack len in
    let args_buf_va = sub32 p.esp len in
    let mem = memcpy_at p.memory args_buf args len in
    let arg_ptrs = sub32 args_buf (mul32 4 argc) in
    let arg_ptrs_va = sub32 args_buf_va (mul32 4 argc) in
    let mem' = write_word mem arg_ptrs args_buf_va in
    if not (is_creating p.status)
    then panics
    else if ltb default_user_stack_size (add32 (mul32 4 argc) len)
    then returns (neg 3) p
    else if argc == 0
    then push_argc_argv argc stack p.esp uninit p.memory
    else after_pointers argc arg_ptrs arg_ptrs_va
        (set_pointers fuel (argc - 1) 1 arg_ptrs args_buf args_buf_va mem')

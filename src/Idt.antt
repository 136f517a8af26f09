-- ===== src/Idt.antt =====
-- Interrupts and system calls (src/idt/idt.c): the descriptor table, the registered call backs and
-- the table of system calls. A handler is a value of the type `Handler`; a table slot that holds
-- the null pointer is `none`.
pub mod Dispatch
mod Tests
use amog_os.Base.{
  ℕ, ◌/◌, ◌^◌, bit_and, Option, none, some, Bool, true, false, ◌||◌, ltb, leb, if◌then◌else◌, not,
  zero, suc,
}
use amog_os.Base.Int.{ℤ, pos, neg, is_neg, pos_part}
use amog_os.Base.Options.{is_some}
use amog_os.Base.Memory.{update}

abbrev pub num_interrupts : ℕ
num_interrupts = 512

abbrev pub num_sys_calls : ℕ
num_sys_calls = 64

-- `struct idt_entry`
pub record IdtEntry : Type 0 where
  pub base_lo : ℕ
  pub sel : ℕ
  pub always0 : ℕ
  pub flags : ℕ
  pub base_hi : ℕ

-- `idt_set`
pub idt_set : ℕ → ℕ → (ℕ → IdtEntry) → ℕ → IdtEntry
idt_set intr_num addr idt = update idt intr_num (record {
  base_lo = bit_and addr 0x0000FFFF;
  sel = 0x08;
  always0 = 0;
  flags = 0xEE;
  base_hi = bit_and addr 0xFFFF0000 / 2 ^ 16;
})

-- The loop of `idt_init` over the wrappers, from `i` for `count` entries.
pub idt_set_all : (ℕ → ℕ) → ℕ → ℕ → (ℕ → IdtEntry) → ℕ → IdtEntry
idt_set_all wrappers zero i idt = idt
idt_set_all wrappers (suc count) i idt =
    idt_set_all wrappers count (suc i) (idt_set i (wrappers i) idt)

-- The descriptor table that `idt_init` sets up, where int80h is the entry of the system calls.
pub idt_entries : (ℕ → ℕ) → ℕ → ℕ → IdtEntry
idt_entries wrappers int80h = idt_set 0x80 int80h (idt_set_all wrappers num_interrupts 0 cleared)
  where
    cleared : ℕ → IdtEntry
    cleared i = record { base_lo = 0; sel = 0; always0 = 0; flags = 0; base_hi = 0 }

pub out_of_range : ℤ → ℕ → Bool
out_of_range i limit = is_neg i || leb limit (pos_part i)

module _ {Handler : Type 0} where
  -- `idt_register_interrupt_call_back`: the result and the call backs.
  pub idt_register_interrupt_call_back :
      ℤ → Option Handler → (ℕ → Option Handler) → ℤ × (ℕ → Option Handler)
  idt_register_interrupt_call_back interrupt_no call_back call_backs =
      if out_of_range interrupt_no num_interrupts || not (is_some call_back)
      then (neg 2, call_backs)
      else (pos 0, update call_backs (pos_part interrupt_no) call_back)

  -- The loop of `idt_init` that registers the exceptions.
  pub register_exceptions : Handler → ℕ → ℕ → (ℕ → Option Handler) → ℕ → Option Handler
  register_exceptions exception zero i call_backs = call_backs
  register_exceptions exception (suc count) i call_backs =
      let (res, call_backs') =
        idt_register_interrupt_call_back (pos i) (some exception) call_backs in
      register_exceptions exception count (suc i) call_backs'

  -- The call backs after `idt_init`.
  pub idt_call_backs : Handler → Handler → ℕ → Option Handler
  idt_call_backs exception clock =
      let (res, call_backs) =
        idt_register_interrupt_call_back (pos 0x20) (some clock)
          (register_exceptions exception 0x20 0 (λ _. none)) in
      call_backs

  -- `syscall_register_command`: the table, none where the kernel panics.
  pub syscall_register_command :
      ℤ → Option Handler → (ℕ → Option Handler) → Option (ℕ → Option Handler)
  syscall_register_command command_num handler sys_calls =
      if out_of_range command_num num_sys_calls
      then none
      else if is_some (sys_calls (pos_part command_num))
      then none
      else some (update sys_calls (pos_part command_num) handler)

  -- `syscall_handle_command`: the handler that runs, none where -SYSCALL_NOT_IMPLEMENTED is
  -- returned.
  pub syscall_handle_command : ℤ → (ℕ → Option Handler) → Option Handler
  syscall_handle_command command sys_calls =
      if out_of_range command num_sys_calls then none else sys_calls (pos_part command)

  -- `interrupt_handler`: the call back that runs; none where the interrupt is acknowledged instead.
  pub interrupt_handler : ℕ → (ℕ → Option Handler) → Option Handler
  interrupt_handler interrupt_no call_backs = call_backs interrupt_no

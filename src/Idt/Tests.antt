-- ===== src/Idt/Tests.antt =====
-- Tables of numbers for handlers.
use amog_os.Base.{ℕ, ◌≡◌, ◌≢◌, refl, Option, none, some, arith}
use amog_os.Base.Int.{ℤ, pos, pos_part}
use amog_os.Base.Memory.{update}
use amog_os.Idt.{
  idt_entries, idt_call_backs, syscall_register_command, syscall_handle_command, out_of_range,
}
use amog_os.Idt.Dispatch.{IsGate, idt_entries_lem, idt_call_backs_lem, syscall_register-handle}

abbrev unused : ℕ → Option ℕ
unused c = none

abbrev one_call : ℕ → Option ℕ
one_call = update unused 5 (some 11)

gates_of_start : IsGate (idt_entries (λ i. 0x10000) 0x20000 0x80) 0x20000
gates_of_start =
    idt_entries_lem (λ i. 0x10000) 0x20000 0x80 (λ k. omega arith) (omega arith) (omega arith)

call_backs_of_start : idt_call_backs {Handler = ℕ} 7 9 0x20 ≡ some 9
call_backs_of_start = idt_call_backs_lem 7 9 0x20

accepted : syscall_register_command {Handler = ℕ} (pos 5) (some 11) unused ≡ some one_call
unfolding syscall_register_command out_of_range
accepted = refl

call_accepted :
    (syscall_handle_command (pos 5) unused ≡ none)
    × (syscall_handle_command (pos 5) one_call ≡ some 11)
    × ((c : ℤ)
        → pos_part c ≢ 5
        → syscall_handle_command c one_call ≡ syscall_handle_command c unused)
call_accepted = syscall_register-handle (pos 5) 11 unused one_call accepted

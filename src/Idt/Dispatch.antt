-- ===== src/Idt/Dispatch.antt =====
-- What runs on an interrupt and on a system call.
use amog_os.Base.{
  ℕ, zero, suc, ◌+◌, ◌*◌, ◌^◌, ◌<◌, ◌≤◌, ◌≡◌, ◌≢◌, refl, Option, none, some, false, ◌||◌, ◌&&◌, ltb,
  leb, ◌==◌, if◌then◌else◌, arith, ap, sym, ◌∙◌, ℕ_discrete,
}
use amog_os.Base.Int.{ℤ, pos, negsuc, is_neg, pos_part}
use amog_os.Base.Memory.{update, update_self, update_ne}
use amog_os.Base.Bits.{bit_and_65535, bit_and-high_half}
use amog_os.Idt.{
  IdtEntry, idt_set, idt_set_all, idt_entries, num_interrupts, num_sys_calls, out_of_range,
  idt_register_interrupt_call_back, register_exceptions, idt_call_backs, syscall_register_command,
  syscall_handle_command,
}

-- The processor jumps to `addr`, in the kernel's code segment, from any ring.
pub record IsGate (entry : IdtEntry) (addr : ℕ) : Type 0 where
  pub base : entry.base_lo + entry.base_hi * 2 ^ 16 ≡ addr
  pub low : entry.base_lo < 2 ^ 16
  pub sel : entry.sel ≡ 8
  pub always0 : entry.always0 ≡ 0
  pub flags : entry.flags ≡ 0xEE

idt_set-IsGate :
    (addr i : ℕ) (idt : ℕ → IdtEntry) → addr < 2 ^ 32 → IsGate (idt_set i addr idt i) addr
unfolding idt_set
idt_set-IsGate addr i idt lt = rw (update_self idt i _) (record {
  base = omega (arith, bit_and_65535 addr, bit_and-high_half addr lt);
  low = omega (arith, bit_and_65535 addr);
  sel = refl;
  always0 = refl;
  flags = refl;
})

others : (addr i j : ℕ) (idt : ℕ → IdtEntry) → i ≢ j → idt_set i addr idt j ≡ idt j
unfolding idt_set
others addr i j idt ne = update_ne idt i j _ ne

set_all-others :
    (wrappers : ℕ → ℕ) (count i j : ℕ) (idt : ℕ → IdtEntry)
    → j < i
    → idt_set_all wrappers count i idt j ≡ idt j
unfolding idt_set_all
set_all-others wrappers zero i j idt lt = refl
set_all-others wrappers (suc count) i j idt lt =
    set_all-others wrappers count (suc i) j _ (omega arith)
    ∙ others (wrappers i) i j idt (omega arith)

set_all-IsGate :
    (wrappers : ℕ → ℕ) (count i j : ℕ) (idt : ℕ → IdtEntry)
    → ((k : ℕ) → wrappers k < 2 ^ 32)
    → i ≤ j
    → j < i + count
    → IsGate (idt_set_all wrappers count i idt j) (wrappers j)
unfolding idt_set_all
set_all-IsGate wrappers zero i j idt words ge lt = absurd (omega arith)
set_all-IsGate wrappers (suc count) i j idt words ge lt = elim (ℕ_discrete i j) [
  | yes here ↦ rw (sym here) (
      rw (set_all-others wrappers count (suc i) i (idt_set i (wrappers i) idt) (omega arith))
        (idt_set-IsGate (wrappers i) i idt (words i)))
  | no before ↦ set_all-IsGate wrappers count (suc i) j _ words (omega arith) (omega arith)
]

-- When all handlers are words, the entry 0x80 after `idt_init` is a gate to the system calls, and
-- every other entry below 512 is a gate to the wrapper of its number.
pub idt_entries_lem :
    (wrappers : ℕ → ℕ) (int80h j : ℕ)
    → ((k : ℕ) → wrappers k < 2 ^ 32)
    → int80h < 2 ^ 32
    → j < num_interrupts
    → IsGate (idt_entries wrappers int80h j) (if j == 0x80 then int80h else wrappers j)
unfolding idt_entries
idt_entries_lem wrappers int80h j words word lt = elim (ℕ_discrete 0x80 j) [
  | yes here ↦ rw (sym here) (idt_set-IsGate int80h 0x80 _ word)
  | no other ↦
      let e : (j == 0x80) ≡ false = ground arith in
      rw e (
        rw (others int80h 0x80 j _ other)
          (set_all-IsGate wrappers num_interrupts 0 j _ words (omega arith) lt))
]

module _ {Handler : Type 0} where
  registered :
      (h : Handler) (i : ℕ) (call_backs : ℕ → Option Handler)
      → i < num_interrupts
      → (idt_register_interrupt_call_back (pos i) (some h) call_backs).1
        ≡ update call_backs i (some h)
  unfolding idt_register_interrupt_call_back out_of_range
  registered h i call_backs lt = let e : leb num_interrupts i ≡ false = ground arith in rw e refl

  exceptions_lem :
      (exception : Handler) (count i j : ℕ) (call_backs : ℕ → Option Handler)
      → i + count ≤ num_interrupts
      → register_exceptions exception count i call_backs j
        ≡ (if leb i j && ltb j (i + count) then some exception else call_backs j)
  unfolding register_exceptions
  exceptions_lem exception zero i j call_backs le = ground arith
  exceptions_lem exception (suc count) i j call_backs le =
      rw (registered exception i call_backs (omega arith)) (
        exceptions_lem exception count (suc i) j (update call_backs i (some exception))
          (omega arith)
        ∙ ground arith)

  -- After `idt_init` an exception ends the process, the clock switches tasks, and nothing else is
  -- handled.
  pub idt_call_backs_lem :
      (exception clock : Handler) (j : ℕ)
      → idt_call_backs exception clock j
        ≡ (if ltb j 0x20 then some exception else if j == 0x20 then some clock else none)
  unfolding idt_call_backs
  idt_call_backs_lem exception clock j =
      rw (registered clock 0x20 (register_exceptions exception 0x20 0 (λ _. none)) (omega arith))
        (ground (arith, exceptions_lem exception 0x20 0 j (λ _. none) (omega arith)))

  -- The slot before a registration decides about it.
  slot_lem :
      (n : ℕ) (h : Handler) (sys_calls table : ℕ → Option Handler) (slot : Option Handler)
      → sys_calls n ≡ slot
      → n < num_sys_calls
      → syscall_register_command (pos n) (some h) sys_calls ≡ some table
      → (slot ≡ none) × (table ≡ update sys_calls n (some h))
  unfolding syscall_register_command out_of_range
  slot_lem n h sys_calls table none q lt e =
      let r : leb num_sys_calls n ≡ false = ground arith in (refl, ground (arith, r, q, e))
  slot_lem n h sys_calls table (some g) q lt e =
      let r : leb num_sys_calls n ≡ false = ground arith in absurd (ground (arith, r, q, e))

  -- A registration that the kernel accepts, whatever the number: it is in range and was free, the
  -- handler runs on that number from now on, and all other numbers run what they ran before.
  pub syscall_register-handle :
      (command : ℤ) (h : Handler) (sys_calls table : ℕ → Option Handler)
      → syscall_register_command command (some h) sys_calls ≡ some table
      → (syscall_handle_command command sys_calls ≡ none)
        × (syscall_handle_command command table ≡ some h)
        × ((c : ℤ)
            → pos_part c ≢ pos_part command
            → syscall_handle_command c table ≡ syscall_handle_command c sys_calls)
  unfolding syscall_handle_command syscall_register_command out_of_range
  syscall_register-handle (negsuc n) h sys_calls table e = absurd (ground (arith, e))
  syscall_register-handle (pos n) h sys_calls table e =
      let lt : n < num_sys_calls = ground (arith, e) in
      let r : leb num_sys_calls n ≡ false = ground arith in
      let (free, q) = slot_lem n h sys_calls table (sys_calls n) refl lt e in
      rw q (
        rw r (
          free,
          update_self sys_calls n (some h),
          λ c ne.
              ap (λ t. if is_neg c || leb 64 (pos_part c) then none else t)
                (update_ne sys_calls n (pos_part c) (some h) (λ p. ne (sym p))),
        ))

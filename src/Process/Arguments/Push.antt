-- ===== src/Process/Arguments/Push.antt =====
-- What a program finds on its stack when it starts: `argc` and `argv`.
use amog_os.Process.Arguments.Layout.{phys, ArePointers, Pointers-frame, Pointers-ArePointers}
use amog_os.Base.{
  ℕ, ◌+◌, ◌-◌, ◌*◌, ◌^◌, ◌<◌, ◌≤◌, ◌≡◌, ◌⊎◌, inl, inr, refl, sym, subst, ◌∙◌, List, length, arith,
}
use amog_os.Base.Int.{pos}
use amog_os.Base.Words.{sub32}
use amog_os.Base.Bytes.{
  read_word, write_word, write_word-frame, read_word-write_word, read_word-cong,
}
use amog_os.Process.{proc_can_start}
use amog_os.Process.Arguments.{
  Launch, returns, push_argc_argv, default_user_stack_start, default_user_stack_size,
}
use amog_os.Base.Holds.{Holds, Holds-frame}
use amog_os.Process.Arguments.Pointers.{join, Pointers}

-- The stack pointer of `p` points to the number of the arguments `ws` and behind it to their array.
pub record IsLaunched (stack_paddr : ℕ) (ws : List (List ℕ)) (p : Launch) : Type 0 where
  pub argc : read_word p.memory (phys stack_paddr p.esp) ≡ length ws
  pub argv : read_word p.memory (phys stack_paddr (p.esp + 4)) ≡ p.esp + 8
  pub strings : ArePointers p.memory stack_paddr (phys stack_paddr (p.esp + 8)) ws
  pub status : p.status ≡ proc_can_start

pub push_argc_argv-IsLaunched :
    (sp ptrs va a esp : ℕ) (ws : List (List ℕ)) (mem : ℕ → ℕ)
    → Pointers mem ptrs 0 va ws
    → Holds mem a (join ws)
    → ptrs ≤ a
    → phys sp va ≡ a
    → phys sp esp ≡ ptrs
    → default_user_stack_start - default_user_stack_size + 8 ≤ esp
    → esp ≤ va
    → esp < 2 ^ 32
    → ptrs < 2 ^ 32
    → length ws < 2 ^ 32
    → (p' : Launch) × (push_argc_argv (length ws) ptrs esp esp mem ≡ returns (pos 0) p')
      × IsLaunched sp ws p'
      × (p'.esp + 8 ≡ esp)
      × ((j : ℕ) → (j < ptrs - 8) ⊎ (ptrs ≤ j) → p'.memory j ≡ mem j)
unfolding push_argc_argv
push_argc_argv-IsLaunched sp ptrs va a esp ws mem p h le e e' ge le' lt lt' n =
    let s₁ : sub32 ptrs 4 ≡ ptrs - 4 = omega arith in
    let s₂ : sub32 (ptrs - 4) 4 ≡ ptrs - 8 = omega arith in
    let s₃ : sub32 esp 8 ≡ esp - 8 = omega arith in
    let mem₁ = write_word mem (ptrs - 4) esp in
    let mem₂ = write_word mem₁ (ptrs - 8) (length ws) in
    let p' : Launch = record { memory = mem₂; esp = esp - 8; status = proc_can_start } in
    let frame : (j : ℕ) → (j < ptrs - 8) ⊎ (ptrs ≤ j) → mem₂ j ≡ mem j = λ j out.
      write_word-frame mem₁ (ptrs - 8) (length ws) j
        (elim out [ inl x ↦ inl x | inr x ↦ inr (omega arith) ])
      ∙ write_word-frame mem (ptrs - 4) esp j
          (elim out [ inl x ↦ inl (omega arith) | inr x ↦ inr (omega arith) ]) in
    let argc_at : phys sp (esp - 8) ≡ ptrs - 8 = omega arith in
    let argv_at : phys sp (esp - 8 + 4) ≡ ptrs - 4 = omega arith in
    let back : esp - 8 + 8 ≡ esp = omega arith in
    let at : ptrs + 4 * 0 ≡ ptrs = omega arith in
    let argv_word =
      read_word-cong mem₁ mem₂ (ptrs - 4)
        (λ j x y. write_word-frame mem₁ (ptrs - 8) (length ws) j (inr (omega arith)))
      ∙ read_word-write_word mem (ptrs - 4) esp lt in
    let pointers = Pointers-frame mem mem₂ ptrs 0 va ws (λ j x. frame j (inr (omega arith))) p in
    let strings =
      Pointers-ArePointers mem₂ sp ptrs 0 va a ws pointers
        (Holds-frame mem mem₂ a (join ws) (λ j x. frame j (inr (omega arith))) h) (omega arith) e in
    let place : ptrs + 4 * 0 ≡ phys sp (esp - 8 + 8) = omega arith in
    (
      p',
      rw s₁ (rw (s₂, s₃) refl),
      record {
        argc = rw argc_at (read_word-write_word mem₁ (ptrs - 8) (length ws) n);
        argv = rw argv_at (argv_word ∙ sym back);
        strings = subst (λ (n : ℕ). ArePointers mem₂ sp n ws) place strings;
        status = refl;
      },
      back,
      frame,
    )

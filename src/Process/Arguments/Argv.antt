-- ===== src/Process/Arguments/Argv.antt =====
-- `process_add_arguments` as a whole.
use amog_os.Process.Arguments.Push.{IsLaunched, push_argc_argv-IsLaunched}
use amog_os.Process.Arguments.Layout.{phys, memcpy_at-Holds, memcpy_at-frame}
use amog_os.Base.{
  ℕ, ◌+◌, ◌-◌, ◌*◌, ◌^◌, ◌<◌, ◌≤◌, ◌≡◌, ◌⊎◌, inl, inr, refl, subst, ap, ◌∙◌, List, ◌∷◌, some, true,
  false, length, ltb, ◌==◌, arith,
}
use amog_os.Base.Int.{pos}
use amog_os.Base.Words.{add32, sub32, mul32}
use amog_os.Base.Bytes.{
  read_word, write_word, write_word-frame, read_word-write_word, read_word-cong,
}
use amog_os.CString.{Str}
use amog_os.Process.{is_creating}
use amog_os.Process.Arguments.{
  Launch, returns, memcpy_at, set_pointers, push_argc_argv, process_add_arguments,
  default_user_stack_start, default_user_stack_size,
}
use amog_os.Base.Holds.{Holds, Holds-frame}
use amog_os.Process.Arguments.Pointers.{join, AreWords, Pointers, set_pointers-Pointers}

process_add_arguments-run :
    (fuel uninit sp argc len : ℕ) (args : Str) (p : Launch) (a va ptrs esp : ℕ) (mem : ℕ → ℕ)
    → is_creating p.status ≡ true
    → 0 < argc
    → 4 * argc + len ≤ default_user_stack_size
    → sub32 (add32 sp default_user_stack_size) len ≡ a
    → sub32 p.esp len ≡ va
    → sub32 a (mul32 4 argc) ≡ ptrs
    → sub32 va (mul32 4 argc) ≡ esp
    → set_pointers fuel (argc - 1) 1 ptrs a va (write_word (memcpy_at p.memory a args len) ptrs va)
      ≡ some mem
    → process_add_arguments fuel uninit sp argc len args p ≡ push_argc_argv argc ptrs esp esp mem
unfolding process_add_arguments
process_add_arguments-run fuel uninit sp argc len args p a va ptrs esp mem c n room e₁ e₂ e₃ e₄ s =
    let r : ltb default_user_stack_size (add32 (mul32 4 argc) len) ≡ false = ground (arith, room) in
    let z : (argc == 0) ≡ false = ground (arith, n) in
    rw (c, r, z) (rw (e₁, e₂) (rw (e₃, e₄) (rw s refl)))

written :
    (fuel a va ptrs len : ℕ) (w : List ℕ) (ws : List (List ℕ)) (args : Str) (mem : ℕ → ℕ)
    → AreWords (w ∷ ws)
    → Holds args 0 (join (w ∷ ws))
    → length (join (w ∷ ws)) ≡ len
    → ptrs + 4 * length (w ∷ ws) ≡ a
    → a + len < 2 ^ 32
    → va + len < 2 ^ 32
    → len < fuel
    → (mem' : ℕ → ℕ) × (set_pointers fuel
          (length (w ∷ ws) - 1)
          1
          ptrs
          a
          va
          (write_word (memcpy_at mem a args len) ptrs va)
        ≡ some mem')
      × Pointers mem' ptrs 0 va (w ∷ ws)
      × Holds mem' a (join (w ∷ ws))
      × ((j : ℕ) → (j < ptrs) ⊎ (a + len ≤ j) → mem' j ≡ mem j)
written fuel a va ptrs len w ws args mem nz h l p x y f =
    let mem₁ = memcpy_at mem a args len in
    let mem₂ = write_word mem₁ ptrs va in
    let zero_at : a + 0 ≡ a = omega arith in
    let copied =
      subst (λ (n : ℕ). Holds mem₁ n (join (w ∷ ws))) zero_at
        (memcpy_at-Holds mem a args len 0 (join (w ∷ ws)) h (omega arith)) in
    let kept =
      Holds-frame mem₁ mem₂ a (join (w ∷ ws))
        (λ j x. write_word-frame mem₁ ptrs va j (inr (omega arith))) copied in
    let (mem₃, s, rest) =
      set_pointers-Pointers fuel 1 ptrs a va w ws mem₂ nz kept (omega arith) (omega arith)
        (omega arith) (omega arith) in
    let first_at : ptrs + 4 * 0 ≡ ptrs = omega arith in
    let first =
      read_word-cong mem₂ mem₃ ptrs (λ j x y. s.frame j (inl (omega arith)))
      ∙ read_word-write_word mem₁ ptrs va (omega arith) in
    let held =
      Holds-frame mem₂ mem₃ a (join (w ∷ ws)) (λ j x. s.frame j (inr (omega arith))) kept in
    let pre : length ws ≡ length (w ∷ ws) - 1 = omega arith in
    (
      mem₃,
      subst (λ (n : ℕ). set_pointers fuel n 1 ptrs a va mem₂ ≡ some mem₃) pre s.ends,
      (ap (read_word mem₃) first_at ∙ first, rest),
      held,
      λ j out. elim out [
        | inl lt ↦
            s.frame j (inl (omega arith))
            ∙ write_word-frame mem₁ ptrs va j (inl lt)
            ∙ memcpy_at-frame mem a args len j (inl (omega arith))
        | inr ge ↦
            s.frame j (inr (omega arith))
            ∙ write_word-frame mem₁ ptrs va j (inr (omega arith))
            ∙ memcpy_at-frame mem a args len j (inr ge)
      ],
    )

process_add_arguments-at :
    (fuel uninit stack_paddr a va ptrs esp len : ℕ) (w : List ℕ) (ws : List (List ℕ)) (args : Str)
    (p : Launch)
    → is_creating p.status ≡ true
    → p.esp ≡ default_user_stack_start
    → stack_paddr + default_user_stack_size < 2 ^ 32
    → AreWords (w ∷ ws)
    → Holds args 0 (join (w ∷ ws))
    → len + 4 * length (w ∷ ws) + 8 ≤ default_user_stack_size
    → len < fuel
    → length (join (w ∷ ws)) ≡ len
    → a + len ≡ stack_paddr + default_user_stack_size
    → va + len ≡ default_user_stack_start
    → ptrs + 4 * length (w ∷ ws) ≡ a
    → esp + 4 * length (w ∷ ws) ≡ va
    → (p' : Launch) × (process_add_arguments fuel uninit stack_paddr (length (w ∷ ws)) len args p
        ≡ returns (pos 0) p')
      × IsLaunched stack_paddr (w ∷ ws) p'
      × (p'.esp + 8 ≡ esp)
      × ((j : ℕ)
          → (j < ptrs - 8) ⊎ (stack_paddr + default_user_stack_size ≤ j)
          → p'.memory j ≡ p.memory j)
process_add_arguments-at fuel uninit sp a va ptrs esp len w ws args p c start low nz h room f l e₁
      e₂ e₃ e₄ =
    let (mem, ends, pointers, held, same) =
      written fuel a va ptrs len w ws args p.memory nz h l e₃ (omega arith) (omega arith) f in
    let (p', run, launched, back, frame) =
      push_argc_argv-IsLaunched sp ptrs va a esp (w ∷ ws) mem pointers held (omega arith)
        (omega arith) (omega arith) (omega arith) (omega arith) (omega arith) (omega arith)
        (omega arith) in
    let runs =
      process_add_arguments-run fuel uninit sp (length (w ∷ ws)) len args p a va ptrs esp mem c
        (omega arith) (omega arith) (omega arith) (rw start (omega arith)) (omega arith)
        (omega arith) ends in
    (
      p',
      runs ∙ run,
      launched,
      back,
      λ j out. elim out [
        | inl lt ↦ frame j (inl lt) ∙ same j (inl (omega arith))
        | inr ge ↦ frame j (inr (omega arith)) ∙ same j (inr (omega arith))
      ],
    )

-- A process is being created, its stack pointer is at the top of its stack, and its `argc`
-- arguments, at least one, lie in `args` one behind the other, each with its NUL, `len` bytes in
-- all; the stack has room for them, for the pointers to them and for the 8 bytes of `argc` and
-- `argv`, and the fuel is more than `len`. Then `process_add_arguments` ends with success and the
-- program may start: it finds the number of its arguments at its stack pointer, behind it the
-- address of an array, and in this array, in order, pointers to the arguments as C strings, all
-- through the mapping of the stack; no byte outside the part of the stack in use has changed.
pub process_add_arguments_lem :
    (fuel uninit stack_paddr : ℕ) (w : List ℕ) (ws : List (List ℕ)) (args : Str) (p : Launch)
    → is_creating p.status ≡ true
    → p.esp ≡ default_user_stack_start
    → stack_paddr + default_user_stack_size < 2 ^ 32
    → AreWords (w ∷ ws)
    → Holds args 0 (join (w ∷ ws))
    → length (join (w ∷ ws)) + 4 * length (w ∷ ws) + 8 ≤ default_user_stack_size
    → length (join (w ∷ ws)) < fuel
    → (p' : Launch) × (process_add_arguments fuel uninit stack_paddr
          (length (w ∷ ws))
          (length (join (w ∷ ws)))
          args
          p
        ≡ returns (pos 0) p')
      × IsLaunched stack_paddr (w ∷ ws) p'
      × (p'.esp + (length (join (w ∷ ws)) + 4 * length (w ∷ ws) + 8) ≡ default_user_stack_start)
      × ((j : ℕ)
          → (j < phys stack_paddr p'.esp) ⊎ (stack_paddr + default_user_stack_size ≤ j)
          → p'.memory j ≡ p.memory j)
process_add_arguments_lem fuel uninit sp w ws args p c start low nz h room f =
    let len = length (join (w ∷ ws)) in
    let argc = length (w ∷ ws) in
    let (p', run, launched, back, frame) =
      process_add_arguments-at fuel uninit sp (sp + default_user_stack_size - len)
        (default_user_stack_start - len) (sp + default_user_stack_size - len - 4 * argc)
        (default_user_stack_start - len - 4 * argc) len w ws args p c start low nz h room f refl
        (omega arith) (omega arith) (omega arith) (omega arith) in
    (
      p',
      run,
      launched,
      omega (arith, back),
      λ j out. frame j (elim out [ inl x ↦ inl (omega (arith, x, back)) | inr x ↦ inr x ]),
    )

-- ===== src/Process/Arguments/Tests.antt =====
-- The arguments that the kernel gives the shell (src/kernel.c).
use amog_os.Base.{ℕ, ◌+◌, ◌<◌, ◌≤◌, ◌≡◌, ◌⊎◌, refl, List, [], ◌∷◌, get_or, arith}
use amog_os.Base.Int.{pos}
use amog_os.Process.{proc_creating}
use amog_os.Process.Arguments.{
  Launch, returns, process_add_arguments, default_user_stack_start, default_user_stack_size,
}
use amog_os.Process.Arguments.Pointers.{join}
use amog_os.Process.Arguments.Layout.{phys}
use amog_os.Process.Arguments.Push.{IsLaunched}
use amog_os.Process.Arguments.Argv.{process_add_arguments_lem}

abbrev name : List ℕ
name = b'0' ∷ b':' ∷ b'/' ∷ b's' ∷ b'h' ∷ b'e' ∷ b'l' ∷ b'l' ∷ []

abbrev words : List (List ℕ)
words =
    (b'A' ∷ b'm' ∷ b'o' ∷ b'g' ∷ b'o' ∷ b's' ∷ []) ∷ (b'S' ∷ b'h' ∷ b'e' ∷ b'l' ∷ b'l' ∷ []) ∷ []

abbrev created : Launch
created = record { memory = λ a. 0; esp = default_user_stack_start; status = proc_creating }

process_add_arguments_lem_example :
    (p' : Launch) × (process_add_arguments 100 0 0x1000000 3 22
        (λ k. get_or (join (name ∷ words)) k 0)
        created
      ≡ returns (pos 0) p')
    × IsLaunched 0x1000000 (name ∷ words) p'
    × (p'.esp + 42 ≡ default_user_stack_start)
    × ((j : ℕ)
        → (j < phys 0x1000000 p'.esp) ⊎ (0x1000000 + default_user_stack_size ≤ j)
        → p'.memory j ≡ created.memory j)
process_add_arguments_lem_example =
    process_add_arguments_lem 100 0 0x1000000 name words (λ k. get_or (join (name ∷ words)) k 0)
      created refl refl (omega arith)
      (
        (
          (λ e. absurd (omega (arith, e))),
          (
            (λ e. absurd (omega (arith, e))),
            (
              (λ e. absurd (omega (arith, e))),
              (
                (λ e. absurd (omega (arith, e))),
                (
                  (λ e. absurd (omega (arith, e))),
                  (
                    (λ e. absurd (omega (arith, e))),
                    ((λ e. absurd (omega (arith, e))), ((λ e. absurd (omega (arith, e))), tt)),
                  ),
                ),
              ),
            ),
          ),
        ),
        (
          (
            (λ e. absurd (omega (arith, e))),
            (
              (λ e. absurd (omega (arith, e))),
              (
                (λ e. absurd (omega (arith, e))),
                (
                  (λ e. absurd (omega (arith, e))),
                  ((λ e. absurd (omega (arith, e))), ((λ e. absurd (omega (arith, e))), tt)),
                ),
              ),
            ),
          ),
          (
            (
              (λ e. absurd (omega (arith, e))),
              (
                (λ e. absurd (omega (arith, e))),
                (
                  (λ e. absurd (omega (arith, e))),
                  ((λ e. absurd (omega (arith, e))), ((λ e. absurd (omega (arith, e))), tt)),
                ),
              ),
            ),
            tt,
          ),
        ),
      )
      (
        refl,
        (
          refl,
          (
            refl,
            (
              refl,
              (
                refl,
                (
                  refl,
                  (
                    refl,
                    (
                      refl,
                      (
                        refl,
                        (
                          refl,
                          (
                            refl,
                            (
                              refl,
                              (
                                refl,
                                (
                                  refl,
                                  (
                                    refl,
                                    (refl, (refl, (refl, (refl, (refl, (refl, (refl, tt))))))),
                                  ),
                                ),
                              ),
                            ),
                          ),
                        ),
                      ),
                    ),
                  ),
                ),
              ),
            ),
          ),
        ),
      )
      (omega arith) (omega arith)

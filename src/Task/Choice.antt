-- ===== src/Task/Choice.antt =====
-- Which task runs next.
use amog_os.Base.{
  ℕ, zero, suc, ◌<◌, ◌≡◌, ◌≢◌, refl, ap, ◌∙◌, List, [], ◌∷◌, length, Option, none, some, true,
  false, ◌==◌, ◌||◌, if◌then◌else◌, arith, Bool-cases, inl, inr,
}
use amog_os.Task.{
  Task, Scheduler, panics, loops, is_ready, task_get_next, make_ready, task_switch_and_run,
  run_first, task_switch_and_run_any, find_next, task_switch_to_next_and_run,
}

abbrev pub first : List ℕ → ℕ
first [] = 0
first (p ∷ ps) = p

-- The tasks `ps`, linked in this order.
unfoldable pub Linked : (ℕ → Task) → List ℕ → Type 0
Linked tasks [] = Unit
Linked tasks (p ∷ ps) = (p ≢ 0) × ((tasks p).next ≡ first ps) × Linked tasks ps

-- The first ready task of a list.
unfoldable pub first_ready : (ℕ → Task) → List ℕ → Option ℕ
first_ready tasks [] = none
first_ready tasks (p ∷ ps) = if is_ready (tasks p).state then some p else first_ready tasks ps

run_first_lem :
    (s : Scheduler) (ps : List ℕ) (fuel : ℕ)
    → Linked s.tasks ps
    → length ps < fuel
    → run_first fuel (first ps) s
      ≡ elim (first_ready s.tasks ps) [ none ↦ panics | some p ↦ task_switch_and_run p s ]
unfolding run_first Linked first_ready
run_first_lem s ps zero l lt = absurd (omega arith)
run_first_lem s [] (suc fuel) l lt = refl
run_first_lem s (p ∷ ps) (suc fuel) l lt =
    let z : (p == 0) ≡ false = ground (arith, l.0) in
    elim (Bool-cases (is_ready (s.tasks p).state)) [
      | inl r ↦ rw z (rw r refl)
      | inr n ↦
          rw z (rw n (ap (λ q. run_first fuel q s) l.1 ∙ run_first_lem s ps fuel l.2 (omega arith)))
    ]

-- When the tasks `ps` are linked in this order from the head of the list, then with more fuel than
-- there are tasks `task_switch_and_run_any` ends: it switches to the first ready task of the list,
-- and panics if none is ready.
pub task_switch_and_run_any_lem :
    (s : Scheduler) (ps : List ℕ) (fuel : ℕ)
    → Linked s.tasks ps
    → s.head ≡ first ps
    → length ps < fuel
    → task_switch_and_run_any fuel s
      ≡ elim (first_ready s.tasks ps) [ none ↦ panics | some p ↦ task_switch_and_run p s ]
unfolding task_switch_and_run_any
task_switch_and_run_any_lem s ps fuel l h lt =
    ap (λ p. run_first fuel p s) h ∙ run_first_lem s ps fuel l lt

stuck :
    (fuel start : ℕ) (s : Scheduler)
    → task_get_next s ≢ start
    → is_ready (s.tasks (task_get_next s)).state ≡ false
    → find_next fuel start (task_get_next s) s ≡ none
unfolding find_next
stuck zero start s ne b = refl
stuck (suc fuel) start s ne b =
    let z : (task_get_next s == start) ≡ false = ground (arith, ne) in
    rw z (rw b (stuck fuel start s ne b))

chosen_same :
    (fuel start : ℕ) (s : Scheduler)
    → (task_get_next s == start) ≡ true
    → find_next (suc fuel) start (task_get_next s) s ≡ some (task_get_next s)
unfolding find_next
chosen_same fuel start s e = rw e refl

chosen_ready :
    (fuel start : ℕ) (s : Scheduler)
    → (task_get_next s == start) ≡ false
    → is_ready (s.tasks (task_get_next s)).state ≡ true
    → find_next (suc fuel) start (task_get_next s) s ≡ some (task_get_next s)
unfolding find_next
chosen_ready fuel start s e r = rw e (rw r refl)

-- One round of the loop decides: when the next task is neither the current one nor ready, the loop
-- looks at it again in every round.
pub one_round :
    (s : Scheduler) (fuel : ℕ)
    → s.curr_task ≢ 0
    → task_switch_to_next_and_run (suc fuel) s ≡ (
        if task_get_next (make_ready s) == s.curr_task
          || is_ready ((make_ready s).tasks (task_get_next (make_ready s))).state
        then task_switch_and_run (task_get_next (make_ready s)) (make_ready s)
        else loops)
unfolding task_switch_to_next_and_run
one_round s fuel ne =
    let z : (s.curr_task == 0) ≡ false = ground (arith, ne) in
    let next = task_get_next (make_ready s) in
    rw z (elim (Bool-cases (next == s.curr_task)) [
      | inl same ↦ rw (chosen_same fuel s.curr_task (make_ready s) same) (rw same refl)
      | inr other ↦ elim (Bool-cases (is_ready ((make_ready s).tasks next).state)) [
        | inl r ↦ rw (chosen_ready fuel s.curr_task (make_ready s) other r) (rw other (rw r refl))
        | inr n ↦
            rw (stuck (suc fuel) s.curr_task (make_ready s) (ground (arith, other)) n)
              (rw other (rw n refl))
      ]
    ])

-- ===== src/Process/Manage/Exit.antt =====
-- Which task runs when a process has called exit.
use amog_os.Base.{
  ℕ, ◌<◌, ◌≡◌, refl, ap, ◌∙◌, List, [], ◌∷◌, ◌++◌, length, Option, none, some, true, false,
  if◌then◌else◌, ◌≢◌, ◌⊎◌, inl, inr, sym, subst, ◌==◌, arith, Bool-cases, Option-cases,
}
use amog_os.Base.Int.{ℤ}
use amog_os.Base.Memory.{update, update_self, update_ne}
use amog_os.Paging.Interface.{Allocator}
use amog_os.Process.Lifecycle.{System, address, process_exit}
use amog_os.Process.Lifecycle.Reap.{process_exit-IsList}
use amog_os.Process.Manage.{syscall_exit}
use amog_os.Task.Switch.{Runs, task_switch_and_run-Runs}
use amog_os.Task.{
  Task, Scheduler, Outcome, panics, is_ready, task_dead, set_task, task_switch_and_run,
}
use amog_os.Task.Segment.{Away, first_or}
use amog_os.Task.Unlink.{Distinct-split}
use amog_os.Task.Queue.{IsList}
use amog_os.Task.Segment
use amog_os.Task.Choice.{first, Linked, first_ready, task_switch_and_run_any_lem}

first-first_or : (ps : List ℕ) → first_or ps 0 ≡ first ps
first-first_or [] = refl
first-first_or (p ∷ ps) = refl

forward :
    (tasks : ℕ → Task) (prev : ℕ) (ps : List ℕ) → Segment.Linked tasks prev ps 0 → Linked tasks ps
unfolding Linked
forward tasks prev [] l = tt
forward tasks prev (p ∷ ps) l = (l.0, l.2 ∙ first-first_or ps, forward tasks p ps l.3)

-- Another task does not matter.
first_ready-update :
    (tasks : ℕ → Task) (p : ℕ) (t : Task) (ps : List ℕ)
    → Away p ps
    → first_ready (update tasks p t) ps ≡ first_ready tasks ps
unfolding first_ready
first_ready-update tasks p t [] x = refl
first_ready-update tasks p t (q ∷ ps) x = rw (update_ne tasks p q t x.0) (
    ap (λ (o : Option ℕ). if is_ready (tasks q).state then some q else o)
      (first_ready-update tasks p t ps x.1))

-- A task that is not ready is passed over.
first_ready-skip :
    (tasks : ℕ → Task) (p : ℕ) (t : Task) (xs ys : List ℕ)
    → Away p xs
    → Away p ys
    → is_ready t.state ≡ false
    → first_ready (update tasks p t) (xs ++ (p ∷ ys)) ≡ first_ready tasks (xs ++ ys)
unfolding first_ready
first_ready-skip tasks p t [] ys x y f =
    rw (update_self tasks p t) (rw f (first_ready-update tasks p t ys y))
first_ready-skip tasks p t (q ∷ xs) ys x y f = rw (update_ne tasks p q t x.0) (
    ap (λ (o : Option ℕ). if is_ready (tasks q).state then some q else o)
      (first_ready-skip tasks p t xs ys x.1 y f))

first_ready-some :
    (tasks : ℕ → Task) (ps : List ℕ) (q : ℕ)
    → Linked tasks ps
    → first_ready tasks ps ≡ some q
    → (q ≢ 0) × (is_ready (tasks q).state ≡ true)
unfolding Linked first_ready
first_ready-some tasks [] q l e = absurd (ground (arith, e))
first_ready-some tasks (p ∷ ps) q l e = elim (Bool-cases (is_ready (tasks p).state)) [
  | inl r ↦
      let e' : some p ≡ some q = ground (arith, e, r) in
      let same : p ≡ q = ground (arith, e') in
      (λ z. l.0 (same ∙ z), ap (λ (x : ℕ). is_ready (tasks x).state) (sym same) ∙ r)
  | inr n ↦
      let e' : first_ready tasks ps ≡ some q = ground (arith, e, n) in
      first_ready-some tasks ps q l.2 e'
]

module _ (a : Allocator) (kfree : ℕ → a.State → a.State) where
  -- The scheduler once the process has exited: its task is dead, and it can start no task.
  abbrev pub exited : ℕ → System a kfree → Scheduler
  exited i s =
      let p = (s.images i).task in
      record s.sched {
        tasks = update s.sched.tasks p (record (s.sched.tasks p) { state = task_dead });
        current_proc = (if address i == s.sched.current_proc then 0 else s.sched.current_proc);
        can_start = update s.sched.can_start (address i) false;
      }

  exit_choice :
      (fuel i : ℕ) (status : ℤ) (s : System a kfree) (xs ys : List ℕ)
      → IsList s.sched (xs ++ ((s.images i).task ∷ ys))
      → length (xs ++ ((s.images i).task ∷ ys)) < fuel
      → syscall_exit a kfree fuel i status s ≡ elim (first_ready s.sched.tasks (xs ++ ys)) [
        | none ↦ panics
        | some p ↦ task_switch_and_run p (process_exit a kfree i status s).sched
      ]
  unfolding syscall_exit process_exit set_task
  exit_choice fuel i status s xs ys l lt =
      let p = (s.images i).task in
      let dead : Task = record (s.sched.tasks p) { state = task_dead } in
      let s₁ = (process_exit a kfree i status s).sched in
      let l₁ = process_exit-IsList a kfree i status s (xs ++ (p ∷ ys)) l in
      let (distinct, x, y) = Distinct-split xs p ys l.distinct in
      let run : Option ℕ → Outcome =
        λ o. elim o [ none ↦ panics | some q ↦ task_switch_and_run q s₁ ] in
      task_switch_and_run_any_lem s₁ (xs ++ (p ∷ ys)) fuel
        (forward s₁.tasks 0 (xs ++ (p ∷ ys)) l₁.linked) (l₁.head ∙ first-first_or (xs ++ (p ∷ ys)))
        lt
      ∙ ap run (first_ready-skip s.sched.tasks p dead xs ys x y refl)

  -- For a process whose task is on the list of tasks, and more fuel than there are tasks: if none
  -- of the other tasks was ready before the call, exit panics. Otherwise let `q` be the first of
  -- them that was. If its process can start, and is not the one that exits, `q` runs: it is the
  -- current task, it is running, its process is the current one, and no other task changes but the
  -- one of the process that exits, which is dead, and the current task, which becomes ready if it
  -- was running. If its process cannot start, exit panics, even if other tasks are ready.
  pub syscall_exit_lem :
      (fuel i : ℕ) (status : ℤ) (s : System a kfree) (xs ys : List ℕ)
      → IsList s.sched (xs ++ ((s.images i).task ∷ ys))
      → length (xs ++ ((s.images i).task ∷ ys)) < fuel
      → let o = syscall_exit a kfree fuel i status s in
        ((first_ready s.sched.tasks (xs ++ ys) ≡ none) × (o ≡ panics))
        ⊎ ((q : ℕ) × (first_ready s.sched.tasks (xs ++ ys) ≡ some q) × Runs q (exited i s) o)
  unfolding process_exit set_task
  syscall_exit_lem fuel i status s xs ys l lt =
      let p = (s.images i).task in
      let dead : Task = record (s.sched.tasks p) { state = task_dead } in
      let s₁ = (process_exit a kfree i status s).sched in
      let l₁ = process_exit-IsList a kfree i status s (xs ++ (p ∷ ys)) l in
      let (distinct, x, y) = Distinct-split xs p ys l.distinct in
      let run = exit_choice fuel i status s xs ys l lt in
      elim (Option-cases (first_ready s.sched.tasks (xs ++ ys))) [
        | inl none_ready ↦ inl (none_ready, run ∙ rw none_ready refl)
        | inr (q, e) ↦
            let skip = first_ready-skip s.sched.tasks p dead xs ys x y refl in
            let (nz, r) =
              first_ready-some s₁.tasks (xs ++ (p ∷ ys)) q
                (forward s₁.tasks 0 (xs ++ (p ∷ ys)) l₁.linked) (skip ∙ e) in
            inr (
              q,
              e,
              subst (λ (o : Outcome). Runs q (exited i s) o) (sym (run ∙ rw e refl))
                  (task_switch_and_run-Runs q s₁ nz r),
            )
      ]

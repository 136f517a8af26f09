-- ===== src/Task/Switch.antt =====
-- What a switch to a ready task comes to.
use amog_os.Base.{
  Bool, ℕ, ◌≡◌, ◌≢◌, ◌⊎◌, inl, inr, refl, ap, ◌∙◌, sym, Bool-cases, true, false, ◌==◌, arith,
  if◌then◌else◌, ==-false, some, none, ℕ_discrete,
}
use amog_os.Base.Memory.{update, update_self, update_ne}
use amog_os.Task.{
  TaskState, Task, Scheduler, Outcome, runs, panics, is_running, is_ready, task_running,
  task_blocked, task_ready, task_dead, make_ready, set_task, task_switch, task_switch_and_run,
}

-- The task that ran until now waits for its next turn.
abbrev pub rested : Task → Task
rested t = if is_running t.state then (record t { state = task_ready }) else t

-- From `s` on the task `p` runs, and its process is the current one; the task that was the current
-- one rests, and no other task changes.
pub record IsSwitched (p : ℕ) (s s' : Scheduler) : Type 0 where
  pub current : s'.curr_task ≡ p
  pub process : s'.current_proc ≡ (s.tasks p).proc
  pub head : s'.head ≡ s.head
  pub tail : s'.tail ≡ s.tail
  pub running : s'.tasks p ≡ record (s.tasks p) { state = task_running }
  pub rests :
      s.curr_task ≢ 0 → s.curr_task ≢ p → s'.tasks s.curr_task ≡ rested (s.tasks s.curr_task)
  pub others : (q : ℕ) → q ≢ p → q ≢ s.curr_task → s'.tasks q ≡ s.tasks q

-- The outcome `o` is that `p` runs, if its process can start, and a panic if it cannot.
abbrev pub Runs : ℕ → Scheduler → Outcome → Type 0
Runs p s o =
    ((s.can_start (s.tasks p).proc ≡ true)
      × ((s' : Scheduler) × (o ≡ runs p s') × IsSwitched p s s'))
    ⊎ ((s.can_start (s.tasks p).proc ≡ false) × (o ≡ panics))

-- `s₁` is `s` once the current task rests.
pub record Rests (s s₁ : Scheduler) : Type 0 where
  pub curr : s₁.curr_task ≡ s.curr_task
  pub head : s₁.head ≡ s.head
  pub tail : s₁.tail ≡ s.tail
  pub can_start : s₁.can_start ≡ s.can_start
  pub rests : s.curr_task ≢ 0 → s₁.tasks s.curr_task ≡ rested (s.tasks s.curr_task)
  pub others : (q : ℕ) → q ≢ s.curr_task → s₁.tasks q ≡ s.tasks q

pub make_ready-Rests : (s : Scheduler) → Rests s (make_ready s)
unfolding make_ready set_task
make_ready-Rests s = elim (Bool-cases (is_running (s.tasks s.curr_task).state)) [
  | inl r ↦
      let t = record (s.tasks s.curr_task) { state = task_ready } in
      rw r (record {
        curr = refl;
        head = refl;
        tail = refl;
        can_start = refl;
        rests = λ nz. rw r (update_self s.tasks s.curr_task t);
        others = λ q ne. update_ne s.tasks s.curr_task q t (λ e. ne (sym e));
      })
  | inr n ↦ rw n (record {
    curr = refl;
    head = refl;
    tail = refl;
    can_start = refl;
    rests = λ nz. rw n refl;
    others = λ q ne. refl;
  })
]

Rests-none : (s : Scheduler) → s.curr_task ≡ 0 → Rests s s
Rests-none s z = record {
  curr = refl;
  head = refl;
  tail = refl;
  can_start = refl;
  rests = λ nz. absurd (nz z);
  others = λ q ne. refl;
}

rested_ready : (t : Task) → is_ready t.state ≡ true → rested t ≡ t
rested_ready t r = elim (Bool-cases (is_running t.state)) [
  | inl y ↦ absurd (both t.state y r)
  | inr n ↦ rw n refl
]
  where
    both : (st : TaskState) → is_running st ≡ true → is_ready st ≡ true → ⊥
    both task_running y r' = absurd (ground (arith, r'))
    both task_blocked y r' = absurd (ground (arith, r'))
    both task_ready y r' = absurd (ground (arith, y))
    both task_dead y r' = absurd (ground (arith, r'))

-- A ready task does not change.
Rests-ready :
    (s s₁ : Scheduler) (p : ℕ)
    → p ≢ 0
    → Rests s s₁
    → is_ready (s.tasks p).state ≡ true
    → s₁.tasks p ≡ s.tasks p
Rests-ready s s₁ p nz h r = elim (ℕ_discrete p s.curr_task) [
  | yes e ↦
      ap s₁.tasks e
      ∙ h.rests (λ z. nz (e ∙ z))
      ∙ rested_ready (s.tasks s.curr_task) (ap (λ (q : ℕ). is_ready (s.tasks q).state) (sym e) ∙ r)
      ∙ ap s.tasks (sym e)
  | no ne ↦ h.others p ne
]

-- The end of `task_switch`, in `s₁`.
finish : ℕ → Scheduler → Outcome
finish p s₁ =
    let s₂ =
      set_task p (record (s₁.tasks p) { state = task_running }) (record s₁ { curr_task = p }) in
    let proc = (s₂.tasks p).proc in
    elim (if s₂.can_start proc then some (record s₂ { current_proc = proc }) else none) [
      | none ↦ panics
      | some s' ↦ runs p s'
    ]

finish-Runs :
    (s s₁ : Scheduler) (p : ℕ) → Rests s s₁ → s₁.tasks p ≡ s.tasks p → Runs p s (finish p s₁)
unfolding finish set_task
finish-Runs s s₁ p h same =
    let t : Task = record (s₁.tasks p) { state = task_running } in
    let tasks₂ = update s₁.tasks p t in
    let here = update_self s₁.tasks p t in
    let proc : (tasks₂ p).proc ≡ (s.tasks p).proc =
      ap (λ (u : Task). u.proc) here ∙ ap (λ (u : Task). u.proc) same in
    let start : s₁.can_start (tasks₂ p).proc ≡ s.can_start (s.tasks p).proc =
      ap s₁.can_start proc ∙ ap (λ (f : ℕ → Bool). f (s.tasks p).proc) h.can_start in
    elim (Bool-cases (s.can_start (s.tasks p).proc)) [
      | inr n ↦ inr (n, rw (finish, start ∙ n) refl)
      | inl y ↦ inl (
        y,
        (
          record s₁ { curr_task = p; tasks = tasks₂; current_proc = (tasks₂ p).proc },
          rw (finish, start ∙ y) refl,
          record {
            current = refl;
            process = proc;
            head = h.head;
            tail = h.tail;
            running = here ∙ ap (λ (u : Task). record u { state = task_running }) same;
            rests = λ nz ne. update_ne s₁.tasks p s.curr_task t (λ e. ne (sym e)) ∙ h.rests nz;
            others = λ q np nc. update_ne s₁.tasks p q t (λ e. np (sym e)) ∙ h.others q nc;
          },
        ),
      )
    ]

-- A switch to a ready task.
pub task_switch_and_run-Runs :
    (p : ℕ) (s : Scheduler)
    → p ≢ 0
    → is_ready (s.tasks p).state ≡ true
    → Runs p s (task_switch_and_run p s)
unfolding task_switch_and_run task_switch finish
task_switch_and_run-Runs p s nz r = elim (ℕ_discrete s.curr_task 0) [
  | yes z ↦
      let t : (s.curr_task == 0) ≡ true = ground (arith, z) in
      rw r (rw t (finish-Runs s s p (Rests-none s z) refl))
  | no ne ↦
      let f = ==-false s.curr_task 0 ne in
      let h = make_ready-Rests s in
      rw r (rw f (finish-Runs s (make_ready s) p h (Rests-ready s (make_ready s) p nz h r)))
]

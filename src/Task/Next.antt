-- ===== src/Task/Next.antt =====
-- `task_switch_to_next_and_run` on the list of tasks.
use amog_os.Base.{
  Bool, subst, ℕ, suc, ◌≡◌, ◌≢◌, ◌⊎◌, inl, inr, refl, ap, ◌∙◌, sym, List, [], ◌∷◌, ◌++◌, Bool-cases,
  true, false, ◌==◌, ◌||◌, if◌then◌else◌, arith, ==-false, ℕ_discrete,
}
use amog_os.Task.{
  TaskState, Task, Scheduler, Outcome, panics, loops, is_running, is_ready, task_running,
  task_blocked, task_ready, task_dead, task_get_next, make_ready, task_switch_and_run,
  task_switch_to_next_and_run,
}
use amog_os.Task.Choice.{one_round}
use amog_os.Task.Queue.{IsList}
use amog_os.Task.Segment.{first_or, Linked, Linked-split}
use amog_os.Task.Switch.{rested, Runs, Rests, make_ready-Rests, task_switch_and_run-Runs}

-- The task behind the one in front of `ys`, and around the end of the list the first.
abbrev pub behind : List ℕ → ℕ → List ℕ → ℕ
behind xs p ys = first_or ys (first_or (xs ++ (p ∷ ys)) 0)

-- A task that may be chosen again: it runs or is ready.
abbrev pub is_alive : TaskState → Bool
is_alive st = is_running st || is_ready st

rested-next : (t : Task) → (rested t).next ≡ t.next
rested-next t = elim (Bool-cases (is_running t.state)) [ inl y ↦ rw y refl | inr n ↦ rw n refl ]

rested-proc : (t : Task) → (rested t).proc ≡ t.proc
rested-proc t = elim (Bool-cases (is_running t.state)) [ inl y ↦ rw y refl | inr n ↦ rw n refl ]

rested_twice : (t : Task) → rested (rested t) ≡ rested t
rested_twice t = elim (Bool-cases (is_running t.state)) [
  | inl y ↦ rw y refl
  | inr n ↦ rw n (rw n refl)
]

rested-is_ready : (t : Task) → is_ready (rested t).state ≡ is_alive t.state
rested-is_ready t = by_state t t.state refl
  where
    by_state : (t : Task) (st : TaskState) → t.state ≡ st → is_ready (rested t).state ≡ is_alive st
    by_state t task_running e = rw e refl
    by_state t task_blocked e = rw e refl
    by_state t task_ready e = rw e refl
    by_state t task_dead e = rw e refl

rested_running :
    (t : Task) → record (rested t) { state = task_running } ≡ record t { state = task_running }
rested_running t = elim (Bool-cases (is_running t.state)) [ inl y ↦ rw y refl | inr n ↦ rw n refl ]

-- A switch that starts once the current task rests.
Runs-rest :
    (s s₁ : Scheduler) (q : ℕ) (o : Outcome)
    → Rests s s₁
    → s.curr_task ≢ 0
    → Runs q s₁ o
    → Runs q s o
Runs-rest s s₁ q o h nz = λ r. elim r [
  | inr (n, e) ↦ inr (sym start ∙ n, e)
  | inl (y, (s', e, k)) ↦ inl (
    sym start ∙ y,
    (
      s',
      e,
      record {
        current = k.current;
        process = k.process ∙ proc;
        head = k.head ∙ h.head;
        tail = k.tail ∙ h.tail;
        running = k.running ∙ run;
        rests = λ cz ne.
            subst (λ (c : ℕ). c ≢ 0 → c ≢ q → s'.tasks c ≡ rested (s₁.tasks c)) h.curr k.rests cz ne
            ∙ ap rested (h.rests cz)
            ∙ rested_twice (s.tasks s.curr_task);
        others = λ x nq nc. k.others x nq (λ c. nc (c ∙ h.curr)) ∙ h.others x nc;
      },
    ),
  )
]
  where
    same : (rested (s.tasks q) ≡ s₁.tasks q) ⊎ (s₁.tasks q ≡ s.tasks q)
    same = elim (ℕ_discrete q s.curr_task) [
      | yes e ↦ inl (ap (λ (c : ℕ). rested (s.tasks c)) e ∙ sym (h.rests nz) ∙ ap s₁.tasks (sym e))
      | no ne ↦ inr (h.others q ne)
    ]

    proc : (s₁.tasks q).proc ≡ (s.tasks q).proc
    proc = elim same [
      | inl e ↦ ap (λ (t : Task). t.proc) (sym e) ∙ rested-proc (s.tasks q)
      | inr e ↦ ap (λ (t : Task). t.proc) e
    ]

    run : record (s₁.tasks q) { state = task_running } ≡ record (s.tasks q) { state = task_running }
    run = elim same [
      | inl e ↦
          ap (λ (t : Task). record t { state = task_running }) (sym e) ∙ rested_running (s.tasks q)
      | inr e ↦ ap (λ (t : Task). record t { state = task_running }) e
    ]

    start : s₁.can_start (s₁.tasks q).proc ≡ s.can_start (s.tasks q).proc
    start = ap s₁.can_start proc ∙ ap (λ (f : ℕ → Bool). f (s.tasks q).proc) h.can_start

get_next :
    (s : Scheduler) (tasks : ℕ → Task) (p head : ℕ) (ys : List ℕ)
    → s.curr_task ≢ 0
    → (s.tasks s.curr_task).next ≡ first_or ys 0
    → s.head ≡ head
    → Linked tasks p ys 0
    → task_get_next s ≡ first_or ys head
unfolding task_get_next
get_next s tasks p head [] nz n h l =
    let f = ==-false s.curr_task 0 nz in
    let t : ((s.tasks s.curr_task).next == 0) ≡ true = ground (arith, n) in rw f (rw t h)
get_next s tasks p head (y ∷ ys) nz n h l =
    let f = ==-false s.curr_task 0 nz in
    let g = ==-false (s.tasks s.curr_task).next 0 (λ z. l.0 (sym n ∙ z)) in rw f (rw g n)

-- What the call comes to, with `next` the task behind the current one.
abbrev pub Chosen : Scheduler → ℕ → Outcome → Type 0
Chosen s next o =
    ((next ≡ s.curr_task) × (is_alive (s.tasks s.curr_task).state ≡ true) × Runs s.curr_task s o)
    ⊎ ((next ≡ s.curr_task) × (is_alive (s.tasks s.curr_task).state ≡ false) × (o ≡ panics))
    ⊎ ((next ≢ s.curr_task) × (is_ready (s.tasks next).state ≡ true) × Runs next s o)
    ⊎ ((next ≢ s.curr_task) × (is_ready (s.tasks next).state ≡ false) × (o ≡ loops))

module _ (s s₁ : Scheduler) (h : Rests s s₁) (nz : s.curr_task ≢ 0) where
  alone :
      Runs s.curr_task s (task_switch_and_run s.curr_task s₁)
        × (is_alive (s.tasks s.curr_task).state ≡ true)
      ⊎ (task_switch_and_run s.curr_task s₁ ≡ panics)
        × (is_alive (s.tasks s.curr_task).state ≡ false)
  unfolding task_switch_and_run
  alone =
      let p = s.curr_task in
      let e : is_ready (s₁.tasks p).state ≡ is_alive (s.tasks p).state =
        ap (λ (t : Task). is_ready t.state) (h.rests nz) ∙ rested-is_ready (s.tasks p) in
      elim (Bool-cases (is_alive (s.tasks p).state)) [
        | inl y ↦ inl (Runs-rest s s₁ p _ h nz (task_switch_and_run-Runs p s₁ nz (e ∙ y)), y)
        | inr n ↦ inr (rw (e ∙ n) refl, n)
      ]

  other :
      (next : ℕ)
      → next ≢ s.curr_task
      → next ≢ 0
      → is_ready (s₁.tasks next).state ≡ true
      → Runs next s (task_switch_and_run next s₁)
  other next ne nn r = Runs-rest s s₁ next _ h nz (task_switch_and_run-Runs next s₁ nn r)

  chosen :
      (next : ℕ)
      → next ≢ 0
      → Chosen s next (
          if next == s.curr_task || is_ready (s₁.tasks next).state
          then task_switch_and_run next s₁
          else loops)
  chosen next nn = elim (ℕ_discrete next s.curr_task) [
    | yes e ↦
        let t : (next == s.curr_task) ≡ true = ground (arith, e) in
        let at : task_switch_and_run next s₁ ≡ task_switch_and_run s.curr_task s₁ =
          ap (λ (q : ℕ). task_switch_and_run q s₁) e in
        rw t (rw at (elim alone [ inl (r, y) ↦ inl (e, y, r) | inr (o, n) ↦ inr (inl (e, n, o)) ]))
    | no ne ↦
        let f = ==-false next s.curr_task ne in
        let same = ap (λ (t : Task). is_ready t.state) (h.others next ne) in
        elim (Bool-cases (is_ready (s₁.tasks next).state)) [
          | inl r ↦ rw (f, r) (inr (inr (inl (ne, sym same ∙ r, other next ne nn r))))
          | inr n ↦ rw (f, n) (inr (inr (inr (ne, sym same ∙ n, refl))))
        ]
  ]

first-nonzero :
    (tasks : ℕ → Task) (prev p : ℕ) (xs ys : List ℕ)
    → Linked tasks prev (xs ++ (p ∷ ys)) 0
    → first_or (xs ++ (p ∷ ys)) 0 ≢ 0
first-nonzero tasks prev p [] ys l = l.0
first-nonzero tasks prev p (x ∷ xs) ys l = l.0

behind-nonzero :
    (tasks : ℕ → Task) (p first : ℕ) (ys : List ℕ)
    → first ≢ 0
    → Linked tasks p ys 0
    → first_or ys first ≢ 0
behind-nonzero tasks p first [] nz l = nz
behind-nonzero tasks p first (y ∷ ys) nz l = l.0

-- With a current task on the list, one round of the loop decides, by the task behind it in the
-- list, or the first one if it is the last. That task runs if it is another one and is ready, or if
-- it is the current task itself, running or ready: then it is the current task, it is running, its
-- process is the current one, the task that ran before becomes ready and no other task changes; but
-- the kernel panics if its process cannot start. If it is the current task itself, neither running
-- nor ready, the kernel panics. If it is another task that is not ready, the loop does not end,
-- whatever the fuel, even if other tasks are ready.
pub task_switch_to_next_and_run_lem :
    (s : Scheduler) (xs ys : List ℕ) (fuel : ℕ)
    → IsList s (xs ++ (s.curr_task ∷ ys))
    → Chosen s (behind xs s.curr_task ys) (task_switch_to_next_and_run (suc fuel) s)
task_switch_to_next_and_run_lem s xs ys fuel l =
    let p = s.curr_task in
    let first = first_or (xs ++ (p ∷ ys)) 0 in
    let (left, right) = Linked-split s.tasks 0 xs (p ∷ ys) 0 l.linked in
    let h = make_ready-Rests s in
    let s₁ = make_ready s in
    let curr_next : (s₁.tasks s₁.curr_task).next ≡ first_or ys 0 =
      ap (λ (q : ℕ). (s₁.tasks q).next) h.curr
      ∙ ap (λ (t : Task). t.next) (h.rests right.0)
      ∙ rested-next (s.tasks p)
      ∙ right.2 in
    let next : task_get_next s₁ ≡ behind xs p ys =
      get_next s₁ s.tasks p first ys (λ z. right.0 (sym h.curr ∙ z)) curr_next (h.head ∙ l.head)
        right.3 in
    let nz = behind-nonzero s.tasks p first ys (first-nonzero s.tasks 0 p xs ys l.linked) right.3 in
    subst (λ (o : Outcome). Chosen s (behind xs p ys) o)
      (sym (
        one_round s fuel right.0
        ∙ ap
            (λ (q : ℕ).
              if q == p || is_ready (s₁.tasks q).state then task_switch_and_run q s₁ else loops)
            next))
      (chosen s s₁ h right.0 (behind xs p ys) nz)

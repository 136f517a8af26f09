-- ===== src/Process/Lifecycle/Reap.antt =====
-- A process that has exited and is waited for: its slot and its task are gone.
use amog_os.Base.{
  ℕ, zero, suc, ◌+◌, ◌<◌, ◌≤◌, ◌≡◌, ◌≢◌, refl, some, sym, ap, subst, ◌∙◌, List, [], ◌∷◌, ◌++◌, true,
  false, ◌==◌, arith, ℕ_discrete,
}
use amog_os.Base.Int.{ℤ, pos}
use amog_os.Base.Memory.{update, update_self, update_ne}
use amog_os.Paging.Interface.{Allocator}
use amog_os.Paging.Discard.{paging_free_page_table}
use amog_os.Task.{Task, Scheduler, is_dead, set_task, task_dead}
use amog_os.Task.Segment.{Linked, Linked-split}
use amog_os.Task.Queue.{IsList, task_unlink-IsList}
use amog_os.Process.{
  Process, proc_zombie, cleared, max_procs, pid_from, get_proc_by_pid, free_pid_slot,
}
use amog_os.Process.Lifecycle.{
  System, Image, process_exit, task_free, clear_slot, free_memory, process_reap, process_waitpid,
  no_image,
}
use amog_os.Process.Lifecycle.Exit.{process_exit_lem}

-- The first process of a number.
first_pid :
    (pid left i j : ℕ) (procs : ℕ → Process)
    → (procs j).pid ≡ pid
    → ((k : ℕ) → i ≤ k → k < j → (procs k).pid ≢ pid)
    → i ≤ j
    → j < i + left
    → pid_from pid left i procs ≡ some j
unfolding pid_from
first_pid pid zero i j procs e u ge lt = absurd (omega arith)
first_pid pid (suc left) i j procs e u ge lt = elim (ℕ_discrete i j) [
  | yes here ↦
      let t : ((procs i).pid == pid) ≡ true = ground (arith, ap (λ k. (procs k).pid) here, e) in
      rw t (ap some here)
  | no ne ↦
      let f : ((procs i).pid == pid) ≡ false = ground (arith, u i (omega arith) (omega arith)) in
      rw f (
        first_pid pid left (i + 1) j procs e (λ k from to. u k (omega arith) to) (omega arith)
          (omega arith))
]

-- Tasks with the same links.
Linked-same :
    (tasks tasks' : ℕ → Task) (prev : ℕ) (ps : List ℕ) (next : ℕ)
    → ((q : ℕ) → ((tasks' q).prev ≡ (tasks q).prev) × ((tasks' q).next ≡ (tasks q).next))
    → Linked tasks prev ps next
    → Linked tasks' prev ps next
Linked-same tasks tasks' prev [] next same l = tt
Linked-same tasks tasks' prev (p ∷ ps) next same l =
    (l.0, (same p).0 ∙ l.1, (same p).1 ∙ l.2, Linked-same tasks tasks' p ps next same l.3)

module _ (a : Allocator) (kfree : ℕ → a.State → a.State) where
  pub process_exit-IsList :
      (i : ℕ) (status : ℤ) (s : System a kfree) (ps : List ℕ)
      → IsList s.sched ps
      → IsList (process_exit a kfree i status s).sched ps
  unfolding process_exit set_task
  process_exit-IsList i status s ps l =
      let p = (s.images i).task in
      let dead : Task = record (s.sched.tasks p) { state = task_dead } in
      record {
        head = l.head;
        tail = l.tail;
        linked =
            Linked-same s.sched.tasks (update s.sched.tasks p dead) 0 ps 0
              (λ q. elim (ℕ_discrete p q) [
                | yes e ↦ rw (sym e) (rw (update_self s.sched.tasks p dead) (refl, refl))
                | no ne ↦ rw (update_ne s.sched.tasks p q dead ne) (refl, refl)
              ])
              l.linked;
        distinct = l.distinct;
      }

  -- `task_free` of a dead task on the list.
  task_free-IsList :
      (s : System a kfree) (xs : List ℕ) (p : ℕ) (ys : List ℕ)
      → IsList s.sched (xs ++ (p ∷ ys))
      → is_dead (s.sched.tasks p).state ≡ true
      → (s' : System a kfree) × (task_free a kfree p s ≡ some s')
        × IsList s'.sched (xs ++ ys)
        × (s'.procs ≡ s.procs)
        × (s'.images ≡ s.images)
  unfolding task_free
  task_free-IsList s xs p ys l dead =
      let (sched', run, list, curr) = task_unlink-IsList s.sched xs p ys l dead in
      let nz = (Linked-split s.sched.tasks 0 xs (p ∷ ys) 0 l.linked).1.0 in
      let f : (p == 0) ≡ false = ground (arith, nz) in
      let m = free_memory a kfree p (paging_free_page_table a kfree (s.page_table p) s.machine) in
      (record s { sched = sched'; machine = m }, rw run (rw f refl), list, refl, refl)

  clear_slot_lem :
      (pid i : ℕ) (s : System a kfree)
      → pid_from pid max_procs 0 s.procs ≡ some i
      → ((clear_slot a kfree pid s).procs ≡ update s.procs i cleared)
        × ((clear_slot a kfree pid s).images ≡ update s.images i no_image)
        × ((clear_slot a kfree pid s).sched ≡ s.sched)
  unfolding clear_slot free_pid_slot get_proc_by_pid
  clear_slot_lem pid i s e =
      (rw (e, clear_slot, free_pid_slot) refl, rw (e, clear_slot, get_proc_by_pid) refl, refl)

  reap_zombie :
      (i : ℕ) (s : System a kfree) (xs ys : List ℕ)
      → (s.procs i).status ≡ proc_zombie
      → pid_from (s.procs i).pid max_procs 0 s.procs ≡ some i
      → is_dead (s.sched.tasks (s.images i).task).state ≡ true
      → IsList s.sched (xs ++ ((s.images i).task ∷ ys))
      → (s' : System a kfree) × (process_reap a kfree i s ≡ some (pos 0, s'))
        × (s'.procs ≡ update s.procs i cleared)
        × (s'.images ≡ update s.images i no_image)
        × IsList s'.sched (xs ++ ys)
  unfolding process_reap
  reap_zombie i s xs ys zombie found dead l =
      let (s₂, run, list, procs, images) = task_free-IsList s xs (s.images i).task ys l dead in
      let (procs', images', sched') = clear_slot_lem (s.procs i).pid i s₂ (rw procs found) in
      (
        clear_slot a kfree (s.procs i).pid s₂,
        rw zombie (rw run refl),
        procs' ∙ ap (λ (f : ℕ → Process). update f i cleared) procs,
        images' ∙ ap (λ (f : ℕ → Image). update f i no_image) images,
        subst (λ (t : Scheduler). IsList t (xs ++ ys)) (sym sched') list,
      )

  wait_for_child :
      (parent pid i : ℕ) (s : System a kfree)
      → pid_from pid max_procs 0 s.procs ≡ some i
      → (s.procs i).parent_pid ≡ (s.procs parent).pid
      → process_waitpid a kfree parent pid s ≡ process_reap a kfree i s
  unfolding process_waitpid get_proc_by_pid
  wait_for_child parent pid i s found child =
      let mine : ((s.procs i).parent_pid == (s.procs parent).pid) ≡ true = ground (arith, child) in
      rw (found, process_waitpid, get_proc_by_pid) (rw mine refl)

  -- For a process `i` of the table that is the first of its number and whose task is on the list of
  -- tasks: when it has exited, `waitpid` of its parent returns 0; then its slot is unused, the
  -- other processes are as before it has exited, and the list holds the other tasks in their order.
  pub process_waitpid-process_exit :
      (i parent : ℕ) (status : ℤ) (s : System a kfree) (xs ys : List ℕ)
      → i < max_procs
      → i ≢ parent
      → ((k : ℕ) → k < i → (s.procs k).pid ≢ (s.procs i).pid)
      → (s.procs i).parent_pid ≡ (s.procs parent).pid
      → IsList s.sched (xs ++ ((s.images i).task ∷ ys))
      → (s' : System a kfree) × (process_waitpid a kfree parent
            (s.procs i).pid
            (process_exit a kfree i status s)
          ≡ some (pos 0, s'))
        × (s'.procs i ≡ cleared)
        × ((j : ℕ) → i ≢ j → s'.procs j ≡ s.procs j)
        × (s'.images i ≡ no_image)
        × IsList s'.sched (xs ++ ys)
  unfolding process_exit
  process_waitpid-process_exit i parent status s xs ys lt ne first child l =
      let s₁ = process_exit a kfree i status s in
      let (zombie, code, blocks, pid, parent_pid, dead, curr, others) =
        process_exit_lem a kfree i status s in
      let found =
        first_pid (s.procs i).pid max_procs 0 i s₁.procs pid
          (λ k from to e.
            first k to (sym (ap (λ (p : Process). p.pid) (others k (omega arith))) ∙ e))
          (omega arith) lt in
      let mine = parent_pid ∙ child ∙ sym (ap (λ (p : Process). p.pid) (others parent ne)) in
      let (s', run, procs, images, list) =
        reap_zombie i s₁ xs ys zombie (rw pid found) dead
          (process_exit-IsList i status s (xs ++ ((s.images i).task ∷ ys)) l) in
      (
        s',
        wait_for_child parent (s.procs i).pid i s₁ found mine ∙ run,
        ap (λ (f : ℕ → Process). f i) procs ∙ update_self s₁.procs i cleared,
        λ j nj.
            ap (λ (f : ℕ → Process). f j) procs ∙ update_ne s₁.procs i j cleared nj ∙ others j nj,
        ap (λ (f : ℕ → Image). f i) images ∙ update_self s.images i no_image,
        list,
      )

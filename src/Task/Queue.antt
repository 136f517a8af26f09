-- ===== src/Task/Queue.antt =====
-- The list of tasks as a list: `task_new` puts a task at its end, `task_free` takes one out.
use amog_os.Task.Unlink.{
  Distinct-split, Distinct-parts, first-Away, unlink_next_lem, unlink_prev_lem,
}
use amog_os.Base.{
  ==-false, ℕ, ◌≡◌, ◌≢◌, refl, ◌∙◌, sym, List, [], ◌∷◌, ◌++◌, some, true, false, arith, ◌==◌,
  if◌then◌else◌,
}
use amog_os.Base.Memory.{update, update_self}
use amog_os.Task.{Scheduler, is_dead, task_link, task_unlink, unlink_next, unlink_prev, set_task}
use amog_os.Task.Segment.{
  first_or, last_or, Linked, Away, Distinct, Away-append, Away-last, last-append, Linked-split,
  Linked-append, Linked-frame, Linked-next,
}

-- The list of `s` holds the tasks `ps` in this order, each once, and can be walked both ways.
pub record IsList (s : Scheduler) (ps : List ℕ) : Type 0 where
  pub head : s.head ≡ first_or ps 0
  pub tail : s.tail ≡ last_or 0 ps
  pub linked : Linked s.tasks 0 ps 0
  pub distinct : Distinct ps

Distinct-snoc : (ps : List ℕ) (p : ℕ) → Distinct ps → Away p ps → Distinct (ps ++ (p ∷ []))
Distinct-snoc [] p d x = (tt, tt)
Distinct-snoc (q ∷ ps) p d x =
    (Away-append q ps (p ∷ []) d.0 ((λ e. x.0 (sym e)), tt), Distinct-snoc ps p d.1 x.1)

-- A task that is not NULL and not on the list is put at its end by `task_new`, and the list can
-- still be walked both ways.
pub task_link-IsList :
    (s : Scheduler) (ps : List ℕ) (p : ℕ)
    → p ≢ 0
    → Away p ps
    → IsList s ps
    → IsList (task_link p s) (ps ++ (p ∷ []))
unfolding task_link set_task
task_link-IsList s [] p nz x l =
    let z : (s.head == 0) ≡ true = ground (arith, l.head) in
    let e = update_self s.tasks p (record (s.tasks p) { prev = 0; next = 0 }) in
    rw z (record {
      head = refl;
      tail = refl;
      linked = (nz, rw e refl, rw e refl, tt);
      distinct = (tt, tt);
    })
task_link-IsList s (q ∷ ps) p nz x l =
    let t = last_or q ps in
    let z : (s.head == 0) ≡ false = ground (arith, l.head, l.linked.0) in
    let linked₁ = Linked-next s.tasks 0 q ps 0 p l.distinct l.linked in
    let tasks₁ = update s.tasks t (record (s.tasks t) { next = p }) in
    let linked₂ =
      Linked-frame tasks₁ p (record (tasks₁ p) { prev = t; next = 0 }) 0 (q ∷ ps) p x linked₁ in
    let e = update_self tasks₁ p (record (tasks₁ p) { prev = t; next = 0 }) in
    rw z (
      rw (l.tail) (record {
        head = l.head;
        tail = sym (last-append 0 p (q ∷ ps) []);
        linked =
            Linked-append (update tasks₁ p (record (tasks₁ p) { prev = t; next = 0 })) 0 (q ∷ ps)
              (p ∷ []) 0 linked₂ (nz, rw e refl, rw e refl, tt);
        distinct = Distinct-snoc (q ∷ ps) p l.distinct x;
      }))

-- The list after `p` has been taken out of `xs ++ p ∷ ys`, but for the current task.
task_unlink-head :
    (p head next : ℕ) (xs ys : List ℕ)
    → Away p xs
    → head ≡ first_or (xs ++ (p ∷ ys)) 0
    → next ≡ first_or ys 0
    → (if p == head then next else head) ≡ first_or (xs ++ ys) 0
task_unlink-head p head next [] ys x e e' =
    let z : (p == head) ≡ true = ground (arith, e) in rw z e'
task_unlink-head p head next (q ∷ xs) ys x e e' =
    let z = ==-false p head (λ h. x.0 (h ∙ e)) in rw z e

last-append_nil : (prev : ℕ) (xs : List ℕ) → last_or prev xs ≡ last_or prev (xs ++ [])
last-append_nil prev [] = refl
last-append_nil prev (q ∷ xs) = last-append_nil q xs

task_unlink-tail :
    (p tail prev : ℕ) (xs ys : List ℕ)
    → Away p ys
    → tail ≡ last_or 0 (xs ++ (p ∷ ys))
    → prev ≡ last_or 0 xs
    → (if p == tail then prev else tail) ≡ last_or 0 (xs ++ ys)
task_unlink-tail p tail prev xs [] x e e' =
    let h = e ∙ last-append 0 p xs [] in
    let z : (p == tail) ≡ true = ground (arith, h) in rw z (e' ∙ last-append_nil 0 xs)
task_unlink-tail p tail prev xs (r ∷ ys) x e e' =
    let h = e ∙ last-append 0 p xs (r ∷ ys) in
    let z = ==-false p tail (λ k. Away-last p r ys x.0 x.1 (k ∙ h)) in
    rw z (h ∙ sym (last-append 0 r xs ys))

-- A task that is on the list, is dead and is not NULL is taken out of it by `task_free`, whatever
-- its place: the list then holds the other tasks, in their order, and can be walked both ways, and
-- the current task is NULL if it was the task that is freed and is kept otherwise.
pub task_unlink-IsList :
    (s : Scheduler) (xs : List ℕ) (p : ℕ) (ys : List ℕ)
    → IsList s (xs ++ (p ∷ ys))
    → is_dead (s.tasks p).state ≡ true
    → (s' : Scheduler) × (task_unlink p s ≡ some s')
      × IsList s' (xs ++ ys)
      × (s'.curr_task ≡ (if p == s.curr_task then 0 else s.curr_task))
unfolding task_unlink
task_unlink-IsList s xs p ys l dead =
    let (distinct, x, y) = Distinct-split xs p ys l.distinct in
    let (dx, dpy) = Distinct-parts xs (p ∷ ys) l.distinct in
    let (left, right) = Linked-split s.tasks 0 xs (p ∷ ys) 0 l.linked in
    let (left₁, right₁) = unlink_next_lem s.tasks p xs ys dx x distinct left right in
    let tasks₁ = unlink_next p s.tasks in
    let (left₂, right₂, n, q) =
      unlink_prev_lem tasks₁ p xs ys dpy.1 y (first-Away s.tasks 0 xs ys p left distinct) left₁
        right₁ in
    let tasks₂ = unlink_prev p tasks₁ in
    let z : (p == 0) ≡ false = ==-false p 0 right.0 in
    let heads : (if p == s.head then (tasks₂ p).next else s.head) ≡ first_or (xs ++ ys) 0 =
      task_unlink-head p s.head (tasks₂ p).next xs ys x l.head n in
    let tails : (if p == s.tail then (tasks₂ p).prev else s.tail) ≡ last_or 0 (xs ++ ys) =
      task_unlink-tail p s.tail (tasks₂ p).prev xs ys y l.tail q in
    let s' : Scheduler = record s {
      tasks = tasks₂;
      head = (if p == s.head then (tasks₂ p).next else s.head);
      tail = (if p == s.tail then (tasks₂ p).prev else s.tail);
      curr_task = (if p == s.curr_task then 0 else s.curr_task);
    } in
    let linked = Linked-append tasks₂ 0 xs ys 0 left₂ right₂ in
    let run : task_unlink p s ≡ some s' = rw z (rw dead refl) in
    (s', run, record { head = heads; tail = tails; linked = linked; distinct = distinct }, refl)

-- ===== src/Task/Unlink.antt =====
-- The tasks that `task_free` links with each other.
use amog_os.Base.{==-false, ℕ, ◌≡◌, ◌≢◌, refl, sym, subst, List, [], ◌∷◌, ◌++◌}
use amog_os.Base.Memory.{update, update_ne}
use amog_os.Task.{Task, unlink_next, unlink_prev}
use amog_os.Task.Segment.{
  first_or, last_or, Linked, Away, Distinct, Away-append, Away-split, Away-last, Linked-frame,
  Linked-next, Linked-prev,
}

pub Distinct-split :
    (xs : List ℕ) (p : ℕ) (ys : List ℕ)
    → Distinct (xs ++ (p ∷ ys))
    → Distinct (xs ++ ys) × Away p xs × Away p ys
Distinct-split [] p ys d = (d.1, tt, d.0)
Distinct-split (q ∷ xs) p ys d =
    let (e, x, y) = Distinct-split xs p ys d.1 in
    let (a, b) = Away-split q xs (p ∷ ys) d.0 in
    ((Away-append q xs ys a b.1, e), ((λ h. b.0 (sym h)), x), y)

pub Distinct-parts : (xs ys : List ℕ) → Distinct (xs ++ ys) → Distinct xs × Distinct ys
Distinct-parts [] ys d = (tt, d)
Distinct-parts (q ∷ xs) ys d =
    let (e, f) = Distinct-parts xs ys d.1 in (((Away-split q xs ys d.0).0, e), f)

-- The task behind `xs`, or NULL, is not in `xs`.
pub first-Away :
    (tasks : ℕ → Task) (prev : ℕ) (xs ys : List ℕ) (next : ℕ)
    → Linked tasks prev xs next
    → Distinct (xs ++ ys)
    → Away (first_or ys 0) xs
first-Away tasks prev [] ys next l d = tt
first-Away tasks prev (q ∷ xs) [] next l d =
    ((λ e. l.0 (sym e)), first-Away tasks q xs [] next l.3 d.1)
first-Away tasks prev (q ∷ xs) (r ∷ ys) next l d =
    ((λ e. (Away-split q xs (r ∷ ys) d.0).1.0 (sym e)), first-Away tasks q xs (r ∷ ys) next l.3 d.1)

pub last-ne-zero :
    (tasks : ℕ → Task) (prev q : ℕ) (ps : List ℕ) (next : ℕ)
    → Linked tasks prev (q ∷ ps) next
    → last_or q ps ≢ 0
last-ne-zero tasks prev q [] next l = l.0
last-ne-zero tasks prev q (p ∷ ps) next l = last-ne-zero tasks q p ps next l.3

pub last-Away : (q : ℕ) (xs ys : List ℕ) → Distinct (q ∷ (xs ++ ys)) → Away (last_or q xs) ys
last-Away q [] ys d = d.0
last-Away q (p ∷ xs) ys d = last-Away p xs ys d.1

pub first_task : (tasks : ℕ → Task) (p : ℕ) → (tasks p).prev ≡ 0 → unlink_next p tasks ≡ tasks
unfolding unlink_next
first_task tasks p e = rw e refl

pub later_task :
    (tasks : ℕ → Task) (p q n : ℕ)
    → (tasks p).prev ≡ q
    → (tasks p).next ≡ n
    → q ≢ 0
    → unlink_next p tasks ≡ update tasks q (record (tasks q) { next = n })
unfolding unlink_next
later_task tasks p q n e e' nz = let z = ==-false q 0 nz in rw e (rw z (rw e' refl))

pub last_task : (tasks : ℕ → Task) (p : ℕ) → (tasks p).next ≡ 0 → unlink_prev p tasks ≡ tasks
unfolding unlink_prev
last_task tasks p e = rw e refl

pub earlier_task :
    (tasks : ℕ → Task) (p q n : ℕ)
    → (tasks p).next ≡ q
    → (tasks p).prev ≡ n
    → q ≢ 0
    → unlink_prev p tasks ≡ update tasks q (record (tasks q) { prev = n })
unfolding unlink_prev
earlier_task tasks p q n e e' nz = let z = ==-false q 0 nz in rw e (rw z (rw e' refl))

-- The tasks without `p`, from the side of its predecessor and from that of its successor.
pub unlink_next_lem :
    (tasks : ℕ → Task) (p : ℕ) (xs ys : List ℕ)
    → Distinct xs
    → Away p xs
    → Distinct (xs ++ ys)
    → Linked tasks 0 xs p
    → Linked tasks (last_or 0 xs) (p ∷ ys) 0
    → Linked (unlink_next p tasks) 0 xs (first_or ys 0)
      × Linked (unlink_next p tasks) (last_or 0 xs) (p ∷ ys) 0
unlink_next_lem tasks p [] ys dx x d l r =
    subst (λ (f : ℕ → Task). Unit × Linked f 0 (p ∷ ys) 0) (sym (first_task tasks p r.1)) (tt, r)
unlink_next_lem tasks p (q ∷ xs) ys dx x d l r =
    let t = last_or q xs in
    let task : Task = record (tasks t) { next = first_or ys 0 } in
    let e = later_task tasks p t (first_or ys 0) r.1 r.2 (last-ne-zero tasks 0 q xs p l) in
    let ne : t ≢ p = λ h. Away-last p q xs x.0 x.1 (sym h) in
    subst (λ (f : ℕ → Task). Linked f 0 (q ∷ xs) (first_or ys 0) × Linked f t (p ∷ ys) 0) (sym e)
      (
        Linked-next tasks 0 q xs p (first_or ys 0) dx l,
        Linked-frame tasks t task t (p ∷ ys) 0 (ne, last-Away q xs ys d) r,
      )

-- The segments on both sides of `p`, and its pointers.
abbrev pub WithoutTask : (ℕ → Task) → ℕ → List ℕ → List ℕ → Type 0
WithoutTask tasks p xs ys =
    Linked tasks 0 xs (first_or ys 0)
    × Linked tasks (last_or 0 xs) ys 0
    × ((tasks p).next ≡ first_or ys 0)
    × ((tasks p).prev ≡ last_or 0 xs)

pub unlink_prev_lem :
    (tasks : ℕ → Task) (p : ℕ) (xs ys : List ℕ)
    → Distinct ys
    → Away p ys
    → Away (first_or ys 0) xs
    → Linked tasks 0 xs (first_or ys 0)
    → Linked tasks (last_or 0 xs) (p ∷ ys) 0
    → WithoutTask (unlink_prev p tasks) p xs ys
unlink_prev_lem tasks p xs [] dy y x l r =
    subst (λ (f : ℕ → Task). WithoutTask f p xs []) (sym (last_task tasks p r.2)) (l, tt, r.2, r.1)
unlink_prev_lem tasks p xs (q ∷ ys) dy y x l r =
    let t : Task = record (tasks q) { prev = last_or 0 xs } in
    let same = update_ne tasks q p t (λ e. y.0 (sym e)) in
    let e = earlier_task tasks p q (last_or 0 xs) r.2 r.1 r.3.0 in
    subst (λ (f : ℕ → Task). WithoutTask f p xs (q ∷ ys)) (sym e)
      (
        Linked-frame tasks q t 0 xs q x l,
        Linked-prev tasks p (last_or 0 xs) q ys 0 dy.0 r.3,
        rw same r.2,
        rw same r.1,
      )

-- ===== src/Task/Segment.antt =====
-- Segments of the doubly linked list of tasks.
use amog_os.Base.{ℕ, ◌≡◌, ◌≢◌, refl, sym, List, [], ◌∷◌, ◌++◌}
use amog_os.Base.Memory.{update, update_self, update_ne}
use amog_os.Task.{Task}

-- The first task of a list, and `next` if there is none; the last one, and `prev` if there is none.
abbrev pub first_or : List ℕ → ℕ → ℕ
first_or [] next = next
first_or (p ∷ ps) next = p

abbrev pub last_or : ℕ → List ℕ → ℕ
last_or prev [] = prev
last_or prev (p ∷ ps) = last_or p ps

-- The tasks `ps` are linked in this order, both ways, between `prev` and `next`.
abbrev pub Linked : (ℕ → Task) → ℕ → List ℕ → ℕ → Type 0
Linked tasks prev [] next = Unit
Linked tasks prev (p ∷ ps) next =
    (p ≢ 0) × ((tasks p).prev ≡ prev) × ((tasks p).next ≡ first_or ps next) × Linked tasks p ps next

abbrev pub Away : ℕ → List ℕ → Type 0
Away a [] = Unit
Away a (p ∷ ps) = (a ≢ p) × Away a ps

abbrev pub Distinct : List ℕ → Type 0
Distinct [] = Unit
Distinct (p ∷ ps) = Away p ps × Distinct ps

pub Away-append : (a : ℕ) (xs ys : List ℕ) → Away a xs → Away a ys → Away a (xs ++ ys)
Away-append a [] ys x y = y
Away-append a (p ∷ xs) ys x y = (x.0, Away-append a xs ys x.1 y)

pub Away-split : (a : ℕ) (xs ys : List ℕ) → Away a (xs ++ ys) → Away a xs × Away a ys
Away-split a [] ys x = (tt, x)
Away-split a (p ∷ xs) ys x = let (l, r) = Away-split a xs ys x.1 in ((x.0, l), r)

pub Away-last : (a q : ℕ) (ps : List ℕ) → a ≢ q → Away a ps → a ≢ last_or q ps
Away-last a q [] ne x = ne
Away-last a q (p ∷ ps) ne x = Away-last a p ps x.0 x.1

pub last-append : (prev p : ℕ) (xs ys : List ℕ) → last_or prev (xs ++ (p ∷ ys)) ≡ last_or p ys
last-append prev p [] ys = refl
last-append prev p (q ∷ xs) ys = last-append q p xs ys

-- A list that is cut in two.
pub Linked-split :
    (tasks : ℕ → Task) (prev : ℕ) (xs ys : List ℕ) (next : ℕ)
    → Linked tasks prev (xs ++ ys) next
    → Linked tasks prev xs (first_or ys next) × Linked tasks (last_or prev xs) ys next
Linked-split tasks prev [] ys next l = (tt, l)
Linked-split tasks prev (p ∷ []) ys next l = ((l.0, l.1, l.2, tt), l.3)
Linked-split tasks prev (p ∷ (q ∷ xs)) ys next l =
    let (x, y) = Linked-split tasks p (q ∷ xs) ys next l.3 in ((l.0, l.1, l.2, x), y)

pub Linked-append :
    (tasks : ℕ → Task) (prev : ℕ) (xs ys : List ℕ) (next : ℕ)
    → Linked tasks prev xs (first_or ys next)
    → Linked tasks (last_or prev xs) ys next
    → Linked tasks prev (xs ++ ys) next
Linked-append tasks prev [] ys next x y = y
Linked-append tasks prev (p ∷ []) ys next x y = (x.0, x.1, x.2, y)
Linked-append tasks prev (p ∷ (q ∷ xs)) ys next x y =
    (x.0, x.1, x.2, Linked-append tasks p (q ∷ xs) ys next x.3 y)

-- A write to a task that is not in the list.
pub Linked-frame :
    (tasks : ℕ → Task) (a : ℕ) (t : Task) (prev : ℕ) (ps : List ℕ) (next : ℕ)
    → Away a ps
    → Linked tasks prev ps next
    → Linked (update tasks a t) prev ps next
Linked-frame tasks a t prev [] next x l = tt
Linked-frame tasks a t prev (p ∷ ps) next x l =
    let e = update_ne tasks a p t x.0 in
    (l.0, rw e l.1, rw e l.2, Linked-frame tasks a t p ps next x.1 l.3)

-- The last task of a list is given another successor.
pub Linked-next :
    (tasks : ℕ → Task) (prev q : ℕ) (ps : List ℕ) (next next' : ℕ)
    → Distinct (q ∷ ps)
    → Linked tasks prev (q ∷ ps) next
    → Linked
        (update tasks (last_or q ps) (record (tasks (last_or q ps)) { next = next' }))
        prev
        (q ∷ ps)
        next'
Linked-next tasks prev q [] next next' d l =
    let e = update_self tasks q (record (tasks q) { next = next' }) in
    (l.0, rw e l.1, rw e refl, tt)
Linked-next tasks prev q (p ∷ ps) next next' d l =
    let z = last_or p ps in
    let e =
      update_ne tasks z q (record (tasks z) { next = next' })
        (λ h. Away-last q p ps d.0.0 d.0.1 (sym h)) in
    (l.0, rw e l.1, rw e l.2, Linked-next tasks q p ps next next' d.1 l.3)

-- The first task of a list is given another predecessor.
pub Linked-prev :
    (tasks : ℕ → Task) (prev prev' q : ℕ) (ps : List ℕ) (next : ℕ)
    → Away q ps
    → Linked tasks prev (q ∷ ps) next
    → Linked (update tasks q (record (tasks q) { prev = prev' })) prev' (q ∷ ps) next
Linked-prev tasks prev prev' q ps next x l =
    let e = update_self tasks q (record (tasks q) { prev = prev' }) in
    (
      l.0,
      rw e refl,
      rw e l.2,
      Linked-frame tasks q (record (tasks q) { prev = prev' }) q ps next x l.3,
    )

-- ===== src/Paging/Fresh.antt =====
-- A page that has just been allocated, with any content: the tables do not see it.
use amog_os.Base.{ℕ, ◌+◌, ◌/◌, ◌%◌, ◌^◌, ◌<◌, ◌≤◌, ◌≡◌, ◌≢◌, sym, arith, Bool-cases, ◌⊎◌, inl, inr}
use amog_os.Paging.{Machine, is_present, frame, word_at}
use amog_os.Paging.Interface.{Allocator}
use amog_os.Paging.Walk.{walk, word_outside, IsWellFormed, IsFor, frame-aligned}

module _ (a : Allocator) (cr3 : ℕ) where
  open a use {Live, kzalloc_page, aligned, bounded, fresh, keeps, holds}

  module _ (m : Machine a) (wf : IsWellFormed a cr3 m) (got : (kzalloc_page m.heap).0 ≢ 0)
      (mem' : ℕ → ℕ)
      (same : (b : ℕ)
        → (b < (kzalloc_page m.heap).0) ⊎ ((kzalloc_page m.heap).0 + 4096 ≤ b)
        → mem' b ≡ m.mem b) where
    abbrev pub page : ℕ
    page = (kzalloc_page m.heap).0

    abbrev pub with_page : Machine a
    with_page = record { mem = mem'; heap = (kzalloc_page m.heap).1 }

    page-aligned : page % 4096 ≡ 0
    page-aligned = aligned m.heap got

    live-ne : (p : ℕ) → Live m.heap p → p ≢ page
    live-ne p l = fresh m.heap p got l

    fresh-other :
        (p k : ℕ)
        → p % 4096 ≡ 0
        → Live m.heap p
        → k < 1024
        → mem' (word_at p k) ≡ m.mem (word_at p k)
    fresh-other p k al l kl =
        same (word_at p k) (word_outside p page k al page-aligned (live-ne p l) kl)

    pub fresh-pde : (i : ℕ) → i < 1024 → mem' (word_at cr3 i) ≡ m.mem (word_at cr3 i)
    fresh-pde i il = fresh-other cr3 i wf.dir_aligned wf.dir_live il

    pub fresh-IsWellFormed : IsWellFormed a cr3 with_page
    fresh-IsWellFormed = record {
      dir_aligned = wf.dir_aligned;
      dir_live = keeps m.heap cr3 wf.dir_live;
      words = λ i il. rw (fresh-pde i il) (wf.words i il);
      table_live = λ i il y.
          rw (fresh-pde i il) (keeps m.heap _ (wf.table_live i il (rw (fresh-pde i il) at y)));
      not_dir = λ i il y. rw (fresh-pde i il) (wf.not_dir i il (rw (fresh-pde i il) at y));
      apart = λ i j il jl ij y z.
          rw (fresh-pde i il, fresh-pde j jl)
            (wf.apart i j il jl ij (rw (fresh-pde i il) at y) (rw (fresh-pde j jl) at z));
    }

    pub fresh-IsFor : (d : ℕ) → IsFor a cr3 with_page d page
    fresh-IsFor d = record {
      aligned = page-aligned;
      bounded = omega (arith, bounded m.heap got);
      live = holds m.heap got;
      ne_dir = λ e. live-ne cr3 wf.dir_live (sym e);
      others = λ j jl ne y.
          rw (fresh-pde j jl) (live-ne _ (wf.table_live j jl (rw (fresh-pde j jl) at y)));
    }

    pub walk-fresh : (u : ℕ) → u < 2 ^ 20 → walk mem' cr3 u ≡ walk m.mem cr3 u
    unfolding walk
    walk-fresh u ul =
        let jl : u / 1024 < 1024 = omega arith in
        rw (fresh-pde (u / 1024) jl)
          (elim (Bool-cases (is_present (m.mem (word_at cr3 (u / 1024))))) [
            | inl y ↦ rw y (
                fresh-other (frame (m.mem (word_at cr3 (u / 1024)))) (u % 1024)
                  (frame-aligned a _ (wf.words (u / 1024) jl)) (wf.table_live (u / 1024) jl y)
                  (omega arith))
            | inr n ↦ rw n
          ])

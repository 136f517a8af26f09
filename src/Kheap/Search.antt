-- ===== src/Kheap/Search.antt =====
-- The search of `kmalloc` for free blocks.
use amog_os.Base.{
  ℕ, zero, suc, ◌+◌, ◌<◌, ◌≤◌, ◌≡◌, refl, inl, inr, Bool, true, false, ◌&&◌, none, some, arith,
  Bool-cases, ◌==◌, if◌then◌else◌, ℕ_discrete,
}
use amog_os.Kheap.{Kheap, entry_at, is_free, run_end, find_run}

-- The `n` blocks from `i` on are free.
abbrev pub FreeRun : Kheap → ℕ → ℕ → Type 0
FreeRun h i n = (j : ℕ) → i ≤ j → j < i + n → is_free (entry_at h j) ≡ true

run_end-le : (h : Kheap) (n j : ℕ) → run_end h n j ≤ j + n
unfolding run_end
run_end-le h zero j = omega arith
run_end-le h (suc n) j = ground (arith, run_end-le h n (j + 1))

-- The loop reaches its end exactly over free blocks.
pub run_end-FreeRun : (h : Kheap) (n i : ℕ) → run_end h n i ≡ i + n → FreeRun h i n
unfolding run_end
run_end-FreeRun h zero i e j ge lt = absurd (omega arith)
run_end-FreeRun h (suc n) i e j ge lt = elim (ℕ_discrete i j) [
  | yes q ↦ rw (← q) (ground arith)
  | no q ↦ run_end-FreeRun h n (i + 1) (ground arith) j (omega arith) (omega arith)
]

pub run_end_full : (h : Kheap) (n i : ℕ) → FreeRun h i n → run_end h n i ≡ i + n
unfolding run_end
run_end_full h zero i free = omega arith
run_end_full h (suc n) i free =
    let rest = run_end_full h n (i + 1) (λ j ge lt. free j (omega arith) (omega arith)) in
    ground (arith, free i (omega arith) (omega arith), rest)

-- Block `b` starts the first run of `n` free blocks, from block `i` on.
pub record FirstFit (h : Kheap) (n i b : ℕ) : Type 0 where
  pub from : i ≤ b
  pub free : FreeRun h b n
  pub first : (c : ℕ) → i ≤ c → c < b → ¬ FreeRun h c n

hit : Kheap → ℕ → ℕ → Bool
hit h n i = is_free (entry_at h i) && (run_end h n i == i + n)

hit-FreeRun : (h : Kheap) (n i : ℕ) → hit h n i ≡ true → FreeRun h i n
unfolding hit
hit-FreeRun h n i e = run_end-FreeRun h n i (ground arith)

miss-FreeRun : (h : Kheap) (n i : ℕ) → 0 < n → hit h n i ≡ false → ¬ FreeRun h i n
unfolding hit
miss-FreeRun h n i p e free =
    ground (arith, run_end_full h n i free, free i (omega arith) (omega arith))

find_run-step :
    (h : Kheap) (n r i : ℕ)
    → find_run h n (suc r) i ≡ (if hit h n i then some i else find_run h n r (i + 1))
unfolding find_run hit
find_run-step h n r i = refl

pub find_run-some :
    (h : Kheap) (n rounds i b : ℕ)
    → 0 < n
    → find_run h n rounds i ≡ some b
    → FirstFit h n i b × (b < i + rounds)
unfolding find_run
find_run-some h n zero i b p e = absurd (cc)
find_run-some h n (suc r) i b p e = elim (Bool-cases (hit h n i)) [
  | inl h' ↦
      let q : i ≡ b = ground (arith, find_run-step h n r i) in
      (
        record {
          from = omega arith;
          free = rw (← q) (hit-FreeRun h n i h');
          first = λ c ge lt. absurd (omega arith);
        },
        omega arith,
      )
  | inr h' ↦ step h' (find_run-some h n r (i + 1) b p (ground (arith, find_run-step h n r i)))
]
  where
    step :
        hit h n i ≡ false
        → FirstFit h n (i + 1) b × (b < i + 1 + r)
        → FirstFit h n i b × (b < i + suc r)
    step m (f, lt) = (
      record {
        from = omega (arith, f.from);
        free = f.free;
        first = λ c ge below. elim (ℕ_discrete i c) [
          | yes q ↦ rw (← q) (miss-FreeRun h n i p m)
          | no q ↦ f.first c (omega arith) below
        ];
      },
      omega arith,
    )

pub find_run-none :
    (h : Kheap) (n rounds i : ℕ)
    → 0 < n
    → find_run h n rounds i ≡ none
    → (c : ℕ) → i ≤ c
    → c < i + rounds
    → ¬ FreeRun h c n
unfolding find_run
find_run-none h n zero i p e c ge lt = absurd (omega arith)
find_run-none h n (suc r) i p e c ge lt = elim (ℕ_discrete i c) [
  | yes q ↦ rw (← q) (miss-FreeRun h n i p (ground (arith, find_run-step h n r i)))
  | no q ↦
      find_run-none h n r (i + 1) p (ground (arith, find_run-step h n r i)) c (omega arith)
        (omega arith)
]

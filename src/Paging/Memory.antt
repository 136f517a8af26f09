-- ===== src/Paging/Memory.antt =====
-- The pages that the kernel heap has left, as a bound on how often it can be asked.
use amog_os.Base.{ℕ, zero, suc, ◌+◌, ◌<◌, ◌≤◌, ◌≡◌, ◌⊎◌, inl, inr, refl, subst, arith}
use amog_os.Paging.Interface.{Allocator}

module _ (a : Allocator) where
  -- The heap after `k` requests for a page.
  unfoldable pub after : ℕ → a.State → a.State
  after zero s = s
  after (suc k) s = after k (a.kzalloc_page s).1

  pub after_add : (j k : ℕ) (s : a.State) → after k (after j s) ≡ after (j + k) s
  unfolding after
  after_add zero k s =
      let e : k ≡ 0 + k = omega arith in subst (λ (n : ℕ). after k s ≡ after n s) e refl
  after_add (suc j) k s =
      let e : suc (j + k) ≡ suc j + k = omega arith in
      subst (λ (n : ℕ). after k (after (suc j) s) ≡ after n s) e
        (after_add j k (a.kzalloc_page s).1)

  -- One of the first `n` requests for a page gets none.
  pub RunsOut : ℕ → a.State → Type 0
  RunsOut n s = (k : ℕ) × (k < n) × ((a.kzalloc_page (after k s)).0 ≡ 0)

  -- What has been asked for, `n` pages at most.
  pub Asked : ℕ → a.State → a.State → Type 0
  Asked n s s' = (k : ℕ) × (k ≤ n) × (s' ≡ after k s)

  pub Asked-none : (n : ℕ) (s : a.State) → Asked n s s
  unfolding Asked after
  Asked-none n s = (0, omega arith, refl)

  pub Asked-one : (s s' : a.State) → (s' ≡ s) ⊎ (s' ≡ (a.kzalloc_page s).1) → Asked 1 s s'
  unfolding Asked after
  Asked-one s s' (inl e) = (0, omega arith, e)
  Asked-one s s' (inr e) = (1, omega arith, e)

  pub Asked-add :
      (n n' all : ℕ) (s s' s'' : a.State)
      → n + n' ≤ all
      → Asked n s s'
      → Asked n' s' s''
      → Asked all s s''
  unfolding Asked
  Asked-add n n' all s s' s'' le (j, jl, e) (k, kl, e') =
      (j + k, omega (arith, jl, kl, le), rw e' (rw e (after_add j k s)))

  pub RunsOut-now : (n : ℕ) (s : a.State) → 0 < n → (a.kzalloc_page s).0 ≡ 0 → RunsOut n s
  unfolding RunsOut after
  RunsOut-now n s lt e = (0, lt, e)

  pub RunsOut-after :
      (n n' all : ℕ) (s s' : a.State) → n + n' ≤ all → Asked n s s' → RunsOut n' s' → RunsOut all s
  unfolding Asked RunsOut
  RunsOut-after n n' all s s' le (j, jl, e) (k, kl, none_left) = (
    j + k,
    omega (arith, jl, kl, le),
    subst (λ (t : a.State). (a.kzalloc_page t).0 ≡ 0) (after_add j k s)
        (subst (λ (t : a.State). (a.kzalloc_page (after k t)).0 ≡ 0) e none_left),
  )

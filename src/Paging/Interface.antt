-- ===== src/Paging/Interface.antt =====
-- What the page tables need of the kernel heap: whole pages that no one else holds.
use amog_os.Base.{ℕ, ◌+◌, ◌%◌, ◌^◌, ◌≤◌, ◌≡◌, ◌≢◌}

-- `kzalloc_page s` is `kzalloc(4096)` without its clearing, with 0 for NULL. `Live s p` says that
-- the page at `p` is allocated in `s`.
pub record Allocator : Type 1 where
  pub State : Type 0
  pub kzalloc_page : State → ℕ × State
  pub Live : State → ℕ → Type 0
  pub aligned : (s : State) → (kzalloc_page s).0 ≢ 0 → (kzalloc_page s).0 % 4096 ≡ 0
  pub bounded : (s : State) → (kzalloc_page s).0 ≢ 0 → (kzalloc_page s).0 + 4096 ≤ 2 ^ 32
  pub fresh : (s : State) (p : ℕ) → (kzalloc_page s).0 ≢ 0 → Live s p → p ≢ (kzalloc_page s).0
  pub keeps : (s : State) (p : ℕ) → Live s p → Live (kzalloc_page s).1 p
  pub holds : (s : State) → (kzalloc_page s).0 ≢ 0 → Live (kzalloc_page s).1 (kzalloc_page s).0

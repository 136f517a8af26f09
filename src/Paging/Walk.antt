-- ===== src/Paging/Walk.antt =====
-- What a page table means to the processor, and when its tables lie apart.
use amog_os.Base.{
  ℕ, ◌+◌, ◌/◌, ◌%◌, ◌^◌, ◌<◌, ◌≤◌, ◌≡◌, ◌≢◌, true, arith, if◌then◌else◌, ◌⊎◌, inl, inr, dec_lt,
}
use amog_os.Paging.{Machine, is_present, frame, word_at}
use amog_os.Paging.Entry.{frame-le}
use amog_os.Paging.Interface.{Allocator}

-- The second level's entry for a virtual page, 0 where there is no second level.
unfoldable pub walk : (ℕ → ℕ) → ℕ → ℕ → ℕ
walk mem cr3 vpn =
    let pde = mem (word_at cr3 (vpn / 1024)) in
    if is_present pde then mem (word_at (frame pde) (vpn % 1024)) else 0

-- Words of two pages are two words.
pub words_apart :
    (p q k l : ℕ)
    → p % 4096 ≡ 0
    → q % 4096 ≡ 0
    → p ≢ q
    → k < 1024
    → l < 1024
    → word_at p k ≢ word_at q l
words_apart p q k l hp hq ne hk hl e = ne (omega arith)

pub word_outside :
    (p q k : ℕ)
    → p % 4096 ≡ 0
    → q % 4096 ≡ 0
    → p ≢ q
    → k < 1024
    → (word_at p k < q) ⊎ (q + 4096 ≤ word_at p k)
word_outside p q k hp hq ne hk = elim (dec_lt p q) [
  | yes lt ↦ inl (omega arith)
  | no ge ↦ inr (omega arith)
]

module _ (a : Allocator) where
  open a use {Live}

  -- The directory and the tables that it points to are allocated, and no two are the same page.
  pub record IsWellFormed (cr3 : ℕ) (m : Machine a) : Type 0 where
    pub dir_aligned : cr3 % 4096 ≡ 0
    pub dir_live : Live m.heap cr3
    pub words : (i : ℕ) → i < 1024 → m.mem (word_at cr3 i) < 2 ^ 32
    pub table_live :
        (i : ℕ)
        → i < 1024
        → is_present (m.mem (word_at cr3 i)) ≡ true
        → Live m.heap (frame (m.mem (word_at cr3 i)))
    pub not_dir :
        (i : ℕ)
        → i < 1024
        → is_present (m.mem (word_at cr3 i)) ≡ true
        → frame (m.mem (word_at cr3 i)) ≢ cr3
    pub apart :
        (i j : ℕ)
        → i < 1024
        → j < 1024
        → i ≢ j
        → is_present (m.mem (word_at cr3 i)) ≡ true
        → is_present (m.mem (word_at cr3 j)) ≡ true
        → frame (m.mem (word_at cr3 i)) ≢ frame (m.mem (word_at cr3 j))

  -- A frame is aligned.
  pub frame-aligned : (w : ℕ) → w < 2 ^ 32 → frame w % 4096 ≡ 0
  frame-aligned w lt = omega (arith, frame-le w lt)

  -- The page `table` can stand behind directory entry `d`: it is allocated, and no other entry's.
  pub record IsFor (cr3 : ℕ) (m : Machine a) (d table : ℕ) : Type 0 where
    pub aligned : table % 4096 ≡ 0
    pub bounded : table < 2 ^ 32
    pub live : Live m.heap table
    pub ne_dir : table ≢ cr3
    pub others :
        (j : ℕ)
        → j < 1024
        → j ≢ d
        → is_present (m.mem (word_at cr3 j)) ≡ true
        → frame (m.mem (word_at cr3 j)) ≢ table

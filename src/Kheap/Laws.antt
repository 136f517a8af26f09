-- ===== src/Kheap/Laws.antt =====
-- `kmalloc`, `kfree` and `kzalloc`: which blocks they take and release.
use amog_os.Base.{
  ◌/◌, ◌%◌, subst, ℕ, ◌+◌, ◌-◌, ◌*◌, ◌^◌, ◌<◌, ◌≤◌, ◌≡◌, ◌≢◌, refl, ◌⊎◌, inl, inr, true, false,
  arith, if◌then◌else◌, Option-cases, dec_le,
}
use amog_os.Base.Bits.{bit_and_15}
use amog_os.Kheap.{Kheap, entry_at, is_free, find_run, blocks_for, block_to_addr, mark_run, kmalloc}
use amog_os.Kheap.Search.{FreeRun, FirstFit, find_run-some, find_run-none}
use amog_os.Kheap.Mark.{in_run, run_entry, mark_run-mem, mark_run_same}

-- The heap lies below 4 GiB and not at address 0, and the byte behind the table reads as taken.
pub record IsValid (h : Kheap) : Type 0 where
  pub above_null : 0 < h.start_addr
  pub below_end : h.start_addr + h.num_entries * 4096 ≤ 2 ^ 32
  pub bounded : is_free (entry_at h h.num_entries) ≡ false

-- Free blocks have entry 0.
abbrev pub IsClear : Kheap → Type 0
IsClear h = (j : ℕ) → j < h.num_entries → is_free (entry_at h j) ≡ true → entry_at h j ≡ 0

blocks_for_pos : (size : ℕ) → 0 < size → size + 4095 < 2 ^ 32 → 0 < blocks_for size
unfolding blocks_for
blocks_for_pos size p lt = omega arith

pub blocks_for_page : blocks_for 4096 ≡ 1
unfolding blocks_for
blocks_for_page = refl

-- A request marks what the search finds.
pub kmalloc-FirstFit :
    (size : ℕ) (h : Kheap)
    → 0 < size
    → size + 4095 < 2 ^ 32
    → ((b : ℕ) × FirstFit h (blocks_for size) 0 b
        × (b < h.num_entries)
        × (kmalloc size h ≡ (block_to_addr h b, mark_run b (blocks_for size) h)))
      ⊎ (((c : ℕ) → c < h.num_entries → ¬ FreeRun h c (blocks_for size))
          × (kmalloc size h ≡ (0, h)))
unfolding kmalloc
kmalloc-FirstFit size h p lt = elim (Option-cases (find_run h (blocks_for size) h.num_entries 0)) [
  | inl e ↦ inr (
    λ c below.
        find_run-none h (blocks_for size) h.num_entries 0 (blocks_for_pos size p lt) e c
          (omega arith) (omega arith),
    rw (e, kmalloc),
  )
  | inr (b, e) ↦
      let found =
        find_run-some h (blocks_for size) h.num_entries 0 b (blocks_for_pos size p lt) e in
      inl (b, found.0, omega (arith, found.1), rw (e, kmalloc))
]

-- A run of free blocks of a valid heap ends within the table.
in_range :
    {h : Kheap} (n b : ℕ) → IsValid h → b < h.num_entries → FreeRun h b n → b + n ≤ h.num_entries
in_range {h} n b v lt free = elim (dec_le (b + n) h.num_entries) [
  | yes q ↦ q
  | no q ↦ absurd (cc (v.bounded, free h.num_entries (omega arith) (omega arith)))
]

-- What a request that succeeds has done, with `n` its number of blocks.
pub record Took (h : Kheap) (n : ℕ) (ptr : ℕ) (h' : Kheap) : Type 0 where
  pub block : ℕ
  pub some_blocks : 0 < n
  pub fits : block + n ≤ h.num_entries
  pub was_free : FreeRun h block n
  pub addr : ptr ≡ h.start_addr + block * 4096
  pub same_table : h'.table ≡ h.table
  pub same_num : h'.num_entries ≡ h.num_entries
  pub same_start : h'.start_addr ≡ h.start_addr
  pub marks :
      (a : ℕ)
      → h'.mem a ≡ (if in_run h block n a then run_entry n (a - (h.table + block)) else h.mem a)

pub kmalloc-Took :
    (size : ℕ) (h : Kheap)
    → IsValid h
    → 0 < size
    → size + 4095 < 2 ^ 32
    → (kmalloc size h).0 ≢ 0
    → Took h (blocks_for size) (kmalloc size h).0 (kmalloc size h).1
unfolding block_to_addr
kmalloc-Took size h v p lt ne = elim (kmalloc-FirstFit size h p lt) [
  | inl (b, fit, below, e) ↦ rw e (took b fit below)
  | inr (_, e) ↦ absurd (ne (rw e))
]
  where
    took :
        (b : ℕ)
        → FirstFit h (blocks_for size) 0 b
        → b < h.num_entries
        → Took h (blocks_for size) (block_to_addr h b) (mark_run b (blocks_for size) h)
    took b fit below =
        let n = blocks_for size in
        let same = mark_run_same b n h in
        let pos' = blocks_for_pos size p lt in
        let fits' = in_range n b v below fit.free in
        record {
          block = b;
          some_blocks = pos';
          fits = fits';
          was_free = fit.free;
          addr = omega (arith, v.below_end);
          same_table = same.0;
          same_num = same.1;
          same_start = same.2;
          marks = λ a. mark_run-mem b n h a pos';
        }

is_free-true : (e : ℕ) → e % 16 ≡ 0 → is_free e ≡ true
unfolding is_free
is_free-true e z = ground (arith, z, bit_and_15 e)

is_free-mod : (e : ℕ) → is_free e ≡ true → e % 16 ≡ 0
unfolding is_free
is_free-mod e t = ground (arith, t, bit_and_15 e)

-- The `n` blocks from `b` on lie within the heap and are free: the type in the low four bits of
-- their entries is 0.
pub FreeBlocks : Kheap → ℕ → ℕ → Type 0
FreeBlocks h b n = (b + n ≤ h.num_entries) × ((j : ℕ) → b ≤ j → j < b + n → entry_at h j % 16 ≡ 0)

FreeBlocks-FreeRun : (h : Kheap) (b n : ℕ) → FreeBlocks h b n → FreeRun h b n
unfolding FreeBlocks
FreeBlocks-FreeRun h b n (within, free) j ge lt = is_free-true (entry_at h j) (free j ge lt)

-- What a request for `n` blocks has done that took those from `b` on: the pointer is their address,
-- the entry of the first is 0x41, with the mark 0x80 of a successor if there is one, that of each
-- other one 0x81, of the last one 0x01, and no other byte changes, nor the heap's place and size.
pub record Takes (h : Kheap) (n b : ℕ) (ptr : ℕ) (h' : Kheap) : Type 0 where
  pub addr : ptr ≡ h.start_addr + b * 4096
  pub same_table : h'.table ≡ h.table
  pub same_num : h'.num_entries ≡ h.num_entries
  pub same_start : h'.start_addr ≡ h.start_addr
  pub marks :
      (a : ℕ) → h'.mem a ≡ (if in_run h b n a then run_entry n (a - (h.table + b)) else h.mem a)

-- In a heap below 4 GiB whose table is followed by a byte that reads as taken, let `n` be the
-- number of blocks of 4096 bytes that hold `size` bytes, which are not none and do not come near 2
-- ^ 32. Either kmalloc takes the first `n` free blocks in a row, marks their entries and returns
-- their address; or there are no `n` free blocks in a row, and it returns NULL and leaves memory
-- alone.
pub kmalloc_lem :
    (size : ℕ) (h : Kheap)
    → IsValid h
    → 0 < size
    → size + 4095 < 2 ^ 32
    → ((b : ℕ) × FreeBlocks h b ((size + 4095) / 4096)
        × ((c : ℕ) → c < b → ¬ FreeBlocks h c ((size + 4095) / 4096))
        × Takes h ((size + 4095) / 4096) b (kmalloc size h).0 (kmalloc size h).1)
      ⊎ (((c : ℕ) → ¬ FreeBlocks h c ((size + 4095) / 4096)) × (kmalloc size h ≡ (0, h)))
unfolding FreeBlocks blocks_for block_to_addr
kmalloc_lem size h v p lt =
    let n = (size + 4095) / 4096 in
    let e : blocks_for size ≡ n = omega (arith, lt) in
    let pos' : 0 < n = omega (arith, p) in
    elim (kmalloc-FirstFit size h p lt) [
      | inr (no_run, same) ↦ inr (
        λ c free. no_run c (omega (arith, free.0, pos')) (rw e (FreeBlocks-FreeRun h c n free)),
        same,
      )
      | inl (b, fit, below, same) ↦
          let free : FreeRun h b n = subst (λ (k : ℕ). FreeRun h b k) e fit.free in
          let within = in_range n b v below free in
          let rest = mark_run_same b n h in
          inl (
            b,
            (within, λ j ge jl. is_free-mod (entry_at h j) (free j ge jl)),
            λ c cb other. fit.first c (omega arith) cb (rw e (FreeBlocks-FreeRun h c n other)),
            rw (same, e)
                (record {
                  addr = omega (arith, v.below_end, within, pos');
                  same_table = rest.0;
                  same_num = rest.1;
                  same_start = rest.2;
                  marks = λ a. mark_run-mem b n h a pos';
                }),
          )
    ]

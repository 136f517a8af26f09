-- ===== src/Kheap/Zeroed.antt =====
-- `kheap_init`, and `kzalloc` when memory is short.
use amog_os.Base.{
  ℕ, zero, suc, ◌+◌, ◌^◌, ◌<◌, ◌≤◌, ◌≡◌, refl, some, arith, ltb, leb, ◌&&◌, if◌then◌else◌, inl, inr,
  ◌⊎◌,
}
use amog_os.Base.Int.{pos}
use amog_os.Base.Memory.{update}
use amog_os.Kheap.{
  Kheap, entry_at, is_free, kzalloc, kheap_init, kheap_create, memset, num_free_blocks, count_free,
  validate_ptr_alignment, validate_kheap_table, blocks_for,
}
use amog_os.Kheap.Search.{FreeRun}
use amog_os.Kheap.Laws.{IsClear, kmalloc-FirstFit}

pub memset-mem :
    (mem : ℕ → ℕ) (ptr c n a : ℕ)
    → memset mem ptr c n a ≡ (if leb ptr a && ltb a (ptr + n) then c else mem a)
unfolding memset
memset-mem mem ptr c zero a = ground arith
memset-mem mem ptr c (suc n) a = ground (arith, memset-mem (update mem ptr c) (ptr + 1) c n a)

count_free_all :
    (h : Kheap) (r i : ℕ) → ((j : ℕ) → i ≤ j → j < i + r → entry_at h j ≡ 0) → count_free h r i ≡ r
unfolding count_free is_free
count_free_all h zero i z = refl
count_free_all h (suc r) i z = ground (
  arith,
  z i (omega arith) (omega arith),
  count_free_all h r (i + 1) (λ j ge lt. z j (omega arith) (omega arith)),
)

-- `kheap_init` succeeds, whatever the memory holds, and leaves all 25600 blocks free.
pub kheap_init_lem :
    (mem : ℕ → ℕ)
    → (h : Kheap) × (kheap_init mem ≡ (pos 0, some h))
      × (num_free_blocks h ≡ 25600)
      × IsClear h
      × ((a : ℕ) → (a < 0x7E00) ⊎ (0x7E00 + 25600 ≤ a) → h.mem a ≡ mem a)
unfolding kheap_init kheap_create validate_ptr_alignment validate_kheap_table num_free_blocks
kheap_init_lem mem = (
  heap,
  refl,
  count_free_all heap 25600 0 (λ j ge lt. clear j (omega arith)),
  (λ j lt f. clear j lt),
  λ a out. ground (arith, memset-mem mem 0x7E00 0 25600 a),
)
  where
    heap : Kheap
    heap = record {
      mem = memset mem 0x7E00 0 25600;
      table = 0x7E00;
      num_entries = 25600;
      start_addr = 0x01000000;
    }

    clear : (j : ℕ) → j < 25600 → entry_at heap j ≡ 0
    clear j lt = ground (arith, memset-mem mem 0x7E00 0 25600 (0x7E00 + j))

-- A `kzalloc` that finds no run of free blocks returns NULL and clears the first `size` bytes of
-- memory: where these reach behind the table, every block counts as free from then on.
pub kzalloc_out_of_memory :
    (size : ℕ) (h : Kheap)
    → 0 < size
    → size + 4095 < 2 ^ 32
    → h.table + h.num_entries ≤ size
    → ((c : ℕ) → c < h.num_entries → ¬ FreeRun h c (blocks_for size))
    → ((kzalloc size h).0 ≡ 0) × (num_free_blocks (kzalloc size h).1 ≡ h.num_entries)
unfolding kzalloc num_free_blocks
kzalloc_out_of_memory size h p lt le full = elim (kmalloc-FirstFit size h p lt) [
  | inl (b, fit, below, _) ↦ absurd (full b below fit.free)
  | inr (_, e) ↦ rw e (
    refl,
    count_free_all cleared h.num_entries 0
        λ j ge below. ground (arith, memset-mem h.mem 0 0 size (h.table + j)),
  )
]
  where
    cleared : Kheap
    cleared = record h { mem = memset h.mem 0 0 size }

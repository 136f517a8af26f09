-- ===== src/Paging/Heap.antt =====
-- The kernel heap as the allocator of pages: `kmalloc(4096)` meets the laws that the page tables
-- rest on, in a valid heap that begins at a page's boundary.
use amog_os.Base.{
  ℕ, ◌+◌, ◌*◌, ◌%◌, ◌∙◌, ◌^◌, ◌<◌, ◌≤◌, ◌≡◌, ◌≢◌, refl, false, arith, ℕ_discrete, inl, inr, dec_lt,
}
use amog_os.Kheap.{Kheap, entry_at, is_free, kmalloc, blocks_for, kfree}
use amog_os.Kheap.Valid.{kfree-IsValid, kfree-start}
use amog_os.Kheap.Laws.{IsValid, Took, kmalloc-Took}
use amog_os.Kheap.Release.{Took-IsValid, inside_taken, entry-outside}
use amog_os.Paging.Interface.{Allocator}

pub record HeapState : Type 0 where
  pub heap : Kheap
  pub valid : IsValid heap
  pub start_aligned : heap.start_addr % 4096 ≡ 0

-- The block at `p` is taken.
abbrev pub IsTaken : HeapState → ℕ → Type 0
IsTaken s p =
    (b : ℕ) × (b < s.heap.num_entries)
    × (p ≡ s.heap.start_addr + b * 4096)
    × (is_free (entry_at s.heap b) ≡ false)

took :
    (s : HeapState)
    → (kmalloc 4096 s.heap).0 ≢ 0
    → Took s.heap (blocks_for 4096) (kmalloc 4096 s.heap).0 (kmalloc 4096 s.heap).1
took s got = kmalloc-Took 4096 s.heap s.valid (omega arith) (omega arith) got

pub page_of : (s : HeapState) → Dec ((kmalloc 4096 s.heap).0 ≡ 0) → ℕ × HeapState
page_of s (yes none_left) = (0, s)
page_of s (no got) = (
  (kmalloc 4096 s.heap).0,
  record {
    heap = (kmalloc 4096 s.heap).1;
    valid = Took-IsValid (took s got) s.valid;
    start_aligned = rw ((took s got).same_start) s.start_aligned;
  },
)

pub page-aligned :
    (s : HeapState) (d : Dec ((kmalloc 4096 s.heap).0 ≡ 0))
    → (page_of s d).0 ≢ 0
    → (page_of s d).0 % 4096 ≡ 0
unfolding page_of
page-aligned s (yes z) ne = absurd (ne refl)
page-aligned s (no got) ne =
    let t = took s got in let e = t.addr in let f = s.start_aligned in omega arith

pub page-bounded :
    (s : HeapState) (d : Dec ((kmalloc 4096 s.heap).0 ≡ 0))
    → (page_of s d).0 ≢ 0
    → (page_of s d).0 + 4096 ≤ 2 ^ 32
unfolding page_of
page-bounded s (yes z) ne = absurd (ne refl)
page-bounded s (no got) ne =
    let t = took s got in omega (arith, t.addr, t.fits, t.some_blocks, s.valid.below_end)

pub page-fresh :
    (s : HeapState) (d : Dec ((kmalloc 4096 s.heap).0 ≡ 0)) (p : ℕ)
    → (page_of s d).0 ≢ 0
    → IsTaken s p
    → p ≢ (page_of s d).0
unfolding page_of
page-fresh s (yes z) p ne l e = absurd (ne refl)
page-fresh s (no got) p ne (b, bl, at_b, is_taken) e =
    let t = took s got in
    let q : b ≡ t.block = omega (arith, t.addr) in
    cc (t.was_free b (omega arith) (omega (arith, t.some_blocks)), is_taken)

pub page-keeps :
    (s : HeapState) (d : Dec ((kmalloc 4096 s.heap).0 ≡ 0)) (p : ℕ)
    → IsTaken s p
    → IsTaken (page_of s d).1 p
unfolding page_of
page-keeps s (yes z) p l = l
page-keeps s (no got) p (b, bl, at_b, is_taken) =
    let t = took s got in
    (
      b,
      rw t.same_num bl,
      rw t.same_start at_b,
      elim (dec_lt b t.block) [
        | yes lt ↦ rw (entry-outside t b (inl lt)) is_taken
        | no ge ↦ elim (dec_lt b (t.block + blocks_for 4096)) [
          | yes lt ↦ inside_taken t b (omega arith) lt
          | no out ↦ rw (entry-outside t b (inr (omega arith))) is_taken
        ]
      ],
    )

pub page-holds :
    (s : HeapState) (d : Dec ((kmalloc 4096 s.heap).0 ≡ 0))
    → (page_of s d).0 ≢ 0
    → IsTaken (page_of s d).1 (page_of s d).0
unfolding page_of
page-holds s (yes z) ne = absurd (ne refl)
page-holds s (no got) ne =
    let t = took s got in
    (
      t.block,
      omega (arith, t.same_num, t.fits, t.some_blocks),
      rw t.same_start t.addr,
      inside_taken t t.block (omega arith) (omega (arith, t.some_blocks)),
    )

-- `kfree` of a valid heap.
unfoldable pub kheap_free : ℕ → HeapState → HeapState
kheap_free ptr s = record {
  heap = kfree ptr s.heap;
  valid = kfree-IsValid ptr s.heap s.valid;
  start_aligned = kfree-start s.heap ptr ∙ s.start_aligned;
}

abbrev pub kheap_allocator : Allocator
kheap_allocator = record {
  State = HeapState;
  kzalloc_page = λ s. page_of s (ℕ_discrete (kmalloc 4096 s.heap).0 0);
  Live = IsTaken;
  aligned = λ s. page-aligned s (ℕ_discrete (kmalloc 4096 s.heap).0 0);
  bounded = λ s. page-bounded s (ℕ_discrete (kmalloc 4096 s.heap).0 0);
  fresh = λ s. page-fresh s (ℕ_discrete (kmalloc 4096 s.heap).0 0);
  keeps = λ s. page-keeps s (ℕ_discrete (kmalloc 4096 s.heap).0 0);
  holds = λ s. page-holds s (ℕ_discrete (kmalloc 4096 s.heap).0 0);
}

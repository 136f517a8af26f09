-- ===== src/Kheap/Release.antt =====
-- `kfree` undoes `kmalloc`, and live allocations lie apart.
use amog_os.Base.{
  ℕ, zero, suc, ◌+◌, ◌-◌, ◌/◌, ◌^◌, ◌<◌, ◌≤◌, ◌≡◌, ◌≢◌, ◌⊎◌, inl, inr, true, false, arith, ◌==◌,
  bit_and, ap, sym, ◌∙◌, dec_le, dec_lt, max, Bool-cases,
}
use amog_os.Kheap.{
  Kheap, entry_at, is_free, blocks_for, addr_to_block_index, kmalloc, kfree, has_next, count_free,
  num_free_blocks,
}
use amog_os.Kheap.Mark.{in_run, run_entry}
use amog_os.Kheap.Free.{IsChain, free_run-mem}
use amog_os.Kheap.Laws.{IsValid, IsClear, Took, kmalloc-Took}

run_entry-linked : (n k : ℕ) → k + 1 < n → (bit_and (run_entry n k) has_next == 0) ≡ false
run_entry-linked n k h = ground arith

run_entry_ends : (n k : ℕ) → k + 1 ≡ n → (bit_and (run_entry n k) has_next == 0) ≡ true
run_entry_ends n k h = ground arith

run_entry-taken : (n k : ℕ) → is_free (run_entry n k) ≡ false
unfolding is_free
run_entry-taken n k = ground arith

module _ {h h' : Kheap} {n ptr : ℕ} (t : Took h n ptr h') where
  -- The entry of block `j` after a request that took the blocks from `t.block` on.
  pub entry-inside :
      (j : ℕ) → t.block ≤ j → j < t.block + n → entry_at h' j ≡ run_entry n (j - t.block)
  entry-inside j ge lt =
      let e : h.table + j - (h.table + t.block) ≡ j - t.block = omega arith in
      ground (arith, t.same_table, t.marks (h.table + j), ap (run_entry n) e)

  pub entry-outside : (j : ℕ) → (j < t.block) ⊎ (t.block + n ≤ j) → entry_at h' j ≡ entry_at h j
  entry-outside j (inl lt) = ground (arith, t.same_table, t.marks (h.table + j))
  entry-outside j (inr ge) = ground (arith, t.same_table, t.marks (h.table + j))

  pub inside_taken : (j : ℕ) → t.block ≤ j → j < t.block + n → is_free (entry_at h' j) ≡ false
  inside_taken j ge lt = rw (entry-inside j ge lt) (run_entry-taken n (j - t.block))

  Took-IsChain : IsChain h' t.block (t.block + n - 1)
  Took-IsChain = record {
    linked = λ j ge lt.
        rw (entry-inside j ge (omega arith)) (run_entry-linked n (j - t.block) (omega arith));
    ends =
        let p = t.some_blocks in
        rw (entry-inside (t.block + n - 1) (omega arith) (omega arith))
          (run_entry_ends n (t.block + n - 1 - t.block) (omega arith));
  }

  -- A valid heap stays valid.
  pub Took-IsValid : IsValid h → IsValid h'
  Took-IsValid v = record {
    above_null = rw t.same_start v.above_null;
    below_end = rw (t.same_start, t.same_num) v.below_end;
    bounded = rw (t.same_num, entry-outside h.num_entries (inr t.fits)) v.bounded;
  }

  index_of_ptr : IsValid h → addr_to_block_index h' ptr ≡ t.block
  unfolding addr_to_block_index
  index_of_ptr v =
      let b = v.below_end in
      let f = t.fits in let p = t.some_blocks in rw (t.same_start, t.addr) (omega arith)

  clear_inside : IsClear h → (a : ℕ) → in_run h t.block n a ≡ true → h.mem a ≡ 0
  clear_inside clear a e =
      let e' : h.table + (a - h.table) ≡ a = ground arith in
      let c =
        clear (a - h.table) (ground (arith, t.fits))
          (t.was_free (a - h.table) (ground arith) (ground arith)) in
      sym (ap h.mem e') ∙ c

  -- Freeing what the request returned restores the memory.
  pub kfree-Took : IsValid h → IsClear h → (a : ℕ) → (kfree ptr h').mem a ≡ h.mem a
  unfolding kfree
  kfree-Took v clear a =
      let p = t.some_blocks in
      let f = t.fits in
      rw
        (
          index_of_ptr v,
          free_run-mem (h'.num_entries - t.block) t.block (t.block + n - 1) h' a (omega arith)
              (omega (arith, t.same_num)) Took-IsChain,
        )
        (elim (Bool-cases (in_run h t.block n a)) [
          | inl e ↦ ground (arith, t.same_table, clear_inside clear a e)
          | inr e ↦ ground (arith, t.same_table, t.marks a)
        ])

  -- From block `i` on, the request leaves as many free blocks fewer as it took there.
  count_free-Took :
      (r i : ℕ)
      → t.block + n ≤ i + r
      → count_free h r i ≡ count_free h' r i + (t.block + n - max i t.block)
  unfolding count_free
  count_free-Took zero i le = omega arith
  count_free-Took (suc r) i le = elim (dec_lt i t.block) [
    | yes lt ↦
        rw (entry-outside i (inl lt)) (omega (arith, count_free-Took r (i + 1) (omega arith)))
    | no ge ↦ elim (dec_lt i (t.block + n)) [
      | yes lt ↦
          rw (inside_taken i (omega arith) lt, t.was_free i (omega arith) lt)
            (omega (arith, count_free-Took r (i + 1) (omega arith)))
      | no out ↦
          rw (entry-outside i (inr (omega arith)))
            (omega (arith, count_free-Took r (i + 1) (omega arith)))
    ]
  ]

-- Two requests that succeed one after the other get blocks that lie apart.
Took-disjoint :
    {h h₁ h₂ : Kheap} {n m p q : ℕ} (t : Took h n p h₁) (u : Took h₁ m q h₂)
    → (t.block + n ≤ u.block) ⊎ (u.block + m ≤ t.block)
Took-disjoint {n} {m} t u = elim (dec_le (t.block + n) u.block) [
  | yes a ↦ inl a
  | no a ↦ elim (dec_le (u.block + m) t.block) [
    | yes b ↦ inr b
    | no b ↦
        let j = max t.block u.block in
        let x = t.some_blocks in
        let y = u.some_blocks in
        absurd (
          cc (
            inside_taken t j (omega arith) (omega arith),
            u.was_free j (omega arith) (omega arith),
          ))
  ]
]

module _ (h : Kheap) (v : IsValid h) (size : ℕ) (p : 0 < size) (lt : size + 4095 < 2 ^ 32)
    (ne : (kmalloc size h).0 ≢ 0) where
  -- In a valid heap in which free blocks have entry 0, freeing the pointer that a request has just
  -- returned gives back the memory as it was before the request.
  pub kfree-kmalloc :
      IsClear h → let (ptr, h') = kmalloc size h in (a : ℕ) → (kfree ptr h').mem a ≡ h.mem a
  kfree-kmalloc clear = kfree-Took (kmalloc-Took size h v p lt ne) v clear

  -- A request that succeeds in a valid heap takes `ceil(size / 4096)` from the number of free
  -- blocks, and leaves the heap valid.
  pub num_free_blocks-kmalloc :
      (num_free_blocks h ≡ num_free_blocks (kmalloc size h).1 + (size + 4095) / 4096)
      × IsValid (kmalloc size h).1
  unfolding num_free_blocks blocks_for
  num_free_blocks-kmalloc =
      let t = kmalloc-Took size h v p lt ne in
      (
        rw t.same_num (omega (arith, count_free-Took t h.num_entries 0 (omega (arith, t.fits)))),
        Took-IsValid t v,
      )

  -- Of two requests that succeed one after the other in a valid heap, neither gets a byte of the
  -- other's blocks.
  pub kmalloc_disjoint :
      (size' : ℕ)
      → 0 < size'
      → size' + 4095 < 2 ^ 32
      → let (ptr, h') = kmalloc size h in
        let (ptr', h₂) = kmalloc size' h' in ptr' ≢ 0 → (ptr + size ≤ ptr') ⊎ (ptr' + size' ≤ ptr)
  unfolding blocks_for
  kmalloc_disjoint size' p' lt' ne' =
      let t = kmalloc-Took size h v p lt ne in
      let u = kmalloc-Took size' (kmalloc size h).1 (Took-IsValid t v) p' lt' ne' in
      elim (Took-disjoint t u) [
        | inl a ↦ inl (omega (arith, t.addr, u.addr, t.same_start))
        | inr b ↦ inr (omega (arith, t.addr, u.addr, t.same_start))
      ]

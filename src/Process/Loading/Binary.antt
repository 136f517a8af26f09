-- ===== src/Process/Loading/Binary.antt =====
-- Where the code, the data and the stack of a binary program are found.
use amog_os.Base.{
  ℕ, ◌+◌, ◌-◌, ◌*◌, ◌/◌, ◌%◌, ◌^◌, ◌<◌, ◌≤◌, ◌≡◌, ◌⊎◌, inl, inr, refl, ap, ◌∙◌, some, arith,
  if◌then◌else◌,
}
use amog_os.Base.Int.{ℤ, pos, neg, is_ok}
use amog_os.Paging.Interface.{Allocator}
use amog_os.Paging.{Machine, paging_up_align_addr, paging_map_memory_region}
use amog_os.Paging.Align.{is_page_aligned-true, paging_up_align_addr-ceiling}
use amog_os.Paging.Memory.{RunsOut, Asked, Asked-none, RunsOut-after}
use amog_os.Paging.Region.{
  Missing, Missing-before, Keeps, translate, translate-walk, paging_map_memory_region_lem,
}
use amog_os.Paging.Walk.{walk, IsWellFormed}
use amog_os.Base.Words.{add32}
use amog_os.Process.Arguments.{default_user_stack_start, default_user_stack_size}
use amog_os.Process.Loading.{
  default_user_prog_entry, default_user_stack_end, map_stack, process_map_binary, user_data,
}

module _ (a : Allocator) (cr3 : ℕ) where
  -- The bytes from `va_start` to `va_end` are found from `paddr` on.
  abbrev pub Found : Machine a → ℕ → ℕ → ℕ → Type 0
  Found m va_start va_end paddr =
      (va : ℕ)
      → va_start ≤ va
      → va < va_end
      → translate m.mem cr3 va ≡ some (paddr + (va - va_start))

  -- What `paging_map_memory_region` comes to for a region of whole pages.
  unfoldable pub Region : Machine a → ℕ → ℕ → ℕ → ℤ × Machine a → Type 0
  Region m va_start va_end paddr r =
      ((r.0 ≡ pos 0)
        × Found r.1 va_start va_end paddr
        × ((u : ℕ)
            → u < 2 ^ 20
            → (u < va_start / 4096) ⊎ (va_end / 4096 ≤ u)
            → walk r.1.mem cr3 u ≡ walk m.mem cr3 u)
        × IsWellFormed a cr3 r.1
        × Asked a (va_end / 4096 - va_start / 4096) m.heap r.1.heap
        × Keeps a cr3 m r.1)
      ⊎ ((r.0 ≡ neg 3)
          × RunsOut a (va_end / 4096 - va_start / 4096) m.heap
          × Missing a cr3 m (va_start / 4096) (va_end / 4096 - va_start / 4096))

  map_stack-Region :
      (stack_paddr : ℕ) (m : Machine a)
      → IsWellFormed a cr3 m
      → stack_paddr % 4096 ≡ 0
      → stack_paddr + default_user_stack_size ≤ 2 ^ 32
      → Region m default_user_stack_end default_user_stack_start stack_paddr
          (map_stack a cr3 stack_paddr m)
  unfolding map_stack Region
  map_stack-Region stack_paddr m wf al le =
      paging_map_memory_region_lem a cr3 m default_user_stack_end stack_paddr
        default_user_stack_start user_data wf (is_page_aligned-true default_user_stack_end refl)
        (is_page_aligned-true stack_paddr al) (is_page_aligned-true default_user_stack_start refl)
        (omega arith) (omega arith) (omega (arith, le)) (omega arith) refl

  -- There is too little memory for a program of `size` bytes and its stack: one of the first
  -- requests for a page, as many as both have pages, gets none, and a page of one of them has no
  -- second level.
  pub TooLittle : ℕ → Machine a → Type 0
  TooLittle size m =
      RunsOut a ((size + 4095) / 4096 + 4) m.heap
      × (Missing a cr3 m (default_user_prog_entry / 4096) ((size + 4095) / 4096)
          ⊎ Missing a cr3 m (default_user_stack_end / 4096) 4)

  -- The two regions one after the other.
  pub Loaded : ℕ → ℕ → ℕ → Machine a → ℤ × Machine a → Type 0
  Loaded size code_data_paddr stack_paddr m r =
      ((r.0 ≡ pos 0)
        × Found r.1 default_user_prog_entry (default_user_prog_entry + size) code_data_paddr
        × Found r.1 default_user_stack_end default_user_stack_start stack_paddr
        × IsWellFormed a cr3 r.1)
      ⊎ ((r.0 ≡ neg 3) × TooLittle size m)

  both :
      (size code stack data_end : ℕ) (m : Machine a) (r : ℤ × Machine a)
      → default_user_prog_entry + size ≤ data_end
      → data_end ≤ 2 ^ 32
      → data_end / 4096 - default_user_prog_entry / 4096 ≡ (size + 4095) / 4096
      → stack % 4096 ≡ 0
      → stack + default_user_stack_size ≤ 2 ^ 32
      → Region m default_user_prog_entry data_end code r
      → Loaded size code stack m (if is_ok r.0 then map_stack a cr3 stack r.1 else r)
  unfolding Region Loaded TooLittle
  both size code stack data_end m r le end pages al fits (inr (e, out, missing)) =
      let n = data_end / 4096 - default_user_prog_entry / 4096 in
      rw e (
        inr (
          refl,
          (
            RunsOut-after a 0 n ((size + 4095) / 4096 + 4) m.heap m.heap (omega (arith, pages))
                (Asked-none a 0 m.heap) out,
            inl (
                Missing-before a cr3 m m (default_user_prog_entry / 4096) n
                  (default_user_prog_entry / 4096) ((size + 4095) / 4096) (λ d dl y. y)
                  (omega arith) (omega (arith, pages)) (omega (arith, end, le)) missing),
          ),
        ))
  both size code stack data_end m r le end pages al fits
        (inl (ok, inside, outside, wf, asked, keeps)) =
      let n = data_end / 4096 - default_user_prog_entry / 4096 in
      rw ok (elim (map_stack-Region stack r.1 wf al fits) [
        | inr (e, out, missing) ↦ inr (
          e,
          (
            RunsOut-after a n 4 ((size + 4095) / 4096 + 4) m.heap r.1.heap (omega (arith, pages))
                asked out,
            inr (
                Missing-before a cr3 m r.1 (default_user_stack_end / 4096) 4
                  (default_user_stack_end / 4096) 4 keeps (omega arith) (omega arith) (omega arith)
                  missing),
          ),
        )
        | inl (ok', inside', outside', wf', asked', keeps') ↦ inl (
          ok',
          λ va ge lt.
              translate-walk r.1.mem (map_stack a cr3 stack r.1).1.mem cr3 va
                (outside' (va / 4096) (omega (arith, lt, le, end)) (inr (omega (arith, ge))))
              ∙ inside va ge (omega (arith, lt, le)),
          inside',
          wf',
        )
      ])

  -- In a page table whose tables lie apart, for a program of at least one byte and a stack at page
  -- boundaries, neither over the end of memory. Either each byte of the program is found at its
  -- distance from the entry point, each byte of the stack at its distance from the end of the
  -- stack, and the tables still lie apart. Or the result is -STATUS_NOT_ENOUGH_MEM, and then there
  -- is too little memory: one of the first requests to the heap for a page, as many as program and
  -- stack have pages, gets none, and a page of one of them has no second level.
  pub process_map_binary_lem :
      (size code_data_paddr stack_paddr : ℕ) (m : Machine a)
      → IsWellFormed a cr3 m
      → 0 < size
      → default_user_prog_entry + size + 4095 < 2 ^ 32
      → code_data_paddr % 4096 ≡ 0
      → code_data_paddr + size + 4095 ≤ 2 ^ 32
      → stack_paddr % 4096 ≡ 0
      → stack_paddr + default_user_stack_size ≤ 2 ^ 32
      → let (res, m') = process_map_binary a cr3 size code_data_paddr stack_paddr m in
        ((res ≡ pos 0)
          × ((va : ℕ)
              → default_user_prog_entry ≤ va
              → va < default_user_prog_entry + size
              → translate m'.mem cr3 va ≡ some (code_data_paddr + (va - default_user_prog_entry)))
          × ((va : ℕ)
              → default_user_stack_end ≤ va
              → va < default_user_stack_start
              → translate m'.mem cr3 va ≡ some (stack_paddr + (va - default_user_stack_end)))
          × IsWellFormed a cr3 m')
        ⊎ ((res ≡ neg 3) × TooLittle size m)
  unfolding process_map_binary Region Loaded
  process_map_binary_lem size code stack m wf some_bytes end cal cfits al fits =
      let top : add32 default_user_prog_entry size ≡ default_user_prog_entry + size =
        omega (arith, end) in
      let data_end = paging_up_align_addr (add32 default_user_prog_entry size) in
      let e : data_end ≡ (default_user_prog_entry + size + 4095) / 4096 * 4096 =
        ap paging_up_align_addr top
        ∙ paging_up_align_addr-ceiling (default_user_prog_entry + size) end in
      let aligned : data_end % 4096 ≡ 0 = omega (arith, e) in
      both size code stack data_end m
        (paging_map_memory_region a cr3 default_user_prog_entry code data_end user_data m)
        (omega (arith, e)) (omega (arith, e, end)) (omega (arith, e)) al fits
        (paging_map_memory_region_lem a cr3 m default_user_prog_entry code data_end user_data wf
          (is_page_aligned-true default_user_prog_entry refl) (is_page_aligned-true code cal)
          (is_page_aligned-true data_end aligned) (omega (arith, e, some_bytes))
          (omega (arith, e, end)) (omega (arith, e, cfits)) (omega arith) refl)

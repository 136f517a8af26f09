-- ===== src/Process/Loading/Segments.antt =====
-- Where the bytes of a segment of an ELF program are found.
use amog_os.Base.{
  ℕ, ◌+◌, ◌-◌, ◌*◌, ◌/◌, ◌%◌, ◌^◌, ◌<◌, ◌≤◌, ◌≡◌, ◌≢◌, ◌⊎◌, inl, inr, refl, ap, ◌∙◌, subst, some,
  true, false, Bool-cases, bit_and, leb, ◌==◌, arith,
}
use amog_os.Base.Int.{ℤ, pos, neg}
use amog_os.Base.Words.{add32}
use amog_os.Elf.{ElfFile, Phdr, pt_load}
use amog_os.Paging.Interface.{Allocator}
use amog_os.Paging.{Machine, paging_down_align_addr, paging_up_align_addr, paging_map_memory_region}
use amog_os.Paging.Align.{
  is_page_aligned-true, paging_down_align_addr-floor, paging_up_align_addr-ceiling,
}
use amog_os.Paging.Memory.{RunsOut}
use amog_os.Paging.Region.{Missing, translate, paging_map_memory_region_lem}
use amog_os.Paging.Walk.{IsWellFormed}
use amog_os.Process.{Process}
use amog_os.Process.Loading.{
  pf_w, elf_phdr_phys_address, segment_flags, map_segment_at, map_segment, copy_segment,
}
use amog_os.Process.Loading.Binary.{Region}

segment_flags-odd : (ph : Phdr) → (segment_flags ph < 256) × (segment_flags ph % 2 ≡ 1)
unfolding segment_flags
segment_flags-odd ph = elim (Bool-cases (bit_and ph.p_flags pf_w == 0)) [
  | inl t ↦ rw t (omega arith, refl)
  | inr f ↦ rw f (omega arith, refl)
]

module _ (a : Allocator) (kzalloc : ℕ → Machine a → ℕ × Machine a)
    (copy : ℕ → ℕ → ℕ → Machine a → Machine a) (cr3 : ℕ) where
  -- How many pages the segment touches.
  pub pages_of : Phdr → ℕ
  pages_of ph = (ph.p_vaddr % 4096 + ph.p_memsz + 4095) / 4096

  -- There is too little memory for the segment: one of the first requests for a page, as many as
  -- it touches pages, gets none, and a page of it has no second level.
  pub TooLittle : Phdr → Machine a → Type 0
  TooLittle ph m =
      RunsOut a (pages_of ph) m.heap × Missing a cr3 m (ph.p_vaddr / 4096) (pages_of ph)

  -- The byte `k` of the segment is found at the byte `k` from `p` on, or memory runs out.
  pub Placed : Phdr → ℕ → Machine a → ℤ × Machine a → Type 0
  Placed ph p m r =
      ((r.0 ≡ pos 0)
        × ((k : ℕ) → k < ph.p_memsz → translate r.1.mem cr3 (ph.p_vaddr + k) ≡ some (p + k))
        × IsWellFormed a cr3 r.1)
      ⊎ ((r.0 ≡ neg 3) × TooLittle ph m)

  Region-Placed :
      (ph : Phdr) (m : Machine a) (pa_start va_start va_end p : ℕ) (r : ℤ × Machine a)
      → va_start ≤ ph.p_vaddr
      → ph.p_vaddr + ph.p_memsz ≤ va_end
      → p ≡ pa_start + (ph.p_vaddr - va_start)
      → va_start / 4096 ≡ ph.p_vaddr / 4096
      → va_end / 4096 - va_start / 4096 ≡ pages_of ph
      → Region a cr3 m va_start va_end pa_start r
      → Placed ph p m r
  unfolding Region Placed TooLittle
  Region-Placed ph m pa_start va_start va_end p r from to e first pages
        (inr (failed, out, missing)) =
      inr (
        failed,
        (
          subst (λ (n : ℕ). RunsOut a n m.heap) pages out,
          subst (λ (v : ℕ). Missing a cr3 m v (pages_of ph)) first
              (subst (λ (n : ℕ). Missing a cr3 m (va_start / 4096) n) pages missing),
        ),
      )
  Region-Placed ph m pa_start va_start va_end p r from to e first pages
        (inl (ok, inside, outside, wf, asked, keeps)) =
      inl (
        ok,
        λ k lt.
            inside (ph.p_vaddr + k) (omega (arith, from)) (omega (arith, to, lt))
            ∙ ap some (omega (arith, from, e)),
        wf,
      )

  map_segment_at_lem :
      (ph : Phdr) (pa_start : ℕ) (m : Machine a)
      → IsWellFormed a cr3 m
      → 0 < ph.p_memsz
      → ph.p_vaddr + ph.p_memsz + 4095 < 2 ^ 32
      → pa_start % 4096 ≡ 0
      → pa_start + ph.p_memsz + 8192 ≤ 2 ^ 32
      → Placed ph (pa_start + ph.p_vaddr % 4096) m (map_segment_at a kzalloc copy cr3 pa_start ph m)
  unfolding map_segment_at Region pages_of
  map_segment_at_lem ph pa_start m wf some_bytes end al fits =
      let va_start = paging_down_align_addr ph.p_vaddr in
      let va_end = paging_up_align_addr (add32 ph.p_vaddr ph.p_memsz) in
      let s : va_start ≡ ph.p_vaddr / 4096 * 4096 =
        paging_down_align_addr-floor ph.p_vaddr (omega (arith, end)) in
      let top : add32 ph.p_vaddr ph.p_memsz ≡ ph.p_vaddr + ph.p_memsz = omega (arith, end) in
      let e : va_end ≡ (ph.p_vaddr + ph.p_memsz + 4095) / 4096 * 4096 =
        ap paging_up_align_addr top ∙ paging_up_align_addr-ceiling (ph.p_vaddr + ph.p_memsz) end in
      let more : leb va_end va_start ≡ false = ground (arith, s, e, some_bytes) in
      let flags = segment_flags-odd ph in
      rw more (
        Region-Placed ph m pa_start va_start va_end (pa_start + ph.p_vaddr % 4096)
          (paging_map_memory_region a cr3 va_start pa_start va_end (segment_flags ph) m)
          (omega (arith, s)) (omega (arith, e)) (omega (arith, s)) (omega (arith, s))
          (omega (arith, s, e))
          (paging_map_memory_region_lem a cr3 m va_start pa_start va_end (segment_flags ph) wf
            (is_page_aligned-true va_start (omega (arith, s))) (is_page_aligned-true pa_start al)
            (is_page_aligned-true va_end (omega (arith, e))) (omega (arith, s, e, some_bytes))
            (omega (arith, e, end)) (omega (arith, s, e, fits)) flags.0 flags.1))

  -- For a segment to load that is not empty, that the file holds whole, at an address that differs
  -- from its place in the memory of the file by whole pages, and that does not come near the end of
  -- memory, in a page table whose tables lie apart: the round of `process_map_elf` changes no
  -- memory block. Either it maps the segment, so that each of its bytes is found where it lies in
  -- the memory of the file, and the tables still lie apart; or the result is
  -- -STATUS_NOT_ENOUGH_MEM, and then one of the first requests to the heap for a page, as many as
  -- the segment touches pages, gets none, and a page of the segment has no second level.
  pub map_segment_lem :
      (file : ElfFile) (ph : Phdr) (proc : Process) (m : Machine a)
      → IsWellFormed a cr3 m
      → ph.p_type ≡ pt_load
      → 0 < ph.p_memsz
      → ph.p_filesz ≡ ph.p_memsz
      → ph.p_vaddr + ph.p_memsz + 4095 < 2 ^ 32
      → file.elf_memory + ph.p_offset + ph.p_memsz + 8192 ≤ 2 ^ 32
      → (file.elf_memory + ph.p_offset) % 4096 ≡ ph.p_vaddr % 4096
      → (res : ℤ) × (m' : Machine a) × (map_segment a kzalloc copy cr3 file ph proc m
          ≡ some (res, proc, m'))
        × (((res ≡ pos 0)
              × ((k : ℕ)
                  → k < ph.p_memsz
                  → translate m'.mem cr3 (ph.p_vaddr + k)
                    ≡ some (file.elf_memory + ph.p_offset + k))
              × IsWellFormed a cr3 m')
            ⊎ ((res ≡ neg 3) × TooLittle ph m))
  unfolding map_segment elf_phdr_phys_address Placed
  map_segment_lem file ph proc m wf load some_bytes whole end fits same =
      let pa = elf_phdr_phys_address file ph in
      let at_file : pa ≡ file.elf_memory + ph.p_offset = omega (arith, fits) in
      let pa_start = paging_down_align_addr pa in
      let s : pa_start ≡ pa / 4096 * 4096 =
        paging_down_align_addr-floor pa (omega (arith, at_file, fits)) in
      let t₁ : (ph.p_type == pt_load) ≡ true = ground (arith, load) in
      let t₂ : (ph.p_memsz == 0) ≡ false = ground (arith, some_bytes) in
      let t₃ : (ph.p_filesz == ph.p_memsz) ≡ true = ground (arith, whole) in
      let r = map_segment_at a kzalloc copy cr3 pa_start ph m in
      let place : pa_start + ph.p_vaddr % 4096 ≡ file.elf_memory + ph.p_offset =
        omega (arith, s, at_file, same) in
      (
        r.0,
        r.1,
        rw t₁ (rw t₂ (rw t₃ refl)),
        subst (λ (p : ℕ). Placed ph p m r) place
            (map_segment_at_lem ph pa_start m wf some_bytes end (omega (arith, s))
              (omega (arith, s, at_file, fits))),
      )

  -- For a segment with more bytes in memory than in the file, with the new memory at `new`: its
  -- byte `k` is found at the byte `k` behind the offset of its address in a page, counted from
  -- `new`, if memory does not run out for a second level.
  pub copy_segment_lem :
      (file : ElfFile) (ph : Phdr) (proc : Process) (m m₁ : Machine a) (new : ℕ)
      → kzalloc ph.p_memsz m ≡ (new, m₁)
      → new ≢ 0
      → new % 4096 ≡ 0
      → new + ph.p_memsz + 8192 ≤ 2 ^ 32
      → IsWellFormed a cr3 (copy new (elf_phdr_phys_address file ph) ph.p_filesz m₁)
      → 0 < ph.p_memsz
      → ph.p_vaddr + ph.p_memsz + 4095 < 2 ^ 32
      → let (res, proc', m') = copy_segment a kzalloc copy cr3 file ph proc m in
        Placed ph
          (new + ph.p_vaddr % 4096)
          (copy new (elf_phdr_phys_address file ph) ph.p_filesz m₁)
          (res, m')
  unfolding copy_segment
  copy_segment_lem file ph proc m m₁ new e nz al fits wf some_bytes end =
      let f : (new == 0) ≡ false = ground (arith, nz) in
      rw e (
        rw f (
          map_segment_at_lem ph new (copy new (elf_phdr_phys_address file ph) ph.p_filesz m₁) wf
            some_bytes end al fits))

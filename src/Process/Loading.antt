-- ===== src/Process/Loading.antt =====
-- The mapping of a program into the page table `cr3` of its task: `process_map_binary`,
-- `process_map_elf` and `process_map_memory` of src/task/process.c.
pub mod Binary
pub mod Segments
mod Tests
use amog_os.Base.{
  ℕ, zero, suc, ◌+◌, ◌-◌, Option, none, some, Bool, true, false, ltb, leb, ◌==◌, bit_and, bit_or,
  if◌then◌else◌,
}
use amog_os.Base.Int.{ℤ, pos, neg, is_ok}
use amog_os.Base.Words.{add32}
use amog_os.Elf.{ElfFile, Phdr, pt_load, elf_header, elf_program_header}
use amog_os.Paging.Interface.{Allocator}
use amog_os.Paging.{
  Machine, page_present, page_user_access_allow, page_write_allow, paging_down_align_addr,
  paging_up_align_addr, paging_map_memory_region,
}
use amog_os.Process.{Process, process_add_vmem_block}
use amog_os.Process.Arguments.{default_user_stack_start, default_user_stack_size}
use amog_os.Process.Lifecycle.{FileType, proc_file_type_elf, proc_file_type_binary}

abbrev pub default_user_prog_entry : ℕ
default_user_prog_entry = 0x8400000

abbrev pub default_user_stack_end : ℕ
default_user_stack_end = default_user_stack_start - default_user_stack_size

abbrev pub pf_w : ℕ
pf_w = 2

-- `PAGE_PRESENT | PAGE_WRITE_ALLOW | PAGE_USER_ACCESS_ALLOW`
abbrev pub user_data : ℕ
user_data = bit_or (bit_or page_present page_write_allow) page_user_access_allow

-- `elf_phdr_phys_address`
pub elf_phdr_phys_address : ElfFile → Phdr → ℕ
elf_phdr_phys_address file ph = add32 file.elf_memory ph.p_offset

pub segment_flags : Phdr → ℕ
segment_flags ph =
    let flags = bit_or page_present page_user_access_allow in
    if bit_and ph.p_flags pf_w == 0 then flags else bit_or flags page_write_allow

module _ (a : Allocator) where
  -- The end of both functions: the stack.
  pub map_stack : ℕ → ℕ → Machine a → ℤ × Machine a
  map_stack cr3 stack_paddr m =
      paging_map_memory_region a cr3 default_user_stack_end stack_paddr default_user_stack_start
        user_data m

  -- `size` bytes at `code_data_paddr`.
  pub process_map_binary : ℕ → ℕ → ℕ → ℕ → Machine a → ℤ × Machine a
  process_map_binary cr3 size code_data_paddr stack_paddr m =
      let data_end = paging_up_align_addr (add32 default_user_prog_entry size) in
      let (res, m') =
        paging_map_memory_region a cr3 default_user_prog_entry code_data_paddr data_end user_data
          m in
      if is_ok res then map_stack cr3 stack_paddr m' else (res, m')

-- `kzalloc` is that of the heap, and `copy dst src n` is `memcpy` in physical memory.
module _ (a : Allocator) (kzalloc : ℕ → Machine a → ℕ × Machine a)
    (copy : ℕ → ℕ → ℕ → Machine a → Machine a) where
  -- From `va_start` on, for the segment at `pa_start`.
  pub map_segment_at : ℕ → ℕ → Phdr → Machine a → ℤ × Machine a
  map_segment_at cr3 pa_start ph m =
      let va_start = paging_down_align_addr ph.p_vaddr in
      let va_end = paging_up_align_addr (add32 ph.p_vaddr ph.p_memsz) in
      if leb va_end va_start
      then (pos 0, m)
      else paging_map_memory_region a cr3 va_start pa_start va_end (segment_flags ph) m

  -- A segment with more bytes in memory than in the file is copied; the new memory becomes a block
  -- of the process, if one is free.
  pub copy_segment : ℕ → ElfFile → Phdr → Process → Machine a → ℤ × Process × Machine a
  copy_segment cr3 file ph proc m =
      let (pa_start, m₁) = kzalloc ph.p_memsz m in
      let m₂ = copy pa_start (elf_phdr_phys_address file ph) ph.p_filesz m₁ in
      let proc' = (process_add_vmem_block proc pa_start (add32 pa_start ph.p_memsz)).1 in
      let (res, m₃) = map_segment_at cr3 pa_start ph m₂ in
      if pa_start == 0 then (neg 3, proc, m₁) else (res, proc', m₃)

  -- A round of the loop of `process_map_elf`; none for the panic.
  pub map_segment : ℕ → ElfFile → Phdr → Process → Machine a → Option (ℤ × Process × Machine a)
  map_segment cr3 file ph proc m =
      let pa_start = paging_down_align_addr (elf_phdr_phys_address file ph) in
      let (res, m') = map_segment_at cr3 pa_start ph m in
      if ph.p_type == pt_load
      then if ph.p_memsz == 0
        then some (pos 0, proc, m)
        else if ph.p_filesz == ph.p_memsz
        then some (res, proc, m')
        else if ltb ph.p_memsz ph.p_filesz
        then none
        else some (copy_segment cr3 file ph proc m)
      else some (pos 0, proc, m)

  -- The loop over the program headers from `i` on.
  pub map_segments :
      ℕ → ElfFile → (ℕ → Phdr) → ℕ → ℕ → Process → Machine a → Option (ℤ × Process × Machine a)
  map_segments cr3 file phdrs zero i proc m = some (pos 0, proc, m)
  map_segments cr3 file phdrs (suc left) i proc m = elim (map_segment cr3 file (phdrs i) proc m) [
    | none ↦ none
    | some (res, proc', m') ↦
        let rest = map_segments cr3 file phdrs left (i + 1) proc' m' in
        if is_ok res then rest else some (res, proc', m')
  ]

  -- `bytes` is the memory that the file has been read to.
  pub process_map_elf :
      ℕ → (ℕ → ℕ) → ElfFile → ℕ → Process → Machine a → Option (ℤ × Process × Machine a)
  process_map_elf cr3 bytes file stack_paddr proc m =
      elim (map_segments cr3 file (elf_program_header bytes file) (elf_header bytes file).e_phnum 0
        proc m) [
          | none ↦ none
          | some (res, proc', m') ↦
              let (res', m'') = map_stack a cr3 stack_paddr m' in
              if is_ok res then some (res', proc', m'') else some (res, proc', m')
        ]

  -- `process_map_memory`, for the two types of file.
  pub process_map_memory :
      FileType
      → ℕ
      → (ℕ → ℕ)
      → ElfFile
      → ℕ
      → ℕ
      → ℕ
      → Process
      → Machine a
      → Option (ℤ × Process × Machine a)
  process_map_memory proc_file_type_binary cr3 bytes file size code_data_paddr stack_paddr proc m =
      let (res, m') = process_map_binary a cr3 size code_data_paddr stack_paddr m in
      some (res, proc, m')
  process_map_memory proc_file_type_elf cr3 bytes file size code_data_paddr stack_paddr proc m =
      process_map_elf cr3 bytes file stack_paddr proc m

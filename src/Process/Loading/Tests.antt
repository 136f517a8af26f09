-- ===== src/Process/Loading/Tests.antt =====
-- A program of 100 bytes, and a segment of as many, over an empty page table.
use amog_os.Base.{ℕ, ◌+◌, ◌-◌, ◌<◌, ◌≤◌, ◌≡◌, ◌⊎◌, refl, some, arith}
use amog_os.Base.Int.{ℤ, pos, neg}
use amog_os.Elf.{ElfFile, Phdr}
use amog_os.Paging.Heap.{kheap_allocator}
use amog_os.Paging.{Machine}
use amog_os.Paging.Region.{translate}
use amog_os.Paging.Samples.{machine, machine-IsWellFormed}
use amog_os.Paging.Walk.{IsWellFormed}
use amog_os.Process.{cleared}
use amog_os.Process.Arguments.{default_user_stack_start}
use amog_os.Process.Loading.{
  default_user_prog_entry, default_user_stack_end, process_map_binary, map_segment,
}
use amog_os.Process.Loading.Binary
use amog_os.Process.Loading.Binary.{process_map_binary_lem}
use amog_os.Process.Loading.Segments
use amog_os.Process.Loading.Segments.{map_segment_lem}

process_map_binary_lem_example :
    ((process_map_binary kheap_allocator 0x1000 100 0x20000 0x30000 machine).0 ≡ pos 0)
      × ((va : ℕ)
          → default_user_prog_entry ≤ va
          → va < default_user_prog_entry + 100
          → translate
              (process_map_binary kheap_allocator 0x1000 100 0x20000 0x30000 machine).1.mem
              0x1000
              va
            ≡ some (0x20000 + (va - default_user_prog_entry)))
      × ((va : ℕ)
          → default_user_stack_end ≤ va
          → va < default_user_stack_start
          → translate
              (process_map_binary kheap_allocator 0x1000 100 0x20000 0x30000 machine).1.mem
              0x1000
              va
            ≡ some (0x30000 + (va - default_user_stack_end)))
      × IsWellFormed kheap_allocator 0x1000
          (process_map_binary kheap_allocator 0x1000 100 0x20000 0x30000 machine).1
    ⊎ (((process_map_binary kheap_allocator 0x1000 100 0x20000 0x30000 machine).0 ≡ neg 3)
        × Binary.TooLittle kheap_allocator 0x1000 100 machine)
process_map_binary_lem_example =
    process_map_binary_lem kheap_allocator 0x1000 100 0x20000 0x30000 machine machine-IsWellFormed
      (omega arith) (omega arith) refl (omega arith) refl (omega arith)

abbrev file : ElfFile
file = record {
  elf_memory = 0x20000;
  virtual_base_address = 0;
  virtual_end_address = 0;
  physical_base_address = 0;
  physical_end_address = 0;
}

abbrev text : Phdr
text = record {
  p_type = 1;
  p_offset = 0x1010;
  p_vaddr = 0x8400010;
  p_paddr = 0;
  p_filesz = 100;
  p_memsz = 100;
  p_flags = 5;
  p_align = 0x1000;
}

abbrev kzalloc : ℕ → Machine kheap_allocator → ℕ × Machine kheap_allocator
kzalloc n m = (0, m)

abbrev copy : ℕ → ℕ → ℕ → Machine kheap_allocator → Machine kheap_allocator
copy dst src n m = m

map_segment_lem_example :
    (res : ℤ) × (m' : Machine kheap_allocator) × (map_segment kheap_allocator kzalloc copy 0x1000
        file text cleared machine
      ≡ some (res, cleared, m'))
    × (((res ≡ pos 0)
          × ((k : ℕ) → k < 100 → translate m'.mem 0x1000 (0x8400010 + k) ≡ some (0x21010 + k))
          × IsWellFormed kheap_allocator 0x1000 m')
        ⊎ ((res ≡ neg 3) × Segments.TooLittle kheap_allocator kzalloc copy 0x1000 text machine))
map_segment_lem_example =
    map_segment_lem kheap_allocator kzalloc copy 0x1000 file text cleared machine
      machine-IsWellFormed refl (omega arith) refl (omega arith) (omega arith) refl

-- ===== src/Paging/Identity/Tests.antt =====
-- The identity tables over the kernel heap of 25600 blocks.
use amog_os.Base.{ℕ, ◌*◌, ◌^◌, ◌<◌, ◌≡◌, ◌⊎◌, refl, bit_or, arith}
use amog_os.Base.Int.{pos, neg}
use amog_os.Base.Memory.{update}
use amog_os.Kheap.{Kheap, is_free}
use amog_os.Kheap.Laws.{IsValid}
use amog_os.Paging.{Machine}
use amog_os.Paging.Heap.{kheap_allocator, kheap_free}
use amog_os.Paging.Identity.{paging_create_4gb_page_tables}
use amog_os.Paging.Identity.Tables.{paging_create_4gb_page_tables_lem}
use amog_os.Paging.Memory.{RunsOut}
use amog_os.Paging.Walk.{walk, IsWellFormed}

abbrev heap : Kheap
heap = record {
  mem = update (λ _. 0) 0xE400 1;
  table = 0x8000;
  num_entries = 25600;
  start_addr = 0x1000000;
}

heap-IsValid : IsValid heap
unfolding is_free
heap-IsValid = record { above_null = omega arith; below_end = omega arith; bounded = refl }

abbrev machine : Machine kheap_allocator
machine = record {
  mem = λ _. 0;
  heap = record { heap = heap; valid = heap-IsValid; start_aligned = refl };
}

paging_create_4gb_page_tables_lem_example :
    ((dir : ℕ) × (m' : Machine kheap_allocator) × (paging_create_4gb_page_tables kheap_allocator
          kheap_free 3 machine
        ≡ (pos 0, dir, m'))
      × IsWellFormed kheap_allocator dir m'
      × ((u : ℕ) → u < 2 ^ 20 → walk m'.mem dir u ≡ bit_or (u * 4096) 3))
    ⊎ (((paging_create_4gb_page_tables kheap_allocator kheap_free 3 machine).0 ≡ neg 3)
        × ((paging_create_4gb_page_tables kheap_allocator kheap_free 3 machine).1 ≡ 0)
        × RunsOut kheap_allocator 1025 machine.heap)
paging_create_4gb_page_tables_lem_example =
    paging_create_4gb_page_tables_lem kheap_allocator 3 (omega arith) refl kheap_free machine

-- ===== src/Paging/Samples.antt =====
-- An empty page directory in the first of four blocks of the kernel heap.
use amog_os.Base.{◌≡◌, refl, true, false, arith}
use amog_os.Base.Memory.{update}
use amog_os.Kheap.{Kheap, is_free, entry_at}
use amog_os.Kheap.Laws.{IsValid}
use amog_os.Paging.{Machine, is_present}
use amog_os.Paging.Heap.{kheap_allocator}
use amog_os.Paging.Walk.{IsWellFormed}

-- Block 0 of four is taken: it is the directory's page.
abbrev pub heap : Kheap
heap = record {
  mem = update (update (λ _. 0) 100 0x41) 104 1;
  table = 100;
  num_entries = 4;
  start_addr = 0x1000;
}

pub heap-IsValid : IsValid heap
unfolding is_free
heap-IsValid = record { above_null = omega arith; below_end = omega arith; bounded = refl }

abbrev pub machine : Machine kheap_allocator
machine = record {
  mem = λ _. 0;
  heap = record { heap = heap; valid = heap-IsValid; start_aligned = refl };
}

not_present : is_present 0 ≡ true → ⊥
unfolding is_present
not_present e = cc

block_taken : is_free (entry_at heap 0) ≡ false
unfolding is_free
block_taken = refl

pub machine-IsWellFormed : IsWellFormed kheap_allocator 0x1000 machine
machine-IsWellFormed = record {
  dir_aligned = refl;
  dir_live = (0, omega arith, refl, block_taken);
  words = λ i il. omega arith;
  table_live = λ i il y. absurd (not_present y);
  not_dir = λ i il y. absurd (not_present y);
  apart = λ i j il jl ij y z. absurd (not_present y);
}

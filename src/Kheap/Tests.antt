-- ===== src/Kheap/Tests.antt =====
-- The heap on small tables: runs of src/memory/heap/kheap.c, and the theorems at concrete heaps.
use amog_os.Base.{ℕ, ◌+◌, ◌<◌, ◌≤◌, ◌≡◌, ◌≢◌, refl, some, ◌⊎◌, arith}
use amog_os.Base.Int.{pos}
use amog_os.Base.Memory.{update}
use amog_os.Kheap.{
  Kheap, entry_at, is_free, run_end, find_run, mark_rest, mark_run, blocks_for, block_to_addr,
  kmalloc, kfree, kzalloc, num_free_blocks, kheap_init,
}
use amog_os.Kheap.Search.{FreeRun}
use amog_os.Kheap.Laws.{IsValid, IsClear, FreeBlocks, Takes, kmalloc_lem}
use amog_os.Kheap.Release.{kfree-kmalloc, num_free_blocks-kmalloc, kmalloc_disjoint}
use amog_os.Kheap.Zeroed.{kzalloc_out_of_memory, kheap_init_lem}

-- Four free blocks from 0x1000 on, the table at 100, and a taken byte behind it.
abbrev heap : Kheap
heap = record { mem = update (λ _. 0) 104 1; table = 100; num_entries = 4; start_addr = 4096 }

-- The heap after a request for two blocks.
two_taken : Kheap
unfolding kmalloc find_run run_end mark_run mark_rest blocks_for is_free
two_taken = (kmalloc 5000 heap).1

two_taken_entries :
    (entry_at two_taken 0 ≡ 0xC1) × (entry_at two_taken 1 ≡ 0x01) × (entry_at two_taken 2 ≡ 0)
unfolding two_taken
two_taken_entries = (refl, refl, refl)

two_taken_full : (kmalloc 9000 two_taken).0 ≡ 0
unfolding two_taken kmalloc find_run run_end blocks_for is_free
two_taken_full = refl

-- A heap without the taken byte: a request for two blocks when only the last is free.
abbrev last_free : Kheap
last_free = record { mem = update (λ _. 0) 100 1; table = 100; num_entries = 2; start_addr = 4096 }

-- The run of `last_free` ends behind the heap, whose end is 4096 + 2 * 4096.
past_the_end : (kmalloc 5000 last_free).0 ≡ 8192
unfolding kmalloc find_run run_end mark_run mark_rest blocks_for is_free block_to_addr
past_the_end = refl

heap-IsValid : IsValid heap
unfolding is_free
heap-IsValid = record { above_null = omega arith; below_end = omega arith; bounded = refl }

heap-IsClear : IsClear heap
heap-IsClear j lt f = ground arith

heap_takes : (kmalloc 5000 heap).0 ≢ 0
unfolding kmalloc find_run run_end mark_run mark_rest blocks_for is_free block_to_addr
heap_takes e = omega arith

takes_again : (kmalloc 100 (kmalloc 5000 heap).1).0 ≢ 0
unfolding kmalloc find_run run_end mark_run mark_rest blocks_for is_free block_to_addr
takes_again e = omega arith

kmalloc_lem_example :
    ((b : ℕ) × FreeBlocks heap b 2
      × ((c : ℕ) → c < b → ¬ FreeBlocks heap c 2)
      × Takes heap 2 b (kmalloc 5000 heap).0 (kmalloc 5000 heap).1)
    ⊎ (((c : ℕ) → ¬ FreeBlocks heap c 2) × (kmalloc 5000 heap ≡ (0, heap)))
kmalloc_lem_example = kmalloc_lem 5000 heap heap-IsValid (omega arith) (omega arith)

kfree-kmalloc_example : (kfree (kmalloc 5000 heap).0 (kmalloc 5000 heap).1).mem 101 ≡ 0
kfree-kmalloc_example =
    kfree-kmalloc heap heap-IsValid 5000 (omega arith) (omega arith) heap_takes heap-IsClear 101

num_free_blocks-kmalloc_example :
    (num_free_blocks heap ≡ num_free_blocks (kmalloc 5000 heap).1 + 2)
    × IsValid (kmalloc 5000 heap).1
num_free_blocks-kmalloc_example =
    num_free_blocks-kmalloc heap heap-IsValid 5000 (omega arith) (omega arith) heap_takes

kmalloc_disjoint_example :
    let (ptr, h') = kmalloc 5000 heap in
    let (ptr', h₂) = kmalloc 100 h' in (ptr + 5000 ≤ ptr') ⊎ (ptr' + 100 ≤ ptr)
kmalloc_disjoint_example =
    kmalloc_disjoint heap heap-IsValid 5000 (omega arith) (omega arith) heap_takes 100 (omega arith)
      (omega arith) takes_again

-- All blocks taken, with the table at 8.
abbrev full_heap : Kheap
full_heap = record { mem = λ _. 1; table = 8; num_entries = 4; start_addr = 4096 }

full_heap_no_run : (c : ℕ) → c < 4 → ¬ FreeRun full_heap c (blocks_for 5000)
unfolding blocks_for is_free
full_heap_no_run c lt free = ground (arith, free c (omega arith) (omega arith))

nothing_left : ((kzalloc 5000 full_heap).0 ≡ 0) × (num_free_blocks (kzalloc 5000 full_heap).1 ≡ 4)
nothing_left =
    kzalloc_out_of_memory 5000 full_heap (omega arith) (omega arith) (omega arith) full_heap_no_run

kheap_init_lem_example :
    (h : Kheap) × (kheap_init (λ _. 7) ≡ (pos 0, some h))
    × (num_free_blocks h ≡ 25600)
    × IsClear h
    × ((a : ℕ) → (a < 0x7E00) ⊎ (0x7E00 + 25600 ≤ a) → h.mem a ≡ 7)
kheap_init_lem_example = kheap_init_lem (λ _. 7)

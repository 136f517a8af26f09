-- ===== src/Paging/Tests.antt =====
-- Page tables over the kernel heap itself, at a concrete heap and an empty directory.
use amog_os.Base.{ℕ, ◌+◌, ◌-◌, ◌/◌, ◌^◌, ◌<◌, ◌≤◌, ◌≡◌, ◌≢◌, refl, true, false, arith, ◌⊎◌, some}
use amog_os.Base.Int.{pos, neg}
use amog_os.Paging.{
  is_present, is_page_aligned, paging_map_memory_region, paging_free_vpn, paging_down_align_addr,
  paging_up_align_addr,
}
use amog_os.Paging.Heap.{kheap_allocator}
use amog_os.Paging.Memory.{RunsOut, Asked}
use amog_os.Paging.Region.{Keeps, Missing, translate, paging_map_memory_region_lem}
use amog_os.Paging.Samples.{machine, machine-IsWellFormed}
use amog_os.Paging.Unmap.{paging_free_vpn_lem}
use amog_os.Paging.Walk.{walk, IsWellFormed}

aligned :
    (is_page_aligned 0x8400000 ≡ true)
    × (is_page_aligned 0x3000 ≡ true)
    × (is_page_aligned 0x8402000 ≡ true)
unfolding is_page_aligned
aligned = (refl, refl, refl)

alignments : (paging_down_align_addr 0x1234 ≡ 0x1000) × (paging_up_align_addr 0x1234 ≡ 0x2000)
unfolding paging_down_align_addr paging_up_align_addr
alignments = (refl, refl)

-- Two pages at the programs' entry.
paging_map_memory_region_lem_example :
    let (res, m') =
      paging_map_memory_region kheap_allocator 0x1000 0x8400000 0x3000 0x8402000 7 machine in
    ((res ≡ pos 0)
      × ((va : ℕ)
          → 0x8400000 ≤ va
          → va < 0x8402000
          → translate m'.mem 0x1000 va ≡ some (0x3000 + (va - 0x8400000)))
      × ((u : ℕ)
          → u < 2 ^ 20
          → (u < 0x8400000 / 4096) ⊎ (0x8402000 / 4096 ≤ u)
          → walk m'.mem 0x1000 u ≡ walk machine.mem 0x1000 u)
      × IsWellFormed kheap_allocator 0x1000 m'
      × Asked kheap_allocator (0x8402000 / 4096 - 0x8400000 / 4096) machine.heap m'.heap
      × Keeps kheap_allocator 0x1000 machine m')
    ⊎ ((res ≡ neg 3)
        × RunsOut kheap_allocator (0x8402000 / 4096 - 0x8400000 / 4096) machine.heap
        × Missing kheap_allocator 0x1000 machine
            (0x8400000 / 4096)
            (0x8402000 / 4096 - 0x8400000 / 4096))
paging_map_memory_region_lem_example =
    paging_map_memory_region_lem kheap_allocator 0x1000 machine 0x8400000 0x3000 0x8402000 7
      machine-IsWellFormed aligned.0 aligned.1 aligned.2 (omega arith) (omega arith) (omega arith)
      (omega arith) refl

paging_free_vpn_lem_example :
    let m' = paging_free_vpn kheap_allocator 0x1000 0x8400 machine in
    (is_present (walk m'.mem 0x1000 0x8400) ≡ false)
    × ((u : ℕ) → u < 2 ^ 20 → u ≢ 0x8400 → walk m'.mem 0x1000 u ≡ walk machine.mem 0x1000 u)
    × IsWellFormed kheap_allocator 0x1000 m'
paging_free_vpn_lem_example =
    paging_free_vpn_lem kheap_allocator 0x1000 machine machine-IsWellFormed 0x8400 (omega arith)

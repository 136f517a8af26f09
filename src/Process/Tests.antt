-- ===== src/Process/Tests.antt =====
-- A process with one block, which gets a second one.
use amog_os.Base.{ℕ, ◌≡◌, ◌≢◌, refl, some, none, arith, ◌+◌, ◌/◌, ◌^◌, ◌<◌, ◌≤◌, ◌⊎◌}
use amog_os.Base.Int.{pos}
use amog_os.Base.Memory.{update}
use amog_os.Paging.{Machine}
use amog_os.Paging.Heap.{kheap_allocator}
use amog_os.Paging.Region.{translate}
use amog_os.Paging.Samples.{machine, machine-IsWellFormed}
use amog_os.Paging.Walk.{walk, IsWellFormed}
use amog_os.Process.{
  Process, proc_can_start, find_block, process_add_vmem_block, process_get_vmem_block,
  process_free_vmem_block,
}
use amog_os.Process.Blocks.{process_free-process_add}

abbrev shell : Process
shell = record {
  pid = 1;
  parent_pid = 1;
  exit_status = pos 0;
  status = proc_can_start;
  vmem_blocks_start = update (λ i. 0) 0 0x9000000;
  vmem_blocks_end = update (λ i. 0) 0 0x9001000;
}

other_start : (k : ℕ) → shell.vmem_blocks_start k ≢ 0xA000000
other_start k e = absurd (ground (arith, e))

second_free : find_block 0 shell.vmem_blocks_start 10 0 ≡ some 1
unfolding find_block
second_free = refl

process_free-process_add_example :
    (proc' : Process) × (freed : Process) × (m' : Machine kheap_allocator) × (process_add_vmem_block
        shell 0xA000000 0xA002000
      ≡ (pos 1, proc'))
    × (process_get_vmem_block proc' 0xA000000 ≡ pos 1)
    × (process_free_vmem_block kheap_allocator 0x1000 proc' 0xA000000 machine ≡ (pos 0, freed, m'))
    × (freed.vmem_blocks_start ≡ shell.vmem_blocks_start)
    × ((va : ℕ) → 0xA000000 ≤ va → va < 0xA002000 → translate m'.mem 0x1000 va ≡ none)
    × ((u : ℕ)
        → u < 2 ^ 20
        → (u < 0xA000000 / 4096) ⊎ ((0xA002000 + 4095) / 4096 ≤ u)
        → walk m'.mem 0x1000 u ≡ walk machine.mem 0x1000 u)
    × IsWellFormed kheap_allocator 0x1000 m'
process_free-process_add_example =
    process_free-process_add kheap_allocator 0x1000 shell 0xA000000 0xA002000 1 machine
      (λ e. absurd (omega (arith, e))) other_start second_free (omega arith) (omega arith)
      machine-IsWellFormed

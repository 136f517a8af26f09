-- ===== src/Process/Mmap/Regions.antt =====
-- What mmap comes to, by the state of the process and of memory.
use amog_os.Base.{ℕ, ◌+◌, ◌-◌, ◌/◌, ◌^◌, ◌<◌, ◌≤◌, ◌≡◌, ◌≢◌, ◌⊎◌, some}
use amog_os.Base.Int.{ℤ, pos, neg}
use amog_os.Base.Memory.{update}
use amog_os.Paging.Interface.{Allocator}
use amog_os.Paging.{Machine}
use amog_os.Paging.Memory.{RunsOut}
use amog_os.Paging.Region.{Missing, translate}
use amog_os.Paging.Walk.{walk, IsWellFormed}
use amog_os.Process.{Process, process_vmem_max_blocks}
use amog_os.Process.Mmap.{syscall_mmap}

module _ (a : Allocator) (kzalloc : ℕ → Machine a → ℕ × Machine a)
    (kfree : ℕ → Machine a → Machine a) (cr3 : ℕ) (proc : Process) (va_start va_end : ℕ) where
  -- The process has the region as its block `i`, which was free.
  pub record HasBlock (i : ℕ) (proc' : Process) : Type 0 where
    pub was_free : proc.vmem_blocks_start i ≡ 0
    pub within : i < process_vmem_max_blocks
    pub starts : proc'.vmem_blocks_start ≡ update proc.vmem_blocks_start i va_start
    pub ends : proc'.vmem_blocks_end ≡ update proc.vmem_blocks_end i va_end

  -- The region is mapped onto the memory at `pa_start`, page by page, and no other page changes.
  pub record MapsTo (pa_start : ℕ) (m₁ m' : Machine a) : Type 0 where
    pub inside :
        (va : ℕ)
        → va_start ≤ va
        → va < va_end
        → translate m'.mem cr3 va ≡ some (pa_start + (va - va_start))
    pub outside :
        (u : ℕ)
        → u < 2 ^ 20
        → (u < va_start / 4096) ⊎ (va_end / 4096 ≤ u)
        → walk m'.mem cr3 u ≡ walk m₁.mem cr3 u
    pub well_formed : IsWellFormed a cr3 m'

  -- The region is mapped and is a block of the process.
  abbrev pub Done : ℕ → Machine a → ℤ × Process × Machine a → Type 0
  Done pa_start m₁ r = (r.0 ≡ pos 0) × ((i : ℕ) × HasBlock i r.1) × MapsTo pa_start m₁ r.2

  -- There is no page for a second level that the region needs: its memory is released again, and
  -- the starts of the blocks are as before.
  abbrev pub GivenUp : ℕ → Machine a → ℤ × Process × Machine a → Type 0
  GivenUp pa_start m₁ r =
      (r.0 ≡ neg 3)
      × ((k : ℕ) → r.1.vmem_blocks_start k ≡ proc.vmem_blocks_start k)
      × RunsOut a (va_end / 4096 - va_start / 4096) m₁.heap
      × Missing a cr3 m₁ (va_start / 4096) (va_end / 4096 - va_start / 4096)
      × ((m' : Machine a) × (r.2 ≡ kfree pa_start m'))

  -- No block of the process is free.
  abbrev pub IsFull : Type 0
  IsFull = (k : ℕ) → k < process_vmem_max_blocks → proc.vmem_blocks_start k ≢ 0

  added_at : ℕ → Process
  added_at i = record proc {
    vmem_blocks_start = update proc.vmem_blocks_start i va_start;
    vmem_blocks_end = update proc.vmem_blocks_end i va_end;
  }

  module _ (user_flags : ℕ) (m : Machine a) (low : va_start < 2 ^ 32)
      (end : va_end + 4095 < 2 ^ 32) where
    abbrev result : ℤ × Process × Machine a
    result = syscall_mmap a kzalloc kfree cr3 proc va_start va_end user_flags m

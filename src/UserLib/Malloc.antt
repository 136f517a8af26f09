-- ===== src/UserLib/Malloc.antt =====
-- `malloc` of programs/stdlib/src/stdlib.c: blocks from the top of the heap downwards, each behind
-- a header of two words. The system call is the parameter `mmap`: it says whether it succeeds, and
-- changes the state `W` of the rest of the system.
pub mod Blocks
use amog_os.Base.{ℕ, ◌==◌, ◌+◌, ◌-◌, ◌%◌, Bool, true, false, not, ltb, ◌&&◌, if◌then◌else◌}
use amog_os.Base.Memory.{update}
use amog_os.Base.Words.{add32, sub32}

abbrev pub heap_top : ℕ
heap_top = 0xC0000000

abbrev pub heap_info_magic : ℕ
heap_info_magic = 198913

-- `heap_end`, `heap_curr`, memory by words, and the rest of the system.
pub record UserHeap (W : Type 0) : Type 0 where
  pub heap_end : ℕ
  pub heap_curr : ℕ
  pub mem : ℕ → ℕ
  pub system : W

pub down_align : ℕ → ℕ
down_align va = va - va % 4096

pub up_align : ℕ → ℕ
up_align va = if va % 4096 == 0 then va else sub32 (add32 va 4096) (va % 4096)

module _ (W : Type 0) (mmap : ℕ → ℕ → W → Bool × W) where
  -- The pointer, 0 for NULL, and the heap.
  pub malloc : ℕ → UserHeap W → ℕ × UserHeap W
  malloc size h =
      let alloc_size = add32 size 8 in
      let full = ltb (sub32 h.heap_curr alloc_size) h.heap_end in
      let new_end = down_align (sub32 h.heap_end alloc_size) in
      let (ok, system') = mmap new_end h.heap_end h.system in
      let end = (if full then new_end else h.heap_end) in
      let curr = sub32 h.heap_curr alloc_size in
      if full && not ok then (0, record h { system = system' }) else (
        add32 curr 8,
        record {
          heap_end = end;
          heap_curr = curr;
          mem = update (update h.mem curr size) (curr + 4) heap_info_magic;
          system = (if full then system' else h.system);
        },
      )

-- ===== src/Paging.antt =====
-- Page tables (src/memory/paging/paging.c): two levels of 1024 words of 32 bits in physical memory.
-- A page table is `cr3`, the address of its directory; `num_levels` is 2 in every table that the
-- kernel makes. The kernel heap is the parameter `Allocator`, which `Kheap` stands behind.
pub mod Interface
pub mod Memory
pub mod Entry
pub mod Align
pub mod Walk
pub mod Map
pub mod Fresh
pub mod Identity
pub mod Vpn
pub mod Region
pub mod Samples
pub mod Unmap
pub mod UnmapRange
pub mod Heap
pub mod Discard
mod Tests
use amog_os.Base.{
  ℕ, zero, suc, ◌+◌, ◌-◌, ◌*◌, ◌/◌, ◌%◌, ◌^◌, bit_and, bit_or, Bool, true, false, not, ◌&&◌, ◌||◌,
  ltb, leb, ◌==◌, if◌then◌else◌,
}
use amog_os.Base.Int.{ℤ, pos, neg, is_ok}
use amog_os.Base.Memory.{update}
use amog_os.Base.Words.{add32, sub32, mul32}
use amog_os.Paging.Interface.{Allocator}

abbrev pub page_size : ℕ
page_size = 4096

abbrev pub num_page_table_entries : ℕ
num_page_table_entries = 1024

abbrev pub page_present : ℕ
page_present = 1

abbrev pub page_write_allow : ℕ
page_write_allow = 2

abbrev pub page_user_access_allow : ℕ
page_user_access_allow = 4

abbrev pub page_frame_loc_mask : ℕ
page_frame_loc_mask = 0xFFFFF000

unfoldable pub is_present : ℕ → Bool
is_present pte = not (bit_and pte page_present == 0)

unfoldable pub frame : ℕ → ℕ
frame pte = bit_and pte page_frame_loc_mask

-- The address of the `i`th word of a table.
abbrev pub word_at : ℕ → ℕ → ℕ
word_at table i = table + 4 * i

unfoldable pub is_page_aligned : ℕ → Bool
is_page_aligned addr = bit_and addr (page_size - 1) == 0

unfoldable pub paging_down_align_addr : ℕ → ℕ
paging_down_align_addr addr = if addr % page_size == 0 then addr else sub32 addr (addr % page_size)

unfoldable pub paging_up_align_addr : ℕ → ℕ
paging_up_align_addr addr =
    if addr % page_size == 0 then addr else add32 addr (page_size - addr % page_size)

module _ (a : Allocator) where
  open a use {State, kzalloc_page}

  -- Physical memory by words, and the kernel heap.
  pub record Machine : Type 0 where
    pub mem : ℕ → ℕ
    pub heap : State

  abbrev pub write : ℕ → ℕ → Machine → Machine
  write addr v m = record m { mem = update m.mem addr v }

  -- `kzalloc(4096)`: a page, cleared if there is one.
  pub kzalloc : Machine → ℕ × Machine
  kzalloc m =
      let (page, heap') = kzalloc_page m.heap in
      if page == 0 then (0, record m { heap = heap' }) else (
        page,
        record {
          mem = λ b. if leb page b && ltb b (page + page_size) then 0 else m.mem b;
          heap = heap';
        },
      )

  -- From the second level on: `dir` is the directory entry's address, `table` the second level's.
  pub set_pte : ℕ → ℕ → ℕ → ℕ → ℕ → Bool → Machine → ℤ × Machine
  set_pte dir table vpn pfn flags overwrite m =
      let slot = word_at table (vpn % 1024) in
      let m₁ = write slot (bit_or (mul32 pfn page_size) flags) m in
      if is_present (m.mem slot) && not overwrite
      then (neg 2, m)
      else (pos 0, if overwrite then write dir (bit_or table flags) m₁ else m₁)

  pub paging_new_vpn_to_pfn : ℕ → ℕ → ℕ → ℕ → Bool → Machine → ℤ × Machine
  paging_new_vpn_to_pfn cr3 vpn pfn flags overwrite m =
      let dir = word_at cr3 (vpn / 1024) in
      let (page, m') = kzalloc m in
      if is_present (m.mem dir)
      then set_pte dir (frame (m.mem dir)) vpn pfn flags overwrite m
      else if page == 0
      then (neg 3, m')
      else set_pte dir page vpn pfn flags overwrite m'

  -- The frame itself is not freed.
  pub paging_free_vpn : ℕ → ℕ → Machine → Machine
  paging_free_vpn cr3 vpn m =
      let pte = m.mem (word_at cr3 (vpn / 1024)) in
      let slot = word_at (frame pte) (vpn % 1024) in
      if not (is_present pte)
      then m
      else if not (is_present (m.mem slot))
      then m
      else write slot 0 m

  -- The loop of `paging_free_va` over `i`.
  pub free_vpns : ℕ → ℕ → ℕ → Machine → Machine
  free_vpns cr3 zero i m = m
  free_vpns cr3 (suc rounds) i m = free_vpns cr3 rounds (i + 1) (paging_free_vpn cr3 i m)

  pub paging_free_va : ℕ → ℕ → ℕ → Machine → ℤ × Machine
  paging_free_va cr3 vaddr_start vaddr_end m =
      let start_vpn = vaddr_start / page_size in
      let end_vpn =
        (let v = vaddr_end / page_size in if vaddr_end % page_size == 0 then v else v + 1) in
      if ltb vaddr_end vaddr_start
      then (neg 2, m)
      else (pos 0, free_vpns cr3 (end_vpn - start_vpn) start_vpn m)

  -- The loop of `paging_map_memory_region`, at page `vpn`.
  pub map_pages : ℕ → ℕ → ℕ → ℕ → ℕ → Machine → ℤ × Machine
  map_pages cr3 flags zero vpn pfn m = (pos 0, m)
  map_pages cr3 flags (suc rounds) vpn pfn m =
      let (res, m') = paging_new_vpn_to_pfn cr3 vpn pfn flags true m in
      elim (is_ok res) [
        | true ↦ map_pages cr3 flags rounds (vpn + 1) (pfn + 1) m'
        | false ↦ (res, m')
      ]

  pub paging_map_memory_region : ℕ → ℕ → ℕ → ℕ → ℕ → Machine → ℤ × Machine
  paging_map_memory_region cr3 data_va_start data_paddr data_va_end flags m =
      let vpn_start = data_va_start / page_size in
      let vpn_end = data_va_end / page_size in
      if not (is_page_aligned data_va_start)
        || not (is_page_aligned data_paddr)
        || not (is_page_aligned data_va_end)
      then (neg 2, m)
      else if leb vpn_end vpn_start
      then (neg 2, m)
      else map_pages cr3 flags (vpn_end - vpn_start) vpn_start (data_paddr / page_size) m

  -- Creates no directory and no second level.
  pub paging_map_page : ℕ → ℕ → ℕ → ℕ → ℕ → Machine → ℤ × Machine
  paging_map_page num_levels cr3 virt_addr phys_addr flags m =
      let pt_i = frame (m.mem (word_at cr3 (virt_addr / 4194304))) in
      let slot = word_at pt_i (virt_addr % 4194304 / page_size) in
      if not (num_levels == 2)
      then (neg 2, m)
      else if not (is_page_aligned virt_addr) || not (is_page_aligned phys_addr)
      then (neg 2, m)
      else (pos 0, write slot (bit_or phys_addr flags) m)

  pub paging_init_new_mapping : Machine → ℤ × ℕ × Machine
  paging_init_new_mapping m =
      let (page, m') = kzalloc m in if page == 0 then (neg 3, 0, m') else (pos 0, page, m')

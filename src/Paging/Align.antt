-- ===== src/Paging/Align.antt =====
-- Addresses that are rounded to pages.
use amog_os.Base.{ℕ, ◌+◌, ◌*◌, ◌/◌, ◌%◌, ◌^◌, ◌<◌, ◌≡◌, true, false, arith, ◌==◌, ℕ_discrete}
use amog_os.Base.Bits.{bit_and_4095}
use amog_os.Paging.{is_page_aligned, paging_down_align_addr, paging_up_align_addr}

pub is_page_aligned-true : (addr : ℕ) → addr % 4096 ≡ 0 → is_page_aligned addr ≡ true
unfolding is_page_aligned
is_page_aligned-true addr e = ground (arith, e, bit_and_4095 addr)

pub paging_down_align_addr-floor :
    (addr : ℕ) → addr < 2 ^ 32 → paging_down_align_addr addr ≡ addr / 4096 * 4096
unfolding paging_down_align_addr
paging_down_align_addr-floor addr lt = elim (ℕ_discrete (addr % 4096) 0) [
  | yes z ↦ let t : (addr % 4096 == 0) ≡ true = ground (arith, z) in rw t (omega (arith, z))
  | no nz ↦ let f : (addr % 4096 == 0) ≡ false = ground (arith, nz) in rw f (omega (arith, nz, lt))
]

pub paging_up_align_addr-ceiling :
    (addr : ℕ) → addr + 4095 < 2 ^ 32 → paging_up_align_addr addr ≡ (addr + 4095) / 4096 * 4096
unfolding paging_up_align_addr
paging_up_align_addr-ceiling addr lt = elim (ℕ_discrete (addr % 4096) 0) [
  | yes z ↦ let t : (addr % 4096 == 0) ≡ true = ground (arith, z) in rw t (omega (arith, z))
  | no nz ↦ let f : (addr % 4096 == 0) ≡ false = ground (arith, nz) in rw f (omega (arith, nz, lt))
]

-- ===== src/Paging/UnmapRange.antt =====
-- `paging_free_va`: every page of the region is unmapped, and no other page changes.
use amog_os.Base.{
  ℕ, zero, suc, ◌+◌, ◌-◌, ◌/◌, ◌%◌, ◌^◌, ◌<◌, ◌≤◌, ◌≡◌, refl, ◌∙◌, false, arith, ◌⊎◌, inl,
  ℕ_discrete, ltb, ◌==◌, if◌then◌else◌, none,
}
use amog_os.Base.Int.{pos}
use amog_os.Paging.{Machine, is_present, paging_free_vpn, free_vpns, paging_free_va}
use amog_os.Paging.Interface.{Allocator}
use amog_os.Paging.Region.{translate, translate-none}
use amog_os.Paging.Unmap.{paging_free_vpn_lem}
use amog_os.Paging.Walk.{walk, IsWellFormed}

module _ (a : Allocator) (cr3 : ℕ) where
  -- In `m'` the `n` pages from `vpn` on are not present; all others are as in `m`.
  pub record Unmaps (m m' : Machine a) (vpn n : ℕ) : Type 0 where
    pub inside : (u : ℕ) → vpn ≤ u → u < vpn + n → is_present (walk m'.mem cr3 u) ≡ false
    pub outside :
        (u : ℕ) → u < 2 ^ 20 → (u < vpn) ⊎ (vpn + n ≤ u) → walk m'.mem cr3 u ≡ walk m.mem cr3 u
    pub well_formed : IsWellFormed a cr3 m'

  free_vpns_lem :
      (n i : ℕ) (m : Machine a)
      → IsWellFormed a cr3 m
      → i + n ≤ 2 ^ 20
      → Unmaps m (free_vpns a cr3 n i m) i n
  unfolding free_vpns
  free_vpns_lem zero i m wf le = record {
    inside = λ u ge lt. absurd (omega (arith, ge, lt));
    outside = λ u ul out. refl;
    well_formed = wf;
  }
  free_vpns_lem (suc n) i m wf le =
      let (here, others, wf₁) = paging_free_vpn_lem a cr3 m wf i (omega arith) in
      let rest = free_vpns_lem n (i + 1) (paging_free_vpn a cr3 i m) wf₁ (omega arith) in
      record {
        inside = λ u ge lt. elim (ℕ_discrete u i) [
          | yes e ↦ rw e (rw (rest.outside i (omega arith) (inl (omega arith))) here)
          | no ne ↦ rest.inside u (omega (arith, ge, ne)) (omega (arith, lt))
        ];
        outside = λ u ul out.
            rest.outside u ul (omega (arith, out)) ∙ others u ul (λ e. omega (arith, e, out));
        well_formed = rest.well_formed;
      }

  -- For a region below 4 GiB: no byte of it is mapped afterwards, the pages that it does not touch
  -- keep their entries, and the tables still lie apart.
  pub paging_free_va_lem :
      (m : Machine a) (va_start va_end : ℕ)
      → IsWellFormed a cr3 m
      → va_start ≤ va_end
      → va_end < 2 ^ 32
      → (m' : Machine a) × (paging_free_va a cr3 va_start va_end m ≡ (pos 0, m'))
        × ((va : ℕ) → va_start ≤ va → va < va_end → translate m'.mem cr3 va ≡ none)
        × ((u : ℕ)
            → u < 2 ^ 20
            → (u < va_start / 4096) ⊎ ((va_end + 4095) / 4096 ≤ u)
            → walk m'.mem cr3 u ≡ walk m.mem cr3 u)
        × IsWellFormed a cr3 m'
  unfolding paging_free_va
  paging_free_va_lem m s e wf le lt =
      let end_vpn = (let v = e / 4096 in if e % 4096 == 0 then v else v + 1) in
      let up : end_vpn ≡ (e + 4095) / 4096 = ground arith in
      let n = end_vpn - s / 4096 in
      let ordered : ltb e s ≡ false = ground arith in
      let range = free_vpns_lem n (s / 4096) m wf (omega (arith, up, le, lt)) in
      (
        free_vpns a cr3 n (s / 4096) m,
        rw ordered refl,
        λ va ge below.
            translate-none _ cr3 va
              (range.inside (va / 4096) (omega (arith, ge)) (omega (arith, below, up, ge))),
        λ u ul out. range.outside u ul (omega (arith, out, up, le)),
        range.well_formed,
      )

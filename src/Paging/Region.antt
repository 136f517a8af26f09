-- ===== src/Paging/Region.antt =====
-- `paging_map_memory_region`: every byte of the region is mapped, and nothing else changes.
use amog_os.Base.{
  ℕ, zero, suc, ◌+◌, ◌-◌, ◌*◌, ◌/◌, ◌%◌, ◌^◌, ◌<◌, ◌≤◌, ◌≡◌, refl, sym, ap, ◌∙◌, true, false, arith,
  ℕ_discrete, if◌then◌else◌, ◌⊎◌, inl, inr, leb, Option, some, none, Bool-cases,
}
use amog_os.Base.Int.{ℤ, pos, neg}
use amog_os.Paging.{
  Machine, is_present, frame, word_at, is_page_aligned, paging_new_vpn_to_pfn, map_pages, page_size,
  paging_map_memory_region,
}
use amog_os.Paging.Entry.{frame-le, is_present-odd, is_page_aligned-mod}
use amog_os.Paging.Interface.{Allocator}
use amog_os.Paging.Memory.{RunsOut, Asked, Asked-none, Asked-add, RunsOut-now, RunsOut-after}
use amog_os.Paging.Vpn.{Maps, paging_new_vpn_to_pfn_lem}
use amog_os.Paging.Walk.{walk, IsWellFormed}

-- The physical address that the processor finds for a virtual one.
pub translate : (ℕ → ℕ) → ℕ → ℕ → Option ℕ
translate mem cr3 va =
    let pte = walk mem cr3 (va / 4096) in
    if is_present pte then some (frame pte + va % 4096) else none

module _ (a : Allocator) (cr3 : ℕ) where
  -- In `m'` the `n` pages from `vpn` on have the frames from `pfn` on; all others are as in `m`.
  pub record MapsRange (m m' : Machine a) (vpn pfn n flags : ℕ) : Type 0 where
    pub well_formed : IsWellFormed a cr3 m'
    pub inside : (i : ℕ) → i < n → walk m'.mem cr3 (vpn + i) ≡ (pfn + i) * 4096 + flags
    pub outside :
        (u : ℕ) → u < 2 ^ 20 → (u < vpn) ⊎ (vpn + n ≤ u) → walk m'.mem cr3 u ≡ walk m.mem cr3 u
    pub asked : Asked a n m.heap m'.heap
    pub present :
        (d : ℕ)
        → d < 1024
        → is_present (m.mem (word_at cr3 d)) ≡ true
        → is_present (m'.mem (word_at cr3 d)) ≡ true

  -- One of the `n` pages from `vpn` on has no second level in `m`.
  pub Missing : Machine a → ℕ → ℕ → Type 0
  Missing m vpn n =
      (u : ℕ) × (vpn ≤ u) × (u < vpn + n) × (is_present (m.mem (word_at cr3 (u / 1024))) ≡ false)

  -- No second level goes away.
  abbrev pub Keeps : Machine a → Machine a → Type 0
  Keeps m m' =
      (d : ℕ)
      → d < 1024
      → is_present (m.mem (word_at cr3 d)) ≡ true
      → is_present (m'.mem (word_at cr3 d)) ≡ true

  absent-before :
      (m m' : Machine a) (d : ℕ)
      → Keeps m m'
      → d < 1024
      → is_present (m'.mem (word_at cr3 d)) ≡ false
      → is_present (m.mem (word_at cr3 d)) ≡ false
  absent-before m m' d keeps dl n = elim (Bool-cases (is_present (m.mem (word_at cr3 d)))) [
    | inl y ↦ absurd (cc (keeps d dl y, n))
    | inr n' ↦ n'
  ]

  pub Missing-before :
      (m m' : Machine a) (vpn n vpn' n' : ℕ)
      → Keeps m m'
      → vpn' ≤ vpn
      → vpn + n ≤ vpn' + n'
      → vpn + n ≤ 2 ^ 20
      → Missing m' vpn n
      → Missing m vpn' n'
  unfolding Missing
  Missing-before m m' vpn n vpn' n' keeps from to end (u, ge, lt, absent) = (
    u,
    omega (arith, ge),
    omega (arith, lt),
    absent-before m m' (u / 1024) keeps (omega (arith, lt)) absent,
  )

  MapsRange-cons :
      (m₀ m₁ m₂ : Machine a) (vpn pfn n flags : ℕ)
      → vpn < 2 ^ 20
      → Maps a cr3 m₀ m₁ vpn (pfn * 4096 + flags)
      → MapsRange m₁ m₂ (vpn + 1) (pfn + 1) n flags
      → MapsRange m₀ m₂ vpn pfn (suc n) flags
  MapsRange-cons m₀ m₁ m₂ vpn pfn n flags vl one rest = record {
    well_formed = rest.well_formed;
    inside = λ i il. elim (ℕ_discrete i 0) [
      | yes z ↦
          let e : vpn + i ≡ vpn = omega arith in
          rw (e, rest.outside vpn vl (inl (omega arith)), one.here) (omega arith)
      | no nz ↦
          let e : vpn + 1 + (i - 1) ≡ vpn + i = omega arith in
          rw (← e) (rest.inside (i - 1) (omega arith) ∙ omega arith)
    ];
    outside = λ u ul out. rest.outside u ul (omega arith) ∙ one.elsewhere u ul (omega arith);
    asked = Asked-add a 1 n (suc n) m₀.heap m₁.heap m₂.heap (omega arith) one.asked rest.asked;
    present = λ d dl y. rest.present d dl (one.present d dl y);
  }

  map_pages-ok :
      (n : ℕ) (m m' : Machine a) (vpn pfn flags : ℕ)
      → paging_new_vpn_to_pfn a cr3 vpn pfn flags true m ≡ (pos 0, m')
      → map_pages a cr3 flags (suc n) vpn pfn m ≡ map_pages a cr3 flags n (vpn + 1) (pfn + 1) m'
  unfolding map_pages
  map_pages-ok n m m' vpn pfn flags e =
      rw (e, map_pages)
        (ap (λ (x : ℤ × Machine a). map_pages a cr3 flags n (vpn + 1) (pfn + 1) x.1) e)

  here :
      (m : Machine a) (vpn n : ℕ)
      → is_present (m.mem (word_at cr3 (vpn / 1024))) ≡ false
      → Missing m vpn (suc n)
  unfolding Missing
  here m vpn n absent = (vpn, omega arith, omega arith, absent)

  map_pages_lem :
      (n : ℕ) (m : Machine a) (vpn pfn flags : ℕ)
      → IsWellFormed a cr3 m
      → vpn + n ≤ 2 ^ 20
      → pfn + n ≤ 2 ^ 20
      → flags < 256
      → flags % 2 ≡ 1
      → (((map_pages a cr3 flags n vpn pfn m).0 ≡ pos 0)
          × MapsRange m (map_pages a cr3 flags n vpn pfn m).1 vpn pfn n flags)
        ⊎ (((map_pages a cr3 flags n vpn pfn m).0 ≡ neg 3) × RunsOut a n m.heap × Missing m vpn n)
  unfolding map_pages
  map_pages_lem zero m vpn pfn flags wf vl pl fl odd = inl (
    refl,
    record {
      well_formed = wf;
      inside = λ i il. absurd (omega arith);
      outside = λ u ul out. refl;
      asked = Asked-none a 0 m.heap;
      present = λ d dl y. y;
    },
  )
  map_pages_lem (suc n) m vpn pfn flags wf vl pl fl odd =
      elim (paging_new_vpn_to_pfn_lem a cr3 m vpn pfn flags wf (omega arith) (omega arith) fl odd) [
        | inl (m', e, one) ↦
            rw (map_pages-ok n m m' vpn pfn flags e)
              (elim (map_pages_lem n m' (vpn + 1) (pfn + 1) flags one.well_formed (omega arith)
                (omega arith) fl odd) [
                  | inl (ok, rest) ↦
                      inl (ok, MapsRange-cons m m' _ vpn pfn n flags (omega arith) one rest)
                  | inr (failed, out, missing) ↦ inr (
                    failed,
                    RunsOut-after a 1 n (suc n) m.heap m'.heap (omega arith) one.asked out,
                    Missing-before m m' (vpn + 1) n vpn (suc n) one.present (omega arith)
                        (omega arith) (omega arith) missing,
                  )
                ])
        | inr (e, absent, none_left) ↦ inr (
          rw (e, map_pages) (ap (λ (x : ℤ × Machine a). x.0) e),
          RunsOut-now a (suc n) m.heap (omega arith) none_left,
          here m vpn n absent,
        )
      ]

  translate-inside :
      (m m' : Machine a) (s p n flags va : ℕ)
      → MapsRange m m' (s / 4096) (p / 4096) n flags
      → s % 4096 ≡ 0
      → p % 4096 ≡ 0
      → flags < 256
      → flags % 2 ≡ 1
      → p + n * 4096 ≤ 2 ^ 32
      → s ≤ va
      → va < s + n * 4096
      → translate m'.mem cr3 va ≡ some (p + (va - s))
  unfolding translate
  translate-inside m m' s p n flags va range sm pm fl odd pl ge lt =
      let i = va / 4096 - s / 4096 in
      let e : s / 4096 + i ≡ va / 4096 = omega arith in
      let w = (p / 4096 + i) * 4096 + flags in
      let v : walk m'.mem cr3 (va / 4096) ≡ w =
        ap (walk m'.mem cr3) (sym e) ∙ range.inside i (omega arith) in
      let small : w < 2 ^ 32 = omega arith in
      let odd' : w % 2 ≡ 1 = omega arith in
      rw (v, is_present-odd w odd') (ap some (omega (arith, frame-le w small)))

  -- For a region of whole pages in a page table whose tables lie apart. Either it is mapped: every
  -- byte of it is found at its distance from `data_paddr`, every page outside keeps its entry, no
  -- second level goes away, the heap is asked for as many pages as the region has at most, and the
  -- tables still lie apart. Or the result is -STATUS_NOT_ENOUGH_MEM, and then a page of the region
  -- has no second level, and one of the first requests for a page, as many as the region has
  -- pages, gets none.
  pub paging_map_memory_region_lem :
      (m : Machine a) (va_start paddr va_end flags : ℕ)
      → IsWellFormed a cr3 m
      → is_page_aligned va_start ≡ true
      → is_page_aligned paddr ≡ true
      → is_page_aligned va_end ≡ true
      → va_start < va_end
      → va_end ≤ 2 ^ 32
      → paddr + (va_end - va_start) ≤ 2 ^ 32
      → flags < 256
      → flags % 2 ≡ 1
      → let (res, m') = paging_map_memory_region a cr3 va_start paddr va_end flags m in
        ((res ≡ pos 0)
          × ((va : ℕ)
              → va_start ≤ va
              → va < va_end
              → translate m'.mem cr3 va ≡ some (paddr + (va - va_start)))
          × ((u : ℕ)
              → u < 2 ^ 20
              → (u < va_start / 4096) ⊎ (va_end / 4096 ≤ u)
              → walk m'.mem cr3 u ≡ walk m.mem cr3 u)
          × IsWellFormed a cr3 m'
          × Asked a (va_end / 4096 - va_start / 4096) m.heap m'.heap
          × Keeps m m')
        ⊎ ((res ≡ neg 3)
            × RunsOut a (va_end / 4096 - va_start / 4096) m.heap
            × Missing m (va_start / 4096) (va_end / 4096 - va_start / 4096))
  unfolding paging_map_memory_region
  paging_map_memory_region_lem m s p e flags wf sa pa ea lt el pl fl odd =
      let sm = is_page_aligned-mod s sa in
      let pm = is_page_aligned-mod p pa in
      let em = is_page_aligned-mod e ea in
      let n = e / page_size - s / page_size in
      let more : leb (e / page_size) (s / page_size) ≡ false = ground arith in
      rw (sa, pa, ea, more)
        (elim (map_pages_lem n m (s / page_size) (p / page_size) flags wf (omega arith)
          (omega arith) fl odd) [
            | inl (mapped, range) ↦ inl (
              mapped,
              λ va ge below.
                  translate-inside m _ s p n flags va range sm pm fl odd (omega arith) ge
                    (omega arith),
              λ u ul out. range.outside u ul (omega arith),
              range.well_formed,
              range.asked,
              range.present,
            )
            | inr failed ↦ inr failed
          ])

pub translate-walk :
    (mem mem' : ℕ → ℕ) (cr3 va : ℕ)
    → walk mem' cr3 (va / 4096) ≡ walk mem cr3 (va / 4096)
    → translate mem' cr3 va ≡ translate mem cr3 va
unfolding translate
translate-walk mem mem' cr3 va e =
    ap (λ (pte : ℕ). if is_present pte then some (frame pte + va % 4096) else none) e

pub translate-none :
    (mem : ℕ → ℕ) (cr3 va : ℕ)
    → is_present (walk mem cr3 (va / 4096)) ≡ false
    → translate mem cr3 va ≡ none
unfolding translate
translate-none mem cr3 va e = rw e refl

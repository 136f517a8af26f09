-- ===== src/Paging/Vpn.antt =====
-- `paging_new_vpn_to_pfn` with `overwrite`: the one mapping that it makes.
use amog_os.Base.{
  ℕ, ◌+◌, ◌*◌, ◌/◌, ◌%◌, ◌^◌, ◌<◌, ◌≡◌, ◌≢◌, refl, sym, ap, ◌∙◌, true, false, arith, bit_or,
  ℕ_discrete, Bool-cases, if◌then◌else◌, ◌==◌, ◌⊎◌, inl, inr, ◌≤◌, leb, ltb, ◌&&◌,
}
use amog_os.Base.Int.{pos, neg}
use amog_os.Base.Words.{mul32}
use amog_os.Paging.{
  Machine, is_present, frame, word_at, kzalloc, set_pte, paging_new_vpn_to_pfn, page_size,
}
use amog_os.Paging.Entry.{entry-add, frame-le}
use amog_os.Paging.Fresh.{fresh-pde, fresh-IsWellFormed, fresh-IsFor, walk-fresh}
use amog_os.Paging.Interface.{Allocator}
use amog_os.Paging.Map.{
  written, walk-mapped, walk-mapped_same_dir, walk-mapped_other, mapped-present,
  mapped-IsWellFormed,
}
use amog_os.Paging.Memory.{Asked, Asked-none, Asked-one}
use amog_os.Paging.Walk.{walk, IsWellFormed, IsFor, frame-aligned}

module _ (a : Allocator) (cr3 : ℕ) where
  open a use {Live, kzalloc_page, aligned, bounded, fresh, keeps, holds}

  -- Both levels of `m'` agree with those of `m` but at page `vpn`, which has the entry `pte`.
  pub record Maps (m m' : Machine a) (vpn pte : ℕ) : Type 0 where
    pub well_formed : IsWellFormed a cr3 m'
    pub here : walk m'.mem cr3 vpn ≡ pte
    pub elsewhere : (u : ℕ) → u < 2 ^ 20 → u ≢ vpn → walk m'.mem cr3 u ≡ walk m.mem cr3 u
    pub asked : Asked a 1 m.heap m'.heap
    pub present :
        (d : ℕ)
        → d < 1024
        → is_present (m.mem (word_at cr3 d)) ≡ true
        → is_present (m'.mem (word_at cr3 d)) ≡ true

  module _ (vpn pfn flags : ℕ) (small : vpn < 2 ^ 20) (frame_small : pfn < 2 ^ 20)
      (lt : flags < 256) (odd : flags % 2 ≡ 1) where
    entry-value : bit_or (mul32 pfn page_size) flags ≡ pfn * 4096 + flags
    entry-value =
        let e : mul32 pfn page_size ≡ pfn * 4096 = omega arith in
        ap (λ (p : ℕ). bit_or p flags) e ∙ entry-add (pfn * 4096) flags (omega arith) (omega arith)

    set_pte-mapped :
        (m : Machine a) (table : ℕ)
        → set_pte a (word_at cr3 (vpn / 1024)) table vpn pfn flags true m
          ≡ (pos 0, record m { mem = written m.mem cr3 vpn table (pfn * 4096 + flags) flags })
    unfolding set_pte written
    set_pte-mapped m table = rw entry-value (ground arith)

    -- The table is there.
    IsFor-present :
        (m : Machine a)
        → IsWellFormed a cr3 m
        → is_present (m.mem (word_at cr3 (vpn / 1024))) ≡ true
        → IsFor a cr3 m (vpn / 1024) (frame (m.mem (word_at cr3 (vpn / 1024))))
    IsFor-present m wf y =
        let d = vpn / 1024 in
        let dl : d < 1024 = omega arith in
        record {
          aligned = frame-aligned a _ (wf.words d dl);
          bounded = omega (arith, frame-le (m.mem (word_at cr3 d)) (wf.words d dl), wf.words d dl);
          live = wf.table_live d dl y;
          ne_dir = wf.not_dir d dl y;
          others = λ j jl ne z. wf.apart j d jl dl ne z y;
        }

    -- What `set_pte` makes of a memory `n` in which the walks are those of `m`, and in which the
    -- words of the table are the walks of its pages.
    Maps-written :
        (m n : Machine a) (wf : IsWellFormed a cr3 n) (table : ℕ)
        (for : IsFor a cr3 n (vpn / 1024) table)
        → ((u : ℕ) → u < 2 ^ 20 → walk n.mem cr3 u ≡ walk m.mem cr3 u)
        → ((u : ℕ) → u / 1024 ≡ vpn / 1024 → n.mem (word_at table (u % 1024)) ≡ walk m.mem cr3 u)
        → Asked a 1 m.heap n.heap
        → ((d : ℕ) → d < 1024 → n.mem (word_at cr3 d) ≡ m.mem (word_at cr3 d))
        → Maps m
            (record n { mem = written n.mem cr3 vpn table (pfn * 4096 + flags) flags })
            vpn
            (pfn * 4096 + flags)
    Maps-written m n wf table for same inside heap dirs =
        let v = pfn * 4096 + flags in
        record {
          well_formed = mapped-IsWellFormed a cr3 n wf vpn table v flags small for lt odd;
          here = walk-mapped a cr3 n wf vpn table v flags small for lt odd;
          elsewhere = λ u ul ne. elim (ℕ_discrete (u / 1024) (vpn / 1024)) [
            | yes e ↦
                walk-mapped_same_dir a cr3 n wf vpn table v flags small for lt odd u e ne
                ∙ inside u e
            | no d ↦
                walk-mapped_other a cr3 n wf vpn table v flags small for lt odd u ul d ∙ same u ul
          ];
          asked = heap;
          present = λ d dl y.
              mapped-present a cr3 n wf vpn table v flags small for lt odd d dl (rw (dirs d dl) y);
        }

    Maps-present :
        (m : Machine a)
        → IsWellFormed a cr3 m
        → is_present (m.mem (word_at cr3 (vpn / 1024))) ≡ true
        → (m' : Machine a) × (paging_new_vpn_to_pfn a cr3 vpn pfn flags true m ≡ (pos 0, m'))
          × Maps m m' vpn (pfn * 4096 + flags)
    unfolding paging_new_vpn_to_pfn walk
    Maps-present m wf y =
        let table = frame (m.mem (word_at cr3 (vpn / 1024))) in
        (
          record m { mem = written m.mem cr3 vpn table (pfn * 4096 + flags) flags },
          rw y (set_pte-mapped m table),
          Maps-written m m wf table (IsFor-present m wf y) (λ u ul. refl) (λ u e. rw (e, y))
              (Asked-none a 1 m.heap) (λ d dl. refl),
        )

  pub kzalloc-none :
      (m : Machine a)
      → (kzalloc_page m.heap).0 ≡ 0
      → kzalloc a m ≡ (0, record m { heap = (kzalloc_page m.heap).1 })
  unfolding kzalloc
  kzalloc-none m z = let y : ((kzalloc_page m.heap).0 == 0) ≡ true = ground arith in rw y refl

  -- A new, cleared page behind the tables of `m`.
  module _ (m : Machine a) (wf : IsWellFormed a cr3 m) (got : (kzalloc_page m.heap).0 ≢ 0) where
    abbrev pub page : ℕ
    page = (kzalloc_page m.heap).0

    abbrev pub cleared : Machine a
    cleared = record {
      mem = λ b. if leb page b && ltb b (page + page_size) then 0 else m.mem b;
      heap = (kzalloc_page m.heap).1;
    }

    pub kzalloc-cleared : kzalloc a m ≡ (page, cleared)
    unfolding kzalloc
    kzalloc-cleared = let z : (page == 0) ≡ false = ground arith in rw z

    pub cleared-same : (b : ℕ) → (b < page) ⊎ (page + 4096 ≤ b) → cleared.mem b ≡ m.mem b
    cleared-same b (inl lt) = ground arith
    cleared-same b (inr ge) = ground arith

    cleared-page : (k : ℕ) → k < 1024 → cleared.mem (word_at page k) ≡ 0
    cleared-page k kl = ground arith

  -- Either the page is mapped, or there was no second level and no page for one, and nothing but
  -- the heap has changed.
  pub paging_new_vpn_to_pfn_lem :
      (m : Machine a) (vpn pfn flags : ℕ)
      → IsWellFormed a cr3 m
      → vpn < 2 ^ 20
      → pfn < 2 ^ 20
      → flags < 256
      → flags % 2 ≡ 1
      → ((m' : Machine a) × (paging_new_vpn_to_pfn a cr3 vpn pfn flags true m ≡ (pos 0, m'))
          × Maps m m' vpn (pfn * 4096 + flags))
        ⊎ ((paging_new_vpn_to_pfn a cr3 vpn pfn flags true m
              ≡ (neg 3, record m { heap = (kzalloc_page m.heap).1 }))
            × (is_present (m.mem (word_at cr3 (vpn / 1024))) ≡ false)
            × ((kzalloc_page m.heap).0 ≡ 0))
  unfolding paging_new_vpn_to_pfn walk kzalloc
  paging_new_vpn_to_pfn_lem m vpn pfn flags wf vl pl fl odd =
      elim (Bool-cases (is_present (m.mem (word_at cr3 (vpn / 1024))))) [
        | inl y ↦ inl (Maps-present vpn pfn flags vl pl fl odd m wf y)
        | inr n ↦ elim (ℕ_discrete (kzalloc_page m.heap).0 0) [
          | yes z ↦ inr (rw n (ground (arith, kzalloc-none m z)), n, z)
          | no got ↦ inl (
            record (cleared m wf got) {
              mem =
                  written (cleared m wf got).mem cr3 vpn (page m wf got) (pfn * 4096 + flags) flags;
            },
            new_page got n,
            Maps-written vpn pfn flags vl pl fl odd m (cleared m wf got)
                (fresh-IsWellFormed a cr3 m wf got (cleared m wf got).mem (cleared-same m wf got))
                (page m wf got)
                (fresh-IsFor a cr3 m wf got (cleared m wf got).mem (cleared-same m wf got)
                  (vpn / 1024))
                (walk-fresh a cr3 m wf got (cleared m wf got).mem (cleared-same m wf got))
                (λ u e. cleared-page m wf got (u % 1024) (omega arith) ∙ sym (absent u e n))
                (Asked-one a m.heap (kzalloc_page m.heap).1 (inr refl))
                (fresh-pde a cr3 m wf got (cleared m wf got).mem (cleared-same m wf got)),
          )
        ]
      ]
    where
      absent :
          (u : ℕ)
          → u / 1024 ≡ vpn / 1024
          → is_present (m.mem (word_at cr3 (vpn / 1024))) ≡ false
          → walk m.mem cr3 u ≡ 0
      absent u e n = rw (e, n)

      new_page :
          (got : (kzalloc_page m.heap).0 ≢ 0)
          → is_present (m.mem (word_at cr3 (vpn / 1024))) ≡ false
          → paging_new_vpn_to_pfn a cr3 vpn pfn flags true m ≡ (
            pos 0,
            record (cleared m wf got) {
              mem =
                  written (cleared m wf got).mem cr3 vpn (page m wf got) (pfn * 4096 + flags) flags;
            },
          )
      new_page got n =
          let z : ((kzalloc_page m.heap).0 == 0) ≡ false = ground arith in
          rw (kzalloc-cleared m wf got, n, z)
            (set_pte-mapped vpn pfn flags vl pl fl odd (cleared m wf got) (page m wf got))

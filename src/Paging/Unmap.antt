-- ===== src/Paging/Unmap.antt =====
-- `paging_free_vpn`: the page is not mapped afterwards, and no other page changes.
use amog_os.Base.{
  ℕ, ◌/◌, ◌%◌, ◌^◌, ◌<◌, ◌≡◌, ◌≢◌, refl, sym, true, false, arith, ℕ_discrete, Bool-cases, inl, inr,
}
use amog_os.Base.Memory.{update}
use amog_os.Paging.{Machine, is_present, frame, word_at, paging_free_vpn}
use amog_os.Paging.Interface.{Allocator}
use amog_os.Paging.Walk.{walk, words_apart, IsWellFormed, frame-aligned}

zero-not-present : is_present 0 ≡ false
unfolding is_present
zero-not-present = refl

module _ (a : Allocator) (cr3 : ℕ) (m : Machine a) (wf : IsWellFormed a cr3 m) (vpn : ℕ)
    (small : vpn < 2 ^ 20) where
  abbrev dir : ℕ
  dir = m.mem (word_at cr3 (vpn / 1024))

  abbrev erased : ℕ → ℕ
  erased = update m.mem (word_at (frame dir) (vpn % 1024)) 0

  -- The directory stays.
  erased-pde :
      is_present dir ≡ true → (j : ℕ) → j < 1024 → erased (word_at cr3 j) ≡ m.mem (word_at cr3 j)
  erased-pde y j jl =
      let d = vpn / 1024 in
      let dl : d < 1024 = omega arith in
      let ne =
        words_apart (frame dir) cr3 (vpn % 1024) j (frame-aligned a _ (wf.words d dl))
          wf.dir_aligned (wf.not_dir d dl y) (omega arith) jl in
      ground arith

  erased-IsWellFormed : is_present dir ≡ true → IsWellFormed a cr3 (record m { mem = erased })
  erased-IsWellFormed y = record {
    dir_aligned = wf.dir_aligned;
    dir_live = wf.dir_live;
    words = λ i il. rw (erased-pde y i il) (wf.words i il);
    table_live =
        λ i il z. rw (erased-pde y i il) (wf.table_live i il (rw (erased-pde y i il) at z));
    not_dir = λ i il z. rw (erased-pde y i il) (wf.not_dir i il (rw (erased-pde y i il) at z));
    apart = λ i j il jl ij z w.
        rw (erased-pde y i il, erased-pde y j jl)
          (wf.apart i j il jl ij (rw (erased-pde y i il) at z) (rw (erased-pde y j jl) at w));
  }

  walk-erased : is_present dir ≡ true → walk erased cr3 vpn ≡ 0
  unfolding walk
  walk-erased y = rw (erased-pde y (vpn / 1024) (omega arith), y) (ground arith)

  walk-erased_other :
      is_present dir ≡ true → (u : ℕ) → u < 2 ^ 20 → u ≢ vpn → walk erased cr3 u ≡ walk m.mem cr3 u
  unfolding walk
  walk-erased_other y u ul ne =
      let jl : u / 1024 < 1024 = omega arith in
      let dl : vpn / 1024 < 1024 = omega arith in
      rw (erased-pde y (u / 1024) jl)
        (elim (Bool-cases (is_present (m.mem (word_at cr3 (u / 1024))))) [
          | inr n ↦ rw n
          | inl z ↦ rw z (elim (ℕ_discrete (u / 1024) (vpn / 1024)) [
            | yes q ↦
                let e : frame (m.mem (word_at cr3 (u / 1024))) ≡ frame dir = rw q refl in
                let slot : word_at (frame (m.mem (word_at cr3 (u / 1024)))) (u % 1024)
                    ≢ word_at (frame dir) (vpn % 1024) =
                  omega arith in
                ground arith
            | no ne' ↦
                let apart = wf.apart (vpn / 1024) (u / 1024) dl jl (λ e. ne' (sym e)) y z in
                let slot =
                  words_apart (frame dir) (frame (m.mem (word_at cr3 (u / 1024)))) (vpn % 1024)
                    (u % 1024) (frame-aligned a _ (wf.words (vpn / 1024) dl))
                    (frame-aligned a _ (wf.words (u / 1024) jl)) apart (omega arith)
                    (omega arith) in
                ground arith
          ])
        ])

  walk-absent : is_present dir ≡ false → is_present (walk m.mem cr3 vpn) ≡ false
  unfolding walk
  walk-absent n = rw n zero-not-present

  walk-present :
      is_present dir ≡ true
      → is_present (m.mem (word_at (frame dir) (vpn % 1024))) ≡ false
      → is_present (walk m.mem cr3 vpn) ≡ false
  unfolding walk
  walk-present y n = rw y n

  -- After `paging_free_vpn` the page has no present entry, whether or not it had one before; all
  -- other pages have the entries that they had, and the tables still lie apart.
  pub paging_free_vpn_lem :
      let m' = paging_free_vpn a cr3 vpn m in
      (is_present (walk m'.mem cr3 vpn) ≡ false)
      × ((u : ℕ) → u < 2 ^ 20 → u ≢ vpn → walk m'.mem cr3 u ≡ walk m.mem cr3 u)
      × IsWellFormed a cr3 m'
  unfolding paging_free_vpn
  paging_free_vpn_lem = elim (Bool-cases (is_present dir)) [
    | inr n ↦ rw n (walk-absent n, (λ u ul ne. refl), wf)
    | inl y ↦ elim (Bool-cases (is_present (m.mem (word_at (frame dir) (vpn % 1024))))) [
      | inr n ↦ rw (y, n) (walk-present y n, (λ u ul ne. refl), wf)
      | inl z ↦
          rw (y, z)
            (rw (walk-erased y) zero-not-present, walk-erased_other y, erased-IsWellFormed y)
    ]
  ]

-- ===== src/Paging/Map.antt =====
-- `paging_new_vpn_to_pfn` changes the meaning of one virtual page, and keeps the tables apart.
use amog_os.Base.{
  ℕ, ◌/◌, ◌%◌, ◌^◌, ◌<◌, ◌≡◌, ◌≢◌, sym, ◌∙◌, true, arith, bit_or, ℕ_discrete, Bool-cases, inl, inr,
}
use amog_os.Base.Memory.{update}
use amog_os.Paging.{Machine, is_present, frame, word_at}
use amog_os.Paging.Entry.{entry-add, frame-entry, is_present-entry}
use amog_os.Paging.Interface.{Allocator}
use amog_os.Paging.Walk.{walk, words_apart, IsWellFormed, IsFor, frame-aligned}

-- The memory after the two writes of `set_pte`, of the entry `v` and of the directory entry.
unfoldable pub written : (ℕ → ℕ) → ℕ → ℕ → ℕ → ℕ → ℕ → ℕ → ℕ
written mem cr3 vpn table v flags =
    update (update mem (word_at table (vpn % 1024)) v) (word_at cr3 (vpn / 1024))
      (bit_or table flags)

module _ (a : Allocator) (cr3 : ℕ) where
  open a use {Live, kzalloc_page, aligned, bounded, fresh, keeps, holds}

  module _ (m : Machine a) (wf : IsWellFormed a cr3 m) (vpn table v flags : ℕ)
      (small : vpn < 2 ^ 20) (for : IsFor a cr3 m (vpn / 1024) table) (lt : flags < 256)
      (odd : flags % 2 ≡ 1) where
    abbrev pub mapped : ℕ → ℕ
    mapped = written m.mem cr3 vpn table v flags

    -- Every other word stays.
    mapped-get :
        (b : ℕ) → word_at cr3 (vpn / 1024) ≢ b → word_at table (vpn % 1024) ≢ b → mapped b ≡ m.mem b
    unfolding written
    mapped-get b nd ns = ground arith

    mapped-dir : mapped (word_at cr3 (vpn / 1024)) ≡ bit_or table flags
    unfolding written
    mapped-dir = ground arith

    -- The other directory entries stay.
    mapped-pde :
        (j : ℕ) → j < 1024 → j ≢ vpn / 1024 → mapped (word_at cr3 j) ≡ m.mem (word_at cr3 j)
    mapped-pde j jl ne = mapped-get (word_at cr3 j) (omega arith) (
        words_apart table cr3 (vpn % 1024) j for.aligned wf.dir_aligned for.ne_dir (omega arith) jl)

    -- The words of another table stay.
    mapped-other :
        (p k : ℕ)
        → p % 4096 ≡ 0
        → p ≢ cr3
        → p ≢ table
        → k < 1024
        → mapped (word_at p k) ≡ m.mem (word_at p k)
    mapped-other p k al nd nt kl =
        mapped-get (word_at p k)
          (words_apart cr3 p (vpn / 1024) k wf.dir_aligned al (λ e. nd (sym e)) (omega arith) kl)
          (words_apart table p (vpn % 1024) k for.aligned al (λ e. nt (sym e)) (omega arith) kl)

    mapped-slot :
        (k : ℕ) → k < 1024 → k ≢ vpn % 1024 → mapped (word_at table k) ≡ m.mem (word_at table k)
    mapped-slot k kl ne =
        mapped-get (word_at table k)
          (words_apart cr3 table (vpn / 1024) k wf.dir_aligned for.aligned (λ e. for.ne_dir (sym e))
            (omega arith) kl)
          (omega arith)

    mapped_self : mapped (word_at table (vpn % 1024)) ≡ v
    unfolding written
    mapped_self =
        let ne =
          words_apart cr3 table (vpn / 1024) (vpn % 1024) wf.dir_aligned for.aligned
            (λ e. for.ne_dir (sym e)) (omega arith) (omega arith) in
        ground arith

    present : is_present (bit_or table flags) ≡ true
    present = is_present-entry table flags for.aligned (omega arith) odd

    points : frame (bit_or table flags) ≡ table
    points = frame-entry table flags for.aligned for.bounded (omega arith)

    pub walk-mapped : walk mapped cr3 vpn ≡ v
    unfolding walk
    walk-mapped = rw (mapped-dir, present, points) mapped_self

    pub walk-mapped_same_dir :
        (u : ℕ)
        → u / 1024 ≡ vpn / 1024
        → u ≢ vpn
        → walk mapped cr3 u ≡ m.mem (word_at table (u % 1024))
    unfolding walk
    walk-mapped_same_dir u e ne =
        rw (e, mapped-dir, present, points) (mapped-slot (u % 1024) (omega arith) (omega arith))

    pub walk-mapped_other :
        (u : ℕ) → u < 2 ^ 20 → u / 1024 ≢ vpn / 1024 → walk mapped cr3 u ≡ walk m.mem cr3 u
    unfolding walk
    walk-mapped_other u ul ne =
        let jl : u / 1024 < 1024 = omega arith in
        rw (mapped-pde (u / 1024) jl ne)
          (elim (Bool-cases (is_present (m.mem (word_at cr3 (u / 1024))))) [
            | inl y ↦ rw y (
                mapped-other (frame (m.mem (word_at cr3 (u / 1024)))) (u % 1024)
                  (frame-aligned a _ (wf.words (u / 1024) jl)) (wf.not_dir (u / 1024) jl y)
                  (for.others (u / 1024) jl ne y) (omega arith))
            | inr n ↦ rw n
          ])

    mapped-pde_self : (i : ℕ) → i ≡ vpn / 1024 → mapped (word_at cr3 i) ≡ bit_or table flags
    mapped-pde_self i q = rw q mapped-dir

    -- No directory entry stops being present.
    pub mapped-present :
        (j : ℕ)
        → j < 1024
        → is_present (m.mem (word_at cr3 j)) ≡ true
        → is_present (mapped (word_at cr3 j)) ≡ true
    mapped-present j jl y = elim (ℕ_discrete j (vpn / 1024)) [
      | yes q ↦ rw (mapped-pde_self j q) present
      | no ne ↦ rw (mapped-pde j jl ne) y
    ]

    -- With the new entry the tables still lie apart.
    pub mapped-IsWellFormed : IsWellFormed a cr3 (record m { mem = mapped })
    mapped-IsWellFormed = record {
      dir_aligned = wf.dir_aligned;
      dir_live = wf.dir_live;
      words = λ i il. elim (ℕ_discrete i (vpn / 1024)) [
        | yes q ↦ rw (mapped-pde_self i q) (
            omega
              (arith, for.bounded, for.aligned, entry-add table flags for.aligned (omega arith)))
        | no ne ↦ rw (mapped-pde i il ne) (wf.words i il)
      ];
      table_live = λ i il y. elim (ℕ_discrete i (vpn / 1024)) [
        | yes q ↦ rw (mapped-pde_self i q, points) for.live
        | no ne ↦ rw (mapped-pde i il ne) (wf.table_live i il (rw (mapped-pde i il ne) at y))
      ];
      not_dir = λ i il y. elim (ℕ_discrete i (vpn / 1024)) [
        | yes q ↦ rw (mapped-pde_self i q, points) for.ne_dir
        | no ne ↦ rw (mapped-pde i il ne) (wf.not_dir i il (rw (mapped-pde i il ne) at y))
      ];
      apart = λ i j il jl ij y z. elim (ℕ_discrete i (vpn / 1024)) [
        | yes q ↦
            let ne : j ≢ vpn / 1024 = λ e. ij (q ∙ sym e) in
            rw (mapped-pde_self i q, points, mapped-pde j jl ne)
              (λ e. for.others j jl ne (rw (mapped-pde j jl ne) at z) (sym e))
        | no ne ↦ elim (ℕ_discrete j (vpn / 1024)) [
          | yes q ↦
              rw (mapped-pde_self j q, points, mapped-pde i il ne)
                (for.others i il ne (rw (mapped-pde i il ne) at y))
          | no ne' ↦
              rw (mapped-pde i il ne, mapped-pde j jl ne')
                (wf.apart i j il jl ij (rw (mapped-pde i il ne) at y)
                  (rw (mapped-pde j jl ne') at z))
        ]
      ];
    }

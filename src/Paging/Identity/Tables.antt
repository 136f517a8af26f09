-- ===== src/Paging/Identity/Tables.antt =====
-- The tables that `paging_create_4gb_page_tables` makes, one after the other.
use amog_os.Base.{
  ℕ, zero, suc, ◌+◌, ◌*◌, ◌/◌, ◌%◌, ◌^◌, ◌<◌, ◌≤◌, ◌≡◌, ◌≢◌, ◌⊎◌, inl, inr, refl, sym, ap, ◌∙◌,
  subst, fun_ext, false, bit_or, arith, ℕ_discrete, leb, ltb, ◌&&◌, ◌==◌, if◌then◌else◌,
}
use amog_os.Base.Int.{pos, neg}
use amog_os.Base.Memory.{update}
use amog_os.Base.Words.{add32}
use amog_os.Paging.{Machine, is_present, word_at, page_size, kzalloc}
use amog_os.Paging.Entry.{is_present-even}
use amog_os.Paging.Fresh.{fresh-IsWellFormed, fresh-IsFor, walk-fresh}
use amog_os.Paging.Identity.{fill_table, dir_entry, create_tables, paging_create_4gb_page_tables}
use amog_os.Paging.Identity.Fill.{fill_table-other, fill_table_self, dir_flags, dir_entry-add}
use amog_os.Paging.Interface.{Allocator}
use amog_os.Paging.Map.{
  written, walk-mapped, walk-mapped_same_dir, walk-mapped_other, mapped-IsWellFormed,
}
use amog_os.Paging.Memory.{RunsOut, Asked-one, RunsOut-now, RunsOut-after}
use amog_os.Paging.Vpn.{page, cleared, kzalloc-cleared, kzalloc-none, cleared-same}
use amog_os.Paging.Walk.{walk, IsWellFormed, IsFor}

written_same :
    (f : ℕ → ℕ) (dir i page flags x : ℕ)
    → x ≡ bit_or page flags
    → written f dir (i * 1024) page (f (word_at page 0)) flags ≡ update f (word_at dir i) x
unfolding written
written_same f dir i page flags x e =
    let e₁ : i * 1024 % 1024 ≡ 0 = omega arith in
    let e₂ : i * 1024 / 1024 ≡ i = omega arith in
    let s = word_at page 0 in
    let d = word_at dir i in
    rw (e₁, e₂, e)
      (fun_ext (λ b. elim (ℕ_discrete s b) [
        | yes q ↦ rw (← q) (ground arith)
        | no ne ↦ ground (arith, ne)
      ]))

module _ (a : Allocator) (flags : ℕ) (small : flags < 256) (odd : flags % 2 ≡ 1) where
  open a use {kzalloc_page, aligned, bounded, holds}

  -- The first `i` tables map their pages to themselves.
  pub record IsBuilt (dir i : ℕ) (m : Machine a) : Type 0 where
    pub well_formed : IsWellFormed a dir m
    pub identity : (u : ℕ) → u < i * 1024 → u < 2 ^ 20 → walk m.mem dir u ≡ bit_or (u * 4096) flags

  module _ (dir i offset : ℕ) (m : Machine a) (built : IsBuilt dir i m)
      (got : (kzalloc_page m.heap).0 ≢ 0) (few : i < 1024) (offset_eq : offset ≡ i * 4194304) where
    abbrev table : ℕ
    table = (kzalloc_page m.heap).0

    abbrev start : Machine a
    start = cleared a dir m built.well_formed got

    filled : ℕ → ℕ
    filled = fill_table 1024 0 table offset flags start.mem

    filled-same : (b : ℕ) → (b < table) ⊎ (table + 4096 ≤ b) → filled b ≡ m.mem b
    unfolding filled
    filled-same b out =
        fill_table-other 1024 0 table offset flags start.mem b
          (elim out [ inl lt ↦ inl (omega arith) | inr ge ↦ inr (omega arith) ])
        ∙ cleared-same a dir m built.well_formed got b out

    filled_self :
        (u : ℕ) → u / 1024 ≡ i → filled (word_at table (u % 1024)) ≡ bit_or (u * 4096) flags
    unfolding filled
    filled_self u e =
        let x : add32 offset (u % 1024 * page_size) ≡ u * 4096 = omega arith in
        fill_table_self 1024 0 table offset flags start.mem (u % 1024) (omega arith) (omega arith)
        ∙ ap (λ (n : ℕ). bit_or n flags) x

    abbrev next : Machine a
    next = record start { mem = update filled (word_at dir i) (dir_entry table flags) }

    next-written :
        written filled dir (i * 1024) table (filled (word_at table 0)) (dir_flags flags) ≡ next.mem
    next-written =
        written_same filled dir i table (dir_flags flags) (dir_entry table flags)
          (dir_entry-add table flags (aligned m.heap got) (omega (arith, bounded m.heap got)) small)

    abbrev wf_fresh : IsWellFormed a dir (record start { mem = filled })
    wf_fresh = fresh-IsWellFormed a dir m built.well_formed got filled filled-same

    abbrev for_fresh : IsFor a dir (record start { mem = filled }) (i * 1024 / 1024) table
    for_fresh = fresh-IsFor a dir m built.well_formed got filled filled-same (i * 1024 / 1024)

    abbrev first : ℕ
    first = filled (word_at table 0)

    -- The walks once the table is entered in the directory.
    walk-written :
        (u : ℕ)
        → u < (i + 1) * 1024
        → u < 2 ^ 20
        → walk (written filled dir (i * 1024) table first (dir_flags flags)) dir u
          ≡ bit_or (u * 4096) flags
    walk-written u lt ul =
        let n = record start { mem = filled } in
        let d = dir_flags flags in
        let s : i * 1024 < 2 ^ 20 = omega arith in
        elim (ℕ_discrete (u / 1024) i) [
          | yes e ↦ elim (ℕ_discrete u (i * 1024)) [
            | yes q ↦
                rw q (
                  walk-mapped a dir n wf_fresh (i * 1024) table first d s for_fresh (omega arith)
                    (omega arith))
                ∙ first-value u q
            | no ne ↦
                walk-mapped_same_dir a dir n wf_fresh (i * 1024) table first d s for_fresh
                  (omega arith) (omega arith) u (omega arith) ne
                ∙ filled_self u e
          ]
          | no ne ↦
              walk-mapped_other a dir n wf_fresh (i * 1024) table first d s for_fresh (omega arith)
                (omega arith) u ul (omega arith)
              ∙ walk-fresh a dir m built.well_formed got filled filled-same u ul
              ∙ built.identity u (omega arith) ul
        ]
      where
        first-value : (u : ℕ) → u ≡ i * 1024 → first ≡ bit_or (u * 4096) flags
        first-value u q =
            let z : u % 1024 ≡ 0 = omega arith in let h = filled_self u (omega arith) in rw z at h

    next-IsBuilt : IsBuilt dir (i + 1) next
    next-IsBuilt =
        let n = record start { mem = filled } in
        let s : i * 1024 < 2 ^ 20 = omega arith in
        let wf =
          mapped-IsWellFormed a dir n wf_fresh (i * 1024) table first (dir_flags flags) s for_fresh
            (omega arith) (omega arith) in
        record {
          well_formed =
              subst (λ (f : ℕ → ℕ). IsWellFormed a dir (record start { mem = f })) next-written wf;
          identity =
              λ u lt ul. ap (λ (f : ℕ → ℕ). walk f dir u) (sym next-written) ∙ walk-written u lt ul;
        }

  -- A cleared page and nothing else.
  abbrev blank : Machine a → Machine a
  blank m =
      let page = (kzalloc_page m.heap).0 in
      record {
        mem = λ b. if leb page b && ltb b (page + page_size) then 0 else m.mem b;
        heap = (kzalloc_page m.heap).1;
      }

  module _ (kfree : ℕ → a.State → a.State) where
    pub create_tables-IsBuilt :
        (rounds i dir offset : ℕ) (m : Machine a)
        → IsBuilt dir i m
        → i + rounds ≡ 1024
        → offset ≡ i * 4194304 % 2 ^ 32
        → ((m' : Machine a) × (create_tables a kfree rounds i dir offset flags m ≡ (pos 0, m'))
            × IsBuilt dir 1024 m')
          ⊎ (((create_tables a kfree rounds i dir offset flags m).0 ≡ neg 3)
              × RunsOut a rounds m.heap)
    unfolding create_tables filled
    create_tables-IsBuilt zero i dir offset m b e o =
        let z : i ≡ 1024 = omega arith in inl (m, refl, subst (λ (n : ℕ). IsBuilt dir n m) z b)
    create_tables-IsBuilt (suc r) i dir offset m b e o =
        elim (ℕ_discrete (kzalloc_page m.heap).0 0) [
          | yes z ↦
              inr (rw (kzalloc-none a dir m z) refl, RunsOut-now a (suc r) m.heap (omega arith) z)
          | no got ↦
              let x : offset ≡ i * 4194304 = omega arith in
              let nz : ((kzalloc_page m.heap).0 == 0) ≡ false = ground arith in
              let rest =
                create_tables-IsBuilt r (i + 1) dir (add32 offset 4194304)
                  (next dir i offset m b got (omega arith) x)
                  (next-IsBuilt dir i offset m b got (omega arith) x) (omega arith) (omega arith) in
              rw (kzalloc-cleared a dir m b.well_formed got, nz)
                (elim rest [
                  | inl built ↦ inl built
                  | inr (e', out) ↦ inr (
                    e',
                    RunsOut-after a 1 r (suc r) m.heap (kzalloc_page m.heap).1 (omega arith)
                        (Asked-one a m.heap (kzalloc_page m.heap).1 (inr refl)) out,
                  )
                ])
        ]

    blank-IsBuilt :
        (m : Machine a) → (kzalloc_page m.heap).0 ≢ 0 → IsBuilt (kzalloc_page m.heap).0 0 (blank m)
    blank-IsBuilt m got =
        let dir = (kzalloc_page m.heap).0 in
        let empty : (i : ℕ) → i < 1024 → (blank m).mem (word_at dir i) ≡ 0 = λ i il. ground arith in
        let absent : (i : ℕ) → i < 1024 → is_present ((blank m).mem (word_at dir i)) ≡ false =
          λ i il. rw (empty i il) (is_present-even 0 refl) in
        record {
          well_formed = record {
            dir_aligned = aligned m.heap got;
            dir_live = holds m.heap got;
            words = λ i il. rw (empty i il) (omega arith);
            table_live = λ i il y. absurd (cc (absent i il, y));
            not_dir = λ i il y. absurd (cc (absent i il, y));
            apart = λ i j il jl ij y z. absurd (cc (absent i il, y));
          };
          identity = λ u lt ul. absurd (omega arith);
        }

    kzalloc-blank :
        (m : Machine a)
        → (kzalloc_page m.heap).0 ≢ 0
        → kzalloc a m ≡ ((kzalloc_page m.heap).0, blank m)
    unfolding kzalloc
    kzalloc-blank m got = let z : ((kzalloc_page m.heap).0 == 0) ≡ false = ground arith in rw z refl

    -- With flags of one byte that have PAGE_PRESENT, `paging_create_4gb_page_tables` either ends
    -- with a table whose tables are allocated pages apart from each other, in which every virtual
    -- page is mapped to the frame of the same number, with these flags; or it reports that there
    -- is not enough memory, having set no `cr3`, and then one of the first 1025 requests for a page
    -- to the heap gets none.
    pub paging_create_4gb_page_tables_lem :
        (m : Machine a)
        → ((dir : ℕ) × (m' : Machine a) × (paging_create_4gb_page_tables a kfree flags m
              ≡ (pos 0, dir, m'))
            × IsWellFormed a dir m'
            × ((u : ℕ) → u < 2 ^ 20 → walk m'.mem dir u ≡ bit_or (u * 4096) flags))
          ⊎ (((paging_create_4gb_page_tables a kfree flags m).0 ≡ neg 3)
              × ((paging_create_4gb_page_tables a kfree flags m).1 ≡ 0)
              × RunsOut a 1025 m.heap)
    unfolding paging_create_4gb_page_tables
    paging_create_4gb_page_tables_lem m = elim (ℕ_discrete (kzalloc_page m.heap).0 0) [
      | yes z ↦
          inr (rw (kzalloc-none a 0 m z) (refl, refl, RunsOut-now a 1025 m.heap (omega arith) z))
      | no got ↦
          let dir = (kzalloc_page m.heap).0 in
          let nz : (dir == 0) ≡ false = ground arith in
          elim (create_tables-IsBuilt 1024 0 dir 0 (blank m) (blank-IsBuilt m got) refl refl) [
            | inl (m', e, b) ↦ inl (
              dir,
              m',
              rw (kzalloc-blank m got, nz, e) refl,
              b.well_formed,
              λ u ul. b.identity u (omega arith) ul,
            )
            | inr (e, out) ↦ inr (
                rw (kzalloc-blank m got, nz, e)
                  (
                    refl,
                    refl,
                    RunsOut-after a 1 1024 1025 m.heap (kzalloc_page m.heap).1 (omega arith)
                        (Asked-one a m.heap (kzalloc_page m.heap).1 (inr refl)) out,
                  ))
          ]
    ]

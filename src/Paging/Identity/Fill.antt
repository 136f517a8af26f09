-- ===== src/Paging/Identity/Fill.antt =====
-- One of the tables that `paging_create_4gb_page_tables` fills.
use amog_os.Base.{
  refl, ℕ, zero, suc, ◌+◌, ◌*◌, ◌/◌, ◌%◌, ◌^◌, ◌<◌, ◌≤◌, ◌≡◌, ◌≢◌, ◌⊎◌, inl, inr, ◌∙◌, bit_or,
  arith, ℕ_discrete,
}
use amog_os.Base.Bits.{bit_or_step, bit_or-zero}
use amog_os.Base.Memory.{update, update_self, update_ne}
use amog_os.Base.Words.{add32, mul32}
use amog_os.Paging.{word_at, page_size}
use amog_os.Paging.Entry.{entry-add}
use amog_os.Paging.Identity.{fill_table, dir_entry}

-- A word that is none of those that are filled stays.
pub fill_table-other :
    (rounds j table offset flags : ℕ) (mem : ℕ → ℕ) (b : ℕ)
    → (b < word_at table j) ⊎ (word_at table (j + rounds) ≤ b)
    → fill_table rounds j table offset flags mem b ≡ mem b
unfolding fill_table
fill_table-other zero j table offset flags mem b out = refl
fill_table-other (suc r) j table offset flags mem b out =
    let v = bit_or (add32 offset (j * page_size)) flags in
    let ne : word_at table j ≢ b =
      λ e. elim out [ inl lt ↦ absurd (omega arith) | inr ge ↦ absurd (omega arith) ] in
    fill_table-other r (j + 1) table offset flags (update mem (word_at table j) v) b
      (elim out [ inl lt ↦ inl (omega arith) | inr ge ↦ inr (omega arith) ])
    ∙ update_ne mem (word_at table j) b v ne

pub fill_table_self :
    (rounds j table offset flags : ℕ) (mem : ℕ → ℕ) (k : ℕ)
    → j ≤ k
    → k < j + rounds
    → fill_table rounds j table offset flags mem (word_at table k)
      ≡ bit_or (add32 offset (k * page_size)) flags
unfolding fill_table
fill_table_self zero j table offset flags mem k ge lt = absurd (omega arith)
fill_table_self (suc r) j table offset flags mem k ge lt =
    let v = bit_or (add32 offset (j * page_size)) flags in
    let mem' = update mem (word_at table j) v in
    elim (ℕ_discrete k j) [
      | yes e ↦ rw e (
          fill_table-other r (j + 1) table offset flags mem' (word_at table j) (inl (omega arith))
          ∙ update_self mem (word_at table j) v)
      | no ne ↦ fill_table_self r (j + 1) table offset flags mem' k (omega arith) (omega arith)
    ]

bit_or-two : (w : ℕ) → bit_or w 2 ≡ w / 4 * 4 + 2 + w % 2
bit_or-two w = omega (arith, bit_or_step w 2, bit_or_step (w / 2) 1, bit_or-zero (w / 2 / 2))

-- The flags of a directory entry.
abbrev pub dir_flags : ℕ → ℕ
dir_flags flags = flags / 4 * 4 + 2 + flags % 2

pub dir_entry-add :
    (page flags : ℕ)
    → page % 4096 ≡ 0
    → page < 2 ^ 32
    → flags < 256
    → dir_entry page flags ≡ bit_or page (dir_flags flags)
unfolding dir_entry
dir_entry-add page flags al lt fl =
    let e : mul32 (page / page_size) page_size ≡ page = omega arith in
    rw e (
      rw (entry-add page flags al (omega arith)) (
        omega
          (arith, bit_or-two (page + flags), entry-add page (dir_flags flags) al (omega arith))))

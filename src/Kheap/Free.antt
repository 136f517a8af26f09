-- ===== src/Kheap/Free.antt =====
-- What `kfree` writes into the table.
use amog_os.Base.{
  ℕ, zero, suc, ◌+◌, ◌-◌, ◌<◌, ◌≤◌, ◌≡◌, ◌⊎◌, inl, inr, ◌∙◌, Bool-cases, refl, true, false, arith,
  ◌==◌, if◌then◌else◌, bit_and, ℕ_discrete,
}
use amog_os.Kheap.{Kheap, entry_at, set_entry, free_run, has_next}
use amog_os.Base.Memory.{update_ne}
use amog_os.Kheap.Mark.{in_run}

-- The entries from `i` to `e` form one chain: each but the last has a successor.
pub record IsChain (h : Kheap) (i e : ℕ) : Type 0 where
  pub linked : (j : ℕ) → i ≤ j → j < e → (bit_and (entry_at h j) has_next == 0) ≡ false
  pub ends : (bit_and (entry_at h e) has_next == 0) ≡ true

free_run-step :
    (r i : ℕ) (h : Kheap)
    → free_run (suc r) i h ≡ (
        if bit_and (entry_at h i) has_next == 0
        then set_entry h i 0
        else free_run r (i + 1) (set_entry h i 0))
unfolding free_run
free_run-step r i h = refl

pub free_run-mem :
    (r i e : ℕ) (h : Kheap) (a : ℕ)
    → i ≤ e
    → e < i + r
    → IsChain h i e
    → (free_run r i h).mem a ≡ (if in_run h i (suc e - i) a then 0 else h.mem a)
free_run-mem zero i e h a le lt c = absurd (omega arith)
free_run-mem (suc r) i e h a le lt c = elim (ℕ_discrete i e) [
  | yes q ↦
      let last : (bit_and (entry_at h i) has_next == 0) ≡ true = rw q c.ends in
      rw (free_run-step, last) (ground arith)
  | no q ↦
      rw (free_run-step, c.linked i (omega arith) (omega arith))
        (ground (
          arith,
          free_run-mem r (i + 1) e (set_entry h i 0) a (omega arith) (omega arith)
              (rest (omega arith)),
        ))
]
  where
    rest : i < e → IsChain (set_entry h i 0) (i + 1) e
    rest lt = record {
      linked = λ j ge below.
          rw (update_ne h.mem (h.table + i) (h.table + j) 0 (omega arith))
            (c.linked j (omega arith) below);
      ends = rw (update_ne h.mem (h.table + i) (h.table + e) 0 (omega arith)) c.ends;
    }

pub free_run_same :
    (r i : ℕ) (h : Kheap)
    → ((free_run r i h).table ≡ h.table)
      × ((free_run r i h).num_entries ≡ h.num_entries)
      × ((free_run r i h).start_addr ≡ h.start_addr)
unfolding free_run
free_run_same zero i h = (refl, refl, refl)
free_run_same (suc r) i h = ground (arith, free_run_same r (i + 1) (set_entry h i 0))

-- No entry behind those that are freed is written.
pub free_run-beyond :
    (r i b : ℕ) (h : Kheap)
    → (i + r ≤ b) ⊎ (r ≡ 0)
    → (free_run r i h).mem (h.table + b) ≡ h.mem (h.table + b)
unfolding free_run
free_run-beyond zero i b h out = refl
free_run-beyond (suc r) i b h (inr e) = absurd (omega arith)
free_run-beyond (suc r) i b h (inl le) =
    let ne = update_ne h.mem (h.table + i) (h.table + b) 0 (omega arith) in
    elim (Bool-cases (bit_and (entry_at h i) has_next == 0)) [
      | inl t ↦ rw t ne
      | inr f ↦ rw f (free_run-beyond r (i + 1) b (set_entry h i 0) (inl (omega arith)) ∙ ne)
    ]

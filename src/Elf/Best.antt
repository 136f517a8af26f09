-- ===== src/Elf/Best.antt =====
-- The first of the loaded segments in an order, as a scan of the program headers finds it.
use amog_os.Base.{ℕ, ◌+◌, ◌<◌, ◌≡◌, ◌≢◌, refl, ap, ◌∙◌, sym, ◌⊎◌, inl, inr, arith, ℕ_discrete}
use amog_os.Elf.{Phdr, pt_load}

unfoldable pub Load : (ℕ → Phdr) → ℕ → Type 0
Load phs j = (phs j).p_type ≡ pt_load

-- Of the loaded ones among the first `n` headers, `v` is the key that comes first in the order `R`,
-- and `p` is the place of that header; both are what they were, and `v` is 0, when none is loaded.
pub record IsBest (R : ℕ → ℕ → Type 0) (phs : ℕ → Phdr) (key place : ℕ → ℕ) (n v p : ℕ)
    : Type 0 where
  pub first : (j : ℕ) → j < n → Load phs j → R v (key j)
  pub attained :
      ((j : ℕ) × (j < n) × Load phs j × (v ≡ key j) × (p ≡ place j))
      ⊎ ((v ≡ 0) × ((j : ℕ) → j < n → Load phs j → ⊥))

module _ (R : ℕ → ℕ → Type 0) (phs : ℕ → Phdr) (key place : ℕ → ℕ) (n v p : ℕ) where
  pub skip :
      ((phs n).p_type ≢ pt_load) → IsBest R phs key place n v p → IsBest R phs key place (n + 1) v p
  unfolding Load
  skip other b = record {
    first = λ j lt l. elim (ℕ_discrete j n) [
      | yes here ↦ absurd (other (ap (λ k. (phs k).p_type) (sym here) ∙ l))
      | no ne ↦ b.first j (omega arith) l
    ];
    attained = elim (b.attained) [
      | inl (j, lt, l, e, q) ↦ inl (j, omega arith, l, e, q)
      | inr (z, none_loaded) ↦ inr (
        z,
        λ j lt l. elim (ℕ_discrete j n) [
          | yes here ↦ other (ap (λ k. (phs k).p_type) (sym here) ∙ l)
          | no ne ↦ none_loaded j (omega arith) l
        ],
      )
    ];
  }

  pub stay : v ≢ 0 → R v (key n) → IsBest R phs key place n v p → IsBest R phs key place (n + 1) v p
  unfolding Load
  stay nz r b = record {
    first = λ j lt l. elim (ℕ_discrete n j) [
      | yes here ↦ rw (sym here) r
      | no ne ↦ b.first j (omega arith) l
    ];
    attained = elim (b.attained) [
      | inl (j, lt, l, e, q) ↦ inl (j, omega arith, l, e, q)
      | inr (z, none_loaded) ↦ absurd (nz z)
    ];
  }

  pub replace :
      ((x : ℕ) → R x x)
      → Load phs n
      → ((j : ℕ) → j < n → Load phs j → R (key n) (key j))
      → IsBest R phs key place (n + 1) (key n) (place n)
  unfolding Load
  replace R_refl l before = record {
    first = λ j lt lj. elim (ℕ_discrete n j) [
      | yes here ↦ rw (sym here) (R_refl (key n))
      | no ne ↦ before j (omega arith) lj
    ];
    attained = inl (n, omega arith, l, refl, refl);
  }

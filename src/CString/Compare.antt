-- ===== src/CString/Compare.antt =====
-- When `strncmp` and `istrncmp` return 0.
use amog_os.Base.{
  ℕ, zero, suc, ◌+◌, ◌<◌, ◌≤◌, ◌≡◌, ◌≢◌, ◌↔◌, ◌⊎◌, inl, inr, arith, ℕ_discrete, Bool-cases, ◌==◌,
  ◌||◌, false, ap, sym, ◌∙◌, ==_iff,
}
use amog_os.Base.Int.{pos}
use amog_os.CString.{Str, strncmp, istrncmp, compare_from, compare_end, char_diff, to_lower}

abbrev pub IsBytes : Str → Type 0
IsBytes s = (k : ℕ) → s k < 256

-- The strings agree by `key` from `i` to `m`, as far as the first of them goes.
abbrev pub SameText : (ℕ → ℕ) → Str → Str → ℕ → ℕ → Type 0
SameText key s t i m =
    (k : ℕ) → i ≤ k → k < m → ((j : ℕ) → i ≤ j → j < k → s j ≢ 0) → key (s k) ≡ key (t k)

char_diff-ne : (a b : ℕ) → a < 256 → b < 256 → a ≢ b → char_diff a b ≢ pos 0
char_diff-ne a b ha hb ne e = ground arith

module _ (key : ℕ → ℕ) (key_zero : (c : ℕ) → key c ≡ key 0 → c ≡ 0) (s t : Str) (bs : IsBytes s)
    (bt : IsBytes t) (m : ℕ) where
  SameText-stop : (i : ℕ) → s i ≡ 0 → t i ≡ 0 → SameText key s t i m
  SameText-stop i a b k ge lt before = elim (ℕ_discrete i k) [
    | yes q ↦ rw (← q, a, b)
    | no ne ↦ absurd (before i (omega arith) (omega arith) a)
  ]

  SameText-head : (i : ℕ) → i < m → SameText key s t i m → key (s i) ≡ key (t i)
  SameText-head i lt h = h i (omega arith) lt (λ j ge below. absurd (omega arith))

  SameText-cons :
      (i : ℕ) → key (s i) ≡ key (t i) → SameText key s t (i + 1) m → SameText key s t i m
  SameText-cons i e h k ge lt before = elim (ℕ_discrete i k) [
    | yes q ↦ rw (← q) e
    | no ne ↦ h k (omega arith) lt (λ j ge' below. before j (omega arith) below)
  ]

  SameText-tail : (i : ℕ) → s i ≢ 0 → SameText key s t i m → SameText key s t (i + 1) m
  SameText-tail i nz h k ge lt before = h k (omega arith) lt λ j ge' below. elim (ℕ_discrete i j) [
    | yes q ↦ rw (← q) nz
    | no ne ↦ before j (omega arith) below
  ]

  compare_end-SameText :
      (i : ℕ)
      → i ≤ m
      → (s i ≡ 0) ⊎ (t i ≡ 0) ⊎ (i ≡ m)
      → (compare_end m s t i ≡ pos 0) ↔ SameText key s t i m
  unfolding compare_end
  compare_end-SameText i le z = elim (ℕ_discrete i m) [
    | yes q ↦ (λ _ k ge lt. absurd (omega arith), λ _. ground arith)
    | no ne ↦ elim (ℕ_discrete (s i) 0) [
      | yes a ↦ elim (ℕ_discrete (t i) 0) [
        | yes b ↦ (λ _. SameText-stop i a b, λ _. ground arith)
        | no b ↦ (
          λ e. absurd (ground arith),
          λ h. absurd (b (key_zero (t i) (sym (SameText-head i (omega arith) h) ∙ ap key a))),
        )
      ]
      | no a ↦ elim (ℕ_discrete (t i) 0) [
        | yes b ↦ (
          λ e. absurd (ground arith),
          λ h. absurd (a (key_zero (s i) (SameText-head i (omega arith) h ∙ ap key b))),
        )
        | no b ↦ absurd (ground arith)
      ]
    ]
  ]

  compare_from-SameText :
      (r i : ℕ) → i + r ≡ m → (compare_from key m s t r i ≡ pos 0) ↔ SameText key s t i m
  unfolding compare_from
  compare_from-SameText zero i e = compare_end-SameText i (omega arith) (inr (inr (omega arith)))
  compare_from-SameText (suc r) i e = elim (Bool-cases (s i == 0 || t i == 0)) [
    | inl z ↦ rw z (compare_end-SameText i (omega arith) (ground arith))
    | inr z ↦ rw z (elim (ℕ_discrete (key (s i)) (key (t i))) [
      | yes q ↦
          let ih = compare_from-SameText r (i + 1) (omega arith) in
          rw ((==_iff _ _).1 q)
            (λ h. SameText-cons i q (ih.0 h), λ h. ih.1 (SameText-tail i (ground arith) h))
      | no ne ↦
          let d : (key (s i) == key (t i)) ≡ false = ground arith in
          rw d (
            λ h. absurd (char_diff-ne (s i) (t i) (bs i) (bt i) (λ q. ne (ap key q)) h),
            λ h. absurd (ne (SameText-head i (omega arith) h)),
          )
    ])
  ]

-- `strncmp` returns 0 exactly if the strings agree in every character up to the limit, as far as
-- the first string goes.
pub strncmp_iff :
    (s t : Str) (maxlen : ℕ)
    → IsBytes s
    → IsBytes t
    → (strncmp s t maxlen ≡ pos 0) ↔ SameText (λ c. c) s t 0 maxlen
unfolding strncmp
strncmp_iff s t m bs bt = compare_from-SameText (λ c. c) (λ c e. e) s t bs bt m m 0 (omega arith)

to_lower_zero : (c : ℕ) → to_lower c ≡ to_lower 0 → c ≡ 0
unfolding to_lower
to_lower_zero c e = ground arith

-- `istrncmp` returns 0 exactly if the strings agree up to the limit but for the case of letters.
pub istrncmp_iff :
    (s t : Str) (maxlen : ℕ)
    → IsBytes s
    → IsBytes t
    → (istrncmp s t maxlen ≡ pos 0) ↔ SameText to_lower s t 0 maxlen
unfolding istrncmp
istrncmp_iff s t m bs bt =
    compare_from-SameText to_lower to_lower_zero s t bs bt m m 0 (omega arith)

-- ===== src/Base/Holds.antt =====
-- Lists of bytes in memory.
use amog_os.Base.{
  ℕ, zero, suc, ◌+◌, ◌<◌, ◌≤◌, ◌≡◌, ◌≢◌, subst, ap, ◌∙◌, List, [], ◌∷◌, ◌++◌, length, arith,
}

-- The bytes `bs` lie in memory from `a` on.
abbrev pub Holds : (ℕ → ℕ) → ℕ → List ℕ → Type 0
Holds mem a [] = Unit
Holds mem a (b ∷ bs) = (mem a ≡ b) × Holds mem (a + 1) bs

abbrev pub NonZero : List ℕ → Type 0
NonZero [] = Unit
NonZero (b ∷ bs) = (b ≢ 0) × NonZero bs

pub Holds-frame :
    (mem mem' : ℕ → ℕ) (a : ℕ) (bs : List ℕ)
    → ((j : ℕ) → a ≤ j → mem' j ≡ mem j)
    → Holds mem a bs
    → Holds mem' a bs
Holds-frame mem mem' a [] same h = tt
Holds-frame mem mem' a (b ∷ bs) same h =
    (same a (omega arith) ∙ h.0, Holds-frame mem mem' (a + 1) bs (λ j le. same j (omega arith)) h.1)

pub Holds-split :
    (mem : ℕ → ℕ) (a : ℕ) (xs ys : List ℕ)
    → Holds mem a (xs ++ ys)
    → Holds mem a xs × Holds mem (a + length xs) ys
Holds-split mem a [] ys h =
    let e : a ≡ a + 0 = omega arith in (tt, subst (λ (n : ℕ). Holds mem n ys) e h)
Holds-split mem a (x ∷ xs) ys h =
    let (p, q) = Holds-split mem (a + 1) xs ys h.1 in
    let e : a + 1 + length xs ≡ a + suc (length xs) = omega arith in
    ((h.0, p), subst (λ (n : ℕ). Holds mem n ys) e q)

pub Holds-snoc :
    (mem : ℕ → ℕ) (a : ℕ) (w : List ℕ)
    → Holds mem a w
    → mem (a + length w) ≡ 0
    → Holds mem a (w ++ (0 ∷ []))
Holds-snoc mem a [] h z = let e : a ≡ a + 0 = omega arith in (ap mem e ∙ z, tt)
Holds-snoc mem a (b ∷ w) h z =
    let e : a + 1 + length w ≡ a + suc (length w) = omega arith in
    (h.0, Holds-snoc mem (a + 1) w h.1 (ap mem e ∙ z))

pub within :
    (mem : ℕ → ℕ) (a k : ℕ) (w : List ℕ)
    → Holds mem a w
    → NonZero w
    → k < length w
    → mem (a + k) ≢ 0
within mem a k [] h nz lt = absurd (omega arith)
within mem a zero (b ∷ w) h nz lt = let e : a ≡ a + 0 = omega arith in rw (← e, h.0) nz.0
within mem a (suc k) (b ∷ w) h nz lt =
    let e : a + 1 + k ≡ a + suc k = omega arith in
    rw (← e) (within mem (a + 1) k w h.1 nz.1 (omega arith))

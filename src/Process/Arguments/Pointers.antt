-- ===== src/Process/Arguments/Pointers.antt =====
-- The loop of `process_add_arguments`: the pointers to the arguments.
use amog_os.Base.Holds.{Holds, NonZero, Holds-frame, Holds-split, within}
use amog_os.Base.{
  ℕ, suc, ◌+◌, ◌*◌, ◌^◌, ◌<◌, ◌≤◌, ◌≡◌, ◌⊎◌, inl, inr, refl, subst, ◌∙◌, List, [], ◌∷◌, ◌++◌, some,
  length, length-append, arith,
}
use amog_os.Base.Words.{add32, mul32}
use amog_os.Base.Bytes.{
  read_word, write_word, write_word-frame, read_word-write_word, read_word-cong,
}
use amog_os.CString.{strlen}
use amog_os.CString.Length.{HasLength, strlen_lem}
use amog_os.Process.Arguments.{set_pointers}

-- The arguments `ws` as the caller hands them over: each with a NUL behind it.
abbrev pub join : List (List ℕ) → List ℕ
join [] = []
join (w ∷ ws) = w ++ (0 ∷ join ws)

abbrev pub AreWords : List (List ℕ) → Type 0
AreWords [] = Unit
AreWords (w ∷ ws) = NonZero w × AreWords ws

-- The pointers from the `i`-th on point to `ws`, which lie one behind the other from `va` on.
abbrev pub Pointers : (ℕ → ℕ) → ℕ → ℕ → ℕ → List (List ℕ) → Type 0
Pointers mem ptrs i va [] = Unit
Pointers mem ptrs i va (w ∷ ws) =
    (read_word mem (ptrs + 4 * i) ≡ va) × Pointers mem ptrs (i + 1) (va + (length w + 1)) ws

-- An argument is a C string.
pub Holds-HasLength :
    (mem : ℕ → ℕ) (a : ℕ) (w bs : List ℕ)
    → NonZero w
    → a + length w < 2 ^ 32
    → Holds mem a (w ++ (0 ∷ bs))
    → HasLength (λ k. mem (add32 a k)) (length w)
Holds-HasLength mem a w bs nz lt h =
    let (p, q) = Holds-split mem a w (0 ∷ bs) h in
    let here : (k : ℕ) → k ≤ length w → add32 a k ≡ a + k = λ k le. omega arith in
    record {
      ends = rw (here (length w) (omega arith)) q.0;
      within = λ k lt'. rw (here k (omega arith)) (within mem a k w p nz lt');
    }

set_pointers-step :
    (fuel left i ptrs curr va n : ℕ) (mem : ℕ → ℕ)
    → strlen fuel (λ k. mem (add32 curr k)) ≡ some n
    → curr + (n + 1) < 2 ^ 32
    → va + (n + 1) < 2 ^ 32
    → ptrs + 4 * i < 2 ^ 32
    → set_pointers fuel (suc left) i ptrs curr va mem
      ≡ set_pointers fuel left
          (i + 1)
          ptrs
          (curr + (n + 1))
          (va + (n + 1))
          (write_word mem (ptrs + 4 * i) (va + (n + 1)))
unfolding set_pointers
set_pointers-step fuel left i ptrs curr va n mem e a b c =
    let p : add32 curr (n + 1) ≡ curr + (n + 1) = omega arith in
    let q : add32 va (n + 1) ≡ va + (n + 1) = omega arith in
    let r : add32 ptrs (mul32 4 i) ≡ ptrs + 4 * i = omega arith in rw e (rw (p, q, r) refl)

set_pointers-done :
    (fuel i ptrs curr va : ℕ) (mem : ℕ → ℕ) → set_pointers fuel 0 i ptrs curr va mem ≡ some mem
unfolding set_pointers
set_pointers-done fuel i ptrs curr va mem = refl

outside :
    (i n ptrs j : ℕ)
    → (j < ptrs + 4 * i) ⊎ (ptrs + 4 * (i + suc n) ≤ j)
    → (j < ptrs + 4 * (i + 1)) ⊎ (ptrs + 4 * (i + 1 + n) ≤ j)
outside i n ptrs j (inl lt) = inl (omega arith)
outside i n ptrs j (inr ge) = inr (omega arith)

-- The loop ends, having set the pointers to the words `ws` and nothing else.
pub record Sets (fuel i ptrs curr va : ℕ) (ws : List (List ℕ)) (mem mem' : ℕ → ℕ) : Type 0 where
  pub ends : set_pointers fuel (length ws) i ptrs curr va mem ≡ some mem'
  pub frame : (j : ℕ) → (j < ptrs + 4 * i) ⊎ (ptrs + 4 * (i + length ws) ≤ j) → mem' j ≡ mem j

pub set_pointers-Pointers :
    (fuel i ptrs curr va : ℕ) (w : List ℕ) (ws : List (List ℕ)) (mem : ℕ → ℕ)
    → AreWords (w ∷ ws)
    → Holds mem curr (join (w ∷ ws))
    → ptrs + 4 * (i + length ws) ≤ curr
    → curr + length (join (w ∷ ws)) < 2 ^ 32
    → va + length (join (w ∷ ws)) < 2 ^ 32
    → length (join (w ∷ ws)) < fuel
    → (mem' : ℕ → ℕ) × Sets fuel i ptrs curr va ws mem mem'
      × Pointers mem' ptrs i (va + (length w + 1)) ws
set_pointers-Pointers fuel i ptrs curr va w [] mem nz h room c v f =
    (mem, record { ends = set_pointers-done fuel i ptrs curr va mem; frame = λ j out. refl }, tt)
set_pointers-Pointers fuel i ptrs curr va w (w' ∷ ws) mem nz h room c v f =
    let l = length-append w (0 ∷ join (w' ∷ ws)) in
    let n = length w + 1 in
    let mem₁ = write_word mem (ptrs + 4 * i) (va + n) in
    let len =
      strlen_lem (λ k. mem (add32 curr k)) fuel (length w)
        (Holds-HasLength mem curr w (join (w' ∷ ws)) nz.0 (omega arith) h) (omega arith) in
    let rest =
      (Holds-split mem (curr + length w) (0 ∷ []) (join (w' ∷ ws))
        (Holds-split mem curr w (0 ∷ join (w' ∷ ws)) h).1).1 in
    let e : curr + length w + 1 ≡ curr + n = omega arith in
    let moved = subst (λ (a : ℕ). Holds mem a (join (w' ∷ ws))) e rest in
    let kept =
      Holds-frame mem mem₁ (curr + n) (join (w' ∷ ws))
        (λ j le. write_word-frame mem (ptrs + 4 * i) (va + n) j (inr (omega arith))) moved in
    let (mem', s, p) =
      set_pointers-Pointers fuel (i + 1) ptrs (curr + n) (va + n) w' ws mem₁ nz.1 kept (omega arith)
        (omega arith) (omega arith) (omega arith) in
    let here =
      read_word-cong mem₁ mem' (ptrs + 4 * i) (λ j ge lt. s.frame j (inl (omega arith)))
      ∙ read_word-write_word mem (ptrs + 4 * i) (va + n) (omega arith) in
    let step =
      set_pointers-step fuel (length ws) i ptrs curr va (length w) mem len (omega arith)
        (omega arith) (omega arith) in
    (
      mem',
      record {
        ends = step ∙ s.ends;
        frame = λ j out.
            s.frame j (outside i (length ws) ptrs j out)
            ∙ write_word-frame mem (ptrs + 4 * i) (va + n) j
                (elim out [ inl lt ↦ inl lt | inr ge ↦ inr (omega arith) ]);
      },
      (here, p),
    )

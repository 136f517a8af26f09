-- ===== src/Process/Arguments/Layout.antt =====
-- The stack of a new program as memory: what `memcpy` puts there, and what its pointers point to.
use amog_os.Base.{
  ℕ, ◌+◌, ◌-◌, ◌*◌, ◌<◌, ◌≤◌, ◌≡◌, ◌⊎◌, inl, inr, refl, sym, subst, ap, ◌∙◌, List, [], ◌∷◌, ◌++◌,
  true, false, length, ltb, leb, arith,
}
use amog_os.Base.Bytes.{read_word, read_word-cong}
use amog_os.CString.{Str}
use amog_os.CString.Copy.{memcpy-get}
use amog_os.Process.Arguments.{memcpy_at, default_user_stack_start, default_user_stack_size}
use amog_os.Base.Holds.{Holds, Holds-split, Holds-snoc}
use amog_os.Process.Arguments.Pointers.{join, Pointers}

-- Where the virtual address `va` of the stack is in physical memory: the stack is mapped to
-- `stack_paddr` page by page.
abbrev pub phys : ℕ → ℕ → ℕ
phys stack_paddr va = stack_paddr + (va - (default_user_stack_start - default_user_stack_size))

-- The words from the physical address `a` on point to the strings `ws`.
abbrev pub ArePointers : (ℕ → ℕ) → ℕ → ℕ → List (List ℕ) → Type 0
ArePointers mem stack_paddr a [] = Unit
ArePointers mem stack_paddr a (w ∷ ws) =
    Holds mem (phys stack_paddr (read_word mem a)) (w ++ (0 ∷ []))
    × ArePointers mem stack_paddr (a + 4) ws

pub memcpy_at-Holds :
    (mem : ℕ → ℕ) (a : ℕ) (args : Str) (len i : ℕ) (bs : List ℕ)
    → Holds args i bs
    → i + length bs ≤ len
    → Holds (memcpy_at mem a args len) (a + i) bs
unfolding memcpy_at
memcpy_at-Holds mem a args len i [] h le = tt
memcpy_at-Holds mem a args len i (b ∷ bs) h le =
    let z : leb a (a + i) ≡ true = ground arith in
    let e : a + i - a ≡ i = omega arith in
    let lt : ltb i len ≡ true = ground (arith, le) in
    let next : a + (i + 1) ≡ a + i + 1 = omega arith in
    let got = memcpy-get (λ k. mem (a + k)) args len i in
    (
      rw z (rw e (rw got (rw lt h.0))),
      subst (λ (n : ℕ). Holds (memcpy_at mem a args len) n bs) next
          (memcpy_at-Holds mem a args len (i + 1) bs h.1 (omega arith)),
    )

pub memcpy_at-frame :
    (mem : ℕ → ℕ) (a : ℕ) (args : Str) (len j : ℕ)
    → (j < a) ⊎ (a + len ≤ j)
    → memcpy_at mem a args len j ≡ mem j
unfolding memcpy_at
memcpy_at-frame mem a args len j (inl lt) =
    let z : leb a j ≡ false = ground (arith, lt) in rw z refl
memcpy_at-frame mem a args len j (inr ge) =
    let z : leb a j ≡ true = ground (arith, ge) in
    let lt : ltb (j - a) len ≡ false = ground (arith, ge) in
    let e : a + (j - a) ≡ j = omega arith in
    rw z (memcpy-get (λ k. mem (a + k)) args len (j - a) ∙ rw lt (ap mem e))

pub Pointers-frame :
    (mem mem' : ℕ → ℕ) (ptrs i va : ℕ) (ws : List (List ℕ))
    → ((j : ℕ) → ptrs + 4 * i ≤ j → mem' j ≡ mem j)
    → Pointers mem ptrs i va ws
    → Pointers mem' ptrs i va ws
Pointers-frame mem mem' ptrs i va [] same p = tt
Pointers-frame mem mem' ptrs i va (w ∷ ws) same p = (
  read_word-cong mem mem' (ptrs + 4 * i) (λ j ge lt. same j ge) ∙ p.0,
  Pointers-frame mem mem' ptrs (i + 1) (va + (length w + 1)) ws (λ j ge. same j (omega arith)) p.1,
)

pub Pointers-ArePointers :
    (mem : ℕ → ℕ) (stack_paddr ptrs i va a : ℕ) (ws : List (List ℕ))
    → Pointers mem ptrs i va ws
    → Holds mem a (join ws)
    → default_user_stack_start - default_user_stack_size ≤ va
    → phys stack_paddr va ≡ a
    → ArePointers mem stack_paddr (ptrs + 4 * i) ws
Pointers-ArePointers mem sp ptrs i va a [] p h le e = tt
Pointers-ArePointers mem sp ptrs i va a (w ∷ ws) p h le e =
    let (first, rest) = Holds-split mem a w (0 ∷ join ws) h in
    let whole = Holds-snoc mem a w first rest.0 in
    let here : a ≡ phys sp (read_word mem (ptrs + 4 * i)) = sym e ∙ ap (phys sp) (sym p.0) in
    let next : a + length w + 1 ≡ a + (length w + 1) = omega arith in
    let moved = subst (λ (n : ℕ). Holds mem n (join ws)) next rest.1 in
    let after : phys sp (va + (length w + 1)) ≡ a + (length w + 1) = omega arith in
    let q : ptrs + 4 * (i + 1) ≡ ptrs + 4 * i + 4 = omega arith in
    (
      subst (λ (n : ℕ). Holds mem n (w ++ (0 ∷ []))) here whole,
      subst (λ (n : ℕ). ArePointers mem sp n ws) q
          (Pointers-ArePointers mem sp ptrs (i + 1) (va + (length w + 1)) (a + (length w + 1)) ws
            p.1 moved (omega arith) after),
    )

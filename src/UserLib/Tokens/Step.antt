-- ===== src/UserLib/Tokens/Step.antt =====
-- One call of `strtok`: it cuts the next word out of the line.
use mathlib.Core.List.{append-nil, append_assoc}
use amog_os.Base.{
  ℕ, zero, suc, ◌+◌, ◌<◌, ◌≤◌, ◌≡◌, ◌⊎◌, inl, inr, refl, sym, ap, ◌∙◌, some, List, [], ◌∷◌, ◌++◌,
  Bool, true, false, Bool-cases, ◌==◌, length, arith,
}
use amog_os.Base.Holds.{Holds, NonZero}
use amog_os.Base.Memory.{update, update_self, update_ne}
use amog_os.UserLib.Tokens.{Tokenizer, skip_delimiters, find_end}
use amog_os.UserLib.Tokens.Words.{flush, words_after, words, drop_delims}

-- The text `cs` and its NUL.
abbrev pub HoldsText : (ℕ → ℕ) → ℕ → List ℕ → Type 0
HoldsText mem a cs = Holds mem a (cs ++ (0 ∷ []))

pub HoldsText-frame :
    (mem mem' : ℕ → ℕ) (a : ℕ) (cs : List ℕ)
    → ((j : ℕ) → a ≤ j → j ≤ a + length cs → mem' j ≡ mem j)
    → HoldsText mem a cs
    → HoldsText mem' a cs
HoldsText-frame mem mem' a [] same h = (same a (omega arith) (omega arith) ∙ h.0, tt)
HoldsText-frame mem mem' a (c ∷ cs) same h = (
  same a (omega arith) (omega arith) ∙ h.0,
  HoldsText-frame mem mem' (a + 1) cs (λ j x y. same j (omega arith) (omega arith)) h.1,
)

module _ (is_delim : ℕ → Bool) where
  pub skip_lem :
      (cs : List ℕ) (fuel a : ℕ) (mem : ℕ → ℕ)
      → is_delim 0 ≡ false
      → HoldsText mem a cs
      → length cs < fuel
      → (p : ℕ) × (skip_delimiters fuel is_delim mem a ≡ some p)
        × HoldsText mem p (drop_delims is_delim cs)
        × (p + length (drop_delims is_delim cs) ≡ a + length cs)
        × (a ≤ p)
  unfolding skip_delimiters drop_delims
  skip_lem cs zero a mem z h lt = absurd (omega arith)
  skip_lem [] (suc f) a mem z h lt = (a, rw h.0 (rw z refl), h, refl, omega arith)
  skip_lem (c ∷ cs) (suc f) a mem z h lt = elim (Bool-cases (is_delim c)) [
    | inl t ↦
        let (p, run, held, e, le) = skip_lem cs f (a + 1) mem z h.1 (omega arith) in
        (p, rw h.0 (rw t run), rw t held, rw t (omega (arith, e)), omega (arith, le))
    | inr n ↦ (a, rw h.0 (rw n refl), rw n h, rw n refl, omega arith)
  ]

  -- What `find_end` makes of the text `cs` at `p`: the word `w`, and the text `rest` behind it.
  pub record Ended (fuel : ℕ) (mem : ℕ → ℕ) (p : ℕ) (cs before w rest : List ℕ) (t : Tokenizer)
      : Type 0 where
    pub ends : find_end fuel is_delim (record { mem = mem; sp = p }) ≡ some t
    pub word : words_after is_delim before cs ≡ flush is_delim (before ++ w) (words is_delim rest)
    pub held : HoldsText t.mem p w
    pub left : HoldsText t.mem t.sp rest
    pub frame : (j : ℕ) → (j < p) ⊎ (p + length cs ≤ j) → t.mem j ≡ mem j
    pub start : p + length w ≤ t.sp
    pub apart : (rest ≡ []) ⊎ (p + length w < t.sp)
    pub stop : t.sp + length rest ≤ p + length cs
    pub nonzero : NonZero rest

  pub find_end_lem :
      (cs before : List ℕ) (fuel p : ℕ) (mem : ℕ → ℕ)
      → NonZero cs
      → HoldsText mem p cs
      → length cs < fuel
      → (w : List ℕ) × (rest : List ℕ) × (t : Tokenizer) × Ended fuel mem p cs before w rest t
  unfolding find_end words words_after
  find_end_lem cs before zero p mem nz h lt = absurd (omega arith)
  find_end_lem [] before (suc f) p mem nz h lt =
      let z : (mem p == 0) ≡ true = ground (arith, h.0) in
      (
        [],
        [],
        record { mem = mem; sp = p },
        record {
          ends = rw z refl;
          word = ap (λ (b : List ℕ). flush is_delim b []) (sym (append-nil before));
          held = h;
          left = h;
          frame = λ j out. refl;
          start = omega arith;
          apart = inl refl;
          stop = omega arith;
          nonzero = tt;
        },
      )
  find_end_lem (c ∷ cs) before (suc f) p mem nz h lt =
      let z : (mem p == 0) ≡ false = ground (arith, h.0, nz.0) in
      elim (Bool-cases (is_delim c)) [
        | inl d ↦
            let d' : is_delim (mem p) ≡ true = rw h.0 d in
            (
              [],
              cs,
              record { mem = update mem p 0; sp = p + 1 },
              record {
                ends = rw z (rw d' refl);
                word = rw d (
                    ap (λ (b : List ℕ). flush is_delim b (words_after is_delim [] cs))
                      (sym (append-nil before)));
                held = (update_self mem p 0, tt);
                left =
                    HoldsText-frame mem (update mem p 0) (p + 1) cs
                      (λ j x y. update_ne mem p j 0 (omega arith)) h.1;
                frame = λ j out. update_ne mem p j 0 (elim out [
                  | inl x ↦ λ e. absurd (omega (arith, x, e))
                  | inr x ↦ λ e. absurd (omega (arith, x, e))
                ]);
                start = omega arith;
                apart = inr (omega arith);
                stop = omega arith;
                nonzero = nz.1;
              },
            )
        | inr d ↦
            let d' : is_delim (mem p) ≡ false = rw h.0 d in
            let (w, rest, t, i) =
              find_end_lem cs (before ++ (c ∷ [])) f (p + 1) mem nz.1 h.1 (omega arith) in
            (
              c ∷ w,
              rest,
              t,
              record {
                ends = rw z (rw d' i.ends);
                word = rw d (
                    i.word
                    ∙ ap (λ (b : List ℕ). flush is_delim b (words is_delim rest))
                        (append_assoc before (c ∷ []) w));
                held = (i.frame p (inl (omega arith)) ∙ h.0, i.held);
                left = i.left;
                frame = λ j out.
                    i.frame j (elim out [ inl x ↦ inl (omega arith) | inr x ↦ inr (omega arith) ]);
                start = omega (arith, i.start);
                apart = elim i.apart [ inl e ↦ inl e | inr x ↦ inr (omega arith) ];
                stop = omega (arith, i.stop);
                nonzero = i.nonzero;
              },
            )
      ]

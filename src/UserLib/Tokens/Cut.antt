-- ===== src/UserLib/Tokens/Cut.antt =====
-- One call of `strtok` with a line to go through: it cuts the next word out of it.
use amog_os.Base.{
  ℕ, zero, suc, ◌+◌, ◌<◌, ◌≤◌, ◌≡◌, ◌≢◌, ◌⊎◌, inl, inr, refl, sym, ap, ◌∙◌, subst, some, List, [],
  ◌∷◌, Bool, true, false, Bool-cases, ◌==◌, length, arith,
}
use amog_os.Base.Holds.{NonZero}
use amog_os.UserLib.Tokens.{Tokenizer, skip_delimiters, find_end, next_token}
use amog_os.UserLib.Tokens.Words.{words_after, words, drop_delims, words-drop_delims}
use amog_os.UserLib.Tokens.Step.{HoldsText, Ended, skip_lem, find_end_lem}

module _ (is_delim : ℕ → Bool) where
  drop_delims-cases :
      (cs : List ℕ)
      → NonZero cs
      → (drop_delims is_delim cs ≡ [])
        ⊎ ((c : ℕ) × (rest : List ℕ) × (drop_delims is_delim cs ≡ c ∷ rest)
            × (is_delim c ≡ false)
            × NonZero (c ∷ rest))
  unfolding drop_delims
  drop_delims-cases [] nz = inl refl
  drop_delims-cases (c ∷ cs) nz = elim (Bool-cases (is_delim c)) [
    | inl t ↦ rw t (drop_delims-cases cs nz.1)
    | inr f ↦ inr (c, cs, rw f refl, f, nz)
  ]

  -- The word `w` of the text `cs` at `a` is cut out, at `p`; behind it lies `rest`.
  pub record Cut (fuel : ℕ) (mem : ℕ → ℕ) (a : ℕ) (cs : List ℕ) (p : ℕ) (w rest : List ℕ)
      (t : Tokenizer) : Type 0 where
    pub runs : next_token fuel is_delim (record { mem = mem; sp = a }) ≡ some (p, t)
    pub word : words is_delim cs ≡ w ∷ words is_delim rest
    pub held : HoldsText t.mem p w
    pub left : HoldsText t.mem t.sp rest
    pub frame : (j : ℕ) → (j < a) ⊎ (a + length cs ≤ j) → t.mem j ≡ mem j
    pub after : a ≤ p
    pub start : p + length w ≤ t.sp
    pub apart : (rest ≡ []) ⊎ (p + length w < t.sp)
    pub stop : t.sp + length rest ≤ a + length cs
    pub shorter : length rest < length cs
    pub nonzero : NonZero rest

  -- Either there is no word left, and `sp` is set to NULL, or the next word is cut out.
  unfoldable pub Outcome : ℕ → (ℕ → ℕ) → ℕ → List ℕ → Type 0
  Outcome fuel mem a cs =
      ((words is_delim cs ≡ [])
        × (next_token fuel is_delim (record { mem = mem; sp = a })
            ≡ some (0, record { mem = mem; sp = 0 })))
      ⊎ ((p : ℕ) × (w : List ℕ) × (rest : List ℕ) × (t : Tokenizer) × Cut fuel mem a cs p w rest t)

  word_end :
      (fuel p c : ℕ) (rest : List ℕ) (mem : ℕ → ℕ)
      → is_delim c ≡ false
      → NonZero (c ∷ rest)
      → HoldsText mem p (c ∷ rest)
      → length rest < fuel
      → (w : List ℕ) × (rest' : List ℕ) × (t : Tokenizer) × (find_end
            (suc fuel)
            is_delim
            (record { mem = mem; sp = p })
          ≡ some t)
        × Ended is_delim fuel mem (p + 1) rest (c ∷ []) w rest' t
  unfolding find_end
  word_end fuel p c rest mem d nz h lt =
      let (w, rest', t, i) = find_end_lem is_delim rest (c ∷ []) fuel (p + 1) mem nz.1 h.1 lt in
      let z : (mem p == 0) ≡ false = ground (arith, h.0, nz.0) in
      let d' : is_delim (mem p) ≡ false = rw h.0 d in (w, rest', t, rw z (rw d' i.ends), i)

  no_word :
      (fuel a p : ℕ) (mem : ℕ → ℕ)
      → skip_delimiters fuel is_delim mem a ≡ some p
      → mem p ≡ 0
      → next_token fuel is_delim (record { mem = mem; sp = a })
        ≡ some (0, record { mem = mem; sp = 0 })
  unfolding next_token
  no_word fuel a p mem run zp =
      let z : (mem p == 0) ≡ true = ground (arith, zp) in rw run (rw z refl)

  one_word :
      (fuel a p : ℕ) (mem : ℕ → ℕ) (t : Tokenizer)
      → skip_delimiters fuel is_delim mem a ≡ some p
      → mem p ≢ 0
      → find_end fuel is_delim (record { mem = mem; sp = p }) ≡ some t
      → next_token fuel is_delim (record { mem = mem; sp = a }) ≡ some (p, t)
  unfolding next_token
  one_word fuel a p mem t run nz ended =
      let z : (mem p == 0) ≡ false = ground (arith, nz) in rw run (rw z (rw ended refl))

  cut :
      (fuel a p c : ℕ) (cs rest : List ℕ) (mem : ℕ → ℕ)
      → skip_delimiters (suc fuel) is_delim mem a ≡ some p
      → a ≤ p
      → p + suc (length rest) ≡ a + length cs
      → length rest < fuel
      → words is_delim (c ∷ rest) ≡ words is_delim cs
      → is_delim c ≡ false
      → NonZero (c ∷ rest)
      → HoldsText mem p (c ∷ rest)
      → (w : List ℕ) × (rest' : List ℕ) × (t : Tokenizer) × Cut (suc fuel) mem a cs p w rest' t
  unfolding words words_after
  cut fuel a p c cs rest mem run le e lt same d nz h =
      let (w, rest', t, ended, i) = word_end fuel p c rest mem d nz h lt in
      (
        c ∷ w,
        rest',
        t,
        record {
          runs = one_word (suc fuel) a p mem t run (rw h.0 nz.0) ended;
          word = sym same ∙ rw d i.word;
          held = (i.frame p (inl (omega arith)) ∙ h.0, i.held);
          left = i.left;
          frame = λ j out.
              i.frame j (elim out [
                | inl x ↦ inl (omega (arith, le, x))
                | inr x ↦ inr (omega (arith, e, x))
              ]);
          after = le;
          start = omega (arith, i.start);
          apart = elim i.apart [ inl x ↦ inl x | inr x ↦ inr (omega (arith, x)) ];
          stop = omega (arith, i.stop, e);
          shorter = omega (arith, i.stop, i.start, e, le);
          nonzero = i.nonzero;
        },
      )

  pub next_token-Outcome :
      (cs : List ℕ) (fuel a : ℕ) (mem : ℕ → ℕ)
      → is_delim 0 ≡ false
      → NonZero cs
      → HoldsText mem a cs
      → length cs < fuel
      → Outcome fuel mem a cs
  unfolding Outcome words words_after
  next_token-Outcome cs zero a mem z nz h lt = absurd (omega arith)
  next_token-Outcome cs (suc fuel) a mem z nz h lt =
      let (p, run, held, e, le) = skip_lem is_delim cs (suc fuel) a mem z h lt in
      elim (drop_delims-cases cs nz) [
        | inl gone ↦
            let held' : HoldsText mem p [] = subst (HoldsText mem p) gone held in
            inl (
              sym (words-drop_delims is_delim cs) ∙ ap (words is_delim) gone,
              no_word (suc fuel) a p mem run held'.0,
            )
        | inr (c, rest, found, d, nz') ↦
            let n : suc (length rest) ≡ length (drop_delims is_delim cs) = sym (ap length found) in
            let (w, rest', t, i) =
              cut fuel a p c cs rest mem run le (omega (arith, n, e)) (omega (arith, n, e, le, lt))
                (ap (words is_delim) (sym found) ∙ words-drop_delims is_delim cs) d nz'
                (subst (HoldsText mem p) found held) in
            inr (p, w, rest', t, i)
      ]

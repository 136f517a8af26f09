-- ===== src/UserLib/Tokens/Line.antt =====
-- The loop of the shell over the tokens of a line: it comes to the words of the line, in order.
use amog_os.Base.{
  ℕ, zero, suc, ◌+◌, ◌<◌, ◌≤◌, ◌≡◌, ◌≢◌, ◌⊎◌, inl, inr, refl, sym, ap, ◌∙◌, subst, some, List, [],
  ◌∷◌, Bool, true, false, ◌==◌, length, arith, ℕ_discrete,
}
use amog_os.Base.Holds.{NonZero}
use amog_os.CString.{Str, strlen}
use amog_os.CString.Length.{HasLength, strlen_lem}
use amog_os.UserLib.Tokens.{Tokenizer, is_delimiter, next_token, strtok, rest_tokens, tokens}
use amog_os.UserLib.Tokens.Words.{words}
use amog_os.UserLib.Tokens.Step.{HoldsText, HoldsText-frame}
use amog_os.UserLib.Tokens.Cut.{Cut, Outcome, next_token-Outcome}

-- The pointers point to the texts, one after the other.
abbrev pub PointTo : (ℕ → ℕ) → List ℕ → List (List ℕ) → Type 0
PointTo mem [] [] = Unit
PointTo mem (p ∷ ps) (w ∷ ws) = HoldsText mem p w × PointTo mem ps ws
PointTo mem _ _ = ⊥

-- A place in a word, or its NUL, is no place of the text behind it.
out_of :
    (rest w : List ℕ) (p s j : ℕ)
    → (rest ≡ []) ⊎ (p + length w < s)
    → p + length w ≤ s
    → j ≤ p + length w
    → (j < s) ⊎ (s + length rest ≤ j)
out_of rest w p s j (inl e) le x =
    let n : length rest ≡ 0 = ap length e in
    elim (ℕ_discrete j s) [
      | yes same ↦ inr (omega (arith, n, same))
      | no d ↦ inl (omega (arith, d, le, x))
    ]
out_of rest w p s j (inr lt) le x = inl (omega (arith, lt, x))

module _ (fuel len : ℕ) (delimiters : Str) (counted : strlen fuel delimiters ≡ some len) where
  is_delim : ℕ → Bool
  is_delim = is_delimiter delimiters len 0

  strtok-next : (t : Tokenizer) → t.sp ≢ 0 → strtok fuel 0 delimiters t ≡ next_token fuel is_delim t
  unfolding strtok is_delim
  strtok-next t nz = let z : (t.sp == 0) ≡ false = ground (arith, nz) in rw counted (rw z refl)

  strtok-first :
      (a : ℕ) (t : Tokenizer)
      → a ≢ 0
      → t.sp ≡ 0
      → strtok fuel a delimiters t ≡ next_token fuel is_delim (record { mem = t.mem; sp = a })
  unfolding strtok is_delim
  strtok-first a t nz e =
      let z : (a == 0) ≡ false = ground (arith, nz) in
      let y : (t.sp == 0) ≡ true = ground (arith, e) in rw counted (rw z (rw y refl))

  rest_tokens-none :
      (rounds : ℕ) (t : Tokenizer) → rest_tokens rounds fuel delimiters 0 t ≡ some ([], t)
  unfolding rest_tokens
  rest_tokens-none zero t = refl
  rest_tokens-none (suc rounds) t = refl

  rest_tokens-next :
      (rounds p q : ℕ) (ps : List ℕ) (t u t' : Tokenizer)
      → p ≢ 0
      → t.sp ≢ 0
      → next_token fuel is_delim t ≡ some (q, u)
      → rest_tokens rounds fuel delimiters q u ≡ some (ps, t')
      → rest_tokens (suc rounds) fuel delimiters p t ≡ some (p ∷ ps, t')
  unfolding rest_tokens
  rest_tokens-next rounds p q ps t u t' nz sp run rest =
      let z : (p == 0) ≡ false = ground (arith, nz) in
      rw z (rw (strtok-next t sp) (rw run (rw rest refl)))

  -- What comes of the text `cs` at `a`, with the loop behind the first call.
  record Done (rounds : ℕ) (mem : ℕ → ℕ) (a : ℕ) (cs : List ℕ) (q : ℕ) (u : Tokenizer) (ps : List ℕ)
      (t' : Tokenizer) : Type 0 where
    first : next_token fuel is_delim (record { mem = mem; sp = a }) ≡ some (q, u)
    loop : rest_tokens rounds fuel delimiters q u ≡ some (ps, t')
    texts : PointTo t'.mem ps (words is_delim cs)
    stops : t'.sp ≡ 0
    frame : (j : ℕ) → (j < a) ⊎ (a + length cs ≤ j) → t'.mem j ≡ mem j

  none_left :
      (rounds : ℕ) (cs : List ℕ) (a : ℕ) (mem : ℕ → ℕ)
      → words is_delim cs ≡ []
      → next_token fuel is_delim (record { mem = mem; sp = a })
        ≡ some (0, record { mem = mem; sp = 0 })
      → (q : ℕ) × (u : Tokenizer) × (ps : List ℕ) × (t' : Tokenizer) × Done rounds mem a cs q u ps
          t'
  none_left rounds cs a mem gone run = (
    0,
    record { mem = mem; sp = 0 },
    [],
    record { mem = mem; sp = 0 },
    record {
      first = run;
      loop = rest_tokens-none rounds (record { mem = mem; sp = 0 });
      texts = subst (PointTo mem []) (sym gone) tt;
      stops = refl;
      frame = λ j out. refl;
    },
  )

  one_more :
      (rounds : ℕ) (cs : List ℕ) (a : ℕ) (mem : ℕ → ℕ) (p : ℕ) (w rest : List ℕ) (t : Tokenizer)
      → a ≢ 0
      → Cut is_delim fuel mem a cs p w rest t
      → (q : ℕ) (u : Tokenizer) (ps : List ℕ) (t' : Tokenizer)
      → Done rounds t.mem t.sp rest q u ps t'
      → Done (suc rounds) mem a cs p t (p ∷ ps) t'
  one_more rounds cs a mem p w rest t nz i q u ps t' d = record {
    first = i.runs;
    loop =
        rest_tokens-next rounds p q ps t u t' (λ e. nz (omega (arith, i.after, e)))
          (λ e. nz (omega (arith, i.after, i.start, e))) d.first d.loop;
    texts = subst (PointTo t'.mem (p ∷ ps)) (sym i.word) (
      HoldsText-frame t.mem t'.mem p w
          (λ j x y. d.frame j (out_of rest w p t.sp j i.apart i.start y)) i.held,
      d.texts,
    );
    stops = d.stops;
    frame = λ j out.
        d.frame j (elim out [
          | inl x ↦ inl (omega (arith, x, i.start, i.after))
          | inr x ↦ inr (omega (arith, x, i.stop))
        ])
        ∙ i.frame j out;
  }

  loop-Done :
      (rounds : ℕ) (cs : List ℕ) (a : ℕ) (mem : ℕ → ℕ)
      → is_delim 0 ≡ false
      → a ≢ 0
      → NonZero cs
      → HoldsText mem a cs
      → length cs < fuel
      → length cs ≤ rounds
      → (q : ℕ) × (u : Tokenizer) × (ps : List ℕ) × (t' : Tokenizer) × Done rounds mem a cs q u ps
          t'
  unfolding Outcome
  loop-Done zero cs a mem z nz text h lt le =
      elim (next_token-Outcome is_delim cs fuel a mem z text h lt) [
        | inl (gone, run) ↦ none_left zero cs a mem gone run
        | inr (p, w, rest, t, i) ↦ absurd (omega (arith, le, i.shorter))
      ]
  loop-Done (suc rounds) cs a mem z nz text h lt le =
      elim (next_token-Outcome is_delim cs fuel a mem z text h lt) [
        | inl (gone, run) ↦ none_left (suc rounds) cs a mem gone run
        | inr (p, w, rest, t, i) ↦
            let (q, u, ps, t', d) =
              loop-Done rounds rest t.sp t.mem z (λ e. nz (omega (arith, i.after, i.start, e)))
                i.nonzero i.left (omega (arith, i.shorter, lt)) (omega (arith, i.shorter, le)) in
            (p, t, p ∷ ps, t', one_more rounds cs a mem p w rest t nz i q u ps t' d)
      ]

not_zero :
    (delimiters : Str) (len left i : ℕ)
    → HasLength delimiters len
    → i + left ≤ len
    → is_delimiter delimiters left i 0 ≡ false
unfolding is_delimiter
not_zero delimiters len zero i h le = refl
not_zero delimiters len (suc left) i h le =
    let e : (0 == delimiters i) ≡ false = ground (arith, h.within i (omega arith)) in
    rw e (not_zero delimiters len left (i + 1) h (omega arith))

-- For a line of the bytes `cs`, none of them 0, and its NUL, delimiters of length `len`,
-- `sp` at NULL, and enough fuel and rounds: the loop comes to as many tokens as the line
-- has words, in their order, and behind it each token is a text that is the word; `sp` is
-- NULL again, and no byte outside of the line has changed.
pub tokens_lem :
    (cs : List ℕ) (a fuel rounds len : ℕ) (delimiters : Str) (t : Tokenizer)
    → HasLength delimiters len
    → NonZero cs
    → HoldsText t.mem a cs
    → a ≢ 0
    → t.sp ≡ 0
    → len < fuel
    → length cs < fuel
    → length cs ≤ rounds
    → (ps : List ℕ) × (t' : Tokenizer) × (tokens rounds fuel a delimiters t ≡ some (ps, t'))
      × PointTo t'.mem ps (words (is_delimiter delimiters len 0) cs)
      × (t'.sp ≡ 0)
      × ((j : ℕ) → (j < a) ⊎ (a + length cs ≤ j) → t'.mem j ≡ t.mem j)
unfolding tokens is_delim
tokens_lem cs a fuel rounds len delimiters t h text held nz e lt more le =
    let counted : strlen fuel delimiters ≡ some len = strlen_lem delimiters fuel len h lt in
    let z = not_zero delimiters len len 0 h (omega arith) in
    let (q, u, ps, t', d) =
      loop-Done fuel len delimiters counted rounds cs a t.mem z nz text held more le in
    let first = strtok-first fuel len delimiters counted a t nz e in
    (ps, t', rw first (rw d.first d.loop), d.texts, d.stops, d.frame)

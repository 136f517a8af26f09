-- ===== src/FilePath/Spec.antt =====
-- What a path stands for, apart from the parser: lists of characters, split and joined.
use mathlib.Core.List.{append-nil}
use amog_os.Base.{
  ap, ◌∙◌, ==_refl, ℕ, zero, suc, ◌+◌, ◌<◌, ◌≡◌, ◌≢◌, refl, arith, get_or, length, List, [], ◌∷◌,
  ◌++◌, ◌==◌, if◌then◌else◌,
}

unfoldable pub push_head : ℕ → List (List ℕ) → List (List ℕ)
push_head c [] = (c ∷ []) ∷ []
push_head c (w ∷ ws) = (c ∷ w) ∷ ws

-- The parts of a text between the separators.
unfoldable pub split : ℕ → List ℕ → List (List ℕ)
unfolding push_head
split sep [] = [] ∷ []
split sep (c ∷ cs) = if c == sep then [] ∷ split sep cs else push_head c (split sep cs)

-- The parts with a separator between them.
unfoldable pub join : ℕ → List (List ℕ) → List ℕ
join sep [] = []
join sep (w ∷ []) = w
join sep (w ∷ (v ∷ ws)) = w ++ (sep ∷ join sep (v ∷ ws))

-- The `n` bytes of a buffer from `i` on.
unfoldable pub slice : (ℕ → ℕ) → ℕ → ℕ → List ℕ
slice s i zero = []
slice s i (suc n) = s i ∷ slice s (i + 1) n

-- The C string that begins at `i`, of which at most `n` bytes are read.
unfoldable pub read_name : (ℕ → ℕ) → ℕ → ℕ → List ℕ
read_name s zero i = []
read_name s (suc n) i = if s i == 0 then [] else s i ∷ read_name s n (i + 1)

-- A text as a C string.
unfoldable pub c_string : List ℕ → ℕ → ℕ
c_string cs i = get_or cs i 0

-- No character of the list is a separator or NUL.
abbrev pub IsPlain : ℕ → List ℕ → Type 0
IsPlain sep [] = Unit
IsPlain sep (c ∷ cs) = (c ≢ sep) × (c ≢ 0) × IsPlain sep cs

abbrev pub AllPlain : ℕ → List (List ℕ) → Type 0
AllPlain sep [] = Unit
AllPlain sep (w ∷ ws) = IsPlain sep w × AllPlain sep ws

split-plain-append :
    (sep : ℕ) (w rest : List ℕ) (v : List ℕ) (vs : List (List ℕ))
    → IsPlain sep w
    → split sep rest ≡ v ∷ vs
    → split sep (w ++ rest) ≡ (w ++ v) ∷ vs
unfolding split
split-plain-append sep [] rest v vs p e = e
split-plain-append sep (c ∷ w) rest v vs p e =
    let ih = split-plain-append sep w rest v vs p.2 e in ground (arith, ih, p.0)

-- Splitting what was joined gives the parts back, if there is one and none holds the separator.
pub split-join :
    (sep : ℕ) (w : List ℕ) (ws : List (List ℕ))
    → AllPlain sep (w ∷ ws)
    → split sep (join sep (w ∷ ws)) ≡ w ∷ ws
unfolding split join
split-join sep w [] p = let e = split-plain-append sep w [] [] [] p.0 refl in rw append-nil at e
split-join sep w (v ∷ ws) p =
    let e =
      split-plain-append sep w (sep ∷ join sep (v ∷ ws)) [] (v ∷ ws) p.0
        (rw (==_refl sep) (ap (λ l. [] ∷ l) (split-join sep v ws p.1))) in
    e ∙ ap (λ l. l ∷ v ∷ ws) (append-nil w)

module _ (sep : ℕ) where
  -- No character is NUL.
  abbrev pub NonNul : List ℕ → Type 0
  NonNul [] = Unit
  NonNul (c ∷ cs) = (c ≢ 0) × NonNul cs

  NonNul-append : (w v : List ℕ) → NonNul w → NonNul v → NonNul (w ++ v)
  NonNul-append [] v p q = q
  NonNul-append (c ∷ w) v p q = (p.0, NonNul-append w v p.1 q)

  IsPlain-NonNul : (w : List ℕ) → IsPlain sep w → NonNul w
  IsPlain-NonNul [] p = tt
  IsPlain-NonNul (c ∷ w) p = (p.1, IsPlain-NonNul w p.2)

  pub join-NonNul : (ws : List (List ℕ)) → sep ≢ 0 → AllPlain sep ws → NonNul (join sep ws)
  unfolding join
  join-NonNul [] z p = tt
  join-NonNul (w ∷ []) z p = IsPlain-NonNul w p.0
  join-NonNul (w ∷ (v ∷ ws)) z p =
      NonNul-append w _ (IsPlain-NonNul w p.0) (z, join-NonNul (v ∷ ws) z p.1)

  pub get-NonNul : (cs : List ℕ) (k : ℕ) → NonNul cs → k < length cs → get_or cs k 0 ≢ 0
  get-NonNul [] k p lt = elim lt [ ]
  get-NonNul (c ∷ cs) zero p lt = p.0
  get-NonNul (c ∷ cs) (suc k) p lt = get-NonNul cs k p.1 (omega arith)

pub get_or_end : (cs : List ℕ) → get_or cs (length cs) 0 ≡ 0
get_or_end [] = refl
get_or_end (c ∷ cs) = get_or_end cs

pub slice-get :
    (s : ℕ → ℕ) (i : ℕ) (cs : List ℕ)
    → ((k a : ℕ) → a ≡ i + k → k < length cs → s a ≡ get_or cs k 0)
    → slice s i (length cs) ≡ cs
unfolding slice
slice-get s i [] e = refl
slice-get s i (c ∷ cs) e =
    let h = e 0 i (omega arith) (omega arith) in
    let t = slice-get s (i + 1) cs (λ k a q lt. e (suc k) a (omega arith) (omega arith)) in
    cc (h, t)

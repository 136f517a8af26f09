-- ===== src/UserLib/Tokens/Words.antt =====
-- The words of a text, apart from the program: its longest pieces without a delimiter.
use amog_os.Base.{ℕ, ◌≡◌, refl, List, [], ◌∷◌, ◌++◌, Bool, Bool-cases, inl, inr, if◌then◌else◌}

module _ (is_delim : ℕ → Bool) where
  -- A word that is not empty, and the words behind it.
  abbrev pub flush : List ℕ → List (List ℕ) → List (List ℕ)
  flush [] ws = ws
  flush (c ∷ w) ws = (c ∷ w) ∷ ws

  -- The words of `w` followed by the text.
  unfoldable pub words_after : List ℕ → List ℕ → List (List ℕ)
  words_after w [] = flush w []
  words_after w (c ∷ cs) =
      let new = words_after [] cs in
      let longer = words_after (w ++ (c ∷ [])) cs in if is_delim c then flush w new else longer

  unfoldable pub words : List ℕ → List (List ℕ)
  words cs = words_after [] cs

  -- The text without the delimiters in front.
  unfoldable pub drop_delims : List ℕ → List ℕ
  drop_delims [] = []
  drop_delims (c ∷ cs) = let rest = drop_delims cs in if is_delim c then rest else c ∷ cs

  pub words-drop_delims : (cs : List ℕ) → words (drop_delims cs) ≡ words cs
  unfolding words words_after drop_delims
  words-drop_delims [] = refl
  words-drop_delims (c ∷ cs) = elim (Bool-cases (is_delim c)) [
    | inl t ↦ rw t (words-drop_delims cs)
    | inr f ↦ rw f (rw f refl)
  ]

-- ===== src/UserLib/Tokens/Tests.antt =====
-- A line of two words.
use amog_os.Base.{
  ℕ, zero, suc, ◌+◌, ◌<◌, ◌≤◌, ◌≡◌, ◌≢◌, ◌⊎◌, refl, some, List, [], ◌∷◌, length, arith, ◌-◌, get_or,
}
use amog_os.CString.{Str}
use amog_os.CString.Length.{HasLength}
use amog_os.UserLib.Tokens.{Tokenizer, is_delimiter, tokens}
use amog_os.UserLib.Tokens.Words.{words, words_after}
use amog_os.Base.Holds.{NonZero}
use amog_os.UserLib.Tokens.Step.{HoldsText}
use amog_os.UserLib.Tokens.Line.{PointTo, tokens_lem}

abbrev line : List ℕ
line = b' ' ∷ b'a' ∷ b'b' ∷ b' ' ∷ b' ' ∷ b'c' ∷ []

abbrev space : Str
space zero = b' '
space (suc i) = 0

space-HasLength : HasLength space 1
space-HasLength = record { ends = refl; within = λ k lt. inside k lt }
  where
    inside : (k : ℕ) → k < 1 → space k ≢ 0
    inside zero lt e = omega arith
    inside (suc k) lt e = omega arith

abbrev typed : Tokenizer
typed = record { mem = λ a. get_or line (a - 100) 0; sp = 0 }

plain : NonZero line
plain = (
  λ e. omega arith,
  (
    λ e. omega arith,
    (λ e. omega arith, (λ e. omega arith, (λ e. omega arith, (λ e. omega arith, tt)))),
  ),
)

laid : HoldsText typed.mem 100 line
laid = (refl, (refl, (refl, (refl, (refl, (refl, (refl, tt)))))))

two_words : words (is_delimiter space 1 0) line ≡ (b'a' ∷ b'b' ∷ []) ∷ (b'c' ∷ []) ∷ []
unfolding words words_after is_delimiter
two_words = refl

tokens_lem_example :
    (ps : List ℕ) × (t' : Tokenizer) × (tokens 6 7 100 space typed ≡ some (ps, t'))
    × PointTo t'.mem ps (words (is_delimiter space 1 0) line)
    × (t'.sp ≡ 0)
    × ((j : ℕ) → (j < 100) ⊎ (100 + length line ≤ j) → t'.mem j ≡ typed.mem j)
tokens_lem_example =
    tokens_lem line 100 7 6 1 space typed space-HasLength plain laid (λ e. omega arith) refl
      (omega arith) (omega arith) (omega arith)

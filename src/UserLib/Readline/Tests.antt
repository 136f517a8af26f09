-- ===== src/UserLib/Readline/Tests.antt =====
-- The keys a, b, BACKSPACE, c and ENTER, and a call without a key between them.
use amog_os.Base.{ℕ, ◌<◌, ◌≡◌, some, List, [], ◌∷◌, arith, length}
use amog_os.Base.Holds.{Holds}
use amog_os.UserLib.Readline.{Line, readline_terminal}
use amog_os.UserLib.Readline.Edit.{NoEnter, readline_terminal_lem}

abbrev keys : List ℕ
keys = b'a' ∷ 0 ∷ b'b' ∷ 0x08 ∷ b'c' ∷ []

keys-NoEnter : NoEnter keys
keys-NoEnter = (
  λ e. omega arith,
  (λ e. omega arith, (λ e. omega arith, (λ e. omega arith, (λ e. omega arith, tt)))),
)

readline_terminal_lem_example :
    (l : Line) × (readline_terminal (λ i. 7) 100 (b'a' ∷ 0 ∷ b'b' ∷ 0x08 ∷ b'c' ∷ 0x0d ∷ b'x' ∷ [])
      ≡ some (l, b'x' ∷ []))
    × Holds l.buf 0 (b'a' ∷ b'c' ∷ 0 ∷ [])
    × ((j : ℕ) → length keys < j → l.buf j ≡ 7)
readline_terminal_lem_example =
    readline_terminal_lem (λ i. 7) 100 keys (b'x' ∷ []) keys-NoEnter (omega arith)

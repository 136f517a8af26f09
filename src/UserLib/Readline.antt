-- ===== src/UserLib/Readline.antt =====
-- `readline_terminal` and `get_key_blocking` of programs/stdlib/src/stdlib.c. What `get_key` gives,
-- one call after the other, is a list of characters, with 0 where no key is there.
pub mod Edit
mod Tests
use amog_os.Base.{
  ℕ, zero, suc, ◌+◌, ◌-◌, Option, none, some, List, [], ◌∷◌, ◌++◌, Bool, true, false, not, ltb,
  ◌==◌, if◌then◌else◌,
}
use amog_os.Base.Memory.{update}

-- The buffer, `idx`, and the characters put on the terminal so far.
pub record Line : Type 0 where
  pub buf : ℕ → ℕ
  pub idx : ℕ
  pub put : List ℕ

-- The part of the loop for a key that is not ENTER.
pub take_key : ℕ → Line → Line
take_key key l =
    if key == 0x08
    then if l.idx == 0
      then l
      else record { buf = update l.buf (l.idx - 1) 0; idx = l.idx - 1; put = l.put ++ (key ∷ []) }
    else record { buf = update l.buf l.idx key; idx = l.idx + 1; put = l.put ++ (key ∷ []) }

-- The loop, with the line that it leaves and the calls of `get_key` behind it; none where it waits
-- for more keys than there are.
pub readline_from : ℕ → List ℕ → Line → Option (Line × List ℕ)
readline_from max_len [] l = if ltb l.idx max_len then none else some (l, [])
readline_from max_len (key ∷ keys) l =
    let wait = readline_from max_len keys l in
    let rest = readline_from max_len keys (take_key key l) in
    if not (ltb l.idx max_len)
    then some (l, key ∷ keys)
    else if key == 0
    then wait
    else if key == 0x0d
    then some (record l { buf = update l.buf l.idx 0; put = l.put ++ (b'\n' ∷ []) }, keys)
    else rest

pub readline_terminal : (ℕ → ℕ) → ℕ → List ℕ → Option (Line × List ℕ)
readline_terminal buf max_len keys =
    readline_from max_len keys (record { buf = buf; idx = 0; put = [] })

-- ===== src/UserLib/Tokens.antt =====
-- `strtok` of programs/stdlib/src/stdlib.c, and the loop over the tokens of a line in
-- programs/shell/shell.c. Memory is by bytes; a line does not run over the end of memory.
pub mod Words
pub mod Step
pub mod Cut
pub mod Line
mod Tests
use amog_os.Base.{
  ℕ, zero, suc, ◌+◌, Option, none, some, List, [], ◌∷◌, Bool, true, false, ◌==◌, ◌&&◌, not,
  if◌then◌else◌,
}
use amog_os.Base.Options.{◌>>=◌}
use amog_os.Base.Memory.{update}
use amog_os.CString.{Str, strlen}

-- Memory, and the global `sp`, which is 0 for NULL.
pub record Tokenizer : Type 0 where
  pub mem : ℕ → ℕ
  pub sp : ℕ

-- The loop over `i` from `i` to `len`: whether it meets the character `c`.
pub is_delimiter : Str → ℕ → ℕ → ℕ → Bool
is_delimiter delimiters zero i c = false
is_delimiter delimiters (suc left) i c =
    let rest = is_delimiter delimiters left (i + 1) c in if c == delimiters i then true else rest

-- `while (1)`: the first character from `p_start` on that is no delimiter.
pub skip_delimiters : ℕ → (ℕ → Bool) → (ℕ → ℕ) → ℕ → Option ℕ
skip_delimiters zero is_delim mem p_start = none
skip_delimiters (suc fuel) is_delim mem p_start =
    let rest = skip_delimiters fuel is_delim mem (p_start + 1) in
    if is_delim (mem p_start) then rest else some p_start

-- The loop for the end of the token.
pub find_end : ℕ → (ℕ → Bool) → Tokenizer → Option Tokenizer
find_end zero is_delim t = none
find_end (suc fuel) is_delim t =
    let rest = find_end fuel is_delim (record t { sp = t.sp + 1 }) in
    if t.mem t.sp == 0
    then some t
    else if is_delim (t.mem t.sp)
    then some (record { mem = update t.mem t.sp 0; sp = t.sp + 1 })
    else rest

-- From the first loop on, for a test of the delimiters.
pub next_token : ℕ → (ℕ → Bool) → Tokenizer → Option (ℕ × Tokenizer)
next_token fuel is_delim t = do
  p_start ← skip_delimiters fuel is_delim t.mem t.sp
  (if t.mem p_start == 0
      then some (0, record t { sp = 0 })
      else (do t' ← find_end fuel is_delim (record t { sp = p_start }); some (p_start, t')))

pub strtok : ℕ → ℕ → Str → Tokenizer → Option (ℕ × Tokenizer)
strtok fuel str delimiters t = do
  len ← strlen fuel delimiters
  (if str == 0 && t.sp == 0
      then some (0, t)
      else next_token fuel (is_delimiter delimiters len 0)
          (if not (str == 0) && t.sp == 0 then record t { sp = str } else t))

-- The loop of the shell with the token `token`: the tokens that it comes to, in `rounds` at most.
pub rest_tokens : ℕ → ℕ → Str → ℕ → Tokenizer → Option (List ℕ × Tokenizer)
rest_tokens zero fuel delimiters token t = if token == 0 then some ([], t) else none
rest_tokens (suc rounds) fuel delimiters token t =
    let next = (do
      (token', t') ← strtok fuel 0 delimiters t
      (tokens, t'') ← rest_tokens rounds fuel delimiters token' t'
      some (token ∷ tokens, t'')) in
    if token == 0 then some ([], t) else next

-- All the tokens of the line at `str`.
pub tokens : ℕ → ℕ → ℕ → Str → Tokenizer → Option (List ℕ × Tokenizer)
tokens rounds fuel str delimiters t = do
  (token, t') ← strtok fuel str delimiters t
  rest_tokens rounds fuel delimiters token t'

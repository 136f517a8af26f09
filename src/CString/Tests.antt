-- ===== src/CString/Tests.antt =====
-- The string functions on short strings, and their theorems there.
use amog_os.Base.{ℕ, ◌<◌, ◌≡◌, ◌≢◌, ◌↔◌, refl, [], ◌∷◌, arith, get_or, suc, zero}
use amog_os.Base.Int.{pos}
use amog_os.CString.{Str, strncpy, strncmp, istrncmp, to_lower}
use amog_os.CString.Length.{HasLength}
use amog_os.CString.Compare.{IsBytes, SameText, istrncmp_iff}
use amog_os.CString.Copy.{strncpy_lem}

abbrev abc : Str
abc i = get_or (b'a' ∷ b'b' ∷ b'c' ∷ []) i 0

abbrev upper : Str
upper i = get_or (b'A' ∷ b'b' ∷ b'C' ∷ []) i 0

comparisons : (strncmp abc upper 3 ≡ pos 32) × (istrncmp abc upper 3 ≡ pos 0)
unfolding strncmp istrncmp
comparisons = (refl, refl)

abc-HasLength : HasLength abc 3
abc-HasLength = record { ends = refl; within = inside }
  where
    inside : (k : ℕ) → k < 3 → abc k ≢ 0
    inside zero h e = omega arith
    inside (suc zero) h e = omega arith
    inside (suc (suc zero)) h e = omega arith
    inside (suc (suc (suc k))) h e = omega arith

abc-IsBytes : IsBytes abc
abc-IsBytes zero = omega arith
abc-IsBytes (suc zero) = omega arith
abc-IsBytes (suc (suc zero)) = omega arith
abc-IsBytes (suc (suc (suc k))) = omega arith

upper-IsBytes : IsBytes upper
upper-IsBytes zero = omega arith
upper-IsBytes (suc zero) = omega arith
upper-IsBytes (suc (suc zero)) = omega arith
upper-IsBytes (suc (suc (suc k))) = omega arith

-- Room for two characters and the NUL.
room_for_two : strncpy (λ _. 7) abc 3 2 ≡ 0
room_for_two = strncpy_lem (λ _. 7) abc 3 3 2 abc-HasLength (omega arith)

case_is_ignored : (istrncmp abc upper 3 ≡ pos 0) ↔ SameText to_lower abc upper 0 3
case_is_ignored = istrncmp_iff abc upper 3 abc-IsBytes upper-IsBytes

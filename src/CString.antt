-- ===== src/CString.antt =====
-- The string functions of src/lib/string/string.c and the memory functions of src/memory/memory.c.
-- A string is the function from the index to the byte there. An `int` that a caller gives for a
-- length is not negative.
pub mod Length
pub mod Copy
pub mod Compare
mod Tests
use amog_os.Base.{
  ℕ, zero, suc, ◌+◌, ◌-◌, Bool, true, not, ◌&&◌, ◌||◌, Option, none, some, ltb, leb, ◌==◌,
  if◌then◌else◌,
}
use amog_os.Base.Int.{ℤ, pos, negsuc, signed8, ◌-ℤ◌}
use amog_os.Base.Memory.{update}

abbrev pub Str : Type 0
Str = ℕ → ℕ

-- `while (str[i] != '\0') i++;` on fuel.
pub strlen_from : Str → ℕ → ℕ → Option ℕ
strlen_from str zero i = none
strlen_from str (suc fuel) i =
    let rest = strlen_from str fuel (i + 1) in if str i == 0 then some i else rest

pub strlen : ℕ → Str → Option ℕ
strlen fuel str = strlen_from str fuel 0

-- The rounds are `maxlen - i`.
strnlen_from : Str → ℕ → ℕ → ℕ
strnlen_from str zero i = i
strnlen_from str (suc rounds) i =
    let rest = strnlen_from str rounds (i + 1) in if str i == 0 then i else rest

unfoldable pub strnlen : Str → ℕ → ℕ
unfolding strnlen_from
strnlen str maxlen = strnlen_from str maxlen 0

terminator_from : Str → ℕ → ℕ → ℕ → ℕ
terminator_from str terminator zero i = i
terminator_from str terminator (suc rounds) i =
    let rest = terminator_from str terminator rounds (i + 1) in
    if str i == 0 || str i == terminator then i else rest

pub strnlen_terminator : Str → ℕ → ℕ → ℕ
unfolding terminator_from
strnlen_terminator str maxlen terminator = terminator_from str terminator maxlen 0

strcpy_from : ℕ → Str → Str → ℕ → Option Str
strcpy_from zero dst src i = none
strcpy_from (suc fuel) dst src i =
    let rest = strcpy_from fuel (update dst i (src i)) src (i + 1) in
    if src i == 0 then some (update dst i 0) else rest

pub strcpy : ℕ → Str → Str → Option Str
unfolding strcpy_from
strcpy fuel dst src = strcpy_from fuel dst src 0

-- What follows the loop of `strncpy`.
strncpy_end : ℕ → Str → ℕ → Str
strncpy_end maxlen dst i =
    if i == maxlen && ltb 0 i
    then update dst (i - 1) 0
    else if ltb i maxlen
    then update dst i 0
    else if i == 0 && ltb 0 maxlen
    then update dst i 0
    else dst

strncpy_from : ℕ → Str → ℕ → Str → ℕ → Str
strncpy_from maxlen src zero dst i = strncpy_end maxlen dst i
strncpy_from maxlen src (suc rounds) dst i =
    let rest = strncpy_from maxlen src rounds (update dst i (src i)) (i + 1) in
    if src i == 0 then strncpy_end maxlen dst i else rest

pub strncpy : Str → Str → ℕ → Str
unfolding strncpy_from strncpy_end
strncpy dst src maxlen = strncpy_from maxlen src maxlen dst 0

-- `str1[i] - str2[i]`
abbrev pub char_diff : ℕ → ℕ → ℤ
char_diff a b = signed8 a -ℤ signed8 b

-- What follows the loop of `strncmp` and `istrncmp`.
compare_end : ℕ → Str → Str → ℕ → ℤ
compare_end maxlen str1 str2 i =
    if i == maxlen
    then pos 0
    else if str1 i == 0 && str2 i == 0
    then pos 0
    else if str1 i == 0
    then negsuc 0
    else pos 1

-- The loop of both: two characters are told apart by `key`.
compare_from : (ℕ → ℕ) → ℕ → Str → Str → ℕ → ℕ → ℤ
compare_from key maxlen str1 str2 zero i = compare_end maxlen str1 str2 i
compare_from key maxlen str1 str2 (suc rounds) i =
    let rest = compare_from key maxlen str1 str2 rounds (i + 1) in
    if str1 i == 0 || str2 i == 0
    then compare_end maxlen str1 str2 i
    else if key (str1 i) == key (str2 i)
    then rest
    else char_diff (str1 i) (str2 i)

unfoldable pub to_lower : ℕ → ℕ
to_lower c = if leb b'A' c && leb c b'Z' then c + 32 else c

unfoldable pub strncmp : Str → Str → ℕ → ℤ
unfolding compare_from compare_end
strncmp str1 str2 maxlen = compare_from (λ c. c) maxlen str1 str2 maxlen 0

unfoldable pub istrncmp : Str → Str → ℕ → ℤ
unfolding compare_from compare_end to_lower
istrncmp str1 str2 maxlen = compare_from to_lower maxlen str1 str2 maxlen 0

unfoldable pub is_digit : ℕ → Bool
is_digit c = leb b'0' c && leb c b'9'

memcmp_from : Str → Str → ℕ → ℕ → ℤ
memcmp_from p1 p2 zero i = pos 0
memcmp_from p1 p2 (suc rounds) i =
    let rest = memcmp_from p1 p2 rounds (i + 1) in
    if p1 i == p2 i then rest else pos (p1 i) -ℤ pos (p2 i)

unfoldable pub memcmp : Str → Str → ℕ → ℤ
unfolding memcmp_from
memcmp p1 p2 num = memcmp_from p1 p2 num 0

memcpy_from : Str → Str → ℕ → ℕ → Str
memcpy_from dst src zero i = dst
memcpy_from dst src (suc rounds) i = memcpy_from (update dst i (src i)) src rounds (i + 1)

unfoldable pub memcpy : Str → Str → ℕ → Str
unfolding memcpy_from
memcpy dst src num = memcpy_from dst src num 0

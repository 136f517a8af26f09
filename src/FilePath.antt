-- ===== src/FilePath.antt =====
-- The path parser of src/fs/utils.c. The allocations of `parse_path` are taken to succeed (it does
-- not test them), so a name is the index in the copy of the path at which it begins.
pub mod Spec
pub mod Parse
mod Tests
unfoldable pub use Spec.*
use amog_os.Base.{
  ℕ, zero, suc, ◌+◌, ◌-◌, Bool, true, false, ◌&&◌, not, Option, none, some, List, [], ◌∷◌, leb,
  ◌==◌, if◌then◌else◌,
}
use amog_os.Base.Memory.{update}
use amog_os.CString.{Str, strnlen, is_digit, memcpy}

abbrev pub fs_max_path_len : ℕ
fs_max_path_len = 108

abbrev pub slash : ℕ
slash = b'/'

-- `struct path_t`; the list of `struct path_part` with the root first, and the bytes of the copy.
pub record FilePath : Type 0 where
  pub drive_no : ℕ
  pub parts : List ℕ
  pub text : Str

pub is_path_valid : Str → Bool
is_path_valid path =
    let len = strnlen path fs_max_path_len in
    leb 3 len && is_digit (path 0) && path 1 == b':' && path 2 == slash

-- The loop over `i`, with `rounds` characters left: the parts it appends, and the bytes.
split_parts : ℕ → ℕ → Str → List ℕ × Str
split_parts zero i text = ([], text)
split_parts (suc rounds) i text = elim (text i == slash) [
  | true ↦
      let (parts, text') = split_parts rounds (i + 1) (update text i 0) in ((i + 1) ∷ parts, text')
  | false ↦ split_parts rounds (i + 1) text
]

pub parse_path : Str → Option FilePath
parse_path path_str =
    let len = strnlen path_str fs_max_path_len in
    let copy = update (memcpy (λ _. 0) path_str len) len 0 in
    let (parts, text) = split_parts (len - 3) 3 copy in
    if not (is_path_valid path_str)
    then none
    else some (record { drive_no = path_str 0 - b'0'; parts = 3 ∷ parts; text = text })

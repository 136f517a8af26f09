-- ===== src/FilePath/Tests.antt =====
-- The parser on the paths of the source's own test, and its theorems at one path.
use amog_os.Base.{true, ℕ, ◌+◌, ◌-◌, ◌≡◌, refl, none, some, List, [], ◌∷◌, map, arith}
use amog_os.CString.{strnlen, is_digit}
use amog_os.FilePath.{
  FilePath, fs_max_path_len, slash, is_path_valid, parse_path, split, slice, read_name, c_string,
  join,
}
use amog_os.FilePath.Parse.{parse_path-split, path_text, parse_path-path_text}

abbrev a_bd_c : List (List ℕ)
a_bd_c = (b'a' ∷ []) ∷ (b'b' ∷ b'd' ∷ []) ∷ (b'c' ∷ []) ∷ []

abbrev text : List ℕ
text = b'0' ∷ b':' ∷ b'/' ∷ b'a' ∷ b'/' ∷ b'b' ∷ b'd' ∷ b'/' ∷ b'c' ∷ []

no_drive : parse_path (c_string (b'a' ∷ b'/' ∷ b'b' ∷ [])) ≡ none
unfolding parse_path is_path_valid strnlen is_digit c_string
no_drive = refl

text-valid : is_path_valid (c_string text) ≡ true
unfolding is_path_valid strnlen is_digit c_string
text-valid = refl

parse_path-split_example :
    let path = c_string text in
    let len = strnlen path fs_max_path_len in
    (p : FilePath) × (parse_path path ≡ some p)
    × (p.drive_no + b'0' ≡ path 0)
    × (map (λ o. read_name p.text (len - o) o) p.parts ≡ split slash (slice path 3 (len - 3)))
parse_path-split_example = parse_path-split (c_string text) text-valid

parse_path-path_text_example :
    (p : FilePath) × (parse_path (c_string (path_text 0 a_bd_c)) ≡ some p)
    × (p.drive_no ≡ 0)
    × (map (λ o. read_name p.text (9 - o) o) p.parts ≡ a_bd_c)
unfolding join
parse_path-path_text_example =
    parse_path-path_text 0 (b'a' ∷ []) ((b'b' ∷ b'd' ∷ []) ∷ (b'c' ∷ []) ∷ []) (omega arith)
      (omega arith) (omega arith)

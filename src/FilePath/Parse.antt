-- ===== src/FilePath/Parse.antt =====
-- `parse_path` splits at the separators, and reads what was joined.
use amog_os.Base.{
  ℕ, zero, suc, ◌+◌, ◌-◌, ◌<◌, ◌≤◌, ◌≡◌, ◌≢◌, refl, ap, ◌∙◌, inl, inr, true, false, ◌&&◌, some,
  List, [], ◌∷◌, map, arith, length, ltb, leb, ◌==◌, if◌then◌else◌, ℕ_discrete, Bool-cases,
}
use amog_os.Base.Memory.{update}
use amog_os.CString.{Str, strnlen, is_digit, memcpy}
use amog_os.CString.Length.{HasLength, strnlen_lem, strnlen-Stops}
use amog_os.CString.Copy.{memcpy-get}
use amog_os.FilePath.{
  FilePath, fs_max_path_len, slash, is_path_valid, split_parts, parse_path, split, push_head, join,
  slice, slice-get, read_name, c_string, AllPlain, split-join, join-NonNul, get-NonNul, get_or_end,
}

-- The bytes that the loop leaves: a NUL for each separator.
split_parts-text :
    (r i : ℕ) (text : Str) (k : ℕ)
    → (split_parts r i text).1 k
      ≡ (if leb i k && ltb k (i + r) && text k == slash then 0 else text k)
unfolding split_parts
split_parts-text zero i text k = ground arith
split_parts-text (suc r) i text k = elim (ℕ_discrete i k) [
  | yes q ↦ rw (← q) (
      ground
        (arith, split_parts-text r (i + 1) (update text i 0) i, split_parts-text r (i + 1) text i))
  | no ne ↦
      ground
        (arith, split_parts-text r (i + 1) (update text i 0) k, split_parts-text r (i + 1) text k)
]

-- The names that begin at the indices `os`, in a buffer `b` whose text ends at `len`.
abbrev names : Str → ℕ → List ℕ → List (List ℕ)
names b len os = map (λ o. read_name b (len - o) o) os

-- `b` is the buffer `text` from `i` to `i + r`, but for the separators.
abbrev Cut : Str → Str → ℕ → ℕ → Type 0
Cut b text i r =
    (k : ℕ) → i ≤ k → k < i + r → (text k ≢ 0) × (b k ≡ (if text k == slash then 0 else text k))

slice-update : (text : Str) (j v i r : ℕ) → j < i → slice (update text j v) i r ≡ slice text i r
unfolding slice
slice-update text j v i zero lt = refl
slice-update text j v i (suc r) lt = ground (arith, slice-update text j v (i + 1) r (omega arith))

Cut-next :
    (b text : Str) (i r : ℕ) (v : ℕ) → Cut b text i (suc r) → Cut b (update text i v) (i + 1) r
Cut-next b text i r v cut k ge lt = ground (arith, cut k (omega arith) (omega arith))

Cut-tail : (b text : Str) (i r : ℕ) → Cut b text i (suc r) → Cut b text (i + 1) r
Cut-tail b text i r cut k ge lt = cut k (omega arith) (omega arith)

split_parts-names :
    (r i len : ℕ) (text b : Str)
    → i + r ≡ len
    → Cut b text i r
    → names b len (i ∷ (split_parts r i text).0) ≡ split slash (slice text i r)
unfolding split_parts split slice read_name push_head
split_parts-names zero i len text b e cut = let z : len - i ≡ 0 = omega arith in rw z
split_parts-names (suc r) i len text b e cut =
    let here = cut i (omega arith) (omega arith) in
    let left : len - i ≡ suc r = omega arith in
    let left' : len - (i + 1) ≡ r = omega arith in
    elim (Bool-cases (text i == slash)) [
      | inl y ↦
          let z : b i ≡ 0 = ground arith in
          let ih =
            split_parts-names r (i + 1) len (update text i 0) b (omega arith)
              (Cut-next b text i r 0 cut) in
          rw (y, left, z)
            (ap (λ l. [] ∷ l)
              (ih ∙ ap (split slash) (slice-update text i 0 (i + 1) r (omega arith))))
      | inr n ↦
          let z : b i ≡ text i = ground arith in
          let nz : (text i == 0) ≡ false = ground arith in
          let ih = split_parts-names r (i + 1) len text b (omega arith) (Cut-tail b text i r cut) in
          rw (n, left, z, nz, ← ih, left')
    ]

abbrev copied : Str → ℕ → Str
copied path len = update (memcpy (λ _. 0) path len) len 0

copied-get : (path : Str) (len k : ℕ) → k < len → copied path len k ≡ path k
copied-get path len k lt = ground (arith, memcpy-get (λ _. 0) path len k)

slice_cong :
    (s t : Str) (i n : ℕ) → ((k : ℕ) → i ≤ k → k < i + n → s k ≡ t k) → slice s i n ≡ slice t i n
unfolding slice
slice_cong s t i zero e = refl
slice_cong s t i (suc n) e =
    let h = e i (omega arith) (omega arith) in
    let r = slice_cong s t (i + 1) n (λ k ge lt. e k (omega arith) (omega arith)) in cc (h, r)

-- A path that is accepted is split at its separators: the names that the parts begin, read as C
-- strings, are the parts of the text behind the drive, of which at most 108 characters count.
pub parse_path-split :
    (path : Str)
    → is_path_valid path ≡ true
    → let len = strnlen path fs_max_path_len in
      (p : FilePath) × (parse_path path ≡ some p)
      × (p.drive_no + b'0' ≡ path 0)
      × (map (λ o. read_name p.text (len - o) o) p.parts ≡ split slash (slice path 3 (len - 3)))
unfolding parse_path is_path_valid is_digit
parse_path-split path v = (
  parsed,
  rw v,
  ground arith,
  split_parts-names (len - 3) 3 len copy text (ground arith) cut ∙ same,
)
  where
    len : ℕ
    len = strnlen path fs_max_path_len

    copy : Str
    copy = update (memcpy (λ _. 0) path len) len 0

    text : Str
    text = (split_parts (len - 3) 3 copy).1

    parsed : FilePath
    parsed = record {
      drive_no = path 0 - b'0';
      parts = 3 ∷ (split_parts (len - 3) 3 copy).0;
      text = text;
    }

    cut : Cut text copy 3 (len - 3)
    cut k ge lt =
        let before : k < len = omega arith in
        let p = copied-get path len k before in
        let nz = (strnlen-Stops path fs_max_path_len).within k (omega arith) before in
        (rw p nz, ground (arith, split_parts-text (len - 3) 3 copy k))

    same : split slash (slice copy 3 (len - 3)) ≡ split slash (slice path 3 (len - 3))
    same =
        ap (split slash)
          (slice_cong copy path 3 (len - 3) (λ k ge lt. copied-get path len k (omega arith)))

-- `d:/` and the names, with a separator between them
abbrev pub path_text : ℕ → List (List ℕ) → List ℕ
path_text d ws = (d + b'0') ∷ b':' ∷ slash ∷ join slash ws

three : (k : ℕ) → 3 + k ≡ suc (suc (suc k))
three k = omega arith

-- The text of a drive and names is read back: if there is a name, no name holds a separator or NUL,
-- the drive is a digit and the text has at most 108 characters, the parser accepts it, and gives
-- that drive and those names.
pub parse_path-path_text :
    (d : ℕ) (w : List ℕ) (ws : List (List ℕ))
    → d < 10
    → AllPlain slash (w ∷ ws)
    → length (path_text d (w ∷ ws)) ≤ fs_max_path_len
    → let len = length (path_text d (w ∷ ws)) in
      (p : FilePath) × (parse_path (c_string (path_text d (w ∷ ws))) ≡ some p)
      × (p.drive_no ≡ d)
      × (map (λ o. read_name p.text (len - o) o) p.parts ≡ w ∷ ws)
unfolding is_path_valid is_digit c_string
parse_path-path_text d w ws small plain fits =
    let (p, accepted, drive, parts) = parse_path-split str valid in
    (
      p,
      accepted,
      ground arith,
      (rw len at parts)
          ∙ ap (λ n. split slash (slice str 3 n)) rest
          ∙ ap (split slash) behind
          ∙ split-join slash w ws plain,
    )
  where
    text : List ℕ
    text = path_text d (w ∷ ws)

    body : List ℕ
    body = join slash (w ∷ ws)

    str : Str
    str = c_string text

    long : HasLength str (length text)
    long = record {
      ends = get_or_end text;
      within = λ k lt.
          get-NonNul slash text k
            (
              λ e. omega arith,
              (
                λ e. omega arith,
                (λ e. omega arith, join-NonNul slash (w ∷ ws) (λ e. omega arith) plain),
              ),
            )
            lt;
    }

    len : strnlen str fs_max_path_len ≡ length text
    len = strnlen_lem str fs_max_path_len (length text) long ∙ omega arith

    valid : is_path_valid str ≡ true
    valid = ground (arith, len)

    rest : length text - 3 ≡ length body
    rest = omega arith

    behind : slice str 3 (length body) ≡ body
    behind = slice-get str 3 body (λ k a e lt. rw (e, three k) refl)

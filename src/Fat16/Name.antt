-- ===== src/Fat16/Name.antt =====
-- The name of a directory entry as a C string.
use amog_os.Base.{
  ℕ, zero, suc, ◌+◌, ◌-◌, ◌<◌, ◌≤◌, ◌≡◌, refl, ap, ◌∙◌, List, [], ◌∷◌, ◌++◌, true, false, ltb, leb,
  ◌==◌, ◌&&◌, if◌then◌else◌, arith, dec_lt, dec_le, ℕ_discrete, get_or, length, length-append,
}
use amog_os.Base.Memory.{update}
use amog_os.FilePath.Spec.{IsPlain, c_string}
use amog_os.Fat16.{DirEntry, proper_str, fat16_get_full_relative_filename}

-- The characters `w`, padded with spaces to `len`.
unfoldable pub IsPadded : (ℕ → ℕ) → ℕ → List ℕ → Type 0
IsPadded name len w = (j : ℕ) → j < len → name j ≡ get_or w j b' '

-- A base name and an extension as they are written: without a dot when there is no extension.
unfoldable pub full_name : List ℕ → List ℕ → List ℕ
full_name base [] = base
full_name base (c ∷ ext) = base ++ (b'.' ∷ c ∷ ext)

write_str : List ℕ → ℕ → (ℕ → ℕ) → ℕ → ℕ
write_str [] at out = update out at 0
write_str (c ∷ w) at out = write_str w (at + 1) (update out at c)

proper_str_lem :
    (w : List ℕ) (left i at : ℕ) (name out : ℕ → ℕ)
    → ((j : ℕ) → j < left → name (i + j) ≡ get_or w j b' ')
    → IsPlain b' ' w
    → length w ≤ left
    → proper_str left name i at out ≡ (at + length w, write_str w at out)
unfolding proper_str write_str
proper_str_lem [] zero i at name out pad plain le = ground arith
proper_str_lem [] (suc left) i at name out pad plain le =
    let e : name i ≡ b' ' = ap name (omega arith) ∙ pad 0 (omega arith) in
    let t : (name i == b' ') ≡ true = ground (arith, e) in
    let z : at ≡ at + 0 = omega arith in rw t (ap (λ a. (a, update out at 0)) z)
proper_str_lem (c ∷ w) zero i at name out pad plain le = absurd (omega arith)
proper_str_lem (c ∷ w) (suc left) i at name out pad plain le =
    let e : name i ≡ c = ap name (omega arith) ∙ pad 0 (omega arith) in
    let s : (name i == b' ') ≡ false = ground (arith, e, plain.0) in
    let z : (name i == 0) ≡ false = ground (arith, e, plain.1) in
    let next : (j : ℕ) → j < left → name (i + 1 + j) ≡ get_or w j b' ' =
      λ j lt. ap name (omega arith) ∙ pad (suc j) (omega arith) in
    let ih =
      proper_str_lem w left (i + 1) (at + 1) name (update out at (name i)) next plain.2
        (omega arith) in
    let n : at + 1 + length w ≡ at + suc (length w) = omega arith in
    rw s (rw z (ih ∙ rw n (rw e refl)))

-- From the start of a field.
field_lem :
    (w : List ℕ) (len at : ℕ) (name out : ℕ → ℕ)
    → IsPadded name len w
    → IsPlain b' ' w
    → length w ≤ len
    → proper_str len name 0 at out ≡ (at + length w, write_str w at out)
unfolding IsPadded
field_lem w len at name out pad plain le =
    let shift : (j : ℕ) → j < len → name (0 + j) ≡ get_or w j b' ' =
      λ j lt. ap name (omega arith) ∙ pad j lt in
    proper_str_lem w len 0 at name out shift plain le

write_str-get :
    (w : List ℕ) (at k : ℕ) (out : ℕ → ℕ)
    → write_str w at out k
      ≡ (if leb at k && leb k (at + length w) then c_string w (k - at) else out k)
unfolding write_str c_string
write_str-get [] at k out = ground arith
write_str-get (c ∷ w) at k out =
    let ih = write_str-get w (at + 1) k (update out at c) in
    ih ∙ elim (dec_lt at k) [
      | yes behind ↦ let e : k - at ≡ suc (k - (at + 1)) = omega arith in rw e (ground arith)
      | no before ↦ elim (ℕ_discrete at k) [
        | yes here ↦ let e : k - at ≡ 0 = omega arith in rw e (ground arith)
        | no ne ↦ ground arith
      ]
    ]

get_or-append :
    (v w : List ℕ) (i : ℕ)
    → get_or (v ++ w) i 0 ≡ (if ltb i (length v) then get_or v i 0 else get_or w (i - length v) 0)
get_or-append [] w i = ground arith
get_or-append (c ∷ v) w zero = ground arith
get_or-append (c ∷ v) w (suc i) = get_or-append v w i ∙ ground arith

get_or_beyond : (v : List ℕ) (i : ℕ) → length v ≤ i → get_or v i 0 ≡ 0
get_or_beyond [] i le = refl
get_or_beyond (c ∷ v) zero le = absurd (omega arith)
get_or_beyond (c ∷ v) (suc i) le = get_or_beyond v i (omega arith)

-- The two fields and the dot, in a buffer that was cleared.
dotted_lem :
    (base ext : List ℕ) (c max_len j : ℕ) (out : ℕ → ℕ)
    → length (base ++ (b'.' ∷ c ∷ ext)) < max_len
    → (if leb (0 + length base + 1) j && leb j (0 + length base + 1 + length (c ∷ ext))
        then get_or (c ∷ ext) (j - (0 + length base + 1)) 0
        else update
            (write_str base 0 (λ k. if ltb k max_len then 0 else out k))
            (0 + length base)
            b'.'
            j)
      ≡ (if ltb j max_len then get_or (base ++ (b'.' ∷ c ∷ ext)) j 0 else out j)
unfolding c_string
dotted_lem base ext c max_len j out room =
    let a = get_or-append base (b'.' ∷ c ∷ ext) j in
    let l = length-append base (b'.' ∷ c ∷ ext) in
    let w = write_str-get base 0 j (λ k. if ltb k max_len then 0 else out k) in
    elim (dec_lt (length base) j) [
      | yes after ↦
          let m : j - length base ≡ suc (j - (0 + length base + 1)) = omega arith in
          let a' = (rw m at a) in
          elim (dec_le (length (c ∷ ext)) (j - (0 + length base + 1))) [
            | yes beyond ↦
                ground (arith, a', l, w, get_or_beyond (c ∷ ext) (j - (0 + length base + 1)) beyond)
            | no inside ↦ ground (arith, a', l, w)
          ]
      | no before ↦ elim (ℕ_discrete j (length base)) [
        | yes here ↦ let m : j - length base ≡ 0 = omega arith in ground (arith, rw m at a, l)
        | no ne ↦ let m : j - 0 ≡ j = omega arith in ground (arith, a, l, rw m at w)
      ]
    ]

-- When the fields of an entry are a base name of up to 8 and an extension of up to 3 characters,
-- none of them a space or NUL, padded with spaces, and the buffer has room for the whole name and
-- its NUL, then the buffer holds the name, with a dot before an extension that is not empty, and
-- NUL in all of its further bytes; the bytes behind the buffer stay as they were.
pub fat16_get_full_relative_filename_lem :
    (entry : DirEntry) (base ext : List ℕ) (max_len j : ℕ) (out : ℕ → ℕ)
    → IsPadded entry.filename 8 base
    → IsPadded entry.ext 3 ext
    → IsPlain b' ' base
    → IsPlain b' ' ext
    → length base ≤ 8
    → length ext ≤ 3
    → length (full_name base ext) < max_len
    → fat16_get_full_relative_filename entry max_len out j
      ≡ (if ltb j max_len then c_string (full_name base ext) j else out j)
unfolding fat16_get_full_relative_filename IsPadded full_name c_string
fat16_get_full_relative_filename_lem entry base [] max_len j out pad pad' plain plain' le le' room =
    let cleared : ℕ → ℕ = λ j. if ltb j max_len then 0 else out j in
    let e : (entry.ext 0 == b' ') ≡ true = ground (arith, pad' 0 (omega arith)) in
    let s = field_lem base 8 0 entry.filename cleared pad plain le in
    rw e (
      rw s (
        write_str-get base 0 j cleared ∙ elim (dec_lt (length base) j) [
          | yes out_of_name ↦
              let m : j - 0 ≡ j = omega arith in
              rw m (ground (arith, get_or_beyond base j (omega arith)))
          | no in_name ↦ let m : j - 0 ≡ j = omega arith in rw m (ground arith)
        ]))
fat16_get_full_relative_filename_lem entry base (c ∷ ext) max_len j out pad pad' plain plain' le le'
      room =
    let cleared : ℕ → ℕ = λ j. if ltb j max_len then 0 else out j in
    let e : entry.ext 0 ≡ c = pad' 0 (omega arith) in
    let f : (entry.ext 0 == b' ') ≡ false = ground (arith, e, plain'.0) in
    let z : (entry.ext 0 == 0) ≡ false = ground (arith, e, plain'.1) in
    let s = field_lem base 8 0 entry.filename cleared pad plain le in
    let dotted = update (write_str base 0 cleared) (0 + length base) b'.' in
    let t = field_lem (c ∷ ext) 3 (0 + length base + 1) entry.ext dotted pad' plain' le' in
    rw f (
      rw z (
        rw s (
          rw t (
            write_str-get (c ∷ ext) (0 + length base + 1) j dotted
            ∙ dotted_lem base ext c max_len j out room))))

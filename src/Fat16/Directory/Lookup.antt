-- ===== src/Fat16/Directory/Lookup.antt =====
-- The search for a name in a directory.
use amog_os.Base.{
  ℕ, zero, suc, ◌+◌, ◌<◌, ◌≤◌, ◌≡◌, ◌≢◌, ◌⊎◌, inl, inr, refl, sym, subst, ◌∙◌, ap, List, [], ◌∷◌,
  some, none, true, arith, length, length-append, ltb, Bool-cases, ℕ_discrete, if◌then◌else◌,
}
use amog_os.Base.Int.{ℤ, pos, negsuc, is_ok}
use amog_os.CString.{Str, istrncmp, to_lower}
use amog_os.CString.Compare.{IsBytes, SameText, istrncmp_iff}
use amog_os.Fat16.{DirEntry, fat16_get_full_relative_filename}
use amog_os.Fat16.Name.{IsPadded, full_name, fat16_get_full_relative_filename_lem}
use amog_os.Fat16.Directory.{find_item}
use amog_os.FilePath.{fs_max_path_len}
use amog_os.FilePath.Spec.{IsPlain, c_string}

-- An entry with the name `base.ext`, as the file system stores it.
pub record HasName (entry : DirEntry) (base ext : List ℕ) : Type 0 where
  pub filename : IsPadded entry.filename 8 base
  pub extension : IsPadded entry.ext 3 ext
  pub plain : IsPlain b' ' base
  pub plain_ext : IsPlain b' ' ext
  pub short : length base ≤ 8
  pub short_ext : length ext ≤ 3
  pub bytes : IsBytes (c_string (full_name base ext))

-- The C strings agree but for the case of their letters, in the first `fs_max_path_len` bytes.
abbrev pub Matches : Str → Str → Type 0
Matches s t = SameText to_lower s t 0 fs_max_path_len

full_name-length :
    (base ext : List ℕ) → length base ≤ 8 → length ext ≤ 3 → length (full_name base ext) < 108
unfolding full_name
full_name-length base [] le le' = omega arith
full_name-length base (c ∷ ext) le le' = omega (arith, length-append base (b'.' ∷ c ∷ ext))

is_ok-true : (z : ℤ) → is_ok z ≡ true → z ≡ pos 0
is_ok-true (pos n) e = let z : n ≡ 0 = ground (arith, e) in ap pos z
is_ok-true (negsuc n) e = absurd (ground (arith, e))

Matches-cong :
    (s s' t : Str) → ((k : ℕ) → k < fs_max_path_len → s k ≡ s' k) → Matches s t → Matches s' t
Matches-cong s s' t same h k ge lt before =
    rw (← same k lt) (h k ge lt (λ j ge' below. rw (same j (omega arith)) (before j ge' below)))

module _ (entry : DirEntry) (base ext : List ℕ) (named : HasName entry base ext)
    (tmp file_name : Str) (tmp_bytes : IsBytes tmp) (name_bytes : IsBytes file_name) where
  abbrev name : Str
  name = fat16_get_full_relative_filename entry fs_max_path_len tmp

  name-value :
      (j : ℕ) → name j ≡ (if ltb j fs_max_path_len then c_string (full_name base ext) j else tmp j)
  name-value j =
      fat16_get_full_relative_filename_lem entry base ext fs_max_path_len j tmp named.filename
        named.extension named.plain named.plain_ext named.short named.short_ext
        (full_name-length base ext named.short named.short_ext)

  name-inside : (j : ℕ) → j < fs_max_path_len → name j ≡ c_string (full_name base ext) j
  name-inside j lt =
      let t : ltb j fs_max_path_len ≡ true = ground (arith, lt) in name-value j ∙ rw t refl

  pub name-IsBytes : IsBytes name
  name-IsBytes j = elim (Bool-cases (ltb j fs_max_path_len)) [
    | inl t ↦ rw (name-value j, t) (named.bytes j)
    | inr f ↦ rw (name-value j, f) (tmp_bytes j)
  ]

  pub found-Matches :
      is_ok (istrncmp name file_name fs_max_path_len) ≡ true
      → Matches (c_string (full_name base ext)) file_name
  found-Matches e = Matches-cong name (c_string (full_name base ext)) file_name name-inside (
      (istrncmp_iff name file_name fs_max_path_len name-IsBytes name_bytes).0
        (is_ok-true (istrncmp name file_name fs_max_path_len) e))

  pub Matches-found :
      Matches (c_string (full_name base ext)) file_name
      → is_ok (istrncmp name file_name fs_max_path_len) ≡ true
  Matches-found h = ap is_ok (
      (istrncmp_iff name file_name fs_max_path_len name-IsBytes name_bytes).1 (
        Matches-cong (c_string (full_name base ext)) name file_name (λ k lt. sym (name-inside k lt))
          h))

module _ (dir_entries : ℕ → DirEntry) (base ext : ℕ → List ℕ) (file_name : Str)
    (name_bytes : IsBytes file_name) where
  -- The entry `k` has the name that is asked for.
  abbrev pub IsMatch : ℕ → Type 0
  IsMatch k = Matches (c_string (full_name (base k) (ext k))) file_name

  -- The first match among the `left` entries from `i` on, or that there is none.
  abbrev pub Finds : ℕ → ℕ → Str → Type 0
  Finds i left tmp =
      ((find_item left i dir_entries file_name tmp ≡ none)
        × ((k : ℕ) → i ≤ k → k < i + left → IsMatch k → ⊥))
      ⊎ ((k : ℕ) × (find_item left i dir_entries file_name tmp ≡ some k)
          × (i ≤ k)
          × (k < i + left)
          × IsMatch k
          × ((j : ℕ) → i ≤ j → j < k → IsMatch j → ⊥))

  find_item-Finds :
      (left i : ℕ) (tmp : Str)
      → IsBytes tmp
      → ((k : ℕ) → i ≤ k → k < i + left → HasName (dir_entries k) (base k) (ext k))
      → Finds i left tmp
  unfolding find_item
  find_item-Finds zero i tmp bytes named = inl (refl, λ k ge lt m. absurd (omega arith))
  find_item-Finds (suc left) i tmp bytes named =
      let here = named i (omega arith) (omega arith) in
      let buf = fat16_get_full_relative_filename (dir_entries i) fs_max_path_len tmp in
      elim (Bool-cases (is_ok (istrncmp buf file_name fs_max_path_len))) [
        | inl t ↦ inr (
          i,
          rw t refl,
          omega arith,
          omega arith,
          found-Matches (dir_entries i) (base i) (ext i) here tmp file_name bytes name_bytes t,
          λ j ge lt m. absurd (omega arith),
        )
        | inr f ↦
            let miss : IsMatch i → ⊥ = λ m. cc (
              Matches-found (dir_entries i) (base i) (ext i) here tmp file_name bytes name_bytes m,
              f,
            ) in
            let other : (k : ℕ) → i ≤ k → k ≢ i → i + 1 ≤ k = λ k ge ne. omega (arith, ge, ne) in
            let rest =
              find_item-Finds left (i + 1) buf
                (name-IsBytes (dir_entries i) (base i) (ext i) here tmp file_name bytes name_bytes)
                (λ k ge lt. named k (omega arith) (omega arith)) in
            elim rest [
              | inl (e, none_left) ↦ inl (
                rw f e,
                λ k ge lt m. elim (ℕ_discrete k i) [
                  | yes q ↦ miss (subst IsMatch q m)
                  | no ne ↦ none_left k (other k ge ne) (omega arith) m
                ],
              )
              | inr (k, e, ge, lt, m, first) ↦ inr (
                k,
                rw f e,
                omega arith,
                omega arith,
                m,
                λ j ge' lt' m'. elim (ℕ_discrete j i) [
                  | yes q ↦ miss (subst IsMatch q m')
                  | no ne ↦ first j (other j ge' ne) lt' m'
                ],
              )
            ]
      ]

  -- When each of the `total` entries of a directory has a base name of up to 8 and an extension of
  -- up to 3 characters, padded with spaces, the search for a name, in a buffer of bytes, takes the
  -- first entry whose name agrees with it but for the case of the letters, and none only if no
  -- entry's name does.
  pub find_item_lem :
      (total : ℕ) (tmp : Str)
      → IsBytes tmp
      → ((k : ℕ) → k < total → HasName (dir_entries k) (base k) (ext k))
      → Finds 0 total tmp
  find_item_lem total tmp bytes named =
      find_item-Finds total 0 tmp bytes (λ k ge lt. named k (omega arith))

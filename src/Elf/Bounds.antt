-- ===== src/Elf/Bounds.antt =====
-- The bounds of a program in memory.
use amog_os.Elf.Best.{Load, IsBest, skip, stay, replace}
use amog_os.Base.{
  ℕ, zero, suc, ◌+◌, ◌<◌, ◌≤◌, ◌≡◌, ◌≢◌, refl, ◌⊎◌, inl, inr, true, false, not, ◌&&◌, ◌||◌, leb,
  ◌==◌, arith, ℕ_discrete, Bool-cases,
}
use amog_os.Base.Int.{pos, neg}
use amog_os.Base.Words.{add32}
use amog_os.CString.{memcmp}
use amog_os.Elf.{
  elf_valid_signature, elf_valid_class, elf_valid_encoding, ElfFile, Phdr, pt_load, elf_header,
  elf_program_header, elf_validate_loaded, elf_process_phdr_pt_load, elf_process_pheader,
  process_from, elf_process_pheaders, elf_process_loaded,
}

module _ (phs : ℕ → Phdr) (m : ℕ) where
  abbrev pub base_key : ℕ → ℕ
  base_key j = (phs j).p_vaddr

  abbrev pub base_place : ℕ → ℕ
  base_place j = add32 m (phs j).p_offset

  abbrev pub end_key : ℕ → ℕ
  end_key j = add32 (phs j).p_vaddr (phs j).p_filesz

  abbrev pub end_place : ℕ → ℕ
  end_place j = add32 (add32 m (phs j).p_offset) (phs j).p_filesz

  abbrev pub IsLowest : ℕ → ℕ → ℕ → Type 0
  IsLowest = IsBest (λ x y. x ≤ y) phs base_key base_place

  abbrev pub IsHighest : ℕ → ℕ → ℕ → Type 0
  IsHighest = IsBest (λ x y. y ≤ x) phs end_key end_place

  -- The base and the end after the first `n` headers.
  pub record IsBounded (n : ℕ) (file : ElfFile) : Type 0 where
    pub place : file.elf_memory ≡ m
    pub base : IsLowest n file.virtual_base_address file.physical_base_address
    pub end : IsHighest n file.virtual_end_address file.physical_end_address

  lowest :
      (n v p : ℕ)
      → ((j : ℕ) → j < n → Load phs j → (phs j).p_vaddr ≢ 0)
      → Load phs n
      → leb (phs n).p_vaddr v || v == 0 ≡ true
      → IsLowest n v p
      → IsLowest (n + 1) (phs n).p_vaddr (add32 m (phs n).p_offset)
  lowest n v p nz l test b =
      replace (λ x y. x ≤ y) phs base_key base_place n v p (λ x. omega arith) l
        (λ j lt lj. elim (b.attained) [
          | inl (i, lt', li, e, q) ↦ ground (arith, test, b.first j lt lj, nz i lt' li, e)
          | inr (z, none_loaded) ↦ absurd (none_loaded j lt lj)
        ])

  loaded :
      (n : ℕ) (file : ElfFile)
      → ((j : ℕ) → j < n → Load phs j → (phs j).p_vaddr ≢ 0)
      → Load phs n
      → IsBounded n file
      → IsBounded (n + 1) (elf_process_phdr_pt_load (phs n) file)
  unfolding elf_process_phdr_pt_load
  loaded n file nz l b =
      let v = file.virtual_base_address in
      let w = file.virtual_end_address in
      let end = add32 (phs n).p_vaddr (phs n).p_filesz in
      let lower : (leb (phs n).p_vaddr v || v == 0 ≡ true)
          → IsLowest (n + 1) (phs n).p_vaddr (add32 file.elf_memory (phs n).p_offset) =
        λ test. rw b.place (lowest n v file.physical_base_address nz l test b.base) in
      let kept = λ (test : leb (phs n).p_vaddr v || v == 0 ≡ false).
        stay (λ x y. x ≤ y) phs base_key base_place n v file.physical_base_address
          (ground (arith, test)) (ground (arith, test)) b.base in
      let higher : (leb w end || w == 0 ≡ true)
          → IsHighest (n + 1) end
              (add32 (add32 file.elf_memory (phs n).p_offset) (phs n).p_filesz) =
        λ test. rw b.place (
          replace (λ x y. y ≤ x) phs end_key end_place n w file.physical_end_address
            (λ x. omega arith) l (λ j lt lj. ground (arith, test, b.end.first j lt lj))) in
      let kept' = λ (test : leb w end || w == 0 ≡ false).
        stay (λ x y. y ≤ x) phs end_key end_place n w file.physical_end_address
          (ground (arith, test)) (ground (arith, test)) b.end in
      elim (Bool-cases (leb (phs n).p_vaddr v || v == 0)) [
        | inl t ↦ elim (Bool-cases (leb w end || w == 0)) [
          | inl t' ↦ rw t (rw t' (record { place = b.place; base = lower t; end = higher t' }))
          | inr f' ↦ rw t (rw f' (record { place = b.place; base = lower t; end = kept' f' }))
        ]
        | inr f ↦ elim (Bool-cases (leb w end || w == 0)) [
          | inl t' ↦ rw f (rw t' (record { place = b.place; base = kept f; end = higher t' }))
          | inr f' ↦ rw f (rw f' (record { place = b.place; base = kept f; end = kept' f' }))
        ]
      ]

  step :
      (n : ℕ) (file : ElfFile)
      → ((j : ℕ) → j < n → Load phs j → (phs j).p_vaddr ≢ 0)
      → IsBounded n file
      → IsBounded (n + 1) (elf_process_pheader (phs n) file)
  unfolding elf_process_pheader Load
  step n file nz b = elim (ℕ_discrete (phs n).p_type pt_load) [
    | no other ↦
        let f : ((phs n).p_type == pt_load) ≡ false = ground arith in
        rw f (record {
          place = b.place;
          base = skip _ phs _ _ n _ _ other b.base;
          end = skip _ phs _ _ n _ _ other b.end;
        })
    | yes l ↦
        let t : ((phs n).p_type == pt_load) ≡ true = ground arith in rw t (loaded n file nz l b)
  ]

-- A file that has just been read to `m`.
abbrev pub loaded_at : ℕ → ElfFile
loaded_at m = record {
  elf_memory = m;
  virtual_base_address = 0;
  virtual_end_address = 0;
  physical_base_address = 0;
  physical_end_address = 0;
}

module _ (mem : ℕ → ℕ) (m : ℕ) where
  abbrev pub phdrs : ℕ → Phdr
  phdrs i = elf_program_header mem (loaded_at m) i

  -- What the loader asks of the first bytes.
  pub record IsElf : Type 0 where
    pub magic0 : mem m ≡ 0x7F
    pub magic1 : mem (m + 1) ≡ b'E'
    pub magic2 : mem (m + 2) ≡ b'L'
    pub magic3 : mem (m + 3) ≡ b'F'
    pub class : mem (m + 4) ≤ 1
    pub encoding : mem (m + 5) ≤ 1
    pub program_headers : (elf_header mem (loaded_at m)).e_phoff ≢ 0

  header_lem :
      (file : ElfFile) (i : ℕ) → file.elf_memory ≡ m → elf_program_header mem file i ≡ phdrs i
  unfolding elf_program_header elf_header
  header_lem file i e = rw e refl

  process_from_lem :
      (left i : ℕ) (file : ElfFile)
      → ((j : ℕ) → j < i + left → Load phdrs j → (phdrs j).p_vaddr ≢ 0)
      → IsBounded phdrs m i file
      → IsBounded phdrs m (i + left) (process_from mem left i file)
  unfolding process_from
  process_from_lem zero i file nz b = let e : i + 0 ≡ i = omega arith in rw e b
  process_from_lem (suc left) i file nz b =
      let e : i + suc left ≡ i + 1 + left = omega arith in
      let b' = step phdrs m i file (λ j lt. nz j (omega arith)) b in
      rw e (
        process_from_lem left (i + 1) _ (λ j lt. nz j (omega arith))
          (rw (header_lem file i b.place) b'))

  signature_lem :
      elf_valid_signature mem (loaded_at m)
      ≡ (mem m == 0x7F && mem (m + 1) == b'E' && mem (m + 2) == b'L' && mem (m + 3) == b'F')
  unfolding elf_valid_signature memcmp
  signature_lem = let z : m + 0 ≡ m = omega arith in rw z (ground arith)

  valid_lem :
      (IsElf × (elf_validate_loaded mem (loaded_at m) ≡ pos 0))
      ⊎ ((IsElf → ⊥) × (elf_validate_loaded mem (loaded_at m) ≡ neg 10))
  unfolding elf_validate_loaded elf_valid_class elf_valid_encoding elf_header
  valid_lem =
      let s = signature_lem in
      elim (Bool-cases (
        elf_valid_signature mem (loaded_at m)
        && elf_valid_class (elf_header mem (loaded_at m))
        && elf_valid_encoding (elf_header mem (loaded_at m))
        && not ((elf_header mem (loaded_at m)).e_phoff == 0))) [
          | inl t ↦ inl (
            record {
              magic0 = ground (arith, s, t);
              magic1 = ground (arith, s, t);
              magic2 = ground (arith, s, t);
              magic3 = ground (arith, s, t);
              class = ground (arith, t);
              encoding = ground (arith, t);
              program_headers = λ e. absurd (ground (arith, t, e));
            },
            rw t refl,
          )
          | inr f ↦ inr (
            λ v. absurd (
                ground (
                  arith, s, f, v.magic0, v.magic1, v.magic2, v.magic3, v.class, v.encoding,
                  v.program_headers,
                )),
            rw f refl,
          )
        ]

  -- The loader takes a file, read to `m`, exactly when it begins with the ELF signature, its class
  -- and its encoding are 0 or 1, and it has program headers; a file that it does not take is
  -- refused with -STATUS_INVALID_EXEC_FORMAT and stays as it was. Of a file that it takes, when no
  -- loaded segment is at address 0, the virtual base is the lowest address of a loaded segment and
  -- the physical base is that segment's place, the virtual end is the highest end of a loaded
  -- segment in the file and the physical end its place; all four are 0 when no segment is loaded.
  pub elf_process_loaded_lem :
      ((j : ℕ) → j < (elf_header mem (loaded_at m)).e_phnum → Load phdrs j → (phdrs j).p_vaddr ≢ 0)
      → (IsElf
          × ((elf_process_loaded mem (loaded_at m)).0 ≡ pos 0)
          × IsBounded phdrs m
              (elf_header mem (loaded_at m)).e_phnum
              (elf_process_loaded mem (loaded_at m)).1)
        ⊎ ((IsElf → ⊥) × (elf_process_loaded mem (loaded_at m) ≡ (neg 10, loaded_at m)))
  unfolding elf_process_loaded elf_process_pheaders
  elf_process_loaded_lem nz = elim (valid_lem) [
    | inl (v, e) ↦
        let none_loaded : (j : ℕ) → j < 0 → Load phdrs j → ⊥ = λ j lt l. absurd (omega arith) in
        let start : IsBounded phdrs m 0 (loaded_at m) = record {
          place = refl;
          base = record {
            first = λ j lt l. absurd (omega arith);
            attained = inr (refl, none_loaded);
          };
          end = record {
            first = λ j lt l. absurd (omega arith);
            attained = inr (refl, none_loaded);
          };
        } in
        let n = (elf_header mem (loaded_at m)).e_phnum in
        let z : 0 + n ≡ n = omega arith in
        inl (
          v,
          rw e refl,
          rw e (rw z at (process_from_lem n 0 (loaded_at m) (λ j lt. nz j (omega arith)) start)),
        )
    | inr (v, e) ↦ inr (v, rw e refl)
  ]

-- ===== src/Elf/Tests.antt =====
-- A file with one segment of 16 bytes at 0x8400000, read to 0x10000.
use amog_os.Base.{ℕ, ◌-◌, ◌<◌, ◌≡◌, ◌≢◌, ◌⊎◌, [], ◌∷◌, get_or, ltb, if◌then◌else◌, arith}
use amog_os.Base.Int.{pos, neg}
use amog_os.Elf.{elf_header, elf_program_header, elf_process_loaded, word_at, half_at}
use amog_os.Elf.Best.{Load}
use amog_os.Elf.Bounds.{IsElf, IsBounded, loaded_at, phdrs, elf_process_loaded_lem}

-- The signature and the class, 32 bit little-endian; an executable; its header of 52 bytes and one
-- program header behind it.
abbrev file_bytes : ℕ → ℕ
file_bytes i =
    if ltb i 52
    then get_or
        (0x7F ∷ b'E' ∷ b'L' ∷ b'F' ∷ 1 ∷ 1 ∷ 1 ∷ 0 ∷ 0 ∷ 0 ∷ 0 ∷ 0 ∷ 0 ∷ 0 ∷ 0 ∷ 0 ∷ 2 ∷ 0 ∷ 3 ∷ 0
          ∷ 1 ∷ 0 ∷ 0 ∷ 0 ∷ 0 ∷ 0 ∷ 0x40 ∷ 8 ∷ 52 ∷ 0 ∷ 0 ∷ 0 ∷ 0 ∷ 0 ∷ 0 ∷ 0 ∷ 0 ∷ 0 ∷ 0 ∷ 0 ∷ 52
          ∷ 0 ∷ 32 ∷ 0 ∷ 1 ∷ 0 ∷ [])
        i 0
    else get_or
        (1 ∷ 0 ∷ 0 ∷ 0 ∷ 84 ∷ 0 ∷ 0 ∷ 0 ∷ 0 ∷ 0 ∷ 0x40 ∷ 8 ∷ 0 ∷ 0 ∷ 0x40 ∷ 8 ∷ 16 ∷ 0 ∷ 0 ∷ 0 ∷ 16
          ∷ 0 ∷ 0 ∷ 0 ∷ 5 ∷ [])
        (i - 52) 0

abbrev mem : ℕ → ℕ
mem a = file_bytes (a - 0x10000)

not_at_zero :
    (j : ℕ)
    → j < (elf_header mem (loaded_at 0x10000)).e_phnum
    → Load (phdrs mem 0x10000) j
    → (phdrs mem 0x10000 j).p_vaddr ≢ 0
unfolding elf_header elf_program_header word_at half_at
not_at_zero j lt l e = let z : j ≡ 0 = omega arith in absurd (omega (arith, rw z at e))

elf_process_loaded_lem_example :
    (IsElf mem 0x10000
      × ((elf_process_loaded mem (loaded_at 0x10000)).0 ≡ pos 0)
      × IsBounded
          (phdrs mem 0x10000)
          0x10000
          (elf_header mem (loaded_at 0x10000)).e_phnum
          (elf_process_loaded mem (loaded_at 0x10000)).1)
    ⊎ ((IsElf mem 0x10000 → ⊥)
        × (elf_process_loaded mem (loaded_at 0x10000) ≡ (neg 10, loaded_at 0x10000)))
elf_process_loaded_lem_example = elf_process_loaded_lem mem 0x10000 not_at_zero

-- ===== src/Elf.antt =====
-- The ELF loader (src/loader/elfloader.c) on a file that has been read to physical memory, a
-- function from addresses to bytes. A header is named by its address.
pub mod Best
pub mod Bounds
mod Tests
use amog_os.Base.{
  ℕ, zero, suc, ◌+◌, ◌*◌, ◌^◌, Bool, true, false, not, ◌&&◌, ◌||◌, leb, ◌==◌, if◌then◌else◌, get_or,
  [], ◌∷◌,
}
use amog_os.Base.Int.{ℤ, pos, neg, is_neg, is_ok}
use amog_os.Base.Words.{add32}
use amog_os.CString.{memcmp}

-- Little-endian fields.
pub half_at : (ℕ → ℕ) → ℕ → ℕ
half_at mem a = mem a + mem (a + 1) * 2 ^ 8

pub word_at : (ℕ → ℕ) → ℕ → ℕ
word_at mem a = mem a + mem (a + 1) * 2 ^ 8 + mem (a + 2) * 2 ^ 16 + mem (a + 3) * 2 ^ 24

-- `struct elf_file`, but for its name and its size, which nothing sets.
pub record ElfFile : Type 0 where
  pub elf_memory : ℕ
  pub virtual_base_address : ℕ
  pub virtual_end_address : ℕ
  pub physical_base_address : ℕ
  pub physical_end_address : ℕ

-- `struct elf32_phdr`
pub record Phdr : Type 0 where
  pub p_type : ℕ
  pub p_offset : ℕ
  pub p_vaddr : ℕ
  pub p_paddr : ℕ
  pub p_filesz : ℕ
  pub p_memsz : ℕ
  pub p_flags : ℕ
  pub p_align : ℕ

-- The used fields of `struct elf_header`.
pub record ElfHeader : Type 0 where
  pub class : ℕ
  pub encoding : ℕ
  pub e_type : ℕ
  pub e_entry : ℕ
  pub e_phoff : ℕ
  pub e_phnum : ℕ

abbrev pub pt_load : ℕ
pt_load = 1

pub elf_valid_class : ElfHeader → Bool
elf_valid_class header = header.class == 0 || header.class == 1

pub elf_valid_encoding : ElfHeader → Bool
elf_valid_encoding header = header.encoding == 0 || header.encoding == 1

module _ (mem : ℕ → ℕ) where
  pub elf_header : ElfFile → ElfHeader
  elf_header file =
      let h = file.elf_memory in
      record {
        class = mem (h + 4);
        encoding = mem (h + 5);
        e_type = half_at mem (h + 16);
        e_entry = word_at mem (h + 24);
        e_phoff = word_at mem (h + 28);
        e_phnum = half_at mem (h + 44);
      }

  -- `elf_program_header`: the program header `index`, 32 bytes each.
  pub elf_program_header : ElfFile → ℕ → Phdr
  elf_program_header file index =
      let a = add32 (add32 file.elf_memory (elf_header file).e_phoff) (32 * index) in
      record {
        p_type = word_at mem a;
        p_offset = word_at mem (a + 4);
        p_vaddr = word_at mem (a + 8);
        p_paddr = word_at mem (a + 12);
        p_filesz = word_at mem (a + 16);
        p_memsz = word_at mem (a + 20);
        p_flags = word_at mem (a + 24);
        p_align = word_at mem (a + 28);
      }

  pub elf_valid_signature : ElfFile → Bool
  elf_valid_signature file =
      is_ok (
        memcmp (λ i. mem (file.elf_memory + i)) (λ i. get_or (0x7F ∷ b'E' ∷ b'L' ∷ b'F' ∷ []) i 0)
          4)

  pub elf_validate_loaded : ElfFile → ℤ
  elf_validate_loaded file =
      let header = elf_header file in
      if elf_valid_signature file
        && elf_valid_class header
        && elf_valid_encoding header
        && not (header.e_phoff == 0)
      then pos 0
      else neg 10

-- `elf_process_phdr_pt_load`
pub elf_process_phdr_pt_load : Phdr → ElfFile → ElfFile
elf_process_phdr_pt_load phdr file =
    let end_virtual_address = add32 phdr.p_vaddr phdr.p_filesz in
    let file₁ =
      (if leb phdr.p_vaddr file.virtual_base_address || file.virtual_base_address == 0
        then record file {
          virtual_base_address = phdr.p_vaddr;
          physical_base_address = add32 file.elf_memory phdr.p_offset;
        }
        else file) in
    if leb file₁.virtual_end_address end_virtual_address || file₁.virtual_end_address == 0
    then record file₁ {
      virtual_end_address = end_virtual_address;
      physical_end_address = add32 (add32 file.elf_memory phdr.p_offset) phdr.p_filesz;
    }
    else file₁

-- `elf_process_pheader`
pub elf_process_pheader : Phdr → ElfFile → ElfFile
elf_process_pheader phdr file =
    if phdr.p_type == pt_load then elf_process_phdr_pt_load phdr file else file

module _ (mem : ℕ → ℕ) where
  -- The loop of `elf_process_pheaders`, from program header `i` on. No round fails.
  pub process_from : ℕ → ℕ → ElfFile → ElfFile
  process_from zero i file = file
  process_from (suc left) i file =
      process_from left (i + 1) (elf_process_pheader (elf_program_header mem file i) file)

  pub elf_process_pheaders : ElfFile → ElfFile
  elf_process_pheaders file = process_from (elf_header mem file).e_phnum 0 file

  -- `elf_process_loaded`
  pub elf_process_loaded : ElfFile → ℤ × ElfFile
  elf_process_loaded file =
      let res = elf_validate_loaded mem file in
      if is_neg res then (res, file) else (pos 0, elf_process_pheaders file)

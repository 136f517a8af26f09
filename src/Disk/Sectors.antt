-- ===== src/Disk/Sectors.antt =====
-- What a drive does, and what a sector is then.
use amog_os.Base.{ℕ, ◌+◌, ◌*◌, ◌/◌, ◌%◌, ◌^◌, ◌<◌, ◌≡◌, bit_and, bit_or, arith, ap, ◌∙◌, ltb, true}
use amog_os.Base.Bits.{bit_and_255, bit_or-below_E0}
use amog_os.Disk.{Ports, disk_read_sectors, sector_size}

-- A drive with the bytes `content`, addressed by a sector number of 28 bits (LBA28): 8 bits in each
-- of three registers, and 4 in the fourth, below the bits 0xE0 that choose this addressing.
unfoldable pub IsDrive : (Ports → ℕ → ℕ) → (ℕ → ℕ) → Type 0
IsDrive drive content =
    (p : Ports) (top i : ℕ)
    → p.drive_head ≡ 0xE0 + top
    → top < 16
    → i < p.count * sector_size
    → drive p i
      ≡ content
          ((p.lba_low + p.lba_mid * 2 ^ 8 + p.lba_high * 2 ^ 16 + top * 2 ^ 24) * sector_size + i)

module _ (drive : Ports → ℕ → ℕ) (content : ℕ → ℕ) (d : IsDrive drive content) where
  pub sector_lem :
      (lba i : ℕ) (buf : ℕ → ℕ)
      → lba < 2 ^ 28
      → i < sector_size
      → (disk_read_sectors drive 0 lba 1 buf).1 i ≡ content (lba * sector_size + i)
  unfolding disk_read_sectors IsDrive
  sector_lem lba i buf lt in_sector =
      let t : ltb i sector_size ≡ true = ground arith in
      let head = bit_or-below_E0 (lba / 2 ^ 24 % 256) (omega arith) in
      let low = bit_and_255 lba in
      let p : Ports = record {
        count = 1;
        lba_low = bit_and lba 0xFF;
        lba_mid = lba / 2 ^ 8 % 256;
        lba_high = lba / 2 ^ 16 % 256;
        drive_head = bit_or (lba / 2 ^ 24 % 256) 0xE0;
      } in
      let e : bit_and lba 0xFF
            + lba / 2 ^ 8 % 256 * 2 ^ 8
            + lba / 2 ^ 16 % 256 * 2 ^ 16
            + lba / 2 ^ 24 % 256 * 2 ^ 24
          ≡ lba =
        omega (arith, low) in
      rw t (
        d p (lba / 2 ^ 24 % 256) i head (omega arith) (omega arith)
        ∙ ap (λ l. content (l * sector_size + i)) e)

-- ===== src/Fat16/Directory/Tests.antt =====
-- A directory with the files A and B.C, and one on the disk with a file and a deleted entry.
use amog_os.Fat16.Directory.Samples.{base, ext, files, wanted, wanted-IsBytes, files-HasName}
use amog_os.Base.{
  ℕ, zero, suc, ◌+◌, ◌-◌, ◌*◌, ◌<◌, ◌≡◌, ◌≢◌, refl, ap, some, ◌==◌, if◌then◌else◌, arith, ◌^◌,
}
use amog_os.Base.Int.{pos}
use amog_os.Disk.{Ports}
use amog_os.Disk.Sectors.{IsDrive}
use amog_os.Fat16.Directory.{fat16_get_total_items_in_dir}
use amog_os.Fat16.Directory.Count.{IsDirectory, fat16_get_total_items_in_dir_lem}
use amog_os.Fat16.Directory.Lookup.{Finds, find_item_lem}

find_item_lem_example : Finds files base ext wanted wanted-IsBytes 0 2 (λ j. 0)
find_item_lem_example =
    find_item_lem files base ext wanted wanted-IsBytes 2 (λ j. 0) (λ k. omega arith) files-HasName

-- A file, a deleted entry, and the end of the directory.
abbrev content : ℕ → ℕ
content j = if j == 512 then b'A' else if j == 544 then 0xE5 else 0

abbrev drive : Ports → ℕ → ℕ
drive p i = content (
    (p.lba_low + p.lba_mid * 2 ^ 8 + p.lba_high * 2 ^ 16 + (p.drive_head - 0xE0) * 2 ^ 24) * 512
    + i)

drive-IsDrive : IsDrive drive content
unfolding IsDrive
drive-IsDrive p top i head lt in_sector =
    let e : p.drive_head - 0xE0 ≡ top = omega (arith, head) in
    ap (λ t. content ((p.lba_low + p.lba_mid * 2 ^ 8 + p.lba_high * 2 ^ 16 + t * 2 ^ 24) * 512 + i))
      e

entries-ne : (k : ℕ) → k < 2 → content (512 + k * 32) ≢ 0
entries-ne zero lt e = absurd (omega (arith, e))
entries-ne (suc zero) lt e = absurd (omega (arith, e))
entries-ne (suc (suc k)) lt e = absurd (omega arith)

directory : IsDirectory content 512 2
directory = record { entries = entries-ne; ends = refl }

fat16_get_total_items_in_dir_lem_example :
    fat16_get_total_items_in_dir drive 5 (record { disk = 0; byte_offset = 0 }) 1
    ≡ some (pos 1, record { disk = 0; byte_offset = 608 })
fat16_get_total_items_in_dir_lem_example =
    fat16_get_total_items_in_dir_lem drive content drive-IsDrive 5 1 2
      (record { disk = 0; byte_offset = 0 }) refl directory (omega arith) (omega arith)

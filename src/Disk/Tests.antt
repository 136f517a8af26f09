-- ===== src/Disk/Tests.antt =====
-- A drive whose bytes count up, read across a sector boundary.
use amog_os.Base.{ℕ, ◌+◌, ◌*◌, ◌-◌, ◌%◌, ◌^◌, ◌≡◌, ap, some, arith}
use amog_os.Base.Int.{pos}
use amog_os.Disk.{Ports, disk_stream_read}
use amog_os.Disk.Sectors.{IsDrive}
use amog_os.Disk.Read.{filled, disk_stream_read_lem}

abbrev content : ℕ → ℕ
content j = j % 251

abbrev drive : Ports → ℕ → ℕ
drive p i = content (
    (p.lba_low + p.lba_mid * 2 ^ 8 + p.lba_high * 2 ^ 16 + (p.drive_head - 0xE0) * 2 ^ 24) * 512
    + i)

drive-IsDrive : IsDrive drive content
unfolding IsDrive
drive-IsDrive p top i head lt in_sector =
    let e : p.drive_head - 0xE0 ≡ top = omega (arith, head) in
    ap (λ t. content ((p.lba_low + p.lba_mid * 2 ^ 8 + p.lba_high * 2 ^ 16 + t * 2 ^ 24) * 512 + i))
      e

disk_stream_read_lem_example :
    disk_stream_read drive (record { disk = 0; byte_offset = 505 }) 0 1000 (λ j. 0)
    ≡ some (record {
      ret = pos 0;
      stream = record { disk = 0; byte_offset = 1505 };
      out = filled content 505 0 1000 (λ j. 0);
    })
disk_stream_read_lem_example =
    disk_stream_read_lem drive content drive-IsDrive 505 0 1000 (λ j. 0) (omega arith)

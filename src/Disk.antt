-- ===== src/Disk.antt =====
-- The disk (src/disk/disk.c) and byte streams over it (src/disk/streamer.c). The drive itself is
-- the parameter `drive`: the bytes that it transfers for the values of its registers.
pub mod Sectors
pub mod Read
mod Tests
use amog_os.Base.{
  ℕ, zero, suc, ◌+◌, ◌-◌, ◌*◌, ◌/◌, ◌%◌, ◌^◌, bit_and, bit_or, Option, none, some, Bool, true,
  false, ltb, leb, ◌==◌, ◌&&◌, if◌then◌else◌,
}
use amog_os.Base.Int.{ℤ, pos, neg, is_ok}
use amog_os.Base.Options.{◌>>=◌}
use amog_os.Base.Words.{add32}

abbrev pub sector_size : ℕ
sector_size = 512

-- The registers at the ports 0x1F2 to 0x1F6.
pub record Ports : Type 0 where
  pub count : ℕ
  pub lba_low : ℕ
  pub lba_mid : ℕ
  pub lba_high : ℕ
  pub drive_head : ℕ

-- `get_disk`: the disk, which is the only one.
unfoldable pub get_disk : ℕ → Option ℕ
get_disk index = if index == 0 then some 0 else none

-- `struct disk_stream`
pub record DiskStream : Type 0 where
  pub disk : ℕ
  pub byte_offset : ℕ

-- `disk_stream_new`
pub disk_stream_new : ℕ → Option DiskStream
disk_stream_new disk_id = do disk ← get_disk disk_id; some (record { disk = disk; byte_offset = 0 })

-- `disk_stream_seek`
unfoldable pub disk_stream_seek : DiskStream → ℕ → ℤ × DiskStream
disk_stream_seek stream byte = (pos 0, record stream { byte_offset = byte })

-- The state of the loop of `disk_stream_read`: its result, the stream and the buffer.
pub record Reading : Type 0 where
  pub ret : ℤ
  pub stream : DiskStream
  pub out : ℕ → ℕ

-- The number of bytes that a round copies.
pub to_copy : ℕ → ℕ → ℕ
to_copy byte_offset end =
    let lba_offset = byte_offset % sector_size in
    if ltb sector_size (lba_offset + (end - byte_offset))
    then sector_size - lba_offset
    else end - byte_offset

module _ (drive : Ports → ℕ → ℕ) where
  -- `disk_read_sectors` into the buffer `old`, for the disk `idisk`.
  pub disk_read_sectors : ℕ → ℕ → ℕ → (ℕ → ℕ) → ℤ × (ℕ → ℕ)
  disk_read_sectors idisk start_lba count old =
      let ports : Ports = record {
        count = count % 256;
        lba_low = bit_and start_lba 0xFF;
        lba_mid = start_lba / 2 ^ 8 % 256;
        lba_high = start_lba / 2 ^ 16 % 256;
        drive_head = bit_or (start_lba / 2 ^ 24 % 256) 0xE0;
      } in
      if idisk == 0
      then (pos 0, λ i. if ltb i (count * sector_size) then drive ports i else old i)
      else (neg 1, old)

  -- The loop of `disk_stream_read` up to the byte `end`, with the sector buffer `buf`, into memory
  -- from `out_buf`.
  pub read_sectors : ℕ → ℕ → (ℕ → ℕ) → ℕ → Reading → Option Reading
  read_sectors zero end buf out_buf r = if ltb r.stream.byte_offset end then none else some r
  read_sectors (suc fuel) end buf out_buf r =
      let at = r.stream.byte_offset in
      let n = to_copy at end in
      let (ret, buf') = disk_read_sectors r.stream.disk (at / sector_size) 1 buf in
      let copied : ℕ → ℕ = λ j.
        if leb out_buf j && ltb j (out_buf + n)
        then buf' (at % sector_size + (j - out_buf))
        else r.out j in
      let rest =
        read_sectors fuel end buf' (out_buf + n)
          (record { ret = ret; stream = record r.stream { byte_offset = at + n }; out = copied }) in
      if ltb at end then (if is_ok ret then rest else some (record r { ret = ret })) else some r

  -- `disk_stream_read` of `size` bytes to `out_buf`, with `size` rounds at most.
  pub disk_stream_read : DiskStream → ℕ → ℕ → (ℕ → ℕ) → Option Reading
  disk_stream_read stream out_buf size out =
      read_sectors size (add32 stream.byte_offset size) (λ _. 0) out_buf
        (record { ret = pos 0; stream = stream; out = out })

-- ===== src/Disk/Read.antt =====
-- A stream reads the bytes of the disk, whatever the sectors are.
use amog_os.Base.{
  ℕ, zero, suc, ◌+◌, ◌-◌, ◌*◌, ◌/◌, ◌%◌, ◌^◌, ◌<◌, ◌≤◌, ◌≡◌, ap, ◌∙◌, some, true, false, ltb, leb,
  ◌&&◌, if◌then◌else◌, arith, fun_ext, dec_lt, dec_le,
}
use amog_os.Base.Int.{pos}
use amog_os.Base.Words.{add32}
use amog_os.Disk.{
  Ports, Reading, disk_read_sectors, to_copy, read_sectors, disk_stream_read, sector_size,
}
use amog_os.Disk.Sectors.{IsDrive, sector_lem}

-- The buffer `out` with the bytes of the disk from `at` in the `n` places from `out_buf`.
abbrev pub filled : (ℕ → ℕ) → ℕ → ℕ → ℕ → (ℕ → ℕ) → ℕ → ℕ
filled content at out_buf n out j =
    if leb out_buf j && ltb j (out_buf + n) then content (at + (j - out_buf)) else out j

to_copy-bounds :
    (at end : ℕ)
    → at < end
    → (0 < to_copy at end)
      × (at + to_copy at end ≤ end)
      × (at % sector_size + to_copy at end ≤ sector_size)
unfolding to_copy
to_copy-bounds at end lt = (ground arith, ground arith, ground arith)

module _ (drive : Ports → ℕ → ℕ) (content : ℕ → ℕ) (d : IsDrive drive content) where
  filled_more :
      (at out_buf n m : ℕ) (out : ℕ → ℕ)
      → filled content (at + n) (out_buf + n) m (filled content at out_buf n out)
        ≡ filled content at out_buf (n + m) out
  filled_more at out_buf n m out = fun_ext (λ j. elim (dec_lt j (out_buf + n)) [
    | yes low ↦ ground arith
    | no high ↦
        let e : at + n + (j - (out_buf + n)) ≡ at + (j - out_buf) = omega arith in
        ground (arith, ap content e)
  ])

  -- What a round copies are the bytes of the disk.
  round-filled :
      (at out_buf n : ℕ) (buf out : ℕ → ℕ)
      → at < 2 ^ 32
      → at % sector_size + n ≤ sector_size
      → (λ j.
          if leb out_buf j && ltb j (out_buf + n)
          then (disk_read_sectors drive 0 (at / sector_size) 1 buf).1
              (at % sector_size + (j - out_buf))
          else out j)
        ≡ filled content at out_buf n out
  round-filled at out_buf n buf out lt fits = fun_ext (λ j. elim (dec_le out_buf j) [
    | no low ↦ ground arith
    | yes ge ↦ elim (dec_lt j (out_buf + n)) [
      | no high ↦ ground arith
      | yes inside ↦
          let s =
            sector_lem drive content d (at / sector_size) (at % sector_size + (j - out_buf)) buf
              (omega arith) (omega arith) in
          let e : at / sector_size * sector_size + (at % sector_size + (j - out_buf))
              ≡ at + (j - out_buf) =
            omega arith in
          ground (arith, s, ap content e)
    ]
  ])

  filled_none : (at out_buf : ℕ) (out : ℕ → ℕ) → filled content at out_buf 0 out ≡ out
  filled_none at out_buf out = fun_ext (λ j. ground arith)

  abbrev reading : ℕ → (ℕ → ℕ) → Reading
  reading at out = record { ret = pos 0; stream = record { disk = 0; byte_offset = at }; out = out }

  finished :
      (at end out_buf : ℕ) (out : ℕ → ℕ)
      → at ≡ end
      → reading at out ≡ reading end (filled content at out_buf (end - at) out)
  finished at end out_buf out e =
      let z : end - at ≡ 0 = omega arith in
      rw z (rw (filled_none at out_buf out) (ap (λ a. reading a out) e))

  read_sectors_lem :
      (fuel at end out_buf : ℕ) (buf out : ℕ → ℕ)
      → at ≤ end
      → end ≤ at + fuel
      → end < 2 ^ 32
      → read_sectors drive fuel end buf out_buf (reading at out)
        ≡ some (reading end (filled content at out_buf (end - at) out))
  unfolding read_sectors disk_read_sectors
  read_sectors_lem zero at end out_buf buf out le enough lt =
      let f : ltb at end ≡ false = ground arith in
      rw f (ap some (finished at end out_buf out (omega arith)))
  read_sectors_lem (suc fuel) at end out_buf buf out le enough lt = elim (dec_lt at end) [
    | no stop ↦
        let f : ltb at end ≡ false = ground arith in
        rw f (ap some (finished at end out_buf out (omega arith)))
    | yes more ↦
        let t : ltb at end ≡ true = ground arith in
        let n = to_copy at end in
        let (some_more, fits, in_sector) = to_copy-bounds at end more in
        let copied = round-filled at out_buf n buf out (omega arith) in_sector in
        let rest =
          read_sectors_lem fuel (at + n) end (out_buf + n)
            (disk_read_sectors drive 0 (at / sector_size) 1 buf).1 (filled content at out_buf n out)
            fits (omega arith) lt in
        let whole = filled_more at out_buf n (end - (at + n)) out in
        let m : n + (end - (at + n)) ≡ end - at = omega arith in
        rw t (
          ap
            (λ o.
              read_sectors drive fuel end (disk_read_sectors drive 0 (at / sector_size) 1 buf).1
                (out_buf + n) (reading (at + n) o))
            copied
          ∙ (rest
              ∙ ap (λ o. some (reading end o))
                  (whole ∙ ap (λ k. filled content at out_buf k out) m)))
  ]

  -- On a drive that holds the bytes `content`, a stream of the disk at `at` that reads `size` bytes
  -- to `out_buf`, the end below 2 ^ 32, ends with success after no more than `size` rounds, leaves
  -- the stream behind what it read, puts exactly these bytes of the disk in the buffer, and
  -- changes nothing outside of it, whatever sectors the bytes lie in.
  pub disk_stream_read_lem :
      (at out_buf size : ℕ) (out : ℕ → ℕ)
      → at + size < 2 ^ 32
      → disk_stream_read drive (record { disk = 0; byte_offset = at }) out_buf size out
        ≡ some (record {
          ret = pos 0;
          stream = record { disk = 0; byte_offset = at + size };
          out = filled content at out_buf size out;
        })
  unfolding disk_stream_read
  disk_stream_read_lem at out_buf size out lt =
      let e : add32 at size ≡ at + size = omega arith in
      let n : at + size - at ≡ size = omega arith in
      rw e (
        read_sectors_lem size at (at + size) out_buf (λ _. 0) out (omega arith) (omega arith) lt
        ∙ ap (λ k. some (reading (at + size) (filled content at out_buf k out))) n)

-- ===== src/Fat16/Chain.antt =====
-- The chain of clusters in the file allocation table.
use amog_os.Base.{
  ℕ, zero, suc, ◌+◌, ◌-◌, ◌*◌, ◌/◌, ◌^◌, ◌<◌, ◌≡◌, refl, ap, ◌∙◌, some, true, false, ltb, arith,
}
use native.Mathlib.Nat.{add-div_right}
use amog_os.Base.Int.{ℤ, pos}
use amog_os.Base.Words.{add32, sub32, mul32}
use amog_os.Disk.{Ports, disk_stream_seek, sector_size}
use amog_os.Disk.Sectors.{IsDrive}
use amog_os.Disk.Read.{disk_stream_read_lem}
use amog_os.Fat16.{
  Fat16Private, signed32, word_of, no_cluster, bytes_per_cluster, int_rounds, fat16_get_fat_entry,
  next_clusters, fat16_get_cluster_at_byte_offset_from_start,
}

-- The place of a cluster's entry, and the word of four bytes that the code reads there.
unfoldable pub entry_at : Fat16Private → ℕ → ℕ
entry_at private c = private.reserved_sectors * sector_size + c * 2

unfoldable pub fat_word : (ℕ → ℕ) → Fat16Private → ℕ → ℕ
unfolding entry_at
fat_word content private c = word_of (λ i. content (entry_at private c + i))

-- The entry of a cluster: two bytes, the lower one first.
unfoldable pub fat_entry : (ℕ → ℕ) → Fat16Private → ℕ → ℕ
unfolding entry_at
fat_entry content private c =
    content (entry_at private c) + content (entry_at private c + 1) * 2 ^ 8

-- The table is below 2 ^ 32 and leads from cluster `c` to `c'` in `n` links, none of them an end
-- mark, and behind the entry of each link is one of a free cluster.
unfoldable pub Chain : (ℕ → ℕ) → Fat16Private → ℕ → ℕ → ℕ → Type 0
Chain content private zero c c' = c ≡ c'
Chain content private (suc n) c c' =
    let next = fat_entry content private c in
    (entry_at private c + 4 < 2 ^ 32)
    × (next < 2 ^ 16)
    × (content (entry_at private c + 2) ≡ 0)
    × (content (entry_at private c + 3) ≡ 0)
    × (no_cluster (pos next) ≡ false)
    × Chain content private n next c'

-- The file system with its streams at these places of the disk.
abbrev pub placed : Fat16Private → ℕ → ℕ → Fat16Private
placed private at fat = record private {
  cluster_stream = record { disk = 0; byte_offset = at };
  fat16_read_stream = record { disk = 0; byte_offset = fat };
}

module _ (drive : Ports → ℕ → ℕ) (content : ℕ → ℕ) (d : IsDrive drive content) where
  get_fat_entry_lem :
      (private : Fat16Private) (at fat c : ℕ)
      → entry_at private c + 4 < 2 ^ 32
      → fat_word content private c < 2 ^ 31
      → fat16_get_fat_entry drive (placed private at fat) c
        ≡ some (pos (fat_word content private c), placed private at (entry_at private c + 4))
  unfolding fat16_get_fat_entry entry_at fat_word signed32 disk_stream_seek word_of
  get_fat_entry_lem private at fat c low int =
      let place : add32 (private.reserved_sectors * sector_size) (mul32 c 2)
          ≡ private.reserved_sectors * sector_size + c * 2 =
        omega arith in
      let r =
        disk_stream_read_lem drive content d (private.reserved_sectors * sector_size + c * 2) 0 4
          (λ _. 0) low in
      let t : ltb (fat_word content private c) (2 ^ 31) ≡ true = ground arith in
      let s : signed32 (fat_word content private c) ≡ pos (fat_word content private c) =
        rw t refl in
      rw place (rw r (ap (λ (w : ℤ). some (w, placed private at (entry_at private c + 4))) s))

  -- What is read behind the entry adds nothing.
  fat_word-fat_entry :
      (private : Fat16Private) (c : ℕ)
      → content (entry_at private c + 2) ≡ 0
      → content (entry_at private c + 3) ≡ 0
      → fat_word content private c ≡ fat_entry content private c
  unfolding fat_word fat_entry entry_at word_of
  fat_word-fat_entry private c e₂ e₃ =
      let z : content (private.reserved_sectors * sector_size + c * 2 + 0)
          ≡ content (private.reserved_sectors * sector_size + c * 2) =
        ap content (omega arith) in
      rw (e₂, e₃, z) (omega arith)

  next_clusters_lem :
      (n : ℕ) (private : Fat16Private) (at fat c c' : ℕ)
      → Chain content private n c c'
      → (fat' : ℕ) × (next_clusters drive n c (placed private at fat)
          ≡ some (pos c', placed private at fat'))
  unfolding Chain next_clusters
  next_clusters_lem zero private at fat c c' chain =
      (fat, ap (λ e. some (pos e, placed private at fat)) chain)
  next_clusters_lem (suc n) private at fat c c' chain =
      let (fat', rest) =
        next_clusters_lem n private at (entry_at private c + 4) (fat_entry content private c) c'
          chain.5 in
      let w = fat_word-fat_entry private c chain.2 chain.3 in
      let read = get_fat_entry_lem private at fat c chain.0 (omega (arith, w, chain.1)) in
      (
        fat',
        rw (read ∙ ap (λ (v : ℕ). some (pos v, placed private at (entry_at private c + 4))) w)
            (rw chain.4 rest),
      )

  -- The cluster in which the byte `offset` of a file lies.
  pub fat16_get_cluster_lem :
      (private : Fat16Private) (at fat c c' offset : ℕ)
      → 0 < private.sectors_per_cluster
      → offset + private.sectors_per_cluster * sector_size < 2 ^ 31
      → Chain content private (offset / (private.sectors_per_cluster * sector_size)) c c'
      → (fat' : ℕ) × (fat16_get_cluster_at_byte_offset_from_start drive
            (placed private at fat)
            c
            offset
          ≡ some (pos c', placed private at fat'))
  unfolding fat16_get_cluster_at_byte_offset_from_start bytes_per_cluster int_rounds
  fat16_get_cluster_lem private at fat c c' offset some_sectors int chain =
      let size = private.sectors_per_cluster * sector_size in
      let (fat', e) = next_clusters_lem (offset / size) private at fat c c' chain in
      let sum : sub32 (add32 (add32 offset 1) size) 1 ≡ offset + size = omega (arith, int) in
      let small : ltb (offset + size) (2 ^ 31) ≡ true = ground (arith, int) in
      let rounds : (offset + size) / size - 1 ≡ offset / size =
        omega (arith, add-div_right offset {k = size} (omega arith)) in
      (fat', rw sum (rw small (rw rounds e)))

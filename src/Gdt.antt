-- ===== src/Gdt.antt =====
-- Segment descriptors (src/gdt/gdt.c): the eight bytes that the processor reads.
pub mod Encode
mod Tests
use amog_os.Base.{
  ℕ, ◌/◌, bit_and, bit_or, Option, none, some, Bool, not, ◌&&◌, ltb, ◌==◌, if◌then◌else◌, List, [],
  ◌∷◌, ◌++◌, ◌^◌,
}
use amog_os.Base.Options.{◌>>=◌}

-- `struct gdt_structured`
pub record GdtStructured : Type 0 where
  pub base : ℕ
  pub limit : ℕ
  pub type : ℕ

-- The bytes 6 and the limit that is encoded, for either granularity.
pub high_flags : ℕ → ℕ × ℕ
high_flags limit = if ltb 65536 limit then (0xC0, limit / 2 ^ 12) else (0x40, limit)

-- `encodeGdtEntry`: the eight bytes at `target`; none where the kernel panics.
pub encode_gdt_entry : GdtStructured → Option (List ℕ)
encode_gdt_entry source =
    let (flags, limit) = high_flags source.limit in
    if ltb 65536 source.limit && not (bit_and source.limit 0xFFF == 0xFFF)
    then none
    else some (
        bit_and limit 0xFF
        ∷ bit_and (limit / 2 ^ 8) 0xFF
        ∷ bit_and source.base 0xFF
        ∷ bit_and (source.base / 2 ^ 8) 0xFF
        ∷ bit_and (source.base / 2 ^ 16) 0xFF
        ∷ source.type
        ∷ bit_or flags (bit_and (limit / 2 ^ 16) 0x0F)
        ∷ bit_and (source.base / 2 ^ 24) 0xFF
        ∷ [])

-- `gdt_structured_to_gdt`: the bytes of all entries in order.
pub gdt_structured_to_gdt : List GdtStructured → Option (List ℕ)
gdt_structured_to_gdt [] = some []
gdt_structured_to_gdt (source ∷ sources) = do
  bytes ← encode_gdt_entry source
  rest ← gdt_structured_to_gdt sources
  some (bytes ++ rest)

-- ===== src/Gdt/Encode.antt =====
-- What the processor reads in the bytes of a descriptor.
use amog_os.Base.{
  ℕ, ◌+◌, ◌*◌, ◌/◌, ◌%◌, ◌^◌, ◌<◌, ◌≡◌, refl, ap, bit_and, bit_or, Option, none, some, true, false,
  ltb, leb, ◌==◌, if◌then◌else◌, List, [], ◌∷◌, arith, dec_lt, zero, suc, length, ◌++◌, take, drop,
}
use amog_os.Base.Options.{◌>>=◌}
use amog_os.Base.Bits.{bit_and_255, bit_and_15, bit_or_16, bit_and_4095}
use amog_os.Gdt.{gdt_structured_to_gdt, GdtStructured, encode_gdt_entry, high_flags}

-- The descriptor in eight bytes: the limit counts pages where the granularity bit, the highest of
-- byte 6, is set, and the low twelve bits of the limit are then one.
pub decode : List ℕ → Option GdtStructured
decode (b0 ∷ b1 ∷ b2 ∷ b3 ∷ b4 ∷ b5 ∷ b6 ∷ b7 ∷ []) =
    let limit = b0 + b1 * 2 ^ 8 + b6 % 16 * 2 ^ 16 in
    some (record {
      base = b2 + b3 * 2 ^ 8 + b4 * 2 ^ 16 + b7 * 2 ^ 24;
      limit = if leb 128 b6 then limit * 4096 + 4095 else limit;
      type = b5;
    })
decode bytes = none

-- What a panic does not rule out.
pub record IsValid (s : GdtStructured) : Type 0 where
  pub base : s.base < 2 ^ 32
  pub limit : s.limit < 2 ^ 32
  pub pages : 65536 < s.limit → s.limit % 4096 ≡ 4095

base-bytes :
    (base : ℕ)
    → base < 2 ^ 32
    → bit_and base 0xFF
        + bit_and (base / 2 ^ 8) 0xFF * 2 ^ 8
        + bit_and (base / 2 ^ 16) 0xFF * 2 ^ 16
        + bit_and (base / 2 ^ 24) 0xFF * 2 ^ 24
      ≡ base
base-bytes base h = omega (
  arith,
  bit_and_255 base,
  bit_and_255 (base / 2 ^ 8),
  bit_and_255 (base / 2 ^ 16),
  bit_and_255 (base / 2 ^ 24),
)

limit-bytes :
    (limit h : ℕ)
    → limit < 2 ^ 20
    → bit_and limit 0xFF
        + bit_and (limit / 2 ^ 8) 0xFF * 2 ^ 8
        + bit_or (h * 16) (bit_and (limit / 2 ^ 16) 0x0F) % 16 * 2 ^ 16
      ≡ limit
limit-bytes limit h lt = omega (
  arith,
  bit_and_255 limit,
  bit_and_255 (limit / 2 ^ 8),
  bit_and_15 (limit / 2 ^ 16),
  bit_or_16 h (bit_and (limit / 2 ^ 16) 0x0F) (omega (arith, bit_and_15 (limit / 2 ^ 16))),
)

flags-bytes : (limit h : ℕ) → bit_or (h * 16) (bit_and (limit / 2 ^ 16) 0x0F) / 16 ≡ h
flags-bytes limit h = omega (
  arith,
  bit_and_15 (limit / 2 ^ 16),
  bit_or_16 h (bit_and (limit / 2 ^ 16) 0x0F) (omega (arith, bit_and_15 (limit / 2 ^ 16))),
)

descriptor_ext :
    (s : GdtStructured) (base limit : ℕ)
    → base ≡ s.base
    → limit ≡ s.limit
    → some (record { base = base; limit = limit; type = s.type }) ≡ some s
descriptor_ext s base limit p q = rw p (rw q refl)

pub decode-encode :
    (s : GdtStructured) → IsValid s → (do bytes ← encode_gdt_entry s; decode bytes) ≡ some s
unfolding encode_gdt_entry decode high_flags
decode-encode s v = elim (dec_lt 65536 s.limit) [
  | yes big ↦
      let t : ltb 65536 s.limit ≡ true = ground arith in
      let m : (bit_and s.limit 0xFFF == 0xFFF) ≡ true =
        ground (arith, bit_and_4095 s.limit, v.pages big) in
      let f = flags-bytes (s.limit / 2 ^ 12) 12 in
      let h : leb 128 (bit_or 0xC0 (bit_and (s.limit / 2 ^ 12 / 2 ^ 16) 0x0F)) ≡ true =
        ground (arith, f) in
      let l = limit-bytes (s.limit / 2 ^ 12) 12 (omega (arith, v.limit)) in
      rw t (
        rw m
          (rw h (descriptor_ext s _ _ (base-bytes s.base v.base) (omega (arith, l, v.pages big)))))
  | no small ↦
      let t : ltb 65536 s.limit ≡ false = ground arith in
      let f = flags-bytes s.limit 4 in
      let h : leb 128 (bit_or 0x40 (bit_and (s.limit / 2 ^ 16) 0x0F)) ≡ false = ground (arith, f) in
      rw t (
        rw h
          (descriptor_ext s _ _ (base-bytes s.base v.base) (limit-bytes s.limit 4 (omega arith))))
]

-- The descriptors in a table, eight bytes each, with fuel for their number.
pub decode_table : ℕ → List ℕ → Option (List GdtStructured)
decode_table zero bytes = some []
decode_table (suc count) bytes = do
  s ← decode (take 8 bytes)
  rest ← decode_table count (drop 8 bytes)
  some (s ∷ rest)

take-append : (n : ℕ) (xs ys : List ℕ) → length xs ≡ n → take n (xs ++ ys) ≡ xs
take-append zero [] ys e = refl
take-append (suc n) [] ys e = absurd (omega (arith, e))
take-append zero (x ∷ xs) ys e = absurd (omega (arith, e))
take-append (suc n) (x ∷ xs) ys e = ap (λ l. x ∷ l) (take-append n xs ys (omega (arith, e)))

drop-append : (n : ℕ) (xs ys : List ℕ) → length xs ≡ n → drop n (xs ++ ys) ≡ ys
drop-append zero [] ys e = refl
drop-append (suc n) [] ys e = absurd (omega (arith, e))
drop-append zero (x ∷ xs) ys e = absurd (omega (arith, e))
drop-append (suc n) (x ∷ xs) ys e = drop-append n xs ys (omega (arith, e))

encode-length :
    (s : GdtStructured) (bytes : List ℕ) → encode_gdt_entry s ≡ some bytes → length bytes ≡ 8
unfolding encode_gdt_entry
encode-length s bytes e = ground (arith, e)

-- One more descriptor in front of a table.
decode-append :
    (s : GdtStructured) (sources : List GdtStructured) (entry table : Option (List ℕ)) (n : ℕ)
    → ((bytes : List ℕ) → entry ≡ some bytes → length bytes ≡ 8)
    → entry >>= decode ≡ some s
    → table >>= decode_table n ≡ some sources
    → (do
      bytes ← (do bytes ← entry; rest ← table; some (bytes ++ rest))
      decode_table (suc n) bytes)
      ≡ some (s ∷ sources)
unfolding decode_table
decode-append s sources none table n eight e e' = absurd (ground (arith, e))
decode-append s sources (some bytes) none n eight e e' = absurd (ground (arith, e'))
decode-append s sources (some bytes) (some rest) n eight e e' =
    let l = eight bytes refl in
    rw (take-append 8 bytes rest l) (rw (drop-append 8 bytes rest l) (rw e (rw e' refl)))

unfoldable pub AllValid : List GdtStructured → Type 0
AllValid [] = Unit
AllValid (s ∷ sources) = IsValid s × AllValid sources

-- A table whose descriptors fit is encoded without a panic, and the processor reads in it the
-- descriptors that went in, in order.
pub decode-gdt_structured_to_gdt :
    (sources : List GdtStructured)
    → AllValid sources
    → (do bytes ← gdt_structured_to_gdt sources; decode_table (length sources) bytes) ≡ some sources
unfolding gdt_structured_to_gdt decode_table AllValid
decode-gdt_structured_to_gdt [] v = refl
decode-gdt_structured_to_gdt (s ∷ sources) v =
    decode-append s sources (encode_gdt_entry s) (gdt_structured_to_gdt sources) (length sources)
      (encode-length s) (decode-encode s v.0) (decode-gdt_structured_to_gdt sources v.1)

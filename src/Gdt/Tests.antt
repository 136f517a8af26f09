-- ===== src/Gdt/Tests.antt =====
-- The kernel's code segment.
use amog_os.Base.{◌≡◌, refl, [], ◌∷◌, some, length, arith}
use amog_os.Base.Options.{◌>>=◌}
use amog_os.Gdt.{GdtStructured, gdt_structured_to_gdt}
use amog_os.Gdt.Encode.{decode_table, AllValid, decode-gdt_structured_to_gdt}

abbrev kernel_code : GdtStructured
kernel_code = record { base = 0; limit = 0xFFFFFFFF; type = 0x9A }

abbrev task_segment : GdtStructured
task_segment = record { base = 0x12345678; limit = 104; type = 0xE9 }

segments-AllValid : AllValid (kernel_code ∷ task_segment ∷ [])
unfolding AllValid
segments-AllValid = (
  record { base = omega arith; limit = omega arith; pages = λ _. refl },
  (
    record { base = omega arith; limit = omega arith; pages = λ big. absurd (omega (arith, big)) },
    tt,
  ),
)

decode-gdt_structured_to_gdt_example :
    (do
      bytes ← gdt_structured_to_gdt (kernel_code ∷ task_segment ∷ [])
      decode_table (length (kernel_code ∷ task_segment ∷ [])) bytes)
    ≡ some (kernel_code ∷ task_segment ∷ [])
decode-gdt_structured_to_gdt_example =
    decode-gdt_structured_to_gdt (kernel_code ∷ task_segment ∷ []) segments-AllValid

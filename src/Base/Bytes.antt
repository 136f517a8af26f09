-- ===== src/Base/Bytes.antt =====
-- Little-endian words of four bytes in memory.
use Prim.Native.Nat.{ℕ, ◌+◌, ◌*◌, ◌/◌, ◌%◌, ◌^◌, ◌<◌, ◌≤◌}
use mathlib.Core.Path.{◌≡◌, refl}
use mathlib.Core.Logic.{◌⊎◌, inl, inr}
use native.Mathlib.Omega.{arith}
use amog_os.Base.Memory.{update}

unfoldable pub read_word : (ℕ → ℕ) → ℕ → ℕ
read_word mem a = mem a + mem (a + 1) * 2 ^ 8 + mem (a + 2) * 2 ^ 16 + mem (a + 3) * 2 ^ 24

unfoldable pub write_word : (ℕ → ℕ) → ℕ → ℕ → ℕ → ℕ
write_word mem a v =
    update
      (update (update (update mem a (v % 256)) (a + 1) (v / 256 % 256)) (a + 2) (v / 65536 % 256))
      (a + 3) (v / 16777216 % 256)

pub write_word-frame :
    (mem : ℕ → ℕ) (a v j : ℕ) → (j < a) ⊎ (a + 4 ≤ j) → write_word mem a v j ≡ mem j
unfolding write_word
write_word-frame mem a v j (inl lt) = ground (arith, lt)
write_word-frame mem a v j (inr ge) = ground (arith, ge)

-- Memory that agrees on the bytes of a word holds the same word.
pub read_word-cong :
    (mem mem' : ℕ → ℕ) (a : ℕ)
    → ((j : ℕ) → a ≤ j → j < a + 4 → mem' j ≡ mem j)
    → read_word mem' a ≡ read_word mem a
unfolding read_word
read_word-cong mem mem' a same = rw (same a (omega arith) (omega arith)) (
    rw (same (a + 1) (omega arith) (omega arith)) (
      rw (same (a + 2) (omega arith) (omega arith))
        (rw (same (a + 3) (omega arith) (omega arith)) refl)))

bytes_of_word :
    (v : ℕ)
    → v < 2 ^ 32
    → v % 256 + v / 256 % 256 * 2 ^ 8 + v / 65536 % 256 * 2 ^ 16 + v / 16777216 % 256 * 2 ^ 24 ≡ v
bytes_of_word v lt = omega (arith, lt)

pub read_word-write_word :
    (mem : ℕ → ℕ) (a v : ℕ) → v < 2 ^ 32 → read_word (write_word mem a v) a ≡ v
unfolding read_word write_word
read_word-write_word mem a v lt =
    let e₀ : write_word mem a v a ≡ v % 256 = ground arith in
    let e₁ : write_word mem a v (a + 1) ≡ v / 256 % 256 = ground arith in
    let e₂ : write_word mem a v (a + 2) ≡ v / 65536 % 256 = ground arith in
    let e₃ : write_word mem a v (a + 3) ≡ v / 16777216 % 256 = ground arith in
    omega (arith, e₀, e₁, e₂, e₃, bytes_of_word v lt)

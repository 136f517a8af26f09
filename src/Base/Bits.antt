-- ===== src/Base/Bits.antt =====
-- Laws of `&` and `|` at variables, from the digit recursion that the native operations stand for.
use Prim.Native.Nat.{ℕ, zero, suc, ◌+◌, ◌*◌, ◌/◌, ◌%◌, ◌^◌, ◌≤◌, ◌<◌, min, max}
use Prim.Native.Nat.{bit_and, bit_or, digits, bit_and-bitwise, bit_or-bitwise}
use mathlib.Core.Path.{◌≡◌, refl, sym, ap, ◌∙◌}
use native.Mathlib.Omega.{arith}

-- The recursion over the digits of the first number, whatever it does with two digits (`op`) and
-- with what is left of the second number (`left`).
module _ (left : ℕ → ℕ) (op : ℕ → ℕ → ℕ) where
  no_digits : (fuel y : ℕ) → digits left op fuel 0 y ≡ left y
  no_digits zero y = refl
  no_digits (suc fuel) y = refl

  fuel_free :
      (x y fuel other : ℕ)
      → x ≤ fuel
      → x ≤ other
      → digits left op fuel x y ≡ digits left op other x y
  fuel_free zero y fuel other le le' = no_digits fuel y ∙ sym (no_digits other y)
  fuel_free (suc x) y zero other le le' = absurd (omega arith)
  fuel_free (suc x) y (suc fuel) zero le le' = absurd (omega arith)
  fuel_free (suc x) y (suc fuel) (suc other) le le' =
      let deeper = fuel_free (suc x / 2) (y / 2) fuel other (omega arith) (omega arith) in
      omega (arith, deeper)

  -- One step, with the number itself for the fuel.
  digits_step :
      (x y : ℕ)
      → digits left op (suc x) (suc x) y
        ≡ digits left op (suc x / 2) (suc x / 2) (y / 2) * 2 + op (suc x % 2) (y % 2)
  digits_step x y =
      let deeper = fuel_free (suc x / 2) (y / 2) x (suc x / 2) (omega arith) (omega arith) in
      omega (arith, deeper)

nothing-bit_and : (y : ℕ) → bit_and 0 y ≡ 0
nothing-bit_and y = bit_and-bitwise 0 y

pub nothing-bit_or : (y : ℕ) → bit_or 0 y ≡ y
nothing-bit_or y = bit_or-bitwise 0 y

pub bit_and_step : (x y : ℕ) → bit_and x y ≡ bit_and (x / 2) (y / 2) * 2 + min (x % 2) (y % 2)
bit_and_step zero y = omega (arith, nothing-bit_and y, nothing-bit_and (y / 2))
bit_and_step (suc x) y =
    let here = bit_and-bitwise (suc x) y in
    let below = bit_and-bitwise (suc x / 2) (y / 2) in
    omega (arith, here, digits_step (λ _. 0) min x y, below)

pub bit_or_step : (x y : ℕ) → bit_or x y ≡ bit_or (x / 2) (y / 2) * 2 + max (x % 2) (y % 2)
bit_or_step zero y = omega (arith, nothing-bit_or y, nothing-bit_or (y / 2))
bit_or_step (suc x) y =
    let here = bit_or-bitwise (suc x) y in
    let below = bit_or-bitwise (suc x / 2) (y / 2) in
    omega (arith, here, digits_step (λ z. z) max x y, below)

-- A function that halves its argument and keeps the low digit is the identity, and one that drops
-- it is zero: both are proved for all numbers up to a bound.
below_and : (bound x : ℕ) → x ≤ bound → bit_and x 0 ≡ 0
below_and zero x le = let z : x ≡ 0 = omega arith in rw z (nothing-bit_and 0)
below_and (suc bound) zero le = nothing-bit_and 0
below_and (suc bound) (suc x) le =
    omega (arith, bit_and_step (suc x) 0, below_and bound (suc x / 2) (omega arith))

below_or : (bound x : ℕ) → x ≤ bound → bit_or x 0 ≡ x
below_or zero x le = let z : x ≡ 0 = omega arith in rw z (nothing-bit_or 0)
below_or (suc bound) zero le = nothing-bit_or 0
below_or (suc bound) (suc x) le =
    omega (arith, bit_or_step (suc x) 0, below_or bound (suc x / 2) (omega arith))

pub bit_and-zero : (x : ℕ) → bit_and x 0 ≡ 0
bit_and-zero x = below_and x x (omega arith)

pub bit_or-zero : (x : ℕ) → bit_or x 0 ≡ x
bit_or-zero x = below_or x x (omega arith)

-- The lowest bit.
pub bit_and-one : (a : ℕ) → bit_and a 1 ≡ a % 2
bit_and-one a = omega (arith, bit_and_step a 1, bit_and-zero (a / 2))

-- `a << k | f` adds the field `f`, which is below `p`.
abbrev Joins : ℕ → Type 0
Joins p = (a f : ℕ) → f < p → bit_or (a * p) f ≡ a * p + f

Joins-one : Joins 1
Joins-one a f h = let e : f ≡ 0 = omega arith in rw e (omega (arith, bit_or-zero (a * 1)))

Joins-double : (p : ℕ) → Joins p → Joins (2 * p)
Joins-double p join a f h = omega (
  arith,
  bit_or_step (a * (2 * p)) f,
  join a (f / 2) (omega arith),
  ap (λ (n : ℕ). bit_or n (f / 2)) (half_even a p),
  half_even a p,
)
  where
    half_even : (a p : ℕ) → a * (2 * p) / 2 ≡ a * p
    half_even a p = omega arith

pub bit_or_256 : (a f : ℕ) → f < 256 → bit_or (a * 256) f ≡ a * 256 + f
bit_or_256 = let d = Joins-double in d 128 (d 64 (d 32 (d 16 (d 8 (d 4 (d 2 (d 1 Joins-one)))))))

-- Twelve bits below an aligned address.
pub bit_or_4096 : (a f : ℕ) → f < 4096 → bit_or (a * 4096) f ≡ a * 4096 + f
bit_or_4096 =
    let d = Joins-double in
    d 2048 (d 1024 (d 512 (d 256 (d 128 (d 64 (d 32 (d 16 (d 8 (d 4 (d 2 (d 1 Joins-one)))))))))))

pub bit_and_15 : (a : ℕ) → bit_and a 15 ≡ a % 16
bit_and_15 a = omega (
  arith,
  bit_and_step a 15,
  bit_and_step (a / 2) 7,
  bit_and_step (a / 2 / 2) 3,
  bit_and-one (a / 2 / 2 / 2),
)

-- A mask of which one, or four, more digits are one, or zero.
bit_and-odd : (a m : ℕ) → bit_and a (2 * m + 1) ≡ bit_and (a / 2) m * 2 + a % 2
bit_and-odd a m =
    let e : (2 * m + 1) / 2 ≡ m = omega arith in
    omega (arith, bit_and_step a (2 * m + 1), ap (bit_and (a / 2)) e)

bit_and-even : (a m : ℕ) → bit_and a (2 * m) ≡ bit_and (a / 2) m * 2
bit_and-even a m =
    let e : 2 * m / 2 ≡ m = omega arith in
    omega (arith, bit_and_step a (2 * m), ap (bit_and (a / 2)) e)

quarter : (a : ℕ) → a / 2 / 2 / 2 / 2 ≡ a / 16
quarter a = omega arith

bit_and_four : (a m : ℕ) → bit_and a (m * 16 + 15) ≡ bit_and (a / 16) m * 16 + a % 16
bit_and_four a m =
    let e : m * 16 + 15 ≡ 2 * (2 * (2 * (2 * m + 1) + 1) + 1) + 1 = omega arith in
    omega (
      arith,
      ap (bit_and a) e,
      bit_and-odd a (2 * (2 * (2 * m + 1) + 1) + 1),
      bit_and-odd (a / 2) (2 * (2 * m + 1) + 1),
      bit_and-odd (a / 2 / 2) (2 * m + 1),
      bit_and-odd (a / 2 / 2 / 2) m,
      ap (λ (n : ℕ). bit_and n m) (quarter a),
    )

pub bit_or_16 : (a f : ℕ) → f < 16 → bit_or (a * 16) f ≡ a * 16 + f
bit_or_16 = let d = Joins-double in d 8 (d 4 (d 2 (d 1 Joins-one)))

pub bit_and_255 : (a : ℕ) → bit_and a 255 ≡ a % 256
bit_and_255 a = omega (arith, bit_and_four a 15, bit_and_15 (a / 16))

pub bit_and_65535 : (a : ℕ) → bit_and a 0xFFFF ≡ a % 65536
bit_and_65535 a =
    omega (arith, bit_and_four a 0xFFF, bit_and_four (a / 16) 0xFF, bit_and_255 (a / 16 / 16))

pub bit_and_4095 : (a : ℕ) → bit_and a 4095 ≡ a % 4096
bit_and_4095 a =
    omega (arith, bit_and_four a 255, bit_and_four (a / 16) 15, bit_and_15 (a / 16 / 16))

bit_and_ones : (a : ℕ) → bit_and a 0xFFFFF ≡ a % 2 ^ 20
bit_and_ones a =
    omega (arith, bit_and_four a 0xFFFF, bit_and_four (a / 16) 0xFFF, bit_and_4095 (a / 16 / 16))

bit_and_zeros : (a m : ℕ) → bit_and a (m * 16) ≡ bit_and (a / 16) m * 16
bit_and_zeros a m =
    let e : m * 16 ≡ 2 * (2 * (2 * (2 * m))) = omega arith in
    omega (
      arith,
      ap (bit_and a) e,
      bit_and-even a (2 * (2 * (2 * m))),
      bit_and-even (a / 2) (2 * (2 * m)),
      bit_and-even (a / 2 / 2) (2 * m),
      bit_and-even (a / 2 / 2 / 2) m,
      ap (λ (n : ℕ). bit_and n m) (quarter a),
    )

pub bit_and-frame_mask : (w : ℕ) → w < 2 ^ 32 → bit_and w 0xFFFFF000 ≡ w / 4096 * 4096
bit_and-frame_mask w h = omega (
  arith,
  bit_and_zeros w 0xFFFFF00,
  bit_and_zeros (w / 16) 0xFFFFF0,
  bit_and_zeros (w / 16 / 16) 0xFFFFF,
  bit_and_ones (w / 16 / 16 / 16),
)

pub bit_and-high_half : (w : ℕ) → w < 2 ^ 32 → bit_and w 0xFFFF0000 ≡ w / 65536 * 65536
bit_and-high_half w h = omega (
  arith,
  bit_and_zeros w 0xFFFF000,
  bit_and_zeros (w / 16) 0xFFFF00,
  bit_and_zeros (w / 16 / 16) 0xFFFF0,
  bit_and_zeros (w / 16 / 16 / 16) 0xFFFF,
  bit_and_65535 (w / 16 / 16 / 16 / 16),
)

-- Four bits below the bits 0xE0.
pub bit_or-below_E0 : (f : ℕ) → f < 16 → bit_or f 0xE0 ≡ 0xE0 + f
bit_or-below_E0 f h =
    let e : f / 2 / 2 / 2 / 2 ≡ 0 = omega arith in
    omega (
      arith,
      bit_or_step f 0xE0,
      bit_or_step (f / 2) 0x70,
      bit_or_step (f / 2 / 2) 0x38,
      bit_or_step (f / 2 / 2 / 2) 0x1C,
      ap (λ (n : ℕ). bit_or n 0xE) e,
      nothing-bit_or 0xE,
    )

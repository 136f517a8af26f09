-- ===== src/UserLib/Number.antt =====
-- `itoa`, `atoi` and `ptr_to_str` of programs/stdlib/src/stdlib.c. Buffers are functions from the
-- index to the byte.
pub mod Digits
use amog_os.Base.{
  ℕ, zero, suc, ◌+◌, ◌-◌, ◌*◌, ◌/◌, ◌%◌, Option, none, some, Bool, true, false, ltb, leb, ◌==◌,
  ◌||◌, if◌then◌else◌,
}
use amog_os.Base.Int.{ℤ, pos, negsuc, neg, is_neg, pos_part, neg_part, signed8, ◌+ℤ◌, ◌-ℤ◌, ◌*ℤ◌}
use amog_os.Base.Options.{◌>>=◌}
use amog_os.Base.Memory.{update}

abbrev pub max_digits : ℕ
max_digits = 13

-- `while (cx > 0) { num_digits++; cx /= base; }`
pub count_digits : ℕ → ℕ → ℕ → Option ℕ
count_digits base zero cx = none
count_digits base (suc fuel) cx =
    let rest = (do n ← count_digits base fuel (cx / base); some (n + 1)) in
    if cx == 0 then some 0 else rest

-- The loop of `itoa` that writes `n` digits of `value`, the lowest first, from `i` on.
pub put_digits : ℕ → ℕ → ℕ → (ℕ → ℕ) → ℕ → ℕ
put_digits zero i value buf = buf
put_digits (suc n) i value buf =
    put_digits n (i + 1) (value / 10) (update buf i (b'0' + value % 10))

-- The loop that copies `n` digits from `buf` to `idx` on, the last first, and the NUL behind.
pub copy_back : ℕ → (ℕ → ℕ) → ℕ → (ℕ → ℕ) → ℕ → ℕ
copy_back zero buf idx buffer = update buffer idx 0
copy_back (suc n) buf idx buffer = copy_back n buf (idx + 1) (update buffer idx (buf n))

-- `itoa`, where `stack` is what the array `buf` holds before.
unfoldable pub itoa : ℕ → ℤ → (ℕ → ℕ) → (ℕ → ℕ) → Option (ℕ → ℕ)
itoa fuel value stack buffer =
    let idx = (if is_neg value then 1 else 0) in
    let buffer₁ = (if is_neg value then update buffer 0 b'-' else buffer) in
    let magnitude = pos_part value + neg_part value in
    do
      num_digits ← count_digits 10 fuel magnitude
      some (
          if num_digits == 0
          then update (update buffer₁ idx b'0') (idx + 1) 0
          else copy_back num_digits (put_digits num_digits 0 magnitude stack) idx buffer₁)

-- The loop of `atoi` from `idx` on, `left` characters at most.
pub atoi_from : ℕ → (ℕ → ℕ) → ℕ → ℤ → ℤ
atoi_from zero buffer idx res = res
atoi_from (suc left) buffer idx res =
    let rest =
      atoi_from left buffer (idx + 1) (res *ℤ pos 10 +ℤ (signed8 (buffer idx) -ℤ pos b'0')) in
    if buffer idx == 0 then res else rest

pub atoi : (ℕ → ℕ) → ℤ
atoi buffer =
    if buffer 0 == b'-'
    then atoi_from max_digits (λ i. buffer (1 + i)) 0 (pos 0) *ℤ neg 1
    else atoi_from max_digits buffer 0 (pos 0)

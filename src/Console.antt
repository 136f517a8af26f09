-- ===== src/Console.antt =====
-- The text console: src/console/console.c. The video memory is a function from the index of a
-- character cell; nothing in the code keeps the index within the screen.
pub mod Page
pub mod Print
pub mod Digits
pub mod Clear
mod Tests
use amog_os.Base.{
  ℕ, zero, suc, ◌+◌, ◌-◌, ◌*◌, ◌/◌, ◌%◌, ◌^◌, Bool, true, false, ◌&&◌, Option, none, some, ltb,
  ◌==◌, bit_or, if◌then◌else◌,
}
use amog_os.Base.Int.{ℤ, pos, negsuc, is_neg}
use amog_os.Base.Memory.{update}
use amog_os.Base.Options.{◌>>=◌}
use amog_os.CString.{Str}
use amog_os.UserLib.Number.{count_digits, put_digits}

abbrev pub vga_width : ℕ
vga_width = 80

abbrev pub vga_height : ℕ
vga_height = 20

-- The globals. `curr_x` and `curr_y` are of 16 bits.
pub record Console : Type 0 where
  pub video_mem : ℕ → ℕ
  pub curr_x : ℕ
  pub curr_y : ℕ

-- The `char` `c` is signed: from 128 on its upper bits are ones, and hide the color.
pub make_char : ℕ → ℕ → ℕ
make_char c color =
    let bits = (if ltb c 128 then c else c + 0xFF00) in bit_or (color * 256) bits % 65536

pub console_put_char : ℕ → ℕ → ℕ → ℕ → Console → Console
console_put_char x y c color s = record s {
  video_mem = update s.video_mem (y * vga_width + x) (make_char c color);
}

pub console_backspace : Console → Console
console_backspace s =
    if s.curr_x == 0 && s.curr_y == 0
    then s
    else if s.curr_x == 0
    then console_put_char (vga_width - 1) (s.curr_y - 1) b' ' 0
        (record s { curr_x = vga_width - 1; curr_y = s.curr_y - 1 })
    else console_put_char (s.curr_x - 1) s.curr_y b' ' 0 (record s { curr_x = s.curr_x - 1 })

-- The end of `console_write_char`: the cursor goes to the right, or to the next line.
pub advance : Console → Console
advance s =
    if (s.curr_x + 1) % 2 ^ 16 == vga_width
    then record s { curr_x = 0; curr_y = (s.curr_y + 1) % 2 ^ 16 }
    else record s { curr_x = (s.curr_x + 1) % 2 ^ 16 }

pub console_write_char : ℕ → ℕ → Console → Console
console_write_char c color s =
    if c == b'\n'
    then record s { curr_x = 0; curr_y = (s.curr_y + 1) % 2 ^ 16 }
    else if c == 0x08
    then console_backspace s
    else advance (console_put_char s.curr_x s.curr_y c color s)

-- `while (*c)`, from the index `i` on.
pub print_from : ℕ → Str → ℕ → Console → Option Console
print_from zero str i s = none
print_from (suc fuel) str i s =
    let rest = print_from fuel str (i + 1) (console_write_char (str i) 15 s) in
    if str i == 0 then some s else rest

pub print : ℕ → Str → Console → Option Console
print fuel str s = print_from fuel str 0 s

-- The rounds are `n - i`.
printn_from : ℕ → Str → ℕ → Console → Console
printn_from zero str i s = s
printn_from (suc rounds) str i s =
    let rest = printn_from rounds str (i + 1) (console_write_char (str i) 15 s) in
    if str i == 0 then s else rest

pub printn : Str → ℕ → Console → Console
unfolding printn_from
printn str n s = printn_from n str 0 s

pub print_char : ℕ → Console → Console
print_char c s = console_write_char c 15 s

pub println : ℕ → Str → Console → Option Console
println fuel str s = do s' ← print fuel str s; print fuel (λ i. if i == 0 then b'\n' else 0) s'

-- `if (x < 0)`: what the loops find in `x` behind it. `-x` of the least `int` is again the least
-- one, in which `x > 0` finds no digit.
pub magnitude : ℤ → ℕ
magnitude (pos n) = n
magnitude (negsuc n) = if suc n == 2 ^ 31 then 0 else suc n

-- The last loop of `print_int`, for `n` digits.
pub write_digits : ℕ → (ℕ → ℕ) → Console → Console
write_digits zero buf s = s
write_digits (suc n) buf s = write_digits n buf (console_write_char (buf n) 15 s)

-- `print_int`, where `stack` is what the array `buf` holds before. Its loops for the number of
-- digits and for the digits are those of `itoa`.
pub print_int : ℕ → ℤ → (ℕ → ℕ) → Console → Option Console
print_int fuel x stack s = do
  s' ← (if is_neg x then print fuel (λ i. if i == 0 then b'-' else 0) s else some s)
  num_digits ← count_digits 10 fuel (magnitude x)
  (if num_digits == 0
      then print fuel (λ i. if i == 0 then b'0' else 0) s'
      else some (write_digits num_digits (put_digits num_digits 0 (magnitude x) stack) s'))

-- The loop over the columns of the line `y`, and the one over the lines from `y` on.
pub clear_line : ℕ → ℕ → ℕ → (ℕ → ℕ) → ℕ → ℕ
clear_line zero x y mem = mem
clear_line (suc left) x y mem =
    clear_line left (x + 1) y (update mem (vga_width * y + x) (make_char b' ' 0))

pub clear_lines : ℕ → ℕ → (ℕ → ℕ) → ℕ → ℕ
clear_lines zero y mem = mem
clear_lines (suc left) y mem = clear_lines left (y + 1) (clear_line vga_width 0 y mem)

-- It leaves the cursor where it is: at 0 when the kernel starts.
pub console_init : Console → Console
console_init s = record s { video_mem = clear_lines vga_height 0 s.video_mem }

pub clear_screen : Console → Console
clear_screen s = record { video_mem = clear_lines vga_height 0 s.video_mem; curr_x = 0; curr_y = 0 }

-- ===== src/Console/Tests.antt =====
-- A short string near the end of a line, and a negative number.
use amog_os.Base.{ℕ, ◌<◌, ◌≡◌, ◌≢◌, refl, some, [], ◌∷◌, arith, get_or, zero, suc}
use amog_os.Base.Int.{negsuc}
use amog_os.CString.{Str}
use amog_os.CString.Length.{HasLength}
use amog_os.UserLib.Number.{itoa}
use amog_os.Console.{
  Console, vga_width, print, print_int, console_backspace, print_char, console_write_char, advance,
  console_put_char,
}
use amog_os.Console.Page.{page_of, type_from}
use amog_os.Console.Print.{Shows, print-type_from, print-Shows}
use amog_os.Console.Digits.{print-itoa}

abbrev sus : Str
sus = λ i. get_or (b's' ∷ b'u' ∷ b's' ∷ []) i 0

-- The second line, two columns before its end.
abbrev screen : Console
screen = record { video_mem = λ j. 0; curr_x = 78; curr_y = 1 }

sus-HasLength : HasLength sus 3
sus-HasLength = record { ends = refl; within = inside }
  where
    inside : (k : ℕ) → k < 3 → sus k ≢ 0
    inside zero h e = omega arith
    inside (suc zero) h e = omega arith
    inside (suc (suc zero)) h e = omega arith
    inside (suc (suc (suc k))) h e = omega arith

plain : (k : ℕ) → k < 3 → (sus k < 128) × (sus k ≢ b'\n') × (sus k ≢ 0x08)
plain zero h = (omega arith, λ e. omega arith, λ e. omega arith)
plain (suc zero) h = (omega arith, λ e. omega arith, λ e. omega arith)
plain (suc (suc zero)) h = (omega arith, λ e. omega arith, λ e. omega arith)
plain (suc (suc (suc k))) h = absurd (omega arith)

print-type_from_example :
    (s' : Console) × (print 4 sus screen ≡ some s')
    × (page_of s' ≡ type_from 3 sus 0 (page_of screen))
    × (s'.curr_x < vga_width)
print-type_from_example =
    print-type_from sus 3 4 screen sus-HasLength (λ k lt. (plain k lt).0) (omega arith)
      (omega arith) (omega arith)

print-Shows_example :
    (s' : Console) × (print 4 sus screen ≡ some s') × Shows sus 3 0 (page_of screen) (page_of s')
print-Shows_example =
    print-Shows sus 3 4 screen sus-HasLength plain (omega arith) (omega arith) (omega arith)

print-itoa_example :
    (text : Str) × (s' : Console) × (itoa 12 (negsuc 41) (λ i. 0) (λ i. 1) ≡ some text)
    × (print 12 text screen ≡ some s')
    × (print_int 12 (negsuc 41) (λ i. 0) screen ≡ some s')
print-itoa_example = print-itoa (negsuc 41) 12 (λ i. 0) (λ i. 1) screen (omega arith) (omega arith)

-- A backspace takes back the last character of a line, from the start of the next one.
over_the_edge : (console_backspace (print_char b'a' (record screen { curr_x = 79 }))).curr_x ≡ 79
unfolding console_backspace print_char console_write_char advance console_put_char
over_the_edge = refl

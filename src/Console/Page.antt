-- ===== src/Console/Page.antt =====
-- The console as a page of cells with one position, and what a text does to it.
use amog_os.Base.{
  ℕ, zero, suc, ◌+◌, ◌-◌, ◌*◌, ◌/◌, ◌%◌, ◌^◌, ◌<◌, ◌≤◌, ◌≡◌, ◌≢◌, refl, true, false, ltb, ◌==◌,
  if◌then◌else◌, arith, ℕ_discrete,
}
use amog_os.Base.Bits.{bit_or_256}
use amog_os.Base.Memory.{update}
use amog_os.CString.{Str}
use amog_os.Console.{
  Console, vga_width, make_char, console_put_char, console_backspace, advance, console_write_char,
}

-- The cells, line by line, and the cell where the next character goes.
pub record Page : Type 0 where
  pub cells : ℕ → ℕ
  pub place : ℕ

abbrev pub page_of : Console → Page
page_of s = record { cells = s.video_mem; place = s.curr_y * vga_width + s.curr_x }

-- White on black.
abbrev pub glyph : ℕ → ℕ
glyph c = 15 * 256 + c

abbrev pub blank : ℕ
blank = b' '

-- One character: a line break goes to the start of the next line, a backspace takes the last cell
-- back, and any other character is written.
abbrev pub type_char : ℕ → Page → Page
type_char c p =
    if c == b'\n'
    then record p { place = (p.place / vga_width + 1) * vga_width }
    else if c == 0x08
    then if p.place == 0
      then p
      else record { cells = update p.cells (p.place - 1) blank; place = p.place - 1 }
    else record { cells = update p.cells p.place (glyph c); place = p.place + 1 }

-- The characters of `str` from `i` on, `n` of them.
abbrev pub type_from : ℕ → Str → ℕ → Page → Page
type_from zero str i p = p
type_from (suc n) str i p = type_from n str (i + 1) (type_char (str i) p)

make_char-white : (c : ℕ) → c < 128 → make_char c 15 ≡ glyph c
unfolding make_char
make_char-white c lt =
    let t : ltb c 128 ≡ true = ground (arith, lt) in
    rw t (omega (arith, bit_or_256 15 c (omega arith)))

pub make_char-black : make_char b' ' 0 ≡ blank
unfolding make_char
make_char-black = refl

-- What one character keeps: the page follows the specification, the cursor stays within a line, and
-- it goes down by one line at most.
pub record Follows (c : ℕ) (s s' : Console) : Type 0 where
  pub page : page_of s' ≡ type_char c (page_of s)
  pub column : s'.curr_x < vga_width
  pub line : s'.curr_y ≤ s.curr_y + 1

-- One cell is written, and the position is the one behind or before.
write_cell :
    (mem : ℕ → ℕ) (i j v w p q : ℕ)
    → i ≡ j
    → v ≡ w
    → p ≡ q
    → Path Page
        (record { cells = update mem i v; place = p })
        (record { cells = update mem j w; place = q })
write_cell mem i j v w p q e f g = rw e (rw f (rw g refl))

backspace-Follows : (s : Console) → s.curr_x < vga_width → Follows 0x08 s (console_backspace s)
unfolding console_backspace console_put_char
backspace-Follows s lt = elim (ℕ_discrete s.curr_x 0) [
  | yes x ↦
      let x' : (s.curr_x == 0) ≡ true = ground (arith, x) in
      elim (ℕ_discrete s.curr_y 0) [
        | yes y ↦
            let y' : (s.curr_y == 0) ≡ true = ground (arith, y) in
            let start : (s.curr_y * vga_width + s.curr_x == 0) ≡ true = ground (arith, x, y) in
            rw x' (rw y' (record { page = rw start refl; column = lt; line = omega arith }))
        | no y ↦
            let y' : (s.curr_y == 0) ≡ false = ground (arith, y) in
            let start : (s.curr_y * vga_width + s.curr_x == 0) ≡ false = ground (arith, y) in
            rw x' (
              rw y' (record {
                page = rw start (
                    write_cell s.video_mem ((s.curr_y - 1) * vga_width + (vga_width - 1))
                      (s.curr_y * vga_width + s.curr_x - 1) (make_char b' ' 0) blank
                      ((s.curr_y - 1) * vga_width + (vga_width - 1))
                      (s.curr_y * vga_width + s.curr_x - 1) (omega (arith, x, y)) make_char-black
                      (omega (arith, x, y)));
                column = omega arith;
                line = omega arith;
              }))
      ]
  | no x ↦
      let x' : (s.curr_x == 0) ≡ false = ground (arith, x) in
      let start : (s.curr_y * vga_width + s.curr_x == 0) ≡ false = ground (arith, x) in
      rw x' (record {
        page = rw start (
            write_cell s.video_mem (s.curr_y * vga_width + (s.curr_x - 1))
              (s.curr_y * vga_width + s.curr_x - 1) (make_char b' ' 0) blank
              (s.curr_y * vga_width + (s.curr_x - 1)) (s.curr_y * vga_width + s.curr_x - 1)
              (omega (arith, x)) make_char-black (omega (arith, x)));
        column = omega (arith, lt);
        line = omega arith;
      })
]

advance-Follows :
    (c : ℕ) (s : Console)
    → c < 128
    → c ≢ b'\n'
    → c ≢ 0x08
    → s.curr_x < vga_width
    → s.curr_y + 1 < 2 ^ 16
    → Follows c s (advance (console_put_char s.curr_x s.curr_y c 15 s))
unfolding advance console_put_char
advance-Follows c s ascii nl bs lt y =
    let nl' : (c == b'\n') ≡ false = ground (arith, nl) in
    let bs' : (c == 0x08) ≡ false = ground (arith, bs) in
    let here = s.curr_y * vga_width + s.curr_x in
    elim (ℕ_discrete (s.curr_x + 1) vga_width) [
      | yes e ↦
          let e' : ((s.curr_x + 1) % 2 ^ 16 == vga_width) ≡ true = ground (arith, e) in
          rw e' (record {
            page = rw nl' (
                rw bs' (
                  write_cell s.video_mem here here (make_char c 15) (glyph c)
                    ((s.curr_y + 1) % 2 ^ 16 * vga_width + 0) (here + 1) refl
                    (make_char-white c ascii) (omega (arith, e, y))));
            column = omega arith;
            line = omega arith;
          })
      | no e ↦
          let e' : ((s.curr_x + 1) % 2 ^ 16 == vga_width) ≡ false = ground (arith, e, lt) in
          rw e' (record {
            page = rw nl' (
                rw bs' (
                  write_cell s.video_mem here here (make_char c 15) (glyph c)
                    (s.curr_y * vga_width + (s.curr_x + 1) % 2 ^ 16) (here + 1) refl
                    (make_char-white c ascii) (omega (arith, e, lt))));
            column = omega (arith, e, lt);
            line = omega arith;
          })
    ]

pub write_char-Follows :
    (c : ℕ) (s : Console)
    → c < 128
    → s.curr_x < vga_width
    → s.curr_y + 1 < 2 ^ 16
    → Follows c s (console_write_char c 15 s)
unfolding console_write_char
write_char-Follows c s ascii lt y = elim (ℕ_discrete c b'\n') [
  | yes e ↦
      let e' : (c == b'\n') ≡ true = ground (arith, e) in
      let next : (s.curr_y + 1) % 2 ^ 16 * vga_width + 0
          ≡ ((s.curr_y * vga_width + s.curr_x) / vga_width + 1) * vga_width =
        omega (arith, lt, y) in
      rw e' (record { page = rw e' (rw next refl); column = omega arith; line = omega arith })
  | no nl ↦ elim (ℕ_discrete c 0x08) [
    | yes e ↦ rw e (backspace-Follows s lt)
    | no bs ↦
        let nl' : (c == b'\n') ≡ false = ground (arith, nl) in
        let bs' : (c == 0x08) ≡ false = ground (arith, bs) in
        rw nl' (rw bs' (advance-Follows c s ascii nl bs lt y))
  ]
]

-- ===== src/Keyboard.antt =====
-- The keyboard: src/dev/keyboard.c with the ring of `struct process`, and src/dev/ps2.c.
pub mod Fifo
mod Tests
use amog_os.Base.{
  ℕ, ◌+◌, ◌%◌, Bool, true, false, ◌&&◌, List, [], ◌∷◌, Option, none, some, leb, ltb, ◌==◌, bit_and,
  if◌then◌else◌, get_or, length,
}
use amog_os.Base.Memory.{update}

abbrev pub buffer_size : ℕ
buffer_size = 1024

-- `struct keyboard_buffer` of a process.
pub record Buffer : Type 0 where
  pub buf : ℕ → ℕ
  pub head : ℕ
  pub tail : ℕ

-- `keyboard_push` for a process that is there. Nothing tests whether the ring is full.
pub keyboard_push : ℕ → Buffer → Buffer
keyboard_push c k =
    if c == 0
    then k
    else record k { buf = update k.buf k.tail c; tail = (k.tail + 1) % buffer_size }

-- `keyboard_pop`: the character, 0 for none. The byte that is read stays in the ring.
pub keyboard_pop : Buffer → ℕ × Buffer
keyboard_pop k =
    if k.buf k.head == 0
    then (0, k)
    else (k.buf k.head, record k { head = (k.head + 1) % buffer_size })

-- `keyboard_scan_set_one`
abbrev pub scan_set_one : List ℕ
scan_set_one =
    0x00 ∷ 0x1B ∷ b'1' ∷ b'2' ∷ b'3' ∷ b'4' ∷ b'5' ∷ b'6' ∷ b'7' ∷ b'8' ∷ b'9' ∷ b'0' ∷ b'-' ∷ b'='
    ∷ 0x08 ∷ 0x09 ∷ b'Q' ∷ b'W' ∷ b'E' ∷ b'R' ∷ b'T' ∷ b'Y' ∷ b'U' ∷ b'I' ∷ b'O' ∷ b'P' ∷ b'['
    ∷ b']' ∷ 0x0d ∷ 0x00 ∷ b'A' ∷ b'S' ∷ b'D' ∷ b'F' ∷ b'G' ∷ b'H' ∷ b'J' ∷ b'K' ∷ b'L' ∷ b';'
    ∷ 0x27 ∷ b'`' ∷ 0x00 ∷ 0x5C ∷ b'Z' ∷ b'X' ∷ b'C' ∷ b'V' ∷ b'B' ∷ b'N' ∷ b'M' ∷ b',' ∷ b'.'
    ∷ b'/' ∷ 0x00 ∷ b'*' ∷ 0x00 ∷ 0x20 ∷ 0x00 ∷ 0x00 ∷ 0x00 ∷ 0x00 ∷ 0x00 ∷ 0x00 ∷ 0x00 ∷ 0x00
    ∷ 0x00 ∷ 0x00 ∷ 0x00 ∷ b'7' ∷ b'8' ∷ b'9' ∷ b'-' ∷ b'4' ∷ b'5' ∷ b'6' ∷ b'+' ∷ b'1' ∷ b'2'
    ∷ b'3' ∷ b'0' ∷ b'.' ∷ []

-- `behind` is the byte that lies behind the table; `caps` the caps lock state.
pub ps2_scancode_to_char : ℕ → Bool → ℕ → ℕ
ps2_scancode_to_char behind caps scancode =
    let c = get_or scan_set_one scancode behind in
    let lower = (c + 32) % 256 in
    if ltb (length scan_set_one) scancode
    then 0
    else if caps
    then c
    else if leb b'A' c && leb c b'Z'
    then lower
    else c

-- `keyboard_intr_handler` on the scancode that it reads: the caps lock state and the ring of the
-- current process, if there is one.
pub keyboard_intr_handler : ℕ → ℕ → Bool → Option Buffer → Bool × Option Buffer
keyboard_intr_handler behind scancode caps proc =
    let caps' = (if scancode == 0x3A then (if caps then false else true) else caps) in
    let c = ps2_scancode_to_char behind caps' scancode in
    if bit_and scancode 0x80 == 0
    then (
      caps',
      elim proc [ none ↦ none | some k ↦ some (if c == 0 then k else keyboard_push c k) ],
    )
    else (caps, proc)

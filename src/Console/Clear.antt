-- ===== src/Console/Clear.antt =====
-- What `console_init` and `clear_screen` do to the cells.
use amog_os.Base.{ℕ, zero, suc, ◌+◌, ◌*◌, ◌≡◌, refl, ◌∙◌, leb, ltb, ◌&&◌, if◌then◌else◌, arith}
use amog_os.Base.Memory.{update}
use amog_os.Console.{
  Console, vga_width, vga_height, make_char, clear_line, clear_lines, clear_screen,
}
use amog_os.Console.Page.{blank, make_char-black}

clear_line-get :
    (left x y j : ℕ) (mem : ℕ → ℕ)
    → clear_line left x y mem j
      ≡ (if leb (vga_width * y + x) j && ltb j (vga_width * y + x + left) then blank else mem j)
unfolding clear_line
clear_line-get zero x y j mem = ground arith
clear_line-get (suc left) x y j mem =
    clear_line-get left (x + 1) y j (update mem (vga_width * y + x) (make_char b' ' 0))
    ∙ ground (arith, make_char-black)

clear_lines-get :
    (left y j : ℕ) (mem : ℕ → ℕ)
    → clear_lines left y mem j
      ≡ (if leb (vga_width * y) j && ltb j (vga_width * (y + left)) then blank else mem j)
unfolding clear_lines
clear_lines-get zero y j mem = ground arith
clear_lines-get (suc left) y j mem =
    clear_lines-get left (y + 1) j (clear_line vga_width 0 y mem)
    ∙ ground (arith, clear_line-get vga_width 0 y j mem)

-- `clear_screen` makes the cells of the 20 lines of 80 columns blank, keeps the memory behind
-- them, and sets the cursor to the first one.
pub clear_screen_lem :
    (s : Console) (j : ℕ)
    → ((clear_screen s).video_mem j
        ≡ (if ltb j (vga_width * vga_height) then blank else s.video_mem j))
      × ((clear_screen s).curr_x ≡ 0)
      × ((clear_screen s).curr_y ≡ 0)
unfolding clear_screen
clear_screen_lem s j = (clear_lines-get vga_height 0 j s.video_mem ∙ ground arith, refl, refl)

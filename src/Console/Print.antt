-- ===== src/Console/Print.antt =====
-- `print`: what it does to the page, and where its text can be read.
use amog_os.Base.{
  ℕ, zero, suc, ◌+◌, ◌^◌, ◌<◌, ◌≤◌, ◌≡◌, ◌≢◌, ◌⊎◌, inl, inr, refl, sym, ap, ◌∙◌, subst, true, false,
  some, ◌==◌, arith,
}
use amog_os.Base.Memory.{update, update_self, update_ne}
use amog_os.CString.{Str}
use amog_os.CString.Length.{HasLength}
use amog_os.Console.{Console, vga_width, console_write_char, print_from, print}
use amog_os.Console.Page.{Page, page_of, glyph, type_char, type_from, write_char-Follows}

print_from-Page :
    (str : Str) (n i fuel : ℕ) (s : Console)
    → ((k : ℕ) → i ≤ k → k < i + n → (str k ≢ 0) × (str k < 128))
    → str (i + n) ≡ 0
    → n < fuel
    → s.curr_x < vga_width
    → s.curr_y + n < 2 ^ 16
    → (s' : Console) × (print_from fuel str i s ≡ some s')
      × (page_of s' ≡ type_from n str i (page_of s))
      × (s'.curr_x < vga_width)
unfolding print_from
print_from-Page str n i zero s text end lt x y = absurd (omega arith)
print_from-Page str zero i (suc fuel) s text end lt x y =
    let e : str i ≡ 0 = ap str (omega arith) ∙ end in
    let e' : (str i == 0) ≡ true = ground (arith, e) in (s, rw e' refl, refl, x)
print_from-Page str (suc n) i (suc fuel) s text end lt x y =
    let (nz, ascii) = text i (omega arith) (omega arith) in
    let f : (str i == 0) ≡ false = ground (arith, nz) in
    let here = write_char-Follows (str i) s ascii x (omega (arith, y)) in
    let (s', run, page, x') =
      print_from-Page str n (i + 1) fuel (console_write_char (str i) 15 s)
        (λ k ge lt. text k (omega arith) (omega arith)) (ap str (omega arith) ∙ end)
        (omega (arith, lt)) here.column (omega (arith, here.line, y)) in
    (s', rw f run, page ∙ ap (type_from n str (i + 1)) here.page, x')

-- For a string of `n` characters of ASCII, more fuel than `n`, the cursor within a line and no
-- overflow of its line number: `print` ends, the page that it leaves is the one that typing
-- the characters one after another gives, line breaks and backspaces included, and the
-- cursor is within a line again.
pub print-type_from :
    (str : Str) (n fuel : ℕ) (s : Console)
    → HasLength str n
    → ((k : ℕ) → k < n → str k < 128)
    → n < fuel
    → s.curr_x < vga_width
    → s.curr_y + n < 2 ^ 16
    → (s' : Console) × (print fuel str s ≡ some s')
      × (page_of s' ≡ type_from n str 0 (page_of s))
      × (s'.curr_x < vga_width)
unfolding print
print-type_from str n fuel s h ascii lt x y =
    print_from-Page str n 0 fuel s (λ k ge lt. (h.within k (omega arith), ascii k (omega arith)))
      (ap str (omega arith) ∙ h.ends) lt x y

-- On the page `r`, the text of `n` characters from `i` on stands from the position of `p` on, and
-- the rest is as in `p`.
pub record Shows (str : Str) (n i : ℕ) (p r : Page) : Type 0 where
  pub moved : r.place ≡ p.place + n
  pub reads : (k : ℕ) → k < n → r.cells (p.place + k) ≡ glyph (str (i + k))
  pub rest : (j : ℕ) → (j < p.place) ⊎ (p.place + n ≤ j) → r.cells j ≡ p.cells j

type_char-plain :
    (c : ℕ) (p : Page)
    → c ≢ b'\n'
    → c ≢ 0x08
    → type_char c p ≡ record { cells = update p.cells p.place (glyph c); place = p.place + 1 }
type_char-plain c p nl bs =
    let nl' : (c == b'\n') ≡ false = ground (arith, nl) in
    let bs' : (c == 0x08) ≡ false = ground (arith, bs) in rw nl' (rw bs' refl)

Shows-suc :
    (str : Str) (n i : ℕ) (p r : Page)
    → Shows str n
        (i + 1)
        (record { cells = update p.cells p.place (glyph (str i)); place = p.place + 1 })
        r
    → Shows str (suc n) i p r
Shows-suc str n i p r h = record {
  moved = omega (arith, h.moved);
  reads = first;
  rest = λ j out.
      h.rest j (elim out [ inl x ↦ inl (omega arith) | inr x ↦ inr (omega arith) ])
      ∙ update_ne p.cells p.place j (glyph (str i)) (λ e. elim out [
        | inl x ↦ absurd (omega (arith, x, e))
        | inr x ↦ absurd (omega (arith, x, e))
      ]);
}
  where
    first : (k : ℕ) → k < suc n → r.cells (p.place + k) ≡ glyph (str (i + k))
    first zero lt =
        ap r.cells (omega arith)
        ∙ h.rest p.place (inl (omega arith))
        ∙ update_self p.cells p.place (glyph (str i))
        ∙ ap (λ k. glyph (str k)) (omega arith)
    first (suc k) lt =
        ap r.cells (omega arith) ∙ h.reads k (omega arith) ∙ ap (λ k. glyph (str k)) (omega arith)

type_from-Shows :
    (str : Str) (n i : ℕ) (p : Page)
    → ((k : ℕ) → i ≤ k → k < i + n → (str k ≢ b'\n') × (str k ≢ 0x08))
    → Shows str n i p (type_from n str i p)
type_from-Shows str zero i p plain = record {
  moved = omega arith;
  reads = λ k lt. absurd (omega arith);
  rest = λ j out. refl;
}
type_from-Shows str (suc n) i p plain =
    let (nl, bs) = plain i (omega arith) (omega arith) in
    Shows-suc str n i p (type_from n str (i + 1) (type_char (str i) p)) (
      subst (λ (q : Page). Shows str n (i + 1) q (type_from n str (i + 1) (type_char (str i) p)))
        (type_char-plain (str i) p nl bs)
        (type_from-Shows str n (i + 1) (type_char (str i) p)
          (λ k ge lt. plain k (omega arith) (omega arith))))

-- As above, for a string without line breaks and backspaces: `print` ends, the string can be read
-- from the cell of the cursor on in white on black, line after line, each other cell is as before,
-- and the cursor is behind the string.
pub print-Shows :
    (str : Str) (n fuel : ℕ) (s : Console)
    → HasLength str n
    → ((k : ℕ) → k < n → (str k < 128) × (str k ≢ b'\n') × (str k ≢ 0x08))
    → n < fuel
    → s.curr_x < vga_width
    → s.curr_y + n < 2 ^ 16
    → (s' : Console) × (print fuel str s ≡ some s') × Shows str n 0 (page_of s) (page_of s')
print-Shows str n fuel s h plain lt x y =
    let (s', run, page, x') = print-type_from str n fuel s h (λ k lt. (plain k lt).0) lt x y in
    (
      s',
      run,
      subst (Shows str n 0 (page_of s)) (sym page) (
          type_from-Shows str n 0 (page_of s)
            (λ k ge lt. ((plain k (omega arith)).1, (plain k (omega arith)).2))),
    )

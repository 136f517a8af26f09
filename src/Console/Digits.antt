-- ===== src/Console/Digits.antt =====
-- `print_int` against `itoa`: both show the same characters.
use amog_os.Base.{
  ℕ, zero, suc, ◌+◌, ◌-◌, ◌^◌, ◌<◌, ◌≤◌, ◌≡◌, ◌≢◌, refl, ap, ◌∙◌, true, false, some, ◌==◌,
  if◌then◌else◌, arith, ℕ_discrete,
}
use amog_os.Base.Int.{ℤ, pos, negsuc, pos_part, neg_part}
use amog_os.Base.Memory.{update}
use amog_os.CString.{Str}
use amog_os.UserLib.Number.{put_digits, copy_back, itoa}
use amog_os.UserLib.Number.Digits.{below, text_of, put_digits-get, copy_back-get, count_digits_lem}
use amog_os.Console.{
  Console, console_write_char, print_from, print, magnitude, write_digits, print_int,
}

-- A text of `n` characters that stand in `buf` in the opposite order.
write_digits-print :
    (n i fuel : ℕ) (buf text : ℕ → ℕ) (s : Console)
    → ((k : ℕ) → k < n → text (i + k) ≡ buf (n - 1 - k))
    → ((k : ℕ) → k < n → buf k ≢ 0)
    → text (i + n) ≡ 0
    → n < fuel
    → print_from fuel text i s ≡ some (write_digits n buf s)
unfolding print_from write_digits
write_digits-print n i zero buf text s same nz end lt = absurd (omega arith)
write_digits-print zero i (suc fuel) buf text s same nz end lt =
    let e : text i ≡ 0 = ap text (omega arith) ∙ end in
    let e' : (text i == 0) ≡ true = ground (arith, e) in rw e' refl
write_digits-print (suc n) i (suc fuel) buf text s same nz end lt =
    let e : text i ≡ buf n = ap text (omega arith) ∙ same 0 (omega arith) ∙ ap buf (omega arith) in
    let f : (text i == 0) ≡ false = ground (arith, e, nz n (omega arith)) in
    rw f (
      write_digits-print n (i + 1) fuel buf text (console_write_char (text i) 15 s)
        (λ k le. ap text (omega arith) ∙ same (k + 1) (omega arith) ∙ ap buf (omega arith))
        (λ k le. nz k (omega arith)) (ap text (omega arith) ∙ end) (omega (arith, lt))
      ∙ ap (λ c. some (write_digits n buf (console_write_char c 15 s))) e)

one_char :
    (c fuel : ℕ) (s : Console)
    → c ≢ 0
    → 1 < fuel
    → print fuel (λ i. if i == 0 then c else 0) s ≡ some (console_write_char c 15 s)
unfolding print print_from
one_char c zero s nz lt = absurd (omega arith)
one_char c (suc zero) s nz lt = absurd (omega arith)
one_char c (suc (suc fuel)) s nz lt = let f : (c == 0) ≡ false = ground (arith, nz) in rw f refl

-- The number behind the sign, as `print_int` writes it.
abbrev shown : ℕ → ℕ → (ℕ → ℕ) → Console → Console
shown n v stack s =
    if n == 0 then console_write_char b'0' 15 s else write_digits n (put_digits n 0 v stack) s

text_of-print :
    (n v idx fuel : ℕ) (stack buffer : ℕ → ℕ) (s : Console)
    → n ≤ 10
    → 10 < fuel
    → print_from fuel (text_of n v idx stack buffer) idx s ≡ some (shown n v stack s)
unfolding write_digits
text_of-print zero v idx fuel stack buffer s le lt =
    write_digits-print 1 idx fuel (λ k. b'0') (text_of 0 v idx stack buffer) s (λ k l. ground arith)
      (λ k l e. omega (arith, e)) (ground arith) (omega arith)
text_of-print (suc n) v idx fuel stack buffer s le lt =
    let z : (suc n == 0) ≡ false = ground arith in
    let get = λ (j : ℕ). copy_back-get (suc n) idx j (put_digits (suc n) 0 v stack) buffer in
    rw z (
      write_digits-print (suc n) idx fuel (put_digits (suc n) 0 v stack)
        (copy_back (suc n) (put_digits (suc n) 0 v stack) idx buffer) s
        (λ k l.
          let e : put_digits (suc n) 0 v stack (idx + suc n - 1 - (idx + k))
              ≡ put_digits (suc n) 0 v stack (suc n - 1 - k) =
            ap (put_digits (suc n) 0 v stack) (omega arith) in
          ground (arith, get (idx + k), e))
        (λ k l e. absurd (ground (arith, put_digits-get (suc n) 0 v k stack, e)))
        (ground (arith, get (idx + suc n))) (omega arith))

text_of-before :
    (n v idx j : ℕ) (stack buffer : ℕ → ℕ) → j < idx → text_of n v idx stack buffer j ≡ buffer j
text_of-before n v idx j stack buffer lt =
    ground (arith, copy_back-get n idx j (put_digits n 0 v stack) buffer)

shown-print_int :
    (n fuel : ℕ) (v : ℕ) (stack : ℕ → ℕ) (s : Console)
    → 1 < fuel
    → (if n == 0
        then print fuel (λ i. if i == 0 then b'0' else 0) s
        else some (write_digits n (put_digits n 0 v stack) s))
      ≡ some (shown n v stack s)
shown-print_int n fuel v stack s lt = elim (ℕ_discrete n 0) [
  | yes e ↦
      let z : (n == 0) ≡ true = ground (arith, e) in
      rw z (one_char b'0' fuel s (λ e. omega (arith, e)) lt)
  | no e ↦ let z : (n == 0) ≡ false = ground (arith, e) in rw z refl
]

-- For any `int` but the least one and 12 units of fuel or more: `itoa` and `print_int` end, and
-- `print` of the text of `itoa` leaves the same console as `print_int`.
pub print-itoa :
    (x : ℤ) (fuel : ℕ) (stack buffer : ℕ → ℕ) (s : Console)
    → pos_part x + neg_part x < 2 ^ 31
    → 12 ≤ fuel
    → (text : Str) × (s' : Console) × (itoa fuel x stack buffer ≡ some text)
      × (print fuel text s ≡ some s')
      × (print_int fuel x stack s ≡ some s')
unfolding itoa below print print_int magnitude print_from
print-itoa (pos v) fuel stack buffer s lt enough =
    let (n, e, le, h, nz) = count_digits_lem 10 fuel v (omega arith) (omega arith) in
    let m : v + 0 ≡ v = omega arith in
    (
      text_of n v 0 stack buffer,
      shown n v stack s,
      rw m (rw e refl),
      text_of-print n v 0 fuel stack buffer s le (omega arith),
      rw e (shown-print_int n fuel v stack s (omega arith)),
    )
print-itoa (negsuc v) zero stack buffer s lt enough = absurd (omega arith)
print-itoa (negsuc v) (suc fuel) stack buffer s lt enough =
    let (n, e, le, h, nz) = count_digits_lem 10 (suc fuel) (suc v) (omega arith) (omega arith) in
    let m : 0 + suc v ≡ suc v = omega arith in
    let least : (suc v == 2 ^ 31) ≡ false = ground (arith, lt) in
    let buffer₁ = update buffer 0 b'-' in
    let text = text_of n (suc v) 1 stack buffer₁ in
    let minus : text 0 ≡ b'-' = text_of-before n (suc v) 1 0 stack buffer₁ (omega arith) in
    let s₁ = console_write_char b'-' 15 s in
    let f : (text 0 == 0) ≡ false = ground (arith, minus) in
    (
      text,
      shown n (suc v) stack s₁,
      rw m (rw e refl),
      rw f (rw minus (text_of-print n (suc v) 1 fuel stack buffer₁ s₁ le (omega arith))),
      rw (one_char b'-' (suc fuel) s (λ e. omega (arith, e)) (omega arith))
          (rw least (rw e (shown-print_int n (suc fuel) (suc v) stack s₁ (omega arith)))),
    )

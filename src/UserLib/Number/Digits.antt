-- ===== src/UserLib/Number/Digits.antt =====
-- The digits of a number, and the number that `atoi` reads from what `itoa` has written.
use amog_os.Base.{
  ℕ, zero, suc, ◌+◌, ◌-◌, ◌*◌, ◌/◌, ◌%◌, ◌^◌, ◌<◌, ◌≤◌, ◌≡◌, ◌≢◌, refl, ap, ◌∙◌, sym, some, true,
  false, ltb, leb, ◌==◌, ◌&&◌, if◌then◌else◌, arith, dec_lt, ℕ_discrete, ◌⊎◌, inl, inr,
}
use amog_os.Base.Int.{ℤ, pos, negsuc, neg, pos_part, neg_part, signed8, ◌+ℤ◌, ◌-ℤ◌, ◌*ℤ◌}
use amog_os.Base.Memory.{update, update_ne}
use amog_os.UserLib.Number.{count_digits, put_digits, copy_back, itoa, atoi_from, atoi, max_digits}

-- The number without its `m` lowest digits, and the digit `m`.
pub high : ℕ → ℕ → ℕ
high v zero = v
high v (suc m) = high (v / 10) m

pub digit : ℕ → ℕ → ℕ
unfolding high
digit v m = high v m % 10

high-suc : (v m : ℕ) → high v m ≡ high v (suc m) * 10 + digit v m
unfolding high digit
high-suc v zero = omega arith
high-suc v (suc m) = high-suc (v / 10) m

digit-zero : (v m : ℕ) → m ≡ 0 → digit v m ≡ v % 10
unfolding digit high
digit-zero v m e = rw e refl

digit-suc : (v m : ℕ) → digit (v / 10) m ≡ digit v (suc m)
unfolding digit high
digit-suc v m = refl

pub put_digits-get :
    (n i v j : ℕ) (buf : ℕ → ℕ)
    → put_digits n i v buf j ≡ (if leb i j && ltb j (i + n) then b'0' + digit v (j - i) else buf j)
unfolding put_digits
put_digits-get zero i v j buf = ground arith
put_digits-get (suc n) i v j buf =
    put_digits-get n (i + 1) (v / 10) j (update buf i (b'0' + v % 10)) ∙ elim (dec_lt i j) [
      | yes after ↦
          let e : j - i ≡ suc (j - (i + 1)) = omega arith in
          let d : digit (v / 10) (j - (i + 1)) ≡ digit v (j - i) =
            digit-suc v (j - (i + 1)) ∙ ap (digit v) (sym e) in
          ground (arith, d)
      | no before ↦ elim (ℕ_discrete i j) [
        | yes here ↦
            let e : j - i ≡ 0 = omega arith in
            let d : digit v (j - i) ≡ v % 10 = digit-zero v (j - i) e in ground (arith, d)
        | no ne ↦ ground arith
      ]
    ]

pub copy_back-get :
    (n idx j : ℕ) (buf buffer : ℕ → ℕ)
    → copy_back n buf idx buffer j ≡ (
        if leb idx j && ltb j (idx + n)
        then buf (idx + n - 1 - j)
        else if j == idx + n
        then 0
        else buffer j)
unfolding copy_back
copy_back-get zero idx j buf buffer = ground arith
copy_back-get (suc n) idx j buf buffer =
    let e : idx + 1 + n - 1 - j ≡ idx + suc n - 1 - j = omega arith in
    copy_back-get n (idx + 1) j buf (update buffer idx (buf n)) ∙ elim (ℕ_discrete idx j) [
      | yes here ↦
          let b : buf (idx + suc n - 1 - j) ≡ buf n = ap buf (omega arith) in ground (arith, b)
      | no ne ↦
          let b : buf (idx + 1 + n - 1 - j) ≡ buf (idx + suc n - 1 - j) = ap buf e in
          ground (arith, b)
    ]

-- The number of digits of a number below `10 ^ k`.
unfoldable pub below : ℕ → ℕ
below zero = 1
below (suc k) = 10 * below k

pub count_digits_lem :
    (k fuel v : ℕ)
    → v < below k
    → k < fuel
    → (n : ℕ) × (count_digits 10 fuel v ≡ some n) × (n ≤ k) × (high v n ≡ 0) × (v ≢ 0 → n ≢ 0)
unfolding count_digits high below
count_digits_lem k zero v lt enough = absurd (omega arith)
count_digits_lem zero (suc fuel) v lt enough =
    let z : (v == 0) ≡ true = ground arith in
    (0, rw z refl, omega arith, omega arith, λ nz e. nz (omega arith))
count_digits_lem (suc k) (suc fuel) v lt enough = elim (ℕ_discrete v 0) [
  | yes none_left ↦
      let z : (v == 0) ≡ true = ground arith in
      (0, rw z refl, omega arith, none_left, λ nz e. nz none_left)
  | no some_left ↦
      let z : (v == 0) ≡ false = ground arith in
      let (n, e, le, h, nz) = count_digits_lem k fuel (v / 10) (omega arith) (omega arith) in
      let one_more : n + 1 ≡ suc n = omega arith in
      (suc n, rw z (rw e (ap some one_more)), omega arith, h, λ nz' e'. absurd (omega (arith, e')))
]

digit-lt : (v m : ℕ) → digit v m < 10
unfolding digit
digit-lt v m = omega arith

accumulate :
    (r d c : ℕ)
    → c ≡ b'0' + d
    → d < 10
    → pos r *ℤ pos 10 +ℤ (signed8 c -ℤ pos b'0') ≡ pos (r * 10 + d)
accumulate r d c e lt = ground arith

-- What `atoi` makes of the last `n` digits of `v`, when it has read those before.
atoi_from_lem :
    (n left idx v : ℕ) (buffer : ℕ → ℕ)
    → ((k : ℕ) → k < n → buffer (idx + k) ≡ b'0' + digit v (n - 1 - k))
    → buffer (idx + n) ≡ 0
    → n ≤ left
    → atoi_from left buffer idx (pos (high v n)) ≡ pos v
unfolding atoi_from high
atoi_from_lem zero zero idx v buffer d z le = refl
atoi_from_lem zero (suc left) idx v buffer d z le =
    let e : buffer idx ≡ 0 = ap buffer (omega arith) ∙ z in
    let t : (buffer idx == 0) ≡ true = ground (arith, e) in rw t refl
atoi_from_lem (suc n) zero idx v buffer d z le = absurd (omega arith)
atoi_from_lem (suc n) (suc left) idx v buffer d z le =
    let low = digit-lt v n in
    let first : buffer idx ≡ b'0' + digit v n =
      ap buffer (omega arith) ∙ d 0 (omega arith) ∙ ap (λ m. b'0' + digit v m) (omega arith) in
    let f : (buffer idx == 0) ≡ false = ground (arith, first) in
    let step = accumulate (high v (suc n)) (digit v n) (buffer idx) first low in
    let rest : (k : ℕ) → k < n → buffer (idx + 1 + k) ≡ b'0' + digit v (n - 1 - k) = λ k lt.
      ap buffer (omega arith)
      ∙ d (k + 1) (omega arith)
      ∙ ap (λ m. b'0' + digit v m) (omega arith) in
    let end : buffer (idx + 1 + n) ≡ 0 = ap buffer (omega arith) ∙ z in
    rw f (
      ap (λ r. atoi_from left buffer (idx + 1) r) (step ∙ ap pos (sym (high-suc v n)))
      ∙ atoi_from_lem n left (idx + 1) v buffer rest end (omega arith))

-- The digits of `itoa` from `idx` on.
written :
    (n idx v j : ℕ) (stack buffer : ℕ → ℕ)
    → copy_back n (put_digits n 0 v stack) idx buffer j ≡ (
        if leb idx j && ltb j (idx + n)
        then b'0' + digit v (idx + n - 1 - j)
        else if j == idx + n
        then 0
        else buffer j)
written n idx v j stack buffer =
    copy_back-get n idx j (put_digits n 0 v stack) buffer ∙ elim (dec_lt j (idx + n)) [
      | yes below_end ↦ elim (dec_lt j idx) [
        | yes before ↦ ground arith
        | no from ↦
            let e : idx + n - 1 - j - 0 ≡ idx + n - 1 - j = omega arith in
            ground (arith, put_digits-get n 0 v (idx + n - 1 - j) stack, ap (digit v) e)
      ]
      | no behind ↦ ground arith
    ]

-- What `itoa` leaves for a number of `n` digits, at `idx`.
abbrev pub text_of : ℕ → ℕ → ℕ → (ℕ → ℕ) → (ℕ → ℕ) → ℕ → ℕ
text_of n v idx stack buffer =
    if n == 0
    then update (update buffer idx b'0') (idx + 1) 0
    else copy_back n (put_digits n 0 v stack) idx buffer

record IsText (v idx : ℕ) (buffer text : ℕ → ℕ) : Type 0 where
  reads : (g : ℕ → ℕ) → ((k : ℕ) → g k ≡ text (idx + k)) → atoi_from max_digits g 0 (pos 0) ≡ pos v
  unsigned : text idx ≢ b'-'
  outside : (j : ℕ) → (j < idx) ⊎ (idx + 11 ≤ j) → text j ≡ buffer j

text_of-IsText :
    (n v idx : ℕ) (stack buffer : ℕ → ℕ)
    → n ≤ 10
    → high v n ≡ 0
    → (v ≢ 0 → n ≢ 0)
    → IsText v idx buffer (text_of n v idx stack buffer)
unfolding high
text_of-IsText zero v idx stack buffer le h nz = elim (ℕ_discrete v 0) [
  | no some_left ↦ absurd (nz some_left refl)
  | yes none_left ↦ record {
    reads = λ g e.
        let first : (k : ℕ) → k < 1 → g (0 + k) ≡ b'0' + digit 0 (1 - 1 - k) = λ k lt.
          let place : 1 - 1 - k ≡ 0 = omega arith in
          ground (arith, e (0 + k), digit-zero 0 (1 - 1 - k) place) in
        let z : g (0 + 1) ≡ 0 = ground (arith, e (0 + 1)) in
        rw none_left (atoi_from_lem 1 max_digits 0 0 g first z (omega arith));
    unsigned = λ e. absurd (ground (arith, e));
    outside = λ j o. ground (arith, o);
  }
]
text_of-IsText (suc n) v idx stack buffer le h nz =
    let t = λ (j : ℕ). written (suc n) idx v j stack buffer in
    record {
      reads = λ g e.
          let d : (k : ℕ) → k < suc n → g (0 + k) ≡ b'0' + digit v (suc n - 1 - k) = λ k lt.
            let place : idx + suc n - 1 - (idx + (0 + k)) ≡ suc n - 1 - k = omega arith in
            ground (arith, e (0 + k), t (idx + (0 + k)), ap (digit v) place) in
          let z : g (0 + suc n) ≡ 0 = ground (arith, e (0 + suc n), t (idx + (0 + suc n))) in
          ap (λ r. atoi_from max_digits g 0 (pos r)) (sym h)
          ∙ atoi_from_lem (suc n) max_digits 0 v g d z (omega arith);
      unsigned = λ e. absurd (ground (arith, t idx, e));
      outside = λ j o. ground (arith, t j, o);
    }

negate : (v : ℕ) → pos (suc v) *ℤ neg 1 ≡ negsuc v
negate v = ground arith

==-false : (a b : ℕ) → a ≢ b → (a == b) ≡ false
==-false a b ne = ground (arith, ne)

-- For any `int` but the least one, with 11 units of fuel, `itoa` ends, `atoi` reads the same number
-- back from what it leaves in the buffer, and it writes to no byte of the buffer behind the first
-- 12.
pub atoi-itoa :
    (value : ℤ) (fuel : ℕ) (stack buffer : ℕ → ℕ)
    → pos_part value + neg_part value < 2 ^ 31
    → 11 ≤ fuel
    → (text : ℕ → ℕ) × (itoa fuel value stack buffer ≡ some text)
      × (atoi text ≡ value)
      × ((j : ℕ) → 12 ≤ j → text j ≡ buffer j)
unfolding itoa atoi below
atoi-itoa (pos v) fuel stack buffer lt enough =
    let (n, e, le, h, nz) = count_digits_lem 10 fuel v (omega arith) (omega arith) in
    let t = text_of-IsText n v 0 stack buffer le h nz in
    let text = text_of n v 0 stack buffer in
    let m : v + 0 ≡ v = omega arith in
    let f : (text 0 == b'-') ≡ false = ==-false (text 0) b'-' t.unsigned in
    (
      text,
      rw m (rw e refl),
      rw f (t.reads text (λ k. ap text (omega arith))),
      λ j ge. t.outside j (inr (omega arith)),
    )
atoi-itoa (negsuc v) fuel stack buffer lt enough =
    let (n, e, le, h, nz) = count_digits_lem 10 fuel (suc v) (omega arith) (omega arith) in
    let buffer₁ = update buffer 0 b'-' in
    let t = text_of-IsText n (suc v) 1 stack buffer₁ le h nz in
    let text = text_of n (suc v) 1 stack buffer₁ in
    let m : 0 + suc v ≡ suc v = omega arith in
    let minus : text 0 ≡ b'-' = t.outside 0 (inl (omega arith)) in
    let f : (text 0 == b'-') ≡ true = rw minus refl in
    (
      text,
      rw m (rw e refl),
      rw f (ap (λ r. r *ℤ neg 1) (t.reads (λ i. text (1 + i)) (λ k. refl)) ∙ negate v),
      λ j ge. t.outside j (inr (omega arith)) ∙ update_ne buffer 0 j b'-' (omega arith),
    )

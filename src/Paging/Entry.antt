-- ===== src/Paging/Entry.antt =====
-- A page table entry is a frame's address with the flags in its low bits.
use amog_os.Base.{ℕ, ◌+◌, ◌*◌, ◌/◌, ◌%◌, ◌^◌, ◌<◌, ◌≡◌, true, false, bit_or, arith, ap, ◌∙◌}
use amog_os.Base.Bits.{bit_and-one, bit_and-frame_mask, bit_or_4096, bit_and_4095}
use amog_os.Paging.{is_present, frame, is_page_aligned}

-- The word with frame address `p` and flags `f`.
pub entry-add : (p f : ℕ) → p % 4096 ≡ 0 → f < 4096 → bit_or p f ≡ p + f
entry-add p f al lt =
    let e : p ≡ p / 4096 * 4096 = omega arith in
    omega (arith, ap (λ (q : ℕ). bit_or q f) e, bit_or_4096 (p / 4096) f lt)

pub frame-le : (w : ℕ) → w < 2 ^ 32 → frame w ≡ w / 4096 * 4096
unfolding frame
frame-le w lt = bit_and-frame_mask w lt

pub frame-entry : (p f : ℕ) → p % 4096 ≡ 0 → p < 2 ^ 32 → f < 4096 → frame (bit_or p f) ≡ p
frame-entry p f al small lt =
    ap frame (entry-add p f al lt) ∙ frame-le (p + f) (omega arith) ∙ omega arith

pub is_present-odd : (w : ℕ) → w % 2 ≡ 1 → is_present w ≡ true
unfolding is_present
is_present-odd w e = ground (arith, bit_and-one w)

pub is_present-even : (w : ℕ) → w % 2 ≡ 0 → is_present w ≡ false
unfolding is_present
is_present-even w e = ground (arith, bit_and-one w)

pub is_present-entry :
    (p f : ℕ) → p % 4096 ≡ 0 → f < 4096 → f % 2 ≡ 1 → is_present (bit_or p f) ≡ true
is_present-entry p f al lt odd = is_present-odd (bit_or p f) (omega (arith, entry-add p f al lt))

pub is_page_aligned-mod : (addr : ℕ) → is_page_aligned addr ≡ true → addr % 4096 ≡ 0
unfolding is_page_aligned
is_page_aligned-mod addr e = ground (arith, bit_and_4095 addr)

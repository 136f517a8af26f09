-- ===== src/UserLib/Tests.antt =====
-- Numbers and blocks.
use amog_os.Base.{ℕ, ◌+◌, ◌≤◌, ◌≡◌, ◌≢◌, ◌^◌, some, true, List, [], ◌∷◌, arith, ◌==◌, if◌then◌else◌}
use amog_os.Base.Int.{negsuc}
use amog_os.UserLib.Number.{itoa, atoi}
use amog_os.UserLib.Number.Digits.{atoi-itoa}
use amog_os.UserLib.Malloc.{UserHeap, heap_top, malloc}
use amog_os.UserLib.Malloc.Blocks.{Reaches, start, call, IsSafe, Reaches-IsSafe, malloc_wraps}

atoi-itoa_example :
    (text : ℕ → ℕ) × (itoa 11 (negsuc 2047) (λ i. 0) (λ i. 1) ≡ some text)
    × (atoi text ≡ negsuc 2047)
    × ((j : ℕ) → 12 ≤ j → text j ≡ 1)
atoi-itoa_example = atoi-itoa (negsuc 2047) 11 (λ i. 0) (λ i. 1) (omega arith) (omega arith)

abbrev fresh : UserHeap Unit
fresh = record { heap_end = heap_top; heap_curr = heap_top; mem = λ a. 0; system = tt }

abbrev blocks : List (ℕ × ℕ)
blocks =
    if (malloc Unit (λ lo hi w. (true, w)) 100 fresh).0 == 0
    then []
    else ((malloc Unit (λ lo hi w. (true, w)) 100 fresh).0, 100) ∷ []

one_block :
    Reaches Unit (λ lo hi w. (true, w)) (malloc Unit (λ lo hi w. (true, w)) 100 fresh).1 blocks
one_block = call 100 (start (λ a. 0) tt) (omega arith)

Reaches-IsSafe_example :
    IsSafe Unit (λ lo hi w. (true, w)) (malloc Unit (λ lo hi w. (true, w)) 100 fresh).1 blocks
Reaches-IsSafe_example = Reaches-IsSafe Unit (λ lo hi w. (true, w)) one_block

request_of_3_gib :
    ((malloc Unit (λ lo hi w. (true, w)) 0xF0000000 fresh).0 ≢ 0)
    × ((malloc Unit (λ lo hi w. (true, w)) 0xF0000000 fresh).0 + 0xF0000000 ≡ 2 ^ 32 + heap_top)
    × ((malloc Unit (λ lo hi w. (true, w)) 0xF0000000 fresh).1.heap_end ≡ heap_top)
request_of_3_gib =
    malloc_wraps Unit (λ lo hi w. (true, w)) 0xF0000000 fresh (omega arith) (omega arith)
      (omega arith) (omega arith)

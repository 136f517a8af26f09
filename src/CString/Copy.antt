-- ===== src/CString/Copy.antt =====
-- What `strncpy`, `strcpy` and `memcpy` write.
use amog_os.Base.{
  ℕ, zero, suc, ◌+◌, ◌-◌, ◌<◌, ◌≤◌, ◌≡◌, refl, arith, ℕ_discrete, ◌==◌, ◌&&◌, if◌then◌else◌, some,
  ltb, leb, min, true, false,
}
use amog_os.Base.Memory.{update}
use amog_os.CString.{
  Str, strncpy, strncpy_from, strncpy_end, strcpy, strcpy_from, memcpy, memcpy_from,
}
use amog_os.CString.Length.{HasLength}

memcpy_from-get :
    (dst src : Str) (r i k : ℕ)
    → memcpy_from dst src r i k ≡ (if leb i k && ltb k (i + r) then src k else dst k)
unfolding memcpy_from
memcpy_from-get dst src zero i k = ground arith
memcpy_from-get dst src (suc r) i k = elim (ℕ_discrete i k) [
  | yes q ↦ rw (memcpy_from-get (update dst i (src i)) src r (i + 1) k, q) (ground arith)
  | no ne ↦ ground (arith, memcpy_from-get (update dst i (src i)) src r (i + 1) k)
]

-- `memcpy` copies the first `num` bytes and no other.
pub memcpy-get :
    (dst src : Str) (num k : ℕ) → memcpy dst src num k ≡ (if ltb k num then src k else dst k)
unfolding memcpy
memcpy-get dst src num k = ground (arith, memcpy_from-get dst src num 0 k)

strncpy_from-get :
    (maxlen : ℕ) (src : Str) (n r : ℕ) (dst : Str) (i k : ℕ)
    → HasLength src n
    → i + r ≡ maxlen
    → 0 < maxlen
    → i ≤ n
    → strncpy_from maxlen src r dst i k ≡ (
        if k == min n (maxlen - 1)
        then 0
        else if leb i k && ltb k (min n (maxlen - 1))
        then src k
        else dst k)
unfolding strncpy_from strncpy_end
strncpy_from-get m src n zero dst i k h e p le = ground arith
strncpy_from-get m src n (suc r) dst i k h e p le = elim (ℕ_discrete i n) [
  | yes q ↦ let z : (src i == 0) ≡ true = rw q (ground (arith, h.ends)) in rw z (ground arith)
  | no ne ↦
      let z : (src i == 0) ≡ false = ground (arith, h.within i (omega arith)) in
      rw
        (
          z,
          strncpy_from-get m src n r (update dst i (src i)) (i + 1) k h (omega arith) p
              (omega arith),
        )
        (elim (ℕ_discrete i k) [ yes q ↦ rw (← q) (ground arith) | no ne' ↦ ground arith ])
]

-- `strncpy` of a string of `n` characters copies as many of them as leave room for the NUL, puts
-- the NUL behind them, and writes no byte from `maxlen` on.
pub strncpy_lem :
    (dst src : Str) (maxlen n k : ℕ)
    → HasLength src n
    → 0 < maxlen
    → let m = min n (maxlen - 1) in
      strncpy dst src maxlen k ≡ (if k == m then 0 else if ltb k m then src k else dst k)
unfolding strncpy
strncpy_lem dst src maxlen n k h p =
    ground (arith, strncpy_from-get maxlen src n maxlen dst 0 k h (omega arith) p (omega arith))

strcpy_from-get :
    (src : Str) (n fuel : ℕ) (dst : Str) (i : ℕ)
    → HasLength src n
    → i ≤ n
    → n < i + fuel
    → (out : Str) × (strcpy_from fuel dst src i ≡ some out)
      × ((k : ℕ) → out k ≡ (if leb i k && leb k n then src k else dst k))
unfolding strcpy_from
strcpy_from-get src n zero dst i h le lt = absurd (omega arith)
strcpy_from-get src n (suc f) dst i h le lt = elim (ℕ_discrete i n) [
  | yes q ↦
      let z : (src i == 0) ≡ true = rw q (ground (arith, h.ends)) in
      rw z (
        update dst i 0,
        refl,
        λ k. elim (ℕ_discrete i k) [ yes q' ↦ rw (← q') (ground arith) | no ne ↦ ground arith ],
      )
  | no ne ↦
      let z : (src i == 0) ≡ false = ground (arith, h.within i (omega arith)) in
      let (out, runs, bytes) =
        strcpy_from-get src n f (update dst i (src i)) (i + 1) h (omega arith) (omega arith) in
      rw z (
        out,
        runs,
        λ k. elim (ℕ_discrete i k) [
          | yes q' ↦ rw (bytes k, ← q') (ground arith)
          | no ne' ↦ ground (arith, bytes k)
        ],
      )
]

-- With more fuel than the source is long, `strcpy` ends; it copies the string with its NUL, and
-- writes no byte behind.
pub strcpy_lem :
    (dst src : Str) (n fuel : ℕ)
    → HasLength src n
    → n < fuel
    → (out : Str) × (strcpy fuel dst src ≡ some out)
      × ((k : ℕ) → out k ≡ (if leb k n then src k else dst k))
unfolding strcpy
strcpy_lem dst src n fuel h lt =
    let (out, runs, bytes) = strcpy_from-get src n fuel dst 0 h (omega arith) (omega arith) in
    (out, runs, λ k. ground (arith, bytes k))

-- ===== src/CString/Length.antt =====
-- `strlen`, `strnlen` and `strnlen_terminator`.
use amog_os.Base.{
  ℕ, zero, suc, ◌+◌, ◌<◌, ◌≤◌, ◌≡◌, ◌≢◌, ◌⊎◌, inl, inr, some, arith, min, ℕ_discrete, dec_lt,
  Bool-cases, ◌==◌,
}
use amog_os.CString.{Str, strlen, strlen_from, strnlen, strnlen_from}

-- `str` is a C string of `n` characters.
pub record HasLength (str : Str) (n : ℕ) : Type 0 where
  pub ends : str n ≡ 0
  pub within : (k : ℕ) → k < n → str k ≢ 0

strlen_from-some :
    (str : Str) (fuel i n : ℕ)
    → HasLength str n
    → i ≤ n
    → n < i + fuel
    → strlen_from str fuel i ≡ some n
unfolding strlen_from
strlen_from-some str zero i n h le lt = absurd (omega arith)
strlen_from-some str (suc f) i n h le lt = elim (ℕ_discrete i n) [
  | yes e ↦ rw e (ground (arith, h.ends))
  | no ne ↦ ground (
    arith,
    h.within i (omega arith),
    strlen_from-some str f (i + 1) n h (omega arith) (omega arith),
  )
]

-- With more fuel than the string is long, `strlen` ends, and returns its length.
pub strlen_lem : (str : Str) (fuel n : ℕ) → HasLength str n → n < fuel → strlen fuel str ≡ some n
unfolding strlen
strlen_lem str fuel n h lt = strlen_from-some str fuel 0 n h (omega arith) (omega arith)

-- `m` is where a scan of the bytes from `i` to `j` stops: at a NUL or at `j`.
pub record Stops (str : Str) (i j m : ℕ) : Type 0 where
  pub from : i ≤ m
  pub upto : m ≤ j
  pub within : (k : ℕ) → i ≤ k → k < m → str k ≢ 0
  pub ends : (m ≡ j) ⊎ (str m ≡ 0)

strnlen_from-Stops : (str : Str) (r i j : ℕ) → i + r ≡ j → Stops str i j (strnlen_from str r i)
unfolding strnlen_from
strnlen_from-Stops str zero i j e = record {
  from = omega arith;
  upto = omega arith;
  within = λ k ge lt. absurd (omega arith);
  ends = inl (omega arith);
}
strnlen_from-Stops str (suc r) i j e = elim (Bool-cases (str i == 0)) [
  | inl z ↦ rw z (record {
    from = omega arith;
    upto = omega arith;
    within = λ k ge lt. absurd (omega arith);
    ends = inr (ground arith);
  })
  | inr nz ↦
      let s = strnlen_from-Stops str r (i + 1) j (omega arith) in
      rw nz (record {
        from = omega (arith, s.from);
        upto = s.upto;
        within = λ k ge lt. elim (ℕ_discrete i k) [
          | yes q ↦ rw (← q) (ground arith)
          | no ne ↦ s.within k (omega arith) lt
        ];
        ends = s.ends;
      })
]

pub strnlen-Stops : (str : Str) (maxlen : ℕ) → Stops str 0 maxlen (strnlen str maxlen)
unfolding strnlen
strnlen-Stops str maxlen = strnlen_from-Stops str maxlen 0 maxlen (omega arith)

-- `strnlen` returns the length of the string, or the limit where that is less.
pub strnlen_lem : (str : Str) (maxlen n : ℕ) → HasLength str n → strnlen str maxlen ≡ min n maxlen
strnlen_lem str maxlen n h =
    let s = strnlen-Stops str maxlen in
    let m = strnlen str maxlen in
    elim (dec_lt n m) [
      | yes lt ↦ absurd (s.within n (omega arith) lt h.ends)
      | no ge ↦ elim s.ends [
        | inl e ↦ omega arith
        | inr z ↦ elim (dec_lt m n) [
          | yes lt ↦ absurd (h.within m lt z)
          | no ge' ↦ omega (arith, s.upto)
        ]
      ]
    ]

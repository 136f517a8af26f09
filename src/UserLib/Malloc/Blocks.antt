-- ===== src/UserLib/Malloc/Blocks.antt =====
-- The blocks that a program has been given.
use amog_os.Base.{
  ℕ, ◌+◌, ◌-◌, ◌%◌, ◌^◌, ◌≤◌, ◌<◌, ◌≡◌, ◌≢◌, refl, Bool, true, false, ltb, if◌then◌else◌, List, [],
  ◌∷◌, arith, dec_lt, Bool-cases, inl, inr, ◌==◌,
}
use amog_os.Base.Words.{add32, sub32}
use amog_os.UserLib.Malloc.{UserHeap, heap_top, down_align, malloc}

-- The blocks `(p, n)` of `n` bytes at `p` follow one another upwards from `low`, each behind the 8
-- bytes of its header, up to the top of the heap.
abbrev pub Laid : ℕ → List (ℕ × ℕ) → Type 0
Laid low [] = low ≤ heap_top
Laid low ((p, n) ∷ blocks) = (low + 8 ≤ p) × Laid (p + n) blocks

module _ (W : Type 0) (mmap : ℕ → ℕ → W → Bool × W) where
  -- The address is in a range that a system call has mapped.
  pub Granted : ℕ → Type 0
  Granted addr =
      (lo : ℕ) × (hi : ℕ) × (w : W) × ((mmap lo hi w).0 ≡ true) × (lo ≤ addr) × (addr < hi)

  -- The heaps and the blocks, the last one first, after calls of `malloc` on sizes below what is
  -- left of the address space.
  pub data Reaches : UserHeap W → List (ℕ × ℕ) → Type 0 where
    start :
        (mem : ℕ → ℕ) (w : W)
        → Reaches (record { heap_end = heap_top; heap_curr = heap_top; mem = mem; system = w }) []
    call :
        {h : UserHeap W} {blocks : List (ℕ × ℕ)} (size : ℕ)
        → Reaches h blocks
        → size + 8 ≤ h.heap_end
        → Reaches (malloc W mmap size h).1 (
            if (malloc W mmap size h).0 == 0
            then blocks
            else ((malloc W mmap size h).0, size) ∷ blocks)

  pub record IsSafe (h : UserHeap W) (blocks : List (ℕ × ℕ)) : Type 0 where
    pub ordered : h.heap_end ≤ h.heap_curr
    pub aligned : h.heap_end % 4096 ≡ 0
    pub laid : Laid h.heap_curr blocks
    pub top : h.heap_curr ≤ heap_top
    pub granted : (addr : ℕ) → h.heap_end ≤ addr → addr < heap_top → Granted addr

  -- A block that is cut off below `heap_curr`, once the heap reaches down to `end`.
  taken :
      (size end : ℕ) (h : UserHeap W) (mem : ℕ → ℕ) (w : W) (blocks : List (ℕ × ℕ))
      → IsSafe h blocks
      → size + 8 ≤ h.heap_curr
      → end ≤ h.heap_curr - (size + 8)
      → end % 4096 ≡ 0
      → ((addr : ℕ) → end ≤ addr → addr < heap_top → Granted addr)
      → IsSafe
          (record { heap_end = end; heap_curr = h.heap_curr - (size + 8); mem = mem; system = w })
          ((h.heap_curr - (size + 8) + 8, size) ∷ blocks)
  taken size end h mem w blocks s room le aligned granted = record {
    ordered = le;
    aligned = aligned;
    laid = (
      omega arith,
      (let e : h.heap_curr - (size + 8) + 8 + size ≡ h.heap_curr = omega arith in rw e s.laid),
    );
    top = omega (arith, s.top);
    granted = granted;
  }

  -- A call that is refused.
  kept :
      (h : UserHeap W) (w : W) (blocks : List (ℕ × ℕ))
      → IsSafe h blocks
      → IsSafe (record h { system = w }) blocks
  kept h w blocks s = record {
    ordered = s.ordered;
    aligned = s.aligned;
    laid = s.laid;
    top = s.top;
    granted = s.granted;
  }

  call-IsSafe :
      (size : ℕ) (h : UserHeap W) (blocks : List (ℕ × ℕ))
      → size + 8 ≤ h.heap_end
      → IsSafe h blocks
      → IsSafe (malloc W mmap size h).1 (
          if (malloc W mmap size h).0 == 0
          then blocks
          else ((malloc W mmap size h).0, size) ∷ blocks)
  unfolding malloc Granted down_align
  call-IsSafe size h blocks room s =
      let a : add32 size 8 ≡ size + 8 = omega (arith, s.ordered, s.top) in
      let c : sub32 h.heap_curr (size + 8) ≡ h.heap_curr - (size + 8) =
        omega (arith, s.ordered, s.top) in
      let e : sub32 h.heap_end (size + 8) ≡ h.heap_end - (size + 8) =
        omega (arith, s.ordered, s.top) in
      let p : add32 (h.heap_curr - (size + 8)) 8 ≡ h.heap_curr - (size + 8) + 8 =
        omega (arith, s.ordered, s.top) in
      let nz : (h.heap_curr - (size + 8) + 8 == 0) ≡ false = ground arith in
      let new_end = h.heap_end - (size + 8) - (h.heap_end - (size + 8)) % 4096 in
      rw a (
        rw c (
          rw e (
            rw p (elim (Bool-cases (ltb (h.heap_curr - (size + 8)) h.heap_end)) [
              | inr fits ↦ rw fits (
                  rw nz (
                    taken size h.heap_end h _ _ blocks s (omega (arith, s.ordered))
                      (ground (arith, fits)) s.aligned s.granted))
              | inl full ↦ elim (Bool-cases (mmap new_end h.heap_end h.system).0) [
                | inr refused ↦ rw full (rw refused (kept h _ blocks s))
                | inl ok ↦ rw full (
                    rw ok (
                      rw nz (
                        taken size new_end h _ _ blocks s (omega (arith, s.ordered))
                          (omega (arith, s.ordered)) (omega arith)
                          (λ addr ge lt. elim (dec_lt addr h.heap_end) [
                            | yes low ↦ (new_end, h.heap_end, h.system, ok, ge, low)
                            | no high ↦ s.granted addr (omega arith) lt
                          ]))))
              ]
            ]))))

  -- After any calls of `malloc`, each on no more than what lies below the heap less 8 bytes,
  -- whatever of them the system call refuses: the heap is aligned and all of it, up to its top, is
  -- memory that the system call has mapped, the blocks given out lie in it one behind another, and
  -- each has the 8 bytes before it for itself.
  pub Reaches-IsSafe : {h : UserHeap W} {blocks : List (ℕ × ℕ)} → Reaches h blocks → IsSafe h blocks
  unfolding Granted
  Reaches-IsSafe (start mem w) = record {
    ordered = omega arith;
    aligned = refl;
    laid = omega arith;
    top = omega arith;
    granted = λ addr ge lt. absurd (omega arith);
  }
  Reaches-IsSafe (call {h} {blocks} size r room) = call-IsSafe size h blocks room (Reaches-IsSafe r)

  -- A request of more than all that lies below the heap, up to 2 ^ 32 - 9 bytes, is granted
  -- whatever the system call would say: the pointer is not NULL, the heap does not grow, and the
  -- block would end at `heap_curr` only after passing the end of the address space, so that it
  -- takes in all of the memory below.
  pub malloc_wraps :
      (size : ℕ) (h : UserHeap W)
      → h.heap_end ≤ h.heap_curr
      → h.heap_curr ≤ heap_top
      → h.heap_curr < size
      → size + 8 < 2 ^ 32
      → ((malloc W mmap size h).0 ≢ 0)
        × ((malloc W mmap size h).0 + size ≡ 2 ^ 32 + h.heap_curr)
        × ((malloc W mmap size h).1.heap_end ≡ h.heap_end)
  unfolding malloc
  malloc_wraps size h ordered top big word =
      let a : add32 size 8 ≡ size + 8 = omega arith in
      let c : sub32 h.heap_curr (size + 8) ≡ 2 ^ 32 + h.heap_curr - (size + 8) = omega arith in
      let p : add32 (2 ^ 32 + h.heap_curr - (size + 8)) 8 ≡ 2 ^ 32 + h.heap_curr - size =
        omega arith in
      let f : ltb (2 ^ 32 + h.heap_curr - (size + 8)) h.heap_end ≡ false = ground arith in
      rw a (rw c (rw p (rw f (omega arith, omega arith, refl))))

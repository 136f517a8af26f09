-- ===== src/Task/UserCopy.antt =====
-- The kernel's reads of user memory (src/task/task.c). Memory is by bytes.
use amog_os.Base.{
  ℕ, ◌+◌, ◌*◌, ◌^◌, ◌<◌, ◌≤◌, ◌≡◌, ◌⊎◌, inl, inr, refl, ◌∙◌, Option, some, none, ltb, ◌||◌, true,
  false, if◌then◌else◌, arith, dec_lt, ap, Bool-cases, lt→ltb, ltb→lt, ltb-false,
}
use amog_os.Base.Int.{ℤ, pos, neg}
use amog_os.Base.Bytes.{read_word}
use amog_os.Base.Options.{◌>>=◌}
use amog_os.Base.Words.{add32, mul32}
use amog_os.CString.{Str, memcpy}
use amog_os.CString.Copy.{memcpy-get}

abbrev pub kheap_safe_boundary : ℕ
kheap_safe_boundary = 0x8000000

-- `copy_data_from_user` to a buffer; none where the kernel panics.
pub copy_data_from_user : (ℕ → ℕ) → Str → ℕ → ℕ → Option (ℤ × Str)
copy_data_from_user mem dst src nbytes =
    if ltb src kheap_safe_boundary || ltb (add32 src nbytes) kheap_safe_boundary
    then none
    else some (pos 0, memcpy dst (λ k. mem (add32 src k)) nbytes)

-- `verify_user_pointer`
unfoldable pub verify_user_pointer : ℕ → ℤ
verify_user_pointer ptr = if ltb ptr kheap_safe_boundary then neg 9 else pos 0

-- `task_get_stack_item` of a task with this stack pointer; `uninit` is what `item` held before.
pub task_get_stack_item : (ℕ → ℕ) → Str → ℕ → ℕ → Option ℕ
task_get_stack_item mem uninit esp index = do
  (res, item) ← copy_data_from_user mem uninit (add32 esp (mul32 4 index)) 4
  some (read_word item 0)

-- The copy of at most KHEAP_SAFE_BOUNDARY bytes either succeeds, and then all the bytes are user
-- memory, below the end of the address space, and the buffer holds them and is otherwise as it
-- was; or the kernel panics, and then the range begins below the boundary or reaches that end.
pub copy_data_from_user_lem :
    (mem : ℕ → ℕ) (dst : Str) (src nbytes : ℕ)
    → src < 2 ^ 32
    → nbytes ≤ kheap_safe_boundary
    → ((out : Str) × (copy_data_from_user mem dst src nbytes ≡ some (pos 0, out))
        × (verify_user_pointer src ≡ pos 0)
        × (kheap_safe_boundary ≤ src)
        × (src + nbytes < 2 ^ 32)
        × ((k : ℕ) → out k ≡ (if ltb k nbytes then mem (src + k) else dst k)))
      ⊎ ((copy_data_from_user mem dst src nbytes ≡ none)
          × ((src < kheap_safe_boundary) ⊎ (2 ^ 32 ≤ src + nbytes)))
unfolding copy_data_from_user verify_user_pointer
copy_data_from_user_lem mem dst src nbytes sl nl = elim (dec_lt src kheap_safe_boundary) [
  | yes low ↦ let t : ltb src kheap_safe_boundary ≡ true = ground arith in inr (rw t refl, inl low)
  | no high ↦
      let f : ltb src kheap_safe_boundary ≡ false = ground arith in
      elim (dec_lt (src + nbytes) (2 ^ 32)) [
        | no over ↦
            let t : ltb (add32 src nbytes) kheap_safe_boundary ≡ true =
              lt→ltb (add32 src nbytes) kheap_safe_boundary (omega arith) in
            inr (rw (f, t) refl, inr (omega arith))
        | yes fits ↦
            let e : add32 src nbytes ≡ src + nbytes = omega arith in
            let f' : ltb (add32 src nbytes) kheap_safe_boundary ≡ false =
              ltb-false (add32 src nbytes) kheap_safe_boundary (omega arith) in
            inl (
              memcpy dst (λ k. mem (add32 src k)) nbytes,
              rw (f, f') refl,
              rw f refl,
              omega arith,
              fits,
              λ k.
                  memcpy-get dst (λ k. mem (add32 src k)) nbytes k
                  ∙ elim (Bool-cases (ltb k nbytes)) [
                    | inr out ↦ rw out refl
                    | inl inside ↦
                        let lt = ltb→lt k nbytes inside in
                        let a : add32 src k ≡ src + k = omega arith in rw inside (ap mem a)
                  ],
            )
      ]
]

-- A task whose stack pointer is in user memory, with the item `index` below the end of the address
-- space: the item is the word that lies there.
pub task_get_stack_item_lem :
    (mem : ℕ → ℕ) (uninit : Str) (esp index : ℕ)
    → kheap_safe_boundary ≤ esp
    → esp + 4 * index + 4 < 2 ^ 32
    → task_get_stack_item mem uninit esp index ≡ some (read_word mem (esp + 4 * index))
unfolding task_get_stack_item read_word
task_get_stack_item_lem mem uninit esp index high fits =
    let e : add32 esp (mul32 4 index) ≡ esp + 4 * index = omega arith in
    let a = esp + 4 * index in
    elim (copy_data_from_user_lem mem uninit a 4 (omega arith) (omega arith)) [
      | inl (out, run, v, h, f, held) ↦
          let z : a + 0 ≡ a = omega arith in
          rw e (
            rw run (
              rw (held 0, held 1, held 2, held 3)
                (ap
                  (λ (n : ℕ).
                    some
                      (mem n + mem (a + 1) * 2 ^ 8 + mem (a + 2) * 2 ^ 16 + mem (a + 3) * 2 ^ 24))
                  z)))
      | inr (run, why) ↦ absurd (elim why [ inl lt ↦ omega arith | inr ge ↦ omega arith ])
    ]

-- ===== src/Process/Blocks.antt =====
-- Memory blocks that are added and freed.
use amog_os.Base.{
  ℕ, zero, suc, ◌+◌, ◌<◌, ◌≤◌, ◌≡◌, ◌≢◌, refl, ap, ◌∙◌, sym, fun_ext, some, none, ◌/◌, ◌^◌, ◌⊎◌,
  true, false, ◌==◌, arith, ℕ_discrete,
}
use amog_os.Base.Int.{ℤ, pos}
use amog_os.Base.Memory.{update, update_self, update_ne}
use amog_os.Paging.Interface.{Allocator}
use amog_os.Paging.{Machine, paging_free_va}
use amog_os.Paging.Region.{translate}
use amog_os.Paging.UnmapRange.{paging_free_va_lem}
use amog_os.Paging.Walk.{walk, IsWellFormed}
use amog_os.Process.{
  Process, find_block, process_add_vmem_block, process_get_vmem_block, process_free_vmem_block,
  process_vmem_max_blocks,
}

-- Of a search that gives `i` the block `i` starts at `va`, and it is one of those searched.
pub found :
    (va : ℕ) (starts : ℕ → ℕ) (left i j : ℕ)
    → find_block va starts left i ≡ some j
    → (starts j ≡ va) × (i ≤ j) × (j < i + left)
unfolding find_block
found va starts zero i j e = absurd (ground (arith, e))
found va starts (suc left) i j e = elim (ℕ_discrete (starts i) va) [
  | yes here ↦
      let t : (starts i == va) ≡ true = ground arith in
      let e' : some i ≡ some j = ground (arith, e, t) in
      let q : i ≡ j = ground (arith, e') in (rw (sym q) here, omega arith, omega arith)
  | no ne ↦
      let f : (starts i == va) ≡ false = ground arith in
      let (s, ge, lt) = found va starts left (i + 1) j (ground (arith, e, f)) in
      (s, omega arith, omega arith)
]

-- A search that finds nothing has seen no block that starts at `va`.
pub not_found :
    (va : ℕ) (starts : ℕ → ℕ) (left i : ℕ)
    → find_block va starts left i ≡ none
    → (k : ℕ) → i ≤ k
    → k < i + left
    → starts k ≢ va
unfolding find_block
not_found va starts zero i e k ge lt same = absurd (omega (arith, ge, lt))
not_found va starts (suc left) i e k ge lt same = elim (ℕ_discrete (starts i) va) [
  | yes here ↦ let t : (starts i == va) ≡ true = ground arith in absurd (ground (arith, e, t))
  | no ne ↦
      let f : (starts i == va) ≡ false = ground arith in
      let rest : find_block va starts left (i + 1) ≡ none = ground (arith, e, f) in
      elim (ℕ_discrete i k) [
        | yes here ↦ ne (rw here same)
        | no other ↦ not_found va starts left (i + 1) rest k (omega arith) (omega arith) same
      ]
]

-- The first block that starts at `va`.
pub first_block :
    (va : ℕ) (starts : ℕ → ℕ) (left i j : ℕ)
    → starts j ≡ va
    → ((k : ℕ) → i ≤ k → k < j → starts k ≢ va)
    → i ≤ j
    → j < i + left
    → find_block va starts left i ≡ some j
unfolding find_block
first_block va starts zero i j s u ge lt = absurd (omega arith)
first_block va starts (suc left) i j s u ge lt = elim (ℕ_discrete i j) [
  | yes here ↦
      let t : (starts i == va) ≡ true = ground (arith, ap starts here, s) in rw t (ap some here)
  | no ne ↦
      let f : (starts i == va) ≡ false = ground (arith, u i (omega arith) (omega arith)) in
      rw f (
        first_block va starts left (i + 1) j s (λ k from to. u k (omega arith) to) (omega arith)
          (omega arith))
]

-- When the process has no block at `va_start`, which is not 0, and one of its ten blocks is free,
-- the first of them, `i`, and the range lies below 4 GiB, then `process_add_vmem_block` returns `i`
-- and looking the block up gives `i`. Freeing it, in a page table whose tables lie apart, succeeds
-- and leaves the starts of the blocks as they were before it was added: then no byte of the range
-- that was added is mapped, the pages that the range does not touch keep their entries, and the
-- tables still lie apart.
pub process_free-process_add :
    (a : Allocator) (cr3 : ℕ) (proc : Process) (va_start va_end i : ℕ) (m : Machine a)
    → va_start ≢ 0
    → ((k : ℕ) → proc.vmem_blocks_start k ≢ va_start)
    → find_block 0 proc.vmem_blocks_start process_vmem_max_blocks 0 ≡ some i
    → va_start ≤ va_end
    → va_end < 2 ^ 32
    → IsWellFormed a cr3 m
    → (proc' : Process) × (freed : Process) × (m' : Machine a) × (process_add_vmem_block proc
          va_start va_end
        ≡ (pos i, proc'))
      × (process_get_vmem_block proc' va_start ≡ pos i)
      × (process_free_vmem_block a cr3 proc' va_start m ≡ (pos 0, freed, m'))
      × (freed.vmem_blocks_start ≡ proc.vmem_blocks_start)
      × ((va : ℕ) → va_start ≤ va → va < va_end → translate m'.mem cr3 va ≡ none)
      × ((u : ℕ)
          → u < 2 ^ 20
          → (u < va_start / 4096) ⊎ ((va_end + 4095) / 4096 ≤ u)
          → walk m'.mem cr3 u ≡ walk m.mem cr3 u)
      × IsWellFormed a cr3 m'
unfolding process_add_vmem_block process_get_vmem_block process_free_vmem_block
process_free-process_add a cr3 proc va_start va_end i m nz new e le below wf =
    let (m', run, unmapped, kept, wf') = paging_free_va_lem a cr3 m va_start va_end wf le below in
    let (z, ge, lt) = found 0 proc.vmem_blocks_start process_vmem_max_blocks 0 i e in
    let starts = update proc.vmem_blocks_start i va_start in
    let ends = update proc.vmem_blocks_end i va_end in
    let look =
      first_block va_start starts process_vmem_max_blocks 0 i
        (update_self proc.vmem_blocks_start i va_start)
        (λ k from to h.
          new k (sym (update_ne proc.vmem_blocks_start i k va_start (omega arith)) ∙ h))
        (omega arith) lt in
    let back : update starts i 0 ≡ proc.vmem_blocks_start = fun_ext (λ k. elim (ℕ_discrete i k) [
      | yes here ↦ rw (sym here) (update_self starts i 0 ∙ sym z)
      | no ne ↦ update_ne starts i k 0 ne ∙ update_ne proc.vmem_blocks_start i k va_start ne
    ]) in
    let freed : Process = record proc {
      vmem_blocks_start = update starts i 0;
      vmem_blocks_end = update ends i 0;
    } in
    (
      record proc { vmem_blocks_start = starts; vmem_blocks_end = ends },
      freed,
      m',
      rw (e, process_add_vmem_block) refl,
      rw (look, process_get_vmem_block) refl,
      rw (look, process_free_vmem_block, process_get_vmem_block)
          (ap (λ v. (pos 0, freed, (paging_free_va a cr3 va_start v m).1))
              (update_self proc.vmem_blocks_end i va_end)
            ∙ ap (λ (r : ℤ × Machine a). (pos 0, freed, r.1)) run),
      back,
      unmapped,
      kept,
      wf',
    )

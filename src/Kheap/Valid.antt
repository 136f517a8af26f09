-- ===== src/Kheap/Valid.antt =====
-- `kfree` keeps the heap valid, whatever the pointer.
use amog_os.Base.{ℕ, ◌-◌, ◌%◌, ◌≡◌, ap, arith, dec_lt, inl, inr}
use amog_os.Kheap.{Kheap, kfree, addr_to_block_index}
use amog_os.Kheap.Free.{free_run-beyond, free_run_same}
use amog_os.Kheap.Laws.{IsValid}

pub kfree-IsValid : (ptr : ℕ) (h : Kheap) → IsValid h → IsValid (kfree ptr h)
unfolding kfree
kfree-IsValid ptr h v =
    let i = addr_to_block_index h ptr in
    let (t, n, s) = free_run_same (h.num_entries - i) i h in
    let kept =
      free_run-beyond (h.num_entries - i) i h.num_entries h (elim (dec_lt h.num_entries i) [
        | yes lt ↦ inr (omega arith)
        | no ge ↦ inl (omega arith)
      ]) in
    record {
      above_null = rw s v.above_null;
      below_end = rw (s, n) v.below_end;
      bounded = rw (n, t, kept) v.bounded;
    }

pub kfree-start : (h : Kheap) (ptr : ℕ) → (kfree ptr h).start_addr % 4096 ≡ h.start_addr % 4096
unfolding kfree
kfree-start h ptr =
    let i = addr_to_block_index h ptr in
    ap (λ (n : ℕ). n % 4096) (free_run_same (h.num_entries - i) i h).2

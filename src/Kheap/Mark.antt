-- ===== src/Kheap/Mark.antt =====
-- What `kmalloc` writes into the table.
use amog_os.Base.{
  ℕ, zero, suc, ◌+◌, ◌-◌, ◌<◌, ◌≡◌, refl, Bool, ◌&&◌, arith, ltb, leb, ◌==◌, if◌then◌else◌,
}
use amog_os.Kheap.{Kheap, set_entry, mark_rest, mark_run}

-- The address `a` is one of the `n` table bytes from block `i` on.
abbrev pub in_run : Kheap → ℕ → ℕ → ℕ → Bool
in_run h i n a = leb (h.table + i) a && ltb a (h.table + i + n)

-- The entry of block `k` of an allocation of `n` blocks: taken, the first one marked, and each but
-- the last with a successor.
abbrev pub run_entry : ℕ → ℕ → ℕ
run_entry n k =
    if k == 0 then (if ltb 1 n then 0xC1 else 0x41) else (if ltb (k + 1) n then 0x81 else 0x01)

mark_rest-mem :
    (end r i : ℕ) (h : Kheap) (a : ℕ)
    → (mark_rest end r i h).mem a
      ≡ (if in_run h i r a then (if ltb a (h.table + end) then 0x81 else 0x01) else h.mem a)
unfolding mark_rest
mark_rest-mem end zero i h a = ground arith
mark_rest-mem end (suc r) i h a =
    ground (arith, mark_rest-mem end r (i + 1) (set_entry h i (if ltb i end then 0x81 else 0x01)) a)

pub mark_run-mem :
    (b n : ℕ) (h : Kheap) (a : ℕ)
    → 0 < n
    → (mark_run b n h).mem a ≡ (if in_run h b n a then run_entry n (a - (h.table + b)) else h.mem a)
unfolding mark_run
mark_run-mem b n h a p = ground (
  arith,
  mark_rest-mem (b + n - 1) (n - 1) (b + 1) (set_entry h b (if ltb 1 n then 0xC1 else 0x41)) a,
)

-- The rest of the heap's state stays.
mark_rest_same :
    (end r i : ℕ) (h : Kheap)
    → ((mark_rest end r i h).table ≡ h.table)
      × ((mark_rest end r i h).num_entries ≡ h.num_entries)
      × ((mark_rest end r i h).start_addr ≡ h.start_addr)
unfolding mark_rest
mark_rest_same end zero i h = (refl, refl, refl)
mark_rest_same end (suc r) i h = mark_rest_same end r (i + 1) _

pub mark_run_same :
    (b n : ℕ) (h : Kheap)
    → ((mark_run b n h).table ≡ h.table)
      × ((mark_run b n h).num_entries ≡ h.num_entries)
      × ((mark_run b n h).start_addr ≡ h.start_addr)
unfolding mark_run
mark_run_same b n h = mark_rest_same (b + n - 1) (n - 1) (b + 1) _

-- ===== src/Kheap.antt =====
-- The kernel heap (src/memory/heap/kheap.c): a table of one byte for each 4 KiB block.
-- The table lies in physical memory like everything else, so the state holds the memory: an access
-- behind the table's end reads and writes what lies there.
pub mod Search
pub mod Mark
pub mod Free
pub mod Laws
pub mod Release
pub mod Valid
pub mod Zeroed
mod Tests
use amog_os.Base.{
  ℕ, zero, suc, ◌+◌, ◌-◌, ◌/◌, ◌%◌, bit_and, bit_or, Bool, not, ◌&&◌, ◌||◌, Option, none, some, ltb,
  ◌==◌, if◌then◌else◌,
}
use amog_os.Base.Int.{ℤ, pos, neg, is_neg}
use amog_os.Base.Memory.{update}
use amog_os.Base.Words.{add32, sub32, mul32}

abbrev pub block_size : ℕ
block_size = 4096

abbrev pub entry_taken : ℕ
entry_taken = 0x01

abbrev pub entry_free : ℕ
entry_free = 0x00

abbrev pub has_next : ℕ
has_next = 0x80

abbrev pub is_first : ℕ
is_first = 0x40

-- `mem` is physical memory; `table` is `entry_table->entries`.
pub record Kheap : Type 0 where
  pub mem : ℕ → ℕ
  pub table : ℕ
  pub num_entries : ℕ
  pub start_addr : ℕ

abbrev pub entry_at : Kheap → ℕ → ℕ
entry_at h i = h.mem (h.table + i)

abbrev pub set_entry : Kheap → ℕ → ℕ → Kheap
set_entry h i e = record h { mem = update h.mem (h.table + i) e }

-- `get_kheap_entry_type(entry) == KHEAP_BLOCK_TABLE_ENTRY_FREE`
unfoldable pub is_free : ℕ → Bool
is_free entry = bit_and entry 0x0f == entry_free

pub block_to_addr : Kheap → ℕ → ℕ
block_to_addr h block_index = add32 h.start_addr (mul32 block_index block_size)

pub addr_to_block_index : Kheap → ℕ → ℕ
addr_to_block_index h addr = sub32 addr h.start_addr / block_size

-- The loop over `j`: the first `j` at which it stops, with `rounds` blocks left to look at.
pub run_end : Kheap → ℕ → ℕ → ℕ
run_end h zero j = j
run_end h (suc rounds) j =
    let rest = run_end h rounds (j + 1) in if is_free (entry_at h j) then rest else j

-- The loop over `i`; its sums stay far below 2 ^ 32.
pub find_run : Kheap → ℕ → ℕ → ℕ → Option ℕ
find_run h num_blocks zero i = none
find_run h num_blocks (suc rounds) i =
    let rest = find_run h num_blocks rounds (i + 1) in
    if is_free (entry_at h i) && (run_end h num_blocks i == i + num_blocks) then some i else rest

-- The blocks behind the first, up to `end_block`.
pub mark_rest : ℕ → ℕ → ℕ → Kheap → Kheap
mark_rest end_block zero i h = h
mark_rest end_block (suc rounds) i h =
    mark_rest end_block rounds (i + 1)
      (set_entry h i (if ltb i end_block then bit_or entry_taken has_next else entry_taken))

pub mark_run : ℕ → ℕ → Kheap → Kheap
mark_run first_alloc_block num_blocks h =
    let first = bit_or entry_taken is_first in
    mark_rest (first_alloc_block + num_blocks - 1) (num_blocks - 1) (first_alloc_block + 1)
      (set_entry h first_alloc_block (if ltb 1 num_blocks then bit_or first has_next else first))

pub blocks_for : ℕ → ℕ
blocks_for size = add32 size (block_size - 1) / block_size

-- The pointer returned, 0 for NULL, and the heap.
pub kmalloc : ℕ → Kheap → ℕ × Kheap
kmalloc size h = elim (find_run h (blocks_for size) h.num_entries 0) [
  | none ↦ (0, h)
  | some b ↦ (block_to_addr h b, mark_run b (blocks_for size) h)
]

pub free_run : ℕ → ℕ → Kheap → Kheap
free_run zero i h = h
free_run (suc rounds) i h =
    let rest = free_run rounds (i + 1) (set_entry h i entry_free) in
    if bit_and (entry_at h i) has_next == 0 then set_entry h i entry_free else rest

pub kfree : ℕ → Kheap → Kheap
kfree ptr h =
    let start_block = addr_to_block_index h ptr in
    free_run (h.num_entries - start_block) start_block h

-- `memset(ptr, c, num)` of src/memory/memory.c on physical memory.
pub memset : (ℕ → ℕ) → ℕ → ℕ → ℕ → ℕ → ℕ
memset mem ptr c zero = mem
memset mem ptr c (suc num) = memset (update mem ptr c) (ptr + 1) c num

-- `kzalloc` clears what `kmalloc` returns, NULL as well.
pub kzalloc : ℕ → Kheap → ℕ × Kheap
kzalloc size h =
    let (ptr, h') = kmalloc size h in (ptr, record h' { mem = memset h'.mem ptr 0 size })

count_free : Kheap → ℕ → ℕ → ℕ
count_free h zero i = 0
count_free h (suc rounds) i =
    count_free h rounds (i + 1) + (if is_free (entry_at h i) then 1 else 0)

pub num_free_blocks : Kheap → ℕ
num_free_blocks h = count_free h h.num_entries 0

validate_ptr_alignment : ℕ → Bool
validate_ptr_alignment ptr = ptr % block_size == 0

validate_kheap_table : ℕ → ℕ → ℕ → Bool
validate_kheap_table kheap_start kheap_end num_entries =
    num_entries == sub32 kheap_end kheap_start / block_size

-- `kheap_create(kheap, start, end, entry_table)`: the status, and the heap where it is set up.
pub kheap_create : (ℕ → ℕ) → ℕ → ℕ → ℕ → ℕ → ℤ × Option Kheap
kheap_create mem start end entries num_entries =
    if not (validate_ptr_alignment start) || not (validate_ptr_alignment end)
    then (neg 2, none)
    else if not (validate_kheap_table start end num_entries)
    then (neg 2, none)
    else (
      pos 0,
      some (record {
        mem = memset mem entries entry_free num_entries;
        table = entries;
        num_entries = num_entries;
        start_addr = start;
      }),
    )

pub kheap_init : (ℕ → ℕ) → ℤ × Option Kheap
unfolding kheap_create
kheap_init mem =
    let (res, h) =
      kheap_create mem 0x01000000 (add32 0x01000000 104857600) 0x7E00 (104857600 / block_size) in
    if is_neg res then (neg 4, none) else (pos 0, h)

-- ===== src/Process/Lifecycle/Exit.antt =====
-- What `process_exit` leaves: a zombie without blocks, and a dead task.
use amog_os.Base.{
  ℕ, zero, suc, ◌+◌, ◌<◌, ◌≡◌, ◌≢◌, refl, some, sym, ap, ◌∙◌, true, false, ◌==◌, if◌then◌else◌,
  arith, ℕ_discrete,
}
use amog_os.Base.Int.{ℤ, pos}
use amog_os.Base.Memory.{update, update_self, update_ne}
use amog_os.Paging.Interface.{Allocator}
use amog_os.Paging.{Machine, paging_free_va}
use amog_os.Task.{Task, is_dead, set_task, task_dead}
use amog_os.Process.{
  Process, proc_zombie, find_block, process_get_vmem_block, process_free_vmem_block,
  process_vmem_max_blocks,
}
use amog_os.Process.Blocks.{first_block}
use amog_os.Process.Lifecycle.{
  System, address, free_block, free_blocks, process_exit, free_memory, program_memory,
}

-- The first `n` blocks are unused, and it is the same process.
record Freed (n : ℕ) (proc proc' : Process) : Type 0 where
  unused : (k : ℕ) → k < n → proc'.vmem_blocks_start k ≡ 0
  same_pid : proc'.pid ≡ proc.pid
  same_parent : proc'.parent_pid ≡ proc.parent_pid

not_current : (i c : ℕ) → (if address i == c then 0 else c) ≢ address i
not_current i c = elim (ℕ_discrete (address i) c) [
  | yes e ↦ let t : (address i == c) ≡ true = ground (arith, e) in rw t (λ z. omega (arith, z))
  | no ne ↦ let f : (address i == c) ≡ false = ground (arith, ne) in rw f (λ z. ne (sym z))
]

module _ (a : Allocator) (kfree : ℕ → a.State → a.State) where
  release :
      (cr3 va i : ℕ) (proc : Process) (m : Machine a)
      → find_block va proc.vmem_blocks_start process_vmem_max_blocks 0 ≡ some i
      → process_free_vmem_block a cr3 proc va m ≡ (
        pos 0,
        record proc {
          vmem_blocks_start = update proc.vmem_blocks_start i 0;
          vmem_blocks_end = update proc.vmem_blocks_end i 0;
        },
        (paging_free_va a cr3 va (proc.vmem_blocks_end i) m).1,
      )
  unfolding process_get_vmem_block process_free_vmem_block
  release cr3 va i proc m look = rw (look, process_free_vmem_block, process_get_vmem_block) refl

  free_block-Freed :
      (cr3 i : ℕ) (proc : Process) (m : Machine a)
      → i < process_vmem_max_blocks
      → ((k : ℕ) → k < i → proc.vmem_blocks_start k ≡ 0)
      → Freed (i + 1) proc (free_block a kfree cr3 i proc m).0
  unfolding free_block
  free_block-Freed cr3 i proc m lt before = elim (ℕ_discrete (proc.vmem_blocks_start i) 0) [
    | yes z ↦
        let t : (proc.vmem_blocks_start i == 0) ≡ true = ground (arith, z) in
        rw t (record {
          unused = λ k le. elim (ℕ_discrete i k) [
            | yes e ↦ rw (sym e) z
            | no ne ↦ before k (omega (arith, le, ne))
          ];
          same_pid = refl;
          same_parent = refl;
        })
    | no nz ↦
        let f : (proc.vmem_blocks_start i == 0) ≡ false = ground (arith, nz) in
        let look =
          first_block (proc.vmem_blocks_start i) proc.vmem_blocks_start process_vmem_max_blocks 0 i
            refl (λ k from to h. nz (sym h ∙ before k to)) (omega arith) (omega arith) in
        rw f (
          rw (release cr3 (proc.vmem_blocks_start i) i proc m look) (record {
            unused = λ k le. elim (ℕ_discrete i k) [
              | yes e ↦ rw (sym e) (update_self proc.vmem_blocks_start i 0)
              | no ne ↦ update_ne proc.vmem_blocks_start i k 0 ne ∙ before k (omega (arith, le, ne))
            ];
            same_pid = refl;
            same_parent = refl;
          }))
  ]

  free_blocks-Freed :
      (cr3 left i : ℕ) (proc : Process) (m : Machine a)
      → i + left ≡ process_vmem_max_blocks
      → ((k : ℕ) → k < i → proc.vmem_blocks_start k ≡ 0)
      → Freed process_vmem_max_blocks proc (free_blocks a kfree cr3 left i proc m).0
  unfolding free_blocks
  free_blocks-Freed cr3 zero i proc m e before = record {
    unused = λ k lt. before k (omega arith);
    same_pid = refl;
    same_parent = refl;
  }
  free_blocks-Freed cr3 (suc left) i proc m e before =
      let f = free_block-Freed cr3 i proc m (omega arith) before in
      let r = free_block a kfree cr3 i proc m in
      let g = free_blocks-Freed cr3 left (i + 1) r.0 r.1 (omega arith) f.unused in
      record {
        unused = g.unused;
        same_pid = g.same_pid ∙ f.same_pid;
        same_parent = g.same_parent ∙ f.same_parent;
      }

  -- Every process that exits is a zombie with the exit status, none of its memory blocks is in use,
  -- its number and its parent are as before, its task is dead, and it is not the current process;
  -- the other processes are as before.
  pub process_exit_lem :
      (i : ℕ) (status : ℤ) (s : System a kfree)
      → let s' = process_exit a kfree i status s in
        ((s'.procs i).status ≡ proc_zombie)
        × ((s'.procs i).exit_status ≡ status)
        × ((k : ℕ) → k < process_vmem_max_blocks → (s'.procs i).vmem_blocks_start k ≡ 0)
        × ((s'.procs i).pid ≡ (s.procs i).pid)
        × ((s'.procs i).parent_pid ≡ (s.procs i).parent_pid)
        × (is_dead (s'.sched.tasks (s.images i).task).state ≡ true)
        × (s'.sched.current_proc ≢ address i)
        × ((j : ℕ) → i ≢ j → s'.procs j ≡ s.procs j)
  unfolding process_exit set_task
  process_exit_lem i status s =
      let image = s.images i in
      let dead = record (s.sched.tasks image.task) { state = task_dead } in
      let m₁ = free_memory a kfree (program_memory a kfree image s.elf_memory) s.machine in
      let cr3 = s.page_table image.task in
      let r = free_blocks a kfree cr3 process_vmem_max_blocks 0 (s.procs i) m₁ in
      let freed =
        free_blocks-Freed cr3 process_vmem_max_blocks 0 (s.procs i) m₁ refl
          (λ k lt. absurd (omega arith)) in
      let here =
        update_self s.procs i (record r.0 { status = proc_zombie; exit_status = status }) in
      (
        ap (λ (p : Process). p.status) here,
        ap (λ (p : Process). p.exit_status) here,
        λ k lt. ap (λ (p : Process). p.vmem_blocks_start k) here ∙ freed.unused k lt,
        ap (λ (p : Process). p.pid) here ∙ freed.same_pid,
        ap (λ (p : Process). p.parent_pid) here ∙ freed.same_parent,
        ap (λ (t : Task). is_dead t.state) (update_self s.sched.tasks image.task dead),
        not_current i s.sched.current_proc,
        λ j ne.
            update_ne s.procs i j (record r.0 { status = proc_zombie; exit_status = status }) ne,
      )

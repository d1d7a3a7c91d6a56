-- ===== src/Exec.antt =====
-- Running a loaded program, pi-side/kernel/exec.c: the operations that the ELF loader lists, in the address space of
-- the new process, and the way back.
pub mod Returns
use simple_pi_os.Prelude.{
  Bool, List, Result, [], false, if◌then◌else◌, ok, suc, true, u32, update, zero, ℕ, ◌+◌, ◌-◌, ◌==◌,
  ◌>>=◌, ◌>>◌, ◌∷◌,
}
use simple_pi_os.Vm.{CacheOp, mmu_inv_asid}
use simple_pi_os.Vm.{Vm}
use simple_pi_os.Elf.Load.{LoadInstr, load_copy, load_jump, load_zero}
use simple_pi_os.Process.{
  Process, Sys, enter_space, memset_zero, put8, syscall_get_current_proc, syscall_set_current_proc,
}
use simple_pi_os.Process.Sbrk.{get8}

-- `memcpy` through the page table of the running process
unfoldable pub copy8 : (n dst src : ℕ) → Vm → Result Vm
copy8 zero dst src vm = ok vm
copy8 (suc n) dst src vm = do v ← get8 src vm; vm ← put8 dst v vm; copy8 n (dst + 1) (src + 1) vm

-- PROC_LOAD_ADDR - KERNEL_LOAD_ADDR: from where the kernel has the file to where the new process has it
abbrev pub load_shift : ℕ
load_shift = 0x8000_0000 - 0x1000_0000

-- `proc->heap_end = proc->heap_start`
abbrev pub empty_heap : Process → Process
empty_heap p = record p { heap_end = p.heap_start }

-- Back to the kernel's space, without the translations of the process
unfoldable pub switched_back : (kernel_proc proc : ℕ) → Sys → Sys
switched_back kernel_proc proc s =
    let vm = enter_space (s.procs kernel_proc) s.vm in
    record s {
      vm = record vm { cache_ops = mmu_inv_asid (s.procs proc).page_tab.asid ∷ vm.cache_ops };
    }

-- `branch_to` is the program: what it does until it comes back.
module _ (branch_to : ℕ → Sys → Result Sys) where
  -- The program runs as the current process.
  unfoldable pub load_jump_to : (proc dst_addr : ℕ) → Sys → Result Sys
  load_jump_to proc dst_addr s = do
    let original_proc = syscall_get_current_proc s
    let begun = record s { procs = update s.procs proc (empty_heap (s.procs proc)) }
    s ← branch_to dst_addr (syscall_set_current_proc proc begun)
    ok (syscall_set_current_proc original_proc s)

  -- `true` when the next operation may follow
  unfoldable pub exec_load_instr : (proc : ℕ) → LoadInstr → Sys → Result (Bool × Sys)
  exec_load_instr proc (load_copy src_addr dst_addr size) s =
      copy8 size dst_addr (u32 (src_addr + load_shift)) s.vm >>= λ vm.
      ok (true, record s { vm = vm })
  exec_load_instr proc (load_zero dst_addr size) s =
      memset_zero size dst_addr s.vm >>= λ vm. ok (true, record s { vm = vm })
  exec_load_instr proc (load_jump dst_addr) s =
      if (s.procs proc).heap_start == 0
      then ok (false, s)
      else (load_jump_to proc dst_addr s >>= λ s. ok (true, s))

  -- The loop over the operations, which one that fails leaves
  unfoldable pub exec_instrs : (proc : ℕ) → List LoadInstr → Sys → Result Sys
  exec_instrs proc [] s = ok s
  exec_instrs proc (i ∷ instrs) s = do
    got ← exec_load_instr proc i s
    if got.0 then exec_instrs proc instrs got.1 else ok got.1

  -- To the space of the new process, through the operations, and back to the kernel's
  unfoldable pub exec_loaded : (kernel_proc proc : ℕ) → List LoadInstr → Sys → Result Sys
  exec_loaded kernel_proc proc instrs s = do
    s ← exec_instrs proc instrs (record s { vm = enter_space (s.procs proc) s.vm })
    ok (switched_back kernel_proc proc s)

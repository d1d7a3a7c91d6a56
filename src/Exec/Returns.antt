-- ===== src/Exec/Returns.antt =====
-- After the operations of a loaded program the kernel goes on where it was.
use simple_pi_os.Prelude.{
  Bool, List, Result, [], and_then-ok, ap, false, if◌then◌else◌, ok, ok-injective, refl, subst, sym,
  true, u32, update, ℕ, ◌+◌, ◌==◌, ◌>>=◌, ◌∙◌, ◌∷◌, ◌≡◌,
}
use simple_pi_os.Vm.{CacheOp, mmu_inv_asid}
use simple_pi_os.Elf.Load.{LoadInstr, load_copy, load_jump, load_zero}
use simple_pi_os.Process.{
  Sys, enter_space, memset_zero, syscall_set_current_proc, syscall_get_current_proc,
}
use simple_pi_os.Exec.{
  copy8, empty_heap, exec_instrs, exec_load_instr, exec_loaded, switched_back, load_jump_to,
  load_shift,
}

module _ (branch_to : ℕ → Sys → Result Sys) where
  load_jump_to-current :
      (proc addr : ℕ) (s t : Sys)
      → load_jump_to branch_to proc addr s ≡ ok t
      → t.current_proc ≡ s.current_proc
  unfolding load_jump_to syscall_set_current_proc syscall_get_current_proc
  load_jump_to-current proc addr s t run =
      let parts =
        and_then-ok
          (branch_to addr (record s {
            procs = update s.procs proc (empty_heap (s.procs proc));
            current_proc = proc;
          }))
          (λ s'. ok (record s' { current_proc = s.current_proc })) t run in
      sym (ap (λ s. s.current_proc) (ok-injective parts.2))

  jump_to :
      (c : Bool) (proc dst : ℕ) (s : Sys) (got : Bool × Sys)
      → (if c then ok (false, s) else (load_jump_to branch_to proc dst s >>= λ s. ok (true, s)))
        ≡ ok got
      → got.1.current_proc ≡ s.current_proc
  jump_to true proc dst s got run = sym (ap (λ g. g.1.current_proc) (ok-injective run))
  jump_to false proc dst s got run =
      let parts = and_then-ok (load_jump_to branch_to proc dst s) (λ s. ok (true, s)) got run in
      sym (ap (λ g. g.1.current_proc) (ok-injective parts.2))
      ∙ load_jump_to-current proc dst s parts.0 parts.1

  exec_load_instr-current :
      (proc : ℕ) (i : LoadInstr) (s : Sys) (got : Bool × Sys)
      → exec_load_instr branch_to proc i s ≡ ok got
      → got.1.current_proc ≡ s.current_proc
  unfolding exec_load_instr
  exec_load_instr-current proc (load_copy src dst size) s got run =
      let parts =
        and_then-ok (copy8 size dst (u32 (src + load_shift)) s.vm)
          (λ vm. ok (true, record s { vm = vm })) got run in
      sym (ap (λ g. g.1.current_proc) (ok-injective parts.2))
  exec_load_instr-current proc (load_zero dst size) s got run =
      let parts =
        and_then-ok (memset_zero size dst s.vm) (λ vm. ok (true, record s { vm = vm })) got run in
      sym (ap (λ g. g.1.current_proc) (ok-injective parts.2))
  exec_load_instr-current proc (load_jump dst) s got run =
      jump_to ((s.procs proc).heap_start == 0) proc dst s got run

  go_on :
      (c : Bool) (more : Result Sys) (s t : Sys)
      → (more ≡ ok t → t.current_proc ≡ s.current_proc)
      → (if c then more else ok s) ≡ ok t
      → t.current_proc ≡ s.current_proc
  go_on true more s t rest run = rest run
  go_on false more s t rest run = sym (ap (λ s. s.current_proc) (ok-injective run))

  exec_instrs-current :
      (proc : ℕ) (instrs : List LoadInstr) (s t : Sys)
      → exec_instrs branch_to proc instrs s ≡ ok t
      → t.current_proc ≡ s.current_proc
  unfolding exec_instrs
  exec_instrs-current proc [] s t run = sym (ap (λ s. s.current_proc) (ok-injective run))
  exec_instrs-current proc (i ∷ instrs) s t run =
      let parts =
        and_then-ok (exec_load_instr branch_to proc i s)
          (λ got. if got.0 then exec_instrs branch_to proc instrs got.1 else ok got.1) t run in
      go_on parts.0.0 (exec_instrs branch_to proc instrs parts.0.1) parts.0.1 t
        (exec_instrs-current proc instrs parts.0.1 t) parts.2
      ∙ exec_load_instr-current proc i s parts.0 parts.1

  -- Whatever the operations are and whatever the program does before it comes back: if the run ends, then the process
  -- that was the current one is so again, the address space is the kernel's, and the last thing sent to the caches is to
  -- forget the translations of the new process.
  pub exec_loaded-IsBack :
      (kernel_proc proc : ℕ) (instrs : List LoadInstr) (s t : Sys)
      → exec_loaded branch_to kernel_proc proc instrs s ≡ ok t
      → (t.current_proc ≡ s.current_proc)
        × (t.vm.cpu.procid ≡ (t.procs kernel_proc).page_tab.asid)
        × (t.vm.cpu.ttbr0 ≡ (t.procs kernel_proc).page_tab.vaddr_map)
        × (ops : List CacheOp) × (t.vm.cache_ops ≡ mmu_inv_asid (t.procs proc).page_tab.asid ∷ ops)
  unfolding exec_loaded enter_space switched_back
  exec_loaded-IsBack kernel_proc proc instrs s t run =
      let inside = record s { vm = enter_space (s.procs proc) s.vm } in
      let parts =
        and_then-ok (exec_instrs branch_to proc instrs inside)
          (λ s'. ok (switched_back kernel_proc proc s')) t run in
      let here = ok-injective parts.2 in
      (
        sym (ap (λ s. s.current_proc) here)
            ∙ exec_instrs-current proc instrs inside parts.0 parts.1,
        subst (λ t. t.vm.cpu.procid ≡ (t.procs kernel_proc).page_tab.asid) here refl,
        subst (λ t. t.vm.cpu.ttbr0 ≡ (t.procs kernel_proc).page_tab.vaddr_map) here refl,
        parts.0.vm.cache_ops,
        subst
            (λ t. t.vm.cache_ops ≡ mmu_inv_asid (t.procs proc).page_tab.asid ∷ parts.0.vm.cache_ops)
            here refl,
      )

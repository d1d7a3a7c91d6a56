-- ===== src/Tests/Processes.antt =====
-- A process and the kernel, each with its table; the process runs.
use simple_pi_os.Prelude.{
  List, Result, [], arith, if◌then◌else◌, ok, refl, u32, update, ℕ, ◌+◌, ◌<◌, ◌==◌, ◌>>=◌, ◌>>>◌,
  ◌∷◌, ◌≡◌, ◌≢◌, ◌≤◌,
}
use simple_pi_os.Descriptor.{zero_fld}
use simple_pi_os.Vm.FreePages.{free_from, free_pages}
use simple_pi_os.Vm.{CacheOp, mmu_inv_asid}
use simple_pi_os.Vm.Memory.{physical}
use simple_pi_os.Elf.Load.{LoadInstr, load_copy, load_jump, load_zero}
use simple_pi_os.Exec.{
  copy8, exec_instrs, exec_load_instr, exec_loaded, load_jump_to, switched_back,
}
use simple_pi_os.Exec.Returns.{exec_loaded-IsBack}
use simple_pi_os.Process.{
  Process, Sys, enter_space, kernel_sbrk, memset_zero, moved, put8, syscall_get_current_proc,
  syscall_set_current_proc,
}
use simple_pi_os.Process.Grows.{current, kernel_sbrk-grows}
use simple_pi_os.Process.Sbrk.{IsRunning, get8}

abbrev kernel : Process
kernel = record {
  heap_start = 0x50_0000;
  heap_end = 0x60_0000;
  page_tab = record { asid = 1; vaddr_map = 1 };
}

abbrev child : Process
child = record {
  heap_start = 0x90_0000;
  heap_end = 0xa0_0000;
  page_tab = record { asid = 2; vaddr_map = 2 };
}

abbrev sys : Sys
sys = record {
  vm = record {
    paddr_to_asid_map = λ _. 0;
    tables = λ _ _. zero_fld;
    cpu = record { control_reg1 = 1; domain_access_ctrl = 0; procid = 2; ttbr0 = 2 };
    cache_ops = [];
    ram = λ _. 7;
  };
  procs = λ p. if p == 5 then kernel else child;
  kernel_proc = 5;
  current_proc = 6;
}

sys-IsRunning : IsRunning sys
sys-IsRunning = record {
  kernel = cc;
  current = cc;
  live = cc;
  mmu = refl;
  table = refl;
  heap = omega arith;
  at_page = refl;
}

sys-free : free_pages sys.vm ≡ 511
unfolding free_pages free_from
sys-free = refl

kernel_sbrk-grows_example :
    (t : Sys) × (kernel_sbrk 0x20_0000 sys ≡ ok (u32 (0xa0_0000 + 0x20_0000), t))
    × (current t ≡ moved child 0x20_0000)
    × ((x : ℕ) → 0xa0_0000 ≤ x → x < 0xa0_0000 + 0x20_0000 → get8 x t.vm ≡ ok 0)
    × ((pa : ℕ) → sys.vm.paddr_to_asid_map (pa >>> 20) ≢ 0 → t.vm.ram pa ≡ sys.vm.ram pa)
kernel_sbrk-grows_example =
    kernel_sbrk-grows 0x20_0000 sys sys-IsRunning (omega arith) (omega arith)
      (omega (arith, sys-free))

-- The kernel starts the process with the MMU off; the program asks for the end of its heap and comes back.
abbrev before : Sys
before = record sys {
  vm = record sys.vm { cpu = record sys.vm.cpu { control_reg1 = 0 } };
  current_proc = 5;
}

abbrev program : ℕ → Sys → Result Sys
program addr s = kernel_sbrk 0 s >>= λ got. ok got.1

abbrev instrs : List LoadInstr
instrs = load_copy 0x10 0x20 1 ∷ load_zero 0x30 2 ∷ load_jump 0x8000 ∷ []

abbrev cleared : ℕ → ℕ
cleared = update (update (update (λ _. 7) 0x20 7) 0x30 0) 0x31 0

abbrev back : Sys
back = record before {
  vm = record before.vm {
    cpu = record before.vm.cpu { procid = 1; ttbr0 = 1 };
    cache_ops = mmu_inv_asid 2 ∷ [];
    ram = cleared;
  };
  procs = update before.procs 6 (record child { heap_end = child.heap_start });
}

before-back : exec_loaded program 5 6 instrs before ≡ ok back
unfolding exec_loaded exec_instrs exec_load_instr load_jump_to switched_back copy8 kernel_sbrk
    memset_zero put8 get8 physical enter_space syscall_get_current_proc syscall_set_current_proc
before-back = refl

exec_loaded-IsBack_example :
    (back.current_proc ≡ before.current_proc)
    × (back.vm.cpu.procid ≡ 1)
    × (back.vm.cpu.ttbr0 ≡ 1)
    × (ops : List CacheOp) × (back.vm.cache_ops ≡ mmu_inv_asid 2 ∷ ops)
exec_loaded-IsBack_example = exec_loaded-IsBack program 5 6 instrs before back before-back

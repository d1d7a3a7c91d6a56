-- ===== src/Process.antt =====
-- The processes of pi-side/kernel/process.h, and the system call of pi-side/kernel/syscall.c. A process is
-- reached through a pointer, and zero is the null pointer.
pub mod Sbrk
pub mod Grows
use simple_pi_os.Prelude.{
  Bool, Result, assert, fault, if◌then◌else◌, none, ok, panic, some, suc, true, u32, update, zero,
  ℕ, ◌!=◌, ◌&&◌, ◌+◌, ◌==◌, ◌>>=◌, ◌>>◌,
}
use simple_pi_os.Vm.{Vm, PageTable, mmu_map_to_mem}
use simple_pi_os.Vm.Memory.{physical, set_procid_ttbr0}

pub record Process : Type 0 where
  pub heap_start : ℕ
  pub heap_end : ℕ
  pub page_tab : PageTable

pub record Sys : Type 0 where
  pub vm : Vm
  pub procs : ℕ → Process
  pub kernel_proc : ℕ
  pub current_proc : ℕ

unfoldable pub syscall_set_kernel_proc : ℕ → Sys → Sys
syscall_set_kernel_proc proc s = record s { kernel_proc = proc }

unfoldable pub syscall_set_current_proc : ℕ → Sys → Sys
syscall_set_current_proc proc s = record s { current_proc = proc }

unfoldable pub syscall_get_current_proc : Sys → ℕ
syscall_get_current_proc s = s.current_proc

unfoldable pub enter_space : Process → Vm → Vm
enter_space p vm = set_procid_ttbr0 p.page_tab.asid p.page_tab.vaddr_map vm

-- Each byte of `memset` is written through the page table of the running process.
unfoldable pub put8 : (addr v : ℕ) → Vm → Result Vm
put8 addr v vm = elim (physical vm addr) [
  | none ↦ panic fault
  | some pa ↦ ok (record vm { ram = update vm.ram pa v })
]

unfoldable pub memset_zero : (n addr : ℕ) → Vm → Result Vm
memset_zero zero addr vm = ok vm
memset_zero (suc n) addr vm = do vm ← put8 addr 0 vm; memset_zero n (addr + 1) vm

-- The pages are mapped in the kernel's address space, and the process goes on in its own.
unfoldable pub map_heap : (other : Bool) → (kernel current : Process) → (incr : ℕ) → Vm → Result Vm
map_heap other kernel current incr vm = do
  let vm = if other then enter_space kernel vm else vm
  vm ← mmu_map_to_mem current.page_tab current.heap_end incr true vm
  ok (if other then enter_space current vm else vm)

abbrev pub moved : Process → ℕ → Process
moved p incr = record p { heap_end = u32 (p.heap_end + incr) }

unfoldable pub kernel_sbrk : (incr : ℕ) → Sys → Result (ℕ × Sys)
kernel_sbrk incr s = do
  assert (s.kernel_proc != 0 && s.current_proc != 0)
  let kernel = s.procs s.kernel_proc
  let current = s.procs s.current_proc
  let other = s.current_proc != s.kernel_proc
  if incr == 0 then ok (current.heap_end, s) else (do
    vm ← map_heap other kernel current incr s.vm
    vm ← memset_zero incr current.heap_end vm
    ok (
      (moved current incr).heap_end,
      record s { vm = vm; procs = update s.procs s.current_proc (moved current incr) },
    ))

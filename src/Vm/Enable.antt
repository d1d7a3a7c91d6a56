-- ===== src/Vm/Enable.antt =====
-- `vm_enable` of pi-side/kernel/vm.c: the kernel's page table, and the switch to virtual addresses.
-- The coprocessor routines of vm-asm.S are taken as writes of its registers; `rand_val` is what
-- `rpi_rand` returns.
pub mod Kernel
use simple_pi_os.Prelude.{
  Result, assert, ok, suc, zero, ℕ, ◌*◌, ◌+◌, ◌-◌, ◌<<<◌, ◌==◌, ◌>>=◌, ◌>>>◌, ◌>>◌, ◌^◌,
}
use simple_pi_os.Vm.{
  Vm, PageTable, trans_table_addr, map_flag_none, mmu_init, mmu_map_section,
  mmu_map_kernel_sections,
}
use simple_pi_os.Vm.Memory.{
  bit, set_bit, mmu_enabled, xp_pt, write_control_reg1, write_domain_access_ctrl, set_procid_ttbr0,
  put32, get32,
}

-- The kernel runs with ASID 1, whose table is `TT_BASE + 1`.
abbrev pub kernel_pt : PageTable
kernel_pt = record { asid = 1; vaddr_map = 1 }

-- `(sizeof(trans_table_t) * 256) >> 20`
abbrev pub n_tt_pages : ℕ
n_tt_pages = (2 ^ 14 * 256) >>> 20

-- The loop that maps the translation tables themselves.
pub map_tables : PageTable → (rounds i : ℕ) → Vm → Result Vm
map_tables pt zero i vm = ok vm
map_tables pt (suc rounds) i vm = do
  let addr = trans_table_addr + (i <<< 20)
  vm ← mmu_map_section pt addr addr map_flag_none vm
  map_tables pt rounds (i + 1) vm

-- The tables, up to the comment on the MMU.
pub make_tables : Vm → Result Vm
unfolding map_tables
make_tables vm = do
  vm ← mmu_init 0 (record vm { paddr_to_asid_map = λ _. 0 })
  vm ← mmu_init kernel_pt.vaddr_map vm
  vm ← mmu_map_kernel_sections kernel_pt vm
  map_tables kernel_pt n_tt_pages 0 vm

-- The address that is written before and read after the switch.
abbrev pub probe : ℕ
probe = 0x100000 - 4

pub turn_on : ℕ → Vm → Result Vm
turn_on rand_val vm = do
  let vm = write_control_reg1 (set_bit vm.cpu.control_reg1 xp_pt) vm
  let c1 = vm.cpu.control_reg1
  assert (bit c1 xp_pt == 1)
  assert (bit c1 mmu_enabled == 0)
  let vm = write_domain_access_ctrl 0xffff_ffff vm
  vm ← put32 probe rand_val vm
  let vm = set_procid_ttbr0 kernel_pt.asid kernel_pt.vaddr_map vm
  let vm = write_control_reg1 (set_bit c1 mmu_enabled) vm
  assert (bit vm.cpu.control_reg1 mmu_enabled == 1)
  v ← get32 probe vm
  assert (v == rand_val)
  ok vm

pub vm_enable : ℕ → Vm → Result (PageTable × Vm)
unfolding make_tables turn_on
vm_enable rand_val vm = do vm ← make_tables vm; vm ← turn_on rand_val vm; ok (kernel_pt, vm)

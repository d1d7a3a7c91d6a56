-- ===== src/Vm.antt =====
-- The virtual memory manager: the code part of pi-side/kernel/vm.c, with the constants of vm.h.
-- `TT_BASE` is an array of 256 tables; a table is named by its index in it.
pub mod Translate
pub mod Memory
pub mod Enable
pub mod Section
pub mod Alloc
pub mod FreePages
pub mod MapPages
pub mod MapToMem
pub mod Ownership
pub mod Unmap
use simple_pi_os.Prelude.{
  Bool, List, Result, ap, assert, bit_and, bit_or, demand, fault, if◌then◌else◌, ltb, not, ok,
  out_of_memory, panic, suc, u32, update, zero, ℕ, ◌!=◌, ◌%◌, ◌&&◌, ◌*◌, ◌+◌, ◌-◌, ◌<<<◌, ◌==◌,
  ◌>>=◌, ◌>>>◌, ◌>>◌, ◌^◌, ◌∷◌,
}
use simple_pi_os.Descriptor.{Fld, is_aligned, zero_fld}

abbrev pub n_virt_pages : ℕ
n_virt_pages = 2 ^ 12

abbrev pub n_phys_pages : ℕ
n_phys_pages = 512

abbrev pub trans_table_addr : ℕ
trans_table_addr = 0x00100000

abbrev pub map_flag_none : ℕ
map_flag_none = 0

abbrev pub map_flag_global : ℕ
map_flag_global = 1

abbrev pub map_flag_shared : ℕ
map_flag_shared = 2

abbrev pub map_flag_sync : ℕ
map_flag_sync = 4

-- `page_table_t`. Its field `paddr_map` is not used by any code. `vaddr_map` is
-- `TT_BASE + vaddr_map`.
pub record PageTable : Type 0 where
  pub asid : ℕ
  pub vaddr_map : ℕ

-- What the coprocessor is told to do with its caches: the assembly routines `mmu_sync` and
-- `mmu_inv_asid`.
pub data CacheOp : Type 0 where
  mmu_sync : (table index vaddr_asid : ℕ) → CacheOp
  mmu_inv_asid : (asid : ℕ) → CacheOp

-- The coprocessor registers: control register 1 and domain access control as words, and what
-- `set_procid_ttbr0` last wrote.
pub record Cpu : Type 0 where
  pub control_reg1 : ℕ
  pub domain_access_ctrl : ℕ
  pub procid : ℕ
  pub ttbr0 : ℕ

-- `paddr_to_asid_map` has `n_phys_pages` entries; each of the tables has `n_virt_pages`.
-- `cache_ops` is what was sent to the caches, latest first, and `ram` physical memory by words.
pub record Vm : Type 0 where
  pub paddr_to_asid_map : ℕ → ℕ
  pub tables : ℕ → ℕ → Fld
  pub cpu : Cpu
  pub cache_ops : List CacheOp
  pub ram : ℕ → ℕ

-- `flags & flag`, as a test
abbrev pub has_flag : ℕ → ℕ → Bool
has_flag flags flag = bit_and flags flag != 0

-- The ownership check at the head of `mmu_map_section`.
unfoldable pub claim_page : PageTable → (pa flags : ℕ) → Vm → Result Vm
claim_page pt pa flags vm =
    let is_shared = has_flag flags (bit_or map_flag_global map_flag_shared) in
    if not is_shared && ltb (pa >>> 20) n_phys_pages
    then (do
      demand (vm.paddr_to_asid_map (pa >>> 20) == 0)
      ok (record vm { paddr_to_asid_map = update vm.paddr_to_asid_map (pa >>> 20) pt.asid }))
    else ok vm

-- The descriptor that `mmu_map_section` writes, every field of it.
unfoldable pub section_fld : (pa flags : ℕ) → Fld
section_fld pa flags = record {
  tag = 2;
  b = 0;
  c = 0;
  xn = 0;
  domain = 0;
  imp = 0;
  ap = 3;
  tex = 0;
  apx = 0;
  s = 0;
  n_g = if has_flag flags map_flag_global then 0 else 1;
  super = 0;
  sbz1 = 0;
  sec_base_addr = (pa >>> 20) % 2 ^ 12;
}

unfoldable pub write_pte : PageTable → ℕ → Fld → Vm → Vm
write_pte pt i e vm = record vm {
  tables = update vm.tables pt.vaddr_map (update (vm.tables pt.vaddr_map) i e);
}

unfoldable pub sync_pte : PageTable → (va flags : ℕ) → Vm → Vm
sync_pte pt va flags vm =
    if has_flag flags map_flag_sync
    then record vm {
      cache_ops = mmu_sync pt.vaddr_map (va >>> 20) (bit_or va pt.asid) ∷ vm.cache_ops;
    }
    else vm

unfoldable pub mmu_map_section : PageTable → (va pa flags : ℕ) → Vm → Result Vm
mmu_map_section pt va pa flags vm = do
  assert (is_aligned va 20)
  assert (is_aligned pa 20)
  vm' ← claim_page pt pa flags vm
  ok (sync_pte pt va flags (write_pte pt (va >>> 20) (section_fld pa flags) vm'))

-- The scan of `find_available_page` from index `i` on, with `rounds` indices left.
unfoldable pub find_page_from : (rounds i : ℕ) → (ℕ → ℕ) → ℕ
find_page_from zero i owner = 0
find_page_from (suc rounds) i owner =
    let rest = find_page_from rounds (i + 1) owner in if owner i == 0 then u32 (i <<< 20) else rest

unfoldable pub find_available_page : Vm → ℕ
unfolding find_page_from
find_available_page vm = find_page_from (n_phys_pages - 1) 1 vm.paddr_to_asid_map

-- The loop of `mmu_map_to_mem` from `page` on, with `rounds` pages left.
unfoldable pub map_pages : PageTable → (rounds page : ℕ) → Bool → Vm → Result Vm
map_pages pt zero page sync vm = ok vm
map_pages pt (suc rounds) page sync vm = do
  let pa = find_available_page vm
  (if pa == 0 then panic out_of_memory else ok tt)
  let flags = if sync then bit_or map_flag_none map_flag_sync else map_flag_none
  vm' ← mmu_map_section pt (u32 (page <<< 20)) pa flags vm
  map_pages pt rounds (page + 1) sync vm'

-- `(addr - 1) >> 20` and `(addr + size - 1) >> 20`, on `unsigned`
abbrev pub start_page : ℕ → ℕ
start_page addr = u32 (addr + 2 ^ 32 - 1) >>> 20

abbrev pub end_page : ℕ → ℕ → ℕ
end_page addr size = u32 (addr + size + 2 ^ 32 - 1) >>> 20

unfoldable pub mmu_map_to_mem : PageTable → (addr size : ℕ) → Bool → Vm → Result Vm
unfolding map_pages
mmu_map_to_mem pt addr size sync vm =
    map_pages pt (end_page addr size - start_page addr) (start_page addr + 1) sync vm

-- One round of the loop of `mmu_unmap`. An index past the end of `paddr_to_asid_map` is a fault.
unfoldable pub unmap_entry : PageTable → ℕ → Vm → Result Vm
unmap_entry pt i vm =
    let pte = vm.tables pt.vaddr_map i in
    if pte.tag != 0 && pte.n_g != 0
    then (if ltb pte.sec_base_addr n_phys_pages
        then ok (record vm { paddr_to_asid_map = update vm.paddr_to_asid_map pte.sec_base_addr 0 })
        else panic fault)
    else ok vm

unfoldable pub unmap_from : PageTable → (rounds i : ℕ) → Vm → Result Vm
unmap_from pt zero i vm = ok vm
unmap_from pt (suc rounds) i vm = do vm' ← unmap_entry pt i vm; unmap_from pt rounds (i + 1) vm'

unfoldable pub mmu_unmap : PageTable → Vm → Result Vm
unfolding unmap_from
mmu_unmap pt vm = unmap_from pt n_virt_pages 0 vm

-- `&TT_BASE[table]`
abbrev pub table_addr : ℕ → ℕ
table_addr table = trans_table_addr + table * 2 ^ 14

unfoldable pub mmu_init : ℕ → Vm → Result Vm
mmu_init table vm = do
  demand (is_aligned (table_addr table) 14)
  ok (record vm { tables = update vm.tables table (λ _. zero_fld) })

unfoldable pub mmu_map_kernel_sections : PageTable → Vm → Result Vm
mmu_map_kernel_sections pt vm = do
  vm ← mmu_map_section pt 0x00000000 0x00000000 map_flag_global vm
  vm ← mmu_map_section pt 0x20000000 0x20000000 map_flag_global vm
  vm ← mmu_map_section pt 0x20100000 0x20100000 map_flag_global vm
  vm ← mmu_map_section pt 0x20200000 0x20200000 map_flag_global vm
  mmu_map_section pt 0x20300000 0x20300000 map_flag_global vm

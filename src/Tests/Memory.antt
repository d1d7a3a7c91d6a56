-- ===== src/Tests/Memory.antt =====
-- The memory manager on a small machine.
use simple_pi_os.Prelude.{
  [], arith, false, ok, out_of_memory, panic, refl, true, update, ◌%◌, ◌/◌, ◌^◌, ◌≡◌, ◌≢◌, ◌≤◌,
}
use simple_pi_os.Descriptor.{zero_fld, is_aligned, fld_set_base_addr, fld_mk}
use simple_pi_os.Descriptor.Layout.{fld_set_base_addr-ok}
use simple_pi_os.Vm.{
  Vm, PageTable, section_fld, mmu_map_section, mmu_map_to_mem, mmu_unmap, unmap_from, unmap_entry,
  find_page_from, find_available_page, map_pages, claim_page, sync_pte, write_pte,
}
use simple_pi_os.Vm.FreePages.{free_pages, free_from}
use simple_pi_os.Vm.Section.{MapOutcome, mmu_map_section_maps}
use simple_pi_os.Vm.MapToMem.{
  MapsTo, pages_needed, mmu_map_to_mem_maps, mmu_map_to_mem-out_of_memory,
}
use simple_pi_os.Vm.Ownership.{IsOwner, IsPrivatePte, mmu_map_to_mem-IsOwner}
use simple_pi_os.Vm.Unmap.{InRam, mmu_unmap_frees, mmu_unmap-IsOwner, mmu_unmap_shared}
use simple_pi_os.Vm.Enable.{kernel_pt}
use simple_pi_os.Vm.Enable.Kernel.{vm_enable_lem}

-- Just reset: every table is zero, and nobody owns a page.
abbrev reset : Vm
reset = record {
  paddr_to_asid_map = λ _. 0;
  tables = λ _ _. zero_fld;
  cpu = record { control_reg1 = 0x78; domain_access_ctrl = 0; procid = 0; ttbr0 = 0 };
  cache_ops = [];
  ram = λ _. 0;
}

abbrev child_pt : PageTable
child_pt = record { asid = 2; vaddr_map = 2 }

vm_enable_lem_example : (vm_enable_lem 7 reset refl).0.cpu.procid ≡ 1
vm_enable_lem_example = (vm_enable_lem 7 reset refl).2

mmu_map_section_maps_example : MapOutcome child_pt 0x8000_0000 0x0010_0000 0 reset
mmu_map_section_maps_example =
    mmu_map_section_maps child_pt 0x8000_0000 0x0010_0000 0 reset (omega arith) refl refl

-- The request of a program of 2 MiB and a bit at its usual address.
reset-free : free_pages reset ≡ 511
unfolding free_pages free_from
reset-free = refl

child-enough : pages_needed 0x8000_0000 0x20_0001 ≤ free_pages reset
child-enough = omega (arith, reset-free)

mmu_map_to_mem_maps_example :
    MapsTo child_pt reset
      (mmu_map_to_mem_maps child_pt 0x8000_0000 0x20_0001 false reset
        (omega arith)
        (omega arith)
        (omega arith)
        (omega arith)
        child-enough).0
      0x8020_0000
mmu_map_to_mem_maps_example =
    (mmu_map_to_mem_maps child_pt 0x8000_0000 0x20_0001 false reset (omega arith) (omega arith)
        (omega arith) (omega arith) child-enough).2
      0x8020_0000 (omega arith) (omega arith) (omega arith)

mmu_map_to_mem-out_of_memory_example :
    mmu_map_to_mem child_pt 0x8000_0000 0x2000_0000 false reset ≡ panic out_of_memory
mmu_map_to_mem-out_of_memory_example =
    mmu_map_to_mem-out_of_memory child_pt 0x8000_0000 0x2000_0000 false reset (omega arith)
      (omega (arith, reset-free))

-- Nothing is mapped, so nothing is owned.
reset-IsOwner : (pt : PageTable) → pt.asid ≢ 0 → IsOwner pt reset
reset-IsOwner pt h = record {
  live = h;
  ram = λ i p. absurd (p.0 refl);
  once = λ i j p q e. absurd (p.0 refl);
}

-- Page 1 belongs to the child, which maps it at 0x80000000.
abbrev one_page : Vm
one_page = record reset {
  paddr_to_asid_map = update (λ _. 0) 1 2;
  tables = update (λ _ _. zero_fld) 2 (update (λ _. zero_fld) 0x800 (section_fld 0x0010_0000 0));
}

one_page-run : mmu_map_to_mem child_pt 0x8000_0000 1 false reset ≡ ok one_page
unfolding mmu_map_to_mem map_pages mmu_map_section find_available_page find_page_from claim_page
    sync_pte write_pte
one_page-run = refl

mmu_map_to_mem-IsOwner_example : IsOwner child_pt one_page × IsOwner kernel_pt one_page
mmu_map_to_mem-IsOwner_example =
    mmu_map_to_mem-IsOwner child_pt kernel_pt 0x8000_0000 1 false reset one_page (omega arith)
      (reset-IsOwner child_pt (omega arith)) (reset-IsOwner kernel_pt (omega arith)) one_page-run

one_page-IsOwner :
    (pt : PageTable)
    → pt.vaddr_map ≢ 2
    → pt.asid ≢ 0
    → IsOwner child_pt one_page × IsOwner pt one_page
one_page-IsOwner pt ne h =
    mmu_map_to_mem-IsOwner child_pt pt 0x8000_0000 1 false reset one_page ne
      (reset-IsOwner child_pt (omega arith)) (reset-IsOwner pt h) one_page-run

child-IsOwner : IsOwner child_pt one_page
child-IsOwner = (one_page-IsOwner kernel_pt (omega arith) (omega arith)).0

kernel-IsOwner : IsOwner kernel_pt one_page
kernel-IsOwner = (one_page-IsOwner kernel_pt (omega arith) (omega arith)).1

mmu_unmap_frees_example :
    (mmu_unmap_frees child_pt one_page child-IsOwner).0.paddr_to_asid_map 1 ≡ 0
unfolding section_fld
mmu_unmap_frees_example =
    (mmu_unmap_frees child_pt one_page child-IsOwner).3 0x800 (omega arith) (omega arith)

abbrev given_up : Vm
given_up = record one_page { paddr_to_asid_map = update (update (λ _. 0) 1 2) 1 0 }

given_up-run : mmu_unmap child_pt one_page ≡ ok given_up
unfolding mmu_unmap unmap_from unmap_entry section_fld
given_up-run = refl

mmu_unmap-IsOwner_example : IsOwner kernel_pt given_up
mmu_unmap-IsOwner_example =
    mmu_unmap-IsOwner child_pt one_page child-IsOwner kernel_pt given_up (omega arith)
      kernel-IsOwner given_up-run

-- As `exec_file` leaves it: page 1 is the kernel's, at 0x10000000, and the child maps it too.
abbrev shared_page : Vm
shared_page = record reset {
  paddr_to_asid_map = update (λ _. 0) 1 1;
  tables =
      update (update (λ _ _. zero_fld) 1 (update (λ _. zero_fld) 0x100 (section_fld 0x0010_0000 0)))
        2 (update (λ _. zero_fld) 0x800 (section_fld 0x0010_0000 2));
}

shared_page-InRam : InRam child_pt shared_page
unfolding section_fld
shared_page-InRam i h = ground arith

shared_page-child : IsPrivatePte (shared_page.tables 2 0x800)
unfolding section_fld
shared_page-child = ground arith

shared_page-kernel : IsPrivatePte (shared_page.tables 1 0x100)
unfolding section_fld
shared_page-kernel = ground arith

shared_page-same :
    (shared_page.tables 2 0x800).sec_base_addr ≡ (shared_page.tables 1 0x100).sec_base_addr
unfolding section_fld
shared_page-same = refl

mmu_unmap_shared_example :
    ¬ IsOwner kernel_pt
      (mmu_unmap_shared child_pt kernel_pt shared_page 0x800 0x100 shared_page-InRam
        (omega arith)
        shared_page-child
        shared_page-kernel
        shared_page-same).0
mmu_unmap_shared_example =
    (mmu_unmap_shared child_pt kernel_pt shared_page 0x800 0x100 shared_page-InRam (omega arith)
      shared_page-child shared_page-kernel shared_page-same).4

fld_set_base_addr-ok_example :
    (0x0030_0000 % 2 ^ 20 ≡ 0)
    × (record fld_mk { sec_base_addr = 3 } ≡ record fld_mk { sec_base_addr = 0x0030_0000 / 2 ^ 20 })
unfolding fld_set_base_addr
fld_set_base_addr-ok_example = fld_set_base_addr-ok fld_mk 0x0030_0000 (omega arith) refl

-- The test for section alignment lets addresses through that are no section's.
loose_alignment : (is_aligned 0x20 20 ≡ true) × (0x20 % 2 ^ 20 ≡ 0x20)
loose_alignment = (refl, refl)

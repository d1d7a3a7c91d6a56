-- ===== src/Tests/Allocator.antt =====
-- The heap of a process that has none yet, over the system call.
use simple_pi_os.Prelude.{[], arith, ok, refl, ◌+◌, ◌≡◌}
use simple_pi_os.Descriptor.{zero_fld}
use simple_pi_os.Kmalloc.{Heap, kmalloc}
use simple_pi_os.Kmalloc.Blocks.{IsHeap, kmalloc-IsHeap, whole}
use simple_pi_os.Kmalloc.Kernel.{kernel_break}
use simple_pi_os.Process.{Process, Sys}
use simple_pi_os.Vm.FreePages.{free_from, free_pages}

abbrev pub process : Process
process = record {
  heap_start = 0x90_0000;
  heap_end = 0x90_0000;
  page_tab = record { asid = 2; vaddr_map = 2 };
}

abbrev pub sys : Sys
sys = record {
  vm = record {
    paddr_to_asid_map = λ _. 0;
    tables = λ _ _. zero_fld;
    cpu = record { control_reg1 = 1; domain_access_ctrl = 0; procid = 2; ttbr0 = 2 };
    cache_ops = [];
    ram = λ _. 7;
  };
  procs = λ _. process;
  kernel_proc = 5;
  current_proc = 6;
}

abbrev pub fresh_heap : Heap
fresh_heap = record { heap_start = 0x90_0000; heap_end = 0x90_0000; heap = 0x90_0000 }

pub fresh_heap-IsHeap : IsHeap kernel_break fresh_heap sys
fresh_heap-IsHeap = record {
  live = (
    record {
      kernel = cc;
      current = cc;
      live = cc;
      mmu = refl;
      table = refl;
      heap = omega arith;
      at_page = refl;
    },
    λ x low high. absurd (omega arith),
  );
  opened = omega arith;
  starts = omega arith;
  ordered = omega arith;
  inside = omega arith;
  at_break = refl;
  aligned = refl;
}

pub sys-free : free_pages sys.vm ≡ 511
unfolding free_pages free_from
sys-free = refl

kmalloc-IsHeap_example :
    (g : Heap) × (t : Sys) × (kmalloc kernel_break 100 fresh_heap sys ≡ ok (0x90_0000, (g, t)))
    × IsHeap kernel_break g t
    × (g.heap ≡ 0x90_0000 + whole 100)
    × (g.heap_start ≡ 0x90_0000)
kmalloc-IsHeap_example =
    kmalloc-IsHeap kernel_break 100 fresh_heap sys fresh_heap-IsHeap (omega (arith, sys-free))
      (omega arith)

-- ===== src/Kmalloc/Kernel.antt =====
-- The heap over the system call itself: `kernel_sbrk` of pi-side/kernel/syscall.c moves the break, and memory is written
-- through the page table of the running process.
use simple_pi_os.Prelude.{
  ==_refl, Bool-cases, Result, ap, arith, inl, inr, ltb, ltb→le, ltb→lt, ne→==, ok, refl, some, sym,
  u32, update, ℕ, ◌!=◌, ◌%◌, ◌+◌, ◌<◌, ◌>>=◌, ◌^◌, ◌∙◌, ◌≡◌, ◌≤◌,
}
use simple_pi_os.Kmalloc.{Break}
use simple_pi_os.Process.{Process, Sys, kernel_sbrk, memset_zero, moved}
use simple_pi_os.Process.Grows.{Mapped-Leads, current, kernel_sbrk_run, physical-ram}
use simple_pi_os.Process.Sbrk.{
  IsRunning, Leads, Mapped, WasFree, map_heap-Mapped, memset_zero-Zeroed,
}
use simple_pi_os.Vm.{Vm}
use simple_pi_os.Vm.FreePages.{free_pages}
use simple_pi_os.Vm.MapToMem.{pages_needed}
use simple_pi_os.Vm.Memory.{bit, mmu_enabled, physical}
use simple_pi_os.Vm.Translate.{translate}

-- The heap of the running process is mapped.
abbrev pub IsMapped : Sys → Type 0
IsMapped s =
    (x : ℕ)
    → (current s).heap_start ≤ x
    → x < (current s).heap_end
    → (pa : ℕ) × (physical s.vm x ≡ some pa)

abbrev pub IsLive : Sys → Type 0
IsLive s = IsRunning s × IsMapped s

-- `memset` of a part of the heap with zeros
abbrev pub clear : (addr size : ℕ) → Sys → Result Sys
clear addr size s = memset_zero size addr s.vm >>= λ vm. ok (record s { vm = vm })

below_stays :
    (p : Process) (incr : ℕ) (vm vm' : Vm) (x pa : ℕ)
    → Mapped p incr vm vm'
    → bit vm.cpu.control_reg1 mmu_enabled ≡ 1
    → vm.cpu.ttbr0 ≡ p.page_tab.vaddr_map
    → x < p.heap_end
    → physical vm x ≡ some pa
    → physical vm' x ≡ some pa
unfolding physical
below_stays p incr vm vm' x pa m mmu table low e =
    let was : translate (vm.tables p.page_tab.vaddr_map) x ≡ some pa = (rw (mmu, table) at e) in
    rw (m.mmu, m.table) (m.stays x low ∙ was)

pub kernel_sbrk-IsLive :
    (incr : ℕ) (s : Sys)
    → IsLive s
    → 0 < incr
    → incr % 2 ^ 20 ≡ 0
    → pages_needed (current s).heap_end incr ≤ free_pages s.vm
    → (current s).heap_end + incr < 2 ^ 32
    → (t : Sys) × (kernel_sbrk incr s ≡ ok ((current s).heap_end + incr, t))
      × ((current t).heap_end ≡ (current s).heap_end + incr)
      × ((current t).heap_start ≡ (current s).heap_start)
      × IsLive t
unfolding Leads
kernel_sbrk-IsLive incr s (is, mapped) some_incr whole enough fits =
    let p = current s in
    let heap =
      map_heap-Mapped (s.current_proc != s.kernel_proc) (s.procs s.kernel_proc) p incr s.vm is.live
        is.mmu is.table is.heap is.at_page some_incr (omega arith) enough in
    let leads = Mapped-Leads p incr s.vm heap.0 heap.2 in
    let zero = memset_zero-Zeroed incr p.heap_end heap.0 (WasFree s.vm) leads in
    let vm2 = record heap.0 { ram = zero.0 } in
    let t : Sys = record s { vm = vm2; procs = update s.procs s.current_proc (moved p incr) } in
    let now : current t ≡ moved p incr = rw (==_refl s.current_proc) refl in
    let sum : u32 (p.heap_end + incr) ≡ p.heap_end + incr = omega arith in
    let end : (current t).heap_end ≡ p.heap_end + incr = ap (λ q. q.heap_end) now ∙ sum in
    let tables = ap (λ q. q.page_tab) now in
    let start : (current t).heap_start ≡ p.heap_start = ap (λ q. q.heap_start) now in
    (
      t,
      kernel_sbrk_run incr s heap.0 vm2 is.kernel is.current (ne→== incr 0 (λ e. omega arith))
            heap.1 zero.1.runs
          ∙ ap (λ b. ok (b, t)) sum,
      end,
      ap (λ q. q.heap_start) now,
      (
        record {
          kernel = is.kernel;
          current = is.current;
          live = λ e. is.live (sym (ap (λ pt. pt.asid) tables) ∙ e);
          mmu = heap.2.mmu;
          table = heap.2.table ∙ sym (ap (λ pt. pt.vaddr_map) tables);
          heap = omega (arith, end, some_incr);
          at_page = ap (λ a. a % 2 ^ 20) end ∙ omega (arith, is.at_page, whole);
        },
        λ x low high. elim (Bool-cases (ltb x p.heap_end)) [
          | inl b ↦
              let old = ltb→lt x p.heap_end b in
              let to = mapped x (omega (arith, start, low)) old in
              (
                to.0,
                physical-ram x heap.0 zero.0
                    ∙ below_stays p incr s.vm heap.0 x to.0 heap.2 is.mmu is.table old to.1,
              )
          | inr b ↦
              let to = leads x (ltb→le x p.heap_end b) (omega (arith, high, end)) in
              (to.0, physical-ram x heap.0 zero.0 ∙ to.1)
        ],
      ),
    )

pub clear-IsLive :
    (addr size : ℕ) (s : Sys)
    → IsLive s
    → (current s).heap_start ≤ addr
    → addr + size ≤ (current s).heap_end
    → (t : Sys) × (clear addr size s ≡ ok t)
      × ((current t).heap_end ≡ (current s).heap_end)
      × ((current t).heap_start ≡ (current s).heap_start)
      × IsLive t
unfolding Leads
clear-IsLive addr size s (is, mapped) low high =
    let zero =
      memset_zero-Zeroed size addr s.vm (λ _. Unit)
        (λ x a b. let to = mapped x (omega arith) (omega arith) in (to.0, to.1, tt)) in
    (
      record s { vm = record s.vm { ram = zero.0 } },
      rw zero.1.runs refl,
      refl,
      refl,
      (
        record {
          kernel = is.kernel;
          current = is.current;
          live = is.live;
          mmu = is.mmu;
          table = is.table;
          heap = is.heap;
          at_page = is.at_page;
        },
        λ x a b. let to = mapped x a b in (to.0, physical-ram x s.vm zero.0 ∙ to.1),
      ),
    )

abbrev pub kernel_break : Break Sys
kernel_break = record {
  IsLive = IsLive;
  base = λ s. (current s).heap_start;
  brk = λ s. (current s).heap_end;
  HasRoom = λ incr s. pages_needed (current s).heap_end incr ≤ free_pages s.vm;
  sbrk = kernel_sbrk;
  memset_zero = clear;
  grows = kernel_sbrk-IsLive;
  fills = clear-IsLive;
}

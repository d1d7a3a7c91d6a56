-- ===== src/Process/Grows.antt =====
-- `kernel_sbrk`: the heap of a process grows by zeroed memory of its own.
use simple_pi_os.Prelude.{
  ==_refl, ap, arith, false, ne→!=, ne→==, ok, refl, some, u32, update, ℕ, ◌!=◌, ◌%◌, ◌*◌, ◌+◌, ◌<◌,
  ◌==◌, ◌>>>◌, ◌^◌, ◌∙◌, ◌≡◌, ◌≢◌, ◌≤◌,
}
use simple_pi_os.Vm.{Vm}
use simple_pi_os.Vm.FreePages.{free_pages}
use simple_pi_os.Vm.MapToMem.{pages_needed}
use simple_pi_os.Vm.Memory.{physical}
use simple_pi_os.Process.{Process, Sys, kernel_sbrk, map_heap, memset_zero, moved}
use simple_pi_os.Process.Sbrk.{
  IsRunning, Leads, Mapped, WasFree, get8, map_heap-Mapped, memset_zero-Zeroed,
}

abbrev pub current : Sys → Process
current s = s.procs s.current_proc

pub kernel_sbrk_run :
    (incr : ℕ) (s : Sys) (vm1 vm2 : Vm)
    → s.kernel_proc ≢ 0
    → s.current_proc ≢ 0
    → (incr == 0) ≡ false
    → map_heap (s.current_proc != s.kernel_proc) (s.procs s.kernel_proc) (current s) incr s.vm
      ≡ ok vm1
    → memset_zero incr (current s).heap_end vm1 ≡ ok vm2
    → kernel_sbrk incr s
      ≡ ok (
        u32 ((current s).heap_end + incr),
        record s { vm = vm2; procs = update s.procs s.current_proc (moved (current s) incr) },
      )
unfolding kernel_sbrk
kernel_sbrk_run incr s vm1 vm2 kernel cur some_incr mapped zeroed =
    rw (ne→!= s.kernel_proc 0 kernel, ne→!= s.current_proc 0 cur)
      (rw some_incr (rw mapped (rw zeroed refl)))

pub Mapped-Leads :
    (p : Process) (incr : ℕ) (vm vm' : Vm)
    → Mapped p incr vm vm'
    → Leads vm' incr p.heap_end (WasFree vm)
unfolding Leads physical
Mapped-Leads p incr vm vm' m = λ x low high.
    let to = m.maps x low high in
    (to.0 * 2 ^ 20 + x % 2 ^ 20, rw (m.mmu, m.table) to.4, same_page vm to.0 x to.2)
  where
    same_page :
        (vm : Vm) (k x : ℕ)
        → vm.paddr_to_asid_map k ≡ 0
        → vm.paddr_to_asid_map ((k * 2 ^ 20 + x % 2 ^ 20) >>> 20) ≡ 0
    same_page vm k x free = let e : (k * 2 ^ 20 + x % 2 ^ 20) >>> 20 ≡ k = omega arith in rw e free

pub physical-ram :
    (x : ℕ) (vm : Vm) (ram : ℕ → ℕ) → physical (record vm { ram = ram }) x ≡ physical vm x
unfolding physical
physical-ram x vm ram = refl

get8_run :
    (x pa : ℕ) (vm : Vm) (ram : ℕ → ℕ)
    → physical vm x ≡ some pa
    → ram pa ≡ 0
    → get8 x (record vm { ram = ram }) ≡ ok 0
unfolding get8
get8_run x pa vm ram e z = rw (get8, physical-ram x vm ram, e) (ap ok z)

-- For a process that runs with the MMU on and a heap that ends at a page, and with enough free pages, the
-- call moves the end of the heap by what was asked for and returns the new end. Every address of the new
-- part then reads as zero, and no byte has changed in a page that had an owner before.
pub kernel_sbrk-grows :
    (incr : ℕ) (s : Sys)
    → IsRunning s
    → 0 < incr
    → (current s).heap_end + incr ≤ 2 ^ 32
    → pages_needed (current s).heap_end incr ≤ free_pages s.vm
    → (t : Sys) × (kernel_sbrk incr s ≡ ok (u32 ((current s).heap_end + incr), t))
      × (current t ≡ moved (current s) incr)
      × ((x : ℕ) → (current s).heap_end ≤ x → x < (current s).heap_end + incr → get8 x t.vm ≡ ok 0)
      × ((pa : ℕ) → s.vm.paddr_to_asid_map (pa >>> 20) ≢ 0 → t.vm.ram pa ≡ s.vm.ram pa)
unfolding Leads
kernel_sbrk-grows incr s is some_incr fits enough =
    let heap =
      map_heap-Mapped (s.current_proc != s.kernel_proc) (s.procs s.kernel_proc) (current s) incr
        s.vm is.live is.mmu is.table is.heap is.at_page some_incr fits enough in
    let leads = Mapped-Leads (current s) incr s.vm heap.0 heap.2 in
    let zero = memset_zero-Zeroed incr (current s).heap_end heap.0 (WasFree s.vm) leads in
    let vm2 = record heap.0 { ram = zero.0 } in
    (
      record s { vm = vm2; procs = update s.procs s.current_proc (moved (current s) incr) },
      kernel_sbrk_run incr s heap.0 vm2 is.kernel is.current (ne→== incr 0 (λ e. omega arith))
          heap.1 zero.1.runs,
      rw (==_refl s.current_proc) refl,
      λ x low high.
          let to = leads x low high in
          get8_run x to.0 heap.0 zero.0 to.1 (zero.1.zeros x to.0 low high to.1),
      λ pa owned. zero.1.kept pa owned ∙ ap (λ r. r pa) heap.2.memory,
    )

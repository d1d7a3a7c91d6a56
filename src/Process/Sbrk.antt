-- ===== src/Process/Sbrk.antt =====
-- The two steps of `kernel_sbrk`: pages for the heap, and zeros in them.
use native.Mathlib.Decide.{ℕ_discrete}
use simple_pi_os.Prelude.{
  ==_refl, Bool, Bool-cases, Result, ap, arith, false, fault, if◌then◌else◌, inl, inr, ne→==, none,
  ok, panic, refl, some, some-injective, subst, suc, sym, true, update, zero, ℕ, ◌%◌, ◌*◌, ◌+◌, ◌-◌,
  ◌<◌, ◌==◌, ◌>>>◌, ◌^◌, ◌∙◌, ◌≡◌, ◌≢◌, ◌≤◌,
}
use simple_pi_os.Vm.{Vm, PageTable, end_page, mmu_map_to_mem, start_page}
use simple_pi_os.Vm.MapPages.{map_flags, map_pages_keeps}
use simple_pi_os.Vm.Section.{mapped-cpu}
use simple_pi_os.Vm.FreePages.{free_pages}
use simple_pi_os.Vm.MapToMem.{MapsTo, mmu_map_to_mem_maps, pages_needed}
use simple_pi_os.Vm.Translate.{translate}
use simple_pi_os.Vm.Memory.{bit, mmu_enabled, physical}
use simple_pi_os.Process.{Process, Sys, enter_space, map_heap, memset_zero, put8}

-- A byte through the page table of the running process
unfoldable pub get8 : (addr : ℕ) → Vm → Result ℕ
get8 addr vm = elim (physical vm addr) [ none ↦ panic fault | some pa ↦ ok (vm.ram pa) ]

put8_run :
    (addr v pa : ℕ) (vm : Vm)
    → physical vm addr ≡ some pa
    → put8 addr v vm ≡ ok (record vm { ram = update vm.ram pa v })
unfolding put8
put8_run addr v pa vm e = rw (put8, e) refl

-- The range is translated, and to addresses of this kind alone.
unfoldable pub Leads : (vm : Vm) (n addr : ℕ) (Q : ℕ → Type 0) → Type 0
Leads vm n addr Q = (x : ℕ) → addr ≤ x → x < addr + n → (pa : ℕ) × (physical vm x ≡ some pa) × Q pa

-- Memory after the loop: zero where the range leads, as before where it does not, and zero where it was zero.
pub record Zeroed (vm : Vm) (n addr : ℕ) (Q : ℕ → Type 0) (ram : ℕ → ℕ) : Type 0 where
  pub runs : memset_zero n addr vm ≡ ok (record vm { ram = ram })
  pub zeros : (x pa : ℕ) → addr ≤ x → x < addr + n → physical vm x ≡ some pa → ram pa ≡ 0
  pub kept : (pa : ℕ) → (Q pa → ⊥) → ram pa ≡ vm.ram pa
  pub stays : (pa : ℕ) → vm.ram pa ≡ 0 → ram pa ≡ 0

pub memset_zero-Zeroed :
    (n addr : ℕ) (vm : Vm) (Q : ℕ → Type 0)
    → Leads vm n addr Q
    → (ram : ℕ → ℕ) × Zeroed vm n addr Q ram
unfolding memset_zero Leads physical
memset_zero-Zeroed zero addr vm Q leads = (
  vm.ram,
  record {
    runs = refl;
    zeros = λ x pa low high e. absurd (omega arith);
    kept = λ pa no. refl;
    stays = λ pa z. z;
  },
)
memset_zero-Zeroed (suc n) addr vm Q leads =
    let here = leads addr (omega arith) (omega arith) in
    let vm1 = record vm { ram = update vm.ram here.0 0 } in
    let rest =
      memset_zero-Zeroed n (addr + 1) vm1 Q (λ x low high. leads x (omega arith) (omega arith)) in
    (
      rest.0,
      record {
        runs = rw (put8_run addr 0 here.0 vm here.1) rest.1.runs;
        zeros = λ x pa low high e. elim (ℕ_discrete x addr) [
          | yes same ↦
              let is : pa ≡ here.0 = some-injective (sym e ∙ ap (physical vm) same ∙ here.1) in
              rest.1.stays pa (rw (is, ==_refl here.0) refl)
          | no other ↦ rest.1.zeros x pa (omega arith) (omega arith) e
        ];
        kept = λ pa no.
            rest.1.kept pa no ∙ rw (ne→== pa here.0 (λ e. no (subst Q (sym e) here.2))) refl;
        stays = λ pa z.
            rest.1.stays pa
              (elim (Bool-cases (pa == here.0)) [ inl e ↦ rw e refl | inr e ↦ rw e z ]);
      },
    )

-- Mapping pages leaves the control registers and memory.
mmu_map_to_mem-cpu :
    (pt : PageTable) (addr size : ℕ) (vm vm' : Vm)
    → pt.asid ≢ 0
    → start_page addr + 1 + (end_page addr size - start_page addr) ≤ 4096
    → mmu_map_to_mem pt addr size true vm ≡ ok vm'
    → (vm'.cpu ≡ vm.cpu) × (vm'.ram ≡ vm.ram)
unfolding mmu_map_to_mem
mmu_map_to_mem-cpu pt addr size vm vm' live small run =
    map_pages_keeps pt true (λ v. (v.cpu ≡ vm.cpu) × (v.ram ≡ vm.ram))
      (λ page k v h free same.
        let step = mapped-cpu pt (page * 2 ^ 20) (k * 2 ^ 20) (map_flags true) v in
        (step.0 ∙ same.0, step.1 ∙ same.1))
      (end_page addr size - start_page addr) (start_page addr + 1) vm vm' live small (refl, refl)
      run

-- A process that runs: the MMU is on with its table, and its heap ends at the start of a page.
pub record IsRunning (s : Sys) : Type 0 where
  pub kernel : s.kernel_proc ≢ 0
  pub current : s.current_proc ≢ 0
  pub live : (s.procs s.current_proc).page_tab.asid ≢ 0
  pub mmu : bit s.vm.cpu.control_reg1 mmu_enabled ≡ 1
  pub table : s.vm.cpu.ttbr0 ≡ (s.procs s.current_proc).page_tab.vaddr_map
  pub heap : 0 < (s.procs s.current_proc).heap_end
  pub at_page : (s.procs s.current_proc).heap_end % 2 ^ 20 ≡ 0

-- The address lies in a page that had no owner.
abbrev pub WasFree : Vm → ℕ → Type 0
WasFree vm pa = vm.paddr_to_asid_map (pa >>> 20) ≡ 0

map_heap_run :
    (other : Bool) (kernel current : Process) (incr : ℕ) (vm vm' : Vm)
    → mmu_map_to_mem current.page_tab current.heap_end incr true
        (if other then enter_space kernel vm else vm)
      ≡ ok vm'
    → map_heap other kernel current incr vm ≡ ok (if other then enter_space current vm' else vm')
unfolding map_heap
map_heap_run other kernel current incr vm vm' e = rw (map_heap, e) refl

-- The new heap after the pages have been mapped
pub record Mapped (current : Process) (incr : ℕ) (vm vm' : Vm) : Type 0 where
  pub mmu : bit vm'.cpu.control_reg1 mmu_enabled ≡ 1
  pub table : vm'.cpu.ttbr0 ≡ current.page_tab.vaddr_map
  pub memory : vm'.ram ≡ vm.ram
  pub stays :
      (x : ℕ)
      → x < current.heap_end
      → translate (vm'.tables current.page_tab.vaddr_map) x
        ≡ translate (vm.tables current.page_tab.vaddr_map) x
  pub maps :
      (x : ℕ)
      → current.heap_end ≤ x
      → x < current.heap_end + incr
      → MapsTo current.page_tab vm vm' x
  pub owned :
      (k : ℕ) → vm.paddr_to_asid_map k ≢ 0 → vm'.paddr_to_asid_map k ≡ vm.paddr_to_asid_map k

pub map_heap-Mapped :
    (other : Bool) (kernel current : Process) (incr : ℕ) (vm : Vm)
    → current.page_tab.asid ≢ 0
    → bit vm.cpu.control_reg1 mmu_enabled ≡ 1
    → vm.cpu.ttbr0 ≡ current.page_tab.vaddr_map
    → 0 < current.heap_end
    → current.heap_end % 2 ^ 20 ≡ 0
    → 0 < incr
    → current.heap_end + incr ≤ 2 ^ 32
    → pages_needed current.heap_end incr ≤ free_pages vm
    → (vm' : Vm) × (map_heap other kernel current incr vm ≡ ok vm') × Mapped current incr vm vm'
unfolding enter_space free_pages
map_heap-Mapped false kernel current incr vm live mmu table pos at_page some_incr fits enough =
    let got =
      mmu_map_to_mem_maps current.page_tab current.heap_end incr true vm live pos some_incr fits
        enough in
    let same =
      mmu_map_to_mem-cpu current.page_tab current.heap_end incr vm got.0 live (omega arith) got.1 in
    (
      got.0,
      map_heap_run false kernel current incr vm got.0 got.1,
      record {
        mmu = ap (λ c. bit c.control_reg1 mmu_enabled) same.0 ∙ mmu;
        table = ap (λ c. c.ttbr0) same.0 ∙ table;
        memory = same.1;
        stays = λ x below. got.3 current.page_tab.vaddr_map x (inr (inl (omega arith)));
        maps = λ x low high. got.2 x low high (omega arith);
        owned = got.4;
      },
    )
map_heap-Mapped true kernel current incr vm live mmu table pos at_page some_incr fits enough =
    let inside = enter_space kernel vm in
    let got =
      mmu_map_to_mem_maps current.page_tab current.heap_end incr true inside live pos some_incr fits
        enough in
    let same =
      mmu_map_to_mem-cpu current.page_tab current.heap_end incr inside got.0 live (omega arith)
        got.1 in
    (
      enter_space current got.0,
      map_heap_run true kernel current incr vm got.0 got.1,
      record {
        mmu = ap (λ c. bit c.control_reg1 mmu_enabled) same.0 ∙ mmu;
        table = refl;
        memory = same.1;
        stays = λ x below. got.3 current.page_tab.vaddr_map x (inr (inl (omega arith)));
        maps = λ x low high. got.2 x low high (omega arith);
        owned = got.4;
      },
    )

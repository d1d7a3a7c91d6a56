-- ===== src/Vm/Enable/Kernel.antt =====
-- The kernel's view of memory after `vm_enable`.
use simple_pi_os.Prelude.{
  Bool, ap, arith, if◌then◌else◌, leb, none, ok, refl, some, update, ℕ, ◌&&◌, ◌*◌, ◌<◌, ◌==◌, ◌>>>◌,
  ◌^◌, ◌||◌, ◌∙◌, ◌≡◌, ◌≤◌,
}
use simple_pi_os.Descriptor.{Fld, zero_fld}
use simple_pi_os.Vm.{
  Vm, mmu_init, mmu_map_section, mmu_map_kernel_sections, claim_page, section_fld, sync_pte,
  write_pte,
}
use simple_pi_os.Vm.Memory.{physical, put32, get32, bit, set_bit}
use simple_pi_os.Vm.Enable.{probe, kernel_pt, make_tables, map_tables, turn_on, vm_enable}
use simple_pi_os.Vm.Ownership.{IsOwner}
use simple_pi_os.Vm.Translate.{translate}

-- The section of a page with the same virtual and physical address.
abbrev is_kernel_page : ℕ → Bool
is_kernel_page i = i == 0 || i == 0x200 || i == 0x201 || i == 0x202 || i == 0x203

abbrev is_table_page : ℕ → Bool
is_table_page i = leb 1 i && leb i 4

-- The state that `make_tables` leaves: the kernel's sections, then the tables' own.
map_kernel : (page flags : ℕ) → Vm → Vm
map_kernel page flags = write_pte kernel_pt page (section_fld (page * 2 ^ 20) flags)

built : Vm → Vm
built vm = map_kernel 4 0 (
    map_kernel 3 0 (
      map_kernel 2 0 (
        map_kernel 1 0 (
          map_kernel 0x203 1 (
            map_kernel 0x202 1
              (map_kernel 0x201 1 (map_kernel 0x200 1 (map_kernel 0 1 cleared))))))))
  where
    cleared : Vm
    cleared = record vm {
      paddr_to_asid_map = update (update (update (update (λ _. 0) 1 1) 2 1) 3 1) 4 1;
      tables = update (update vm.tables 0 (λ _. zero_fld)) 1 (λ _. zero_fld);
    }

make_tables_eq : (vm : Vm) → make_tables vm ≡ ok (built vm)
unfolding make_tables map_tables mmu_init mmu_map_section mmu_map_kernel_sections claim_page
    section_fld sync_pte write_pte built map_kernel
make_tables_eq vm = refl

-- The descriptor of a page in the kernel's table.
pub kernel_pte : ℕ → Fld
kernel_pte i =
    if is_kernel_page i
    then section_fld (i * 2 ^ 20) 1
    else if is_table_page i
    then section_fld (i * 2 ^ 20) 0
    else zero_fld

built-tables :
    (vm : Vm) (t i : ℕ)
    → (built vm).tables t i
      ≡ (if t == 1 then kernel_pte i else if t == 0 then zero_fld else vm.tables t i)
unfolding built kernel_pte map_kernel write_pte
built-tables vm t i = ground arith

built-owner :
    (vm : Vm) (k : ℕ) → (built vm).paddr_to_asid_map k ≡ (if is_table_page k then 1 else 0)
unfolding built map_kernel write_pte
built-owner vm k = ground arith

-- The identity on the kernel's sections and on the tables' pages, and a fault elsewhere.
kernel_pte-translate :
    (x : ℕ)
    → x < 2 ^ 32
    → translate kernel_pte x
      ≡ (if is_kernel_page (x >>> 20) || is_table_page (x >>> 20) then some x else none)
unfolding kernel_pte section_fld
kernel_pte-translate x h = ground arith

-- The register after both writes: the two bits are on.
xp_on : (c : ℕ) → bit c 0 ≡ 0 → (bit (set_bit c 23) 23 ≡ 1) × (bit (set_bit c 23) 0 ≡ 0)
xp_on c off = ground arith

mmu_on : (c : ℕ) → bit c 0 ≡ 0 → bit (set_bit c 0) 0 ≡ 1
mmu_on c off = ground arith

-- The state after `turn_on`: the registers, and the probe's word.
enabled : ℕ → Vm → Vm
enabled rand_val vm = record vm {
  cpu = record {
    control_reg1 = set_bit (set_bit vm.cpu.control_reg1 23) 0;
    domain_access_ctrl = 0xffff_ffff;
    procid = 1;
    ttbr0 = 1;
  };
  ram = update vm.ram probe rand_val;
}

turn_on_eq :
    (rand_val : ℕ) (vm : Vm)
    → bit vm.cpu.control_reg1 0 ≡ 0
    → translate (vm.tables 1) probe ≡ some probe
    → turn_on rand_val vm ≡ ok (enabled rand_val vm)
unfolding turn_on put32 get32 physical enabled
turn_on_eq rand_val vm off identity =
    ground (arith, xp_on vm.cpu.control_reg1 off, mmu_on (set_bit vm.cpu.control_reg1 23), identity)

-- The kernel owns the tables' pages after the call.
built-IsOwner :
    (vm v : Vm)
    → v.tables ≡ (built vm).tables
    → v.paddr_to_asid_map ≡ (built vm).paddr_to_asid_map
    → IsOwner kernel_pt v
unfolding kernel_pte section_fld
built-IsOwner vm v same owners = record {
  live = omega arith;
  ram = λ i. rw (entry i) (λ h. ground (arith, owner (kernel_pte i).sec_base_addr));
  once = λ i j. rw (entry i, entry j) (λ h g e. ground arith);
}
  where
    entry : (i : ℕ) → v.tables 1 i ≡ kernel_pte i
    entry i = ap (λ (t : ℕ → ℕ → Fld). t 1 i) same ∙ built-tables vm 1 i

    owner : (k : ℕ) → v.paddr_to_asid_map k ≡ (if is_table_page k then 1 else 0)
    owner k = ap (λ (o : ℕ → ℕ). o k) owners ∙ built-owner vm k

-- Started with the MMU off, `vm_enable` passes all its own checks, the final read-back through the
-- new mapping included. It leaves the MMU on with the kernel's ASID and table; an address is then
-- reached unchanged if its section is the kernel's (page 0), one of the four peripheral sections or
-- one of the four that hold the tables, and is a fault otherwise; the kernel owns the pages of the
-- tables, and nobody owns any other page; and only tables 0 and 1 are written.
pub vm_enable_lem :
    (rand_val : ℕ) (vm : Vm)
    → bit vm.cpu.control_reg1 0 ≡ 0
    → (vm' : Vm) × (vm_enable rand_val vm ≡ ok (kernel_pt, vm'))
      × (vm'.cpu.procid ≡ 1)
      × ((x : ℕ)
          → x < 2 ^ 32
          → physical vm' x
            ≡ (if is_kernel_page (x >>> 20) || is_table_page (x >>> 20) then some x else none))
      × IsOwner kernel_pt vm'
      × ((k : ℕ) → vm'.paddr_to_asid_map k ≡ (if is_table_page k then 1 else 0))
      × ((t i : ℕ) → 2 ≤ t → vm'.tables t i ≡ vm.tables t i)
unfolding vm_enable physical enabled built map_kernel write_pte
vm_enable_lem rand_val vm off = (
  enabled rand_val (built vm),
  rw (make_tables_eq vm, turn_on_eq rand_val (built vm) off (kernel_view probe (omega arith))) refl,
  refl,
  λ x h.
      rw (mmu_on (set_bit vm.cpu.control_reg1 23) (xp_on vm.cpu.control_reg1 off).1)
        (kernel_view x h),
  built-IsOwner vm _ refl refl,
  built-owner vm,
  λ t i h. ground (arith, built-tables vm t i),
)
  where
    kernel_view :
        (x : ℕ)
        → x < 2 ^ 32
        → translate ((built vm).tables 1) x
          ≡ (if is_kernel_page (x >>> 20) || is_table_page (x >>> 20) then some x else none)
    kernel_view x h = rw (built-tables vm 1 (x >>> 20)) (kernel_pte-translate x h)

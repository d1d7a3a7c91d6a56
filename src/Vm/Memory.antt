-- ===== src/Vm/Memory.antt =====
-- Memory as the kernel reaches it with `PUT32` and `GET32`: through the table in TTBR0 once the MMU
-- is on, else by physical address. `read_control_reg1` returns what was written to the register;
-- its bit fields are those of `struct control_reg1` in pi-side/kernel/vm.h.
use simple_pi_os.Prelude.{
  Option, Result, fault, if◌then◌else◌, none, ok, panic, some, update, ℕ, ◌%◌, ◌+◌, ◌==◌, ◌>>>◌,
  ◌^◌,
}
use simple_pi_os.Vm.{Vm}
use simple_pi_os.Vm.Translate.{translate}

-- Bit `k` of a register, and the register with that bit field set to 1.
abbrev pub bit : ℕ → ℕ → ℕ
bit w k = (w >>> k) % 2

abbrev pub set_bit : ℕ → ℕ → ℕ
set_bit w k = if bit w k == 0 then w + 2 ^ k else w

-- Positions in control register 1.
abbrev pub mmu_enabled : ℕ
mmu_enabled = 0

abbrev pub xp_pt : ℕ
xp_pt = 23

abbrev pub write_control_reg1 : ℕ → Vm → Vm
write_control_reg1 w vm = record vm { cpu = record vm.cpu { control_reg1 = w } }

abbrev pub write_domain_access_ctrl : ℕ → Vm → Vm
write_domain_access_ctrl w vm = record vm { cpu = record vm.cpu { domain_access_ctrl = w } }

abbrev pub set_procid_ttbr0 : ℕ → ℕ → Vm → Vm
set_procid_ttbr0 procid table vm = record vm {
  cpu = record vm.cpu { procid = procid; ttbr0 = table };
}

-- The physical address that an access goes to; `none` is a translation fault.
unfoldable pub physical : Vm → ℕ → Option ℕ
physical vm va =
    if bit vm.cpu.control_reg1 mmu_enabled == 1
    then translate (vm.tables vm.cpu.ttbr0) va
    else some va

unfoldable pub put32 : (addr v : ℕ) → Vm → Result Vm
put32 addr v vm = elim (physical vm addr) [
  | none ↦ panic fault
  | some pa ↦ ok (record vm { ram = update vm.ram pa v })
]

unfoldable pub get32 : ℕ → Vm → Result ℕ
get32 addr vm = elim (physical vm addr) [ none ↦ panic fault | some pa ↦ ok (vm.ram pa) ]

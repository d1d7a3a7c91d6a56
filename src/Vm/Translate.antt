-- ===== src/Vm/Translate.antt =====
-- What the hardware makes of a table of descriptors (the comment at the head of
-- pi-side/kernel/vm.h): the address that a virtual address stands for.
use simple_pi_os.Prelude.{Option, if◌then◌else◌, none, some, ℕ, ◌%◌, ◌*◌, ◌+◌, ◌==◌, ◌>>>◌, ◌^◌}
use simple_pi_os.Descriptor.{Fld}

-- Bits 31 to 20 of the address choose the descriptor. Tag 0b10 is a section; any other is a fault
-- in this system, which has no second-level tables.
abbrev pub translate : (ℕ → Fld) → ℕ → Option ℕ
translate table va =
    let e = table (va >>> 20) in
    if e.tag == 2 then some (e.sec_base_addr * 2 ^ 20 + va % 2 ^ 20) else none

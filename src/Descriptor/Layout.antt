-- ===== src/Descriptor/Layout.antt =====
-- What `fld_set_base_addr` accepts.
use simple_pi_os.Prelude.{arith, ok, ℕ, ◌%◌, ◌/◌, ◌<◌, ◌^◌, ◌≡◌}
use simple_pi_os.Descriptor.{Fld, fld_set_base_addr}

-- On any 32-bit address, `fld_set_base_addr` succeeds only if the address is that of a section, and
-- then sets the base to the section's number and nothing else: the read-back makes up for the loose
-- test of alignment.
pub fld_set_base_addr-ok :
    (f : Fld) (addr : ℕ) {g : Fld}
    → addr < 2 ^ 32
    → fld_set_base_addr f addr ≡ ok g
    → (addr % 2 ^ 20 ≡ 0) × (g ≡ record f { sec_base_addr = addr / 2 ^ 20 })
unfolding fld_set_base_addr
fld_set_base_addr-ok f addr h e = ground arith

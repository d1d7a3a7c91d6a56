-- ===== src/Descriptor.antt =====
-- First-level page table descriptors: `fld_t` of pi-side/kernel/vm.h, with `fld_mk`,
-- `fld_check_valid` and `fld_set_base_addr` of pi-side/kernel/vm.c.
pub mod Layout
pub mod Aligned
use simple_pi_os.Prelude.{
  Bool, Result, assert, bit_and, demand, ok, u32, ℕ, ◌%◌, ◌*◌, ◌-◌, ◌==◌, ◌>>=◌, ◌>>>◌, ◌>>◌, ◌^◌,
}

-- `struct first_level_descriptor`: each bit field holds a number below 2 to its width.
pub record Fld : Type 0 where
  pub tag : ℕ
  pub b : ℕ
  pub c : ℕ
  pub xn : ℕ
  pub domain : ℕ
  pub imp : ℕ
  pub ap : ℕ
  pub tex : ℕ
  pub apx : ℕ
  pub s : ℕ
  pub n_g : ℕ
  pub super : ℕ
  pub sbz1 : ℕ
  pub sec_base_addr : ℕ

-- The macro `is_aligned(x, a)`: its second argument is the alignment itself.
abbrev pub is_aligned : ℕ → ℕ → Bool
is_aligned x a = bit_and x (a - 1) == 0

-- The descriptor of all zeroes that `memset` leaves.
abbrev pub zero_fld : Fld
zero_fld = record {
  tag = 0;
  b = 0;
  c = 0;
  xn = 0;
  domain = 0;
  imp = 0;
  ap = 0;
  tex = 0;
  apx = 0;
  s = 0;
  n_g = 0;
  super = 0;
  sbz1 = 0;
  sec_base_addr = 0;
}

unfoldable pub fld_mk : Fld
fld_mk = record zero_fld { tag = 2 }

unfoldable pub fld_check_valid : Fld → Result (Unit {0})
fld_check_valid f = do
  assert (f.sbz1 == 0)
  assert (f.tag == 2)
  assert (f.s == 0)
  assert (f.imp == 0)
  assert (f.c == 0)
  assert (f.b == 0)
  assert (f.super == 0)

unfoldable pub fld_set_base_addr : Fld → ℕ → Result Fld
fld_set_base_addr f addr = do
  demand (is_aligned addr 20)
  let f' = record f { sec_base_addr = (addr >>> 20) % 2 ^ 12 }
  assert (u32 (f'.sec_base_addr * 2 ^ 20) == addr)
  ok f'

-- ===== src/Descriptor/Aligned.antt =====
-- What the tests `is_aligned(x, 20)` and `is_aligned(x, 14)` of pi-side/kernel/vm.c test: they mask
-- with 19 and with 13.
use simple_pi_os.Prelude.{
  arith, bit_and, bit_and-zero, bit_and_step, true, ℕ, ◌%◌, ◌*◌, ◌+◌, ◌/◌, ◌≡◌,
}
use simple_pi_os.Descriptor.{is_aligned}

pub bit_and-19 : (x : ℕ) → bit_and x 19 ≡ x % 4 + x / 16 % 2 * 16
bit_and-19 x = omega (
  arith,
  bit_and_step x 19,
  bit_and_step (x / 2) 9,
  bit_and_step (x / 2 / 2) 4,
  bit_and_step (x / 2 / 2 / 2) 2,
  bit_and_step (x / 2 / 2 / 2 / 2) 1,
  bit_and-zero (x / 2 / 2 / 2 / 2 / 2),
)

pub bit_and-13 : (x : ℕ) → bit_and x 13 ≡ x % 2 + x / 4 % 4 * 4
bit_and-13 x = omega (
  arith,
  bit_and_step x 13,
  bit_and_step (x / 2) 6,
  bit_and_step (x / 2 / 2) 3,
  bit_and_step (x / 2 / 2 / 2) 1,
  bit_and-zero (x / 2 / 2 / 2 / 2),
)

-- Section addresses pass, and so do addresses that are only a multiple of 32.
pub is_aligned_section : (x : ℕ) → x % 32 ≡ 0 → is_aligned x 20 ≡ true
is_aligned_section x h = ground (arith, bit_and-19 x)

pub is_aligned_table : (x : ℕ) → x % 16 ≡ 0 → is_aligned x 14 ≡ true
is_aligned_table x h = ground (arith, bit_and-13 x)

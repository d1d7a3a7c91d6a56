-- ===== src/Crc32/Bound.antt =====
-- A checksum is a machine word: it goes over the line as it is.
use simple_pi_os.Prelude.{
  List, [], all_below, all_below-at, arith, bit_and, bit_and-mask, bit_xor, bit_xor-bound, get_or,
  ltb, ltb→lt, refl, true, ℕ, ◌<◌, ◌>>>◌, ◌^◌, ◌∷◌, ◌≡◌,
}
use simple_pi_os.Crc32.{crc32, crc32_loop, crc32_byte, crc32_tab}

table_bound_check : all_below (λ n. ltb (get_or crc32_tab n 0) (2 ^ 32)) 256 ≡ true
unfolding crc32_tab
table_bound_check = refl

table_bound : (i : ℕ) → i < 256 → get_or crc32_tab i 0 < 2 ^ 32
table_bound i p =
    ltb→lt (get_or crc32_tab i 0) (2 ^ 32)
      (all_below-at (λ n. ltb (get_or crc32_tab n 0) (2 ^ 32)) 256 i table_bound_check p)

crc32_byte-bound : (crc b : ℕ) → crc < 2 ^ 32 → crc32_byte crc b < 2 ^ 32
unfolding crc32_byte
crc32_byte-bound crc b h =
    let index : bit_and (bit_xor crc b) 0xff < 256 =
      omega (arith, bit_and-mask 8 (bit_xor crc b)) in
    bit_xor-bound 32 (get_or crc32_tab (bit_and (bit_xor crc b) 0xff) 0) (crc >>> 8)
      (table_bound (bit_and (bit_xor crc b) 0xff) index) (omega arith)

crc32_loop-bound : (crc : ℕ) (bs : List ℕ) → crc < 2 ^ 32 → crc32_loop crc bs < 2 ^ 32
unfolding crc32_loop
crc32_loop-bound crc [] h = h
crc32_loop-bound crc (b ∷ bs) h = crc32_loop-bound (crc32_byte crc b) bs (crc32_byte-bound crc b h)

pub crc32-bound : (bs : List ℕ) → crc32 bs < 2 ^ 32
unfolding crc32
crc32-bound bs =
    bit_xor-bound 32 (crc32_loop 0xffff_ffff bs) 0xffff_ffff
      (crc32_loop-bound 0xffff_ffff bs (omega arith)) (omega arith)

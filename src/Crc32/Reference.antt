-- ===== src/Crc32/Reference.antt =====
-- The checksum against its definition: the CRC of IEEE 802.3, one bit at a time.
use simple_pi_os.Prelude.{
  ==→eq, All, List, [], all_below, all_below-at, ap, arith, bit_and, bit_and-mask, bit_xor,
  bit_xor-bound, bit_xor-fields, bit_xor-half, bit_xor-odd, bit_xor_assoc, bit_xor_cancel,
  bit_xor_comm, bit_xor_swap, double_shift, get_or, if◌then◌else◌, refl, suc, sym, true, zero, ℕ,
  ◌%◌, ◌*◌, ◌+◌, ◌/◌, ◌<◌, ◌==◌, ◌^◌, ◌∙◌, ◌∷◌, ◌≡◌,
}
use simple_pi_os.Crc32.{crc32, crc32_loop, crc32_byte, crc32_tab}

-- One bit shifted out of the register; the polynomial is subtracted if the bit was one.
unfoldable pub reference_bit : ℕ → ℕ
reference_bit c = if (c % 2) == 1 then bit_xor (c / 2) 0xedb8_8320 else c / 2

unfoldable pub reference_bits : (n c : ℕ) → ℕ
reference_bits zero c = c
reference_bits (suc n) c = reference_bits n (reference_bit c)

unfoldable pub reference_loop : ℕ → List ℕ → ℕ
reference_loop crc [] = crc
reference_loop crc (b ∷ bs) = reference_loop (reference_bits 8 (bit_xor crc b)) bs

unfoldable pub reference : List ℕ → ℕ
reference buf = bit_xor (reference_loop 0xffff_ffff buf) 0xffff_ffff

check_string :
    crc32 (0x31 ∷ 0x32 ∷ 0x33 ∷ 0x34 ∷ 0x35 ∷ 0x36 ∷ 0x37 ∷ 0x38 ∷ 0x39 ∷ []) ≡ 0xcbf4_3926
unfolding crc32 crc32_loop crc32_byte crc32_tab
check_string = refl

-- The register is linear: `^` of two words, bit by bit.
linear_bit :
    (p x y a b : ℕ)
    → a < 2
    → b < 2
    → (if ((a + b) % 2) == 1 then bit_xor (bit_xor x y) p else bit_xor x y)
      ≡ bit_xor (if a == 1 then bit_xor x p else x) (if b == 1 then bit_xor y p else y)
linear_bit p x y zero zero ha hb = refl
linear_bit p x y zero (suc zero) ha hb = bit_xor_assoc x y p
linear_bit p x y (suc zero) zero ha hb = bit_xor_swap x y p
linear_bit p x y (suc zero) (suc zero) ha hb = sym (bit_xor_cancel x y p)
linear_bit p x y (suc (suc a)) b ha hb = absurd (omega arith)
linear_bit p x y zero (suc (suc b)) ha hb = absurd (omega arith)
linear_bit p x y (suc zero) (suc (suc b)) ha hb = absurd (omega arith)

reference_bit-xor :
    (a b : ℕ) → reference_bit (bit_xor a b) ≡ bit_xor (reference_bit a) (reference_bit b)
unfolding reference_bit
reference_bit-xor a b =
    rw (bit_xor-half a b, bit_xor-odd a b)
      (linear_bit 0xedb8_8320 (a / 2) (b / 2) (a % 2) (b % 2) (omega arith) (omega arith))

reference_bits-xor :
    (n a b : ℕ) → reference_bits n (bit_xor a b) ≡ bit_xor (reference_bits n a) (reference_bits n b)
unfolding reference_bits
reference_bits-xor zero a b = refl
reference_bits-xor (suc n) a b =
    rw (reference_bit-xor a b) (reference_bits-xor n (reference_bit a) (reference_bit b))

-- The zeros at the right end are shifted out.
reference_bits-zeros : (n a : ℕ) → reference_bits n (a * 2 ^ n) ≡ a
unfolding reference_bits reference_bit
reference_bits-zeros zero a = omega arith
reference_bits-zeros (suc n) a =
    let shifted : reference_bit (a * 2 ^ suc n) ≡ a * 2 ^ n = ground (arith, double_shift a n) in
    rw shifted (reference_bits-zeros n a)

-- The table is the register after eight bits.
table_check : all_below (λ n. get_or crc32_tab n 0 == reference_bits 8 n) 256 ≡ true
unfolding reference_bits reference_bit crc32_tab
table_check = refl

table_entry : (i : ℕ) → i < 256 → get_or crc32_tab i 0 ≡ reference_bits 8 i
table_entry i p =
    ==→eq _ _ (all_below-at (λ n. get_or crc32_tab n 0 == reference_bits 8 n) 256 i table_check p)

crc32_byte_lem : (crc b : ℕ) → b < 256 → crc32_byte crc b ≡ reference_bits 8 (bit_xor crc b)
unfolding crc32_byte
crc32_byte_lem crc b p =
    let low = bit_xor (crc % 256) b in
    let low_byte : low < 256 = bit_xor-bound 8 (crc % 256) b (omega arith) p in
    let halves : crc ≡ bit_xor (crc / 256 * 2 ^ 8) (crc % 256) =
      omega (arith, bit_xor-fields 8 (crc / 256) (crc % 256) (omega arith)) in
    let fields : bit_xor crc b ≡ bit_xor (crc / 256 * 2 ^ 8) low =
      ap (λ (t : ℕ). bit_xor t b) halves ∙ bit_xor_assoc (crc / 256 * 2 ^ 8) (crc % 256) b in
    let masked : bit_and (bit_xor crc b) 0xff ≡ low =
      omega (
        arith,
        bit_and-mask 8 (bit_xor crc b),
        fields,
        bit_xor-fields 8 (crc / 256) low low_byte,
      ) in
    rw (masked, table_entry low low_byte, bit_xor_comm (reference_bits 8 low) (crc / 256))
      (ap (λ (t : ℕ). bit_xor t (reference_bits 8 low)) (sym (reference_bits-zeros 8 (crc / 256)))
        ∙ sym (reference_bits-xor 8 (crc / 256 * 2 ^ 8) low)
        ∙ ap (reference_bits 8) (sym fields))

crc32_loop-reference :
    (crc : ℕ) (bs : List ℕ) → All (λ b. b < 256) bs → crc32_loop crc bs ≡ reference_loop crc bs
unfolding crc32_loop reference_loop
crc32_loop-reference crc [] h = refl
crc32_loop-reference crc (b ∷ bs) (hb, h) =
    rw (crc32_byte_lem crc b hb) (crc32_loop-reference (reference_bits 8 (bit_xor crc b)) bs h)

-- On a buffer of bytes the table-driven loop computes the CRC-32 of the standard: the register starts
-- with all ones, each byte is added to it and eight bits are shifted out, each one subtracting the
-- polynomial 0xedb88320, and the register is inverted at the end.
pub crc32-reference : (buf : List ℕ) → All (λ b. b < 256) buf → crc32 buf ≡ reference buf
unfolding crc32 reference
crc32-reference buf h =
    ap (λ (t : ℕ). bit_xor t 0xffff_ffff) (crc32_loop-reference 0xffff_ffff buf h)

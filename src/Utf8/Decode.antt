-- ===== src/Utf8/Decode.antt =====
-- The decoder after the encoder.
use simple_pi_os.Prelude.{
  ==→eq, Bool, List, Option, Result, [], all_below, all_below-at, ap, arith, bit_and, bit_and-mask,
  bit_or, bit_or-shift, false, le→ltb, lt→ltb, none, ok, panic, refl, some, true, ℕ, ◌%◌, ◌*◌, ◌+◌,
  ◌/◌, ◌<<<◌, ◌<◌, ◌==◌, ◌^◌, ◌∙◌, ◌∷◌, ◌≡◌,
}
use simple_pi_os.Utf8.{
  to_utf8, to_cp, utf8_len, lead_row, decode_len, decode_bytes, join_bytes, mask_of,
}
use simple_pi_os.Utf8.Encode.{standard, to_utf8-standard, range, one, two, three, four}

-- The test that a first byte announces so many bytes
abbrev has_len : (n : ℕ) → Result (Option ℕ) → Bool
has_len n (panic e) = false
has_len n (ok none) = false
has_len n (ok (some m)) = m == n

has_len-eq : (n : ℕ) (r : Result (Option ℕ)) → has_len n r ≡ true → r ≡ ok (some n)
has_len-eq n (panic e) h = absurd (cc)
has_len-eq n (ok none) h = absurd (cc)
has_len-eq n (ok (some m)) h = ap (λ (t : ℕ). ok (some t)) (==→eq m n h)

first_one : all_below (λ x. has_len 1 (utf8_len x)) 0x80 ≡ true
unfolding utf8_len lead_row
first_one = refl

first_two : all_below (λ x. has_len 2 (utf8_len (0xc0 + x))) 0x20 ≡ true
unfolding utf8_len lead_row
first_two = refl

first_three : all_below (λ x. has_len 3 (utf8_len (0xe0 + x))) 0x10 ≡ true
unfolding utf8_len lead_row
first_three = refl

first_four : all_below (λ x. has_len 4 (utf8_len (0xf0 + x))) 0x08 ≡ true
unfolding utf8_len lead_row
first_four = refl

-- A byte after the first gives its six bits.
six : (x : ℕ) → x < 0x40 → bit_and (0x80 + x) 0x3f ≡ x
six x h = omega (arith, bit_and-mask 6 (0x80 + x))

-- Two pieces of the code point, and then a third and a fourth
join : (k q r : ℕ) → r < 2 ^ k → bit_or (q <<< k) (r <<< 0) ≡ q * 2 ^ k + r
join k q r h = ground (arith, bit_or-shift k q r h)

to_cp_one : (a : ℕ) → a < 0x80 → to_cp (a ∷ []) ≡ ok a
unfolding to_cp decode_len decode_bytes join_bytes mask_of
to_cp_one a p =
    let first =
      has_len-eq 1 (utf8_len a) (all_below-at (λ x. has_len 1 (utf8_len x)) 0x80 a first_one p) in
    let lead : bit_and a 0x7f <<< 0 ≡ a = omega (arith, bit_and-mask 7 a) in rw (first, lead) refl

to_cp_two :
    (a b : ℕ) → a < 0x20 → b < 0x40 → to_cp ((0xc0 + a) ∷ (0x80 + b) ∷ []) ≡ ok (a * 0x40 + b)
unfolding to_cp decode_len decode_bytes join_bytes mask_of
to_cp_two a b p q =
    let first =
      has_len-eq 2 (utf8_len (0xc0 + a))
        (all_below-at (λ x. has_len 2 (utf8_len (0xc0 + x))) 0x20 a first_two p) in
    let lead : bit_and (0xc0 + a) 0x1f ≡ a = omega (arith, bit_and-mask 5 (0xc0 + a)) in
    rw (first, lead, six b q) (ap ok (join 6 a b q))

to_cp_three :
    (a b c : ℕ)
    → a < 0x10
    → b < 0x40
    → c < 0x40
    → to_cp ((0xe0 + a) ∷ (0x80 + b) ∷ (0x80 + c) ∷ []) ≡ ok (a * 0x1000 + b * 0x40 + c)
unfolding to_cp decode_len decode_bytes join_bytes mask_of
to_cp_three a b c p q r =
    let first =
      has_len-eq 3 (utf8_len (0xe0 + a))
        (all_below-at (λ x. has_len 3 (utf8_len (0xe0 + x))) 0x10 a first_three p) in
    let lead : bit_and (0xe0 + a) 0x0f ≡ a = omega (arith, bit_and-mask 4 (0xe0 + a)) in
    let upper : bit_or (a <<< 12) (b <<< 6) ≡ (a * 0x40 + b) <<< 6 =
      omega (arith, bit_or-shift 12 a (b <<< 6) (omega arith)) in
    rw (first, lead, six b q, six c r, upper) (ap ok (join 6 (a * 0x40 + b) c r ∙ omega arith))

to_cp_four :
    (a b c d : ℕ)
    → a < 0x08
    → b < 0x40
    → c < 0x40
    → d < 0x40
    → to_cp ((0xf0 + a) ∷ (0x80 + b) ∷ (0x80 + c) ∷ (0x80 + d) ∷ [])
      ≡ ok (a * 0x4_0000 + b * 0x1000 + c * 0x40 + d)
unfolding to_cp decode_len decode_bytes join_bytes mask_of
to_cp_four a b c d p q r s =
    let first =
      has_len-eq 4 (utf8_len (0xf0 + a))
        (all_below-at (λ x. has_len 4 (utf8_len (0xf0 + x))) 0x08 a first_four p) in
    let lead : bit_and (0xf0 + a) 0x07 ≡ a = omega (arith, bit_and-mask 3 (0xf0 + a)) in
    let upper : bit_or (a <<< 18) (b <<< 12) ≡ (a * 0x40 + b) <<< 12 =
      omega (arith, bit_or-shift 18 a (b <<< 12) (omega arith)) in
    let middle : bit_or ((a * 0x40 + b) <<< 12) (c <<< 6) ≡ (a * 0x1000 + b * 0x40 + c) <<< 6 =
      omega (arith, bit_or-shift 12 (a * 0x40 + b) (c <<< 6) (omega arith)) in
    rw (first, lead, six b q, six c r, six d s, upper, middle)
      (ap ok (join 6 (a * 0x1000 + b * 0x40 + c) d s ∙ omega arith))

-- The decoder takes what the standard gives back to the code point.
to_cp-standard : (cp : ℕ) → 0 < cp → cp < 0x11_0000 → to_cp (standard cp) ≡ ok cp
unfolding standard
to_cp-standard cp p q = elim (range cp p q) [
  | one l h ↦ rw (lt→ltb cp 0x80 h) (to_cp_one cp h)
  | two l h ↦
      rw (le→ltb cp 0x80 l, lt→ltb cp 0x800 h)
        (to_cp_two (cp / 0x40) (cp % 0x40) (omega arith) (omega arith) ∙ ap ok (omega arith))
  | three l h ↦
      rw (le→ltb cp 0x80 (omega arith), le→ltb cp 0x800 l, lt→ltb cp 0x1_0000 h)
        (to_cp_three (cp / 0x1000) (cp / 0x40 % 0x40) (cp % 0x40) (omega arith) (omega arith)
            (omega arith)
          ∙ ap ok (omega arith))
  | four l h ↦
      rw (le→ltb cp 0x80 (omega arith), le→ltb cp 0x800 (omega arith), le→ltb cp 0x1_0000 l)
        (to_cp_four (cp / 0x4_0000) (cp / 0x1000 % 0x40) (cp / 0x40 % 0x40) (cp % 0x40)
            (omega arith) (omega arith) (omega arith) (omega arith)
          ∙ ap ok (omega arith))
]

-- Every code point from 1 to 0x10ffff is encoded, and decoding its bytes gives it back.
pub to_cp-to_utf8 :
    (cp : ℕ)
    → 0 < cp
    → cp < 0x11_0000
    → (bs : List ℕ) × (to_utf8 cp ≡ ok (some bs)) × (to_cp bs ≡ ok cp)
to_cp-to_utf8 cp p q = (standard cp, to_utf8-standard cp p q, to_cp-standard cp p q)

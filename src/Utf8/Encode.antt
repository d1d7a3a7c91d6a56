-- ===== src/Utf8/Encode.antt =====
-- The encoder against the table of the standard.
use simple_pi_os.Prelude.{
  Bool-cases, List, [], arith, bit_and, bit_or, bit_or-marked, if◌then◌else◌, inl, inr, le→ltb, ltb,
  ltb→le, ltb→lt, lt→ltb, ok, refl, some, ℕ, ◌%◌, ◌+◌, ◌/◌, ◌<◌, ◌>>>◌, ◌∷◌, ◌≡◌, ◌≤◌,
}
use simple_pi_os.Utf8.{
  to_utf8, codepoint_len, codepoint_row, encode_bytes, encode_len, continuation, mask_of, lead_of,
}

unfoldable pub standard : ℕ → List ℕ
standard cp =
    if ltb cp 0x80
    then cp ∷ []
    else if ltb cp 0x800
    then (0xc0 + cp / 0x40) ∷ (0x80 + cp % 0x40) ∷ []
    else if ltb cp 0x1_0000
    then (0xe0 + cp / 0x1000) ∷ (0x80 + cp / 0x40 % 0x40) ∷ (0x80 + cp % 0x40) ∷ []
    else (0xf0 + cp / 0x4_0000)
      ∷ (0x80 + cp / 0x1000 % 0x40)
      ∷ (0x80 + cp / 0x40 % 0x40)
      ∷ (0x80 + cp % 0x40)
      ∷ []

euro : to_utf8 0x20ac ≡ ok (some (0xe2 ∷ 0x82 ∷ 0xac ∷ []))
unfolding to_utf8 codepoint_len codepoint_row encode_len encode_bytes continuation mask_of lead_of
euro = refl

len_one : (cp : ℕ) → 0 < cp → cp < 0x80 → codepoint_len cp ≡ ok (some 1)
unfolding codepoint_len codepoint_row
len_one cp p q = ground arith

len_two : (cp : ℕ) → 0x80 ≤ cp → cp < 0x800 → codepoint_len cp ≡ ok (some 2)
unfolding codepoint_len codepoint_row
len_two cp p q = ground arith

len_three : (cp : ℕ) → 0x800 ≤ cp → cp < 0x1_0000 → codepoint_len cp ≡ ok (some 3)
unfolding codepoint_len codepoint_row
len_three cp p q = ground arith

len_four : (cp : ℕ) → 0x1_0000 ≤ cp → cp < 0x11_0000 → codepoint_len cp ≡ ok (some 4)
unfolding codepoint_len codepoint_row
len_four cp p q = ground arith

six_bits : ℕ → ℕ
six_bits x = bit_or (bit_and x 0x3f) 0x80

six_bits_lem : (x : ℕ) → six_bits x ≡ 0x80 + x % 0x40
unfolding six_bits
six_bits_lem x = bit_or-marked 6 2 x

pub bytes_one : (cp : ℕ) → cp < 0x80 → encode_bytes 1 cp ≡ ok (cp ∷ [])
unfolding encode_bytes continuation mask_of lead_of
bytes_one cp p =
    let lead : bit_or (bit_and (cp >>> 0) 0x7f) 0 ≡ cp =
      omega (arith, bit_or-marked 7 0 (cp >>> 0)) in
    cc

pub bytes_two :
    (cp : ℕ) → cp < 0x800 → encode_bytes 2 cp ≡ ok ((0xc0 + cp / 0x40) ∷ (0x80 + cp % 0x40) ∷ [])
unfolding encode_bytes continuation mask_of lead_of six_bits
bytes_two cp p =
    let lead : bit_or (bit_and (cp >>> 6) 0x1f) 0xc0 ≡ 0xc0 + cp / 0x40 =
      omega (arith, bit_or-marked 5 6 (cp >>> 6)) in
    let low : six_bits (cp >>> 0) ≡ 0x80 + cp % 0x40 = omega (arith, six_bits_lem (cp >>> 0)) in cc

pub bytes_three :
    (cp : ℕ)
    → cp < 0x1_0000
    → encode_bytes 3 cp
      ≡ ok ((0xe0 + cp / 0x1000) ∷ (0x80 + cp / 0x40 % 0x40) ∷ (0x80 + cp % 0x40) ∷ [])
unfolding encode_bytes continuation mask_of lead_of six_bits
bytes_three cp p =
    let lead : bit_or (bit_and (cp >>> 12) 0x0f) 0xe0 ≡ 0xe0 + cp / 0x1000 =
      omega (arith, bit_or-marked 4 14 (cp >>> 12)) in
    let middle : six_bits (cp >>> 6) ≡ 0x80 + cp / 0x40 % 0x40 = six_bits_lem (cp >>> 6) in
    let low : six_bits (cp >>> 0) ≡ 0x80 + cp % 0x40 = omega (arith, six_bits_lem (cp >>> 0)) in cc

pub bytes_four :
    (cp : ℕ)
    → cp < 0x11_0000
    → encode_bytes 4 cp
      ≡ ok (
          (0xf0 + cp / 0x4_0000)
          ∷ (0x80 + cp / 0x1000 % 0x40)
          ∷ (0x80 + cp / 0x40 % 0x40)
          ∷ (0x80 + cp % 0x40)
          ∷ [])
unfolding encode_bytes continuation mask_of lead_of six_bits
bytes_four cp p =
    let lead : bit_or (bit_and (cp >>> 18) 0x07) 0xf0 ≡ 0xf0 + cp / 0x4_0000 =
      omega (arith, bit_or-marked 3 30 (cp >>> 18)) in
    let upper : six_bits (cp >>> 12) ≡ 0x80 + cp / 0x1000 % 0x40 = six_bits_lem (cp >>> 12) in
    let middle : six_bits (cp >>> 6) ≡ 0x80 + cp / 0x40 % 0x40 = six_bits_lem (cp >>> 6) in
    let low : six_bits (cp >>> 0) ≡ 0x80 + cp % 0x40 = omega (arith, six_bits_lem (cp >>> 0)) in cc

-- The four ranges of the table
pub data Range (cp : ℕ) : Type 0 where
  one : 0 < cp → cp < 0x80 → Range cp
  two : 0x80 ≤ cp → cp < 0x800 → Range cp
  three : 0x800 ≤ cp → cp < 0x1_0000 → Range cp
  four : 0x1_0000 ≤ cp → cp < 0x11_0000 → Range cp

pub range : (cp : ℕ) → 0 < cp → cp < 0x11_0000 → Range cp
range cp p q = elim (Bool-cases (ltb cp 0x80)) [
  | inl h ↦ one p (ltb→lt cp 0x80 h)
  | inr h ↦ elim (Bool-cases (ltb cp 0x800)) [
    | inl g ↦ two (ltb→le cp 0x80 h) (ltb→lt cp 0x800 g)
    | inr g ↦ elim (Bool-cases (ltb cp 0x1_0000)) [
      | inl f ↦ three (ltb→le cp 0x800 g) (ltb→lt cp 0x1_0000 f)
      | inr f ↦ four (ltb→le cp 0x1_0000 f) q
    ]
  ]
]

-- Every code point from 1 to 0x10ffff is encoded as the standard says, in one to four bytes.
pub to_utf8-standard : (cp : ℕ) → 0 < cp → cp < 0x11_0000 → to_utf8 cp ≡ ok (some (standard cp))
unfolding to_utf8 encode_len standard
to_utf8-standard cp p q = elim (range cp p q) [
  | one l h ↦ rw (len_one cp l h, bytes_one cp h, lt→ltb cp 0x80 h) refl
  | two l h ↦ rw (len_two cp l h, bytes_two cp h, le→ltb cp 0x80 l, lt→ltb cp 0x800 h) refl
  | three l h ↦
      rw
        (
          len_three cp l h,
          bytes_three cp h,
          le→ltb cp 0x80 (omega arith),
          le→ltb cp 0x800 l,
          lt→ltb cp 0x1_0000 h,
        )
        refl
  | four l h ↦
      rw
        (
          len_four cp l h,
          bytes_four cp h,
          le→ltb cp 0x80 (omega arith),
          le→ltb cp 0x800 (omega arith),
          le→ltb cp 0x1_0000 l,
        )
        refl
]

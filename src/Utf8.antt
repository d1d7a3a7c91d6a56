-- ===== src/Utf8.antt =====
-- `codepoint_len`, `utf8_len`, `to_utf8` and `to_cp` of pi-side/kernel/disk/unicode-utf8.c, which turn the
-- names of files on the card into UTF-8. A `char` of the Pi has no sign.
pub mod Encode
pub mod Decode
use simple_pi_os.Prelude.{
  List, Option, Result, [], bit_and, bit_or, fault, get_or, if◌then◌else◌, leb, ltb, none, ok,
  panic, some, suc, zero, ℕ, ◌&&◌, ◌*◌, ◌+◌, ◌-◌, ◌<<<◌, ◌==◌, ◌>>=◌, ◌>>>◌, ◌>>◌, ◌∷◌,
}

pub record Utf : Type 0 where
  pub mask : ℕ
  pub lead : ℕ
  pub beg : ℕ
  pub end : ℕ
  pub bits_stored : ℕ

abbrev pub row : (mask lead beg end bits_stored : ℕ) → Utf
row mask lead beg end bits_stored = record {
  mask = mask;
  lead = lead;
  beg = beg;
  end = end;
  bits_stored = bits_stored;
}

-- The last row is a struct of zeros, and not the null pointer that ends the loops over the table; a search
-- that passes it reads behind the table.
abbrev pub utf : List Utf
utf =
    row 0b0011_1111 0b1000_0000 0 0 6
    ∷ row 0b0111_1111 0b0000_0000 0 0x7f 7
    ∷ row 0b0001_1111 0b1100_0000 0x80 0x7ff 5
    ∷ row 0b0000_1111 0b1110_0000 0x800 0xffff 4
    ∷ row 0b0000_0111 0b1111_0000 0x1_0000 0x10_ffff 3
    ∷ row 0 0 0 0 0
    ∷ []

-- The loops over the table, with what was passed already counted by `len`.
unfoldable pub codepoint_row : List Utf → (len cp : ℕ) → Result ℕ
codepoint_row [] len cp = panic fault
codepoint_row (u ∷ us) len cp =
    if leb u.beg cp && leb cp u.end then ok len else codepoint_row us (len + 1) cp

unfoldable pub lead_row : List Utf → (len ch : ℕ) → Result ℕ
lead_row [] len ch = panic fault
lead_row (u ∷ us) len ch =
    if bit_and ch (0xff - u.mask) == u.lead then ok len else lead_row us (len + 1) ch

-- `none` stands for -1.
unfoldable pub codepoint_len : ℕ → Result (Option ℕ)
codepoint_len cp = do len ← codepoint_row utf 0 cp; ok (if ltb 4 len then none else some len)

unfoldable pub utf8_len : ℕ → Result (Option ℕ)
utf8_len ch = do len ← lead_row utf 0 ch; ok (if ltb 4 len then none else some len)

unfoldable pub mask_of : ℕ → ℕ
mask_of i = (get_or utf i (row 0 0 0 0 0)).mask

unfoldable pub lead_of : ℕ → ℕ
lead_of i = (get_or utf i (row 0 0 0 0 0)).lead

-- The bytes after the first: six bits each, the highest first. `left` of them are to come.
unfoldable pub continuation : (left cp : ℕ) → List ℕ
continuation zero cp = []
continuation (suc left) cp =
    bit_or (bit_and (cp >>> (6 * left)) (mask_of 0)) (lead_of 0) ∷ continuation left cp

-- For 0 bytes the shift is negative, which C does not define.
unfoldable pub encode_bytes : (bytes cp : ℕ) → Result (List ℕ)
encode_bytes zero cp = panic fault
encode_bytes (suc n) cp =
    ok (bit_or (bit_and (cp >>> (6 * n)) (mask_of (suc n))) (lead_of (suc n)) ∷ continuation n cp)

-- The bytes before the final zero; `none` stands for the null pointer.
unfoldable pub encode_len : Option ℕ → ℕ → Result (Option (List ℕ))
encode_len none cp = ok none
encode_len (some n) cp = do bs ← encode_bytes n cp; ok (some bs)

unfoldable pub to_utf8 : ℕ → Result (Option (List ℕ))
to_utf8 cp = do bytes ← codepoint_len cp; encode_len bytes cp

-- `codep |= (*chr & mask) << shift` for the bytes after the first
unfoldable pub join_bytes : (left codep : ℕ) → List ℕ → Result ℕ
join_bytes zero codep chr = ok codep
join_bytes (suc left) codep [] = panic fault
join_bytes (suc left) codep (c ∷ chr) =
    join_bytes left (bit_or codep (bit_and c (mask_of 0) <<< (6 * left))) chr

unfoldable pub decode_bytes : (bytes c : ℕ) → List ℕ → Result ℕ
decode_bytes zero c chr = panic fault
decode_bytes (suc n) c chr = join_bytes n (bit_and c (mask_of (suc n)) <<< (6 * n)) chr

unfoldable pub decode_len : Option ℕ → (c : ℕ) → List ℕ → Result ℕ
decode_len none c chr = ok 0
decode_len (some n) c chr = decode_bytes n c chr

unfoldable pub to_cp : List ℕ → Result ℕ
to_cp [] = panic fault
to_cp (c ∷ chr) = do bytes ← utf8_len c; decode_len bytes c chr

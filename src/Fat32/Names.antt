-- ===== src/Fat32/Names.antt =====
-- What a directory entry says, byte by byte, and that the code reads it so.
use simple_pi_os.Prelude.{
  &&-true, All, Bool, Bool-cases, List, [], all_below, all_below-at, append_assoc, ap₂, arith,
  bit_and, bit_or, bit_or-above, drop, false, if◌then◌else◌, inl, inr, leb, length, lt→ltb, map,
  ne→==, not, ok, refl, suc, sym, take, true, u32, zero, ℕ, ◌!=◌, ◌%◌, ◌&&◌, ◌*◌, ◌++◌, ◌+◌, ◌/◌,
  ◌<<<◌, ◌<◌, ◌==◌, ◌^◌, ◌||◌, ◌∷◌, ◌≡◌, ◌≢◌, ◌⊎◌,
}
use simple_pi_os.Image.Cross.{AreBytes}
use simple_pi_os.Utf8.Encode.{standard, to_utf8-standard}
use simple_pi_os.Fat32.Directory.{
  Dirent, Entry, attr, base_name, byte, fat32_archive, fat32_dir, fat32_dir_filename,
  fat32_dirent_free, fat32_volume_label, is_attr, is_long, lfn_get_name, lfn_is_deleted, lfn_piece,
  lfn_terminator, long_name, long_part, lower_case, short_name, to_dirent, utf8_append,
}

abbrev pub has_bit : (k x : ℕ) → Bool
has_bit k x = (x / 2 ^ k % 2) == 1

-- The fields of a file: the cluster in two halves, the higher one first in the entry, and the size
abbrev pub dirent_of : List ℕ → Entry → Dirent
dirent_of name d = record {
  name = name;
  cluster_id = byte d 26 + byte d 27 * 2 ^ 8 + byte d 20 * 2 ^ 16 + byte d 21 * 2 ^ 24;
  is_dir_p = has_bit 4 (attr d);
  nbytes = byte d 28 + byte d 29 * 2 ^ 8 + byte d 30 * 2 ^ 16 + byte d 31 * 2 ^ 24;
}

byte-small : (d : Entry) (i : ℕ) → AreBytes d → byte d i < 256
byte-small [] i h = omega arith
byte-small (x ∷ d) zero h = h.0
byte-small (x ∷ d) (suc i) h = byte-small d i h.1

same_bool : Bool → Bool → Bool
same_bool a b = if a then b else not b

same_bool→eq : (a b : Bool) → same_bool a b ≡ true → a ≡ b
unfolding same_bool
same_bool→eq true true h = refl
same_bool→eq true false h = absurd (cc)
same_bool→eq false true h = absurd (cc)
same_bool→eq false false h = refl

dir_bits : all_below (λ a. same_bool (bit_and a fat32_dir != 0) (has_bit 4 a)) 256 ≡ true
unfolding same_bool
dir_bits = refl

kind_bits :
    all_below
      (λ a.
        same_bool (is_attr a fat32_dir) (has_bit 4 a)
        && (same_bool (is_attr a fat32_archive) (has_bit 5 a)
            && same_bool (is_attr a fat32_volume_label) (has_bit 3 a)))
      256
    ≡ true
unfolding same_bool is_attr
kind_bits = refl

in_use : all_below (λ c. not (lfn_is_deleted c)) 0xe5 ≡ true
unfolding lfn_is_deleted
in_use = refl

cluster :
    (a b c e : ℕ)
    → a < 256
    → b < 256
    → c < 256
    → e < 256
    → u32 (((a + b * 2 ^ 8) <<< 16) + (c + e * 2 ^ 8)) ≡ c + e * 2 ^ 8 + a * 2 ^ 16 + b * 2 ^ 24
cluster a b c e p q r t = omega arith

same_dirent :
    (name : List ℕ) {c c' n n' : ℕ} {b b' : Bool}
    → c ≡ c'
    → b ≡ b'
    → n ≡ n'
    → ◌≡◌ {A = Dirent}
        (record { name = name; cluster_id = c; is_dir_p = b; nbytes = n })
        (record { name = name; cluster_id = c'; is_dir_p = b'; nbytes = n' })
same_dirent name p q r = rw (p, q, r) refl

pub to_dirent-dirent_of :
    (name : List ℕ) (d : Entry) → AreBytes d → to_dirent name d ≡ dirent_of name d
unfolding to_dirent
to_dirent-dirent_of name d bytes =
    let kind = same_bool→eq (bit_and (attr d) fat32_dir != 0) (has_bit 4 (attr d)) (
      all_below-at (λ a. same_bool (bit_and a fat32_dir != 0) (has_bit 4 a)) 256 (attr d) dir_bits
        (byte-small d 11 bytes)) in
    same_dirent name
      (cluster (byte d 20) (byte d 21) (byte d 26) (byte d 27) (byte-small d 20 bytes)
        (byte-small d 21 bytes) (byte-small d 26 bytes) (byte-small d 27 bytes))
      kind (omega arith)

-- A letter, in lower case if the entry says so
abbrev pub lowered : Bool → ℕ → ℕ
lowered low c = if low && (leb b'A' c && leb c b'Z') then c + 32 else c

abbrev pub without_spaces : List ℕ → List ℕ
without_spaces [] = []
without_spaces (c ∷ cs) = if c == b' ' then without_spaces cs else c ∷ without_spaces cs

-- A name of eight characters and three, with a dot between them
abbrev pub dos_name : Entry → List ℕ
dos_name d =
    let low = byte d 12 == 0x18 in
    map (lowered low) (without_spaces (take 8 d)) ++ (b'.' ∷ map (lowered low) (take 3 (drop 8 d)))

lower_case-lowered : (low : Bool) (c : ℕ) → lower_case low c ≡ lowered low c
lower_case-lowered true c = ground arith
lower_case-lowered false c = refl

map-lowered : (low : Bool) (cs : List ℕ) → map (lower_case low) cs ≡ map (lowered low) cs
map-lowered low [] = refl
map-lowered low (c ∷ cs) = ap₂ (λ a as'. a ∷ as') (lower_case-lowered low c) (map-lowered low cs)

base_name-lowered :
    (low : Bool) (cs : List ℕ) → base_name low cs ≡ map (lowered low) (without_spaces cs)
unfolding base_name
base_name-lowered low [] = refl
base_name-lowered low (c ∷ cs) = elim (Bool-cases (c == b' ')) [
  | inl e ↦ rw e (base_name-lowered low cs)
  | inr e ↦ rw e (ap₂ (λ a as'. a ∷ as') (lower_case-lowered low c) (base_name-lowered low cs))
]

short_name-dos_name : (d : Entry) → short_name d ≡ dos_name d
unfolding short_name
short_name-dos_name d =
    let low = byte d 12 == 0x18 in
    ap₂ (λ a b. a ++ (b'.' ∷ b)) (base_name-lowered low (take 8 d))
      (map-lowered low (take 3 (drop 8 d)))

-- The 16-bit units of a piece of an entry, the lower byte first
abbrev pub units : List ℕ → List ℕ
units (lo ∷ hi ∷ rest) = (lo + hi * 2 ^ 8) ∷ units rest
units rest = []

-- The characters of an entry of a long name: five, six and two of them
abbrev pub entry_units : Entry → List ℕ
entry_units l =
    units (take 10 (drop 1 l)) ++ (units (take 12 (drop 14 l)) ++ units (take 4 (drop 28 l)))

abbrev pub IsPad : ℕ → Type 0
IsPad u = (u ≡ 0) ⊎ (u ≡ 0xffff)

-- Characters, and padding behind them
pub data IsPadded : List ℕ → Type 0 where
  pads : {us : List ℕ} → All IsPad us → IsPadded us
  letter : {u : ℕ} {us : List ℕ} → u ≢ 0 → u ≢ 0xffff → IsPadded us → IsPadded (u ∷ us)

-- The text of units in UTF-8, without the padding
abbrev pub spell : List ℕ → List ℕ
spell [] = []
spell (u ∷ us) = if u == 0 || u == 0xffff then spell us else standard u ++ spell us

pad_ends : (lo hi : ℕ) → lo < 256 → hi < 256 → IsPad (lo + hi * 2 ^ 8) → lfn_terminator lo hi ≡ true
unfolding lfn_terminator
pad_ends lo hi p q (inl e) = ground arith
pad_ends lo hi p q (inr e) = ground arith

char_goes_on :
    (lo hi : ℕ)
    → lo < 256
    → hi < 256
    → lo + hi * 2 ^ 8 ≢ 0
    → lo + hi * 2 ^ 8 ≢ 0xffff
    → lfn_terminator lo hi ≡ false
unfolding lfn_terminator
char_goes_on lo hi p q e f = ground arith

is_pad : (u : ℕ) → IsPad u → (u == 0 || u == 0xffff) ≡ true
is_pad u (inl e) = rw e refl
is_pad u (inr e) = rw e refl

is_char : (u : ℕ) → u ≢ 0 → u ≢ 0xffff → (u == 0 || u == 0xffff) ≡ false
is_char u e f = ground arith

spell-pads : (us : List ℕ) → All IsPad us → spell us ≡ []
spell-pads [] h = refl
spell-pads (u ∷ us) h = rw (is_pad u h.0) (spell-pads us h.1)

IsPadded-cases :
    (u : ℕ) (us : List ℕ)
    → IsPadded (u ∷ us)
    → (All IsPad (u ∷ us)) ⊎ ((u ≢ 0) × (u ≢ 0xffff) × IsPadded us)
IsPadded-cases u us (pads h) = inl h
IsPadded-cases u us (letter e f p) = inr (e, f, p)

utf8_append_char :
    (lo hi : ℕ) (rest bs : List ℕ)
    → lo < 256
    → hi < 256
    → lo + hi * 2 ^ 8 ≢ 0
    → lo + hi * 2 ^ 8 ≢ 0xffff
    → utf8_append rest ≡ ok bs
    → utf8_append (lo ∷ hi ∷ rest) ≡ ok (standard (lo + hi * 2 ^ 8) ++ bs)
unfolding utf8_append
utf8_append_char lo hi rest bs p q e f more =
    let joined : bit_or lo (hi <<< 8) ≡ lo + hi * 2 ^ 8 = omega (arith, bit_or-above 8 hi lo p) in
    rw
      (
        char_goes_on lo hi p q e f,
        joined,
        to_utf8-standard (lo + hi * 2 ^ 8) (omega arith) (omega arith),
        more,
      )
      refl

utf8_append-spell :
    (bs : List ℕ) → AreBytes bs → IsPadded (units bs) → utf8_append bs ≡ ok (spell (units bs))
unfolding utf8_append
utf8_append-spell [] bytes p = refl
utf8_append-spell (a ∷ []) bytes p = refl
utf8_append-spell (lo ∷ hi ∷ rest) bytes p =
    elim (IsPadded-cases (lo + hi * 2 ^ 8) (units rest) p) [
      | inl all ↦
          rw
            (
              pad_ends lo hi bytes.0 bytes.1.0 all.0,
              is_pad (lo + hi * 2 ^ 8) all.0,
              spell-pads (units rest) all.1,
            )
            refl
      | inr char ↦ rw (is_char (lo + hi * 2 ^ 8) char.0 char.1) (
          utf8_append_char lo hi rest (spell (units rest)) bytes.0 bytes.1.0 char.0 char.1
            (utf8_append-spell rest bytes.1.1 char.2))
    ]

IsPadded-front : (xs ys : List ℕ) → IsPadded (xs ++ ys) → IsPadded xs
IsPadded-front [] ys p = pads tt
IsPadded-front (x ∷ xs) ys p = elim (IsPadded-cases x (xs ++ ys) p) [
  | inl all ↦ pads (All-front (x ∷ xs) ys all)
  | inr char ↦ letter char.0 char.1 (IsPadded-front xs ys char.2)
]
  where
    All-front : (xs ys : List ℕ) → All IsPad (xs ++ ys) → All IsPad xs
    All-front [] ys h = tt
    All-front (x ∷ xs) ys h = (h.0, All-front xs ys h.1)

IsPadded-back : (xs ys : List ℕ) → IsPadded (xs ++ ys) → IsPadded ys
IsPadded-back [] ys p = p
IsPadded-back (x ∷ xs) ys p = elim (IsPadded-cases x (xs ++ ys) p) [
  | inl all ↦ pads (All-back (x ∷ xs) ys all)
  | inr char ↦ IsPadded-back xs ys char.2
]
  where
    All-back : (xs ys : List ℕ) → All IsPad (xs ++ ys) → All IsPad ys
    All-back [] ys h = h
    All-back (x ∷ xs) ys h = All-back xs ys h.1

spell-append : (xs ys : List ℕ) → spell (xs ++ ys) ≡ spell xs ++ spell ys
spell-append [] ys = refl
spell-append (x ∷ xs) ys = elim (Bool-cases (x == 0 || x == 0xffff)) [
  | inl e ↦ rw e (spell-append xs ys)
  | inr e ↦ rw (e, spell-append xs ys) (sym (append_assoc (standard x) (spell xs) (spell ys)))
]

take-AreBytes : (n : ℕ) (bs : List ℕ) → AreBytes bs → AreBytes (take n bs)
take-AreBytes zero bs h = tt
take-AreBytes (suc n) [] h = tt
take-AreBytes (suc n) (b ∷ bs) h = (h.0, take-AreBytes n bs h.1)

drop-AreBytes : (n : ℕ) (bs : List ℕ) → AreBytes bs → AreBytes (drop n bs)
drop-AreBytes zero bs h = h
drop-AreBytes (suc n) [] h = tt
drop-AreBytes (suc n) (b ∷ bs) h = drop-AreBytes n bs h.1

lfn_piece-spell :
    (l : Entry) → AreBytes l → IsPadded (entry_units l) → lfn_piece l ≡ ok (spell (entry_units l))
unfolding lfn_piece
lfn_piece-spell l bytes p =
    let a = units (take 10 (drop 1 l)) in
    let b = units (take 12 (drop 14 l)) in
    let c = units (take 4 (drop 28 l)) in
    let later = IsPadded-back a (b ++ c) p in
    rw
      (
        utf8_append-spell (take 10 (drop 1 l))
            (take-AreBytes 10 (drop 1 l) (drop-AreBytes 1 l bytes)) (IsPadded-front a (b ++ c) p),
        utf8_append-spell (take 12 (drop 14 l))
            (take-AreBytes 12 (drop 14 l) (drop-AreBytes 14 l bytes)) (IsPadded-front b c later),
        utf8_append-spell (take 4 (drop 28 l))
            (take-AreBytes 4 (drop 28 l) (drop-AreBytes 28 l bytes)) (IsPadded-back b c later),
        spell-append a (b ++ c),
        spell-append b c,
      )
      refl

-- The entries of a long name stand in reverse.
abbrev pub long_units : List Entry → List ℕ
long_units [] = []
long_units (l ∷ ls) = long_units ls ++ entry_units l

-- Entries of a long name with padding at their ends only
abbrev pub IsLongName : List Entry → Type 0
IsLongName ls = All (λ l. (is_long l ≡ true) × AreBytes l × IsPadded (entry_units l)) ls

lfn_get_name-spell :
    (ls : List Entry) → IsLongName ls → lfn_get_name ls ≡ ok (spell (long_units ls))
unfolding lfn_get_name
lfn_get_name-spell [] h = refl
lfn_get_name-spell (l ∷ ls) h =
    rw
      (
        lfn_get_name-spell ls h.1,
        h.0.0,
        lfn_piece-spell l h.0.1 h.0.2,
        spell-append (long_units ls) (entry_units l),
      )
      refl

long_part-append :
    (ls rest : List Entry) (e : Entry)
    → IsLongName ls
    → is_long e ≡ false
    → long_part (ls ++ (e ∷ rest)) ≡ (ls, e ∷ rest)
unfolding long_part
long_part-append [] rest e h f = rw f refl
long_part-append (l ∷ ls) rest e h f = rw (h.0.0, long_part-append ls rest e h.1 f) refl

-- An entry that is neither a part of a long name nor deleted nor unused
pub record IsShort (d : Entry) : Type 0 where
  pub plain : is_long d ≡ false
  pub used : byte d 0 ≢ 0
  pub there : byte d 0 ≢ 0xe5
  pub bytes : AreBytes d

pub fat32_dirent_free-short : (d : Entry) → IsShort d → fat32_dirent_free d ≡ false
unfolding fat32_dirent_free
fat32_dirent_free-short d s =
    rw (s.plain, ne→== (byte d 0) 0 s.used, ne→== (byte d 0) 0xe5 s.there) refl

pub fat32_dirent_free-long :
    (d : Entry) → is_long d ≡ true → byte d 0 < 0xe5 → fat32_dirent_free d ≡ false
unfolding fat32_dirent_free
fat32_dirent_free-long d e h = rw e (
    not-true (lfn_is_deleted (byte d 0))
      (all_below-at (λ c. not (lfn_is_deleted c)) 0xe5 (byte d 0) in_use h))
  where
    not-true : (b : Bool) → not b ≡ true → b ≡ false
    not-true true h = absurd (cc)
    not-true false h = refl

pub fat32_dirent_free-deleted :
    (d : Entry)
    → (byte d 0 ≡ 0xe5) ⊎ ((is_long d ≡ false) × (byte d 0 ≡ 0))
    → fat32_dirent_free d ≡ true
unfolding fat32_dirent_free lfn_is_deleted
fat32_dirent_free-deleted d (inr (plain, e)) = rw (plain, e) refl
fat32_dirent_free-deleted d (inl e) = elim (Bool-cases (is_long d)) [
  | inl l ↦ rw (l, e) refl
  | inr l ↦ rw (l, e) refl
]

kind_of :
    (d : Entry)
    → AreBytes d
    → (is_attr (attr d) fat32_dir ≡ has_bit 4 (attr d))
      × (is_attr (attr d) fat32_archive ≡ has_bit 5 (attr d))
      × (is_attr (attr d) fat32_volume_label ≡ has_bit 3 (attr d))
kind_of d bytes =
    let a = attr d in
    let all =
      all_below-at
        (λ a.
          same_bool (is_attr a fat32_dir) (has_bit 4 a)
          && (same_bool (is_attr a fat32_archive) (has_bit 5 a)
              && same_bool (is_attr a fat32_volume_label) (has_bit 3 a)))
        256 a kind_bits (byte-small d 11 bytes) in
    let first =
      &&-true (same_bool (is_attr a fat32_dir) (has_bit 4 a))
        (same_bool (is_attr a fat32_archive) (has_bit 5 a)
          && same_bool (is_attr a fat32_volume_label) (has_bit 3 a))
        all in
    let second =
      &&-true (same_bool (is_attr a fat32_archive) (has_bit 5 a))
        (same_bool (is_attr a fat32_volume_label) (has_bit 3 a)) first.1 in
    (
      same_bool→eq (is_attr a fat32_dir) (has_bit 4 a) first.0,
      same_bool→eq (is_attr a fat32_archive) (has_bit 5 a) second.0,
      same_bool→eq (is_attr a fat32_volume_label) (has_bit 3 a) second.1,
    )

pub fat32_dir_filename-short :
    (d : Entry) (ds : List Entry)
    → IsShort d
    → (has_bit 4 (attr d) || (has_bit 5 (attr d) || has_bit 3 (attr d))) ≡ true
    → fat32_dir_filename d ds ≡ ok (dos_name d, (d, ds))
unfolding fat32_dir_filename
fat32_dir_filename-short d ds s kind =
    let k = kind_of d s.bytes in rw (s.plain, k.0, k.1, k.2, kind, short_name-dos_name d) refl

pub fat32_dir_filename-long :
    (d e : Entry) (ls rest : List Entry)
    → IsLongName (d ∷ ls)
    → IsShort e
    → (has_bit 4 (attr e) || has_bit 5 (attr e)) ≡ true
    → length (spell (long_units (d ∷ ls))) < 256
    → fat32_dir_filename d (ls ++ (e ∷ rest)) ≡ ok (spell (long_units (d ∷ ls)), (e, rest))
unfolding fat32_dir_filename long_name
fat32_dir_filename-long d e ls rest named s kind fits =
    let k = kind_of e s.bytes in
    rw (named.0.0, long_part-append ls rest e named.1 s.plain)
      (rw
        (
          k.0,
          k.1,
          kind,
          lfn_get_name-spell (d ∷ ls) named,
          lt→ltb (length (spell (long_units (d ∷ ls)))) 256 fits,
        )
        refl)

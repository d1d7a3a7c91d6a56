-- ===== src/Fat32/Directory.antt =====
-- Directory entries: `fat32_dirent_free`, `fat32_dir_cnt_entries`, `fat32_dir_filename`, the long names
-- and `fat32_to_dirent` of pi-side/kernel/disk/fat32-helpers.c and pi-side/kernel/disk/fs.c. An entry is
-- its 32 bytes, which are read as a `fat32_dir_t` or as an `lfn_dir_t`.
use simple_pi_os.Prelude.{
  Bool, List, Option, Result, [], assert, asserted, bit_and, bit_or, drop, fault, get_or,
  if◌then◌else◌, leb, length, ltb, map, none, not, ok, out_of_fuel, panic, some, suc, take, u32, u8,
  zero, ℕ, ◌!=◌, ◌&&◌, ◌*◌, ◌++◌, ◌+◌, ◌<<<◌, ◌==◌, ◌>>=◌, ◌>>◌, ◌^◌, ◌||◌, ◌∷◌,
}
use simple_pi_os.Utf8.{to_utf8}

abbrev pub Entry : Type 0
Entry = List ℕ

abbrev pub byte : Entry → ℕ → ℕ
byte d i = get_or d i 0

abbrev pub attr : Entry → ℕ
attr d = byte d 11

abbrev pub half_word : Entry → ℕ → ℕ
half_word d i = byte d i + byte d (i + 1) * 2 ^ 8

abbrev pub fat32_volume_label : ℕ
fat32_volume_label = 0x08

abbrev pub fat32_long_file_name : ℕ
fat32_long_file_name = 0x0f

abbrev pub fat32_dir : ℕ
fat32_dir = 0x10

abbrev pub fat32_archive : ℕ
fat32_archive = 0x20

unfoldable pub is_attr : (x flag : ℕ) → Bool
is_attr x flag = bit_and x flag == flag

abbrev pub is_long : Entry → Bool
is_long d = attr d == fat32_long_file_name

unfoldable pub lfn_is_deleted : ℕ → Bool
lfn_is_deleted seqno = bit_and seqno 0xe5 == 0xe5

unfoldable pub fat32_dirent_free : Entry → Bool
fat32_dirent_free d =
    if is_long d then lfn_is_deleted (byte d 0) else byte d 0 == 0 || byte d 0 == 0xe5

unfoldable pub fat32_dir_cnt_entries : List Entry → ℕ
fat32_dir_cnt_entries [] = 0
fat32_dir_cnt_entries (d ∷ ds) =
    (if not (fat32_dirent_free d) && not (is_long d) then 1 else 0) + fat32_dir_cnt_entries ds

-- Two bytes of zeros or of ones end a long name.
unfoldable pub lfn_terminator : (lo hi : ℕ) → Bool
lfn_terminator lo hi = lo == 0 && hi == 0 || (lo == 0xff && hi == 0xff)

-- A null pointer from `to_utf8` goes to `strcat`.
abbrev pub encoded : Option (List ℕ) → Result (List ℕ)
encoded none = panic fault
encoded (some bs) = ok bs

unfoldable pub utf8_append : (units : List ℕ) → Result (List ℕ)
utf8_append (lo ∷ hi ∷ units) = if lfn_terminator lo hi then ok [] else (do
  o ← to_utf8 (bit_or lo (hi <<< 8))
  bs ← encoded o
  rest ← utf8_append units
  ok (bs ++ rest))
utf8_append units = ok []

-- The three pieces of the name in one entry
unfoldable pub lfn_piece : Entry → Result (List ℕ)
lfn_piece l = do
  first ← utf8_append (take 10 (drop 1 l))
  second ← utf8_append (take 12 (drop 14 l))
  third ← utf8_append (take 4 (drop 28 l))
  ok (first ++ (second ++ third))

-- The entries of a long name stand in reverse.
unfoldable pub lfn_get_name : List Entry → Result (List ℕ)
lfn_get_name [] = ok []
lfn_get_name (l ∷ ls) = do
  before ← lfn_get_name ls
  assert (is_long l)
  piece ← lfn_piece l
  ok (before ++ piece)

abbrev pub lower_case : Bool → ℕ → ℕ
lower_case lower_case_p c = if lower_case_p && (leb 0x41 c && leb c 0x5a) then u8 (c + 32) else c

-- The first eight bytes without their spaces
unfoldable pub base_name : Bool → List ℕ → List ℕ
base_name lower_case_p [] = []
base_name lower_case_p (c ∷ cs) =
    let rest = base_name lower_case_p cs in
    if c == 0x20 then rest else lower_case lower_case_p c ∷ rest

unfoldable pub short_name : Entry → List ℕ
short_name d =
    let lower_case_p = byte d 12 == 0x18 in
    base_name lower_case_p (take 8 d) ++ (0x2e ∷ map (lower_case lower_case_p) (take 3 (drop 8 d)))

-- The entries of a long name behind its first, and what follows them
unfoldable pub long_part : List Entry → List Entry × List Entry
long_part [] = ([], [])
long_part (d ∷ ds) =
    let more = long_part ds in if is_long d then (d ∷ more.0, more.1) else ([], d ∷ ds)

-- The name is copied to an array of 256 bytes.
abbrev pub copied : List ℕ → Result (List ℕ)
copied name = if ltb (length name) 256 then ok name else panic fault

-- What `fat32_dir_filename` writes and the entry that it returns, with the entries behind that one
abbrev pub Found : Type 0
Found = List ℕ × (Entry × List Entry)

unfoldable pub long_name : Entry → List Entry → List Entry → Result Found
long_name d ls [] = panic asserted
long_name d ls (e ∷ rest) = do
  assert (is_attr (attr e) fat32_dir || is_attr (attr e) fat32_archive)
  name ← lfn_get_name (d ∷ ls)
  name ← copied name
  ok (name, (e, rest))

unfoldable pub fat32_dir_filename : Entry → List Entry → Result Found
fat32_dir_filename d ds =
    if is_long d
    then long_name d (long_part ds).0 (long_part ds).1
    else (assert (
          is_attr (attr d) fat32_dir
          || (is_attr (attr d) fat32_archive || is_attr (attr d) fat32_volume_label))
        >> ok (short_name d, (d, ds)))

pub record Dirent : Type 0 where
  pub name : List ℕ
  pub cluster_id : ℕ
  pub is_dir_p : Bool
  pub nbytes : ℕ

unfoldable pub to_dirent : List ℕ → Entry → Dirent
to_dirent name d = record {
  name = name;
  cluster_id = u32 ((half_word d 20 <<< 16) + half_word d 26);
  is_dir_p = bit_and (attr d) fat32_dir != 0;
  nbytes = half_word d 28 + half_word d 30 * 2 ^ 16;
}

-- The loop of `fat32_to_dirent`: `n` entries are allocated and `used` filled. Each round passes an entry,
-- so the number of entries is enough fuel.
unfoldable pub dirents_from : (fuel n used : ℕ) → List Entry → Result (List Dirent)
dirents_from fuel n used [] = ok []
dirents_from zero n used (d ∷ ds) = panic out_of_fuel
dirents_from (suc fuel) n used (d ∷ ds) =
    if fat32_dirent_free d
    then dirents_from fuel n used ds
    else (assert (leb (used + 1) n)
        >> (fat32_dir_filename d ds >>= λ found.
            dirents_from fuel n (used + 1) found.1.1 >>= λ rest.
            ok (to_dirent found.0 found.1.0 ∷ rest)))

unfoldable pub fat32_to_dirent : List Entry → Result (List Dirent)
fat32_to_dirent ds = dirents_from (length ds) (fat32_dir_cnt_entries ds) 0 ds

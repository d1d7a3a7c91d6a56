-- ===== src/Fat32/Listing.antt =====
-- What the entries of a directory mean, and that they are read so.
use simple_pi_os.Prelude.{
  Bool-cases, List, [], ap, arith, false, inl, inr, leb, length, le→leb, ok, refl, subst, suc, true,
  zero, ℕ, ◌++◌, ◌+◌, ◌<◌, ◌||◌, ◌∷◌, ◌≡◌, ◌≤◌, ◌⊎◌,
}
use simple_pi_os.Fat32.Names.{
  IsLongName, IsShort, dirent_of, dos_name, fat32_dir_filename-long, fat32_dir_filename-short,
  fat32_dirent_free-deleted, fat32_dirent_free-long, fat32_dirent_free-short, has_bit, long_units,
  spell, to_dirent-dirent_of,
}
use simple_pi_os.Fat32.Directory.{
  Dirent, Entry, Found, attr, byte, dirents_from, fat32_dir_cnt_entries, fat32_dir_filename,
  fat32_dirent_free, fat32_to_dirent, is_long, long_part, to_dirent,
}
use simple_pi_os.Fat32.Count.{
  Taken, long, short, fat32_dir_filename-Taken, count-one, count-long, count-free, long_part-count,
}

-- `Listing ds out`: the entries `ds` stand for the files `out`. A deleted or unused entry is passed over. Another
-- one is a file of its own, or the last part of a long name: the other parts follow, and the entry of the
-- file behind them.
pub data Listing : List Entry → List Dirent → Type 0 where
  nothing : Listing [] []
  unused :
      {d : Entry} {ds : List Entry} {out : List Dirent}
      → (byte d 0 ≡ 0xe5) ⊎ ((is_long d ≡ false) × (byte d 0 ≡ 0))
      → Listing ds out
      → Listing (d ∷ ds) out
  plain_file :
      {d : Entry} {ds : List Entry} {out : List Dirent}
      → IsShort d
      → (has_bit 4 (attr d) || (has_bit 5 (attr d) || has_bit 3 (attr d))) ≡ true
      → Listing ds out
      → Listing (d ∷ ds) (dirent_of (dos_name d) d ∷ out)
  long_file :
      (d e : Entry) (ls rest : List Entry) {out : List Dirent}
      → IsLongName (d ∷ ls)
      → byte d 0 < 0xe5
      → IsShort e
      → (has_bit 4 (attr e) || has_bit 5 (attr e)) ≡ true
      → length (spell (long_units (d ∷ ls))) < 256
      → Listing rest out
      → Listing (d ∷ (ls ++ (e ∷ rest))) (dirent_of (spell (long_units (d ∷ ls))) e ∷ out)

-- The same by the functions of the code
data Parsed : List Entry → List Dirent → Type 0 where
  none_left : Parsed [] []
  passed :
      {d : Entry} {ds : List Entry} {out : List Dirent}
      → fat32_dirent_free d ≡ true
      → Parsed ds out
      → Parsed (d ∷ ds) out
  taken :
      {d : Entry} {ds : List Entry} {found : Found} {out : List Dirent}
      → fat32_dirent_free d ≡ false
      → fat32_dir_filename d ds ≡ ok found
      → fat32_dirent_free found.1.0 ≡ false
      → Parsed found.1.1 out
      → Parsed (d ∷ ds) (to_dirent found.0 found.1.0 ∷ out)

Listing-Parsed : (ds : List Entry) (out : List Dirent) → Listing ds out → Parsed ds out
Listing-Parsed _ _ nothing = none_left
Listing-Parsed _ _ (unused {d = d} {ds = ds} {out = out} gone l) =
    passed (fat32_dirent_free-deleted d gone) (Listing-Parsed ds out l)
Listing-Parsed _ _ (plain_file {d = d} {ds = ds} {out = out} s kind l) =
    rw (← to_dirent-dirent_of (dos_name d) d s.bytes) (
      taken {found = (dos_name d, (d, ds))} (fat32_dirent_free-short d s)
        (fat32_dir_filename-short d ds s kind) (fat32_dirent_free-short d s)
        (Listing-Parsed ds out l))
Listing-Parsed _ _ (long_file d e ls rest {out = out} named low s kind fits l) =
    let name = spell (long_units (d ∷ ls)) in
    rw (← to_dirent-dirent_of name e s.bytes) (
      taken {found = (name, (e, rest))} (fat32_dirent_free-long d named.0.0 low)
        (fat32_dir_filename-long d e ls rest named s kind fits) (fat32_dirent_free-short e s)
        (Listing-Parsed rest out l))

long_part-short :
    (ds rest : List Entry) (e : Entry) → (long_part ds).1 ≡ e ∷ rest → is_long e ≡ false
unfolding long_part
long_part-short [] rest e h = absurd (cc)
long_part-short (d ∷ ds) rest e h = elim (Bool-cases (is_long d)) [
  | inl f ↦ long_part-short ds rest e (rw f at h)
  | inr f ↦ let g = rw f at h in let same : d ≡ e = cc in subst (λ t. is_long t ≡ false) same f
]

length-long_part : (ds : List Entry) → length (long_part ds).1 ≤ length ds
unfolding long_part
length-long_part [] = omega arith
length-long_part (d ∷ ds) = elim (Bool-cases (is_long d)) [
  | inl f ↦ rw f (omega (arith, length-long_part ds))
  | inr f ↦ rw f (omega arith)
]

-- A file whose last entry is not free takes one entry that counts, and at least one entry.
Taken-count :
    (d : Entry) (ds : List Entry) (found : Found)
    → Taken d ds found
    → fat32_dirent_free d ≡ false
    → fat32_dirent_free found.1.0 ≡ false
    → (fat32_dir_cnt_entries (d ∷ ds) ≡ 1 + fat32_dir_cnt_entries found.1.1)
      × (length found.1.1 ≤ length ds)
Taken-count d ds found (long e rest) f g = (
  omega (
    arith,
    count-long d ds e,
    long_part-count ds,
    ap fat32_dir_cnt_entries rest,
    count-one found.1.0 found.1.1 g (long_part-short ds found.1.1 found.1.0 rest),
  ),
  omega (arith, length-long_part ds, ap length rest),
)
Taken-count d ds found (short e same rest) f g = (
  omega (arith, ap fat32_dir_cnt_entries rest, count-one d ds f e),
  omega (arith, ap length rest),
)

dirents_from-Parsed :
    (fuel n used : ℕ) (ds : List Entry) (out : List Dirent)
    → Parsed ds out
    → length ds ≤ fuel
    → used + fat32_dir_cnt_entries ds ≤ n
    → dirents_from fuel n used ds ≡ ok out
unfolding dirents_from
dirents_from-Parsed fuel n used [] [] none_left h b = refl
dirents_from-Parsed fuel n used [] (_ ∷ out) l h b = elim l [ ]
dirents_from-Parsed zero n used (d ∷ ds) out l h b = absurd (omega arith)
dirents_from-Parsed (suc fuel) n used (d ∷ ds) out (passed e l) h b =
    rw e (dirents_from-Parsed fuel n used ds out l (omega arith) (omega (arith, count-free d ds e)))
dirents_from-Parsed (suc fuel) n used (d ∷ ds) (_ ∷ out) (taken {found = found} e name f l) h b =
    let counted = Taken-count d ds found (fat32_dir_filename-Taken d ds found name) e f in
    let room : leb (used + 1) n ≡ true = le→leb (used + 1) n (omega (arith, counted.0)) in
    rw
      (
        e,
        room,
        name,
        dirents_from-Parsed fuel n (used + 1) found.1.1 out l (omega (arith, counted.1))
            (omega (arith, counted.0)),
      )
      refl

-- The entries of a directory, each of which is unused, or a directory, an archive or the volume's label with a name of eight
-- characters and three, or a directory or an archive behind the parts of its long name, which have padding at their ends only and
-- fewer than 256 bytes in UTF-8, are read as the files that they stand for, in their order: each with its name, its cluster,
-- its size and its kind. No assertion fails on them, and the array that was allocated holds them all.
pub fat32_to_dirent-Listing :
    (ds : List Entry) (out : List Dirent) → Listing ds out → fat32_to_dirent ds ≡ ok out
unfolding fat32_to_dirent
fat32_to_dirent-Listing ds out l =
    dirents_from-Parsed (length ds) (fat32_dir_cnt_entries ds) 0 ds out (Listing-Parsed ds out l)
      (omega arith) (omega arith)

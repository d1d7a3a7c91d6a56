-- ===== src/Fat32/Count.antt =====
-- The array of directory entries is filled to its end, and no further.
use simple_pi_os.Prelude.{
  Bool, Bool-cases, List, [], and_then-ok, ap, arith, assert-ok, false, if◌then◌else◌, inl, inr,
  leb, leb→le, length, not, ok, ok-injective, ok≢panic, refl, suc, sym, true, zero, ℕ, ◌&&◌, ◌+◌,
  ◌>>=◌, ◌||◌, ◌∙◌, ◌∷◌, ◌≡◌, ◌≤◌,
}
use simple_pi_os.Fat32.Directory.{
  Dirent, Entry, Found, copied, dirents_from, fat32_archive, fat32_dir, fat32_dir_cnt_entries,
  fat32_dir_filename, fat32_dirent_free, fat32_to_dirent, fat32_volume_label, is_attr, attr,
  is_long, lfn_get_name, long_name, long_part, short_name, to_dirent,
}

and_false : (b : Bool) → (b && false) ≡ false
and_false true = refl
and_false false = refl

at_most_one : (b : Bool) → (if b then 1 else 0) ≤ 1
at_most_one true = omega arith
at_most_one false = omega arith

count-nil : fat32_dir_cnt_entries [] ≡ 0
unfolding fat32_dir_cnt_entries
count-nil = refl

-- An entry of a long name and a free entry do not count; any other counts once.
pub count-long :
    (d : Entry) (ds : List Entry)
    → is_long d ≡ true
    → fat32_dir_cnt_entries (d ∷ ds) ≡ fat32_dir_cnt_entries ds
unfolding fat32_dir_cnt_entries
count-long d ds e = rw (e, and_false (not (fat32_dirent_free d))) (omega arith)

pub count-free :
    (d : Entry) (ds : List Entry)
    → fat32_dirent_free d ≡ true
    → fat32_dir_cnt_entries (d ∷ ds) ≡ fat32_dir_cnt_entries ds
unfolding fat32_dir_cnt_entries
count-free d ds e = rw e (omega arith)

count-any :
    (d : Entry) (ds : List Entry) → fat32_dir_cnt_entries (d ∷ ds) ≤ 1 + fat32_dir_cnt_entries ds
unfolding fat32_dir_cnt_entries
count-any d ds = omega (arith, at_most_one (not (fat32_dirent_free d) && not (is_long d)))

pub count-one :
    (d : Entry) (ds : List Entry)
    → fat32_dirent_free d ≡ false
    → is_long d ≡ false
    → fat32_dir_cnt_entries (d ∷ ds) ≡ 1 + fat32_dir_cnt_entries ds
unfolding fat32_dir_cnt_entries
count-one d ds e f = rw (e, f) refl

pub long_part-count :
    (ds : List Entry) → fat32_dir_cnt_entries ds ≡ fat32_dir_cnt_entries (long_part ds).1
unfolding long_part
long_part-count [] = refl
long_part-count (d ∷ ds) = elim (Bool-cases (is_long d)) [
  | inl e ↦ rw e (count-long d ds e ∙ long_part-count ds)
  | inr e ↦ rw e refl
]

-- What a file name takes: the entries of the long name and the one behind them, or the entry itself
pub data Taken (d : Entry) (ds : List Entry) (found : Found) : Type 0 where
  long : is_long d ≡ true → (long_part ds).1 ≡ found.1.0 ∷ found.1.1 → Taken d ds found
  short : is_long d ≡ false → d ≡ found.1.0 → ds ≡ found.1.1 → Taken d ds found

long_name-found :
    (d : Entry) (ls rest : List Entry) (found : Found)
    → long_name d ls rest ≡ ok found
    → rest ≡ found.1.0 ∷ found.1.1
unfolding long_name
long_name-found d ls [] found h = absurd (ok≢panic (sym h))
long_name-found d ls (e ∷ rest) found h =
    let checked =
      assert-ok (is_attr (attr e) fat32_dir || is_attr (attr e) fat32_archive)
        (lfn_get_name (d ∷ ls) >>= λ name. copied name >>= λ name. ok (name, (e, rest))) found h in
    let named =
      and_then-ok (lfn_get_name (d ∷ ls)) (λ name. copied name >>= λ name. ok (name, (e, rest)))
        found checked.1 in
    let kept = and_then-ok (copied named.0) (λ name. ok (name, (e, rest))) found named.2 in
    ap (λ f. f.1.0 ∷ f.1.1) (ok-injective kept.2)

pub fat32_dir_filename-Taken :
    (d : Entry) (ds : List Entry) (found : Found)
    → fat32_dir_filename d ds ≡ ok found
    → Taken d ds found
unfolding fat32_dir_filename
fat32_dir_filename-Taken d ds found h = elim (Bool-cases (is_long d)) [
  | inl e ↦ long e (long_name-found d (long_part ds).0 (long_part ds).1 found (rw e at h))
  | inr e ↦
      let g = rw e at h in
      let kept =
        assert-ok
          (is_attr (attr d) fat32_dir
            || (is_attr (attr d) fat32_archive || is_attr (attr d) fat32_volume_label))
          (ok (short_name d, (d, ds))) found g in
      short e (ap (λ f. f.1.0) (ok-injective kept.1)) (ap (λ f. f.1.1) (ok-injective kept.1))
]

-- A file name takes at most one entry that counts.
pub fat32_dir_filename-count :
    (d : Entry) (ds : List Entry) (found : Found)
    → fat32_dir_filename d ds ≡ ok found
    → fat32_dir_cnt_entries (d ∷ ds) ≤ 1 + fat32_dir_cnt_entries found.1.1
fat32_dir_filename-count d ds found h = elim (fat32_dir_filename-Taken d ds found h) [
  | long e rest ↦ omega (
    arith,
    count-long d ds e,
    long_part-count ds,
    ap fat32_dir_cnt_entries rest,
    count-any found.1.0 found.1.1,
  )
  | short e same rest ↦ omega (arith, ap fat32_dir_cnt_entries rest, count-any d ds)
]

-- Of what is left, each entry that counts gives a file, and the array is not overrun.
Fills : (n used : ℕ) (ds : List Entry) (out : List Dirent) → Type 0
Fills n used ds out =
    (fat32_dir_cnt_entries ds ≤ length out) × ((used ≤ n) → (used + length out ≤ n))

dirents_from-Fills :
    (fuel n used : ℕ) (ds : List Entry) (out : List Dirent)
    → dirents_from fuel n used ds ≡ ok out
    → Fills n used ds out
unfolding dirents_from Fills
dirents_from-Fills fuel n used [] out h =
    let size : length out ≡ 0 = ap length (sym (ok-injective h)) in
    (omega (arith, size, count-nil), λ u. omega (arith, size))
dirents_from-Fills zero n used (d ∷ ds) out h = absurd (ok≢panic (sym h))
dirents_from-Fills (suc fuel) n used (d ∷ ds) out h = elim (Bool-cases (fat32_dirent_free d)) [
  | inl e ↦ rw (count-free d ds e) (dirents_from-Fills fuel n used ds out (rw e at h))
  | inr e ↦
      let g = rw e at h in
      let room =
        assert-ok (leb (used + 1) n)
          (fat32_dir_filename d ds >>= λ found. dirents_from fuel n (used + 1) found.1.1 >>= λ rest.
            ok (to_dirent found.0 found.1.0 ∷ rest))
          out g in
      let found =
        and_then-ok (fat32_dir_filename d ds)
          (λ found. dirents_from fuel n (used + 1) found.1.1 >>= λ rest.
            ok (to_dirent found.0 found.1.0 ∷ rest))
          out room.1 in
      let more =
        and_then-ok (dirents_from fuel n (used + 1) found.0.1.1)
          (λ rest. ok (to_dirent found.0.0 found.0.1.0 ∷ rest)) out found.2 in
      let rest = dirents_from-Fills fuel n (used + 1) found.0.1.1 more.0 more.1 in
      let size : length out ≡ suc (length more.0) = ap length (sym (ok-injective more.2)) in
      let named = fat32_dir_filename-count d ds found.0 found.1 in
      let below = leb→le (used + 1) n room.0 in
      let after = rest.1 below in
      (omega (arith, named, size, rest.0), λ u. omega (arith, size, after))
]

-- If the entries of a directory are read without an error, the array has exactly the files that were
-- counted for it: none of its places is left as it was, and none behind it is written.
pub fat32_to_dirent-length :
    (ds : List Entry) (out : List Dirent)
    → fat32_to_dirent ds ≡ ok out
    → length out ≡ fat32_dir_cnt_entries ds
unfolding fat32_to_dirent Fills
fat32_to_dirent-length ds out h =
    let fills = dirents_from-Fills (length ds) (fat32_dir_cnt_entries ds) 0 ds out h in
    let inside = fills.1 (omega arith) in omega (arith, fills.0, inside)

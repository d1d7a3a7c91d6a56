-- ===== src/Tests/Directories.antt =====
-- A directory of two entries, and a card that holds it as its root.
use simple_pi_os.Prelude.{
  List, [], arith, false, if◌then◌else◌, inl, inr, none, ok, refl, replicate, some, ℕ, ◌++◌, ◌==◌,
  ◌>>=◌, ◌∷◌, ◌≡◌,
}
use simple_pi_os.Fat32.{Card, Fat32}
use simple_pi_os.Fat32.Directory.{Dirent, Entry, fat32_to_dirent}
use simple_pi_os.Fat32.Names.{IsLongName, IsShort, letter, pads}
use simple_pi_os.Utf8.Encode.{standard}
use simple_pi_os.Fat32.Path.{fat32_read_dir, path_lookup}
use simple_pi_os.Fat32.Walk.{path_lookup-walk, split, walk}
use simple_pi_os.Fat32.Listing.{
  Listing, fat32_to_dirent-Listing, long_file, nothing, plain_file, unused,
}

-- "HI.TXT", an archive of 5 bytes that starts at cluster 3
abbrev hi : Entry
hi =
    0x48
    ∷ 0x49
    ∷ 0x20
    ∷ 0x20
    ∷ 0x20
    ∷ 0x20
    ∷ 0x20
    ∷ 0x20
    ∷ 0x54
    ∷ 0x58
    ∷ 0x54
    ∷ 0x20
    ∷ (replicate 14 0 ++ (3 ∷ 0 ∷ 5 ∷ 0 ∷ 0 ∷ 0 ∷ []))

-- A deleted file
abbrev gone : Entry
gone = 0xe5 ∷ replicate 31 0

abbrev hi_name : List ℕ
hi_name = 0x48 ∷ 0x49 ∷ 0x2e ∷ 0x54 ∷ 0x58 ∷ 0x54 ∷ []

-- The long name "a" of the file behind it
abbrev part : Entry
part =
    0x41
    ∷ 0x61
    ∷ 0
    ∷ 0
    ∷ 0
    ∷ (replicate 6 0xff ++ (0x0f ∷ 0 ∷ 0x11 ∷ (replicate 12 0xff ++ (0 ∷ 0 ∷ replicate 4 0xff))))

hi-IsShort : IsShort hi
hi-IsShort = record { plain = refl; used = cc; there = cc; bytes = grind arith }

part-IsLongName : IsLongName (part ∷ [])
part-IsLongName = (
  (
    refl,
    grind arith,
    letter (λ e. absurd (omega (arith, e))) (λ e. absurd (omega (arith, e)))
        (pads (
          inl refl,
          (
            inr refl,
            (
              inr refl,
              (
                inr refl,
                (
                  inr refl,
                  (
                    inr refl,
                    (inr refl, (inr refl, (inr refl, (inr refl, (inr refl, (inr refl, tt)))))),
                  ),
                ),
              ),
            ),
          ),
        )),
  ),
  tt,
)

abbrev dirents : List Dirent
dirents =
    record { name = 0x61 ∷ []; cluster_id = 3; is_dir_p = false; nbytes = 5 }
    ∷ (record { name = hi_name; cluster_id = 3; is_dir_p = false; nbytes = 5 } ∷ [])

dir-Listing : Listing (gone ∷ part ∷ hi ∷ hi ∷ []) dirents
unfolding standard
dir-Listing = unused (inl refl) (
    long_file part hi [] (hi ∷ []) part-IsLongName (omega arith) hi-IsShort refl (omega arith)
      (plain_file hi-IsShort refl nothing))

fat32_to_dirent-Listing_example : fat32_to_dirent (gone ∷ part ∷ hi ∷ hi ∷ []) ≡ ok dirents
fat32_to_dirent-Listing_example =
    fat32_to_dirent-Listing (gone ∷ part ∷ hi ∷ hi ∷ []) dirents dir-Listing

-- A card whose sector 1 is the root directory, with that file
abbrev card : Card
card = record { sector = λ n. if n == 1 then some (hi ++ replicate 480 0) else none }

abbrev fs : Fat32
fs = record {
  fat_begin_lba = 0;
  cluster_begin_lba = 1;
  sectors_per_cluster = 1;
  root_dir_first_cluster = 2;
  fat = 0xfff_fff8 ∷ 0xfff_ffff ∷ 0xfff_fff8 ∷ 0xfff_ffff ∷ [];
  n_fat = 2;
}

path_lookup-walk_example :
    path_lookup card fs none hi_name
    ≡ (fat32_read_dir card fs none >>= λ dir. walk card fs dir (split hi_name).0 (split hi_name).1)
path_lookup-walk_example = path_lookup-walk card fs none hi_name

-- ===== src/Fat32/Path.antt =====
-- `fat32_read_dir`, `dir_lookup` and `path_lookup` of pi-side/kernel/disk/fs.c. The messages for names
-- that are not found are left out; `kfree` does nothing.
use simple_pi_os.Prelude.{
  Bool, List, Option, Result, [], demand, drop, false, if◌then◌else◌, length, ltb, none, ok,
  out_of_fuel, panic, some, suc, take, true, zero, ℕ, ◌&&◌, ◌+◌, ◌/◌, ◌==◌, ◌>>=◌, ◌>>◌, ◌∷◌,
}
use simple_pi_os.Fat32.{Card, Fat32, dir_sectors}
use simple_pi_os.Fat32.Directory.{Dirent, Entry, fat32_to_dirent}

-- The bytes as entries of 32 bytes each; the sectors hold whole entries. One round for each entry.
unfoldable pub entries : (n : ℕ) → List ℕ → List Entry
entries zero bytes = []
entries (suc n) bytes = take 32 bytes ∷ entries n (drop 32 bytes)

abbrev pub start_cluster : Fat32 → Option Dirent → ℕ
start_cluster fs none = fs.root_dir_first_cluster
start_cluster fs (some d) = d.cluster_id

unfoldable pub fat32_read_dir : Card → Fat32 → Option Dirent → Result (List Dirent)
fat32_read_dir card fs d = do
  bytes ← dir_sectors card fs (start_cluster fs d)
  fat32_to_dirent (entries (length bytes / 32) bytes)

-- `strcmp(a, b) == 0`
abbrev pub same_name : List ℕ → List ℕ → Bool
same_name [] [] = true
same_name [] (y ∷ ys) = false
same_name (x ∷ xs) [] = false
same_name (x ∷ xs) (y ∷ ys) = x == y && same_name xs ys

unfoldable pub dir_lookup : List Dirent → List ℕ → Option Dirent
dir_lookup [] name = none
dir_lookup (e ∷ es) name =
    let rest = dir_lookup es name in if same_name name e.name then some e else rest

abbrev pub slash : ℕ
slash = 0x2f

abbrev pub longer : ℕ → Option (List ℕ × List ℕ) → Option (List ℕ × List ℕ)
longer c none = none
longer c (some (name, rest)) = some (c ∷ name, rest)

-- `strchr(path, '/')`: what stands before the first separator, and what behind it
unfoldable pub strchr : List ℕ → Option (List ℕ × List ℕ)
strchr [] = none
strchr (c ∷ cs) = if c == slash then some ([], cs) else longer c (strchr cs)

abbrev pub Lookup : Type 0
Lookup = Option Dirent × List Dirent

-- The entry of a path's middle part: it must be a directory.
abbrev pub middle : (List Dirent) → (Dirent → Result Lookup) → Option Dirent → Result Lookup
middle last_dir next none = ok (none, last_dir)
middle last_dir next (some e) = if e.is_dir_p then next e else ok (none, last_dir)

-- The loop of `path_lookup`; each round passes a separator, so the length of the path is enough fuel. It
-- returns the entry, or nothing, and the directory that was searched last.
unfoldable pub lookup_from : Card → Fat32 → (fuel : ℕ) → List Dirent → List ℕ → Result Lookup
lookup_from card fs zero last_dir path = panic out_of_fuel
lookup_from card fs (suc fuel) last_dir path = elim (strchr path) [
  | none ↦ ok (dir_lookup last_dir path, last_dir)
  | some parts ↦
      (demand (ltb (length parts.0) 256)
        >> middle last_dir
            (λ e. fat32_read_dir card fs (some e) >>= λ next_dir.
              lookup_from card fs fuel next_dir parts.1)
            (dir_lookup last_dir parts.0))
]

unfoldable pub path_lookup : Card → Fat32 → Option Dirent → List ℕ → Result Lookup
path_lookup card fs search_dir path = do
  last_dir ← fat32_read_dir card fs search_dir
  lookup_from card fs (length path + 1) last_dir path

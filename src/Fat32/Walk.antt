-- ===== src/Fat32/Walk.antt =====
-- The lookup of a path as a walk along its names.
use mathlib.Core.Path.{fun_ext}
use simple_pi_os.Prelude.{
  Bool-cases, List, Option, Option-cases, Result, [], ap, arith, demand, if◌then◌else◌, inl, inr,
  length, ltb, none, ok, refl, same_string, some, suc, zero, ℕ, ◌+◌, ◌<◌, ◌==◌, ◌>>=◌, ◌>>◌, ◌∙◌,
  ◌∷◌, ◌≡◌,
}
use simple_pi_os.Fat32.{Card, Fat32}
use simple_pi_os.Fat32.Directory.{Dirent}
use simple_pi_os.Fat32.Path.{
  Lookup, dir_lookup, fat32_read_dir, lookup_from, longer, middle, path_lookup, same_name, slash,
  strchr,
}

-- The names of a path: the first, and those behind it
abbrev pub Names : Type 0
Names = List ℕ × List (List ℕ)

abbrev pub split : List ℕ → Names
split [] = ([], [])
split (c ∷ cs) =
    let more = split cs in if c == slash then ([], more.0 ∷ more.1) else (c ∷ more.0, more.1)

-- The first entry of a name
abbrev pub find : List Dirent → List ℕ → Option Dirent
find [] name = none
find (e ∷ es) name = if same_string e.name name then some e else find es name

-- An entry, if it is a directory's
abbrev pub if_directory : Option Dirent → Option Dirent
if_directory none = none
if_directory (some e) = if e.is_dir_p then some e else none

-- All names but the last name directories; each of them is read before the next name is looked up.
unfoldable pub walk : Card → Fat32 → List Dirent → List ℕ → List (List ℕ) → Result Lookup
walk card fs dir name [] = ok (find dir name, dir)
walk card fs dir name (next ∷ names) =
    demand (ltb (length name) 256) >> elim (if_directory (find dir name)) [
      | none ↦ ok (none, dir)
      | some e ↦ (fat32_read_dir card fs (some e) >>= λ sub. walk card fs sub next names)
    ]

==_comm : (a b : ℕ) → (a == b) ≡ (b == a)
==_comm a b = ground arith

same_name-same_string : (xs ys : List ℕ) → same_name xs ys ≡ same_string ys xs
same_name-same_string [] [] = refl
same_name-same_string [] (y ∷ ys) = refl
same_name-same_string (x ∷ xs) [] = refl
same_name-same_string (x ∷ xs) (y ∷ ys) = rw (same_name-same_string xs ys, ==_comm x y) refl

dir_lookup-find : (dir : List Dirent) (name : List ℕ) → dir_lookup dir name ≡ find dir name
unfolding dir_lookup
dir_lookup-find [] name = refl
dir_lookup-find (e ∷ es) name = rw (same_name-same_string name e.name, dir_lookup-find es name) refl

middle-if_directory :
    (dir : List Dirent) (next : Dirent → Result Lookup) (o : Option Dirent)
    → middle dir next o ≡ elim (if_directory o) [ none ↦ ok (none, dir) | some e ↦ next e ]
middle-if_directory dir next none = refl
middle-if_directory dir next (some e) = elim (Bool-cases e.is_dir_p) [
  | inl d ↦ rw d refl
  | inr d ↦ rw d refl
]

longer-none : (c : ℕ) (o : Option (List ℕ × List ℕ)) → longer c o ≡ none → o ≡ none
longer-none c none h = refl
longer-none c (some p) h = absurd (cc)

longer-some :
    (c : ℕ) (o : Option (List ℕ × List ℕ)) (name rest : List ℕ)
    → longer c o ≡ some (name, rest)
    → (before : List ℕ) × (o ≡ some (before, rest)) × (name ≡ c ∷ before)
longer-some c none name rest h = absurd (cc)
longer-some c (some (before, behind)) name rest h = (before, cc, cc)

strchr-none : (path : List ℕ) → strchr path ≡ none → split path ≡ (path, [])
unfolding strchr
strchr-none [] h = refl
strchr-none (c ∷ cs) h = elim (Bool-cases (c == slash)) [
  | inl e ↦ let g = rw e at h in absurd (cc)
  | inr e ↦ rw (e, strchr-none cs (longer-none c (strchr cs) (rw e at h))) refl
]

strchr-some :
    (path name rest : List ℕ)
    → strchr path ≡ some (name, rest)
    → (split path ≡ (name, (split rest).0 ∷ (split rest).1)) × (length rest < length path)
unfolding strchr
strchr-some [] name rest h = absurd (cc)
strchr-some (c ∷ cs) name rest h = elim (Bool-cases (c == slash)) [
  | inl e ↦
      let g = rw e at h in
      let empty : name ≡ [] = cc in
      let behind : rest ≡ cs = cc in rw (empty, behind, e) (refl, omega arith)
  | inr e ↦
      let parts = longer-some c (strchr cs) name rest (rw e at h) in
      let more = strchr-some cs parts.0 rest parts.1 in
      rw (parts.2, e, more.0) (refl, omega (arith, more.1))
]

lookup_from-last :
    (card : Card) (fs : Fat32) (fuel : ℕ) (dir : List Dirent) (path : List ℕ)
    → strchr path ≡ none
    → lookup_from card fs (suc fuel) dir path ≡ ok (dir_lookup dir path, dir)
unfolding lookup_from
lookup_from-last card fs fuel dir path e = rw (lookup_from, e) refl

lookup_from-more :
    (card : Card) (fs : Fat32) (fuel : ℕ) (dir : List Dirent) (path name rest : List ℕ)
    → strchr path ≡ some (name, rest)
    → lookup_from card fs (suc fuel) dir path ≡ (
        demand (ltb (length name) 256)
        >> middle dir
            (λ d. fat32_read_dir card fs (some d) >>= λ sub. lookup_from card fs fuel sub rest)
            (dir_lookup dir name))
unfolding lookup_from
lookup_from-more card fs fuel dir path name rest e = rw (lookup_from, e) refl

lookup_from-walk :
    (card : Card) (fs : Fat32) (fuel : ℕ) (dir : List Dirent) (path : List ℕ)
    → length path < fuel
    → lookup_from card fs fuel dir path ≡ walk card fs dir (split path).0 (split path).1
unfolding walk
lookup_from-walk card fs zero dir path h = absurd (omega arith)
lookup_from-walk card fs (suc fuel) dir path h = elim (Option-cases (strchr path)) [
  | inl e ↦
      rw (lookup_from-last card fs fuel dir path e, strchr-none path e, dir_lookup-find dir path)
        refl
  | inr ((name, rest), e) ↦
      let parts = strchr-some path name rest e in
      rw (lookup_from-more card fs fuel dir path name rest e, parts.0, dir_lookup-find dir name)
        (ap (λ m. demand (ltb (length name) 256) >> m)
          (middle-if_directory dir
              (λ d. fat32_read_dir card fs (some d) >>= λ sub. lookup_from card fs fuel sub rest)
              (find dir name)
            ∙ ap
                (λ f. elim (if_directory (find dir name)) [
                  | none ↦ ok (none, dir)
                  | some d ↦ (fat32_read_dir card fs (some d) >>= f)
                ])
                (fun_ext (λ sub. lookup_from-walk card fs fuel sub rest (omega (arith, parts.1))))))
]

-- Looking a path up is to read the directory it starts from and to walk along the names between its
-- separators: every name but the last must be a directory's, a missing one ends the walk without an
-- entry, and a name of 256 bytes or more that a separator follows is refused.
pub path_lookup-walk :
    (card : Card) (fs : Fat32) (start : Option Dirent) (path : List ℕ)
    → path_lookup card fs start path
      ≡ (fat32_read_dir card fs start >>= λ dir. walk card fs dir (split path).0 (split path).1)
unfolding path_lookup
path_lookup-walk card fs start path =
    ap (λ f. fat32_read_dir card fs start >>= f)
      (fun_ext (λ dir. lookup_from-walk card fs (length path + 1) dir path (omega arith)))

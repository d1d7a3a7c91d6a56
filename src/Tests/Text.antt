-- ===== src/Tests/Text.antt =====
-- Strings in a small memory: `hi` at 16 and `yo` at 32.
use simple_pi_os.Prelude.{
  arith, codes, if◌then◌else◌, inl, inr, ok, refl, ℕ, ◌+◌, ◌<◌, ◌==◌, ◌↔◌, ◌≡◌, ◌⊎◌,
}
use simple_pi_os.Ram.{Ram, put_bytes, read_bytes}
use simple_pi_os.Strings.{memcpy, strcat, strcmp}
use simple_pi_os.Strings.Append.{strcat-IsString}
use simple_pi_os.Strings.Compare.{IsString, strcmp-IsString}
use simple_pi_os.Strings.Copy.{IsBytes, memcpy-put_bytes}

abbrev ram : Ram
ram p =
    if p == 16
    then b'h'
    else if p == 17
    then b'i'
    else if p == 32
    then b'y'
    else if p == 33
    then b'o'
    else 0

ram-IsBytes : IsBytes ram
ram-IsBytes p = ground arith

hi-IsString : IsString ram 16 (codes "hi")
hi-IsString = (refl, cc, (refl, cc, refl))

yo-IsString : IsString ram 32 (codes "yo")
yo-IsString = (refl, cc, (refl, cc, refl))

memcpy-put_bytes_example : memcpy 64 16 8 ram ≡ put_bytes 64 (read_bytes 16 8 ram) ram
memcpy-put_bytes_example = memcpy-put_bytes 64 16 8 ram ram-IsBytes (inl (omega arith))

strcmp-IsString_example : (v : ℕ) × (strcmp 3 16 32 ram ≡ ok v) × (v ≡ 0 ↔ codes "hi" ≡ codes "yo")
strcmp-IsString_example =
    strcmp-IsString 3 16 32 (codes "hi") (codes "yo") ram ram-IsBytes hi-IsString yo-IsString
      (omega arith)

strcat-IsString_example :
    (ram' : Ram) × (strcat 3 16 32 ram ≡ ok ram')
    × IsString ram' 16 (codes "hiyo")
    × ((i : ℕ) → (i < 16) ⊎ (16 + 2 + 2 < i) → ram' i ≡ ram i)
strcat-IsString_example =
    strcat-IsString 3 16 32 (codes "hi") (codes "yo") ram hi-IsString yo-IsString (omega arith)
      (omega arith) (inr (omega arith))

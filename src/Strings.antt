-- ===== src/Strings.antt =====
-- The memory and string functions of pi-side/libpi/stdlib.c, on memory as bytes. Characters are unsigned, as
-- on ARM; a difference of two is a word of 32 bits. A loop that runs to the end of a string takes fuel:
-- one round more than the string has characters is enough.
pub mod Copy
pub mod Compare
pub mod Append
use simple_pi_os.Prelude.{
  Bool, Result, if◌then◌else◌, leb, ok, out_of_fuel, panic, suc, u32, u8, update, zero, ℕ, ◌!=◌,
  ◌%◌, ◌&&◌, ◌+◌, ◌-◌, ◌/◌, ◌==◌, ◌>>=◌, ◌^◌,
}
use simple_pi_os.Ram.{Ram, put32}
use simple_pi_os.Wire.Word.{word_of}

unfoldable pub memset : (p c n : ℕ) → Ram → Ram
memset p c zero ram = ram
memset p c (suc n) ram = memset (p + 1) c n (update ram p (u8 c))

abbrev pub difference : (x y : ℕ) → ℕ
difference x y = u32 (x + 2 ^ 32 - y)

unfoldable pub memcmp : (s1 s2 n : ℕ) → Ram → ℕ
memcmp s1 s2 zero ram = 0
memcmp s1 s2 (suc n) ram =
    let v = difference (ram s1) (ram s2) in
    let rest = memcmp (s1 + 1) (s2 + 1) n ram in if v != 0 then v else rest

unfoldable pub get32 : ℕ → Ram → ℕ
get32 p ram = word_of (ram p) (ram (p + 1)) (ram (p + 2)) (ram (p + 3))

unfoldable pub copy_words : (rounds d s : ℕ) → Ram → Ram
copy_words zero d s ram = ram
copy_words (suc rounds) d s ram = copy_words rounds (d + 4) (s + 4) (put32 d (get32 s ram) ram)

unfoldable pub copy_bytes : (rounds d s : ℕ) → Ram → Ram
copy_bytes zero d s ram = ram
copy_bytes (suc rounds) d s ram = copy_bytes rounds (d + 1) (s + 1) (update ram d (ram s))

abbrev pub aligned4 : ℕ → Bool
aligned4 p = p % 4 == 0

unfoldable pub memcpy : (dst src nbytes : ℕ) → Ram → Ram
memcpy dst src nbytes ram =
    if aligned4 dst && (aligned4 src && aligned4 nbytes)
    then copy_words (nbytes / 4) dst src ram
    else copy_bytes nbytes dst src ram

unfoldable pub strcmp : (fuel a b : ℕ) → Ram → Result ℕ
strcmp zero a b ram = panic out_of_fuel
strcmp (suc fuel) a b ram =
    if ram a != 0 && ram a == ram b
    then strcmp fuel (a + 1) (b + 1) ram
    else ok (difference (ram a) (ram b))

unfoldable pub strncmp : (n s1 s2 : ℕ) → Ram → ℕ
strncmp zero s1 s2 ram = 0
strncmp (suc n) s1 s2 ram =
    let rest = strncmp n (s1 + 1) (s2 + 1) ram in
    if ram s1 != ram s2 then difference (ram s1) (ram s2) else rest

unfoldable pub strlen_from : (fuel p ret : ℕ) → Ram → Result ℕ
strlen_from zero p ret ram = panic out_of_fuel
strlen_from (suc fuel) p ret ram =
    if ram (p + ret) == 0 then ok ret else strlen_from fuel p (ret + 1) ram

unfoldable pub strlen : (fuel p : ℕ) → Ram → Result ℕ
strlen fuel p ram = strlen_from fuel p 0 ram

unfoldable pub strcpy : (fuel d s : ℕ) → Ram → Result Ram
strcpy zero d s ram = panic out_of_fuel
strcpy (suc fuel) d s ram =
    let ram' = update ram d (ram s) in
    if ram s == 0 then ok ram' else strcpy fuel (d + 1) (s + 1) ram'

-- The first loop finds the zero; the second is the copy.
unfoldable pub find_end : (fuel p : ℕ) → Ram → Result ℕ
find_end zero p ram = panic out_of_fuel
find_end (suc fuel) p ram = if ram p == 0 then ok p else find_end fuel (p + 1) ram

unfoldable pub strcat : (fuel dest src : ℕ) → Ram → Result Ram
strcat fuel dest src ram = find_end fuel dest ram >>= λ end. strcpy fuel end src ram

unfoldable pub strchr : (fuel s c : ℕ) → Ram → Result ℕ
strchr zero s c ram = panic out_of_fuel
strchr (suc fuel) s c ram =
    if ram s == 0 then ok 0 else if ram s == c then ok s else strchr fuel (s + 1) c ram

unfoldable pub toupper : ℕ → ℕ
toupper c = if leb b'a' c && leb c b'z' then c + b'A' - b'a' else c

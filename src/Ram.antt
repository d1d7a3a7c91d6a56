-- ===== src/Ram.antt =====
-- Memory as bytes, the way `PUT32` of pi-side/libpi/put-get.s and the checksum loop reach it: a word is
-- stored with its lowest byte first.
use simple_pi_os.Prelude.{
  List, [], ap, ap₂, arith, length, refl, suc, update, zero, ℕ, ◌++◌, ◌+◌, ◌<◌, ◌∙◌, ◌∷◌, ◌≡◌, ◌≤◌,
}
use simple_pi_os.Wire.Word.{word_bytes}

abbrev pub Ram : Type 0
Ram = ℕ → ℕ

unfoldable pub put_bytes : (addr : ℕ) → List ℕ → Ram → Ram
put_bytes addr [] ram = ram
put_bytes addr (b ∷ bs) ram = put_bytes (addr + 1) bs (update ram addr b)

unfoldable pub put32 : (addr w : ℕ) → Ram → Ram
put32 addr w ram = put_bytes addr (word_bytes w) ram

unfoldable pub read_bytes : (addr n : ℕ) → Ram → List ℕ
read_bytes addr zero ram = []
read_bytes addr (suc n) ram = ram addr ∷ read_bytes (addr + 1) n ram

-- Writing two pieces one after the other
pub put_bytes-append :
    (a : ℕ) (xs ys : List ℕ) (ram : Ram)
    → put_bytes a (xs ++ ys) ram ≡ put_bytes (a + length xs) ys (put_bytes a xs ram)
unfolding put_bytes
put_bytes-append a [] ys ram = ap (λ t. put_bytes t ys ram) (omega arith)
put_bytes-append a (x ∷ xs) ys ram =
    put_bytes-append (a + 1) xs ys (update ram a x)
    ∙ ap (λ t. put_bytes t ys (put_bytes (a + 1) xs (update ram a x))) (omega arith)

pub put_bytes-below :
    (a : ℕ) (xs : List ℕ) (ram : Ram) (i : ℕ) → i < a → put_bytes a xs ram i ≡ ram i
unfolding put_bytes
put_bytes-below a [] ram i h = refl
put_bytes-below a (x ∷ xs) ram i h =
    put_bytes-below (a + 1) xs (update ram a x) i (omega arith) ∙ ground arith

pub put_bytes-above :
    (a : ℕ) (xs : List ℕ) (ram : Ram) (i : ℕ) → a + length xs ≤ i → put_bytes a xs ram i ≡ ram i
unfolding put_bytes
put_bytes-above a [] ram i h = refl
put_bytes-above a (x ∷ xs) ram i h =
    put_bytes-above (a + 1) xs (update ram a x) i (omega arith) ∙ ground arith

-- What was written is read back.
pub read_bytes-put_bytes :
    (a : ℕ) (xs : List ℕ) (ram : Ram) → read_bytes a (length xs) (put_bytes a xs ram) ≡ xs
unfolding put_bytes read_bytes
read_bytes-put_bytes a [] ram = refl
read_bytes-put_bytes a (x ∷ xs) ram =
    ap₂ (λ t ts. t ∷ ts)
      (put_bytes-below (a + 1) xs (update ram a x) a (omega arith) ∙ ground arith)
      (read_bytes-put_bytes (a + 1) xs (update ram a x))

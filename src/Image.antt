-- ===== src/Image.antt =====
-- A program image on the line: the loops that pi-side/bootloader/bootloader.c and
-- pi-side/kernel/loader.c receive it with, and those that unix-side/support/simple-boot.c and
-- unix-side/shell/shell.c send it with.
pub mod Cross
use simple_pi_os.Prelude.{List, [], if◌then◌else◌, ltb, out_of_fuel, suc, u32, zero, ℕ, ◌+◌, ◌∷◌}
use simple_pi_os.Wire.{Proc, done, stop, get_uint, put_uint, ◌>>=◌, ◌>>◌}
use simple_pi_os.Wire.Word.{word_of}
use simple_pi_os.Ram.{Ram, put32}

-- The words come one at a time; `i` wraps at 32 bits. The fuel is one more than the words of the image.
unfoldable pub receive_words : (base fuel i size : ℕ) → Ram → Proc Ram
receive_words base zero i size ram = if ltb i size then stop out_of_fuel else done ram
receive_words base (suc fuel) i size ram =
    if ltb i size
    then (get_uint >>= λ w.
        receive_words base fuel (u32 (i + 4)) size (put32 (u32 (base + i)) w ram))
    else done ram

-- The words of a buffer, as the host reads them: the lowest byte first.
unfoldable pub words : List ℕ → List ℕ
words (a ∷ b ∷ c ∷ d ∷ rest) = word_of a b c d ∷ words rest
words buf = []

unfoldable pub put_words : List ℕ → Proc (Unit {0})
put_words [] = done tt
put_words (w ∷ ws) = put_uint w >> put_words ws

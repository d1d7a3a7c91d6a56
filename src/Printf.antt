-- ===== src/Printf.antt =====
-- The formatted output of pi-side/libpi/printf.c, without floating point, which is switched off.
pub mod Numbers
pub mod Buffer
use simple_pi_os.Prelude.{
  Bool, List, Result, [], assert, asserted, codes, drop, false, fault, get_or, if◌then◌else◌, leb,
  length, ltb, ok, out_of_fuel, panic, panicked, replicate, suc, true, u32, u8, zero, ℕ, ◌%◌, ◌&&◌,
  ◌*◌, ◌++◌, ◌+◌, ◌-◌, ◌/◌, ◌==◌, ◌>>=◌, ◌>>◌, ◌^◌, ◌||◌, ◌∷◌,
}

-- A variable argument: a number of 32 bits, or the memory that a pointer to characters points to.
pub data Arg : Type 0 where
  number : ℕ → Arg
  string : List ℕ → Arg

unfoldable pub isdigit : ℕ → Bool
isdigit c = leb b'0' c && leb c b'9'

-- `pad`: spaces behind the digits, which stand in reverse; a zero behind them must fit into `buf[64]`.
unfoldable pub pad : (buf : List ℕ) (width : ℕ) → Result (List ℕ)
pad buf width =
    let full = buf ++ replicate (width - length buf) b' ' in
    if ltb (length full) 64 then ok full else panic fault

abbrev pub rev_onto : List ℕ → List ℕ → List ℕ
rev_onto [] out = out
rev_onto (x ∷ xs) out = rev_onto xs (x ∷ out)

-- `reverse`: the lower characters are left out where `dst` is too small.
unfoldable pub reverse : (n : ℕ) (buf : List ℕ) → List ℕ
reverse n buf = rev_onto (drop (length buf + 1 - n) buf) []

abbrev pub digit : ℕ → ℕ
digit d = get_or (codes "0123456789abcdef") d 0

-- The loop that divides by the base until nothing is left. A number of 32 bits has at most 32 digits.
unfoldable pub digit_loop : (fuel base u : ℕ) → Result (List ℕ)
digit_loop zero base u = panic out_of_fuel
digit_loop (suc fuel) base u =
    if u / base == 0
    then ok (digit (u % base) ∷ [])
    else (digit_loop fuel base (u / base) >>= λ rest. ok (digit (u % base) ∷ rest))

abbrev pub is_negative : ℕ → Bool
is_negative val = leb (2 ^ 31) val

-- The characters of a number, the last one first.
unfoldable pub reversed_digits : (base val : ℕ) → (signed_p : Bool) → Result (List ℕ)
reversed_digits base val signed_p =
    if base == 10
    then if is_negative val && signed_p
      then (digit_loop 32 10 (u32 (2 ^ 32 - val)) >>= λ ds. ok (ds ++ (b'-' ∷ [])))
      else digit_loop 32 10 val
    else if base == 16
    then digit_loop 32 16 val
    else if base == 8
    then ok (u8 val ∷ [])
    else if base == 2
    then digit_loop 32 2 val
    else panic asserted

unfoldable pub emit : (base n val width : ℕ) → (signed_p : Bool) → Result (List ℕ)
emit base n val width signed_p = do
  buf ← reversed_digits base val signed_p
  full ← pad buf (if ltb n width then n - 1 else width)
  ok (reverse n full)

-- `va_arg` of a type that the argument does not have is an error of the caller.
abbrev pub va_number : List Arg → Result (ℕ × List Arg)
va_number [] = panic fault
va_number (number v ∷ args) = ok (v, args)
va_number (string s ∷ args) = panic fault

abbrev pub va_string : List Arg → Result (List ℕ × List Arg)
va_string [] = panic fault
va_string (number v ∷ args) = panic fault
va_string (string s ∷ args) = ok (s, args)

abbrev pub emit_arg : (base width : ℕ) → Bool → List Arg → Result (List ℕ × List Arg)
emit_arg base width signed_p args = do
  a ← va_number args
  s ← emit base 128 a.0 width signed_p
  ok (s ++ (0 ∷ []), a.1)

-- The `switch` on the specifier: the string to copy, and the arguments that are left.
unfoldable pub specifier : (c width : ℕ) → List Arg → Result (List ℕ × List Arg)
specifier c width args =
    if c == b'd' || c == b'i'
    then emit_arg 10 width true args
    else if c == b'u'
    then emit_arg 10 width false args
    else if c == b'p' || c == b'x'
    then emit_arg 16 width false args
    else if c == b'b'
    then emit_arg 2 width false args
    else if c == b's'
    then va_string args
    else if c == b'c'
    then emit_arg 8 width false args
    else panic panicked

-- The safe copy: up to a zero, and up to the end of the buffer.
unfoldable pub safe_copy : (left : ℕ) → List ℕ → Result (List ℕ)
safe_copy zero s = ok []
safe_copy (suc left) [] = panic fault
safe_copy (suc left) (c ∷ s) =
    if c == 0 then ok [] else (safe_copy left s >>= λ rest. ok (c ∷ rest))

-- Where the loop stands: in the text, behind a `%`, or behind the digits of a width.
pub data Mode : Type 0 where
  text percent : Mode
  in_width : ℕ → Mode

-- `left` is the number of characters up to the last byte of the buffer; the result is what is put there.
unfoldable pub print_from : List ℕ → Mode → List Arg → (left : ℕ) → Result (List ℕ)
print_from [] text args left = ok []
print_from [] percent args left = panic panicked
print_from [] (in_width width) args left = assert (ltb width 32) >> panic panicked
print_from (c ∷ fmt) text args zero = ok []
print_from (c ∷ fmt) text args (suc left) =
    if c == b'%'
    then print_from fmt percent args (suc left)
    else (print_from fmt text args left >>= λ out. ok (c ∷ out))
print_from (c ∷ fmt) percent args left =
    if c == b'%'
    then (print_from fmt text args (left - 1) >>= λ out. ok (c ∷ out))
    else if isdigit c
    then print_from fmt (in_width (c - b'0')) args left
    else (specifier c 0 args >>= λ s. safe_copy left s.0 >>= λ copied.
        print_from fmt text s.1 (left - length copied) >>= λ out. ok (copied ++ out))
print_from (c ∷ fmt) (in_width width) args left =
    if isdigit c
    then print_from fmt (in_width (u32 (width * 10 + c - b'0'))) args left
    else (assert (ltb width 32)
        >> (specifier c width args >>= λ s. safe_copy left s.0 >>= λ copied.
            print_from fmt text s.1 (left - length copied) >>= λ out. ok (copied ++ out)))

-- The bytes written from the start of the buffer on; their number is what is returned.
unfoldable pub va_printk : (n : ℕ) (fmt : List ℕ) → List Arg → Result (List ℕ)
va_printk zero fmt args = panic fault
va_printk (suc n) fmt args = print_from fmt text args n >>= λ out. ok (out ++ (0 ∷ []))

unfoldable pub snprintk : (n : ℕ) (fmt : List ℕ) → List Arg → Result (List ℕ × ℕ)
snprintk n fmt args = va_printk n fmt args >>= λ out. ok (out, length out)

-- What is sent, and what is returned
unfoldable pub printk : (fmt : List ℕ) → List Arg → Result (List ℕ × ℕ)
printk fmt args = do buf ← va_printk 1024 fmt args; sent ← safe_copy 1024 buf; ok (sent, length buf)

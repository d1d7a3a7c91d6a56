-- ===== src/Printf/Numbers.antt =====
-- The digits of a number, read back.
use mathlib.Core.List.{append-nil}
use simple_pi_os.Prelude.{
  &&-true, ==→eq, ==→ne, All, Bool, Bool-cases, List, [], all_below, all_below-at, ap, append_assoc,
  arith, false, if◌then◌else◌, inl, inr, leb, leb→le, length, length-append, length-replicate,
  le→leb, le→ltb, lt→ltb, ok, refl, replicate, suc, sym, true, u32, zero, ℕ, ◌%◌, ◌&&◌, ◌*◌, ◌++◌,
  ◌+◌, ◌-◌, ◌/◌, ◌<◌, ◌==◌, ◌>>=◌, ◌^◌, ◌||◌, ◌∙◌, ◌∷◌, ◌≡◌, ◌≤◌,
}
use simple_pi_os.Printf.{
  pad, rev_onto, reverse, digit, digit_loop, reversed_digits, is_negative, emit,
}

-- The value of one digit
abbrev pub digit_value : ℕ → ℕ
digit_value c = if leb c b'9' then c - b'0' else c - b'a' + 10

digit-values : all_below (λ d. digit_value (digit d) == d) 16 ≡ true
digit-values = refl

digit_value-digit : (d : ℕ) → d < 16 → digit_value (digit d) ≡ d
digit_value-digit d h =
    ==→eq (digit_value (digit d)) d
      (all_below-at (λ d. digit_value (digit d) == d) 16 d digit-values h)

-- The number that a text spells behind `acc`, with no bound
abbrev pub read : (base : ℕ) → List ℕ → (acc : ℕ) → ℕ
read base [] acc = acc
read base (c ∷ s) acc = read base s (acc * base + digit_value c)

-- The same with the last digit first
abbrev value : (base : ℕ) → List ℕ → ℕ
value base [] = 0
value base (c ∷ s) = value base s * base + digit_value c

read-rev_onto :
    (base : ℕ) (ds out : List ℕ) → read base (rev_onto ds out) 0 ≡ read base out (value base ds)
read-rev_onto base [] out = refl
read-rev_onto base (d ∷ ds) out = read-rev_onto base ds (d ∷ out)

rev_onto-append : (xs ys out : List ℕ) → rev_onto (xs ++ ys) out ≡ rev_onto ys (rev_onto xs out)
rev_onto-append [] ys out = refl
rev_onto-append (x ∷ xs) ys out = rev_onto-append xs ys (x ∷ out)

rev_onto-replicate : (k c : ℕ) (out : List ℕ) → rev_onto (replicate k c) out ≡ replicate k c ++ out
rev_onto-replicate zero c out = refl
rev_onto-replicate (suc k) c out = rev_onto-replicate k c (c ∷ out) ∙ slide k c out
  where
    slide : (k c : ℕ) (out : List ℕ) → replicate k c ++ (c ∷ out) ≡ c ∷ (replicate k c ++ out)
    slide zero c out = refl
    slide (suc k) c out = ap (λ l. c ∷ l) (slide k c out)

rev_onto-length : (xs out : List ℕ) → length (rev_onto xs out) ≡ length xs + length out
rev_onto-length [] out = omega arith
rev_onto-length (x ∷ xs) out = omega (arith, rev_onto-length xs (x ∷ out))

-- A character is a decimal digit or a letter up to `f`.
abbrev pub is_digit : ℕ → Bool
is_digit c = leb b'0' c && leb c b'9' || leb b'a' c && leb c b'f'

-- A character is a digit of the base.
abbrev pub IsDigit : (base c : ℕ) → Type 0
IsDigit base c = (is_digit c ≡ true) × (digit_value c < base)

digits-plain : all_below (λ d. is_digit (digit d)) 16 ≡ true
digits-plain = refl

digit-IsDigit : (base d : ℕ) → d < 16 → d < base → IsDigit base (digit d)
digit-IsDigit base d h below = (
  all_below-at (λ d. is_digit (digit d)) 16 d digits-plain h,
  omega (arith, digit_value-digit d h, below),
)

rev_onto-All :
    (base : ℕ) (ds out : List ℕ)
    → All (IsDigit base) ds
    → All (IsDigit base) out
    → All (IsDigit base) (rev_onto ds out)
rev_onto-All base [] out p q = q
rev_onto-All base (d ∷ ds) out p q = rev_onto-All base ds (d ∷ out) p.1 (p.0, q)

-- One digit at least, at most one for each unit of the fuel, and the value of the number
pub record IsDigits (fuel base u : ℕ) (ds : List ℕ) : Type 0 where
  pub some_digit : 1 ≤ length ds
  pub bounded : length ds ≤ fuel
  pub spells : value base ds ≡ u
  pub plain : All (IsDigit base) ds

-- A base that halves what is left, and has a digit for each remainder
pub record IsBase (base : ℕ) : Type 0 where
  pub halves : (u : ℕ) → u / base ≤ u / 2
  pub parts : (u : ℕ) → u / base * base + u % base ≡ u
  pub below : (u : ℕ) → u % base < 16
  pub rest_below : (u : ℕ) → u % base < base

two-IsBase : IsBase 2
two-IsBase = record {
  halves = λ u. omega arith;
  parts = λ u. omega arith;
  below = λ u. omega arith;
  rest_below = λ u. omega arith;
}

ten-IsBase : IsBase 10
ten-IsBase = record {
  halves = λ u. omega arith;
  parts = λ u. omega arith;
  below = λ u. omega arith;
  rest_below = λ u. omega arith;
}

sixteen-IsBase : IsBase 16
sixteen-IsBase = record {
  halves = λ u. omega arith;
  parts = λ u. omega arith;
  below = λ u. omega arith;
  rest_below = λ u. omega arith;
}

half_below : (k u : ℕ) → u < 2 ^ suc k → u / 2 < 2 ^ k
half_below k u h = omega arith

more_fuel : (fuel q : ℕ) → q < 2 ^ fuel → (q == 0) ≡ false → 1 ≤ fuel
more_fuel zero q h ne = absurd (==→ne q 0 ne (omega arith))
more_fuel (suc fuel) q h ne = omega arith

-- The loop ends within as many rounds as the number has bits, with the digits of the number.
pub digit_loop-IsDigits :
    (fuel base u : ℕ)
    → IsBase base
    → 1 ≤ fuel
    → u < 2 ^ fuel
    → (ds : List ℕ) × (digit_loop fuel base u ≡ ok ds) × IsDigits fuel base u ds
unfolding digit_loop
digit_loop-IsDigits zero base u b h less = absurd (omega arith)
digit_loop-IsDigits (suc fuel) base u b h less =
    let last = digit_value-digit (u % base) (b.below u) in
    elim (Bool-cases (u / base == 0)) [
      | inl e ↦
          let none_left = ap (λ q. q * base) (==→eq (u / base) 0 e) in
          (
            digit (u % base) ∷ [],
            rw (digit_loop, e) refl,
            record {
              some_digit = omega arith;
              bounded = omega arith;
              spells = omega (arith, last, none_left, b.parts u);
              plain = (digit-IsDigit base (u % base) (b.below u) (b.rest_below u), tt);
            },
          )
      | inr e ↦
          let small : u / base < 2 ^ fuel = omega (arith, b.halves u, half_below fuel u less) in
          let rest =
            digit_loop-IsDigits fuel base (u / base) b (more_fuel fuel (u / base) small e) small in
          (
            digit (u % base) ∷ rest.0,
            rw (digit_loop, e, rest.1) refl,
            record {
              some_digit = omega arith;
              bounded = omega (arith, rest.2.bounded);
              spells = omega (arith, last, ap (λ q. q * base) rest.2.spells, b.parts u);
              plain = (digit-IsDigit base (u % base) (b.below u) (b.rest_below u), rest.2.plain);
            },
          )
    ]

-- A text is a number padded with spaces to a width, with a sign or none; its digits are digits of the base.
pub record IsNumber (base val width : ℕ) (sign : List ℕ) (s : List ℕ) : Type 0 where
  pub digits : List ℕ
  pub some_digit : 1 ≤ length digits
  pub spells : read base digits 0 ≡ val
  pub plain : All (IsDigit base) digits
  pub shape : s ≡ replicate (width - length (sign ++ digits)) b' ' ++ (sign ++ digits)

rev_onto-out : (xs out : List ℕ) → rev_onto xs out ≡ rev_onto xs [] ++ out
rev_onto-out [] out = refl
rev_onto-out (x ∷ xs) out =
    rev_onto-out xs (x ∷ out)
    ∙ sym (append_assoc (rev_onto xs []) (x ∷ []) out)
    ∙ ap (λ l. l ++ out) (sym (rev_onto-out xs (x ∷ [])))

reverse-short : (full : List ℕ) → length full < 64 → reverse 128 full ≡ rev_onto full []
unfolding reverse
reverse-short full h = let none : length full + 1 - 128 ≡ 0 = omega arith in rw none refl

padded-reversed :
    (k : ℕ) (sign ds : List ℕ)
    → rev_onto ((ds ++ sign) ++ replicate k b' ') []
      ≡ replicate k b' ' ++ (rev_onto sign [] ++ rev_onto ds [])
padded-reversed k sign ds =
    rev_onto-append (ds ++ sign) (replicate k b' ') []
    ∙ rev_onto-replicate k b' ' (rev_onto (ds ++ sign) [])
    ∙ ap (λ l. replicate k b' ' ++ l)
        (rev_onto-append ds sign [] ∙ rev_onto-out sign (rev_onto ds []))

-- What `pad` and `reverse` make of the characters, with the sign as the last of them
padded-IsNumber :
    (base val width : ℕ) (sign ds : List ℕ)
    → IsDigits 32 base val ds
    → length sign ≤ 1
    → width < 32
    → (s : List ℕ) × ((pad (ds ++ sign) width >>= λ full. ok (reverse 128 full)) ≡ ok s)
      × IsNumber base val width (rev_onto sign []) s
unfolding pad
padded-IsNumber base val width sign ds good one small =
    let k = width - length (ds ++ sign) in
    let full = (ds ++ sign) ++ replicate k b' ' in
    let long = length-append ds sign in
    let all : length full ≡ length (ds ++ sign) + k =
      length-append (ds ++ sign) (replicate k b' ')
      ∙ ap (λ n. length (ds ++ sign) + n) (length-replicate k b' ') in
    let fits : length full < 64 = omega (arith, long, all, good.bounded) in
    let turned = length-append (rev_onto sign []) (rev_onto ds []) in
    let same : length (rev_onto sign [] ++ rev_onto ds []) ≡ length (ds ++ sign) =
      omega (arith, long, turned, rev_onto-length ds [], rev_onto-length sign []) in
    (
      reverse 128 full,
      rw (pad, lt→ltb (length full) 64 fits) refl,
      record {
        digits = rev_onto ds [];
        some_digit = omega (arith, good.some_digit, rev_onto-length ds []);
        spells = read-rev_onto base ds [] ∙ good.spells;
        plain = rev_onto-All base ds [] good.plain tt;
        shape = rw same (reverse-short full fits ∙ padded-reversed k sign ds);
      },
    )

-- The bases of the specifiers that print numbers
pub data Base : ℕ → Type 0 where
  two : Base 2
  ten : Base 10
  sixteen : Base 16

emit_run :
    (base val width : ℕ) (signed_p : Bool) (ds sign s : List ℕ)
    → reversed_digits base val signed_p ≡ ok (ds ++ sign)
    → width < 32
    → (pad (ds ++ sign) width >>= λ full. ok (reverse 128 full)) ≡ ok s
    → emit base 128 val width signed_p ≡ ok s
unfolding emit
emit_run base val width signed_p ds sign s got small done =
    rw (emit, got, le→ltb 128 width (omega arith)) done

reversed_digits-IsDigits :
    (base val : ℕ) (signed_p : Bool)
    → Base base
    → (is_negative val && signed_p) ≡ false
    → val < 2 ^ 32
    → (ds : List ℕ) × (reversed_digits base val signed_p ≡ ok (ds ++ [])) × IsDigits 32 base val ds
unfolding reversed_digits
reversed_digits-IsDigits _ val signed_p two plain small =
    let got = digit_loop-IsDigits 32 2 val two-IsBase (omega arith) small in
    (got.0, got.1 ∙ ap ok (sym (append-nil got.0)), got.2)
reversed_digits-IsDigits _ val signed_p ten plain small =
    let got = digit_loop-IsDigits 32 10 val ten-IsBase (omega arith) small in
    (got.0, rw plain (got.1 ∙ ap ok (sym (append-nil got.0))), got.2)
reversed_digits-IsDigits _ val signed_p sixteen plain small =
    let got = digit_loop-IsDigits 32 16 val sixteen-IsBase (omega arith) small in
    (got.0, got.1 ∙ ap ok (sym (append-nil got.0)), got.2)

-- A number of 32 bits is printed in base 2, 10 or 16, with no sign, as a text that spells it, behind the
-- spaces that the width wants; a signed conversion does so for a number that is not negative.
emit-plain :
    (base val width : ℕ) (signed_p : Bool)
    → Base base
    → (is_negative val && signed_p) ≡ false
    → val < 2 ^ 32
    → width < 32
    → (s : List ℕ) × (emit base 128 val width signed_p ≡ ok s) × IsNumber base val width [] s
emit-plain base val width signed_p b plain small narrow =
    let got = reversed_digits-IsDigits base val signed_p b plain small in
    let done = padded-IsNumber base val width [] got.0 got.2 (omega arith) narrow in
    (done.0, emit_run base val width signed_p got.0 [] done.0 got.1 narrow done.1, done.2)

negative_digits :
    (val v : ℕ) (ds : List ℕ)
    → is_negative val ≡ true
    → u32 (2 ^ 32 - val) ≡ v
    → digit_loop 32 10 v ≡ ok ds
    → reversed_digits 10 val true ≡ ok (ds ++ (b'-' ∷ []))
unfolding reversed_digits
negative_digits val v ds neg sum got = rw neg (rw sum (rw got refl))

-- A negative number is printed by a signed conversion as a minus sign and the digits of its absolute value.
emit-negative :
    (val width : ℕ)
    → 2 ^ 31 ≤ val
    → val < 2 ^ 32
    → width < 32
    → (s : List ℕ) × (emit 10 128 val width true ≡ ok s)
      × IsNumber 10 (2 ^ 32 - val) width (b'-' ∷ []) s
unfolding reversed_digits
emit-negative val width low small narrow =
    let sum : u32 (2 ^ 32 - val) ≡ 2 ^ 32 - val = omega arith in
    let got = digit_loop-IsDigits 32 10 (2 ^ 32 - val) ten-IsBase (omega arith) (omega arith) in
    let negative = negative_digits val (2 ^ 32 - val) got.0 (le→leb (2 ^ 31) val low) sum got.1 in
    let done =
      padded-IsNumber 10 (2 ^ 32 - val) width (b'-' ∷ []) got.0 got.2 (omega arith) narrow in
    (done.0, emit_run 10 val width true got.0 (b'-' ∷ []) done.0 negative narrow done.1, done.2)

-- What is printed of a word of 32 bits: its value, or the absolute value behind a minus sign.
abbrev pub printed : (val : ℕ) → (minus : Bool) → ℕ
printed val minus = if minus then 2 ^ 32 - val else val

abbrev pub sign_of : Bool → List ℕ
sign_of minus = if minus then b'-' ∷ [] else []

-- A number of 32 bits is printed in base 2, 10 or 16, to a width below 32, as a text of digits of that
-- base which, read in it, are the number, behind the spaces that the width wants. A signed conversion, which is in base 10, prints a
-- negative number as a minus sign and its absolute value. The call always returns.
pub emit-IsNumber :
    (base val width : ℕ) (signed_p : Bool)
    → Base base
    → (signed_p ≡ true → base ≡ 10)
    → val < 2 ^ 32
    → width < 32
    → (s : List ℕ) × (emit base 128 val width signed_p ≡ ok s)
      × IsNumber base
          (printed val (is_negative val && signed_p))
          width
          (sign_of (is_negative val && signed_p))
          s
emit-IsNumber base val width signed_p b tens small narrow =
    elim (Bool-cases (is_negative val && signed_p)) [
      | inr e ↦ rw e (emit-plain base val width signed_p b e small narrow)
      | inl e ↦
          let both = &&-true (is_negative val) signed_p e in
          rw (e, tens both.1, both.1)
            (emit-negative val width (leb→le (2 ^ 31) val both.0) small narrow)
    ]

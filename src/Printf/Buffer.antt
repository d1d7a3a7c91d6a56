-- ===== src/Printf/Buffer.antt =====
-- What is written into the buffer.
use simple_pi_os.Prelude.{
  All, Bool-cases, List, Result, [], and_then, and_then-ok, ap, arith, assert-ok, inl, inr, length,
  length-append, ltb, ne→==, ok, ok-injective, ok≢panic, panic, panicked, refl, suc, sym, take, u32,
  zero, ℕ, ◌*◌, ◌++◌, ◌+◌, ◌-◌, ◌==◌, ◌>>=◌, ◌∙◌, ◌∷◌, ◌≡◌, ◌≢◌, ◌≤◌,
}
use simple_pi_os.Printf.{
  Arg, Mode, text, percent, in_width, isdigit, specifier, safe_copy, print_from, va_printk,
}

safe_copy-length : (left : ℕ) (s out : List ℕ) → safe_copy left s ≡ ok out → length out ≤ left
unfolding safe_copy
safe_copy-length zero s out h = omega (arith, ap length (sym (ok-injective h)))
safe_copy-length (suc left) [] out h = absurd (ok≢panic (sym h))
safe_copy-length (suc left) (c ∷ s) out h = elim (Bool-cases (c == 0)) [
  | inl e ↦
      let size : length out ≡ 0 = ap length (sym (ok-injective (rw e at h))) in omega (arith, size)
  | inr e ↦
      let rest = and_then-ok (safe_copy left s) (λ rest. ok (c ∷ rest)) out (rw e at h) in
      let size : length out ≡ suc (length rest.0) = ap length (sym (ok-injective rest.2)) in
      omega (arith, size, safe_copy-length left s rest.0 rest.1)
]

put_char-length :
    (c left : ℕ) (r : Result (List ℕ)) (out : List ℕ)
    → ((rest : List ℕ) → r ≡ ok rest → length rest ≤ left)
    → and_then r (λ out. ok (c ∷ out)) ≡ ok out
    → length out ≤ 1 + left
put_char-length c left r out fits h =
    let rest = and_then-ok r (λ out. ok (c ∷ out)) out h in
    let size : length out ≡ suc (length rest.0) = ap length (sym (ok-injective rest.2)) in
    omega (arith, size, fits rest.0 rest.1)

-- A converted argument, and what comes behind it
put_arg-length :
    (left : ℕ) (r : Result (List ℕ × List Arg)) (more : List Arg → ℕ → Result (List ℕ))
    (out : List ℕ)
    → ((args : List Arg) (left : ℕ) (rest : List ℕ) → more args left ≡ ok rest → length rest ≤ left)
    → (r >>= λ s. safe_copy left s.0 >>= λ copied.
        more s.1 (left - length copied) >>= λ out. ok (copied ++ out))
      ≡ ok out
    → length out ≤ left
put_arg-length left r more out fits h =
    let s =
      and_then-ok r
        (λ s. safe_copy left s.0 >>= λ copied.
          more s.1 (left - length copied) >>= λ out. ok (copied ++ out))
        out h in
    let copied =
      and_then-ok (safe_copy left s.0.0)
        (λ copied. more s.0.1 (left - length copied) >>= λ out. ok (copied ++ out)) out s.2 in
    let rest =
      and_then-ok (more s.0.1 (left - length copied.0)) (λ out. ok (copied.0 ++ out)) out
        copied.2 in
    let size : length out ≡ length copied.0 + length rest.0 =
      ap length (sym (ok-injective rest.2)) ∙ length-append copied.0 rest.0 in
    omega (
      arith,
      size,
      safe_copy-length left s.0.0 copied.0 copied.1,
      fits s.0.1 (left - length copied.0) rest.0 rest.1,
    )

-- Behind a `%` there is room for one character at least.
HasRoom : Mode → ℕ → Type 0
HasRoom text left = Unit
HasRoom percent left = 1 ≤ left
HasRoom (in_width width) left = Unit

print_from-length :
    (fmt : List ℕ) (mode : Mode) (args : List Arg) (left : ℕ) (out : List ℕ)
    → HasRoom mode left
    → print_from fmt mode args left ≡ ok out
    → length out ≤ left
unfolding print_from HasRoom
print_from-length [] text args left out room h = omega (arith, ap length (sym (ok-injective h)))
print_from-length [] percent args left out room h = absurd (ok≢panic (sym h))
print_from-length [] (in_width width) args left out room h =
    absurd (ok≢panic (sym (assert-ok (ltb width 32) (panic panicked) out h).1))
print_from-length (c ∷ fmt) text args zero out room h =
    omega (arith, ap length (sym (ok-injective h)))
print_from-length (c ∷ fmt) text args (suc left) out room h = elim (Bool-cases (c == b'%')) [
  | inl e ↦ print_from-length fmt percent args (suc left) out (omega arith) (rw e at h)
  | inr e ↦
      let fits =
        put_char-length c left (print_from fmt text args left) out
          (λ rest. print_from-length fmt text args left rest tt) (rw e at h) in
      omega (arith, fits)
]
print_from-length (c ∷ fmt) percent args left out room h = elim (Bool-cases (c == b'%')) [
  | inl e ↦
      let fits =
        put_char-length c (left - 1) (print_from fmt text args (left - 1)) out
          (λ rest. print_from-length fmt text args (left - 1) rest tt) (rw e at h) in
      omega (arith, fits)
  | inr e ↦ elim (Bool-cases (isdigit c)) [
    | inl d ↦ print_from-length fmt (in_width (c - b'0')) args left out tt (rw d at (rw e at h))
    | inr d ↦
        put_arg-length left (specifier c 0 args) (print_from fmt text) out
          (λ args left rest. print_from-length fmt text args left rest tt) (rw d at (rw e at h))
  ]
]
print_from-length (c ∷ fmt) (in_width width) args left out room h = elim (Bool-cases (isdigit c)) [
  | inl d ↦
      print_from-length fmt (in_width (u32 (width * 10 + c - b'0'))) args left out tt (rw d at h)
  | inr d ↦
      put_arg-length left (specifier c width args) (print_from fmt text) out
        (λ args left rest. print_from-length fmt text args left rest tt)
        (assert-ok (ltb width 32)
          (specifier c width args >>= λ s. safe_copy left s.0 >>= λ copied.
            print_from fmt text s.1 (left - length copied) >>= λ out. ok (copied ++ out))
          out (rw d at h)).1
]

-- Whatever the format and its arguments are, a call that returns has written no more than the `n` bytes
-- of the buffer, and the last byte that it has written is zero.
pub va_printk-length :
    (n : ℕ) (fmt : List ℕ) (args : List Arg) (out : List ℕ)
    → va_printk n fmt args ≡ ok out
    → (length out ≤ n) × (front : List ℕ) × (out ≡ front ++ (0 ∷ []))
unfolding va_printk HasRoom
va_printk-length zero fmt args out h = absurd (ok≢panic (sym h))
va_printk-length (suc n) fmt args out h =
    let front = and_then-ok (print_from fmt text args n) (λ out. ok (out ++ (0 ∷ []))) out h in
    let same : out ≡ front.0 ++ (0 ∷ []) = sym (ok-injective front.2) in
    let size : length out ≡ length front.0 + 1 = ap length same ∙ length-append front.0 (0 ∷ []) in
    (omega (arith, size, print_from-length fmt text args n front.0 tt front.1), front.0, same)

print_from-plain :
    (left : ℕ) (fmt : List ℕ) (args : List Arg)
    → All (λ c. c ≢ b'%') fmt
    → print_from fmt text args left ≡ ok (take left fmt)
unfolding print_from
print_from-plain zero [] args plain = refl
print_from-plain (suc left) [] args plain = refl
print_from-plain zero (c ∷ fmt) args plain = refl
print_from-plain (suc left) (c ∷ fmt) args plain =
    let rest = print_from-plain left fmt args plain.1 in rw (ne→== c b'%' plain.0, rest) refl

-- A format without `%` is copied as it is, as far as there is room, with a zero behind it.
pub va_printk-plain :
    (n : ℕ) (fmt : List ℕ) (args : List Arg)
    → All (λ c. c ≢ b'%') fmt
    → va_printk (suc n) fmt args ≡ ok (take n fmt ++ (0 ∷ []))
unfolding va_printk
va_printk-plain n fmt args plain = rw (va_printk, print_from-plain n fmt args plain) refl

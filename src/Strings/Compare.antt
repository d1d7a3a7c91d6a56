-- ===== src/Strings/Compare.antt =====
-- What the functions on strings compute.
use simple_pi_os.Prelude.{
  ==_refl, ==→eq, ==→ne, Bool, Bool-cases, List, [], ap, ap₂, arith, false, inl, inr, length, ne→!=,
  ne→==, ok, refl, suc, sym, true, zero, ℕ, ◌!=◌, ◌&&◌, ◌+◌, ◌<◌, ◌==◌, ◌↔◌, ◌∙◌, ◌∷◌, ◌≡◌, ◌≢◌,
}
use simple_pi_os.Ram.{Ram}
use simple_pi_os.Strings.{difference, strcmp, strlen, strlen_from}
use simple_pi_os.Strings.Copy.{IsBytes}

-- At `p` stands a string: its characters, and a zero behind them.
abbrev pub IsString : Ram → ℕ → List ℕ → Type 0
IsString ram p [] = ram p ≡ 0
IsString ram p (c ∷ s) = (ram p ≡ c) × (c ≢ 0) × IsString ram (p + 1) s

strlen_from-IsString :
    (fuel p ret : ℕ) (s : List ℕ) (ram : Ram)
    → IsString ram (p + ret) s
    → length s < fuel
    → strlen_from fuel p ret ram ≡ ok (ret + length s)
unfolding strlen_from
strlen_from-IsString zero p ret s ram is less = absurd (omega arith)
strlen_from-IsString (suc fuel) p ret [] ram is less = rw (strlen_from, is) (ap ok (omega arith))
strlen_from-IsString (suc fuel) p ret (c ∷ s) ram is less =
    let more : (ram (p + ret) == 0) ≡ false = ne→== (ram (p + ret)) 0 (λ h. is.1 (sym is.0 ∙ h)) in
    let there : p + ret + 1 ≡ p + (ret + 1) = omega arith in
    let rest = strlen_from-IsString fuel p (ret + 1) s ram (rw there at is.2) (omega arith) in
    rw (strlen_from, more) (rest ∙ ap ok (omega arith))

-- The loop of `strlen` ends at the zero, and the result is the number of characters before it.
pub strlen-IsString :
    (fuel p : ℕ) (s : List ℕ) (ram : Ram)
    → IsString ram p s
    → length s < fuel
    → strlen fuel p ram ≡ ok (length s)
unfolding strlen
strlen-IsString fuel p s ram is less =
    let here : p ≡ p + 0 = omega arith in
    let got = strlen_from-IsString fuel p 0 s ram (rw here at is) less in got ∙ ap ok (omega arith)

-- A difference of two bytes is zero if and only if they are equal.
difference-zero : (x y : ℕ) → x < 256 → y < 256 → difference x y ≡ 0 → x ≡ y
difference-zero x y a b h = omega arith

strcmp-stops :
    (fuel a b : ℕ) (ram : Ram)
    → IsBytes ram
    → (ram a != 0 && ram a == ram b) ≡ false
    → (v : ℕ) × (strcmp (suc fuel) a b ram ≡ ok v) × (v ≡ 0 → ram a ≡ ram b)
unfolding strcmp
strcmp-stops fuel a b ram small e = (
  difference (ram a) (ram b),
  rw (strcmp, e) refl,
  difference-zero (ram a) (ram b) (small a) (small b),
)

strcmp-differ :
    (fuel a b : ℕ) (s t : List ℕ) (ram : Ram)
    → IsBytes ram
    → ram a ≢ ram b
    → s ≢ t
    → (v : ℕ) × (strcmp (suc fuel) a b ram ≡ ok v) × (v ≡ 0 ↔ s ≡ t)
strcmp-differ fuel a b s t ram small ne other =
    let got = strcmp-stops fuel a b ram small (unequal (ram a != 0) (ram a) (ram b) ne) in
    (got.0, got.1, ((λ h. absurd (ne (got.2 h))), (λ e. absurd (other e))))
  where
    unequal : (f : Bool) (x y : ℕ) → x ≢ y → (f && x == y) ≡ false
    unequal true x y h = ne→== x y h
    unequal false x y h = refl

strcmp-same :
    (fuel a b : ℕ) (ram : Ram)
    → ram a ≢ 0
    → ram a ≡ ram b
    → strcmp (suc fuel) a b ram ≡ strcmp fuel (a + 1) (b + 1) ram
unfolding strcmp
strcmp-same fuel a b ram ne e =
    let both : (ram a != 0 && ram a == ram b) ≡ true =
      rw (ne→!= (ram a) 0 ne, sym e) (==_refl (ram a)) in
    rw (strcmp, both) refl

strcmp-ends : (fuel a b : ℕ) (ram : Ram) → ram a ≡ 0 → ram b ≡ 0 → strcmp (suc fuel) a b ram ≡ ok 0
unfolding strcmp
strcmp-ends fuel a b ram e f = rw (strcmp, e, f) refl

cons-injective : (x y : ℕ) (xs ys : List ℕ) → (x ∷ xs) ≡ (y ∷ ys) → (x ≡ y) × (xs ≡ ys)
cons-injective x y xs ys h = (cc, cc)

-- The loop of `strcmp` ends within the first string, and the result is zero if and only if the two strings
-- are equal.
pub strcmp-IsString :
    (fuel a b : ℕ) (s t : List ℕ) (ram : Ram)
    → IsBytes ram
    → IsString ram a s
    → IsString ram b t
    → length s < fuel
    → (v : ℕ) × (strcmp fuel a b ram ≡ ok v) × (v ≡ 0 ↔ s ≡ t)
strcmp-IsString zero a b s t ram small is_s is_t less = absurd (omega arith)
strcmp-IsString (suc fuel) a b [] [] ram small is_s is_t less =
    (0, strcmp-ends fuel a b ram is_s is_t, ((λ h. refl), (λ h. refl)))
strcmp-IsString (suc fuel) a b [] (d ∷ t) ram small is_s is_t less =
    strcmp-differ fuel a b [] (d ∷ t) ram small (λ e. is_t.1 (sym is_t.0 ∙ sym e ∙ is_s))
      (λ e. absurd (cc))
strcmp-IsString (suc fuel) a b (c ∷ s) [] ram small is_s is_t less =
    strcmp-differ fuel a b (c ∷ s) [] ram small (λ e. is_s.1 (sym is_s.0 ∙ e ∙ is_t))
      (λ e. absurd (cc))
strcmp-IsString (suc fuel) a b (c ∷ s) (d ∷ t) ram small is_s is_t less =
    elim (Bool-cases (c == d)) [
      | inl e ↦
          let same = ==→eq c d e in
          let rest =
            strcmp-IsString fuel (a + 1) (b + 1) s t ram small is_s.2 is_t.2 (omega arith) in
          (
            rest.0,
            strcmp-same fuel a b ram (λ h. is_s.1 (sym is_s.0 ∙ h)) (is_s.0 ∙ same ∙ sym is_t.0)
                ∙ rest.1,
            (
              (λ h. ap₂ (λ x xs. x ∷ xs) same (rest.2.0 h)),
              (λ h. rest.2.1 (cons-injective c d s t h).1),
            ),
          )
      | inr ne ↦
          let other = ==→ne c d ne in
          strcmp-differ fuel a b (c ∷ s) (d ∷ t) ram small (λ e. other (sym is_s.0 ∙ e ∙ is_t.0))
            (λ e. other (cons-injective c d s t e).0)
    ]

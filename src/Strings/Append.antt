-- ===== src/Strings/Append.antt =====
-- What `strcpy` and `strcat` leave in memory.
use simple_pi_os.Prelude.{
  ==_refl, List, [], ap, arith, false, inl, inr, length, ne→==, ok, refl, suc, sym, update, zero, ℕ,
  ◌++◌, ◌+◌, ◌<◌, ◌==◌, ◌∙◌, ◌∷◌, ◌≡◌, ◌≤◌, ◌⊎◌,
}
use simple_pi_os.Ram.{Ram}
use simple_pi_os.Strings.{find_end, strcat, strcpy}
use simple_pi_os.Strings.Copy.{update-out}
use simple_pi_os.Strings.Compare.{IsString}

-- What a copy leaves as it was
Kept : (ram ram' : Ram) (d n : ℕ) → Type 0
Kept ram ram' d n = (i : ℕ) → (i < d) ⊎ (d + n < i) → ram' i ≡ ram i

IsString-kept :
    (ram ram' : Ram) (p : ℕ) (s : List ℕ)
    → ((i : ℕ) → p ≤ i → i ≤ p + length s → ram' i ≡ ram i)
    → IsString ram p s
    → IsString ram' p s
IsString-kept ram ram' p [] same is = same p (omega arith) (omega arith) ∙ is
IsString-kept ram ram' p (c ∷ s) same is = (
  same p (omega arith) (omega arith) ∙ is.0,
  is.1,
  IsString-kept ram ram' (p + 1) s (λ i low high. same i (omega arith) (omega arith)) is.2,
)

strcpy_run :
    (fuel d s : ℕ) (ram ram' : Ram)
    → (ram s == 0) ≡ false
    → strcpy fuel (d + 1) (s + 1) (update ram d (ram s)) ≡ ok ram'
    → strcpy (suc fuel) d s ram ≡ ok ram'
unfolding strcpy
strcpy_run fuel d s ram ram' more rest = rw (strcpy, more) rest

strcpy-IsString :
    (fuel d s : ℕ) (t : List ℕ) (ram : Ram)
    → IsString ram s t
    → length t < fuel
    → (s + length t < d) ⊎ (d + length t < s)
    → (ram' : Ram) × (strcpy fuel d s ram ≡ ok ram')
      × IsString ram' d t
      × Kept ram ram' d (length t)
unfolding strcpy Kept
strcpy-IsString zero d s t ram is less apart = absurd (omega arith)
strcpy-IsString (suc fuel) d s [] ram is less apart = (
  update ram d (ram s),
  rw (strcpy, is) refl,
  rw (==_refl d) is,
  (λ i out.
      update-out ram d (ram s) i (λ e. elim out [ inl h ↦ omega arith | inr h ↦ omega arith ])),
)
strcpy-IsString (suc fuel) d s (c ∷ t) ram is less apart =
    let ram1 = update ram d (ram s) in
    let more : (ram s == 0) ≡ false = ne→== (ram s) 0 (λ h. is.1 (sym is.0 ∙ h)) in
    let untouched : (i : ℕ) → s + 1 ≤ i → i ≤ s + 1 + length t → ram1 i ≡ ram i = λ i low high.
      update-out ram d (ram s) i (λ e. elim apart [ inl h ↦ omega arith | inr h ↦ omega arith ]) in
    let next : (s + 1 + length t < d + 1) ⊎ (d + 1 + length t < s + 1) = elim apart [
      | inl h ↦ inl (omega arith)
      | inr h ↦ inr (omega arith)
    ] in
    let rest =
      strcpy-IsString fuel (d + 1) (s + 1) t ram1 (IsString-kept ram ram1 (s + 1) t untouched is.2)
        (omega arith) next in
    let first : ram1 d ≡ c = rw (==_refl d) is.0 in
    (
      rest.0,
      strcpy_run fuel d s ram rest.0 more rest.1,
      (rest.3 d (inl (omega arith)) ∙ first, is.1, rest.2),
      λ i out.
          rest.3 i (elim out [ inl h ↦ inl (omega arith) | inr h ↦ inr (omega arith) ])
          ∙ update-out ram d (ram s) i
              (λ e. elim out [ inl h ↦ omega arith | inr h ↦ omega arith ]),
    )

find_end-IsString :
    (fuel p : ℕ) (s : List ℕ) (ram : Ram)
    → IsString ram p s
    → length s < fuel
    → find_end fuel p ram ≡ ok (p + length s)
unfolding find_end
find_end-IsString zero p s ram is less = absurd (omega arith)
find_end-IsString (suc fuel) p [] ram is less = rw (find_end, is) (ap ok (omega arith))
find_end-IsString (suc fuel) p (c ∷ s) ram is less =
    let more : (ram p == 0) ≡ false = ne→== (ram p) 0 (λ h. is.1 (sym is.0 ∙ h)) in
    rw (find_end, more)
      (find_end-IsString fuel (p + 1) s ram is.2 (omega arith) ∙ ap ok (omega arith))

IsString-append :
    (ram ram' : Ram) (p : ℕ) (s t : List ℕ)
    → IsString ram p s
    → ((i : ℕ) → i < p + length s → ram' i ≡ ram i)
    → IsString ram' (p + length s) t
    → IsString ram' p (s ++ t)
IsString-append ram ram' p [] t is same end = let here : p + 0 ≡ p = omega arith in (rw here at end)
IsString-append ram ram' p (c ∷ s) t is same end =
    let there : p + suc (length s) ≡ p + 1 + length s = omega arith in
    (
      same p (omega arith) ∙ is.0,
      is.1,
      IsString-append ram ram' (p + 1) s t is.2 (λ i low. same i (omega arith)) (rw there at end),
    )

-- If the second string does not overlap the place of the result, then `strcat` leaves at `dest` the two
-- strings, one behind the other with one zero at the end, and no byte outside them is written.
pub strcat-IsString :
    (fuel dest src : ℕ) (s t : List ℕ) (ram : Ram)
    → IsString ram dest s
    → IsString ram src t
    → length s < fuel
    → length t < fuel
    → (src + length t < dest) ⊎ (dest + length s + length t < src)
    → (ram' : Ram) × (strcat fuel dest src ram ≡ ok ram')
      × IsString ram' dest (s ++ t)
      × ((i : ℕ) → (i < dest) ⊎ (dest + length s + length t < i) → ram' i ≡ ram i)
unfolding strcat Kept
strcat-IsString fuel dest src s t ram is_s is_t less_s less_t apart =
    let end = dest + length s in
    let far : (src + length t < end) ⊎ (end + length t < src) = elim apart [
      | inl h ↦ inl (omega arith)
      | inr h ↦ inr (omega arith)
    ] in
    let put = strcpy-IsString fuel end src t ram is_t less_t far in
    (
      put.0,
      rw (strcat, find_end-IsString fuel dest s ram is_s less_s) put.1,
      IsString-append ram put.0 dest s t is_s (λ i low. put.3 i (inl low)) put.2,
      λ i out. put.3 i (elim out [ inl h ↦ inl (omega arith) | inr h ↦ inr (omega arith) ]),
    )

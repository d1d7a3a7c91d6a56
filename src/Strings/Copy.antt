-- ===== src/Strings/Copy.antt =====
-- What the copying functions write.
use simple_pi_os.Prelude.{
  &&-true, ==→eq, All, Bool-cases, List, [], ap, ap₂, arith, inl, inr, length, ne→==, refl, suc,
  sym, update, zero, ℕ, ◌%◌, ◌&&◌, ◌*◌, ◌++◌, ◌+◌, ◌/◌, ◌<◌, ◌==◌, ◌∙◌, ◌∷◌, ◌≡◌, ◌≢◌, ◌≤◌, ◌⊎◌,
}
use simple_pi_os.Ram.{
  Ram, put_bytes, put_bytes-append, put_bytes-below, put_bytes-above, put32, read_bytes,
}
use simple_pi_os.Wire.Word.{word_bytes-word_of}
use simple_pi_os.Strings.{copy_bytes, copy_words, get32, memcpy, aligned4}

-- Two ranges of this length share no address.
abbrev pub Disjoint : (d s n : ℕ) → Type 0
Disjoint d s n = (s + n ≤ d) ⊎ (d + n ≤ s)

abbrev pub IsBytes : Ram → Type 0
IsBytes ram = (p : ℕ) → ram p < 256

pub update-out : (ram : Ram) (a v p : ℕ) → p ≢ a → update ram a v p ≡ ram p
update-out ram a v p ne = rw (ne→== p a ne) refl

read_bytes-same :
    (p n : ℕ) (ram ram' : Ram)
    → ((i : ℕ) → p ≤ i → i < p + n → ram' i ≡ ram i)
    → read_bytes p n ram' ≡ read_bytes p n ram
unfolding read_bytes
read_bytes-same p zero ram ram' same = refl
read_bytes-same p (suc n) ram ram' same =
    ap₂ (λ x xs. x ∷ xs) (same p (omega arith) (omega arith))
      (read_bytes-same (p + 1) n ram ram' (λ i low high. same i (omega arith) (omega arith)))

copy_bytes-put_bytes :
    (n d s : ℕ) (ram : Ram)
    → Disjoint d s n
    → copy_bytes n d s ram ≡ put_bytes d (read_bytes s n ram) ram
unfolding copy_bytes put_bytes read_bytes
copy_bytes-put_bytes zero d s ram apart = refl
copy_bytes-put_bytes (suc n) d s ram apart =
    let ram' = update ram d (ram s) in
    let next : Disjoint (d + 1) (s + 1) n = elim apart [
      | inl h ↦ inl (omega arith)
      | inr h ↦ inr (omega arith)
    ] in
    let other : (i : ℕ) → s + 1 ≤ i → i < s + 1 + n → i ≢ d =
      λ i low high e. elim apart [ inl h ↦ omega arith | inr h ↦ omega arith ] in
    let kept =
      read_bytes-same (s + 1) n ram ram'
        (λ i low high. update-out ram d (ram s) i (other i low high)) in
    copy_bytes-put_bytes n (d + 1) (s + 1) ram' next ∙ ap (λ bs. put_bytes (d + 1) bs ram') kept

word_copied :
    (d s : ℕ) (ram : Ram)
    → IsBytes ram
    → put32 d (get32 s ram) ram ≡ put_bytes d (read_bytes s 4 ram) ram
unfolding put32 get32 read_bytes
word_copied d s ram b =
    let e2 : s + 1 + 1 ≡ s + 2 = omega arith in
    let e3 : s + 2 + 1 ≡ s + 3 = omega arith in
    rw (put32, get32, read_bytes, e2, e3)
      (ap (λ bs. put_bytes d bs ram)
        (word_bytes-word_of (ram s) (ram (s + 1)) (ram (s + 2)) (ram (s + 3)) (b s) (b (s + 1))
          (b (s + 2)) (b (s + 3))))

read_four :
    (s n : ℕ) (ram : Ram)
    → read_bytes s (4 + n) ram ≡ read_bytes s 4 ram ++ read_bytes (s + 4) n ram
unfolding read_bytes
read_four s n ram =
    let e : 4 + n ≡ suc (suc (suc (suc n))) = omega arith in
    let e4 : s + 1 + 1 + 1 + 1 ≡ s + 4 = omega arith in rw (e, read_bytes, e4) refl

length-read_bytes : (s n : ℕ) (ram : Ram) → length (read_bytes s n ram) ≡ n
unfolding read_bytes
length-read_bytes s zero ram = refl
length-read_bytes s (suc n) ram = ap suc (length-read_bytes (s + 1) n ram)

read_bytes-All : (s n : ℕ) (ram : Ram) → IsBytes ram → All (λ b. b < 256) (read_bytes s n ram)
unfolding read_bytes
read_bytes-All s zero ram b = tt
read_bytes-All s (suc n) ram b = (b s, read_bytes-All (s + 1) n ram b)

put_bytes-IsBytes :
    (d : ℕ) (bs : List ℕ) (ram : Ram)
    → All (λ b. b < 256) bs
    → IsBytes ram
    → IsBytes (put_bytes d bs ram)
unfolding put_bytes
put_bytes-IsBytes d [] ram small b = b
put_bytes-IsBytes d (x ∷ bs) ram small b =
    put_bytes-IsBytes (d + 1) bs (update ram d x) small.1
      (λ p. elim (Bool-cases (p == d)) [ inl e ↦ rw e small.0 | inr e ↦ rw e (b p) ])

copy_words_step :
    (k d s : ℕ) (ram : Ram)
    → suc k * 4 ≡ 4 + k * 4
    → put32 d (get32 s ram) ram ≡ put_bytes d (read_bytes s 4 ram) ram
    → copy_words k (d + 4) (s + 4) (put_bytes d (read_bytes s 4 ram) ram)
      ≡ put_bytes
          (d + 4)
          (read_bytes (s + 4) (k * 4) (put_bytes d (read_bytes s 4 ram) ram))
          (put_bytes d (read_bytes s 4 ram) ram)
    → read_bytes (s + 4) (k * 4) (put_bytes d (read_bytes s 4 ram) ram)
      ≡ read_bytes (s + 4) (k * 4) ram
    → copy_words k (d + 4) (s + 4) (put32 d (get32 s ram) ram)
      ≡ put_bytes d (read_bytes s (suc k * 4) ram) ram
copy_words_step k d s ram sum word rest same =
    ap (copy_words k (d + 4) (s + 4)) word
    ∙ rest
    ∙ ap (λ ys. put_bytes (d + 4) ys (put_bytes d (read_bytes s 4 ram) ram)) same
    ∙ ap
        (λ n.
          put_bytes (d + n) (read_bytes (s + 4) (k * 4) ram) (put_bytes d (read_bytes s 4 ram) ram))
        (sym (length-read_bytes s 4 ram))
    ∙ sym (put_bytes-append d (read_bytes s 4 ram) (read_bytes (s + 4) (k * 4) ram) ram)
    ∙ ap (λ bs. put_bytes d bs ram) (sym (read_four s (k * 4) ram))
    ∙ ap (λ n. put_bytes d (read_bytes s n ram) ram) (sym sum)

copy_words-put_bytes :
    (k d s : ℕ) (ram : Ram)
    → IsBytes ram
    → Disjoint d s (k * 4)
    → copy_words k d s ram ≡ put_bytes d (read_bytes s (k * 4) ram) ram
unfolding copy_words put_bytes read_bytes
copy_words-put_bytes zero d s ram b apart = refl
copy_words-put_bytes (suc k) d s ram b apart =
    let bs = read_bytes s 4 ram in
    let ram' = put_bytes d bs ram in
    let long : length bs ≡ 4 = length-read_bytes s 4 ram in
    let next : Disjoint (d + 4) (s + 4) (k * 4) = elim apart [
      | inl h ↦ inl (omega arith)
      | inr h ↦ inr (omega arith)
    ] in
    let same : (i : ℕ) → s + 4 ≤ i → i < s + 4 + k * 4 → ram' i ≡ ram i = λ i low high. elim apart [
      | inl h ↦ put_bytes-below d bs ram i (omega arith)
      | inr h ↦ put_bytes-above d bs ram i (omega (arith, long))
    ] in
    let sum : suc k * 4 ≡ 4 + k * 4 = omega arith in
    copy_words_step k d s ram sum (word_copied d s ram b)
      (copy_words-put_bytes k (d + 4) (s + 4) ram'
        (put_bytes-IsBytes d bs ram (read_bytes-All s 4 ram b) b) next)
      (read_bytes-same (s + 4) (k * 4) ram ram' same)

-- The copy by words does what the copy by bytes does: if the two ranges share no address, the bytes at the
-- source are put at the destination, whether the addresses and the length are aligned or not.
pub memcpy-put_bytes :
    (dst src n : ℕ) (ram : Ram)
    → IsBytes ram
    → Disjoint dst src n
    → memcpy dst src n ram ≡ put_bytes dst (read_bytes src n ram) ram
unfolding memcpy
memcpy-put_bytes dst src n ram b apart =
    elim (Bool-cases (aligned4 dst && (aligned4 src && aligned4 n))) [
      | inl e ↦
          let both = &&-true (aligned4 dst) (aligned4 src && aligned4 n) e in
          let last = &&-true (aligned4 src) (aligned4 n) both.1 in
          let whole : n / 4 * 4 ≡ n = omega (arith, ==→eq (n % 4) 0 last.1) in
          rw (memcpy, e)
            (copy_words-put_bytes (n / 4) dst src ram b (rw whole apart)
              ∙ ap (λ n. put_bytes dst (read_bytes src n ram) ram) whole)
      | inr e ↦ rw (memcpy, e) (copy_bytes-put_bytes n dst src ram apart)
    ]

-- ===== src/HostFs/Bytes.antt =====
-- What a write into an array leaves of its front part.
use mathlib.Core.List.{append-nil}
use simple_pi_os.Prelude.{
  List, [], ap, arith, drop, length, length-append, max, min, refl, suc, sym, take, zero, ℕ, ◌++◌,
  ◌+◌, ◌-◌, ◌∙◌, ◌∷◌, ◌≡◌, ◌≤◌,
}
use simple_pi_os.HostFs.Operations.{overwrite}

abbrev Bytes : Type 0
Bytes = List ℕ

pub length-take : (xs : Bytes) (n : ℕ) → n ≤ length xs → length (take n xs) ≡ n
length-take xs zero h = refl
length-take [] (suc n) h = absurd (omega arith)
length-take (x ∷ xs) (suc n) h = ap suc (length-take xs n (omega arith))

pub length-drop : (xs : Bytes) (n : ℕ) → n ≤ length xs → n + length (drop n xs) ≡ length xs
length-drop xs zero h = omega arith
length-drop [] (suc n) h = absurd (omega arith)
length-drop (x ∷ xs) (suc n) h = omega (arith, length-drop xs n (omega arith))

pub take-take : (xs : Bytes) (n m : ℕ) → n ≤ m → take n (take m xs) ≡ take n xs
take-take xs zero m h = refl
take-take xs (suc n) zero h = absurd (omega arith)
take-take [] (suc n) (suc m) h = refl
take-take (x ∷ xs) (suc n) (suc m) h = ap (λ t. x ∷ t) (take-take xs n m (omega arith))

pub take-length : (xs : Bytes) → take (length xs) xs ≡ xs
take-length [] = refl
take-length (x ∷ xs) = ap (λ t. x ∷ t) (take-length xs)

pub take-over : (xs : Bytes) (n : ℕ) → length xs ≤ n → take n xs ≡ xs
take-over [] zero h = refl
take-over [] (suc n) h = refl
take-over (x ∷ xs) zero h = absurd (omega arith)
take-over (x ∷ xs) (suc n) h = ap (λ t. x ∷ t) (take-over xs n (omega arith))

take_nil : (n : ℕ) → ◌≡◌ {A = Bytes} (take n []) []
take_nil zero = refl
take_nil (suc n) = refl

take-min : (xs : Bytes) (a b : ℕ) → take (min a b) xs ≡ take a (take b xs)
take-min xs zero b = let e : min 0 b ≡ 0 = omega arith in rw e refl
take-min xs (suc a) zero = let e : min (suc a) 0 ≡ 0 = omega arith in rw e refl
take-min [] (suc a) (suc b) = take_nil (min (suc a) (suc b))
take-min (x ∷ xs) (suc a) (suc b) =
    let e : min (suc a) (suc b) ≡ suc (min a b) = omega arith in
    rw e (ap (λ t. x ∷ t) (take-min xs a b))

drop-take : (xs : Bytes) (k n : ℕ) → drop k (take n xs) ≡ take (n - k) (drop k xs)
drop-take xs zero n = let e : n - 0 ≡ n = omega arith in rw e refl
drop-take [] (suc k) n = rw (take_nil n, take_nil (n - suc k)) refl
drop-take (x ∷ xs) (suc k) zero = let e : 0 - suc k ≡ 0 = omega arith in rw e refl
drop-take (x ∷ xs) (suc k) (suc n) =
    let e : suc n - suc k ≡ n - k = omega arith in rw e (drop-take xs k n)

-- Reading behind an offset inside the part
pub take-drop-take :
    (xs : Bytes) (off n size : ℕ)
    → take (min size (n - off)) (drop off xs) ≡ take size (drop off (take n xs))
take-drop-take xs off n size =
    take-min (drop off xs) size (n - off) ∙ ap (take size) (sym (drop-take xs off n))

take-append : (buf ys : Bytes) (k : ℕ) → take (length buf + k) (buf ++ ys) ≡ buf ++ take k ys
take-append [] ys k = let e : 0 + k ≡ k = omega arith in rw e refl
take-append (b ∷ buf) ys k =
    let e : suc (length buf) + k ≡ suc (length buf + k) = omega arith in
    rw e (ap (λ t. b ∷ t) (take-append buf ys k))

take-front :
    (buf xs : Bytes) (n : ℕ)
    → take (max n (length buf)) (buf ++ drop (length buf) xs) ≡ buf ++ drop (length buf) (take n xs)
take-front buf xs n =
    let e : max n (length buf) ≡ length buf + (n - length buf) = omega arith in
    rw (e, drop-take xs (length buf) n) (take-append buf (drop (length buf) xs) (n - length buf))

-- The part before the end of the data, or of what was written, is what the write makes of the data alone.
pub take-overwrite :
    (xs : Bytes) (off n : ℕ) (buf : Bytes)
    → off ≤ n
    → n ≤ length xs
    → take (max n (off + length buf)) (overwrite xs off buf) ≡ overwrite (take n xs) off buf
unfolding overwrite
take-overwrite xs zero n buf h g =
    let e : 0 + length buf ≡ length buf = omega arith in rw e (take-front buf xs n)
take-overwrite [] (suc off) n buf h g = absurd (omega arith)
take-overwrite (x ∷ xs) (suc off) zero buf h g = absurd (omega arith)
take-overwrite (x ∷ xs) (suc off) (suc n) buf h g =
    let sum : suc off + length buf ≡ suc (off + length buf) = omega arith in
    let most : max (suc n) (suc (off + length buf)) ≡ suc (max n (off + length buf)) =
      omega arith in
    rw (sum, most) (ap (λ t. x ∷ t) (take-overwrite xs off n buf (omega arith) (omega arith)))

pub length-overwrite :
    (xs : Bytes) (off : ℕ) (buf : Bytes)
    → off + length buf ≤ length xs
    → length (overwrite xs off buf) ≡ length xs
unfolding overwrite
length-overwrite xs off buf h =
    rw
      (
        length-append (take off xs) (buf ++ drop (off + length buf) xs),
        length-append buf (drop (off + length buf) xs),
        length-take xs off (omega arith),
      )
      (omega (arith, length-drop xs (off + length buf) h))

-- What was written is read back.
pub take-drop-overwrite :
    (xs : Bytes) (off : ℕ) (buf : Bytes)
    → off ≤ length xs
    → take (length buf) (drop off (overwrite xs off buf)) ≡ buf
unfolding overwrite
take-drop-overwrite xs zero buf h =
    let e : length buf ≡ length buf + 0 = omega arith in
    rw (e, take-append buf (drop (0 + (length buf + 0)) xs) 0) (append-nil buf)
take-drop-overwrite [] (suc off) buf h = absurd (omega arith)
take-drop-overwrite (x ∷ xs) (suc off) buf h =
    let sum : suc off + length buf ≡ suc (off + length buf) = omega arith in
    rw sum (take-drop-overwrite xs off buf (omega arith))

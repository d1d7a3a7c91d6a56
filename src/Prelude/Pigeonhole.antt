-- ===== src/Prelude/Pigeonhole.antt =====
-- A list of different numbers below a bound is no longer than the bound.
use Prim.Native.Nat.{ℕ, zero, suc, ◌≤◌, ◌<◌}
use mathlib.Core.Path.{sym, subst}
use mathlib.Core.Logic.{◌≢◌, inl, inr}
use mathlib.Core.List.{List, [], ◌∷◌}
use native.Mathlib.Omega.{arith}
use simple_pi_os.Prelude.Tests.{◌==◌, if◌then◌else◌, Bool-cases, ==→eq, ==→ne}
use simple_pi_os.Prelude.Lists.{length, All}

abbrev pub Distinct : List ℕ → Type 0
Distinct [] = Unit
Distinct (x ∷ xs) = All (λ y. x ≢ y) xs × Distinct xs

abbrev without : ℕ → List ℕ → List ℕ
without n [] = []
without n (x ∷ xs) = if x == n then xs else x ∷ without n xs

length-without : (n : ℕ) (xs : List ℕ) → length xs ≤ suc (length (without n xs))
length-without n [] = omega arith
length-without n (x ∷ xs) = elim (Bool-cases (x == n)) [
  | inl e ↦ rw e (omega arith)
  | inr e ↦ rw e (omega (arith, length-without n xs))
]

All-without : (P : ℕ → Type 0) (n : ℕ) (xs : List ℕ) → All P xs → All P (without n xs)
All-without P n [] h = tt
All-without P n (x ∷ xs) (hx, h) = elim (Bool-cases (x == n)) [
  | inl e ↦ rw e h
  | inr e ↦ rw e (hx, All-without P n xs h)
]

Distinct-without : (n : ℕ) (xs : List ℕ) → Distinct xs → Distinct (without n xs)
Distinct-without n [] h = tt
Distinct-without n (x ∷ xs) (hx, h) = elim (Bool-cases (x == n)) [
  | inl e ↦ rw e h
  | inr e ↦ rw e (All-without (λ y. x ≢ y) n xs hx, Distinct-without n xs h)
]

lower : (n x : ℕ) → x ≢ n → x < suc n → x < n
lower n x ne h = ground arith

lower-All :
    (n : ℕ) (xs : List ℕ) → All (λ y. n ≢ y) xs → All (λ y. y < suc n) xs → All (λ y. y < n) xs
lower-All n [] a b = tt
lower-All n (x ∷ xs) (ne, a) (h, b) = (lower n x (λ e. ne (sym e)) h, lower-All n xs a b)

below-without :
    (n : ℕ) (xs : List ℕ) → Distinct xs → All (λ y. y < suc n) xs → All (λ y. y < n) (without n xs)
below-without n [] d h = tt
below-without n (x ∷ xs) (fresh, d) (hx, h) = elim (Bool-cases (x == n)) [
  | inl e ↦ rw e (lower-All n xs (subst (λ t. All (λ y. t ≢ y) xs) (==→eq x n e) fresh) h)
  | inr e ↦ rw e (lower n x (==→ne x n e) hx, below-without n xs d h)
]

pub pigeonhole : (n : ℕ) (xs : List ℕ) → Distinct xs → All (λ y. y < n) xs → length xs ≤ n
pigeonhole zero [] d h = omega arith
pigeonhole zero (x ∷ xs) d h = absurd (omega (arith, h.0))
pigeonhole (suc n) xs d h = omega (
  arith,
  length-without n xs,
  pigeonhole n (without n xs) (Distinct-without n xs d) (below-without n xs d h),
)

-- ===== src/Prelude/Bits.antt =====
-- The C operators `&`, `|`, `^` and the shifts on machine words, and the laws that read masks and
-- disjoint fields as arithmetic.
use Prim.Native.Nat.{ℕ, zero, suc, ◌+◌, ◌-◌, ◌*◌, ◌/◌, ◌%◌, ◌^◌, ◌≤◌, ◌<◌, min, max}
use Prim.Native.Nat.{bit_and, bit_or, digits, bit_and-bitwise, bit_or-bitwise}
use mathlib.Core.Path.{◌≡◌, refl, ap}
use native.Mathlib.Nat.{pow-suc, one-le-pow}
use native.Mathlib.Omega.{arith}

infixl 60 ◌<<<◌ ◌>>>◌
-- `x << k` before it is cut to a width, and `x >> k`
abbrev pub ◌<<<◌ : ℕ → ℕ → ℕ
x <<< k = x * 2 ^ k

abbrev pub ◌>>>◌ : ℕ → ℕ → ℕ
x >>> k = x / 2 ^ k

-- The cut to 8 and to 32 bits.
abbrev pub u8 : ℕ → ℕ
u8 x = x % 2 ^ 8

abbrev pub u32 : ℕ → ℕ
u32 x = x % 2 ^ 32

-- The recursion that the native operations stand for does not depend on spare fuel.
module _ (f : ℕ → ℕ) (g : ℕ → ℕ → ℕ) where
  digits_spare : (b n m a : ℕ) → a ≤ m → a ≤ n → digits f g n a b ≡ digits f g m a b
  digits_spare b (suc n) (suc m) (suc a) q p =
      omega (arith, digits_spare (b / 2) n m (suc a / 2) (omega arith) (omega arith))
  digits_spare b (suc n) (suc m) zero q p = refl
  digits_spare b (suc n) zero zero q p = refl
  digits_spare b (suc n) zero (suc a) q p = absurd (omega arith)
  digits_spare b zero (suc m) zero q p = refl
  digits_spare b zero (suc m) (suc a) q p = absurd (omega arith)
  digits_spare b zero zero a q p = refl

  -- With fuel for the half only, the half's digits are the same.
  pub digits_half :
      (a b : ℕ) → digits f g a (suc a / 2) (b / 2) ≡ digits f g (suc a / 2) (suc a / 2) (b / 2)
  digits_half a b = digits_spare (b / 2) a (suc a / 2) (suc a / 2) (omega arith) (omega arith)

-- The lowest digit apart.
pub bit_and_step : (a b : ℕ) → bit_and a b ≡ bit_and (a / 2) (b / 2) * 2 + min (a % 2) (b % 2)
bit_and_step (suc a) b =
    let half = bit_and-bitwise (suc a / 2) (b / 2) in
    omega (arith, half, digits_half (λ _. 0) min a b, bit_and-bitwise (suc a) b)
bit_and_step zero b = omega (arith, bit_and-bitwise 0 (b / 2), bit_and-bitwise 0 b)

pub bit_or_step : (a b : ℕ) → bit_or a b ≡ bit_or (a / 2) (b / 2) * 2 + max (a % 2) (b % 2)
bit_or_step (suc a) b =
    let half = bit_or-bitwise (suc a / 2) (b / 2) in
    omega (arith, half, digits_half (λ c. c) max a b, bit_or-bitwise (suc a) b)
bit_or_step zero b = omega (arith, bit_or-bitwise 0 (b / 2), bit_or-bitwise 0 b)

-- The zero laws, by recursion on a bound for the left word.
bit_and-zero_below : (n a : ℕ) → a ≤ n → bit_and a 0 ≡ 0
bit_and-zero_below n zero h = refl
bit_and-zero_below zero (suc a) h = absurd (omega arith)
bit_and-zero_below (suc n) (suc a) h =
    omega (arith, bit_and_step (suc a) 0, bit_and-zero_below n (suc a / 2) (omega arith))

bit_or-zero_below : (n a : ℕ) → a ≤ n → bit_or a 0 ≡ a
bit_or-zero_below n zero h = refl
bit_or-zero_below zero (suc a) h = absurd (omega arith)
bit_or-zero_below (suc n) (suc a) h =
    omega (arith, bit_or_step (suc a) 0, bit_or-zero_below n (suc a / 2) (omega arith))

pub zero-bit_and : (b : ℕ) → bit_and 0 b ≡ 0
zero-bit_and b = bit_and-bitwise 0 b

pub bit_and-zero : (a : ℕ) → bit_and a 0 ≡ 0
bit_and-zero a = bit_and-zero_below a a (omega arith)

pub bit_or-zero : (a : ℕ) → bit_or a 0 ≡ a
bit_or-zero a = bit_or-zero_below a a (omega arith)

pub double_shift : (q k : ℕ) → q * 2 ^ suc k ≡ 2 * (q * 2 ^ k)
double_shift q k = omega (arith, ap (λ (t : ℕ). q * t) (pow-suc 2 k))

-- `(q << k) | r` is a sum where `r` has at most `k` bits.
pub bit_or-shift : (k q r : ℕ) → r < 2 ^ k → bit_or (q * 2 ^ k) r ≡ q * 2 ^ k + r
bit_or-shift zero q r h = ground (arith, bit_or-zero q)
bit_or-shift (suc k) q r h =
    ground (
      arith,
      bit_or_step (q * 2 ^ suc k) r,
      double_shift q k,
      bit_or-shift k q (r / 2) (omega arith),
    )

bit_and-shift : (k q r : ℕ) → r < 2 ^ k → bit_and (q * 2 ^ k + r) (2 ^ k - 1) ≡ r
bit_and-shift zero q r h = rw bit_and-zero (omega arith)
bit_and-shift (suc k) q r h = ground (
  arith,
  bit_and_step (q * 2 ^ suc k + r) (2 ^ suc k - 1),
  double_shift q k,
  pow-suc 2 k,
  bit_and-shift k q (r / 2) (omega arith),
)

-- `a & ((1 << k) - 1)` is the remainder by `2 ^ k`.
pub bit_and-mask : (k a : ℕ) → bit_and a (2 ^ k - 1) ≡ a % 2 ^ k
bit_and-mask k a = ground (arith, one-le-pow k 2, bit_and-shift k (a / 2 ^ k) (a % 2 ^ k))

-- `|` does not depend on the order.
bit_or_comm_below : (n a b : ℕ) → a ≤ n → bit_or a b ≡ bit_or b a
bit_or_comm_below n zero b h = omega (arith, bit_or-bitwise 0 b, bit_or-zero b)
bit_or_comm_below zero (suc a) b h = absurd (omega arith)
bit_or_comm_below (suc n) (suc a) b h = omega (
  arith,
  bit_or_step (suc a) b,
  bit_or_step b (suc a),
  bit_or_comm_below n (suc a / 2) (b / 2) (omega arith),
)

pub bit_or_comm : (a b : ℕ) → bit_or a b ≡ bit_or b a
bit_or_comm a b = bit_or_comm_below a a b (omega arith)

pub bit_or-above : (k q r : ℕ) → r < 2 ^ k → bit_or r (q * 2 ^ k) ≡ q * 2 ^ k + r
bit_or-above k q r h = omega (arith, bit_or_comm r (q * 2 ^ k), bit_or-shift k q r h)

-- The low `k` bits of a word under a mark above them
pub bit_or-marked : (k q x : ℕ) → bit_or (bit_and x (2 ^ k - 1)) (q * 2 ^ k) ≡ q * 2 ^ k + x % 2 ^ k
bit_or-marked k q x =
    rw (bit_and-mask k x) (bit_or-above k q (x % 2 ^ k) (omega (arith, one-le-pow k 2)))

-- A mask that clears the low `k` bits
bit_and-high :
    (k m q r : ℕ) → r < 2 ^ k → bit_and (q * 2 ^ k + r) ((2 ^ m - 1) * 2 ^ k) ≡ q % 2 ^ m * 2 ^ k
bit_and-high zero m q r h = ground (arith, bit_and-mask m q)
bit_and-high (suc k) m q r h = ground (
  arith,
  bit_and_step (q * 2 ^ suc k + r) ((2 ^ m - 1) * 2 ^ suc k),
  double_shift q k,
  double_shift (2 ^ m - 1) k,
  double_shift (q % 2 ^ m) k,
  bit_and-high k m q (r / 2) (omega arith),
)

-- `roundup(x, n)` for a power of two
unfoldable pub roundup : (x n : ℕ) → ℕ
roundup x n = bit_and (u32 (x + (n - 1))) (2 ^ 32 - n)

pub roundup-eight : (x : ℕ) → x + 8 < 2 ^ 32 → roundup x 8 ≡ (x + 7) / 8 * 8
unfolding roundup
roundup-eight x h =
    let fields : u32 (x + 7) ≡ (x + 7) / 8 * 8 + (x + 7) % 8 = omega arith in
    rw fields (omega (arith, bit_and-high 3 29 ((x + 7) / 8) ((x + 7) % 8) (omega arith)))

pub roundup-mib :
    (x : ℕ) → x + 2 ^ 20 < 2 ^ 32 → roundup x (2 ^ 20) ≡ (x + 0xf_ffff) / 2 ^ 20 * 2 ^ 20
unfolding roundup
roundup-mib x h =
    let fields : u32 (x + 0xf_ffff) ≡ (x + 0xf_ffff) / 2 ^ 20 * 2 ^ 20 + (x + 0xf_ffff) % 2 ^ 20 =
      omega arith in
    rw fields (
      omega (
        arith,
        bit_and-high 20 12 ((x + 0xf_ffff) / 2 ^ 20) ((x + 0xf_ffff) % 2 ^ 20) (omega arith),
      ))

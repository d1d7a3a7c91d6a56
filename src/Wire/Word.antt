-- ===== src/Wire/Word.antt =====
-- A word on the line: its four bytes, the lowest first, and the word that they make.
use simple_pi_os.Prelude.{
  List, [], arith, bit_and, bit_and-mask, bit_or, bit_or-above, u32, ℕ, ◌%◌, ◌*◌, ◌+◌, ◌<<<◌, ◌<◌,
  ◌>>>◌, ◌^◌, ◌∷◌, ◌≡◌,
}

unfoldable pub word_bytes : ℕ → List ℕ
word_bytes u =
    bit_and (u >>> 0) 0xff
    ∷ bit_and (u >>> 8) 0xff
    ∷ bit_and (u >>> 16) 0xff
    ∷ bit_and (u >>> 24) 0xff
    ∷ []

-- The word that `get_uint` makes of four bytes
unfoldable pub word_of : (b₀ b₁ b₂ b₃ : ℕ) → ℕ
word_of b₀ b₁ b₂ b₃ =
    bit_or (bit_or (bit_or b₀ (u32 (b₁ <<< 8))) (u32 (b₂ <<< 16))) (u32 (b₃ <<< 24))

pub word_of-sum :
    (b₀ b₁ b₂ b₃ : ℕ)
    → b₀ < 256
    → b₁ < 256
    → b₂ < 256
    → b₃ < 256
    → word_of b₀ b₁ b₂ b₃ ≡ b₀ + b₁ * 2 ^ 8 + b₂ * 2 ^ 16 + b₃ * 2 ^ 24
unfolding word_of
word_of-sum b₀ b₁ b₂ b₃ p₀ p₁ p₂ p₃ =
    let c₁ : u32 (b₁ <<< 8) ≡ b₁ * 2 ^ 8 = omega arith in
    let c₂ : u32 (b₂ <<< 16) ≡ b₂ * 2 ^ 16 = omega arith in
    let c₃ : u32 (b₃ <<< 24) ≡ b₃ * 2 ^ 24 = omega arith in
    rw
      (
        c₁,
        c₂,
        c₃,
        bit_or-above 8 b₁ b₀ (omega arith),
        bit_or-above 16 b₂ (b₁ * 2 ^ 8 + b₀) (omega arith),
        bit_or-above 24 b₃ (b₂ * 2 ^ 16 + (b₁ * 2 ^ 8 + b₀)) (omega arith),
      )
      (omega arith)

pub word_of-word_bytes :
    (u : ℕ)
    → u < 2 ^ 32
    → word_of
        (bit_and (u >>> 0) 0xff)
        (bit_and (u >>> 8) 0xff)
        (bit_and (u >>> 16) 0xff)
        (bit_and (u >>> 24) 0xff)
      ≡ u
word_of-word_bytes u h =
    rw
      (
        bit_and-mask 8 (u >>> 0),
        bit_and-mask 8 (u >>> 8),
        bit_and-mask 8 (u >>> 16),
        bit_and-mask 8 (u >>> 24),
        word_of-sum ((u >>> 0) % 2 ^ 8) ((u >>> 8) % 2 ^ 8) ((u >>> 16) % 2 ^ 8)
            ((u >>> 24) % 2 ^ 8) (omega arith) (omega arith) (omega arith) (omega arith),
      )
      (omega arith)

pub word_bytes-word_of :
    (b₀ b₁ b₂ b₃ : ℕ)
    → b₀ < 256
    → b₁ < 256
    → b₂ < 256
    → b₃ < 256
    → word_bytes (word_of b₀ b₁ b₂ b₃) ≡ b₀ ∷ b₁ ∷ b₂ ∷ b₃ ∷ []
unfolding word_bytes
word_bytes-word_of b₀ b₁ b₂ b₃ p₀ p₁ p₂ p₃ =
    let u = word_of b₀ b₁ b₂ b₃ in
    let sum = word_of-sum b₀ b₁ b₂ b₃ p₀ p₁ p₂ p₃ in
    let c₀ : bit_and (u >>> 0) 0xff ≡ b₀ = omega (arith, sum, bit_and-mask 8 (u >>> 0)) in
    let c₁ : bit_and (u >>> 8) 0xff ≡ b₁ = omega (arith, sum, bit_and-mask 8 (u >>> 8)) in
    let c₂ : bit_and (u >>> 16) 0xff ≡ b₂ = omega (arith, sum, bit_and-mask 8 (u >>> 16)) in
    let c₃ : bit_and (u >>> 24) 0xff ≡ b₃ = omega (arith, sum, bit_and-mask 8 (u >>> 24)) in cc

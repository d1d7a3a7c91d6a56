-- ===== src/Image/Cross.antt =====
-- An image as bytes and as words, and the two loops in step.
use simple_pi_os.Prelude.{
  All, List, [], ap, ap₂, arith, length, lt→ltb, refl, subst, suc, sym, u32, zero, ℕ, ◌%◌, ◌*◌,
  ◌++◌, ◌+◌, ◌<◌, ◌^◌, ◌∙◌, ◌∷◌, ◌≡◌, ◌≤◌,
}
use simple_pi_os.Image.{words, put_words, receive_words}
use simple_pi_os.Wire.{Proc, put_uint, send_byte, get_uint, get_byte, ◌>>=◌, ◌>>◌}
use simple_pi_os.Wire.Net.{net, Reaches, here, ◌then_run◌}
use simple_pi_os.Wire.Exchange.{host_sends}
use simple_pi_os.Wire.Word.{word_bytes, word_bytes-word_of, word_of-sum}
use simple_pi_os.Ram.{Ram, put_bytes, put32, put_bytes-append}

-- Every entry fits a byte; every entry fits a word.
abbrev pub AreBytes : List ℕ → Type 0
AreBytes bs = All (λ b. b < 256) bs

abbrev pub AreWords : List ℕ → Type 0
AreWords ws = All (λ w. w < 2 ^ 32) ws

abbrev pub flatten : List ℕ → List ℕ
flatten [] = []
flatten (w ∷ ws) = word_bytes w ++ flatten ws

pub words-flatten :
    (buf : List ℕ) → All (λ b. b < 256) buf → length buf % 4 ≡ 0 → flatten (words buf) ≡ buf
unfolding words word_bytes
words-flatten [] h e = refl
words-flatten (a ∷ []) h e = absurd (omega arith)
words-flatten (a ∷ b ∷ []) h e = absurd (omega arith)
words-flatten (a ∷ b ∷ c ∷ []) h e = absurd (omega arith)
words-flatten (a ∷ b ∷ c ∷ d ∷ rest) (ha, (hb, (hc, (hd, h)))) e =
    ap₂ (λ s t. s ++ t) (word_bytes-word_of a b c d ha hb hc hd)
      (words-flatten rest h (omega arith))

pub words-AreWords : (buf : List ℕ) → All (λ b. b < 256) buf → AreWords (words buf)
unfolding words
words-AreWords [] h = tt
words-AreWords (a ∷ []) h = tt
words-AreWords (a ∷ b ∷ []) h = tt
words-AreWords (a ∷ b ∷ c ∷ []) h = tt
words-AreWords (a ∷ b ∷ c ∷ d ∷ rest) (ha, (hb, (hc, (hd, h)))) =
    (omega (arith, word_of-sum a b c d ha hb hc hd), words-AreWords rest h)

pub length-words : (buf : List ℕ) → length buf % 4 ≡ 0 → length (words buf) * 4 ≡ length buf
unfolding words
length-words [] e = refl
length-words (a ∷ []) e = absurd (omega arith)
length-words (a ∷ b ∷ []) e = absurd (omega arith)
length-words (a ∷ b ∷ c ∷ []) e = absurd (omega arith)
length-words (a ∷ b ∷ c ∷ d ∷ rest) e = omega (arith, length-words rest (omega arith))

receive_words-done :
    (base fuel i size : ℕ) (ram : Ram)
    → size ≤ i
    → receive_words base fuel i size ram ≡ Proc.done ram
unfolding receive_words
receive_words-done base zero i size ram h = ground arith
receive_words-done base (suc fuel) i size ram h = ground arith

receive_words-more :
    (base : ℕ) (fuel i size : ℕ) (ram : Ram)
    → i < size
    → base + size < 2 ^ 32
    → receive_words base (suc fuel) i size ram
      ≡ (get_uint >>= λ w. receive_words base fuel (u32 (i + 4)) size (put32 (base + i) w ram))
unfolding receive_words
receive_words-more base fuel i size ram h g = rw (lt→ltb i size h) (
    ap (λ a. get_uint >>= λ w. receive_words base fuel (u32 (i + 4)) size (put32 a w ram))
      (omega arith))

stored :
    (base : ℕ) (i w : ℕ) (rest : List ℕ) (ram : Ram)
    → put_bytes (base + (i + 4)) rest (put32 (base + i) w ram)
      ≡ put_bytes (base + i) (word_bytes w ++ rest) ram
unfolding put32 word_bytes
stored base i w rest ram =
    ap (λ a. put_bytes a rest (put_bytes (base + i) (word_bytes w) ram)) (omega arith)
    ∙ sym (put_bytes-append (base + i) (word_bytes w) rest ram)

module _ {ℓ κ} {A : Type ℓ} {B : Type κ} where
  -- The loops of both sides in step: each word that the host puts is stored by the Pi.
  pub words_cross :
      (base : ℕ) (ws : List ℕ) (fuel i size : ℕ) (ram : Ram) (h : Proc A) (p : Ram → Proc B)
      (r : List ℕ)
      → AreWords ws
      → i + length ws * 4 ≡ size
      → length ws < fuel
      → base + size < 2 ^ 32
      → Reaches
          (net (put_words ws >> h) (receive_words base fuel i size ram >>= p) [] r)
          (net h (p (put_bytes (base + i) (flatten ws) ram)) [] r)
  unfolding put_words put_uint send_byte put_bytes get_uint get_byte
  words_cross base [] fuel i size ram h p r b e f g =
      rw (receive_words-done base fuel i size ram (omega arith)) (0, here)
  words_cross base (w ∷ ws) zero i size ram h p r b e f g = absurd (omega arith)
  words_cross base (w ∷ ws) (suc fuel) i size ram h p r b e f g =
      let next : u32 (i + 4) ≡ i + 4 = omega arith in
      let rest =
        words_cross base ws fuel (i + 4) size (put32 (base + i) w ram) h p r b.1 (omega arith)
          (omega arith) g in
      rw (receive_words-more base fuel i size ram (omega arith) g, next)
        (host_sends w (put_words ws >> h)
            (λ u. receive_words base fuel (i + 4) size (put32 (base + i) u ram) >>= p) r b.0
          then_run subst
              (λ m.
                Reaches
                  (net (put_words ws >> h)
                    (receive_words base fuel (i + 4) size (put32 (base + i) w ram) >>= p) [] r)
                  (net h (p m) [] r))
              (stored base i w (flatten ws) ram) rest)

-- ===== src/Wire/Exchange.antt =====
-- A word sent from one side to the other: eight steps of the two processes.
use simple_pi_os.Prelude.{List, [], refl, subst, ℕ, ◌<◌, ◌^◌}
use simple_pi_os.Wire.{Proc, get_uint, put_uint, send_byte, get_byte, ◌>>=◌, ◌>>◌}
use simple_pi_os.Wire.Net.{net, Reaches, here, step, host_steps, pi_steps}
use simple_pi_os.Wire.Word.{word_of-word_bytes, word_of}

module _ {ℓ κ} {A : Type ℓ} {B : Type κ} where
  pub host_sends :
      (w : ℕ) (h : Proc A) (p : ℕ → Proc B) (r : List ℕ)
      → w < 2 ^ 32
      → Reaches (net (put_uint w >> h) (get_uint >>= p) [] r) (net h (p w) [] r)
  unfolding put_uint get_uint send_byte get_byte word_of
  host_sends w h p r b =
      subst (λ u. Reaches (net (put_uint w >> h) (get_uint >>= p) [] r) (net h (p u) [] r))
        (word_of-word_bytes w b)
        (
          8,
          step (host_steps refl) (
              step (host_steps refl) (
                step (host_steps refl) (
                  step (host_steps refl) (
                    step (pi_steps refl)
                      (step (pi_steps refl) (step (pi_steps refl) (step (pi_steps refl) here))))))),
        )

  pub pi_sends :
      (w : ℕ) (h : ℕ → Proc A) (p : Proc B) (q : List ℕ)
      → w < 2 ^ 32
      → Reaches (net (get_uint >>= h) (put_uint w >> p) q []) (net (h w) p q [])
  unfolding put_uint get_uint send_byte get_byte word_of
  pi_sends w h p q b =
      subst (λ u. Reaches (net (get_uint >>= h) (put_uint w >> p) q []) (net (h u) p q []))
        (word_of-word_bytes w b)
        (
          8,
          step (pi_steps refl) (
              step (pi_steps refl) (
                step (pi_steps refl) (
                  step (pi_steps refl) (
                    step (host_steps refl) (
                      step (host_steps refl)
                        (step (host_steps refl) (step (host_steps refl) here))))))),
        )

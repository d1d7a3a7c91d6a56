-- ===== src/Matcher.antt =====
-- The matcher of unix-side/fs/echo-until.c, which reads from the Pi until a message has been seen.
pub mod Sound
use simple_pi_os.Prelude.{
  Bool, List, Option, Result, [], assert, demand, false, get_or, if◌then◌else◌, leb, length, ltb,
  none, ok, some, true, ℕ, ◌!=◌, ◌+◌, ◌==◌, ◌>>=◌, ◌>>◌, ◌||◌, ◌∷◌,
}

pub record Fsm : Type 0 where
  pub pos : ℕ
  pub fsm_end : ℕ
  pub exit_string : List ℕ

unfoldable pub mk_fsm : List ℕ → Result Fsm
mk_fsm str =
    demand (ltb (length str) 1023)
    >> ok (record { pos = 0; fsm_end = length str; exit_string = str })

-- The string has signed characters, and what is read does not: from 128 on they differ.
unfoldable pub differs : (c x : ℕ) → Bool
differs c x = (c != x) || leb 128 x

unfoldable pub fsm_chr_done : Fsm → ℕ → Result (Bool × Fsm)
fsm_chr_done f c =
    assert (ltb f.pos f.fsm_end)
    >> (if differs c (get_or f.exit_string f.pos 0)
        then ok (false, record f { pos = 0 })
        else ok ((f.pos + 1) == f.fsm_end, record f { pos = f.pos + 1 }))

-- What is returned starts at the last character of the match.
unfoldable pub fsm_done : Fsm → List ℕ → Result (Option (List ℕ) × Fsm)
fsm_done f [] = ok (none, f)
fsm_done f (c ∷ s) = do
  got ← fsm_chr_done f c
  if got.0 then ok (some (c ∷ s), got.1) else fsm_done got.1 s

module _ {S : Type 0} (fn : ℕ → S → Result (Bool × S)) where
  -- The list is what can be read: at its end `read` gives nothing or an error, and either ends the loop.
  unfoldable pub echo_from : Fsm → List ℕ → S → Result (Bool × (List ℕ × S))
  echo_from f [] s = ok (false, ([], s))
  echo_from f (c ∷ line) s = do
    taken ← fn c s
    if taken.0
        then (fsm_chr_done f c >>= λ got.
            if got.0 then ok (true, (line, taken.1)) else echo_from got.1 line taken.1)
        else ok (false, (line, taken.1))

  unfoldable pub echo_until_fn : List ℕ → List ℕ → S → Result (Bool × (List ℕ × S))
  echo_until_fn msg line s = do f ← mk_fsm msg; echo_from f line s

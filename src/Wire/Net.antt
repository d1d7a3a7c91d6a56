-- ===== src/Wire/Net.antt =====
-- Two processes on a line with a queue in each direction: the host and the Pi. Either side may move
-- at any time, so a run is one of many interleavings; all of them come to the same end.
use simple_pi_os.Prelude.{
  List, Option, [], arith, none, refl, some, subst, suc, sym, zero, ℕ, ◌++◌, ◌+◌, ◌∷◌, ◌≡◌,
}
use simple_pi_os.Wire.{Proc, done, stop, put, get}

-- The host, the Pi, the bytes on the way to the Pi and the bytes on the way to the host.
pub data Net {ℓ κ} (A : Type ℓ) (B : Type κ) : Type (ℓ ⊔ κ) where
  net : Proc A → Proc B → List ℕ → List ℕ → Net A B

module _ {ℓ κ} {A : Type ℓ} {B : Type κ} where
  -- A side that puts adds to the queue; one that gets waits until its queue has a byte.
  abbrev pub host_move : Net A B → Option (Net A B)
  host_move (net (put b h) p q r) = some (net h p (q ++ (b ∷ [])) r)
  host_move (net (get k) p q (b ∷ r)) = some (net (k b) p q r)
  host_move (net (get k) p q []) = none
  host_move (net (done a) p q r) = none
  host_move (net (stop e) p q r) = none

  abbrev pub pi_move : Net A B → Option (Net A B)
  pi_move (net h (put b p) q r) = some (net h p q (r ++ (b ∷ [])))
  pi_move (net h (get k) (b ∷ q) r) = some (net h (k b) q r)
  pi_move (net h (get k) [] r) = none
  pi_move (net h (done a) q r) = none
  pi_move (net h (stop e) q r) = none

  pub data Step (m n : Net A B) : Type (ℓ ⊔ κ) where
    host_steps : host_move m ≡ some n → Step m n
    pi_steps : pi_move m ≡ some n → Step m n

  -- A run of so many steps, in whatever order the two sides take them.
  pub data Runs (n : Net A B) : ℕ → Net A B → Type (ℓ ⊔ κ) where
    here : Runs n 0 n
    step : {k : ℕ} {m a : Net A B} → Step m a → Runs n k a → Runs n (suc k) m

  -- Neither side can move.
  abbrev pub IsHalted : Net A B → Type (ℓ ⊔ κ)
  IsHalted m = (host_move m ≡ none) × (pi_move m ≡ none)

  halted-Step : (m n : Net A B) → IsHalted m → Step m n → ⊥
  halted-Step m n h (host_steps e) = cc
  halted-Step m n h (pi_steps e) = cc

  -- Some number of steps.
  abbrev pub Reaches : (m n : Net A B) → Type (ℓ ⊔ κ)
  Reaches m n = (k : ℕ) × Runs n k m

  append_run : {n m : Net A B} {i : ℕ} {l : Net A B} → Runs m i l → Reaches m n → Reaches l n
  append_run here s = s
  append_run (step e r) s = let rest = append_run r s in (suc rest.0, step e rest.1)

  infixr 30 ◌then_run◌
  pub ◌then_run◌ : {l m n : Net A B} → Reaches l m → Reaches m n → Reaches l n
  (k, r) then_run s = append_run r s

  abbrev Meet : (a b : Net A B) → Type (ℓ ⊔ κ)
  Meet a b = (c : Net A B) × (pi_move a ≡ some c) × (host_move b ≡ some c)

  meet :
      (x y c a b : Net A B)
      → some x ≡ some a
      → some y ≡ some b
      → pi_move x ≡ some c
      → host_move y ≡ some c
      → Meet a b
  meet x y c a b e f p h = (c, cc, cc)

  -- The two sides move independently: a put at the end of a queue and a get at its front commute.
  moves_commute : (m a b : Net A B) → host_move m ≡ some a → pi_move m ≡ some b → Meet a b
  moves_commute (net (put x h) (put y p) q r) a b e f =
      meet (net h (put y p) (q ++ (x ∷ [])) r) (net (put x h) p q (r ++ (y ∷ [])))
        (net h p (q ++ (x ∷ [])) (r ++ (y ∷ []))) a b e f refl refl
  moves_commute (net (put x h) (get k) (y ∷ q) r) a b e f =
      meet (net h (get k) (y ∷ (q ++ (x ∷ []))) r) (net (put x h) (k y) q r)
        (net h (k y) (q ++ (x ∷ [])) r) a b e f refl refl
  moves_commute (net (get k) (put y p) q (x ∷ r)) a b e f =
      meet (net (k x) (put y p) q r) (net (get k) p q (x ∷ (r ++ (y ∷ []))))
        (net (k x) p q (r ++ (y ∷ []))) a b e f refl refl
  moves_commute (net (get k) (get j) (y ∷ q) (x ∷ r)) a b e f =
      meet (net (k x) (get j) (y ∷ q) r) (net (get k) (j y) q (x ∷ r)) (net (k x) (j y) q r) a b e f
        refl refl
  moves_commute (net h (get k) [] r) a b e f = absurd (cc)
  moves_commute (net h (done v) q r) a b e f = absurd (cc)
  moves_commute (net h (stop v) q r) a b e f = absurd (cc)
  moves_commute (net (get k) p q []) a b e f = absurd (cc)
  moves_commute (net (done v) p q r) a b e f = absurd (cc)
  moves_commute (net (stop v) p q r) a b e f = absurd (cc)

  -- A run that ends may as well have begun with any other first step.
  run_after :
      (k : ℕ) (e m x : Net A B)
      → IsHalted e
      → Step m x
      → Runs e k m
      → (j : ℕ) × (k ≡ suc j) × Runs e j x
  run_after zero e m x h s here = absurd (halted-Step m x h s)
  run_after (suc k) e m x h s (step {a = a} t r) = first_steps (λ c u. run_after k e a c h u r) s t
    where
      same : (x ≡ a) → (j : ℕ) × (suc k ≡ suc j) × Runs e j x
      same p = (k, refl, subst (Runs e k) (sym p) r)

      Again : Type (ℓ ⊔ κ)
      Again = (c : Net A B) → Step a c → (j : ℕ) × (k ≡ suc j) × Runs e j c

      joined : Again → (c : Net A B) → Step a c → Step x c → (j : ℕ) × (suc k ≡ suc j) × Runs e j x
      joined again c u v =
          let rest = again c u in (k, refl, subst (λ n. Runs e n x) (sym rest.1) (step v rest.2))

      first_steps : Again → Step m x → Step m a → (j : ℕ) × (suc k ≡ suc j) × Runs e j x
      first_steps again (host_steps p) (host_steps q) = same (cc)
      first_steps again (pi_steps p) (pi_steps q) = same (cc)
      first_steps again (host_steps p) (pi_steps q) =
          let both = moves_commute m x a p q in
          joined again both.0 (host_steps both.2) (pi_steps both.1)
      first_steps again (pi_steps p) (host_steps q) =
          let both = moves_commute m a x q p in
          joined again both.0 (pi_steps both.1) (host_steps both.2)

  -- So every run leads to that end, in the steps that are left.
  pub run_on :
      (i k : ℕ) (e m x : Net A B)
      → IsHalted e
      → Runs e k m
      → Runs x i m
      → (j : ℕ) × (k ≡ i + j) × Runs e j x
  run_on zero k e m _ h r here = (k, omega arith, r)
  run_on (suc i) k e m x h r (step {a = a} s t) =
      let after = run_after k e m a h s r in
      let rest = run_on i after.0 e a x h after.2 t in
      (rest.0, omega (arith, after.1, rest.1), rest.2)

  -- Whatever the order of the steps, the net comes to `e`: each run has at most so many steps, and goes
  -- on to `e`, where both sides halt.
  abbrev pub Ends : (m e : Net A B) → Type (ℓ ⊔ κ)
  Ends m e =
      (k : ℕ) × IsHalted e
      × ((i : ℕ) (x : Net A B) → Runs x i m → (j : ℕ) × (k ≡ i + j) × Runs e j x)

  pub Reaches-Ends : (m e : Net A B) → IsHalted e → Reaches m e → Ends m e
  Reaches-Ends m e h (k, r) = (k, h, λ i x s. run_on i k e m x h r s)

-- ===== src/Wire/Always.antt =====
-- What holds of the result of a process whatever bytes come in.
use simple_pi_os.Prelude.{Bool, false, if◌then◌else◌, true, ℕ}
use simple_pi_os.Wire.{Proc, done, stop, put, get, bind}

module _ {ℓ κ} {A : Type ℓ} where
  abbrev pub Always : (A → Type κ) → Proc A → Type κ
  Always P (done a) = P a
  Always P (stop e) = Unit
  Always P (put b p) = Always P p
  Always P (get k) = (b : ℕ) → Always P (k b)

module _ {ℓ κ μ ν} {A : Type ℓ} {B : Type κ} where
  pub Always-bind :
      (Q : A → Type μ) (P : B → Type ν) (p : Proc A) (f : A → Proc B)
      → Always Q p
      → ((a : A) → Q a → Always P (f a))
      → Always P (bind p f)
  Always-bind Q P (done a) f h g = g a h
  Always-bind Q P (stop e) f h g = tt
  Always-bind Q P (put b p) f h g = Always-bind Q P p f h g
  Always-bind Q P (get k) f h g = λ b. Always-bind Q P (k b) f (h b) g

module _ {ℓ κ} {A : Type ℓ} where
  pub Always-if :
      (P : A → Type κ) (b : Bool) (p q : Proc A)
      → Always P p
      → Always P q
      → Always P (if b then p else q)
  Always-if P true p q h k = h
  Always-if P false p q h k = k

-- ===== src/Prelude/Outcome.antt =====
-- What a run of kernel code gives. `assert`, `demand` and `panic` print and reboot the machine, so
-- each is an error value that ends the run; `fault` is an access outside an array or to an
-- unmapped address, and `out_of_fuel` a loop that the fuel of the model did not finish.
use mathlib.Core.Path.{◌≡◌, refl, sym}
use mathlib.Core.Logic.{◌≢◌}
use mathlib.Core.Bool.{Bool, true, false}

pub data Panic : Type 0 where
  asserted demanded panicked out_of_memory fault out_of_fuel unsupported : Panic

pub data Result {ℓ} (A : Type ℓ) : Type ℓ where
  ok : A → Result A
  panic : Panic → Result A

-- What comes after a step runs only if the step ends well.
abbrev pub and_then {ℓ κ} : {A : Type ℓ} {B : Type κ} → Result A → (A → Result B) → Result B
and_then (panic e) next = panic e
and_then (ok a) next = next a

infixl 5 ◌>>=◌ ◌>>◌
abbrev pub ◌>>=◌ {ℓ κ} : {A : Type ℓ} {B : Type κ} → Result A → (A → Result B) → Result B
◌>>=◌ = and_then

abbrev pub ◌>>◌ {ℓ} : {B : Type ℓ} → Result (Unit {0}) → Result B → Result B
step >> rest = and_then step λ _. rest

-- `assert(b)`
abbrev pub assert : Bool → Result (Unit {0})
assert true = ok tt
assert false = panic asserted

-- `demand(b, msg)`
abbrev pub demand : Bool → Result (Unit {0})
demand true = ok tt
demand false = panic demanded

pub ok-injective {ℓ} : {A : Type ℓ} {a b : A} → ok a ≡ ok b → a ≡ b
ok-injective h = cc

pub ok≢panic {ℓ} : {A : Type ℓ} {a : A} {e : Panic} → ok a ≢ panic e
ok≢panic h = cc

-- A chain that ends well has ended well at its first step.
pub and_then-ok {ℓ κ} :
    {A : Type ℓ} {B : Type κ} (r : Result A) (next : A → Result B) (b : B)
    → and_then r next ≡ ok b
    → (a : A) × (r ≡ ok a) × (next a ≡ ok b)
and_then-ok (ok a) next b h = (a, refl, h)
and_then-ok (panic e) next b h = absurd (ok≢panic (sym h))

pub assert-ok {ℓ} :
    {B : Type ℓ} (c : Bool) (rest : Result B) (b : B)
    → (assert c >> rest) ≡ ok b
    → (c ≡ true) × (rest ≡ ok b)
assert-ok true rest b h = (refl, h)
assert-ok false rest b h = absurd (ok≢panic (sym h))

pub demand-ok {ℓ} :
    {B : Type ℓ} (c : Bool) (rest : Result B) (b : B)
    → (demand c >> rest) ≡ ok b
    → (c ≡ true) × (rest ≡ ok b)
demand-ok true rest b h = (refl, h)
demand-ok false rest b h = absurd (ok≢panic (sym h))

-- ===== src/Wire.antt =====
-- The serial line between the host and the Pi: `get_byte`, `send_byte`, `get_uint` and `put_uint`,
-- which unix-side/support/simple-boot.c, pi-side/bootloader/bootloader.c and pi-side/kernel/loader.c
-- define alike. A program is a process that puts and gets bytes; `uart_getc` and `read` wait for a byte.
pub mod Net
pub mod Word
pub mod Exchange
pub mod Always
use mathlib.Core.Path.{fun_ext}
use simple_pi_os.Prelude.{Panic, ap, bit_and, bit_or, refl, u32, ℕ, ◌<<<◌, ◌>>>◌, ◌≡◌}

pub data Proc {ℓ} (A : Type ℓ) : Type ℓ where
  done : A → Proc A
  stop : Panic → Proc A
  put : ℕ → Proc A → Proc A
  get : (ℕ → Proc A) → Proc A

abbrev pub bind {ℓ κ} : {A : Type ℓ} {B : Type κ} → Proc A → (A → Proc B) → Proc B
bind (done a) next = next a
bind (stop e) next = stop e
bind (put b p) next = put b (bind p next)
bind (get k) next = get λ b. bind (k b) next

infixl 5 ◌>>=◌ ◌>>◌
abbrev pub ◌>>=◌ {ℓ κ} : {A : Type ℓ} {B : Type κ} → Proc A → (A → Proc B) → Proc B
◌>>=◌ = bind

abbrev pub ◌>>◌ {ℓ} : {B : Type ℓ} → Proc (Unit {0}) → Proc B → Proc B
p >> rest = bind p λ _. rest

unfoldable pub send_byte : ℕ → Proc (Unit {0})
send_byte b = put b (done tt)

unfoldable pub get_byte : Proc ℕ
get_byte = get done

unfoldable pub get_uint : Proc ℕ
unfolding get_byte
get_uint = do
  u ← get_byte
  b ← get_byte
  let u = bit_or u (u32 (b <<< 8))
  b ← get_byte
  let u = bit_or u (u32 (b <<< 16))
  b ← get_byte
  let u = bit_or u (u32 (b <<< 24))
  done u

unfoldable pub put_uint : ℕ → Proc (Unit {0})
unfolding send_byte
put_uint u = do
  send_byte (bit_and (u >>> 0) 0xff)
  send_byte (bit_and (u >>> 8) 0xff)
  send_byte (bit_and (u >>> 16) 0xff)
  send_byte (bit_and (u >>> 24) 0xff)

pub bind_assoc {ℓ κ μ} :
    {A : Type ℓ} {B : Type κ} {C : Type μ} (p : Proc A) (f : A → Proc B) (g : B → Proc C)
    → bind (bind p f) g ≡ bind p (λ a. bind (f a) g)
bind_assoc (done a) f g = refl
bind_assoc (stop e) f g = refl
bind_assoc (put b p) f g = ap (put b) (bind_assoc p f g)
bind_assoc (get k) f g = ap get (fun_ext (λ b. bind_assoc (k b) f g))

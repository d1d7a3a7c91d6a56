-- ===== src/Boot/Accept.antt =====
-- What the bootloader accepts, whatever the other side of the line sends.
use simple_pi_os.Prelude.{
  !=→eq, Bool-cases, arith, if◌then◌else◌, inl, inr, ltb, out_of_fuel, refl, suc, u32, zero, ℕ,
  ◌!=◌, ◌*◌, ◌+◌, ◌/◌, ◌<◌, ◌^◌, ◌∙◌, ◌≡◌, ◌⊎◌,
}
use simple_pi_os.Boot.{ack, nak, armbase, echo_header, receive_body, check_image}
use simple_pi_os.Wire.{Proc, stop}
use simple_pi_os.Wire.Word.{word_of}
use simple_pi_os.Boot.{eot}
use simple_pi_os.Crc32.{crc32}
use simple_pi_os.Image.{receive_words}
use simple_pi_os.Ram.{Ram, put32, read_bytes, put_bytes-below}
use simple_pi_os.Wire.{stop, done, put_uint, send_byte, get_uint, get_byte, ◌>>=◌}
use simple_pi_os.Wire.Always.{Always-if, Always, Always-bind}

-- Memory below `ARMBASE` is as it was.
KeepsLow : (before after : Ram) → Type 0
KeepsLow before after = (i : ℕ) → i < armbase → after i ≡ before i

receive_words-KeepsLow :
    (start : Ram) (fuel i size : ℕ) (ram : Ram)
    → i + 4 * fuel + armbase < 2 ^ 32
    → KeepsLow start ram
    → Always (KeepsLow start) (receive_words armbase fuel i size ram)
unfolding receive_words KeepsLow get_uint get_byte put32
receive_words-KeepsLow start zero i size ram b h =
    Always-if (KeepsLow start) (ltb i size) (stop out_of_fuel) (done ram) tt h
receive_words-KeepsLow start (suc fuel) i size ram b h =
    let next : u32 (i + 4) ≡ i + 4 = omega arith in
    let at : u32 (armbase + i) ≡ armbase + i = omega arith in
    rw (next, at)
      (Always-if (KeepsLow start) (ltb i size)
        (get_uint >>= λ w. receive_words armbase fuel (i + 4) size (put32 (armbase + i) w ram))
        (done ram)
        (λ b₀ b₁ b₂ b₃.
          receive_words-KeepsLow start fuel (i + 4) size _ (omega arith)
            (λ j below. put_bytes-below (armbase + i) _ ram j (omega arith) ∙ h j below))
        h)

-- After the header: the image is refused, or it is accepted and what lies in memory has the checksum
-- that the header announced; memory below `ARMBASE` is as it was in both cases.
abbrev pub IsHonest : (size code_checksum : ℕ) → Ram → ℕ × Ram → Type 0
IsHonest size code_checksum before (reply, after) =
    ((reply ≡ nak) ⊎ ((reply ≡ ack) × (crc32 (read_bytes armbase size after) ≡ code_checksum)))
    × ((i : ℕ) → i < armbase → after i ≡ before i)

checked : (size sum : ℕ) → Ram → Proc (ℕ × Ram)
checked size sum ram =
    if crc32 (read_bytes armbase size ram) != sum then done (nak, ram) else done (ack, ram)

checked-IsHonest :
    (size sum : ℕ) (start ram : Ram)
    → KeepsLow start ram
    → Always (IsHonest size sum start) (checked size sum ram)
unfolding checked KeepsLow
checked-IsHonest size sum start ram h =
    elim (Bool-cases (crc32 (read_bytes armbase size ram) != sum)) [
      | inl bad ↦ rw bad (inl refl, h)
      | inr good ↦ rw good (inr (refl, !=→eq (crc32 (read_bytes armbase size ram)) sum good), h)
    ]

check_image-IsHonest :
    (size sum : ℕ) (start ram : Ram)
    → KeepsLow start ram
    → Always (IsHonest size sum start) (check_image size sum ram)
unfolding check_image get_uint get_byte KeepsLow checked word_of
check_image-IsHonest size sum start ram h = λ b₀ b₁ b₂ b₃.
    Always-if (IsHonest size sum start) (word_of b₀ b₁ b₂ b₃ != eot) (done (nak, ram))
      (checked size sum ram) (inl refl, h) (checked-IsHonest size sum start ram h)

-- Whatever the other side sends after the size and the checksum, the bootloader replies NAK, or it
-- replies ACK and the bytes in memory have that checksum; memory below `ARMBASE` is not written. The
-- image ends at least four bytes below 2^32.
pub echo_header-IsHonest :
    (size code_checksum : ℕ) (ram : Ram)
    → armbase + size + 4 < 2 ^ 32
    → Always (IsHonest size code_checksum ram) (echo_header size code_checksum ram)
unfolding word_of echo_header receive_body get_uint get_byte put_uint send_byte KeepsLow
echo_header-IsHonest size sum ram b = λ b₀ b₁ b₂ b₃.
    Always-if (IsHonest size sum ram) (word_of b₀ b₁ b₂ b₃ != ack) (done (nak, ram))
      (receive_words armbase (size / 4 + 1) 0 size ram >>= check_image size sum)
      (inl refl, λ i h. refl)
      (Always-bind (KeepsLow ram) (IsHonest size sum ram)
        (receive_words armbase (size / 4 + 1) 0 size ram) (check_image size sum)
        (receive_words-KeepsLow ram (size / 4 + 1) 0 size ram (omega arith) (λ i h. refl))
        (λ after h. check_image-IsHonest size sum ram after h))

-- ===== src/Loader/Transfer.antt =====
-- What the host's shell and the loader do together.
use simple_pi_os.Prelude.{
  !=_refl, List, [], ap₂, arith, false, get_elem?, get_or, if◌then◌else◌, length, length-append,
  length-replicate, ltb, panicked, refl, replicate, some, subst, suc, u32, zero, ℕ, ◌!=◌, ◌%◌, ◌*◌,
  ◌++◌, ◌+◌, ◌-◌, ◌/◌, ◌<◌, ◌^◌, ◌||◌, ◌∷◌, ◌≡◌, ◌≢◌, ◌≤◌, ◌⊎◌,
}
use simple_pi_os.Boot.{eot, nak}
use simple_pi_os.Image.Cross.{words-flatten, length-words, words_cross}
use simple_pi_os.Ram.{put_bytes, read_bytes, read_bytes-put_bytes}
use simple_pi_os.Wire.Net.{Net, Runs, Reaches-Ends}
use simple_pi_os.Loader.{
  check_code, protocol_version, last_used_addresses, max_address, refuse, read_file,
}
use simple_pi_os.Boot.{ack, nak, eot}
use simple_pi_os.Crc32.{crc32}
use simple_pi_os.Crc32.Bound.{crc32-bound}
use simple_pi_os.Image.{put_words, words}
use simple_pi_os.Image.Cross.{
  AreBytes, flatten, AreWords, words-flatten, words-AreWords, length-words, words_cross,
}
use simple_pi_os.Loader.{
  protocol_version, last_used_addresses, max_address, refuse, check_code, load_body, load_code,
  read_file, expect_val, send_code, send_prog, code_word,
}
use simple_pi_os.Ram.{Ram, put_bytes, read_bytes, read_bytes-put_bytes}
use simple_pi_os.Wire.{Proc, done, stop, put_uint, send_byte, get_uint, get_byte, ◌>>=◌, ◌>>◌}
use simple_pi_os.Wire.Exchange.{host_sends, pi_sends}
use simple_pi_os.Wire.Net.{Reaches, net, ◌then_run◌}

replicate-AreBytes : (n : ℕ) → AreBytes (replicate n 0)
replicate-AreBytes zero = tt
replicate-AreBytes (suc n) = (omega arith, replicate-AreBytes n)

append-AreBytes : (xs ys : List ℕ) → AreBytes xs → AreBytes ys → AreBytes (xs ++ ys)
append-AreBytes [] ys h k = k
append-AreBytes (x ∷ xs) ys (hx, h) k = (hx, append-AreBytes xs ys h k)

-- What is sent is bytes, and whole words of them.
pub read_file-AreBytes : (file : List ℕ) → AreBytes file → AreBytes (read_file file)
unfolding read_file
read_file-AreBytes file h =
    append-AreBytes file _ h (replicate-AreBytes ((length file + 3) / 4 * 4 - length file))

pub length-read_file : (file : List ℕ) → length (read_file file) ≡ (length file + 3) / 4 * 4
unfolding read_file
length-read_file file = omega (
  arith,
  length-append file (replicate ((length file + 3) / 4 * 4 - length file) 0),
  length-replicate {A = ℕ} ((length file + 3) / 4 * 4 - length file),
)

get_or-word : (ws : List ℕ) (i : ℕ) → AreWords ws → get_or ws i 0 < 2 ^ 32
get_or-word [] i h = omega arith
get_or-word (w ∷ ws) zero h = h.0
get_or-word (w ∷ ws) (suc i) h = get_or-word ws i h.1

module _ {ℓ κ} {A : Type ℓ} {B : Type κ} where
  valued :
      (v : ℕ) (h : Proc A) (p : Proc B) (q : List ℕ)
      → v < 2 ^ 32
      → Reaches (net (expect_val v >> h) (put_uint v >> p) q []) (net h p q [])
  unfolding expect_val get_uint get_byte put_uint send_byte
  valued v h p q b =
      subst
        (λ t.
          Reaches (net (expect_val v >> h) (put_uint v >> p) q [])
            (net ((if t then stop panicked else done tt) >> h) p q []))
        (!=_refl v) (pi_sends v (λ x. (if v != x then stop panicked else done tt) >> h) p q b)

-- The first two words of a program are its version and its address.
abbrev pub version_of : List ℕ → ℕ
version_of code = get_or (words code) 0 0

abbrev pub address_of : List ℕ → ℕ
address_of code = get_or (words code) 1 0

get_elem?-get_or : (ws : List ℕ) (i : ℕ) → i < length ws → get_elem? ws i ≡ some (get_or ws i 0)
get_elem?-get_or [] i h = absurd (omega arith)
get_elem?-get_or (w ∷ ws) zero h = refl
get_elem?-get_or (w ∷ ws) (suc i) h = get_elem?-get_or ws i (omega arith)

-- A word that is not zero is in the array.
get_or-inside : (ws : List ℕ) (i : ℕ) → get_or ws i 0 ≢ 0 → i < length ws
get_or-inside [] i h = absurd (h refl)
get_or-inside (w ∷ ws) zero h = omega arith
get_or-inside (w ∷ ws) (suc i) h = omega (arith, get_or-inside ws i h)

code_word-some :
    (code : List ℕ) (i : ℕ)
    → i < length (words code)
    → code_word code i ≡ done (get_or (words code) i 0)
unfolding code_word
code_word-some code i h = rw (code_word, get_elem?-get_or (words code) i h) refl

module _ (code : List ℕ) (ram : Ram) (bytes : AreBytes code) where
  version : ℕ
  version = version_of code

  addr : ℕ
  addr = address_of code

  size : ℕ
  size = length code

  sum : ℕ
  sum = crc32 code

  body : Proc (Unit {0})
  body = do expect_val ack; put_words (words code); put_uint eot; expect_val ack

  header_cross :
      size < 2 ^ 32
      → 1 < length (words code)
      → Reaches
          (net (send_code code) (load_code ram) [] [])
          (net body (load_body version addr size sum ram) [] [])
  unfolding send_code expect_val get_uint get_byte put_uint send_byte load_code body version addr
      size sum
  header_cross b two =
      let all = words-AreWords code bytes in
      rw (code_word-some code 0 (omega (arith, two)), code_word-some code 1 two)
        (valued ack _ _ [] (omega arith)
          then_run host_sends version _
              (λ v. get_uint >>= λ a. get_uint >>= λ n. get_uint >>= λ c. load_body v a n c ram) []
              (get_or-word (words code) 0 all)
          then_run host_sends addr _
              (λ a. get_uint >>= λ n. get_uint >>= λ c. load_body version a n c ram) []
              (get_or-word (words code) 1 all)
          then_run host_sends size _ (λ n. get_uint >>= λ c. load_body version addr n c ram) [] b
          then_run host_sends sum _ (λ c. load_body version addr size c ram) [] (crc32-bound code))

  loaded : Ram
  loaded = put_bytes addr code ram

  -- The checks pass: the body is received, and its checksum holds.
  body_cross :
      size % 4 ≡ 0
      → version ≡ protocol_version
      → last_used_addresses ≤ addr
      → addr + size ≤ max_address
      → Reaches
          (net body (load_body version addr size sum ram) [] [])
          (net (done tt) (done (addr + 8, loaded)) [] [])
  unfolding body load_body expect_val get_uint get_byte put_uint send_byte loaded check_code size
      sum
  body_cross whole v low high =
      let n = length-words code whole in
      let v_ok : (version != protocol_version) ≡ false = ground arith in
      let a_ok : (ltb addr last_used_addresses || ltb max_address (u32 (addr + size))) ≡ false =
        ground arith in
      let stored : put_bytes (addr + 0) (flatten (words code)) ram ≡ loaded =
        ap₂ (λ a bs. put_bytes a bs ram) (omega arith) (words-flatten code bytes whole) in
      let entry : u32 (addr + 8) ≡ addr + 8 = omega arith in
      rw (v_ok, a_ok, whole)
        (valued ack _ _ [] (omega arith)
          then_run words_cross addr (words code) (size / 4 + 1) 0 size ram
              (put_uint eot >> expect_val ack) (check_code addr size sum) []
              (words-AreWords code bytes) (omega (arith, n)) (omega (arith, n)) (omega arith)
          then_run rw stored (
              host_sends eot (expect_val ack)
                (λ e.
                  if e != eot
                  then refuse loaded
                  else if crc32 (read_bytes addr size loaded) != sum
                  then refuse loaded
                  else (put_uint ack >> done (u32 (addr + 8), loaded)))
                [] (omega arith)
              then_run rw (read_bytes-put_bytes addr code ram, !=_refl (crc32 code), entry)
                  (pi_sends ack (λ got. if ack != got then stop panicked else done tt)
                    (done (addr + 8, loaded)) [] (omega arith))))

  load_body-refused :
      (version ≢ protocol_version)
        ⊎ ((addr < last_used_addresses) ⊎ (max_address < u32 (addr + size)))
      → load_body version addr size sum ram ≡ refuse ram
  unfolding load_body
  load_body-refused bad = ground arith

  -- The checks fail: nothing is stored, and the host gives up.
  refused_cross :
      (version ≢ protocol_version)
        ⊎ ((addr < last_used_addresses) ⊎ (max_address < u32 (addr + size)))
      → Reaches
          (net body (load_body version addr size sum ram) [] [])
          (net (stop panicked) (done (0, ram)) [] [])
  unfolding body load_body expect_val get_uint get_byte put_uint send_byte refuse
  refused_cross bad = rw (load_body-refused bad) (
      pi_sends nak
        (λ got.
          (if ack != got then stop panicked else done tt)
          >> (put_words (words code) >> (put_uint eot >> expect_val ack)))
        (done (0, ram)) [] (omega arith))

whole_file : (file : List ℕ) → length (read_file file) % 4 ≡ 0
whole_file file = omega (arith, length-read_file file)

-- A file that fits and names this protocol and an address in the range for programs is loaded: in
-- whatever order the two sides take their steps, every run goes on to the state in which the host has
-- seen the last acknowledgement, memory holds the file, filled up to whole words, at its address and is
-- otherwise as it was, and the loader has returned the address behind the header of 8 bytes.
pub load_delivers :
    (file : List ℕ) (ram : Ram) (steps : ℕ) (x : Net (Unit {0}) (ℕ × Ram))
    → AreBytes file
    → version_of (read_file file) ≡ protocol_version
    → last_used_addresses ≤ address_of (read_file file)
    → address_of (read_file file) + length (read_file file) ≤ max_address
    → Runs x steps (net (send_prog file) (load_code ram) [] [])
    → Reaches x (
        net
          (done tt)
          (done (
            address_of (read_file file) + 8,
            put_bytes (address_of (read_file file)) (read_file file) ram,
          ))
          []
          [])
unfolding send_prog version addr size sum loaded
load_delivers file ram steps x bytes v low high run =
    let code = read_file file in
    let all = read_file-AreBytes file bytes in
    let end =
      net (done tt) (done (address_of code + 8, put_bytes (address_of code) code ram)) [] [] in
    let start : Reaches (net (send_prog file) (load_code ram) [] []) end = rw (whole_file file) (
      header_cross code ram all (omega arith)
        (get_or-inside (words code) 1 (λ e. absurd (omega (arith, low, e))))
      then_run body_cross code ram all (whole_file file) v low high) in
    let rest = (Reaches-Ends _ end (refl, refl) start).2 steps x run in (rest.0, rest.2)

-- A file of more than four bytes with another version, an address below the range, or an end that lies above it after the wrap
-- at 32 bits is refused: every run goes on to the state in which memory is as it was, the loader has
-- returned 0, the host has given up, and nothing is left on the line.
pub load_refuses :
    (file : List ℕ) (ram : Ram) (steps : ℕ) (x : Net (Unit {0}) (ℕ × Ram))
    → AreBytes file
    → 4 < length file
    → length (read_file file) < 2 ^ 32
    → (version_of (read_file file) ≢ protocol_version)
      ⊎ ((address_of (read_file file) < last_used_addresses)
          ⊎ (max_address < u32 (address_of (read_file file) + length (read_file file))))
    → Runs x steps (net (send_prog file) (load_code ram) [] [])
    → Reaches x (net (stop panicked) (done (0, ram)) [] [])
unfolding send_prog version addr size sum
load_refuses file ram steps x bytes long short bad run =
    let code = read_file file in
    let all = read_file-AreBytes file bytes in
    let end = net (stop panicked) (done (0, ram)) [] [] in
    let start : Reaches (net (send_prog file) (load_code ram) [] []) end = rw (whole_file file) (
      header_cross code ram all short
        (omega (arith, length-words code (whole_file file), length-read_file file, long))
      then_run refused_cross code ram all bad) in
    let rest = (Reaches-Ends _ end (refl, refl) start).2 steps x run in (rest.0, rest.2)

-- ===== src/Boot/Transfer.antt =====
-- What the two sides of the boot protocol do together.
use simple_pi_os.Prelude.{
  !=_refl, List, [], arith, if◌then◌else◌, length, panicked, refl, subst, suc, ℕ, ◌!=◌, ◌%◌, ◌+◌,
  ◌/◌, ◌<◌, ◌^◌, ◌≡◌,
}
use simple_pi_os.Boot.{
  soh, ack, nak, eot, armbase, check_image, receive_body, receive_header, echo_header,
  receive_image, expect, simple_boot,
}
use simple_pi_os.Image.Cross.{AreBytes}
use simple_pi_os.Image.Cross.{words-flatten, words-AreWords, length-words, words_cross}
use simple_pi_os.Wire.{bind_assoc}
use simple_pi_os.Wire.Net.{Runs, Net, here, Ends, Reaches-Ends}
use simple_pi_os.Ram.{put_bytes, read_bytes, read_bytes-put_bytes}
use simple_pi_os.Boot.{eot, boot_loop}
use simple_pi_os.Image.{receive_words, put_words, words}
use simple_pi_os.Crc32.{crc32}
use simple_pi_os.Crc32.Bound.{crc32-bound}
use simple_pi_os.Wire.{Proc, stop, done, put_uint, send_byte, get_uint, get_byte, ◌>>=◌, ◌>>◌}
use simple_pi_os.Wire.Net.{net, Reaches, ◌then_run◌}
use simple_pi_os.Wire.Exchange.{host_sends, pi_sends}
use simple_pi_os.Wire.Word.{word_bytes}
use simple_pi_os.Ram.{Ram}

module _ {ℓ κ} {A : Type ℓ} {B : Type κ} where
  -- A value that is expected and comes.
  expected :
      (v : ℕ) (h : Proc A) (p : Proc B) (q : List ℕ)
      → v < 2 ^ 32
      → Reaches (net (expect v >> h) (put_uint v >> p) q []) (net h p q [])
  unfolding expect get_uint get_byte put_uint send_byte
  expected v h p q b =
      subst
        (λ t.
          Reaches (net (expect v >> h) (put_uint v >> p) q [])
            (net ((if t then (put_uint nak >> stop panicked) else done tt) >> h) p q []))
        (!=_refl v)
        (pi_sends v (λ x. (if x != v then (put_uint nak >> stop panicked) else done tt) >> h) p q b)

module _ {κ} {B : Type κ} (buf : List ℕ) (ram : Ram) (bytes : AreBytes buf)
    (whole : length buf % 4 ≡ 0) (fits : armbase + length buf < 2 ^ 32) (p : ℕ × Ram → Proc B) where
  sum : ℕ
  sum = crc32 buf

  size : ℕ
  size = length buf

  body : Proc (Unit {0})
  body = put_words (words buf) >> (put_uint eot >> expect ack)

  header_cross : Reaches (net (simple_boot buf) (receive_image ram >>= p) [] []) (
      net body
        (receive_words armbase (size / 4 + 1) 0 size ram >>= check_image size sum >>= p)
        []
        [])
  unfolding simple_boot expect get_uint get_byte put_uint send_byte receive_image receive_header
      echo_header receive_body body sum size
  header_cross = rw (whole) (
      host_sends soh _
        (λ start. (if start != soh then done (nak, ram) else receive_header ram) >>= p) []
        (omega arith)
      then_run host_sends size _ (λ n. get_uint >>= λ c. echo_header n c ram >>= p) [] (omega arith)
      then_run host_sends sum _ (λ c. echo_header size c ram >>= p) [] (crc32-bound buf)
      then_run expected soh _ _ [] (omega arith)
      then_run expected (crc32 (word_bytes size)) _ _ [] (crc32-bound (word_bytes size))
      then_run expected sum _ _ [] (crc32-bound buf)
      then_run host_sends ack _ (λ reply. receive_body size sum reply ram >>= p) [] (omega arith))

  loaded : Ram
  loaded = put_bytes armbase buf ram

  body_cross :
      Reaches
        (net body
          (receive_words armbase (size / 4 + 1) 0 size ram >>= check_image size sum >>= p)
          []
          [])
        (net (expect ack) (p (ack, loaded)) [] [])
  unfolding body size sum loaded check_image get_uint get_byte put_uint send_byte
  body_cross =
      let n = length-words buf whole in
      rw (bind_assoc (receive_words armbase (size / 4 + 1) 0 size ram) (check_image size sum) p) (
        words_cross armbase (words buf) (size / 4 + 1) 0 size ram (put_uint eot >> expect ack)
          (λ m. check_image size sum m >>= p) [] (words-AreWords buf bytes) (omega (arith, n))
          (omega (arith, n)) fits
        then_run rw (words-flatten buf bytes whole) (
            host_sends eot (expect ack)
              (λ e.
                (if e != eot
                  then done (nak, loaded)
                  else if crc32 (read_bytes armbase size loaded) != sum
                  then done (nak, loaded)
                  else done (ack, loaded))
                >>= p)
              [] (omega arith)
            then_run rw (read_bytes-put_bytes armbase buf ram, !=_refl (crc32 buf)) (0, here)))

boot-Ends :
    (buf : List ℕ) (ram : Ram) (attempts : ℕ)
    → AreBytes buf
    → length buf % 4 ≡ 0
    → armbase + length buf < 2 ^ 32
    → Ends
        (net (simple_boot buf) (boot_loop (suc attempts) ram) [] [])
        (net (done tt) (done (put_bytes armbase buf ram)) [] [])
unfolding body loaded size sum boot_loop expect put_uint send_byte get_uint get_byte
boot-Ends buf ram attempts bytes whole fits =
    let answer : ℕ × Ram → Proc Ram =
      λ got. put_uint got.0 >> (if got.0 != ack then boot_loop attempts got.1 else done got.1) in
    Reaches-Ends (net (simple_boot buf) (boot_loop (suc attempts) ram) [] [])
      (net (done tt) (done (put_bytes armbase buf ram)) [] []) (refl, refl)
      (header_cross buf ram bytes whole fits answer
        then_run body_cross buf ram bytes whole fits answer
        then_run pi_sends ack (λ x. if x != ack then (put_uint nak >> stop panicked) else done tt)
            (done (put_bytes armbase buf ram)) [] (omega arith))

-- An image of whole words, sent by the host to a bootloader that has an attempt left, arrives: in
-- whatever order the two sides take their steps, every run goes on to the state in which the host has
-- seen the acknowledgement, the bootloader has left its loop with the image in memory from `ARMBASE`
-- on and the rest of memory as it was, and no byte is left on the line. The image ends below 2^32.
pub boot_delivers :
    (buf : List ℕ) (ram : Ram) (attempts : ℕ) (steps : ℕ) (x : Net (Unit {0}) Ram)
    → AreBytes buf
    → length buf % 4 ≡ 0
    → armbase + length buf < 2 ^ 32
    → Runs x steps (net (simple_boot buf) (boot_loop (suc attempts) ram) [] [])
    → Reaches x (net (done tt) (done (put_bytes armbase buf ram)) [] [])
boot_delivers buf ram attempts steps x bytes whole fits run =
    let rest = (boot-Ends buf ram attempts bytes whole fits).2 steps x run in (rest.0, rest.2)

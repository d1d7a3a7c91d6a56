-- ===== src/Boot.antt =====
-- The bootloader: `receive_image` and `notmain` of pi-side/bootloader/bootloader.c on the Pi, and
-- `expect` and `simple_boot` of unix-side/support/simple-boot.c on the host.
pub mod Transfer
pub mod Accept
use simple_pi_os.Prelude.{
  List, if◌then◌else◌, length, out_of_fuel, panicked, suc, zero, ℕ, ◌!=◌, ◌%◌, ◌+◌, ◌/◌,
}
use simple_pi_os.Image.{receive_words, put_words, words}
use simple_pi_os.Crc32.{crc32}
use simple_pi_os.Wire.{Proc, done, stop, get_uint, put_uint, ◌>>=◌, ◌>>◌}
use simple_pi_os.Wire.Word.{word_bytes, word_of}
use simple_pi_os.Ram.{Ram, put32, read_bytes}

abbrev pub armbase : ℕ
armbase = 0x8000

abbrev pub soh : ℕ
soh = 0x1234_5678

abbrev pub ack : ℕ
ack = 5

abbrev pub nak : ℕ
nak = 6

abbrev pub eot : ℕ
eot = 7

-- After the words: the end of the transmission and the checksum of what is in memory.
unfoldable pub check_image : (size code_checksum : ℕ) → Ram → Proc (ℕ × Ram)
check_image size code_checksum ram = do
  e ← get_uint
  if e != eot
      then done (nak, ram)
      else if crc32 (read_bytes armbase size ram) != code_checksum
      then done (nak, ram)
      else done (ack, ram)

-- The reply to the header: the words follow it only if the host acknowledges what was echoed.
unfoldable pub receive_body : (size code_checksum reply : ℕ) → Ram → Proc (ℕ × Ram)
receive_body size code_checksum reply ram =
    if reply != ack
    then done (nak, ram)
    else (receive_words armbase (size / 4 + 1) 0 size ram >>= check_image size code_checksum)

-- The header is echoed, with the checksum of the size in place of the size.
unfoldable pub echo_header : (size code_checksum : ℕ) → Ram → Proc (ℕ × Ram)
echo_header size code_checksum ram = do
  put_uint soh
  put_uint (crc32 (word_bytes size))
  put_uint code_checksum
  reply ← get_uint
  receive_body size code_checksum reply ram

unfoldable pub receive_header : Ram → Proc (ℕ × Ram)
receive_header ram = do
  size ← get_uint
  code_checksum ← get_uint
  echo_header size code_checksum ram

unfoldable pub receive_image : Ram → Proc (ℕ × Ram)
receive_image ram = do
  start ← get_uint
  if start != soh then done (nak, ram) else receive_header ram

-- Images are asked for until one is accepted; the code at `ARMBASE` then runs. The fuel bounds the
-- attempts.
unfoldable pub boot_loop : (attempts : ℕ) → Ram → Proc Ram
boot_loop zero ram = stop out_of_fuel
boot_loop (suc n) ram = do
  got ← receive_image ram
  put_uint got.0
  if got.0 != ack then boot_loop n got.1 else done got.1

unfoldable pub expect : ℕ → Proc (Unit {0})
expect v = do x ← get_uint; if x != v then (put_uint nak >> stop panicked) else done tt

unfoldable pub simple_boot : List ℕ → Proc (Unit {0})
simple_boot buf =
    let n = length buf in
    if n % 4 != 0 then stop panicked else do
      put_uint soh
      put_uint n
      put_uint (crc32 buf)
      expect soh
      expect (crc32 (word_bytes n))
      expect (crc32 buf)
      put_uint ack
      put_words (words buf)
      put_uint eot
      expect ack

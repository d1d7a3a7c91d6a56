-- ===== src/Loader.antt =====
-- Programs loaded from the host's shell: `load_code` of pi-side/kernel/loader.c on the Pi, and
-- `expect_val` and `send_prog` of unix-side/shell/shell.c with `read_file` of
-- unix-side/support/support.c on the host. Memory is taken as bytes at the addresses that the kernel uses.
pub mod Transfer
use simple_pi_os.Prelude.{
  List, asserted, fault, get_elem?, if◌then◌else◌, length, ltb, none, panicked, replicate, some,
  u32, ℕ, ◌!=◌, ◌%◌, ◌*◌, ◌++◌, ◌+◌, ◌-◌, ◌/◌, ◌==◌, ◌||◌,
}
use simple_pi_os.Crc32.{crc32}
use simple_pi_os.Boot.{ack, nak, eot}
use simple_pi_os.Image.{receive_words, put_words, words}
use simple_pi_os.Wire.{Proc, done, stop, get_uint, put_uint, ◌>>=◌, ◌>>◌}
use simple_pi_os.Ram.{Ram, read_bytes}

abbrev pub last_used_addresses : ℕ
last_used_addresses = 0x900_0000

abbrev pub max_address : ℕ
max_address = 0x1600_0000

abbrev pub protocol_version : ℕ
protocol_version = 2

-- A refusal: the reply and address 0.
unfoldable pub refuse : Ram → Proc (ℕ × Ram)
refuse ram = put_uint nak >> done (0, ram)

unfoldable pub check_code : (addr nbytes checksum : ℕ) → Ram → Proc (ℕ × Ram)
check_code addr nbytes checksum ram = do
  e ← get_uint
  if e != eot
      then refuse ram
      else if crc32 (read_bytes addr nbytes ram) != checksum
      then refuse ram
      else (put_uint ack >> done (u32 (addr + 8), ram))

-- The checks before anything is stored; the sum of address and size wraps at 32 bits.
unfoldable pub load_body : (version addr nbytes checksum : ℕ) → Ram → Proc (ℕ × Ram)
load_body version addr nbytes checksum ram =
    if version != protocol_version
    then refuse ram
    else if ltb addr last_used_addresses || ltb max_address (u32 (addr + nbytes))
    then refuse ram
    else if nbytes % 4 != 0
    then refuse ram
    else (put_uint ack
        >> (receive_words addr (nbytes / 4 + 1) 0 nbytes ram >>= check_code addr nbytes checksum))

unfoldable pub load_code : Ram → Proc (ℕ × Ram)
load_code ram = do
  put_uint ack
  version ← get_uint
  addr ← get_uint
  nbytes ← get_uint
  checksum ← get_uint
  load_body version addr nbytes checksum ram

-- The file's bytes, filled up with zeros to whole words
unfoldable pub read_file : List ℕ → List ℕ
read_file file = file ++ replicate ((length file + 3) / 4 * 4 - length file) 0

unfoldable pub expect_val : ℕ → Proc (Unit {0})
expect_val v = do got ← get_uint; if v != got then stop panicked else done tt

-- `code[i]`; the array of words ends with the file.
unfoldable pub code_word : List ℕ → ℕ → Proc ℕ
code_word code i = elim (get_elem? (words code) i) [ none ↦ stop fault | some w ↦ done w ]

unfoldable pub send_code : List ℕ → Proc (Unit {0})
send_code code = do
  expect_val ack
  version ← code_word code 0
  put_uint version
  addr ← code_word code 1
  put_uint addr
  put_uint (length code)
  put_uint (crc32 code)
  expect_val ack
  put_words (words code)
  put_uint eot
  expect_val ack

unfoldable pub send_prog : List ℕ → Proc (Unit {0})
send_prog file =
    let code = read_file file in if length code % 4 == 0 then send_code code else stop asserted

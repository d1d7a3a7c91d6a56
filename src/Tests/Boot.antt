-- ===== src/Tests/Boot.antt =====
-- Concrete runs of the checksum, the boot protocol and the loader.
use simple_pi_os.Prelude.{
  All, List, [], arith, false, inl, length, ltb, panicked, refl, u32, ℕ, ◌+◌, ◌<◌, ◌||◌, ◌∷◌, ◌≡◌,
}
use simple_pi_os.Boot.{armbase, boot_loop, echo_header, simple_boot}
use simple_pi_os.Boot.Accept.{IsHonest, echo_header-IsHonest}
use simple_pi_os.Boot.Transfer.{boot_delivers}
use simple_pi_os.Crc32.{crc32, crc32_byte, crc32_loop, crc32_tab}
use simple_pi_os.Crc32.Reference.{crc32-reference, reference}
use simple_pi_os.Image.{words}
use simple_pi_os.Loader.{load_code, send_prog, read_file}
use simple_pi_os.Loader.Transfer.{address_of, load_delivers, load_refuses, version_of}
use simple_pi_os.Ram.{Ram, put_bytes}
use simple_pi_os.Wire.{done, stop}
use simple_pi_os.Wire.Always.{Always}
use simple_pi_os.Wire.Net.{Reaches, here, net}
use simple_pi_os.Wire.Word.{word_of}

-- The check value that the standard gives for the digits 1 to 9
check_digits :
    crc32 (0x31 ∷ 0x32 ∷ 0x33 ∷ 0x34 ∷ 0x35 ∷ 0x36 ∷ 0x37 ∷ 0x38 ∷ 0x39 ∷ []) ≡ 0xcbf4_3926
unfolding crc32 crc32_loop crc32_byte crc32_tab
check_digits = refl

abbrev image : List ℕ
image = 1 ∷ 2 ∷ 3 ∷ 255 ∷ []

image-bytes : All (λ b. b < 256) image
image-bytes = (omega arith, (omega arith, (omega arith, (omega arith, tt))))

abbrev blank : Ram
blank = λ i. 0

crc32-reference_example : crc32 image ≡ reference image
crc32-reference_example = crc32-reference image image-bytes

echo_header-IsHonest_example : Always (IsHonest 4 7 blank) (echo_header 4 7 blank)
echo_header-IsHonest_example = echo_header-IsHonest 4 7 blank (omega arith)

boot_delivers_example :
    Reaches
      (net (simple_boot image) (boot_loop 1 blank) [] [])
      (net (done tt) (done (put_bytes armbase image blank)) [] [])
boot_delivers_example =
    boot_delivers image blank 0 0 (net (simple_boot image) (boot_loop 1 blank) [] []) image-bytes
      refl (omega arith) here

-- Version 2, address 0x9000000, and a byte of code, which three zeros follow
abbrev file : List ℕ
file = 2 ∷ 0 ∷ 0 ∷ 0 ∷ 0 ∷ 0 ∷ 0 ∷ 9 ∷ 1 ∷ []

-- The same for version 3
abbrev other_file : List ℕ
other_file = 3 ∷ 0 ∷ 0 ∷ 0 ∷ 0 ∷ 0 ∷ 0 ∷ 9 ∷ 1 ∷ []

file-bytes : All (λ b. b < 256) file
file-bytes = (
  omega arith,
  (
    omega arith,
    (
      omega arith,
      (omega arith, (omega arith, (omega arith, (omega arith, (omega arith, (omega arith, tt)))))),
    ),
  ),
)

other_file-bytes : All (λ b. b < 256) other_file
other_file-bytes = (
  omega arith,
  (
    omega arith,
    (
      omega arith,
      (omega arith, (omega arith, (omega arith, (omega arith, (omega arith, (omega arith, tt)))))),
    ),
  ),
)

file-version : version_of (read_file file) ≡ 2
unfolding read_file words word_of
file-version = refl

file-address : address_of (read_file file) ≡ 0x900_0000
unfolding read_file words word_of
file-address = refl

other_file-length : length (read_file other_file) ≡ 12
unfolding read_file
other_file-length = refl

file-length : length (read_file file) ≡ 12
unfolding read_file
file-length = refl

other_file-version : version_of (read_file other_file) ≡ 3
unfolding read_file words word_of
other_file-version = refl

load_delivers_example : Reaches (net (send_prog file) (load_code blank) [] []) (
    net
      (done tt)
      (done (
        address_of (read_file file) + 8,
        put_bytes (address_of (read_file file)) (read_file file) blank,
      ))
      []
      [])
load_delivers_example =
    load_delivers file blank 0 (net (send_prog file) (load_code blank) [] []) file-bytes
      file-version (omega (arith, file-address)) (omega (arith, file-address, file-length)) here

load_refuses_example :
    Reaches
      (net (send_prog other_file) (load_code blank) [] [])
      (net (stop panicked) (done (0, blank)) [] [])
load_refuses_example =
    load_refuses other_file blank 0 (net (send_prog other_file) (load_code blank) [] [])
      other_file-bytes (omega arith) (omega (arith, other_file-length))
      (inl λ e. absurd (omega (arith, e, other_file-version))) here

-- The end of a program wraps: 0xfffffff0 and a size of 0x20 pass the check of the range.
range_wraps : (ltb 0xffff_fff0 0x900_0000 || ltb 0x1600_0000 (u32 (0xffff_fff0 + 0x20))) ≡ false
range_wraps = refl

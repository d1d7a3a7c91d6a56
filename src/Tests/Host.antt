-- ===== src/Tests/Host.antt =====
-- The file system of the host on a small directory.
use simple_pi_os.Prelude.{
  List, [], ap, arith, codes, inr, length, none, ok, refl, replicate, some, suc, sym, take, u32,
  zero, ℕ, ◌++◌, ◌∙◌, ◌∷◌, ◌≡◌, ◌≤◌,
}
use simple_pi_os.HostFs.{Heap, File, count, do_echo, perm_rd, perm_rw, perm_wr, has_perm, is_legal}
use simple_pi_os.HostFs.Commands.{console_path, root_entries}
use simple_pi_os.HostFs.Directory.{IsAmple, IsDirectory}
use simple_pi_os.HostFs.Operations.{Fs, pi_read, pi_truncate, prompt, put_file}
use simple_pi_os.HostFs.Refines.{Became, IsOpen, pi_read-contents, pi_truncate-Became}

-- An array is cut, or filled with zeros, to a length.
abbrev resize : List ℕ → ℕ → List ℕ
resize d zero = []
resize [] (suc n) = 0 ∷ resize [] n
resize (x ∷ d) (suc n) = x ∷ resize d n

resize-length : (d : List ℕ) (n : ℕ) → length (resize d n) ≡ n
resize-length d zero = refl
resize-length [] (suc n) = ap suc (resize-length [] n)
resize-length (x ∷ d) (suc n) = ap suc (resize-length d n)

resize-keeps : (d : List ℕ) (n : ℕ) → length d ≤ n → take (length d) (resize d n) ≡ d
resize-keeps [] n h = refl
resize-keeps (x ∷ d) zero h = absurd (omega arith)
resize-keeps (x ∷ d) (suc n) h = ap (λ t. x ∷ t) (resize-keeps d n (omega arith))

some-same : (a b : List ℕ) → some a ≡ some b → a ≡ b
some-same a b h = cc

abbrev heap : Heap
heap = record {
  calloc = λ n. some (replicate n 0);
  realloc = λ d n. some (resize d n);
  calloc-zeros = λ n d e. sym (some-same (replicate n 0) d e);
  realloc-length = λ d e n h. ap length (sym (some-same (resize d n) e h)) ∙ resize-length d n;
  realloc-keeps = λ d e n h less.
      ap (take (length d)) (sym (some-same (resize d n) e h)) ∙ resize-keeps d n less;
}

heap-IsAmple : IsAmple heap
heap-IsAmple = (λ n. (replicate n 0, refl), λ d n. (resize d n, refl))

-- `main` has looked the console up.
abbrev console_file : File
console_file = record { data_at = prompt ++ replicate 8 0; n_alloc = 14; n_data = 6 }

abbrev host : Fs
host = record {
  root = put_file root_entries 3 console_file;
  console = 3;
  sent = [];
  incoming = codes "hi" ++ (prompt ++ codes "x");
}

host-IsDirectory : IsDirectory host.root
host-IsDirectory = (tt, (tt, (tt, ((refl, omega arith), tt))))

abbrev echo_path : List ℕ
echo_path = codes "/echo.cmd"

echo-writable : IsOpen host.root echo_path perm_wr [] (some do_echo)
unfolding has_perm is_legal
echo-writable = record { flags = perm_rw; slash = refl; there = refl; may = refl; grants = refl }

console-readable : IsOpen host.root console_path perm_rd prompt none
unfolding has_perm is_legal
console-readable = record { flags = perm_rd; slash = refl; there = refl; may = refl; grants = refl }

pi_read-contents_example :
    (gs : Fs) × (pi_read heap console_path 3 4 host ≡ ok (inr (u32 2, b'>' ∷ b' ' ∷ []), gs))
    × Became host.root console_path prompt gs.root
pi_read-contents_example =
    pi_read-contents heap heap-IsAmple host console_path prompt 3 4 none host-IsDirectory
      console-readable

pi_truncate-Became_example :
    (gs : Fs) × (pi_truncate heap echo_path 0 host ≡ ok (count 0, gs))
    × Became host.root echo_path [] gs.root
pi_truncate-Became_example =
    pi_truncate-Became heap heap-IsAmple host echo_path [] 0 (some do_echo) host-IsDirectory
      echo-writable

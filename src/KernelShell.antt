-- ===== src/KernelShell.antt =====
-- The shell of the kernel, pi-side/kernel/shell.c: a line from the host, and the command that it gives.
use simple_pi_os.Prelude.{
  Bool, List, Option, Result, [], codes, drop, false, fault, get_or, if◌then◌else◌, length, none,
  ok, panic, panicked, some, suc, true, zero, ℕ, ◌!=◌, ◌&&◌, ◌++◌, ◌==◌, ◌>>=◌, ◌∷◌,
}
use simple_pi_os.Fat32.{Card, Fat32, PiFile, fat32_read_file}
use simple_pi_os.Fat32.Directory.{Dirent}
use simple_pi_os.Fat32.Path.{fat32_read_dir, path_lookup}

-- The characters that come over the line, up to a newline; the result is the line and what is left.
unfoldable pub readline : (sz : ℕ) → List ℕ → Result (List ℕ × List ℕ)
readline zero input = panic panicked
readline (suc sz) [] = panic fault
readline (suc sz) (c ∷ input) =
    if c == b'\n' then ok ([], input) else (readline sz input >>= λ got. ok (c ∷ got.0, got.1))

-- `strncmp(buf, text, strlen(text)) == 0`
unfoldable pub starts : (text buf : List ℕ) → Bool
starts [] buf = true
starts (x ∷ text) [] = false
starts (x ∷ text) (c ∷ buf) = c == x && starts text buf

pub data Command : Type 0 where
  leave : Command
  echo : List ℕ → Command
  reboot : Command
  ls : List ℕ → Command
  cat : List ℕ → Command
  run : List ℕ → Command
  load : Command
  unknown : Command

-- The loop of `notmain` on one line; a string has its zero behind it.
unfoldable pub command : List ℕ → Command
command buf =
    if length buf == 0
    then leave
    else if starts (codes "echo ") buf
    then echo (drop 5 buf)
    else if starts (codes "reboot" ++ (0 ∷ [])) (buf ++ (0 ∷ []))
    then reboot
    else if starts (codes "ls ") buf
    then ls (drop 3 buf)
    else if starts (codes "cat ") buf
    then cat (drop 4 buf)
    else if starts (codes "run ") buf
    then run (drop 4 buf)
    else if starts (codes "load") buf
    then load
    else unknown

-- What a command on a path comes to: a message, nothing, or what it found.
pub data Answer (A : Type 0) : Type 0 where
  not_absolute : Answer A
  nothing : Answer A
  refused : Answer A
  answer : A → Answer A

module _ (card : Card) (fs : Fat32) where
  abbrev pub list_dir : Option Dirent → Result (Answer (List Dirent))
  list_dir d = fat32_read_dir card fs d >>= λ dirs. ok (answer dirs)

  -- `/` lists the root; an entry must be a directory.
  unfoldable pub do_ls : List ℕ → Result (Answer (List Dirent))
  do_ls path =
      if get_or path 0 0 != b'/'
      then ok not_absolute
      else if get_or path 1 0 == 0
      then list_dir none
      else (path_lookup card fs none (drop 1 path) >>= λ found. elim found.0 [
        | none ↦ ok nothing
        | some e ↦ if e.is_dir_p then list_dir (some e) else ok refused
      ])

  -- The file at a path, for `do_read` and `do_run`: both give the same message for a missing entry and for
  -- a directory.
  unfoldable pub file_entry : List ℕ → Result (Answer Dirent)
  file_entry path =
      if get_or path 0 0 != b'/'
      then ok not_absolute
      else if get_or path 1 0 == 0
      then ok nothing
      else (path_lookup card fs none (drop 1 path) >>= λ found. elim found.0 [
        | none ↦ ok refused
        | some e ↦ if e.is_dir_p then ok refused else ok (answer e)
      ])

  unfoldable pub do_read : List ℕ → Result (Answer PiFile)
  do_read path = file_entry path >>= λ found. elim found [
    | not_absolute ↦ ok not_absolute
    | nothing ↦ ok nothing
    | refused ↦ ok refused
    | answer e ↦ (fat32_read_file card fs e.cluster_id e.nbytes >>= λ file. ok (answer file))
  ]

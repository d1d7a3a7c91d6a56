-- ===== src/HostFs/Commands.antt =====
-- The files of the directory in unix-side/fs/fs.c: a write to one of the command files runs its command on the Pi.
use simple_pi_os.Prelude.{List, [], codes, none, some, u32, ℕ, ◌++◌, ◌∷◌, ◌≡◌, ◌≢◌, ◌⊎◌}
use simple_pi_os.HostFs.{
  Heap, Entry, Handler, Reply, do_echo, do_reboot, do_run, count, exited, perm_rd, perm_rw,
}
use simple_pi_os.HostFs.Operations.{prompt, Fs, fd_puts}
use simple_pi_os.HostFs.Directory.{contents, rights, IsDirectory, IsAmple}

abbrev pub console_path : List ℕ
console_path = codes "/console"

-- `root`
abbrev pub root_entries : List Entry
root_entries =
    record { name = codes "/echo.cmd"; flags = perm_rw; f = none; on_wr = some do_echo }
    ∷ (record { name = codes "/reboot.cmd"; flags = perm_rw; f = none; on_wr = some do_reboot }
        ∷ (record { name = codes "/run.cmd"; flags = perm_rw; f = none; on_wr = some do_run }
            ∷ (record { name = console_path; flags = perm_rd; f = none; on_wr = none } ∷ [])))

-- What a command sends to the Pi for the text that was written
abbrev pub asked : Handler → List ℕ → List ℕ
asked do_reboot text = codes "reboot" ++ (b'\n' ∷ [])
asked do_echo text = codes "echo " ++ (text ++ (b'\n' ∷ []))
asked do_run text = text ++ (b'\n' ∷ [])

abbrev pub replied : Handler → ℕ → Reply
replied do_reboot size = exited
replied do_echo size = count (u32 size)
replied do_run size = count (u32 size)

-- What a command does: it sends its text, and what the Pi answers is the new end of the console.
pub record Ran (fs gs : Fs) (q old request : List ℕ) : Type 0 where
  pub answer : List ℕ
  pub sent : gs.sent ≡ fs.sent ++ request
  pub split : fs.incoming ≡ answer ++ gs.incoming
  pub ends : ((before : List ℕ) × (answer ≡ before ++ prompt)) ⊎ (gs.incoming ≡ [])
  pub console : contents gs.root q ≡ some (old ++ answer)
  pub others : (p : List ℕ) → p ≢ q → contents gs.root p ≡ contents fs.root p
  pub rights_kept : (p : List ℕ) → rights gs.root p ≡ rights fs.root p
  pub kept : IsDirectory gs.root

module _ (h : Heap) (ample : IsAmple h) where
  -- What three writes to the pipe send
  sent_by : (run : Handler) (text : List ℕ) (fs : Fs) → Fs
  sent_by do_reboot text fs = fd_puts (codes "reboot" ++ (b'\n' ∷ [])) fs
  sent_by do_echo text fs = fd_puts (b'\n' ∷ []) (fd_puts text (fd_puts (codes "echo ") fs))
  sent_by do_run text fs = fd_puts (b'\n' ∷ []) (fd_puts text fs)

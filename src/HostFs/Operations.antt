-- ===== src/HostFs/Operations.antt =====
-- The operations of unix-side/fs/fs.c.
use simple_pi_os.Prelude.{
  Bool, List, Option, Result, [], bit_or, drop, fault, if◌then◌else◌, inl, inr, leb, length, ltb,
  map, max, min, none, ok, panic, same_string, some, suc, take, true, u32, zero, ℕ, ◌++◌, ◌+◌, ◌-◌,
  ◌==◌, ◌>>=◌, ◌∷◌, ◌⊎◌,
}
use simple_pi_os.HostFs.{
  Heap, Errno, File, Handler, do_echo, do_reboot, do_run, Entry, Reply, failed, count, exited,
  enoent, enomem, Found, missing, found, perm_rd, perm_wr, u64, flag_to_perm, ent_lookup,
  file_lookup,
}
use simple_pi_os.Matcher.{echo_until_fn}

-- The directory, the place of the console in it, and the two pipes to the Pi: what was written, and what
-- can be read.
pub record Fs : Type 0 where
  pub root : List Entry
  pub console : ℕ
  pub sent : List ℕ
  pub incoming : List ℕ

abbrev pub put_file : List Entry → ℕ → File → List Entry
put_file [] i f = []
put_file (e ∷ es) zero f = record e { f = some f } ∷ es
put_file (e ∷ es) (suc i) f = e ∷ put_file es i f

unfoldable pub file_at : List Entry → ℕ → Result File
file_at [] i = panic fault
file_at (e ∷ es) zero = elim e.f [ none ↦ panic fault | some f ↦ ok f ]
file_at (e ∷ es) (suc i) = file_at es i

unfoldable pub overwrite : (data_at : List ℕ) (offset : ℕ) (bytes : List ℕ) → List ℕ
overwrite data_at offset bytes =
    take offset data_at ++ (bytes ++ drop (offset + length bytes) data_at)

-- `memcpy` into the file, and out of a buffer.
unfoldable pub copy_into : (data_at : List ℕ) (offset : ℕ) (bytes : List ℕ) → Result (List ℕ)
copy_into data_at offset bytes =
    if leb (offset + length bytes) (length data_at)
    then ok (overwrite data_at offset bytes)
    else panic fault

unfoldable pub copy_from : (buf : List ℕ) (offset size : ℕ) → Result (List ℕ)
copy_from buf offset size =
    if leb (offset + size) (length buf) then ok (take size (drop offset buf)) else panic fault

-- A string ends at the first zero.
unfoldable pub c_string : List ℕ → Result (List ℕ)
c_string [] = panic fault
c_string (c ∷ cs) = if c == 0 then ok [] else (c_string cs >>= λ rest. ok (c ∷ rest))

unfoldable pub fd_puts : List ℕ → Fs → Fs
fd_puts msg fs = record fs { sent = fs.sent ++ msg }

abbrev pub prompt : List ℕ
prompt = b'P' ∷ b'I' ∷ b'X' ∷ b':' ∷ b'>' ∷ b' ' ∷ []

pub data Stat : Type 0 where
  dir : (st_mode st_nlink : ℕ) → Stat
  reg : (st_mode st_nlink st_size : ℕ) → Stat
  no_entry : Errno → Stat

unfoldable pub pi_readdir : List ℕ → Fs → Result (Errno ⊎ List (List ℕ))
pi_readdir path fs =
    if same_string path (b'/' ∷ [])
    then ok (inr ((b'.' ∷ []) ∷ ((b'.' ∷ b'.' ∷ []) ∷ map (λ e. drop 1 e.name) fs.root)))
    else ok (inl enoent)

module _ (h : Heap) where
  unfoldable pub pi_open : List ℕ → (flags : ℕ) → Fs → Result (Reply × Fs)
  pi_open path flags fs = do
    perm ← flag_to_perm flags
    got ← file_lookup h fs.root path perm
    let fs = record fs { root = got.1 }
    elim got.0 [ missing e ↦ ok (failed e, fs) | found e ↦ ok (count 0, fs) ]

  unfoldable pub pi_getattr : List ℕ → Fs → Result (Stat × Fs)
  pi_getattr path fs =
      if same_string path (b'/' ∷ [])
      then ok (dir (bit_or 0x4000 0x1ed) 2, fs)
      else (ent_lookup h fs.root path >>= λ got.
          let fs = record fs { root = got.1 } in
          elim got.0 [
            | none ↦ ok (no_entry enoent, fs)
            | some e ↦ ok (reg (bit_or 0x8000 e.entry.flags) 1 e.file.n_data, fs)
          ])

  unfoldable pub read_file : File → (size offset : ℕ) → Result (List ℕ)
  read_file f size offset =
      if ltb f.n_data offset
      then ok []
      else copy_from f.data_at offset (min size (f.n_data - offset))

  -- What is copied to the buffer, with its number as an `int`
  unfoldable pub pi_read : List ℕ → (size offset : ℕ) → Fs → Result ((Errno ⊎ (ℕ × List ℕ)) × Fs)
  pi_read path size offset fs = do
    got ← file_lookup h fs.root path perm_rd
    let fs = record fs { root = got.1 }
    elim got.0 [
      | missing e ↦ ok (inl e, fs)
      | found e ↦
          (read_file e.file size offset >>= λ bytes. ok (inr (u32 (length bytes), bytes), fs))
    ]

  unfoldable pub grown : File → (needed : ℕ) → Option File
  grown f needed =
      if ltb f.n_alloc needed
      then elim (h.realloc f.data_at needed) [
        | none ↦ none
        | some d ↦ some (record f { data_at = d; n_alloc = needed })
      ]
      else some f

  unfoldable pub filled : File → (buf : List ℕ) → (size offset : ℕ) → Result (Reply × File)
  filled f buf size offset = do
    bytes ← copy_from buf 0 size
    d ← copy_into f.data_at offset bytes
    ok (count (u32 size), record f { data_at = d; n_data = max f.n_data (u64 (offset + size)) })

  unfoldable pub append_to_file : File → (buf : List ℕ) → (size offset : ℕ) → Result (Reply × File)
  append_to_file f buf size offset = elim (grown f (u64 (offset + size))) [
    | none ↦ ok (failed enomem, f)
    | some g ↦ filled g buf size offset
  ]

  -- What the append returns is not looked at, nor is the copy on the terminal modelled.
  unfoldable pub wr_console : ℕ → Fs → Result (Bool × Fs)
  wr_console c fs = do
    f ← file_at fs.root fs.console
    put ← append_to_file f (c ∷ []) 1 f.n_data
    ok (true, record fs { root = put_file fs.root fs.console put.1 })

  unfoldable pub wait_prompt : Fs → Result Fs
  wait_prompt fs = do
    heard ← echo_until_fn wr_console prompt fs.incoming fs
    ok (record heard.1.1 { incoming = heard.1.0 })

  -- The memory at `buf` is handed over with what lies behind the `size` bytes of the write.
  unfoldable pub handle : Handler → (buf : List ℕ) → (size : ℕ) → Fs → Result (Reply × Fs)
  handle do_reboot buf size fs = do
    fs ← wait_prompt (fd_puts (b'r' ∷ b'e' ∷ b'b' ∷ b'o' ∷ b'o' ∷ b't' ∷ b'\n' ∷ []) fs)
    ok (exited, fs)
  handle do_echo buf size fs = do
    text ← c_string buf
    fs ←
        wait_prompt
          (fd_puts (b'\n' ∷ []) (fd_puts text (fd_puts (b'e' ∷ b'c' ∷ b'h' ∷ b'o' ∷ b' ' ∷ []) fs)))
    ok (count (u32 size), fs)
  handle do_run buf size fs = do
    text ← c_string buf
    fs ← wait_prompt (fd_puts (b'\n' ∷ []) (fd_puts text fs))
    ok (count (u32 size), fs)

  unfoldable pub write_file : Found → (buf : List ℕ) → (size offset : ℕ) → Fs → Result (Reply × Fs)
  write_file e buf size offset fs =
      if ltb e.file.n_data offset
      then ok (count 0, fs)
      else (append_to_file e.file buf size offset >>= λ put.
          ok (put.0, record fs { root = put_file fs.root e.place put.1 }))

  unfoldable pub pi_write : List ℕ → (buf : List ℕ) → (size offset : ℕ) → Fs → Result (Reply × Fs)
  pi_write path buf size offset fs = do
    got ← file_lookup h fs.root path perm_wr
    let fs = record fs { root = got.1 }
    elim got.0 [
      | missing e ↦ ok (failed e, fs)
      | found e ↦ elim e.entry.on_wr [
        | some run ↦ handle run buf size fs
        | none ↦ write_file e buf size offset fs
      ]
    ]

  unfoldable pub cut : File → ℕ → File
  cut f len = if ltb len f.n_data then record f { n_data = len } else f

  unfoldable pub pi_truncate : List ℕ → (len : ℕ) → Fs → Result (Reply × Fs)
  pi_truncate path len fs = do
    got ← file_lookup h fs.root path perm_wr
    let fs = record fs { root = got.1 }
    elim got.0 [
      | missing e ↦ ok (failed e, fs)
      | found e ↦ ok (count 0, record fs { root = put_file fs.root e.place (cut e.file len) })
    ]

  unfoldable pub pi_ftruncate : List ℕ → (offset : ℕ) → Fs → Result (Reply × Fs)
  pi_ftruncate path offset fs = pi_truncate path offset fs

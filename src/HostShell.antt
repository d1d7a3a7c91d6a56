-- ===== src/HostShell.antt =====
-- The shell of the host: splitting a line, unix-side/shell/shell-support.c, and the commands that it sends,
-- unix-side/shell/shell.c.
pub mod Tokens
pub mod Understood
use simple_pi_os.Prelude.{
  Bool, List, Option, Result, [], assert, codes, demand, drop, false, fault, if◌then◌else◌, leb,
  length, ltb, none, ok, panic, panicked, same_string, some, suc, zero, ℕ, ◌!=◌, ◌&&◌, ◌++◌, ◌+◌,
  ◌-◌, ◌==◌, ◌>>=◌, ◌>>◌, ◌||◌, ◌∷◌,
}

-- The white space of the C locale
unfoldable pub isspace : ℕ → Bool
isspace c = c == b' ' || leb 9 c && leb c 13

-- From a pointer into the buffer; `none` is the null pointer, at the end of the string.
unfoldable pub skip_space : List ℕ → Result (Option (List ℕ))
skip_space [] = panic fault
skip_space (c ∷ p) =
    if c == 0 then ok none else if isspace c then skip_space p else ok (some (c ∷ p))

-- The characters passed over, and the pointer behind them.
unfoldable pub skip_nonspace : List ℕ → Result (List ℕ × List ℕ)
skip_nonspace [] = panic fault
skip_nonspace (c ∷ p) =
    if c == 0 || isspace c
    then ok ([], c ∷ p)
    else (skip_nonspace p >>= λ got. ok (c ∷ got.0, got.1))

-- Each token ends with the zero that is written behind it. `rounds` is `max_args - 1`.
unfoldable pub tokenize : (rounds : ℕ) → (p : List ℕ) → Result (List (List ℕ))
tokenize zero p = panic panicked
tokenize (suc rounds) p = do
  start ← skip_space p
  elim start [
    | none ↦ ok []
    | some p ↦
        (skip_nonspace p >>= λ got.
        assert (length got.0 != 0)
        >> (tokenize rounds (drop 1 got.1) >>= λ argv. ok (got.0 ∷ argv)))
  ]

-- `pi_put`: what it puts on the line
unfoldable pub pi_put : List ℕ → Result (List ℕ)
pi_put buf = demand (length buf != 0) >> ok buf

unfoldable pub is_pi_prog : List ℕ → Bool
is_pi_prog prog =
    let n = if ltb (length prog) 256 then length prog else 256 in
    if ltb n 5 then false else same_string (drop (n - 4) prog) (codes ".bin")

-- What the shell does once it has sent the bytes of a command
pub data After : Type 0 where
  not_builtin : After
  usage : ℕ → After
  await_line : After
  await_done : After
  await_reboot : After
  gives_up : After

pub record Turn : Type 0 where
  pub sent : List ℕ
  pub after : After

-- The loop of `echo`: the arguments with a space between them and a newline behind
unfoldable pub put_args : List (List ℕ) → Result (List ℕ)
put_args [] = ok []
put_args (arg ∷ args) = do
  text ← pi_put arg
  gap ← pi_put (if length args == 0 then b'\n' ∷ [] else b' ' ∷ [])
  more ← put_args args
  ok (text ++ (gap ++ more))

-- `size` at the end of the loop
unfoldable pub echo_size : List (List ℕ) → ℕ
echo_size [] = 0
echo_size (arg ∷ args) = (if ltb (length arg) 256 then length arg else 256) + 1 + echo_size args

-- A command with one argument
unfoldable pub put_command : (name : List ℕ) → (args : List (List ℕ)) → Result Turn
put_command name (arg ∷ []) = do
  text ← pi_put (name ++ (b' ' ∷ []))
  path ← pi_put arg
  stop ← pi_put (b'\n' ∷ [])
  ok record { sent = text ++ (path ++ stop); after = await_done }
put_command name args = ok record { sent = []; after = usage (length args) }

unfoldable pub do_builtin_cmd : (argv : List (List ℕ)) → Result Turn
do_builtin_cmd [] = ok record { sent = []; after = not_builtin }
do_builtin_cmd (name ∷ args) =
    if same_string (codes "echo") name
    then (put_args (name ∷ args) >>= λ text. ok record {
      sent = text;
      after = if ltb 256 (echo_size (name ∷ args) + 1) then gives_up else await_line;
    })
    else if same_string (codes "ls") name
    then put_command name args
    else if same_string (codes "cat") name
    then put_command name args
    else if same_string (codes "run") name
    then put_command name args
    else if same_string (codes "reboot") name
    then (pi_put (codes "reboot" ++ (b'\n' ∷ [])) >>= λ text.
        ok record { sent = text; after = await_reboot })
    else ok record { sent = []; after = not_builtin }

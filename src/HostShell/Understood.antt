-- ===== src/HostShell/Understood.antt =====
-- What the shell of the host sends is what the shell of the kernel takes it for.
use simple_pi_os.Prelude.{
  All, List, [], append_assoc, arith, codes, false, length, length-append, le→ltb, ne→!=, ne→==, ok,
  refl, suc, zero, ℕ, ◌++◌, ◌+◌, ◌<◌, ◌==◌, ◌∷◌, ◌≡◌, ◌≢◌,
}
use simple_pi_os.HostShell.{
  Turn, After, await_done, await_line, do_builtin_cmd, echo_size, put_command, put_args, pi_put,
}
use simple_pi_os.KernelShell.{Command, cat, command, echo, ls, readline, run, starts}

-- A word as `tokenize` gives it has no newline.
abbrev pub IsWord : List ℕ → Type 0
IsWord word = (word ≢ []) × All (λ c. c ≢ b'\n') word

-- The arguments with a space between them
abbrev pub spaced : List (List ℕ) → List ℕ
spaced [] = []
spaced (arg ∷ []) = arg
spaced (arg ∷ arg' ∷ args) = arg ++ (b' ' ∷ spaced (arg' ∷ args))

-- The bytes of a turn reach the kernel as one line, which is the command.
abbrev pub Understood : (argv : List (List ℕ)) → (after : After) → (want : Command) → Type 0
Understood argv after want =
    (turn : Turn) × (do_builtin_cmd argv ≡ ok turn)
    × (turn.after ≡ after)
    × (line : List ℕ) × (readline 1024 turn.sent ≡ ok (line, []))
    × (command line ≡ want)

readline-line :
    (sz : ℕ)
    → (line : List ℕ) → All (λ c. c ≢ b'\n') line
    → length line < sz
    → readline sz (line ++ (b'\n' ∷ [])) ≡ ok (line, [])
unfolding readline
readline-line zero line plain fits = absurd (omega (arith, fits))
readline-line (suc sz) [] plain fits = refl
readline-line (suc sz) (c ∷ line) plain fits =
    rw (ne→== c b'\n' plain.0, readline-line sz line plain.1 (omega (arith, fits))) refl

suc-IsPositive : (n : ℕ) → (suc n == 0) ≡ false
suc-IsPositive n = ne→== (suc n) 0 (omega arith)

pi_put-some : (c : ℕ) → (s : List ℕ) → pi_put (c ∷ s) ≡ ok (c ∷ s)
unfolding pi_put
pi_put-some c s = rw (ne→!= (suc (length s)) 0 (omega arith)) refl

put_command-sent :
    (c d : ℕ)
    → (name arg : List ℕ)
    → put_command (c ∷ name) ((d ∷ arg) ∷ [])
      ≡ ok
          record { sent = spaced ((c ∷ name) ∷ (d ∷ arg) ∷ []) ++ (b'\n' ∷ []); after = await_done }
unfolding put_command
put_command-sent c d name arg =
    rw (pi_put-some c (name ++ (b' ' ∷ [])), pi_put-some d arg, pi_put-some b'\n' [])
      (rw
        (
          append_assoc name (b' ' ∷ []) (d ∷ (arg ++ (b'\n' ∷ []))),
          append_assoc name (b' ' ∷ (d ∷ arg)) (b'\n' ∷ []),
        )
        refl)

put_args-spaced :
    (arg : List ℕ)
    → (args : List (List ℕ)) → All IsWord (arg ∷ args)
    → put_args (arg ∷ args) ≡ ok (spaced (arg ∷ args) ++ (b'\n' ∷ []))
unfolding put_args
put_args-spaced [] args words = absurd (words.0.0 refl)
put_args-spaced (c ∷ arg) [] words = rw (pi_put-some c arg, pi_put-some b'\n' []) refl
put_args-spaced (c ∷ arg) (arg' ∷ args) words =
    rw
      (
        pi_put-some c arg,
        suc-IsPositive (length args),
        pi_put-some b' ' [],
        put_args-spaced arg' args words.1,
      )
      (rw (append_assoc arg (b' ' ∷ spaced (arg' ∷ args)) (b'\n' ∷ [])) refl)

echo_size-spaced :
    (arg : List ℕ)
    → (args : List (List ℕ)) → length (spaced (arg ∷ args)) < 256
    → echo_size (arg ∷ args) ≡ length (spaced (arg ∷ args)) + 1
unfolding echo_size
echo_size-spaced arg [] short = ground arith
echo_size-spaced arg (arg' ∷ args) short =
    let more = length-append arg (b' ' ∷ spaced (arg' ∷ args)) in
    let rest = echo_size-spaced arg' args (omega (arith, short, more)) in
    rw (rest, more) (ground arith)

plain-append :
    (xs ys : List ℕ)
    → All (λ c. c ≢ b'\n') xs
    → All (λ c. c ≢ b'\n') ys
    → All (λ c. c ≢ b'\n') (xs ++ ys)
plain-append [] ys p q = q
plain-append (x ∷ xs) ys p q = (p.0, plain-append xs ys p.1 q)

spaced-plain : (args : List (List ℕ)) → All IsWord args → All (λ c. c ≢ b'\n') (spaced args)
spaced-plain [] words = tt
spaced-plain (arg ∷ []) words = words.0.1
spaced-plain (arg ∷ arg' ∷ args) words =
    plain-append arg (b' ' ∷ spaced (arg' ∷ args)) words.0.1
      (cc, spaced-plain (arg' ∷ args) words.1)

ls-command : (path : List ℕ) → command (codes "ls " ++ path) ≡ ls path
unfolding command starts
ls-command path = rw (suc-IsPositive (length (codes "s " ++ path))) refl

cat-command : (path : List ℕ) → command (codes "cat " ++ path) ≡ cat path
unfolding command starts
cat-command path = rw (suc-IsPositive (length (codes "at " ++ path))) refl

run-command : (path : List ℕ) → command (codes "run " ++ path) ≡ run path
unfolding command starts
run-command path = rw (suc-IsPositive (length (codes "un " ++ path))) refl

echo-command : (text : List ℕ) → command (codes "echo " ++ text) ≡ echo text
unfolding command starts
echo-command text = rw (suc-IsPositive (length (codes "cho " ++ text))) refl

understood :
    (argv : List (List ℕ))
    → (after : After) → (line : List ℕ) → (want : Command)
    → do_builtin_cmd argv ≡ ok record { sent = line ++ (b'\n' ∷ []); after = after }
    → All (λ c. c ≢ b'\n') line
    → length line < 1024
    → command line ≡ want
    → Understood argv after want
understood argv after line want sends plain fits same = (
  record { sent = line ++ (b'\n' ∷ []); after = after },
  sends,
  refl,
  line,
  readline-line 1024 line plain fits,
  same,
)

spaced-length :
    (name arg : List ℕ)
    → (args : List (List ℕ))
    → length (spaced (name ∷ arg ∷ args)) ≡ length name + 1 + length (spaced (arg ∷ args))
spaced-length name arg args = omega (arith, length-append name (b' ' ∷ spaced (arg ∷ args)))

echo-IsWord : IsWord (codes "echo")
echo-IsWord = (cc, (cc, (cc, (cc, (cc, tt)))))

echo-sent :
    (arg : List ℕ)
    → (args : List (List ℕ)) → All IsWord (arg ∷ args)
    → length (spaced (arg ∷ args)) < 250
    → do_builtin_cmd (codes "echo" ∷ arg ∷ args)
      ≡ ok record { sent = spaced (codes "echo" ∷ arg ∷ args) ++ (b'\n' ∷ []); after = await_line }
unfolding do_builtin_cmd
echo-sent arg args words short =
    let size = echo_size-spaced (codes "echo") (arg ∷ args) (omega (arith, short)) in
    rw (put_args-spaced (codes "echo") (arg ∷ args) (echo-IsWord, words), size)
      (rw (le→ltb 256 (length (spaced (codes "echo" ∷ arg ∷ args)) + 1 + 1) (omega (arith, short)))
        refl)

first_word-short :
    (arg : List ℕ) → (args : List (List ℕ)) → length arg < suc (length (spaced (arg ∷ args)))
first_word-short arg [] = omega arith
first_word-short arg (arg' ∷ args) = omega (arith, length-append arg (b' ' ∷ spaced (arg' ∷ args)))

path-sent :
    (path : List ℕ)
    → IsWord path
    → (do_builtin_cmd (codes "ls" ∷ path ∷ [])
        ≡ ok record { sent = spaced (codes "ls" ∷ path ∷ []) ++ (b'\n' ∷ []); after = await_done })
      × (do_builtin_cmd (codes "cat" ∷ path ∷ [])
          ≡ ok record {
            sent = spaced (codes "cat" ∷ path ∷ []) ++ (b'\n' ∷ []);
            after = await_done;
          })
      × (do_builtin_cmd (codes "run" ∷ path ∷ [])
          ≡ ok record {
            sent = spaced (codes "run" ∷ path ∷ []) ++ (b'\n' ∷ []);
            after = await_done;
          })
unfolding do_builtin_cmd
path-sent [] word = absurd (word.0 refl)
path-sent (d ∷ path) word = (
  put_command-sent b'l' d (codes "s") path,
  put_command-sent b'c' d (codes "at") path,
  put_command-sent b'r' d (codes "un") path,
)

-- What the host's shell sends for `echo` and for the commands with a path reaches the kernel's shell as one line, which
-- it takes for that command with the same argument, when the arguments are words and shorter than 250 characters with
-- the spaces between them: the host then waits for a line after `echo` and for the end of the command otherwise.
pub do_builtin_cmd-Understood :
    (arg : List ℕ)
    → (args : List (List ℕ)) → All IsWord (arg ∷ args)
    → length (spaced (arg ∷ args)) < 250
    → Understood (codes "echo" ∷ arg ∷ args) await_line (echo (spaced (arg ∷ args)))
      × Understood (codes "ls" ∷ arg ∷ []) await_done (ls arg)
      × Understood (codes "cat" ∷ arg ∷ []) await_done (cat arg)
      × Understood (codes "run" ∷ arg ∷ []) await_done (run arg)
do_builtin_cmd-Understood arg args words short =
    let sends = path-sent arg words.0 in
    let path_short = first_word-short arg args in
    let plain = words.0.1 in
    (
      understood (codes "echo" ∷ arg ∷ args) await_line (spaced (codes "echo" ∷ arg ∷ args))
          (echo (spaced (arg ∷ args))) (echo-sent arg args words short)
          (cc, (cc, (cc, (cc, (cc, spaced-plain (arg ∷ args) words))))) (omega (arith, short))
          (echo-command (spaced (arg ∷ args))),
      understood (codes "ls" ∷ arg ∷ []) await_done (codes "ls " ++ arg) (ls arg) sends.0
          (cc, (cc, (cc, plain))) (omega (arith, short, path_short)) (ls-command arg),
      understood (codes "cat" ∷ arg ∷ []) await_done (codes "cat " ++ arg) (cat arg) sends.1
          (cc, (cc, (cc, (cc, plain)))) (omega (arith, short, path_short)) (cat-command arg),
      understood (codes "run" ∷ arg ∷ []) await_done (codes "run " ++ arg) (run arg) sends.2
          (cc, (cc, (cc, (cc, plain)))) (omega (arith, short, path_short)) (run-command arg),
    )

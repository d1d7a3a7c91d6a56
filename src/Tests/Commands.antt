-- ===== src/Tests/Commands.antt =====
-- Lines of the shells: what the host splits and sends, and what the kernel takes it for.
use simple_pi_os.Prelude.{[], arith, codes, ok, refl, true, ◌++◌, ◌∷◌, ◌≡◌}
use simple_pi_os.HostShell.{
  isspace, put_args, pi_put, echo_size, tokenize, do_builtin_cmd, is_pi_prog, await_line,
  await_done,
}
use simple_pi_os.HostShell.Tokens.{tokenize-words}
use simple_pi_os.HostShell.Understood.{Understood, do_builtin_cmd-Understood}
use simple_pi_os.KernelShell.{starts, cat, command, echo, ls, run, unknown}

tokenize-words_example :
    tokenize 3 (codes " ls  /a " ++ (0 ∷ 0 ∷ [])) ≡ ok (codes "ls" ∷ codes "/a" ∷ [])
unfolding isspace
tokenize-words_example =
    tokenize-words 3 (codes " ls  /a ") (cc, (cc, (cc, (cc, (cc, (cc, (cc, (cc, tt))))))))
      (omega arith)

do_builtin_cmd-Understood_example :
    Understood (codes "echo" ∷ codes "/a" ∷ codes "b" ∷ []) await_line (echo (codes "/a b"))
    × Understood (codes "ls" ∷ codes "/a" ∷ []) await_done (ls (codes "/a"))
    × Understood (codes "cat" ∷ codes "/a" ∷ []) await_done (cat (codes "/a"))
    × Understood (codes "run" ∷ codes "/a" ∷ []) await_done (run (codes "/a"))
do_builtin_cmd-Understood_example =
    do_builtin_cmd-Understood (codes "/a") (codes "b" ∷ [])
      ((cc, (cc, (cc, tt))), ((cc, (cc, tt)), tt)) (omega arith)

-- A line `echo` without arguments gets no answer, for which the host waits.
echo_example :
    (do_builtin_cmd (codes "echo" ∷ [])
      ≡ ok record { sent = codes "echo" ++ (b'\n' ∷ []); after = await_line })
    × (command (codes "echo") ≡ unknown)
unfolding do_builtin_cmd command put_args pi_put echo_size starts
echo_example = (refl, refl)

is_pi_prog_example : is_pi_prog (codes "hello.bin") ≡ true
unfolding is_pi_prog
is_pi_prog_example = refl

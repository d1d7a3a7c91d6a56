-- ===== src/Tests/Output.antt =====
-- Formatted output, and the matcher of the host.
use simple_pi_os.Prelude.{
  Bool, List, Result, [], arith, codes, false, ok, refl, true, ℕ, ◌++◌, ◌-◌, ◌^◌, ◌∷◌, ◌≡◌, ◌≤◌,
}
use simple_pi_os.Printf.{
  Arg, number, string, digit_loop, emit, isdigit, pad, print_from, printk, reversed_digits, reverse,
  safe_copy, specifier, va_printk,
}
use simple_pi_os.Printf.Buffer.{va_printk-length}
use simple_pi_os.Printf.Numbers.{IsNumber, emit-IsNumber, ten}
use simple_pi_os.Matcher.{differs, echo_from, echo_until_fn, fsm_chr_done, mk_fsm}
use simple_pi_os.Matcher.Sound.{Heard, echo_until_fn-Heard}

emit-IsNumber_example :
    (s : List ℕ) × (emit 10 128 0xffff_ffd6 5 true ≡ ok s)
    × IsNumber 10 (2 ^ 32 - 0xffff_ffd6) 5 (b'-' ∷ []) s
emit-IsNumber_example =
    emit-IsNumber 10 0xffff_ffd6 5 true ten (λ _. refl) (omega arith) (omega arith)

abbrev args : List Arg
args = number 42 ∷ string (codes "ok" ++ (0 ∷ [])) ∷ []

printed : va_printk 16 (codes "n=%4d, %s%%") args ≡ ok (codes "n=  42, ok%" ++ (0 ∷ []))
unfolding va_printk print_from specifier emit reversed_digits digit_loop pad reverse safe_copy
    isdigit
printed = refl

cut_off : va_printk 8 (codes "n=%4d, %s%%") args ≡ ok (codes "n=  42," ++ (0 ∷ []))
unfolding va_printk print_from specifier emit reversed_digits digit_loop pad reverse safe_copy
    isdigit
cut_off = refl

sent : printk (codes "%x") (number 255 ∷ []) ≡ ok (codes "ff", 3)
unfolding printk va_printk print_from specifier emit reversed_digits digit_loop pad reverse
    safe_copy isdigit
sent = refl

va_printk-length_example :
    (8 ≤ 8) × (front : List ℕ) × (codes "n=  42," ++ (0 ∷ []) ≡ front ++ (0 ∷ []))
va_printk-length_example =
    va_printk-length 8 (codes "n=%4d, %s%%") args (codes "n=  42," ++ (0 ∷ [])) cut_off

-- What is read is kept in a list.
abbrev keep : ℕ → List ℕ → Result (Bool × List ℕ)
keep c log = ok (true, log ++ (c ∷ []))

seen_prompt :
    echo_until_fn keep (codes "PIX:> ") (codes "hi PIX:> more") []
    ≡ ok (true, (codes "more", codes "hi PIX:> "))
unfolding echo_until_fn echo_from mk_fsm fsm_chr_done differs
seen_prompt = refl

-- The first character of a prompt is lost when it follows a part of one.
missed_prompt :
    echo_until_fn keep (codes "PIX:> ") (codes "PPIX:> ") [] ≡ ok (false, ([], codes "PPIX:> "))
unfolding echo_until_fn echo_from mk_fsm fsm_chr_done differs
missed_prompt = refl

echo_until_fn-Heard_example :
    Heard keep (codes "PIX:> ") [] (codes "hi PIX:> more") (codes "more") [] (codes "hi PIX:> ")
echo_until_fn-Heard_example =
    echo_until_fn-Heard keep (codes "PIX:> ") (codes "hi PIX:> more") (codes "more") []
      (codes "hi PIX:> ") seen_prompt

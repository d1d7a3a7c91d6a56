-- ===== src/Matcher/Sound.antt =====
-- What has been read when the matcher stops.
use mathlib.Core.List.{append-nil}
use simple_pi_os.Prelude.{
  !=→eq, ==→eq, Bool, Bool-cases, List, Result, [], and_then-ok, ap, append_assoc, arith, assert-ok,
  demand-ok, false, get_or, if◌then◌else◌, inl, inr, leb, length, ltb, ltb→lt, ok, ok-injective,
  refl, suc, sym, take, true, zero, ℕ, ◌!=◌, ◌++◌, ◌+◌, ◌<◌, ◌==◌, ◌>>=◌, ◌||◌, ◌∙◌, ◌∷◌, ◌≡◌, ◌≢◌,
}
use simple_pi_os.Matcher.{Fsm, mk_fsm, fsm_chr_done, differs, echo_from, echo_until_fn}

-- The text that was read ends with the part of the message that counts as seen.
pub record IsSeen (msg read : List ℕ) (f : Fsm) : Type 0 where
  pub string : f.exit_string ≡ msg
  pub whole : f.fsm_end ≡ length msg
  pub before : List ℕ
  pub ends : read ≡ before ++ take f.pos msg

take-suc :
    (xs : List ℕ) (n : ℕ) → n < length xs → take (suc n) xs ≡ take n xs ++ (get_or xs n 0 ∷ [])
take-suc [] n h = absurd (omega arith)
take-suc (x ∷ xs) zero h = refl
take-suc (x ∷ xs) (suc n) h = ap (λ t. x ∷ t) (take-suc xs n (omega arith))

take_all : (xs : List ℕ) (n : ℕ) → n ≡ length xs → take n xs ≡ xs
take_all [] zero h = refl
take_all [] (suc n) h = refl
take_all (x ∷ xs) zero h = absurd (omega arith)
take_all (x ∷ xs) (suc n) h = ap (λ t. x ∷ t) (take_all xs n (omega arith))

||-false : (a b : Bool) → (a || b) ≡ false → a ≡ false
||-false true b h = h
||-false false b h = refl

differs-false : (c x : ℕ) → differs c x ≡ false → c ≡ x
unfolding differs
differs-false c x h = !=→eq c x (||-false (c != x) (leb 128 x) h)

mk_fsm-IsSeen : (msg : List ℕ) (f : Fsm) → mk_fsm msg ≡ ok f → IsSeen msg [] f
unfolding mk_fsm
mk_fsm-IsSeen msg f h =
    let made =
      demand-ok (ltb (length msg) 1023)
        (ok (record { pos = 0; fsm_end = length msg; exit_string = msg })) f h in
    let same : record { pos = 0; fsm_end = length msg; exit_string = msg } ≡ f =
      ok-injective made.1 in
    rw (← same) (record { string = refl; whole = refl; before = []; ends = refl })

seen_more :
    (msg read before : List ℕ) (n c : ℕ)
    → read ≡ before ++ take n msg
    → n < length msg
    → c ≡ get_or msg n 0
    → read ++ (c ∷ []) ≡ before ++ take (n + 1) msg
seen_more msg read before n c ends inside e =
    let one : n + 1 ≡ suc n = omega arith in
    rw (one, ends, e, take-suc msg n inside)
      (append_assoc before (take n msg) (get_or msg n 0 ∷ []))

-- After a character the matcher has seen the whole message, or is still waiting for a part of it.
fsm_chr_done-IsSeen :
    (msg read : List ℕ) (f : Fsm) (c : ℕ) (got : Bool × Fsm)
    → IsSeen msg read f
    → fsm_chr_done f c ≡ ok got
    → IsSeen msg (read ++ (c ∷ [])) got.1 × (got.0 ≡ true → got.1.pos ≡ length msg)
unfolding fsm_chr_done
fsm_chr_done-IsSeen msg read f c got seen h =
    let below =
      assert-ok (ltb f.pos f.fsm_end)
        (if differs c (get_or f.exit_string f.pos 0)
          then ok (false, record f { pos = 0 })
          else ok ((f.pos + 1) == f.fsm_end, record f { pos = f.pos + 1 }))
        got h in
    elim (Bool-cases (differs c (get_or f.exit_string f.pos 0))) [
      | inl e ↦
          let same : (false, record f { pos = 0 }) ≡ got = ok-injective (rw e at below.1) in
          rw (← same) (
            record {
              string = seen.string;
              whole = seen.whole;
              before = read ++ (c ∷ []);
              ends = sym (append-nil (read ++ (c ∷ [])));
            },
            λ x. absurd (cc),
          )
      | inr e ↦
          let same : ((f.pos + 1) == f.fsm_end, record f { pos = f.pos + 1 }) ≡ got =
            ok-injective (rw e at below.1) in
          let equal : c ≡ get_or msg f.pos 0 =
            rw (← seen.string) (differs-false c (get_or f.exit_string f.pos 0) e) in
          let inside : f.pos < length msg =
            omega (arith, ltb→lt f.pos f.fsm_end below.0, seen.whole) in
          let grown = seen_more msg read seen.before f.pos c seen.ends inside equal in
          rw (← same) (
            record { string = seen.string; whole = seen.whole; before = seen.before; ends = grown },
            λ x. ==→eq (f.pos + 1) f.fsm_end x ∙ seen.whole,
          )
    ]

module _ {S : Type 0} (fn : ℕ → S → Result (Bool × S)) where
  -- The characters were handed over one by one, and each was accepted.
  pub data Fed : List ℕ → S → S → Type 0 where
    nothing : {s : S} → Fed [] s s
    fed : {c : ℕ} {cs : List ℕ} {s t u : S} → fn c s ≡ ok (true, t) → Fed cs t u → Fed (c ∷ cs) s u

  -- What was heard from `line`, up to `rest`
  pub record Heard (msg read line rest : List ℕ) (s t : S) : Type 0 where
    pub heard : List ℕ
    pub split : line ≡ heard ++ rest
    pub before : List ℕ
    pub ends : read ++ heard ≡ before ++ msg
    pub fed_all : Fed heard s t

  more :
      (msg read line rest : List ℕ) (c : ℕ) (s t u : S)
      → fn c s ≡ ok (true, t)
      → Heard msg (read ++ (c ∷ [])) line rest t u
      → Heard msg read (c ∷ line) rest s u
  more msg read line rest c s t u taken h = record {
    heard = c ∷ h.heard;
    split = ap (λ l. c ∷ l) h.split;
    before = h.before;
    ends = sym (append_assoc read (c ∷ []) h.heard) ∙ h.ends;
    fed_all = fed taken h.fed_all;
  }

  matched :
      (msg read line : List ℕ) (c : ℕ) (s t : S) (f : Fsm)
      → fn c s ≡ ok (true, t)
      → IsSeen msg (read ++ (c ∷ [])) f
      → f.pos ≡ length msg
      → Heard msg read (c ∷ line) line s t
  matched msg read line c s t f taken seen e = record {
    heard = c ∷ [];
    split = refl;
    before = seen.before;
    ends = seen.ends ∙ ap (λ l. seen.before ++ l) (take_all msg f.pos e);
    fed_all = fed taken nothing;
  }

  echo_from-Heard :
      (msg read line rest : List ℕ) (f : Fsm) (s u : S)
      → IsSeen msg read f
      → echo_from fn f line s ≡ ok (true, (rest, u))
      → Heard msg read line rest s u
  unfolding echo_from
  echo_from-Heard msg read [] rest f s u seen h = absurd (cc)
  echo_from-Heard msg read (c ∷ line) rest f s u seen h =
      let taken =
        and_then-ok (fn c s)
          (λ taken.
            if taken.0
            then (fsm_chr_done f c >>= λ got.
                if got.0 then ok (true, (line, taken.1)) else echo_from fn got.1 line taken.1)
            else ok (false, (line, taken.1)))
          (true, (rest, u)) h in
      elim (Bool-cases taken.0.0) [
        | inr e ↦ absurd (refused (rw e at taken.2))
        | inl e ↦
            let accepted : fn c s ≡ ok (true, taken.0.1) =
              taken.1 ∙ ap (λ b. ok (b, taken.0.1)) e in
            let got =
              and_then-ok (fsm_chr_done f c)
                (λ got.
                  if got.0 then ok (true, (line, taken.0.1)) else echo_from fn got.1 line taken.0.1)
                (true, (rest, u)) (rw e at taken.2) in
            let after = fsm_chr_done-IsSeen msg read f c got.0 seen got.1 in
            elim (Bool-cases got.0.0) [
              | inl d ↦
                  let same = stopped (rw d at got.2) in
                  rw (← same.0, ← same.1)
                    (matched msg read line c s taken.0.1 got.0.1 accepted after.0 (after.1 d))
              | inr d ↦ more msg read line rest c s taken.0.1 u accepted (
                  echo_from-Heard msg (read ++ (c ∷ [])) line rest got.0.1 taken.0.1 u after.0
                    (rw d at got.2))
            ]
      ]
    where
      refused :
          {l r : List ℕ} {x y : S}
          → ◌≢◌ {A = Result (Bool × (List ℕ × S))} (ok (false, (l, x))) (ok (true, (r, y)))
      refused h = cc

      stopped :
          {l r : List ℕ} {x y : S}
          → ◌≡◌ {A = Result (Bool × (List ℕ × S))} (ok (true, (l, x))) (ok (true, (r, y)))
          → (l ≡ r) × (x ≡ y)
      stopped h = (cc, cc)

  -- If the loop reports that it saw the message, then what it took from the line ends with the message,
  -- it took no more than that, and each character of it was handed to `fn`, in order.
  pub echo_until_fn-Heard :
      (msg line rest : List ℕ) (s t : S)
      → echo_until_fn fn msg line s ≡ ok (true, (rest, t))
      → Heard msg [] line rest s t
  unfolding echo_until_fn
  echo_until_fn-Heard msg line rest s t h =
      let made = and_then-ok (mk_fsm msg) (λ f. echo_from fn f line s) (true, (rest, t)) h in
      echo_from-Heard msg [] line rest made.0 s t (mk_fsm-IsSeen msg made.0 made.1) made.2

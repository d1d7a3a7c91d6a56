-- ===== src/HostFs/Console.antt =====
-- What the Pi prints goes to the end of the console file, up to the prompt.
use simple_pi_os.Prelude.{
  Bool, Bool-cases, List, Result, [], ap, append_assoc, ap₂, arith, drop, false, get_or,
  if◌then◌else◌, inl, inr, length, length-append, lt→ltb, ok, refl, same_string, same_string→eq,
  some, suc, sym, true, zero, ℕ, ◌++◌, ◌+◌, ◌<◌, ◌==◌, ◌^◌, ◌∙◌, ◌∷◌, ◌≡◌, ◌≢◌, ◌⊎◌,
}
use mathlib.Core.List.{append-nil}
use simple_pi_os.HostFs.{Heap, File, Entry}
use simple_pi_os.HostFs.Operations.{
  Fs, file_at, overwrite, prompt, put_file, wait_prompt, wr_console,
}
use simple_pi_os.HostFs.Append.{append_to_file-IsFile}
use simple_pi_os.HostFs.Bytes.{length-take}
use simple_pi_os.HostFs.Directory.{At, view, contents, rights, IsFile, IsDirectory, IsAmple}
use simple_pi_os.Matcher.{Fsm, differs, echo_from, echo_until_fn, fsm_chr_done, mk_fsm}
use simple_pi_os.Matcher.Sound.{echo_until_fn-Heard}

file_at-At : (es : List Entry) (i : ℕ) (q : List ℕ) (f : File) → At es i q f → file_at es i ≡ ok f
unfolding file_at
file_at-At [] i q f a = absurd a
file_at-At (e ∷ es) zero q f a = rw a.1 refl
file_at-At (e ∷ es) (suc i) q f a = file_at-At es i q f a.1

pub contents-At :
    (es : List Entry) (i : ℕ) (q : List ℕ) (f : File) → At es i q f → contents es q ≡ some (view f)
contents-At [] i q f a = absurd a
contents-At (e ∷ es) zero q f a = rw (a.0, a.1) refl
contents-At (e ∷ es) (suc i) q f a = rw a.0 (contents-At es i q f a.1)

put_file-At :
    (es : List Entry) (i : ℕ) (q : List ℕ) (f g : File) → At es i q f → At (put_file es i g) i q g
put_file-At [] i q f g a = absurd a
put_file-At (e ∷ es) zero q f g a = (a.0, refl)
put_file-At (e ∷ es) (suc i) q f g a = (a.0, put_file-At es i q f g a.1)

put_file-contents :
    (es : List Entry) (i : ℕ) (p q : List ℕ) (f g : File)
    → At es i q f
    → p ≢ q
    → contents (put_file es i g) p ≡ contents es p
put_file-contents [] i p q f g a ne = absurd a
put_file-contents (e ∷ es) zero p q f g a ne = elim (Bool-cases (same_string e.name p)) [
  | inl h ↦ absurd (ne (sym (same_string→eq e.name p h) ∙ same_string→eq e.name q a.0))
  | inr h ↦ rw h refl
]
put_file-contents (e ∷ es) (suc i) p q f g a ne = elim (Bool-cases (same_string e.name p)) [
  | inl h ↦ rw h refl
  | inr h ↦ rw h (put_file-contents es i p q f g a.1 ne)
]

put_file-rights :
    (es : List Entry) (i : ℕ) (p : List ℕ) (g : File) → rights (put_file es i g) p ≡ rights es p
put_file-rights [] i p g = refl
put_file-rights (e ∷ es) zero p g = refl
put_file-rights (e ∷ es) (suc i) p g = elim (Bool-cases (same_string e.name p)) [
  | inl h ↦ rw h refl
  | inr h ↦ rw h (put_file-rights es i p g)
]

put_file-IsDirectory :
    (es : List Entry) (i : ℕ) (g : File) → IsDirectory es → IsFile g → IsDirectory (put_file es i g)
put_file-IsDirectory [] i g good h = tt
put_file-IsDirectory (e ∷ es) zero g good h = (h, good.1)
put_file-IsDirectory (e ∷ es) (suc i) g good h = (good.0, put_file-IsDirectory es i g good.1 h)

At-IsFile :
    (es : List Entry) (i : ℕ) (q : List ℕ) (f : File) → IsDirectory es → At es i q f → IsFile f
At-IsFile [] i q f good a = absurd a
At-IsFile (e ∷ es) zero q f good a = (rw a.1 at good.0)
At-IsFile (e ∷ es) (suc i) q f good a = At-IsFile es i q f good.1 a.1

drop_nil : (n : ℕ) → ◌≡◌ {A = List ℕ} (drop n []) []
drop_nil zero = refl
drop_nil (suc n) = refl

-- What stands before the same rest is the same.
same_front : (xs ys zs : List ℕ) → xs ++ zs ≡ ys ++ zs → xs ≡ ys
same_front [] [] zs e = refl
same_front [] (y ∷ ys) zs e = absurd (omega (arith, ap length e, length-append (y ∷ ys) zs))
same_front (x ∷ xs) [] zs e = absurd (omega (arith, ap length e, length-append (x ∷ xs) zs))
same_front (x ∷ xs) (y ∷ ys) zs e =
    ap₂ (λ a as'. a ∷ as') (∷-injective e).0 (same_front xs ys zs (∷-injective e).1)
  where
    ∷-injective : {a b : ℕ} {as' bs : List ℕ} → a ∷ as' ≡ b ∷ bs → (a ≡ b) × (as' ≡ bs)
    ∷-injective e = (cc, cc)

overwrite-end : (xs ys : List ℕ) (n : ℕ) → n ≡ length xs → overwrite xs n ys ≡ xs ++ ys
unfolding overwrite
overwrite-end [] ys zero h = ap (λ d. ys ++ d) (drop_nil (0 + length ys)) ∙ append-nil ys
overwrite-end [] ys (suc n) h = absurd (omega arith)
overwrite-end (x ∷ xs) ys zero h = absurd (omega arith)
overwrite-end (x ∷ xs) ys (suc n) h =
    let next : suc n + length ys ≡ suc (n + length ys) = omega arith in
    rw next (ap (λ l. x ∷ l) (overwrite-end xs ys n (omega arith)))

-- The console holds what it held and `xs`; nothing else has changed.
pub record Grew (fs gs : Fs) (q old xs : List ℕ) : Type 0 where
  pub file : File
  pub place : At gs.root gs.console q file
  pub bytes : view file ≡ old ++ xs
  pub others : (p : List ℕ) → p ≢ q → contents gs.root p ≡ contents fs.root p
  pub rights_kept : (p : List ℕ) → rights gs.root p ≡ rights fs.root p
  pub kept : IsDirectory gs.root
  pub sent_kept : gs.sent ≡ fs.sent

-- What has been heard when the wait ends: the prompt is the end of it, or nothing is left to read.
pub record Waited (fs gs : Fs) (q old : List ℕ) : Type 0 where
  pub heard : List ℕ
  pub split : fs.incoming ≡ heard ++ gs.incoming
  pub grew : Grew fs gs q old heard
  pub ends : ((before : List ℕ) × (heard ≡ before ++ prompt)) ⊎ (gs.incoming ≡ [])

IsFile-size : (f : File) → IsFile f → length (view f) ≡ f.n_data
IsFile-size f good = length-take f.data_at f.n_data (omega (arith, good.0, good.1))

fsm_chr_done-ok :
    (f : Fsm) (c : ℕ)
    → f.pos < f.fsm_end
    → (b : Bool) × (g : Fsm) × (fsm_chr_done f c ≡ ok (b, g)) × (b ≡ false → g.pos < g.fsm_end)
unfolding fsm_chr_done
fsm_chr_done-ok f c h = elim (Bool-cases (differs c (get_or f.exit_string f.pos 0))) [
  | inl e ↦
      (false, record f { pos = 0 }, rw (lt→ltb f.pos f.fsm_end h, e) refl, λ _. omega (arith, h))
  | inr e ↦ (
    (f.pos + 1) == f.fsm_end,
    record f { pos = f.pos + 1 },
    rw (lt→ltb f.pos f.fsm_end h, e) refl,
    λ n. below f.pos f.fsm_end h n,
  )
]
  where
    below : (a b : ℕ) → a < b → ((a + 1) == b) ≡ false → a + 1 < b
    below a b h n = ground arith

module _ (h : Heap) (ample : IsAmple h) where
  wr_console-Grew :
      (c : ℕ) (fs : Fs) (q : List ℕ) (f : File)
      → IsDirectory fs.root
      → At fs.root fs.console q f
      → f.n_data + 1 < 2 ^ 64
      → (gs : Fs) × (wr_console h c fs ≡ ok (true, gs)) × Grew fs gs q (view f) (c ∷ [])
  unfolding wr_console
  wr_console-Grew c fs q f good a small =
      let is = At-IsFile fs.root fs.console q f good a in
      let put =
        append_to_file-IsFile h ample f (c ∷ []) 1 f.n_data is (omega arith) (omega arith) small in
      (
        record fs { root = put_file fs.root fs.console put.0 },
        rw (file_at-At fs.root fs.console q f a, put.1) refl,
        record {
          file = put.0;
          place = put_file-At fs.root fs.console q f put.0 a;
          bytes = put.3 ∙ overwrite-end (view f) (c ∷ []) f.n_data (sym (IsFile-size f is));
          others = λ p ne. put_file-contents fs.root fs.console p q f put.0 a ne;
          rights_kept = λ p. put_file-rights fs.root fs.console p put.0;
          kept = put_file-IsDirectory fs.root fs.console put.0 good put.2;
          sent_kept = refl;
        },
      )

  next_size :
      (f g : File) (c : ℕ)
      → IsFile f
      → IsFile g
      → view g ≡ view f ++ (c ∷ [])
      → g.n_data ≡ f.n_data + 1
  next_size f g c good good_g e = omega (
    arith,
    IsFile-size f good,
    IsFile-size g good_g,
    ap length e,
    length-append (view f) (c ∷ []),
  )

  Grew-more :
      (fs gs hs : Fs) (q old xs : List ℕ) (c : ℕ) (g : Grew fs gs q old (c ∷ []))
      → Grew gs hs q (view g.file) xs
      → Grew fs hs q old (c ∷ xs)
  Grew-more fs gs hs q old xs c g k = record {
    file = k.file;
    place = k.place;
    bytes = k.bytes ∙ ap (λ l. l ++ xs) g.bytes ∙ append_assoc old (c ∷ []) xs;
    others = λ p ne. k.others p ne ∙ g.others p ne;
    rights_kept = λ p. k.rights_kept p ∙ g.rights_kept p;
    kept = k.kept;
    sent_kept = k.sent_kept ∙ g.sent_kept;
  }

  Grew-none :
      (fs : Fs) (q : List ℕ) (f : File)
      → IsDirectory fs.root
      → At fs.root fs.console q f
      → Grew fs fs q (view f) []
  Grew-none fs q f good a = record {
    file = f;
    place = a;
    bytes = sym (append-nil (view f));
    others = λ p ne. refl;
    rights_kept = λ p. refl;
    kept = good;
    sent_kept = refl;
  }

  -- What the loop does with a line: the part that it takes goes to the console.
  record Echoed (fs : Fs) (q old : List ℕ) (line : List ℕ) (result : Result (Bool × (List ℕ × Fs)))
      : Type 0 where
    seen : Bool
    rest : List ℕ
    after : Fs
    heard : List ℕ
    runs : result ≡ ok (seen, (rest, after))
    split : line ≡ heard ++ rest
    grew : Grew fs after q old heard
    all_taken : seen ≡ false → rest ≡ []

  echo_step :
      (m : Fsm) (c : ℕ) (line : List ℕ) (fs gs : Fs) (got : Bool) (m' : Fsm)
      → wr_console h c fs ≡ ok (true, gs)
      → fsm_chr_done m c ≡ ok (got, m')
      → echo_from (wr_console h) m (c ∷ line) fs
        ≡ (if got then ok (true, (line, gs)) else echo_from (wr_console h) m' line gs)
  unfolding echo_from
  echo_step m c line fs gs got m' e k = rw (e, k) refl

  echo_from-Echoed :
      (m : Fsm) (line : List ℕ) (fs : Fs) (q : List ℕ) (f : File)
      → m.pos < m.fsm_end
      → IsDirectory fs.root
      → At fs.root fs.console q f
      → f.n_data + length line < 2 ^ 64
      → Echoed fs q (view f) line (echo_from (wr_console h) m line fs)
  unfolding echo_from
  echo_from-Echoed m [] fs q f waits good a small = record {
    seen = false;
    rest = [];
    after = fs;
    heard = [];
    runs = refl;
    split = refl;
    grew = Grew-none fs q f good a;
    all_taken = λ _. refl;
  }
  echo_from-Echoed m (c ∷ line) fs q f waits good a small =
      let (gs, wrote, grew) = wr_console-Grew c fs q f good a (omega (arith, small)) in
      let (got, m', stepped, waits') = fsm_chr_done-ok m c waits in
      let step = echo_step m c line fs gs got m' wrote stepped in
      elim (Bool-cases got) [
        | inl e ↦ record {
          seen = true;
          rest = line;
          after = gs;
          heard = c ∷ [];
          runs = step ∙ rw e refl;
          split = refl;
          grew = grew;
          all_taken = λ n. absurd (cc);
        }
        | inr e ↦
            let size =
              next_size f grew.file c (At-IsFile fs.root fs.console q f good a)
                (At-IsFile gs.root gs.console q grew.file grew.kept grew.place) grew.bytes in
            let more =
              echo_from-Echoed m' line gs q grew.file (waits' e) grew.kept grew.place
                (omega (arith, small, size)) in
            record {
              seen = more.seen;
              rest = more.rest;
              after = more.after;
              heard = c ∷ more.heard;
              runs = step ∙ rw e more.runs;
              split = ap (λ l. c ∷ l) more.split;
              grew = Grew-more fs gs more.after q (view f) more.heard c grew more.grew;
              all_taken = more.all_taken;
            }
      ]

  wait_prompt_run :
      (fs t : Fs) (b : Bool) (rest : List ℕ)
      → echo_until_fn (wr_console h) prompt fs.incoming fs ≡ ok (b, (rest, t))
      → wait_prompt h fs ≡ ok (record t { incoming = rest })
  unfolding wait_prompt
  wait_prompt_run fs t b rest e = rw e refl

  ended :
      (b : Bool) (fs t : Fs) (heard rest : List ℕ)
      → echo_until_fn (wr_console h) prompt fs.incoming fs ≡ ok (b, (rest, t))
      → fs.incoming ≡ heard ++ rest
      → (b ≡ false → rest ≡ [])
      → ((before : List ℕ) × (heard ≡ before ++ prompt)) ⊎ (rest ≡ [])
  ended false fs t heard rest e split none_left = inr (none_left refl)
  ended true fs t heard rest e split none_left =
      let got = echo_until_fn-Heard (wr_console h) prompt fs.incoming rest fs t e in
      inl (got.before, same_front heard got.heard rest (sym split ∙ got.split) ∙ got.ends)

  -- The wait always ends, and what it took from the line stands at the end of the console.
  pub wait_prompt-Waited :
      (fs : Fs) (q : List ℕ) (f : File)
      → IsDirectory fs.root
      → At fs.root fs.console q f
      → f.n_data + length fs.incoming < 2 ^ 64
      → (gs : Fs) × (wait_prompt h fs ≡ ok gs) × Waited fs gs q (view f)
  unfolding echo_until_fn mk_fsm
  wait_prompt-Waited fs q f good a small =
      let run =
        echo_from-Echoed (record { pos = 0; fsm_end = length prompt; exit_string = prompt })
          fs.incoming fs q f (omega arith) good a small in
      (
        record run.after { incoming = run.rest },
        wait_prompt_run fs run.after run.seen run.rest run.runs,
        record {
          heard = run.heard;
          split = run.split;
          grew = record {
            file = run.grew.file;
            place = run.grew.place;
            bytes = run.grew.bytes;
            others = run.grew.others;
            rights_kept = run.grew.rights_kept;
            kept = run.grew.kept;
            sent_kept = run.grew.sent_kept;
          };
          ends = ended run.seen fs run.after run.heard run.rest run.runs run.split run.all_taken;
        },
      )

-- ===== src/HostShell/Tokens.antt =====
-- The tokens of a line are its words.
use simple_pi_os.Prelude.{
  All, Bool-cases, List, Result, [], ap, arith, assert, drop, false, if◌then◌else◌, inl, inr,
  length, ne→!=, ne→==, none, ok, refl, some, subst, suc, sym, true, zero, ℕ, ◌!=◌, ◌++◌, ◌<◌,
  ◌>>=◌, ◌>>◌, ◌∙◌, ◌∷◌, ◌≡◌, ◌≢◌, ◌⊎◌,
}
use simple_pi_os.HostShell.{isspace, skip_nonspace, skip_space, tokenize}

-- A character before a text: it starts a word, or is the first of the word that is there.
abbrev pub glue : ℕ → List ℕ → List (List ℕ) → List (List ℕ)
glue c [] ws = (c ∷ []) ∷ ws
glue c (d ∷ s) [] = (c ∷ []) ∷ []
glue c (d ∷ s) (w ∷ ws) = if isspace d then (c ∷ []) ∷ w ∷ ws else (c ∷ w) ∷ ws

-- The longest runs of characters that are not white space
abbrev pub words : List ℕ → List (List ℕ)
words [] = []
words (c ∷ s) = if isspace c then words s else glue c s (words s)

-- No character is zero.
abbrev pub IsText : List ℕ → Type 0
IsText s = All (λ c. c ≢ 0) s

abbrev front : List ℕ → List ℕ
front [] = []
front (c ∷ s) = if isspace c then [] else c ∷ front s

abbrev behind : List ℕ → List ℕ
behind [] = []
behind (c ∷ s) = if isspace c then c ∷ s else behind s

glue-space :
    (c d : ℕ) (s : List ℕ) (ws : List (List ℕ))
    → isspace d ≡ true
    → glue c (d ∷ s) ws ≡ (c ∷ []) ∷ ws
glue-space c d s [] e = refl
glue-space c d s (w ∷ ws) e = rw e refl

glue-words : (c : ℕ) (s : List ℕ) → glue c s (words s) ≡ (c ∷ front s) ∷ words (drop 1 (behind s))
glue-words c [] = refl
glue-words c (d ∷ s) = elim (Bool-cases (isspace d)) [
  | inl e ↦ rw e (glue-space c d s (words s) e)
  | inr e ↦ rw (e, glue-words d s, e) refl
]

skip_nonspace-front :
    (s end : List ℕ)
    → IsText s
    → skip_nonspace (s ++ (0 ∷ end)) ≡ ok (front s, behind s ++ (0 ∷ end))
unfolding skip_nonspace
skip_nonspace-front [] end text = refl
skip_nonspace-front (c ∷ s) end text = elim (Bool-cases (isspace c)) [
  | inl e ↦ rw (ne→== c 0 text.0, e) refl
  | inr e ↦ rw (ne→== c 0 text.0, e, skip_nonspace-front s end text.1) refl
]

behind-IsText : (s : List ℕ) → IsText s → IsText (behind s)
behind-IsText [] text = tt
behind-IsText (c ∷ s) text = elim (Bool-cases (isspace c)) [
  | inl e ↦ rw e text
  | inr e ↦ rw e (behind-IsText s text.1)
]

-- The pointer at the first word of a text, and what its words are
record Start (s end : List ℕ) : Type 0 where
  first : ℕ
  rest : List ℕ
  visible : isspace first ≡ false
  text : IsText (first ∷ rest)
  found : skip_space (s ++ (0 ∷ end)) ≡ ok (some (first ∷ (rest ++ (0 ∷ end))))
  same : words s ≡ glue first rest (words rest)

start :
    (s end : List ℕ)
    → IsText s
    → ((skip_space (s ++ (0 ∷ end)) ≡ ok none) × (words s ≡ [])) ⊎ Start s end
unfolding skip_space
start [] end text = inl (refl, refl)
start (c ∷ s) end text = elim (Bool-cases (isspace c)) [
  | inl e ↦ elim (start s end text.1) [
    | inl gone ↦ inl (rw (ne→== c 0 text.0, e) gone.0, rw e gone.1)
    | inr more ↦ inr record {
      first = more.first;
      rest = more.rest;
      visible = more.visible;
      text = more.text;
      found = rw (ne→== c 0 text.0, e) more.found;
      same = rw e more.same;
    }
  ]
  | inr e ↦ inr record {
    first = c;
    rest = s;
    visible = e;
    text = text;
    found = rw (ne→== c 0 text.0, e) refl;
    same = rw e refl;
  }
]

assert-nonzero : (n : ℕ) → (next : Result (List (List ℕ))) → (assert (suc n != 0) >> next) ≡ next
assert-nonzero n next = rw (ne→!= (suc n) 0 (omega arith)) refl

-- One token, and what is left of the buffer
tokenize-step :
    (rounds : ℕ)
    → (p : List ℕ) → (c : ℕ) → (t w after : List ℕ) → skip_space p ≡ ok (some t)
    → skip_nonspace t ≡ ok (c ∷ w, after)
    → tokenize (suc rounds) p ≡ (tokenize rounds (drop 1 after) >>= λ argv. ok ((c ∷ w) ∷ argv))
unfolding tokenize
tokenize-step rounds p c t w after e f =
    rw (e, f)
      (assert-nonzero (length w) (tokenize rounds (drop 1 after) >>= λ argv. ok ((c ∷ w) ∷ argv)))

-- The buffer behind a token: the zero that ended the line was passed, if the token was the last.
tokenize-end : (rounds : ℕ) → tokenize (suc rounds) (0 ∷ []) ≡ ok []
unfolding tokenize skip_space
tokenize-end rounds = refl

tokenize-none :
    (rounds : ℕ) → (p : List ℕ) → skip_space p ≡ ok none → tokenize (suc rounds) p ≡ ok []
unfolding tokenize
tokenize-none rounds p e = rw e refl

skip_nonspace-first :
    (c : ℕ)
    → (p w after : List ℕ) → c ≢ 0
    → isspace c ≡ false
    → skip_nonspace p ≡ ok (w, after)
    → skip_nonspace (c ∷ p) ≡ ok (c ∷ w, after)
unfolding skip_nonspace
skip_nonspace-first c p w after nonzero visible e = rw (ne→== c 0 nonzero, visible, e) refl

then_token :
    (c : ℕ)
    → (w : List ℕ) → (run : Result (List (List ℕ))) → (ws : List (List ℕ)) → run ≡ ok ws
    → (run >>= λ argv. ok ((c ∷ w) ∷ argv)) ≡ ok ((c ∷ w) ∷ ws)
then_token c w run ws e = rw e refl

-- What the words behind a token are, when every shorter run of the rounds finds the words
tokenize-rest :
    (rounds : ℕ)
    → ((line : List ℕ)
        → IsText line
        → length (words line) < rounds
        → tokenize rounds (line ++ (0 ∷ 0 ∷ [])) ≡ ok (words line))
    → (left : List ℕ) → IsText left
    → length (words (drop 1 left)) < rounds
    → tokenize rounds (drop 1 (left ++ (0 ∷ 0 ∷ []))) ≡ ok (words (drop 1 left))
tokenize-rest zero below left text few = absurd (omega (arith, few))
tokenize-rest (suc rounds) below [] text few = tokenize-end rounds
tokenize-rest (suc rounds) below (c ∷ left) text few = below left text.1 few

-- The line that the shell has read, its line feed replaced by a zero before the zero that ends it, is split into its
-- words, when there are fewer of them than rounds.
pub tokenize-words :
    (rounds : ℕ)
    → (line : List ℕ) → IsText line
    → length (words line) < rounds
    → tokenize rounds (line ++ (0 ∷ 0 ∷ [])) ≡ ok (words line)
tokenize-words zero line text few = absurd (omega (arith, few))
tokenize-words (suc rounds) line text few = elim (start line (0 ∷ []) text) [
  | inl gone ↦ tokenize-none rounds (line ++ (0 ∷ 0 ∷ [])) gone.0 ∙ sym (ap ok gone.1)
  | inr more ↦
      let split = more.same ∙ glue-words more.first more.rest in
      let fewer = subst (λ ws. length ws < suc rounds) split few in
      let taken = skip_nonspace-front more.rest (0 ∷ []) more.text.1 in
      tokenize-step rounds (line ++ (0 ∷ 0 ∷ [])) more.first
        (more.first ∷ (more.rest ++ (0 ∷ 0 ∷ []))) (front more.rest)
        (behind more.rest ++ (0 ∷ 0 ∷ [])) more.found
        (skip_nonspace-first more.first (more.rest ++ (0 ∷ 0 ∷ [])) (front more.rest)
          (behind more.rest ++ (0 ∷ 0 ∷ [])) more.text.0 more.visible taken)
      ∙ then_token more.first (front more.rest)
          (tokenize rounds (drop 1 (behind more.rest ++ (0 ∷ 0 ∷ []))))
          (words (drop 1 (behind more.rest)))
          (tokenize-rest rounds (tokenize-words rounds) (behind more.rest)
            (behind-IsText more.rest more.text.1) (omega (arith, fewer)))
      ∙ sym (ap ok split)
]

-- ===== src/Queue/Sequence.antt =====
-- The queue as the sequence of its elements.
use simple_pi_os.Prelude.{
  ==_refl, All, Distinct, List, [], ap, false, if◌then◌else◌, ne→==, ok, refl, subst, sym, update,
  ℕ, ◌++◌, ◌==◌, ◌∙◌, ◌∷◌, ◌≡◌, ◌≢◌,
}
use simple_pi_os.Queue.{Q, q_pop, q_append}

-- The `next` fields lead from `p` through the elements to the null pointer.
abbrev pub Chain : (ℕ → ℕ) → ℕ → List ℕ → Type 0
Chain next p [] = p ≡ 0
Chain next p (x ∷ xs) = (p ≡ x) × (x ≢ 0) × Chain next (next x) xs

abbrev pub last_of : List ℕ → ℕ
last_of [] = 0
last_of (x ∷ []) = x
last_of (x ∷ y ∷ ys) = last_of (y ∷ ys)

pub record IsQueue (next : ℕ → ℕ) (q : Q) (xs : List ℕ) : Type 0 where
  pub chain : Chain next q.head xs
  pub last : q.tail ≡ last_of xs
  pub distinct : Distinct xs

update-other : (next : ℕ → ℕ) (a v x : ℕ) → x ≢ a → update next a v x ≡ next x
update-other next a v x ne = rw (ne→== x a ne) refl

update-same : (next : ℕ → ℕ) (a v : ℕ) → update next a v a ≡ v
update-same next a v = rw (==_refl a) refl

-- A write to another element leaves the chain.
pub Chain-update :
    (next : ℕ → ℕ) (a v p : ℕ) (xs : List ℕ)
    → All (λ x. x ≢ a) xs
    → Chain next p xs
    → Chain (update next a v) p xs
Chain-update next a v p [] other c = c
Chain-update next a v p (x ∷ xs) other c =
    (c.0, c.1, rw (update-other next a v x other.0) (Chain-update next a v (next x) xs other.1 c.2))

All-last : (P : ℕ → Type 0) (x : ℕ) (xs : List ℕ) → All P (x ∷ xs) → P (last_of (x ∷ xs))
All-last P x [] h = h.0
All-last P x (y ∷ ys) h = All-last P y ys h.1

Chain-snoc :
    (next : ℕ → ℕ) (e p x : ℕ) (xs : List ℕ)
    → Chain next p (x ∷ xs)
    → Distinct (x ∷ xs)
    → All (λ y. y ≢ e) (x ∷ xs)
    → next e ≡ 0
    → e ≢ 0
    → Chain (update next (last_of (x ∷ xs)) e) p ((x ∷ xs) ++ (e ∷ []))
Chain-snoc next e p x [] c d other end ne =
    (c.0, c.1, (update-same next x e, ne, update-other next x e e (λ h. other.0 (sym h)) ∙ end))
Chain-snoc next e p x (y ∷ ys) c d other end ne =
    let apart = All-last (λ z. x ≢ z) y ys d.0 in
    (
      c.0,
      c.1,
      rw (update-other next (last_of (y ∷ ys)) e x apart)
          (Chain-snoc next e (next x) y ys c.2 d.1 other.1 end ne),
    )

pub All-snoc : (P : ℕ → Type 0) (xs : List ℕ) (e : ℕ) → All P xs → P e → All P (xs ++ (e ∷ []))
All-snoc P [] e h p = (p, tt)
All-snoc P (x ∷ xs) e h p = (h.0, All-snoc P xs e h.1 p)

pub Distinct-snoc :
    (xs : List ℕ) (e : ℕ) → Distinct xs → All (λ y. y ≢ e) xs → Distinct (xs ++ (e ∷ []))
Distinct-snoc [] e d other = (tt, tt)
Distinct-snoc (x ∷ xs) e d other =
    (All-snoc (λ y. x ≢ y) xs e d.0 other.0, Distinct-snoc xs e d.1 other.1)

last-snoc : (x : ℕ) (xs : List ℕ) (e : ℕ) → last_of ((x ∷ xs) ++ (e ∷ [])) ≡ e
last-snoc x [] e = refl
last-snoc x (y ∷ ys) e = last-snoc y ys e

last_ne : (next : ℕ → ℕ) (p x : ℕ) (xs : List ℕ) → Chain next p (x ∷ xs) → last_of (x ∷ xs) ≢ 0
last_ne next p x [] c = c.1
last_ne next p x (y ∷ ys) c = last_ne next (next x) y ys c.2

-- Appending an element that is not in the queue puts it at the end of the sequence.
pub q_append-IsQueue :
    (next : ℕ → ℕ) (q : Q) (e : ℕ) (xs : List ℕ)
    → IsQueue next q xs
    → e ≢ 0
    → All (λ y. y ≢ e) xs
    → IsQueue (q_append q e next).1 (q_append q e next).0 (xs ++ (e ∷ []))
unfolding q_append
q_append-IsQueue next q e [] is ne other =
    rw (is.last)
      (record { chain = (refl, ne, update-same next e 0); last = refl; distinct = (tt, tt) })
q_append-IsQueue next q e (x ∷ xs) is ne other =
    let tail_ne : (q.tail == 0) ≡ false =
      ne→== q.tail 0 (λ h. last_ne next q.head x xs is.chain (sym is.last ∙ h)) in
    let cleared = Chain-update next e 0 q.head (x ∷ xs) other is.chain in
    let longer : Chain (update (update next e 0) q.tail e) q.head ((x ∷ xs) ++ (e ∷ [])) =
      subst (λ t. Chain (update (update next e 0) t e) q.head ((x ∷ xs) ++ (e ∷ []))) (sym is.last)
        (Chain-snoc (update next e 0) e q.head x xs cleared is.distinct other (update-same next e 0)
          ne) in
    rw tail_ne (record {
      chain = longer;
      last = sym (last-snoc x xs e);
      distinct = Distinct-snoc (x ∷ xs) e is.distinct other;
    })

popped : (next : ℕ → ℕ) → Q → Q
popped next q = record q { head = next q.head; tail = if next q.head == 0 then 0 else q.tail }

popped-IsQueue :
    (next : ℕ → ℕ) (q : Q) (x : ℕ) (xs : List ℕ)
    → IsQueue next q (x ∷ xs)
    → IsQueue next (popped next q) xs
unfolding popped
popped-IsQueue next q x [] is =
    let end : next q.head ≡ 0 = ap next is.chain.0 ∙ is.chain.2 in
    record { chain = end; last = rw (ap (λ h. h == 0) end) refl; distinct = tt }
popped-IsQueue next q x (y ∷ ys) is =
    let here : next q.head ≡ next x = ap next is.chain.0 in
    let more : (next q.head == 0) ≡ false =
      ne→== (next q.head) 0 (λ h. is.chain.2.1 (sym is.chain.2.0 ∙ sym here ∙ h)) in
    record { chain = rw here is.chain.2; last = rw more is.last; distinct = is.distinct.1 }

-- A pop gives the first element of the sequence and leaves the others, or gives the null pointer.
pub q_pop-IsQueue :
    (next : ℕ → ℕ) (q : Q) (x : ℕ) (xs : List ℕ)
    → IsQueue next q (x ∷ xs)
    → (r : Q) × (q_pop q next ≡ ok (x, r)) × IsQueue next r xs
unfolding q_pop popped
q_pop-IsQueue next q x xs is =
    let some_head : (q.head == 0) ≡ false = ne→== q.head 0 (λ h. is.chain.1 (sym is.chain.0 ∙ h)) in
    (
      popped next q,
      rw (q_pop, some_head) (ap (λ h. ok (h, popped next q)) is.chain.0),
      popped-IsQueue next q x xs is,
    )

pub q_pop-empty : (next : ℕ → ℕ) (q : Q) → IsQueue next q [] → q_pop q next ≡ ok (0, q)
unfolding q_pop
q_pop-empty next q is = rw (q_pop, is.chain, is.last) refl

-- Appending to one queue leaves another one that shares no element with it.
pub q_append-Chain :
    (next : ℕ → ℕ) (q : Q) (e p : ℕ) (xs ys : List ℕ)
    → IsQueue next q xs
    → All (λ y. y ≢ e) ys
    → All (λ x. All (λ y. y ≢ x) ys) xs
    → Chain next p ys
    → Chain (q_append q e next).1 p ys
unfolding q_append
q_append-Chain next q e p [] ys is other apart c = rw is.last (Chain-update next e 0 p ys other c)
q_append-Chain next q e p (x ∷ xs) ys is other apart c =
    let tail_ne : (q.tail == 0) ≡ false =
      ne→== q.tail 0 (λ h. last_ne next q.head x xs is.chain (sym is.last ∙ h)) in
    let not_last = All-last (λ x. All (λ y. y ≢ x) ys) x xs apart in
    let not_tail : All (λ y. y ≢ q.tail) ys =
      subst (λ t. All (λ y. y ≢ t) ys) (sym is.last) not_last in
    rw tail_ne
      (Chain-update (update next e 0) q.tail e p ys not_tail (Chain-update next e 0 p ys other c))

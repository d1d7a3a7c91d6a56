-- ===== src/Thread/Schedule.antt =====
-- The scheduler as a running thread, a sequence of ready threads, and a sequence of free ones.
use simple_pi_os.Prelude.{
  ==_refl, All, List, [], ap, append_assoc, false, if◌then◌else◌, length, ne→==, ok, refl, suc, sym,
  update, ℕ, ◌++◌, ◌==◌, ◌∷◌, ◌≡◌, ◌≢◌,
}
use simple_pi_os.Queue.{Q}
use simple_pi_os.Queue.Sequence.{
  Chain-update, IsQueue, q_append-Chain, q_append-IsQueue, q_pop-IsQueue, q_pop-empty, All-snoc,
}
use simple_pi_os.Thread.{
  Threads, append_free, append_ready, pop_ready, rpi_exit, rpi_yield, switch_from, switch_to,
  zero_thread,
}

-- No address is in both.
abbrev pub Apart : (xs ys : List ℕ) → Type 0
Apart xs ys = All (λ x. All (λ y. y ≢ x) ys) xs

abbrev pub NotIn : ℕ → List ℕ → Type 0
NotIn x ys = All (λ y. y ≢ x) ys

-- The ready threads stand in `runq` and the free ones in `freeq`, in order; no thread is in both or twice in
-- one, and the running thread is in neither.
pub record IsScheduled (s : Threads) (rs fs : List ℕ) : Type 0 where
  pub ready : IsQueue s.next s.runq rs
  pub free : IsQueue s.next s.freeq fs
  pub apart : Apart rs fs
  pub running : s.cur_thread ≢ 0
  pub not_ready : NotIn s.cur_thread rs
  pub not_free : NotIn s.cur_thread fs

pub NotIn-flip : (x : ℕ) (ys : List ℕ) → All (λ y. x ≢ y) ys → NotIn x ys
NotIn-flip x [] h = tt
NotIn-flip x (y ∷ ys) h = ((λ e. h.0 (sym e)), NotIn-flip x ys h.1)

Apart-cons : (y : ℕ) (xs ys : List ℕ) → NotIn y xs → Apart xs ys → Apart xs (y ∷ ys)
Apart-cons y [] ys h a = tt
Apart-cons y (x ∷ xs) ys h a = (((λ e. h.0 (sym e)), a.0), Apart-cons y xs ys h.1 a.1)

Apart-snoc : (y : ℕ) (xs ys : List ℕ) → NotIn y xs → Apart xs ys → Apart xs (ys ++ (y ∷ []))
Apart-snoc y [] ys h a = tt
Apart-snoc y (x ∷ xs) ys h a =
    (All-snoc (λ z. z ≢ x) ys y a.0 (λ e. h.0 (sym e)), Apart-snoc y xs ys h.1 a.1)

Apart-nil : (xs : List ℕ) → Apart xs []
Apart-nil [] = tt
Apart-nil (x ∷ xs) = (tt, Apart-nil xs)

pub Apart-flip : (xs ys : List ℕ) → Apart xs ys → Apart ys xs
Apart-flip [] ys a = Apart-nil ys
Apart-flip (x ∷ xs) ys a = Apart-cons x ys xs a.0 (Apart-flip xs ys a.1)

pop_ready-IsQueue :
    (s : Threads) (r : ℕ) (rs : List ℕ)
    → IsQueue s.next s.runq (r ∷ rs)
    → (q : Q) × (pop_ready s ≡ ok (r, record s { runq = q })) × IsQueue s.next q rs
unfolding pop_ready
pop_ready-IsQueue s r rs is =
    let got = q_pop-IsQueue s.next s.runq r rs is in (got.0, rw (pop_ready, got.1) refl, got.2)

pop_ready-empty : (s : Threads) → IsQueue s.next s.runq [] → pop_ready s ≡ ok (0, s)
unfolding pop_ready
pop_ready-empty s is = rw (pop_ready, q_pop-empty s.next s.runq is) refl

rpi_yield_run :
    (saved r : ℕ) (s t : Threads)
    → pop_ready s ≡ ok (r, t)
    → (r == 0) ≡ false
    → rpi_yield saved s
      ≡ ok (
          switch_from s.cur_thread saved r
            (record (append_ready s.cur_thread t) { cur_thread = r }))
unfolding rpi_yield
rpi_yield_run saved r s t got ne = rw (rpi_yield, got, ne) refl

-- A yield runs the thread that has been ready for longest; the thread that yielded is the last of the
-- ready ones, with its stack pointer stored, and the free threads are as before.
pub rpi_yield-IsScheduled :
    (saved : ℕ) (s : Threads) (r : ℕ) (rs fs : List ℕ)
    → IsScheduled s (r ∷ rs) fs
    → (t : Threads) × (rpi_yield saved s ≡ ok t)
      × IsScheduled t (rs ++ (s.cur_thread ∷ [])) fs
      × (t.cur_thread ≡ r)
      × (t.on_cpu ≡ r)
      × (t.sp s.cur_thread ≡ saved)
unfolding switch_from append_ready
rpi_yield-IsScheduled saved s r rs fs is =
    let c = s.cur_thread in
    let got = pop_ready-IsQueue s r rs is.ready in
    let r_ne : r ≢ 0 = is.ready.chain.1 in
    let t =
      switch_from c saved r
        (record (append_ready c (record s { runq = got.0 })) { cur_thread = r }) in
    let queued = q_append-IsQueue s.next got.0 c rs got.2 is.running is.not_ready.1 in
    let still_free =
      q_append-Chain s.next got.0 c s.freeq.head rs fs got.2 is.not_free is.apart.1 is.free.chain in
    (
      t,
      rpi_yield_run saved r s (record s { runq = got.0 }) got.1 (ne→== r 0 r_ne),
      record {
        ready = queued;
        free = record { chain = still_free; last = is.free.last; distinct = is.free.distinct };
        apart = All-snoc (λ x. All (λ y. y ≢ x) fs) rs c is.apart.1 is.not_free;
        running = r_ne;
        not_ready =
            All-snoc (λ y. y ≢ r) rs c (NotIn-flip r rs is.ready.distinct.0)
              (λ e. is.not_ready.0 (sym e));
        not_free = is.apart.0;
      },
      refl,
      refl,
      rw (==_refl c) refl,
    )

-- With no other thread ready a yield changes nothing.
rpi_yield-alone :
    (saved : ℕ) (s : Threads) (fs : List ℕ) → IsScheduled s [] fs → rpi_yield saved s ≡ ok s
unfolding rpi_yield
rpi_yield-alone saved s fs is = rw (rpi_yield, pop_ready-empty s is.ready) refl

rpi_exit_run :
    (r new : ℕ) (s t : Threads)
    → pop_ready (append_free s.cur_thread (zero_thread s.cur_thread s)) ≡ ok (r, t)
    → (if r == 0 then s.scheduler_thread else r) ≡ new
    → rpi_exit s ≡ ok (switch_to new (record t { cur_thread = new }))
unfolding rpi_exit append_free zero_thread
rpi_exit_run r new s t got e =
    rw (rpi_exit, got) (ap (λ n. ok (switch_to n (record t { cur_thread = n }))) e)

-- The exiting thread is cleared and put behind the free ones.
exited-IsQueue :
    (s : Threads) (rs fs : List ℕ)
    → IsScheduled s rs fs
    → IsQueue (append_free s.cur_thread (zero_thread s.cur_thread s)).next s.runq rs
      × IsQueue
          (append_free s.cur_thread (zero_thread s.cur_thread s)).next
          (append_free s.cur_thread (zero_thread s.cur_thread s)).freeq
          (fs ++ (s.cur_thread ∷ []))
unfolding append_free zero_thread
exited-IsQueue s rs fs is =
    let c = s.cur_thread in
    let next = update s.next c 0 in
    let free : IsQueue next s.freeq fs = record {
      chain = Chain-update s.next c 0 s.freeq.head fs is.not_free is.free.chain;
      last = is.free.last;
      distinct = is.free.distinct;
    } in
    let ready = Chain-update s.next c 0 s.runq.head rs is.not_ready is.ready.chain in
    (
      record {
        chain =
            q_append-Chain next s.freeq c s.runq.head fs rs free is.not_ready
              (Apart-flip rs fs is.apart) ready;
        last = is.ready.last;
        distinct = is.ready.distinct;
      },
      q_append-IsQueue next s.freeq c fs free is.running is.not_free,
    )

-- An exit runs the thread that has been ready for longest, and the thread that exited is the last of the
-- free ones.
pub rpi_exit-IsScheduled :
    (s : Threads) (r : ℕ) (rs fs : List ℕ)
    → IsScheduled s (r ∷ rs) fs
    → (t : Threads) × (rpi_exit s ≡ ok t)
      × IsScheduled t rs (fs ++ (s.cur_thread ∷ []))
      × (t.cur_thread ≡ r)
      × (t.on_cpu ≡ r)
unfolding switch_to append_free zero_thread
rpi_exit-IsScheduled s r rs fs is =
    let c = s.cur_thread in
    let gone = append_free c (zero_thread c s) in
    let both = exited-IsQueue s (r ∷ rs) fs is in
    let got = pop_ready-IsQueue gone r rs both.0 in
    let r_ne : r ≢ 0 = is.ready.chain.1 in
    let t = record gone { runq = got.0 } in
    let new : (if r == 0 then s.scheduler_thread else r) ≡ r = rw (ne→== r 0 r_ne) refl in
    (
      switch_to r (record t { cur_thread = r }),
      rpi_exit_run r r s t got.1 new,
      record {
        ready = got.2;
        free = both.1;
        apart = Apart-snoc c rs fs is.not_ready.1 is.apart.1;
        running = r_ne;
        not_ready = NotIn-flip r rs is.ready.distinct.0;
        not_free = All-snoc (λ y. y ≢ r) fs c is.apart.0 (λ e. is.not_ready.0 (sym e));
      },
      refl,
      refl,
    )

-- When the last thread exits, control goes back to the scheduler.
pub rpi_exit-last :
    (s : Threads) (fs : List ℕ)
    → IsScheduled s [] fs
    → (t : Threads) × (rpi_exit s ≡ ok t)
      × (t.on_cpu ≡ s.scheduler_thread)
      × IsQueue t.next t.freeq (fs ++ (s.cur_thread ∷ []))
unfolding switch_to append_free zero_thread
rpi_exit-last s fs is =
    let c = s.cur_thread in
    let gone = append_free c (zero_thread c s) in
    let both = exited-IsQueue s [] fs is in
    (
      switch_to s.scheduler_thread (record gone { cur_thread = s.scheduler_thread }),
      rpi_exit_run 0 s.scheduler_thread s gone (pop_ready-empty gone both.0) refl,
      refl,
      both.1,
    )

-- Yields, one after the other; each switch stores some stack pointer.
pub data Yields : (rounds : ℕ) → Threads → Threads → Type 0 where
  no_yield : {s : Threads} → Yields 0 s s
  one_more :
      {rounds : ℕ} {s t u : Threads} (saved : ℕ)
      → rpi_yield saved s ≡ ok t
      → Yields rounds t u
      → Yields (suc rounds) s u

-- A ready thread runs after as many yields as there are threads before it, and one more, if no thread exits.
pub rpi_yield-reaches :
    (saved : ℕ) (s : Threads) (before : List ℕ) (r : ℕ) (after fs : List ℕ)
    → IsScheduled s (before ++ (r ∷ after)) fs
    → (t : Threads) × (rs : List ℕ) × Yields (suc (length before)) s t
      × IsScheduled t rs fs
      × (t.on_cpu ≡ r)
rpi_yield-reaches saved s [] r after fs is =
    let got = rpi_yield-IsScheduled saved s r after fs is in
    (got.0, after ++ (s.cur_thread ∷ []), one_more saved got.1 no_yield, got.2, got.4)
rpi_yield-reaches saved s (b ∷ before) r after fs is =
    let got = rpi_yield-IsScheduled saved s b (before ++ (r ∷ after)) fs is in
    let moved : IsScheduled got.0 (before ++ (r ∷ (after ++ (s.cur_thread ∷ [])))) fs =
      (rw (append_assoc before (r ∷ after) (s.cur_thread ∷ [])) at got.2) in
    let rest = rpi_yield-reaches saved got.0 before r (after ++ (s.cur_thread ∷ [])) fs moved in
    (rest.0, rest.1, one_more saved got.1 rest.2, rest.3, rest.4)

-- ===== src/Thread/Fork.antt =====
-- `rpi_fork`: a new thread, ready to run its code.
use simple_pi_os.Prelude.{
  ==_refl, All, List, [], arith, inl, inr, ne→==, ok, refl, sym, ℕ, ◌++◌, ◌+◌, ◌∙◌, ◌∷◌, ◌≡◌, ◌≢◌,
  ◌⊎◌,
}
use simple_pi_os.Queue.{Q}
use simple_pi_os.Queue.Sequence.{
  IsQueue, q_append-Chain, q_append-IsQueue, q_pop-IsQueue, q_pop-empty, All-snoc,
}
use simple_pi_os.Thread.{
  Alloc, Threads, append_ready, cpsr_offset, lr_offset, mk_thread, r0_offset, r1_offset, rpi_fork,
  set_up, sizeof_thread,
}
use simple_pi_os.Thread.Schedule.{Apart, Apart-flip, IsScheduled, NotIn, NotIn-flip}

-- The queues with the ready threads and the free ones, before the threads are started as well, when none runs.
pub record IsQueued (s : Threads) (rs fs : List ℕ) : Type 0 where
  pub ready : IsQueue s.next s.runq rs
  pub free : IsQueue s.next s.freeq fs
  pub apart : Apart rs fs
  pub not_ready : NotIn s.cur_thread rs
  pub not_free : NotIn s.cur_thread fs

pub IsQueued-IsScheduled :
    (s : Threads) (rs fs : List ℕ) → IsQueued s rs fs → s.cur_thread ≢ 0 → IsScheduled s rs fs
IsQueued-IsScheduled s rs fs is running = record {
  ready = is.ready;
  free = is.free;
  apart = is.apart;
  running = running;
  not_ready = is.not_ready;
  not_free = is.not_free;
}

pub IsScheduled-IsQueued : (s : Threads) (rs fs : List ℕ) → IsScheduled s rs fs → IsQueued s rs fs
IsScheduled-IsQueued s rs fs is = record {
  ready = is.ready;
  free = is.free;
  apart = is.apart;
  not_ready = is.not_ready;
  not_free = is.not_free;
}

-- The switch to the thread loads these registers from above its stack pointer.
pub record IsPrepared (t : Threads) (x code arg cpsr trampoline : ℕ) : Type 0 where
  pub inside : t.sp x + 15 ≡ 8191
  pub r0 : t.stack x (t.sp x + r0_offset) ≡ arg
  pub r1 : t.stack x (t.sp x + r1_offset) ≡ code
  pub lr : t.stack x (t.sp x + lr_offset) ≡ trampoline
  pub psr : t.stack x (t.sp x + cpsr_offset) ≡ cpsr

set_up-IsPrepared :
    (x code arg cpsr trampoline : ℕ) (s : Threads)
    → IsPrepared (append_ready x (set_up x code arg cpsr trampoline s)) x code arg cpsr trampoline
unfolding append_ready set_up
set_up-IsPrepared x code arg cpsr trampoline s = record {
  inside = rw (==_refl x) refl;
  r0 = rw (==_refl x) refl;
  r1 = rw (==_refl x) refl;
  lr = rw (==_refl x) refl;
  psr = rw (==_refl x) refl;
}

entered :
    (x code arg cpsr trampoline : ℕ) (s : Threads) (q : Q) (rs fs : List ℕ)
    → IsQueue s.next s.runq rs
    → IsQueue s.next q fs
    → Apart rs fs
    → NotIn s.cur_thread rs
    → NotIn s.cur_thread fs
    → x ≢ 0
    → NotIn x rs
    → NotIn x fs
    → x ≢ s.cur_thread
    → IsQueued
        (append_ready x (set_up x code arg cpsr trampoline (record s { freeq = q })))
        (rs ++ (x ∷ []))
        fs
unfolding append_ready set_up
entered x code arg cpsr trampoline s q rs fs ready free apart not_ready not_free ne in_rs in_fs
      other =
    record {
      ready = q_append-IsQueue s.next s.runq x rs ready ne in_rs;
      free = record {
        chain = q_append-Chain s.next s.runq x q.head rs fs ready in_fs apart free.chain;
        last = free.last;
        distinct = free.distinct;
      };
      apart = All-snoc (λ x. All (λ y. y ≢ x) fs) rs x apart in_fs;
      not_ready = All-snoc (λ y. y ≢ s.cur_thread) rs x not_ready other;
      not_free = not_free;
    }

module _ {H : Type 0} (a : Alloc H) where
  -- The heap knows every thread as a block in use.
  pub record IsKnown (h : H) (s : Threads) (rs fs : List ℕ) : Type 0 where
    pub good : a.IsGood h
    pub ready_used : All (λ x. a.IsUsed h x) rs
    pub free_used : All (λ x. a.IsUsed h x) fs
    pub running_used : (s.cur_thread ≡ 0) ⊎ a.IsUsed h s.cur_thread

  abbrev pub IsNew : (before after : H) → ℕ → Type 0
  IsNew before after x = (y : ℕ) → a.IsUsed before y → (y ≢ x) × a.IsUsed after y

  others : (h h' : H) (x : ℕ) (xs : List ℕ) → IsNew h h' x → All (λ x. a.IsUsed h x) xs → NotIn x xs
  others h h' x [] new used = tt
  others h h' x (y ∷ xs) new used = ((new y used.0).0, others h h' x xs new used.1)

  still :
      (h h' : H) (x : ℕ) (xs : List ℕ)
      → IsNew h h' x
      → All (λ x. a.IsUsed h x) xs
      → All (λ x. a.IsUsed h' x) xs
  still h h' x [] new used = tt
  still h h' x (y ∷ xs) new used = ((new y used.0).1, still h h' x xs new used.1)

  not_running : (h h' : H) (x c : ℕ) → IsNew h h' x → x ≢ 0 → (c ≡ 0) ⊎ a.IsUsed h c → x ≢ c
  not_running h h' x c new ne (inl e) = λ same. ne (same ∙ e)
  not_running h h' x c new ne (inr used) = λ same. (new c used).0 (sym same)

  still_running :
      (h h' : H) (x c : ℕ) → IsNew h h' x → (c ≡ 0) ⊎ a.IsUsed h c → (c ≡ 0) ⊎ a.IsUsed h' c
  still_running h h' x c new (inl e) = inl e
  still_running h h' x c new (inr used) = inr (new c used).1

  -- If there is a free thread, or room in the heap for a new one, then a fork, before the threads are started or
  -- from a running thread, returns a thread that is neither running nor ready, puts it behind the ready ones, and prepares its
  -- stack: the switch to it finds the argument, the code, the trampoline and the status word in their registers. The heap knows
  -- all threads again.
  pub rpi_fork-IsQueued :
      (code arg cpsr trampoline : ℕ) (s : Threads) (h : H) (rs fs : List ℕ)
      → IsQueued s rs fs
      → IsKnown h s rs fs
      → (fs ≡ [] → a.HasRoom sizeof_thread h)
      → (x : ℕ) × (t : Threads) × (h' : H) × (left : List ℕ) × (rpi_fork a code arg cpsr trampoline
            s h
          ≡ ok (x, (t, h')))
        × IsQueued t (rs ++ (x ∷ [])) left
        × IsKnown h' t (rs ++ (x ∷ [])) left
        × IsPrepared t x code arg cpsr trampoline
        × (t.cur_thread ≡ s.cur_thread)
        × NotIn x rs
        × (x ≢ s.cur_thread)
  unfolding rpi_fork mk_thread append_ready set_up
  rpi_fork-IsQueued code arg cpsr trampoline s h rs [] is known memory =
      let (got, run, good, ne, used, new) =
        a.fresh sizeof_thread h known.good (memory refl) (omega arith) in
      let x = got.0 in
      let not_ready = others h got.1 x rs new known.ready_used in
      let other = not_running h got.1 x s.cur_thread new ne known.running_used in
      (
        x,
        append_ready x (set_up x code arg cpsr trampoline s),
        got.1,
        [],
        rw (rpi_fork, mk_thread, q_pop-empty s.next s.freeq is.free, run) refl,
        entered x code arg cpsr trampoline s s.freeq rs [] is.ready is.free is.apart is.not_ready
            is.not_free ne not_ready tt other,
        record {
          good = good;
          ready_used =
              All-snoc (λ y. a.IsUsed got.1 y) rs x (still h got.1 x rs new known.ready_used) used;
          free_used = tt;
          running_used = still_running h got.1 x s.cur_thread new known.running_used;
        },
        set_up-IsPrepared x code arg cpsr trampoline s,
        refl,
        not_ready,
        other,
      )
  rpi_fork-IsQueued code arg cpsr trampoline s h rs (f ∷ fs) is known memory =
      let got = q_pop-IsQueue s.next s.freeq f fs is.free in
      let swapped = Apart-flip rs (f ∷ fs) is.apart in
      let kept = Apart-flip fs rs swapped.1 in
      let f_ne : f ≢ 0 = is.free.chain.1 in
      let other : f ≢ s.cur_thread = is.not_free.0 in
      let in_fs = NotIn-flip f fs is.free.distinct.0 in
      (
        f,
        append_ready f (set_up f code arg cpsr trampoline (record s { freeq = got.0 })),
        h,
        fs,
        rw (rpi_fork, mk_thread, got.1, ne→== f 0 f_ne) refl,
        entered f code arg cpsr trampoline s got.0 rs fs is.ready got.2 kept is.not_ready
            is.not_free.1 f_ne swapped.0 in_fs other,
        record {
          good = known.good;
          ready_used = All-snoc (λ y. a.IsUsed h y) rs f known.ready_used known.free_used.0;
          free_used = known.free_used.1;
          running_used = known.running_used;
        },
        set_up-IsPrepared f code arg cpsr trampoline (record s { freeq = got.0 }),
        refl,
        swapped.0,
        other,
      )

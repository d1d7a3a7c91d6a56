-- ===== src/Tests/Threads.antt =====
-- Four threads: one runs, two are ready, and one is free.
use simple_pi_os.Prelude.{List, [], arith, if◌then◌else◌, inl, ok, refl, ℕ, ◌==◌, ◌∷◌, ◌≡◌, ◌≢◌}
use simple_pi_os.Kmalloc.{Heap}
use simple_pi_os.Kmalloc.Kernel.{kernel_break}
use simple_pi_os.Process.{Sys}
use simple_pi_os.Tests.Allocator.{fresh_heap, fresh_heap-IsHeap, sys, sys-free}
use simple_pi_os.Thread.Memory.{heap_alloc}
use simple_pi_os.Thread.{Threads, rpi_exit, rpi_fork, rpi_yield}
use simple_pi_os.Thread.Fork.{IsKnown, IsPrepared, IsQueued, rpi_fork-IsQueued}
use simple_pi_os.Thread.Schedule.{
  IsScheduled, NotIn, Yields, rpi_exit-IsScheduled, rpi_yield-IsScheduled, rpi_yield-reaches,
}

abbrev threads : Threads
threads = record {
  runq = record { head = 2; tail = 3; n = 0 };
  freeq = record { head = 4; tail = 4; n = 0 };
  nthreads = 4;
  cur_thread = 1;
  scheduler_thread = 9;
  next = λ t. if t == 2 then 3 else 0;
  sp = λ _. 0;
  tid = λ t. t;
  stack = λ _ _. 0;
  on_cpu = 1;
}

threads-IsScheduled : IsScheduled threads (2 ∷ 3 ∷ []) (4 ∷ [])
threads-IsScheduled = record {
  ready = record {
    chain = (refl, cc, (refl, cc, refl));
    last = refl;
    distinct = ((cc, tt), (tt, tt));
  };
  free = record { chain = (refl, cc, refl); last = refl; distinct = (tt, tt) };
  apart = ((cc, tt), ((cc, tt), tt));
  running = cc;
  not_ready = (cc, (cc, tt));
  not_free = (cc, tt);
}

rpi_yield-IsScheduled_example :
    (t : Threads) × (rpi_yield 77 threads ≡ ok t)
    × IsScheduled t (3 ∷ 1 ∷ []) (4 ∷ [])
    × (t.cur_thread ≡ 2)
    × (t.on_cpu ≡ 2)
    × (t.sp 1 ≡ 77)
rpi_yield-IsScheduled_example =
    rpi_yield-IsScheduled 77 threads 2 (3 ∷ []) (4 ∷ []) threads-IsScheduled

rpi_exit-IsScheduled_example :
    (t : Threads) × (rpi_exit threads ≡ ok t)
    × IsScheduled t (3 ∷ []) (4 ∷ 1 ∷ [])
    × (t.cur_thread ≡ 2)
    × (t.on_cpu ≡ 2)
rpi_exit-IsScheduled_example = rpi_exit-IsScheduled threads 2 (3 ∷ []) (4 ∷ []) threads-IsScheduled

rpi_yield-reaches_example :
    (t : Threads) × (rs : List ℕ) × Yields 2 threads t × IsScheduled t rs (4 ∷ []) × (t.on_cpu ≡ 3)
rpi_yield-reaches_example = rpi_yield-reaches 77 threads (2 ∷ []) 3 [] (4 ∷ []) threads-IsScheduled

-- Before the first fork
abbrev unstarted : Threads
unstarted = record {
  runq = record { head = 0; tail = 0; n = 0 };
  freeq = record { head = 0; tail = 0; n = 0 };
  nthreads = 0;
  cur_thread = 0;
  scheduler_thread = 0;
  next = λ _. 0;
  sp = λ _. 0;
  tid = λ _. 0;
  stack = λ _ _. 0;
  on_cpu = 0;
}

unstarted-IsQueued : IsQueued unstarted [] []
unstarted-IsQueued = record {
  ready = record { chain = refl; last = refl; distinct = tt };
  free = record { chain = refl; last = refl; distinct = tt };
  apart = tt;
  not_ready = tt;
  not_free = tt;
}

unstarted-IsKnown : IsKnown (heap_alloc kernel_break) (fresh_heap, sys) unstarted [] []
unstarted-IsKnown = record {
  good = fresh_heap-IsHeap;
  ready_used = tt;
  free_used = tt;
  running_used = inl refl;
}

rpi_fork-IsQueued_example :
    (x : ℕ) × (t : Threads) × (h' : Heap × Sys) × (left : List ℕ) × (rpi_fork
        (heap_alloc kernel_break)
        0x8000
        5
        0x13
        0x9000
        unstarted
        (fresh_heap, sys)
      ≡ ok (x, (t, h')))
    × IsQueued t (x ∷ []) left
    × IsKnown (heap_alloc kernel_break) h' t (x ∷ []) left
    × IsPrepared t x 0x8000 5 0x13 0x9000
    × (t.cur_thread ≡ 0)
    × NotIn x []
    × (x ≢ 0)
rpi_fork-IsQueued_example =
    rpi_fork-IsQueued (heap_alloc kernel_break) 0x8000 5 0x13 0x9000 unstarted (fresh_heap, sys) []
      [] unstarted-IsQueued unstarted-IsKnown (λ _. (omega (arith, sys-free), omega arith))

-- ===== src/Thread/Memory.antt =====
-- Threads get their memory from the heap of pi-side/libpi/kmalloc.c.
use simple_pi_os.Prelude.{Result, arith, ok, ℕ, ◌*◌, ◌+◌, ◌<◌, ◌^◌, ◌≡◌, ◌≢◌}
use simple_pi_os.Kmalloc.{Break, Heap, kmalloc, mib}
use simple_pi_os.Kmalloc.Blocks.{IsHeap, kmalloc-IsHeap, needed, whole}
use simple_pi_os.Thread.{Alloc}

module _ {S : Type 0} (k : Break S) where
  -- The heap with the state of the system
  abbrev pub State : Type 0
  State = Heap × S

  -- A block that has been given out starts below the heap pointer.
  abbrev pub IsBlock : State → ℕ → Type 0
  IsBlock hs a = a < hs.0.heap

  abbrev pub HasRoom : ℕ → State → Type 0
  HasRoom n hs = k.HasRoom (needed hs.0 (whole n)) hs.1 × (hs.0.heap + n + 8 + 2 * mib < 2 ^ 32)

  abbrev pub allocate : ℕ → State → Result (ℕ × State)
  allocate n hs = kmalloc k n hs.0 hs.1

  pub allocate-fresh :
      (n : ℕ) (hs : State)
      → IsHeap k hs.0 hs.1
      → HasRoom n hs
      → 0 < n
      → (got : ℕ × State) × (allocate n hs ≡ ok got)
        × IsHeap k got.1.0 got.1.1
        × (got.0 ≢ 0)
        × IsBlock got.1 got.0
        × ((a : ℕ) → IsBlock hs a → (a ≢ got.0) × IsBlock got.1 a)
  allocate-fresh n (h, s) good (room, fits) some_n =
      let got = kmalloc-IsHeap k n h s good room fits in
      (
        (h.heap, (got.0, got.1)),
        got.2,
        got.3,
        (λ e. omega (arith, e, good.opened, good.ordered)),
        omega (arith, got.4, some_n),
        λ a below. ((λ e. omega (arith, e, below)), omega (arith, got.4, below)),
      )

  abbrev pub heap_alloc : Alloc State
  heap_alloc = record {
    IsGood = λ hs. IsHeap k hs.0 hs.1;
    IsUsed = IsBlock;
    HasRoom = HasRoom;
    kmalloc = allocate;
    fresh = allocate-fresh;
  }

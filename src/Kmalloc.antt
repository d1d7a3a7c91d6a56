-- ===== src/Kmalloc.antt =====
-- The heap of pi-side/libpi/kmalloc.c, over the system call that moves the break.
pub mod Blocks
pub mod Kernel
use simple_pi_os.Prelude.{
  Result, assert, if◌then◌else◌, ltb, ok, out_of_fuel, panic, roundup, suc, u32, zero, ℕ, ◌%◌, ◌+◌,
  ◌-◌, ◌<◌, ◌==◌, ◌>>=◌, ◌>>◌, ◌^◌, ◌≡◌, ◌≤◌,
}

-- The interface to the system call that moves the break and to memory through the page table of the running
-- process. The break moves by whole sections of 1 MiB while there is room, and returns the new break; between
-- `base` and the break memory can be written.
pub record Break (S : Type 0) : Type 1 where
  pub IsLive : S → Type 0
  pub base : S → ℕ
  pub brk : S → ℕ
  pub HasRoom : ℕ → S → Type 0
  pub sbrk : ℕ → S → Result (ℕ × S)
  pub memset_zero : (addr size : ℕ) → S → Result S
  pub grows :
      (incr : ℕ) (s : S)
      → IsLive s
      → 0 < incr
      → incr % 2 ^ 20 ≡ 0
      → HasRoom incr s
      → brk s + incr < 2 ^ 32
      → (t : S) × (sbrk incr s ≡ ok (brk s + incr, t))
        × (brk t ≡ brk s + incr)
        × (base t ≡ base s)
        × IsLive t
  pub fills :
      (addr size : ℕ) (s : S)
      → IsLive s
      → base s ≤ addr
      → addr + size ≤ brk s
      → (t : S) × (memset_zero addr size s ≡ ok t) × (brk t ≡ brk s) × (base t ≡ base s) × IsLive t

pub record Heap : Type 0 where
  pub heap_start : ℕ
  pub heap_end : ℕ
  pub heap : ℕ

abbrev pub mib : ℕ
mib = 0x10_0000

module _ {S : Type 0} (k : Break S) where
  -- The first call finds out where the heap starts.
  unfoldable pub open_heap : Heap → S → Result (Heap × S)
  open_heap h s =
      if h.heap_start == 0
      then (k.sbrk 0 s >>= λ got.
          ok (record { heap_start = got.0; heap_end = got.0; heap = got.0 }, got.1))
      else ok (h, s)

  -- The loop that moves the end of the heap. One round is enough, and the test after it takes another.
  unfoldable pub grow : (fuel sz : ℕ) → Heap → S → Result (Heap × S)
  grow zero sz h s = panic out_of_fuel
  grow (suc fuel) sz h s =
      if ltb h.heap_end (u32 (h.heap + sz))
      then (let incr = roundup (u32 (h.heap + sz + 2 ^ 32 - h.heap_end)) mib in
          k.sbrk incr s >>= λ got.
          assert (got.0 == u32 (h.heap_end + incr))
          >> grow fuel sz (record h { heap_end = u32 (h.heap_end + incr) }) got.1)
      else ok (h, s)

  unfoldable pub take_block : (sz : ℕ) → Heap → S → Result (ℕ × (Heap × S))
  take_block sz h s = do
    t ← k.memset_zero h.heap sz s
    ok (h.heap, (record h { heap = u32 (h.heap + sz) }, t))

  unfoldable pub kmalloc : ℕ → Heap → S → Result (ℕ × (Heap × S))
  kmalloc sz h s = do
    let sz = roundup sz 8
    opened ← open_heap h s
    grown ← grow 2 sz opened.0 opened.1
    take_block sz grown.0 grown.1

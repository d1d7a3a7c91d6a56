-- ===== src/Thread.antt =====
-- The cooperative threads of pi-side/kernel/rpi-thread.c. A thread is its address, and its fields are
-- functions from addresses. `rpi_cswitch`, which is assembly, stores the stack pointer of the old thread
-- and goes on with the new one.
pub mod Schedule
pub mod Fork
pub mod Memory
use simple_pi_os.Prelude.{
  Result, if◌then◌else◌, ok, u32, update, ℕ, ◌*◌, ◌+◌, ◌-◌, ◌/◌, ◌<◌, ◌==◌, ◌>>=◌, ◌>>◌, ◌≡◌, ◌≢◌,
}
use simple_pi_os.Queue.{Q, q_append, q_pop}

-- The interface to the heap: while there is room, a block is not null and is none of those in use.
pub record Alloc (H : Type 0) : Type 1 where
  pub IsGood : H → Type 0
  pub IsUsed : H → ℕ → Type 0
  pub HasRoom : ℕ → H → Type 0
  pub kmalloc : ℕ → H → Result (ℕ × H)
  pub fresh :
      (n : ℕ) (h : H)
      → IsGood h
      → HasRoom n h
      → 0 < n
      → (got : ℕ × H) × (kmalloc n h ≡ ok got)
        × IsGood got.1
        × (got.0 ≢ 0)
        × IsUsed got.1 got.0
        × ((a : ℕ) → IsUsed h a → (a ≢ got.0) × IsUsed got.1 a)

pub record Threads : Type 0 where
  pub runq : Q
  pub freeq : Q
  pub nthreads : ℕ
  pub cur_thread : ℕ
  pub scheduler_thread : ℕ
  pub next : ℕ → ℕ
  pub sp : ℕ → ℕ
  pub tid : ℕ → ℕ
  pub stack : ℕ → ℕ → ℕ
  pub on_cpu : ℕ

abbrev pub stack_size : ℕ
stack_size = 1024 * 8

abbrev pub sizeof_thread : ℕ
sizeof_thread = 12 + 4 * stack_size

-- The words of a new stack: `sp` is so far below the end, and the registers are above `sp`.
abbrev pub total_offset : ℕ
total_offset = 0x3c / 4

abbrev pub cpsr_offset : ℕ
cpsr_offset = 0x3c / 4

abbrev pub lr_offset : ℕ
lr_offset = 0x38 / 4

abbrev pub r0_offset : ℕ
r0_offset = 0x04 / 4

abbrev pub r1_offset : ℕ
r1_offset = 0x08 / 4

unfoldable pub pop_ready : Threads → Result (ℕ × Threads)
pop_ready s = do got ← q_pop s.runq s.next; ok (got.0, record s { runq = got.1 })

unfoldable pub append_ready : ℕ → Threads → Threads
append_ready t s = let put = q_append s.runq t s.next in record s { runq = put.0; next = put.1 }

unfoldable pub append_free : ℕ → Threads → Threads
append_free t s = let put = q_append s.freeq t s.next in record s { freeq = put.0; next = put.1 }

-- The switch away from a thread that goes on later, and from one that does not.
unfoldable pub switch_from : (old saved new : ℕ) → Threads → Threads
switch_from old saved new s = record s { sp = update s.sp old saved; on_cpu = new }

unfoldable pub switch_to : ℕ → Threads → Threads
switch_to new s = record s { on_cpu = new }

-- The first registers of a thread: it calls the trampoline with its code and its argument.
unfoldable pub set_up : (t code arg cpsr trampoline : ℕ) → Threads → Threads
set_up t code arg cpsr trampoline s =
    let sp = stack_size - 1 - total_offset in
    let words =
      update
        (update (update (update (s.stack t) (sp + cpsr_offset) cpsr) (sp + r0_offset) arg)
          (sp + r1_offset) code)
        (sp + lr_offset) trampoline in
    record s {
      nthreads = u32 (s.nthreads + 1);
      tid = update s.tid t s.nthreads;
      sp = update s.sp t sp;
      stack = λ t'. if t' == t then words else s.stack t';
    }

module _ {H : Type 0} (a : Alloc H) where
  unfoldable pub mk_thread : Threads → H → Result (ℕ × (Threads × H))
  mk_thread s h = do
    got ← q_pop s.freeq s.next
    if got.0 == 0
        then (a.kmalloc sizeof_thread h >>= λ new. ok (new.0, (record s { freeq = got.1 }, new.1)))
        else ok (got.0, (record s { freeq = got.1 }, h))

  unfoldable pub rpi_fork :
      (code arg cpsr trampoline : ℕ) → Threads → H → Result (ℕ × (Threads × H))
  rpi_fork code arg cpsr trampoline s h = do
    made ← mk_thread s h
    ok (made.0, (append_ready made.0 (set_up made.0 code arg cpsr trampoline made.1.0), made.1.1))

  unfoldable pub rpi_thread_start : (saved : ℕ) → Threads → H → Result (Threads × H)
  rpi_thread_start saved s h = do
    got ← pop_ready s
    let s = record got.1 { cur_thread = got.0 }
    if got.0 == 0
        then ok (s, h)
        else (mk_thread s h >>= λ made. ok (
          switch_from made.0 saved got.0 (record made.1.0 { scheduler_thread = made.0 }),
          made.1.1,
        ))

-- `memset` of the whole thread, its stack included
unfoldable pub zero_thread : ℕ → Threads → Threads
zero_thread t s = record s {
  next = update s.next t 0;
  sp = update s.sp t 0;
  tid = update s.tid t 0;
  stack = λ t' i. if t' == t then 0 else s.stack t' i;
}

unfoldable pub rpi_exit : Threads → Result Threads
rpi_exit s = do
  let s = append_free s.cur_thread (zero_thread s.cur_thread s)
  got ← pop_ready s
  let new = if got.0 == 0 then s.scheduler_thread else got.0
  ok (switch_to new (record got.1 { cur_thread = new }))

unfoldable pub rpi_yield : (saved : ℕ) → Threads → Result Threads
rpi_yield saved s = do
  got ← pop_ready s
  if got.0 == 0
      then ok got.1
      else ok (
          switch_from s.cur_thread saved got.0
            (record (append_ready s.cur_thread got.1) { cur_thread = got.0 }))

unfoldable pub rpi_cur_thread : Threads → ℕ
rpi_cur_thread s = s.cur_thread

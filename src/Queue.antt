-- ===== src/Queue.antt =====
-- The intrusive queue of pi-side/kernel/Q.h. An element is its address, zero is the null pointer, and the
-- elements' `next` fields are a function from addresses.
pub mod Sequence
use simple_pi_os.Prelude.{Result, demand, if◌then◌else◌, ok, update, ℕ, ◌==◌, ◌>>◌}

pub record Q : Type 0 where
  pub head : ℕ
  pub tail : ℕ
  pub n : ℕ

unfoldable pub q_size : Q → ℕ
q_size q = q.n

unfoldable pub q_start : Q → ℕ
q_start q = q.head

unfoldable pub q_next : (e : ℕ) → (next : ℕ → ℕ) → ℕ
q_next e next = next e

unfoldable pub q_pop : Q → (next : ℕ → ℕ) → Result (ℕ × Q)
q_pop q next =
    if q.head == 0
    then (demand (q.tail == 0) >> ok (0, q))
    else (let head = next q.head in
        ok (q.head, record q { head = head; tail = if head == 0 then 0 else q.tail }))

unfoldable pub q_append : Q → (e : ℕ) → (next : ℕ → ℕ) → Q × (ℕ → ℕ)
q_append q e next =
    if q.tail == 0
    then (record q { head = e; tail = e }, update next e 0)
    else (record q { tail = e }, update (update next e 0) q.tail e)

-- ===== src/Intq.antt =====
-- Interrupt queues, the circular buffers of bytes in pintos/src/devices/intq.c, as an interrupt handler
-- calls them: `none` is a failed ASSERT, which for an interrupt handler includes the wait for room or
-- for a byte. The lock, which serves that wait only, and the interrupt level are left out.
pub mod Fifo
mod Tests
use course_cs439_operating_s.Base.{
  ℕ, suc, ◌+◌, ◌%◌, Bool, true, false, not, Option, none, some, ◌==◌, if◌then◌else◌,
}
use course_cs439_operating_s.Thread.{Tid, null, Kernel, thread_unblock}

abbrev pub intq_bufsize : ℕ
intq_bufsize = 64

pub record Intq : Type 0 where
  pub not_full : Tid
  pub not_empty : Tid
  pub buf : ℕ → ℕ
  pub head : ℕ
  pub tail : ℕ

-- The buffer is left as it was.
pub intq_init : (ℕ → ℕ) → Intq
intq_init buf = record { not_full = null; not_empty = null; buf = buf; head = 0; tail = 0 }

abbrev pub next : ℕ → ℕ
next pos = suc pos % intq_bufsize

pub intq_empty : Intq → Bool
intq_empty q = q.head == q.tail

pub intq_full : Intq → Bool
intq_full q = next q.head == q.tail

-- Wakes the thread that waits for the condition, if there is one; the caller resets the waiting thread.
pub signal : Kernel → Tid → Option Kernel
signal k waiter = if waiter == null then some k else thread_unblock k waiter

pub intq_getc : Kernel → Intq → Option (Kernel × Intq × ℕ)
intq_getc k q = if intq_empty q then none else elim (signal k q.not_full) [
  | none ↦ none
  | some k' ↦ some (k', record q { tail = next q.tail; not_full = null }, q.buf q.tail)
]

pub intq_putc : Kernel → Intq → ℕ → Option (Kernel × Intq)
intq_putc k q byte = if intq_full q then none else elim (signal k q.not_empty) [
  | none ↦ none
  | some k' ↦ some (
    k',
    record q {
      buf = λ i. if i == q.head then byte else q.buf i;
      head = next q.head;
      not_empty = null;
    },
  )
]

-- ===== src/Ioqueue.antt =====
-- device/ioqueue.c: the byte queues behind the keyboard and the pipes.
--
-- The interrupts are off in all of these functions. `ioq_getchar` and `ioq_putchar` are loops that
-- sleep and look again; one round of them is a function here, and it says whether the thread went
-- to sleep. The lock around `ioq_wait` lets one thread at a time be the waiter: it is not
-- modelled here, and the ASSERT of `ioq_wait` is.
pub mod Examples
pub mod Fifo
use recover_os.Prelude.{
  ℕ, ◌+◌, ◌-◌, ◌%◌, Bool, not, Option, none, some, List, Run, ok, ◌>>=◌, ◌>>◌, assert, leb, ◌==◌,
  if◌then◌else◌, get_or, set, replicate,
}
use recover_os.Thread.Tasks.{Tid}

abbrev pub bufsize : ℕ
bufsize = 2048

-- `struct ioqueue` without its lock; a waiter of 0 is NULL.
pub record Ioqueue : Type 0 where
  pub producer : Tid
  pub consumer : Tid
  pub buf : List ℕ
  pub head : ℕ
  pub tail : ℕ

-- `old` is what the memory held.
pub ioqueue_init : (old : List ℕ) → Ioqueue
ioqueue_init old = record { producer = 0; consumer = 0; buf = old; head = 0; tail = 0 }

abbrev pub next_pos : ℕ → ℕ
next_pos pos = (pos + 1) % bufsize

unfoldable pub ioq_full : Ioqueue → Bool
ioq_full q = next_pos q.head == q.tail

unfoldable pub ioq_empty : Ioqueue → Bool
ioq_empty q = q.head == q.tail

-- `ioq_wait`: the thread becomes the waiter, and goes to sleep.
abbrev pub ioq_wait : (waiter current : Tid) → Run Tid
ioq_wait waiter current = assert (waiter == 0) >> ok current

-- A round of `ioq_getchar`: the byte, and the thread that `wakeup` unblocks (0 for none).
pub data Got : Type 0 where
  got : (byte : ℕ) (woken : Tid) → Got
  no_byte : Got

pub ioq_getchar : Tid → Ioqueue → Run (Got × Ioqueue)
ioq_getchar current q =
    if ioq_empty q
    then (do w ← ioq_wait q.consumer current; ok (no_byte, record q { consumer = w }))
    else ok
        (got (get_or q.buf q.tail 0) q.producer, record q { tail = next_pos q.tail; producer = 0 })

-- A round of `ioq_putchar`.
pub data Put : Type 0 where
  put : (woken : Tid) → Put
  no_room : Put

pub ioq_putchar : Tid → ℕ → Ioqueue → Run (Put × Ioqueue)
ioq_putchar current byte q =
    if ioq_full q
    then (do w ← ioq_wait q.producer current; ok (no_room, record q { producer = w }))
    else ok (
      put q.consumer,
      record q { buf = set q.buf q.head byte; head = next_pos q.head; consumer = 0 },
    )

unfoldable pub ioq_length : Ioqueue → ℕ
ioq_length q = if leb q.tail q.head then q.head - q.tail else bufsize - (q.tail - q.head)

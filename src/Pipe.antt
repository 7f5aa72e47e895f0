-- ===== src/Pipe.antt =====
-- pipe/pipe.c: reads and writes of a pipe's queue, from the point where the queue was looked up.
--
-- A `buf` of the caller is the list of the bytes from its pointer on, `count` of them at least.
mod Examples
pub mod Transfer
use recover_os.Prelude.{
  ℕ, zero, suc, ◌+◌, ◌-◌, List, [], ◌∷◌, ◌++◌, Run, ok, ◌>>=◌, ltb, if◌then◌else◌, take,
}
use recover_os.Thread.Tasks.{Tid}
use recover_os.Ioqueue.{
  Ioqueue, bufsize, Got, got, no_byte, ioq_getchar, Put, put, no_room, ioq_putchar, ioq_length,
}

-- A call is through, with the count that it returns, or its thread sleeps in the middle of it.
pub data Progress : Type 0 where
  done : (count : ℕ) → Progress
  asleep : (so_far : ℕ) → Progress

-- The loop of `pipe_write`, over the bytes that are left to write.
write_loop : Tid → List ℕ → ℕ → Ioqueue → Run (Progress × Ioqueue)
write_loop t [] n q = ok (done n, q)
write_loop t (byte ∷ rest) n q = ioq_putchar t byte q >>= λ (r, q'). elim r [
  | put woken ↦ write_loop t rest (n + 1) q'
  | no_room ↦ ok (asleep n, q')
]

abbrev pub smaller : ℕ → ℕ → ℕ
smaller a count = if ltb count a then count else a

-- `size_t ioq_left = bufsize - ioq_length(ioq)`
pub pipe_write : Tid → (buf : List ℕ) → (count : ℕ) → Ioqueue → Run (Progress × Ioqueue)
pipe_write t buf count q = write_loop t (take (smaller (bufsize - ioq_length q) count) buf) 0 q

-- The loop of `pipe_read`, with `rounds` rounds left; the second part are the bytes it stored.
read_loop : Tid → (rounds : ℕ) → (stored : List ℕ) → ℕ → Ioqueue → Run (Progress × List ℕ × Ioqueue)
read_loop t zero stored n q = ok (done n, stored, q)
read_loop t (suc k) stored n q = ioq_getchar t q >>= λ (r, q'). elim r [
  | got byte woken ↦ read_loop t k (stored ++ byte ∷ []) (n + 1) q'
  | no_byte ↦ ok (asleep n, stored, q')
]

pub pipe_read : Tid → (count : ℕ) → Ioqueue → Run (Progress × List ℕ × Ioqueue)
pipe_read t count q = read_loop t (smaller (ioq_length q) count) [] 0 q

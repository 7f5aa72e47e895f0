-- ===== src/Sync.antt =====
-- thread/sync.c: binary semaphores and the recursive locks built on them.
--
-- The functions of the first part are the source's, up to the point where the calling thread
-- leaves the processor. The second part runs many threads through them: the interrupts are off in
-- `sema_down` and `sema_up` alone, so `lock_acquire` and `lock_release` may be interrupted around
-- those calls, and a thread stands at one of the places of `Pc`.
mod Examples
pub mod Exclusion
pub mod Invariant
pub mod Steps
use recover_os.Prelude.{
  ℕ, ◌+◌, ◌-◌, ◌%◌, ◌^◌, Bool, true, false, ◌&&◌, ◌||◌, not, List, [], ◌∷◌, ◌++◌, Run, ok, assert,
  ◌>>=◌, ◌>>◌, ltb, ◌==◌, if◌then◌else◌,
}
use recover_os.LinkedList.Chain.{has}
use recover_os.Thread.Tasks.{Tid}

-- `struct semaphore`; `value` is a `uint8_t`.
pub record Semaphore : Type 0 where
  pub value : ℕ
  pub waiters : List Tid

-- `struct lock`; a `holder` of 0 is NULL.
pub record Lock : Type 0 where
  pub holder : Tid
  pub semaphore : Semaphore
  pub holder_repeat_nr : ℕ

pub sema_init : ℕ → Run Semaphore
sema_init value = do
  assert ((value == 0) || (value == 1))
  ok (record { value = value; waiters = [] })

pub lock_init : Run Lock
lock_init = do
  sema ← sema_init 1
  ok (record { holder = 0; semaphore = sema; holder_repeat_nr = 0 })

-- How a round of the loop of `sema_down` ends: the semaphore is taken, or the thread is among the
-- waiters and blocked, to run the round again when it is woken.
pub data Down : Type 0 where
  taken blocked : Down

pub sema_down : Tid → Semaphore → Run (Down × Semaphore)
sema_down current s =
    if s.value == 0
    then (do
      assert (not (has current s.waiters))
      ok (blocked, record s { waiters = s.waiters ++ current ∷ [] }))
    else (do
      let s' = record s { value = (s.value + 2 ^ 8 - 1) % 2 ^ 8 }
      assert (s'.value == 0)
      ok (taken, s'))

-- `list_pop` and `thread_unblock` of the first waiter, if there is one.
pub wake_first : Semaphore → Semaphore
wake_first s = elim s.waiters [ [] ↦ s | t ∷ ts ↦ record s { waiters = ts } ]

pub sema_up : Semaphore → Run Semaphore
sema_up s = do
  assert (s.value == 0)
  let s' = wake_first s
  let s'' = record s' { value = (s'.value + 1) % 2 ^ 8 }
  assert (s''.value == 1)
  ok s''

-- `++plock->holder_repeat_nr`
abbrev pub count_up : Lock → Lock
count_up l = record l { holder_repeat_nr = (l.holder_repeat_nr + 1) % 2 ^ 64 }

-- `lock_acquire` behind its `sema_down`.
pub become_holder : Tid → Lock → Run Lock
become_holder t l = do assert (l.holder_repeat_nr == 0); ok (count_up (record l { holder = t }))

-- How `lock_release` goes on: the lock is still held, or it was given up and `sema_up` is due.
pub data Released : Type 0 where
  still_held given_up : Released

pub lock_release : Tid → Lock → Run (Released × Lock)
lock_release t l = do
  assert (l.holder == t)
  if ltb 1 l.holder_repeat_nr
      then ok (still_held, record l { holder_repeat_nr = l.holder_repeat_nr - 1 })
      else (do
        assert (l.holder_repeat_nr == 1)
        ok (given_up, record l { holder = 0; holder_repeat_nr = 0 }))

-- Where a thread stands: outside, in the loop of `sema_down`, behind it, in possession of the lock,
-- or in `lock_release` before its `sema_up`.
pub data Pc : Type 0 where
  outside trying entered holding leaving : Pc

pub record System : Type 0 where
  pub lock : Lock
  pub pc : Tid → Pc

-- What a thread that is outside, or in possession of the lock, calls next.
pub data Call : Type 0 where
  acquire release : Call

abbrev pub move : System → Tid → Pc → System
move s t p = record s { pc = λ u. if t == u then p else s.pc u }

-- The test of `lock_acquire`, `plock->holder != running_thread()`.
pub call_acquire : Tid → System → Run System
call_acquire t s =
    if s.lock.holder == t
    then ok (move (record s { lock = count_up s.lock }) t holding)
    else ok (move s t trying)

pub call_release : Tid → System → Run System
call_release t s = lock_release t s.lock >>= λ (how, l). elim how [
  | still_held ↦ ok (move (record s { lock = l }) t holding)
  | given_up ↦ ok (move (record s { lock = l }) t leaving)
]

pub try_down : Tid → System → Run System
try_down t s = sema_down t s.lock.semaphore >>= λ (how, sema).
    let s' = record s { lock = record (s.lock) { semaphore = sema } } in
    elim how [ taken ↦ ok (move s' t entered) | blocked ↦ ok s' ]

pub step_at : Pc → Tid → Call → System → Run System
step_at outside t acquire s = call_acquire t s
step_at outside t release s = call_release t s
step_at trying t call s = try_down t s
step_at entered t call s =
    become_holder t s.lock >>= λ l. ok (move (record s { lock = l }) t holding)
step_at holding t acquire s = call_acquire t s
step_at holding t release s = call_release t s
step_at leaving t call s = sema_up s.lock.semaphore >>= λ sema.
    ok (move (record s { lock = record (s.lock) { semaphore = sema } }) t outside)

-- One step of thread `t`; a waiter is not scheduled.
pub step : Tid → Call → System → Run System
step t call s = if has t s.lock.semaphore.waiters then ok s else step_at (s.pc t) t call s

-- A schedule: which thread makes a step, and the call that it has in mind.
pub run : List (Tid × Call) → System → Run System
run [] s = ok s
run ((t, call) ∷ rest) s = step t call s >>= λ s'. run rest s'

pub start : Run System
start = lock_init >>= λ l. ok (record { lock = l; pc = λ t. outside })

-- ===== src/Thread.antt =====
-- thread/thread.c and the timer interrupt of device/timer.c: tasks, the ready queue and the
-- scheduler.
--
-- A thread is named by the address of its `task_struct`. The two lists of threads stand here as the
-- sequences that they hold, which LinkedList relates to the links. The interrupts are
-- off in every function below, so each is one step. `switch_to` saves the registers of one thread
-- and restores those of another: a function that calls `schedule` ends here where the processor
-- leaves the calling thread.
pub mod Examples
pub mod Lifecycle
pub mod Liveness
pub mod Schedule
pub mod Switch
pub mod Tasks
use recover_os.Prelude.{
  length, ltb, ℕ, zero, suc, ◌+◌, ◌-◌, ◌%◌, ◌^◌, Bool, true, false, ◌&&◌, ◌||◌, not, Option, none,
  some, List, [], ◌∷◌, ◌++◌, Run, ok, panic, fault, assert, ◌>>=◌, ◌>>◌, ◌==◌, if◌then◌else◌,
}
use recover_os.Bitmap.{Bitmap, bitmap_set, bitmap_alloc_a_bit}
use recover_os.LinkedList.Chain.{has}
use recover_os.Memory.{Memory, Pool, free_pages}
use recover_os.Thread.Tasks.{
  Tid, Stat, task_running, task_ready, task_blocked, task_hanging, task_waiting, task_died,
  is_running, is_asleep, Task, update, erase, no_files,
}

abbrev pub stack_magic_value : ℕ
stack_magic_value = 0x474d575a5a46594c

pub record Sched : Type 0 where
  pub task : Tid → Task
  pub current : Tid
  -- the thread whose interrupt stack `tss.ist2` names
  pub ist2 : Tid
  -- `ready_threads_list`, `all_threads_list`
  pub ready : List Tid
  pub all : List Tid
  pub idle_thread : Tid
  pub main_thread : Tid
  pub pid_bitmap : Bitmap
  -- `ticks` of the timer
  pub clock : ℕ
  -- `k_v_pool`, and the memory that it is of
  pub kernel : Pool × Memory

abbrev pub set_stat : Sched → Tid → Stat → Sched
set_stat s t st = record s { task = update s.task t (record (s.task t) { stat = st }) }

-- `bit_idx + pid_start`, cut to a `pid_t`; the -1 of a failed `bitmap_alloc_a_bit` becomes 0.
abbrev pub pid_of : Option ℕ → ℕ
pid_of none = 0
pid_of (some i) = (i + 1) % 2 ^ 16

-- `alloc_pid`, under the lock of the pool. `pid_start` is 1.
pub alloc_pid : Sched → Run (ℕ × Sched)
alloc_pid s = do
  (idx, m) ← bitmap_alloc_a_bit s.pid_bitmap
  ok (pid_of idx, record s { pid_bitmap = m })

-- `pid - pid_start` as a `size_t`.
pub release_pid : ℕ → Sched → Run Sched
release_pid pid s = do
  m ← bitmap_set s.pid_bitmap ((pid + 2 ^ 64 - 1) % 2 ^ 64) false
  ok (record s { pid_bitmap = m })

pub thread_unblock : Tid → Sched → Run Sched
thread_unblock t s = do
  assert (is_asleep (s.task t).stat)
  assert (not (has t s.ready))
  ok (set_stat (record s { ready = t ∷ s.ready }) t task_ready)

-- The first part of `schedule`: a thread that was running goes to the end of the queue.
pub put_back : Sched → Run Sched
put_back s =
    if is_running (s.task s.current).stat
    then (do
      assert (not (has s.current s.ready))
      ok (record s {
        task =
            update s.task s.current
              (record (s.task s.current) { stat = task_ready; ticks = (s.task s.current).prio });
        ready = s.ready ++ s.current ∷ [];
      }))
    else ok s

-- The second part: with nobody ready, the idle thread is woken.
pub wake_idle : Sched → Run Sched
wake_idle s = elim s.ready [ [] ↦ thread_unblock s.idle_thread s | _ ∷ _ ↦ ok s ]

-- The last part: the first of the queue is taken out and runs. `list_pop` of an empty list faults.
pub run_next : Sched → Run Sched
run_next s = elim s.ready [
  | [] ↦ fault
  | next ∷ rest ↦ ok (record s {
    task = update s.task next (record (s.task next) { stat = task_running });
    current = next;
    ist2 = next;
    ready = rest;
  })
]

pub schedule : Sched → Run Sched
schedule s = do s ← put_back s; s ← wake_idle s; run_next s

pub thread_block : Stat → Sched → Run Sched
thread_block st s = do assert (is_asleep st); schedule (set_stat s s.current st)

pub thread_yield : Sched → Run Sched
thread_yield s = do
  assert (not (has s.current s.ready))
  schedule (set_stat (record s { ready = s.ready ++ s.current ∷ [] }) s.current task_ready)

-- `intr_time_hdl` of device/timer.c.
pub intr_time_hdl : Sched → Run Sched
intr_time_hdl s = do
  assert ((s.task s.current).stack_magic == stack_magic_value)
  assert ((s.task s.current).istack_magic == stack_magic_value)
  let s' = record s { clock = (s.clock + 1) % 2 ^ 64 }
  if (s.task s.current).ticks == 0
      then schedule s'
      else ok (record s' {
        task =
            update s.task s.current
              (record (s.task s.current) { ticks = (s.task s.current).ticks - 1 });
      })

abbrev pub task_name_len : ℕ
task_name_len = 20

-- `strcpy` writes the name with its NUL. Where these are more than the array has, it goes on into the
-- fields behind it, which is a fault here.
pub init_thread : Tid → (name : List ℕ) → (prio : ℕ) → Sched → Run Sched
init_thread t name prio s = do
  (pid, s) ← alloc_pid s
  if ltb (length name) task_name_len
      then ok (record s {
        task = update s.task t (record (s.task t) {
          pid = pid;
          name = name;
          prio = prio;
          ticks = prio;
          stat = task_ready;
          pml4 = 0;
          stack_magic = stack_magic_value;
          istack_magic = stack_magic_value;
          cwd_i_no = 0;
          fd_table = no_files;
        });
      })
      else fault

-- The stack that `switch_to` returns from at the thread's first turn: `kernel_thread(func, arg)`.
pub create_thread : Tid → (func arg : ℕ) → Sched → Sched
create_thread t func arg s = record s {
  task = update s.task t (record (s.task t) { start_func = func; start_arg = arg });
}

-- `page` is what `alloc_pages(&k_v_pool, 1)` returned.
pub thread_start : (page : Tid) → (name : List ℕ) → (prio func arg : ℕ) → Sched → Run Sched
thread_start t name prio func arg s = do
  assert (not (t == 0))
  s ← init_thread t name prio s
  let s = create_thread t func arg s
  assert (not (has t s.all))
  assert (not (has t s.ready))
  ok (record s { all = s.all ++ t ∷ []; ready = s.ready ++ t ∷ [] })

-- `free_pages(&k_v_pool, page, 1)`, unless it is skipped.
pub free_page : (skip : Bool) → (page : ℕ) → Pool × Memory → Run (Pool × Memory)
free_page skip page k = if skip then ok k else free_pages k.0 page 1 k.1

-- `thread_exit`. It looks for the thread's `general_tag` in `all_threads_list`, which links the
-- threads by `all_list_tag`: the test never holds, so the ready queue is left as it is.
-- Behind `schedule` it ends where another thread runs; if the caller is the next to run, it comes to
-- the PANIC.
pub thread_exit : Tid → (need_schedule : Bool) → Sched → Run Sched
thread_exit t need_schedule s = do
  let s = set_stat s t task_died
  let pml4 = (s.task t).pml4
  kernel ← free_page (pml4 == 0) pml4 s.kernel
  s ← release_pid (s.task t).pid (record s { kernel = kernel; all = erase t s.all })
  kernel ← free_page (t == s.main_thread) t s.kernel
  let s = record s { kernel = kernel }
  if need_schedule
      then (schedule s >>= λ s'. if s'.current == s.current then panic else ok s')
      else ok s

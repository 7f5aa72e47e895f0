-- ===== src/Thread/Examples.antt =====
-- thread/thread.c on four threads: idle asleep, main running, one READY and one that hangs.
use recover_os.Prelude.{
  ℕ, zero, suc, ◌+◌, ◌-◌, ◌<◌, ◌%◌, ◌^◌, ◌≡◌, ◌≢◌, ◌⊎◌, refl, true, false, [], ◌∷◌, arith, ok, ◌==◌,
  if◌then◌else◌, get_or, replicate, get_or-replicate,
}
use recover_os.Bitmap.{Bitmap}
use recover_os.Bitmap.Byte.{test_bit}
use recover_os.Bitmap.Laws.{bit, IsValid}
use recover_os.Memory.Examples.{first_pages, all_mapped, two_pages}
use recover_os.LinkedList.Chain.{has}
use recover_os.Thread.{
  free_page, Sched, schedule, intr_time_hdl, thread_start, thread_exit, stack_magic_value,
}
use recover_os.Thread.Tasks.{
  Tid, Stat, task_running, task_ready, task_blocked, task_hanging, task_died, Task, no_files,
}
use recover_os.Thread.Schedule.{stat, IsSound, IsSound→IsPending, Switched, schedule-Switched}
use recover_os.Thread.Switch.{intr_time_hdl-rotates}
use recover_os.Thread.Liveness.{yields, yields-served}
use recover_os.Thread.Lifecycle.{Frees, pid_at, HasPids, thread_start-HasPids, thread_exit-HasPids}

abbrev stat_of : Tid → Stat
stat_of t =
    if t == 1
    then task_blocked
    else if t == 2
    then task_running
    else if t == 3
    then task_ready
    else if t == 4
    then task_hanging
    else task_died

-- The pid of a thread is its number, and all are children of main.
abbrev task_of : Tid → Task
task_of t = record {
  stat = stat_of t;
  prio = 31;
  ticks = 7;
  pid = t;
  parent_pid = 2;
  pml4 = 0x5000;
  exit_status = 0xff;
  name = [];
  cwd_i_no = 0;
  fd_table = no_files;
  start_func = 0;
  start_arg = 0;
  stack_magic = stack_magic_value;
  istack_magic = stack_magic_value;
}

abbrev pids : Bitmap
pids = record { bytes_len = 128; bits = 0x0f ∷ replicate 127 0 }

abbrev pub four : Sched
four = record {
  task = task_of;
  current = 2;
  ist2 = 2;
  ready = 3 ∷ [];
  all = 1 ∷ 2 ∷ 3 ∷ 4 ∷ [];
  idle_thread = 1;
  main_thread = 2;
  pid_bitmap = pids;
  clock = 0;
  kernel = (first_pages, all_mapped);
}

pub four-IsSound : IsSound four
four-IsSound = record {
  runs = λ t. ground arith;
  queue = λ t. ground arith;
  distinct = ground arith;
  loaded = refl;
  idle_lives = refl;
}

pids-IsValid : IsValid pids
pids-IsValid = record { backed = omega arith; bytes = below }
  where
    below : (i : ℕ) → get_or (0x0f ∷ replicate 127 0) i 0 < 256
    below zero = omega arith
    below (suc i) = ground (arith, get_or-replicate {A = ℕ} 127 i 0)

low-marked : (t : Tid) → has t (1 ∷ 2 ∷ 3 ∷ 4 ∷ []) ≡ true → bit pids (t - 1) ≡ true
unfolding bit test_bit
low-marked zero h = absurd (ground arith)
low-marked (suc zero) h = refl
low-marked (suc (suc zero)) h = refl
low-marked (suc (suc (suc zero))) h = refl
low-marked (suc (suc (suc (suc zero)))) h = refl
low-marked (suc (suc (suc (suc (suc t))))) h = absurd (ground arith)

pub four-HasPids : HasPids four
four-HasPids = record {
  pool = pids-IsValid;
  pool_len = refl;
  in_pool = λ t h. ground arith;
  marked = low-marked;
  unique = λ t u ht hu e. e;
  all_distinct = ground arith;
}

schedule_example : (s' : Sched) × (schedule four ≡ ok s') × Switched four s'
schedule_example = schedule-Switched four (IsSound→IsPending four-IsSound)

intr_time_hdl_example :
    (s' : Sched) × (intr_time_hdl four ≡ ok s')
    × IsSound s'
    × (s'.clock ≡ (0 + 1) % 2 ^ 64)
    × (((s'.current ≡ 2) × (s'.ready ≡ 3 ∷ []) × ((s'.task 2).ticks + 1 ≡ 7))
        ⊎ ((◌≡◌ {A = ℕ} 7 0) × (s'.current ∷ s'.ready ≡ 3 ∷ 2 ∷ [])))
intr_time_hdl_example = intr_time_hdl-rotates four four-IsSound refl refl

yields_example :
    (s' : Sched) × (yields 1 four ≡ ok s') × IsSound s' × (s'.current ≡ 3) × (s'.ready ≡ 2 ∷ [])
yields_example = yields-served [] [] 3 four four-IsSound refl

thread_start_example :
    (s' : Sched) × (thread_start 9 (b'x' ∷ []) 31 0 0 four ≡ ok s')
    × IsSound s'
    × (s'.ready ≡ 3 ∷ 9 ∷ [])
    × (s'.all ≡ 1 ∷ 2 ∷ 3 ∷ 4 ∷ 9 ∷ [])
    × (stat s' 9 ≡ task_ready)
    × (HasPids s'
        ⊎ ((pid_at s' 9 ≡ 0) × (s'.pid_bitmap ≡ pids) × ((i : ℕ) → i < 1024 → bit pids i ≡ true)))
thread_start_example =
    thread_start-HasPids four 9 (b'x' ∷ []) 31 0 0 four-IsSound four-HasPids (ground arith)
      (ground arith) refl refl (omega arith)

pub four-Frees : Frees four 4
unfolding free_page
four-Frees = two_pages

thread_exit_example :
    (s' : Sched) × (thread_exit 4 false four ≡ ok s')
    × IsSound s'
    × HasPids s'
    × (s'.current ≡ 2)
    × (s'.ready ≡ 3 ∷ [])
    × (s'.all ≡ 1 ∷ 2 ∷ 3 ∷ [])
    × (s'.kernel ≡ four-Frees.1)
    × (stat s' 4 ≡ task_died)
    × (bit s'.pid_bitmap 3 ≡ false)
    × ((u : Tid) → u ≢ 4 → s'.task u ≡ four.task u)
thread_exit_example =
    thread_exit-HasPids four 4 four-IsSound four-HasPids refl refl (ground arith) four-Frees

-- ===== src/WaitExit.antt =====
-- userprog/wait_exit.c: how a process ends and how its parent learns of it.
--
-- `sys_wait` is a loop that sleeps and looks again. One round of it is a function here: it returns,
-- or it leaves the processor, and the round is run again when the thread is.
mod Examples
pub mod Laws
use recover_os.Prelude.{
  ℕ, ◌+◌, ◌-◌, ◌%◌, ◌^◌, ltb, Bool, true, false, ◌&&◌, Option, none, some, List, [], ◌∷◌, Run, ok,
  panic, fault, ◌>>=◌, ◌>>◌, assert, not, ◌==◌, if◌then◌else◌,
}
use recover_os.LinkedList.Queries.{find}
use recover_os.Thread.{Sched, thread_block, thread_unblock, thread_exit}
use recover_os.Thread.Tasks.{Tid, Stat, task_hanging, task_waiting, Task, update}

abbrev pub is_hanging : Stat → Bool
is_hanging task_hanging = true
is_hanging _ = false

abbrev pub is_waiting : Stat → Bool
is_waiting task_waiting = true
is_waiting _ = false

-- An `int8_t` read as an `int`, as a bit pattern.
abbrev pub sign_extend : ℕ → ℕ
sign_extend v = if ltb v 128 then v else v + 2 ^ 32 - 2 ^ 8

pub find_hanging_child : Sched → ℕ → Tid → Bool
find_hanging_child s ppid t = ((s.task t).parent_pid == ppid) && is_hanging (s.task t).stat

pub find_child : Sched → ℕ → Tid → Bool
find_child s ppid t = (s.task t).parent_pid == ppid

-- What a round of `sys_wait` comes to: a child's pid and exit status, the -1 of a parent without
-- children, or sleep.
pub data Waited : Type 0 where
  reaped : (pid status : ℕ) → Waited
  no_child : Waited
  asleep : Waited

pub sys_wait : Sched → Run (Waited × Sched)
sys_wait s =
    let ppid = (s.task s.current).pid in
    elim (find (find_hanging_child s ppid) s.all) [
      | some child ↦ thread_exit child false s >>= λ s'.
          ok (reaped (s.task child).pid (sign_extend (s.task child).exit_status), s')
      | none ↦ elim (find (find_child s ppid) s.all) [
        | none ↦ ok (no_child, s)
        | some child ↦ thread_block task_waiting s >>= λ s'. ok (asleep, s')
      ]
    ]

-- `init_adopt_a_child`, over all threads: the children of `pid` become those of the first process.
pub adopt : ℕ → List Tid → (Tid → Task) → Tid → Task
adopt pid [] f = f
adopt pid (t ∷ ts) f =
    adopt pid ts
      (if (f t).parent_pid == pid then update f t (record (f t) { parent_pid = 1 }) else f)

pub pid_check : Sched → ℕ → Tid → Bool
pid_check s pid t = (s.task t).pid == pid

pub pid2thread : ℕ → Sched → Option Tid
pid2thread pid s = find (pid_check s pid) s.all

-- The end of `sys_exit`: the parent is woken if it waits, and the thread hangs. A parent that is not
-- there is a NULL that is read.
pub tell_parent : Sched → Run Sched
tell_parent s = elim (pid2thread (s.task s.current).parent_pid s) [
  | none ↦ fault
  | some parent ↦
      (if is_waiting (s.task parent).stat then thread_unblock parent s else ok s) >>= λ s'.
      thread_block task_hanging s'
]

-- `release` stands for `release_prog_resource`, which gives back the memory and the files of the
-- running process; `parent_pid` of -1 is 2 ^ 16 - 1.
pub sys_exit : (release : Sched → Run Sched) → (status : ℕ) → Sched → Run Sched
sys_exit release status s = do
  let s = record s {
    task = update s.task s.current (record (s.task s.current) { exit_status = status % 2 ^ 8 });
  }
  assert (not ((s.task s.current).parent_pid == 0xffff))
  let s = record s { task = adopt (s.task s.current).pid s.all s.task }
  s ← release s
  tell_parent s

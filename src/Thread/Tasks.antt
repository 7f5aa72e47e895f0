-- ===== src/Thread/Tasks.antt =====
-- `struct task_struct` and `enum task_stat` of thread/thread.h.
use recover_os.LinkedList.Chain.{has, Distinct}
use recover_os.Prelude.{
  ◌≡◌, arith, Bool-cases, inl, inr, ℕ, Bool, true, false, Option, none, some, List, [], ◌∷◌, ◌==◌,
  if◌then◌else◌,
}

abbrev pub Tid : Type 0
Tid = ℕ

pub data Stat : Type 0 where
  task_running task_ready task_blocked task_hanging task_waiting task_died : Stat

abbrev pub is_running : Stat → Bool
is_running task_running = true
is_running _ = false

-- `stat == TASK_BLOCKED || stat == TASK_HANGING || stat == TASK_WAITING`
abbrev pub is_asleep : Stat → Bool
is_asleep task_blocked = true
is_asleep task_hanging = true
is_asleep task_waiting = true
is_asleep _ = false

-- The fields that the scheduler, `wait` and `exit` use. A `none` in `fd_table` is its -1.
pub record Task : Type 0 where
  pub stat : Stat
  pub prio : ℕ
  pub ticks : ℕ
  pub pid : ℕ
  pub parent_pid : ℕ
  pub pml4 : ℕ
  pub exit_status : ℕ
  pub name : List ℕ
  pub cwd_i_no : ℕ
  pub fd_table : List (Option ℕ)
  pub start_func : ℕ
  pub start_arg : ℕ
  pub stack_magic : ℕ
  pub istack_magic : ℕ

abbrev pub update : (Tid → Task) → Tid → Task → Tid → Task
update f t v u = if t == u then v else f u

abbrev pub erase : Tid → List Tid → List Tid
erase t [] = []
erase t (x ∷ xs) = if x == t then xs else x ∷ erase t xs

-- The three standard files, and MAX_FILES_OPEN_PER_PROC - 3 closed ones.
abbrev pub no_files : List (Option ℕ)
no_files = some 0 ∷ some 1 ∷ some 2 ∷ none ∷ none ∷ none ∷ none ∷ none ∷ []

pub has-erase :
    (t u : Tid) (xs : List Tid)
    → Distinct xs
    → has u (erase t xs) ≡ (if u == t then false else has u xs)
has-erase t u [] d = ground arith
has-erase t u (x ∷ xs) d = ground (arith, has-erase t u xs d.1)

pub Distinct-erase : (t : Tid) (xs : List Tid) → Distinct xs → Distinct (erase t xs)
Distinct-erase t [] d = tt
Distinct-erase t (x ∷ xs) d = elim (Bool-cases (x == t)) [
  | inl e ↦ rw e d.1
  | inr ne ↦ rw ne (ground (arith, has-erase t x xs d.1), Distinct-erase t xs d.1)
]

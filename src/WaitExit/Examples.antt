-- ===== src/WaitExit/Examples.antt =====
-- userprog/wait_exit.c: main waits while one of its children hangs, and exits while its parent waits.
use recover_os.Prelude.{
  zero, suc, ◌≡◌, ◌≢◌, ◌⊎◌, refl, some, [], ◌∷◌, arith, ok, ◌==◌, if◌then◌else◌,
}
use recover_os.LinkedList.Queries.{find}
use recover_os.Thread.{Sched}
use recover_os.Thread.Tasks.{Tid, task_waiting, task_hanging}
use recover_os.Thread.Schedule.{stat, or_idle, IsSound}
use recover_os.Thread.Switch.{Slept}
use recover_os.Thread.Lifecycle.{Frees}
use recover_os.Thread.Examples.{four-Frees, four, four-IsSound, four-HasPids}
use recover_os.WaitExit.{Waited, sys_wait, pid_check, pid2thread, tell_parent}
use recover_os.WaitExit.Laws.{IsChild, WaitResult, sys_wait-WaitResult, tell_parent-wakes}

child-Frees : (c : Tid) → IsChild four four.current c → stat four c ≡ task_hanging → Frees four c
child-Frees zero child hangs = absurd (ground arith)
child-Frees (suc zero) child hangs = absurd (ground arith)
child-Frees (suc (suc zero)) child hangs = absurd (ground arith)
child-Frees (suc (suc (suc zero))) child hangs = absurd (ground arith)
child-Frees (suc (suc (suc (suc zero)))) child hangs = four-Frees
child-Frees (suc (suc (suc (suc (suc c))))) child hangs = absurd (ground arith)

sys_wait_example : (r : Waited × Sched) × (sys_wait four ≡ ok r) × IsSound r.1 × WaitResult four r
sys_wait_example = sys_wait-WaitResult four four-IsSound four-HasPids refl child-Frees

-- Main runs, and its parent, the thread 4, waits.
abbrev parent_waits : Sched
parent_waits = record four {
  task = λ t. record (four.task t) {
    parent_pid = 4;
    stat = if t == 4 then task_waiting else (four.task t).stat;
  };
}

parent_waits-IsSound : IsSound parent_waits
parent_waits-IsSound = record {
  runs = λ t. ground arith;
  queue = λ t. ground arith;
  distinct = ground arith;
  loaded = refl;
  idle_lives = refl;
}

listed : pid2thread 4 parent_waits ≡ some 4
unfolding pid2thread pid_check find
listed = refl

tell_parent_example :
    (s' : Sched) × (tell_parent parent_waits ≡ ok s')
    × IsSound s'
    × Slept parent_waits s' task_hanging
    × (((stat parent_waits 4 ≡ task_waiting) × (s'.current ≡ 4) × (s'.ready ≡ 3 ∷ []))
        ⊎ ((stat parent_waits 4 ≢ task_waiting) × (s'.current ∷ s'.ready ≡ or_idle 1 (3 ∷ []))))
tell_parent_example = tell_parent-wakes parent_waits 4 parent_waits-IsSound listed (ground arith)

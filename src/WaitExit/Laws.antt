-- ===== src/WaitExit/Laws.antt =====
-- What a round of `sys_wait` and the end of `sys_exit` come to.
use recover_os.Prelude.{
  ℕ, ◌≡◌, refl, sym, ◌∙◌, ap, ◌≢◌, ◌⊎◌, inl, inr, true, false, Option, none, some, ◌∷◌, arith, ok,
  Bool-cases,
}
use recover_os.LinkedList.Chain.{has}
use recover_os.LinkedList.Queries.{find, find-some, find-none}
use recover_os.Thread.{Sched}
use recover_os.Thread.Tasks.{Tid, Stat, task_hanging, task_waiting, task_died, erase}
use recover_os.Thread.Schedule.{stat, or_idle, or_idle-cons_lem, IsSound}
use recover_os.Thread.Liveness.{cons_parts}
use recover_os.Thread.Switch.{Slept, thread_block-Switched, thread_unblock-IsSound}
use recover_os.Thread.Lifecycle.{Frees, HasPids, pid_at, thread_exit-HasPids}
use recover_os.WaitExit.{
  is_hanging, is_waiting, sign_extend, find_hanging_child, find_child, Waited, reaped, no_child,
  asleep, sys_wait, pid2thread, tell_parent,
}

-- `t` is a child of `p`.
abbrev pub IsChild : Sched → Tid → Tid → Type 0
IsChild s p t = (has t s.all ≡ true) × ((s.task t).parent_pid ≡ pid_at s p)

-- What a round of `sys_wait` may come to.
abbrev pub WaitResult : Sched → Waited × Sched → Type 0
WaitResult s (reaped pid status, s') =
    (c : Tid) × IsChild s s.current c
    × (stat s c ≡ task_hanging)
    × (pid ≡ pid_at s c)
    × (status ≡ sign_extend (s.task c).exit_status)
    × HasPids s'
    × (s'.current ≡ s.current)
    × (s'.all ≡ erase c s.all)
    × (stat s' c ≡ task_died)
WaitResult s (no_child, s') = (s' ≡ s) × ((t : Tid) → ¬ IsChild s s.current t)
WaitResult s (asleep, s') =
    ((c : Tid) × IsChild s s.current c)
    × ((t : Tid) → IsChild s s.current t → stat s t ≢ task_hanging)
    × (s'.current ∷ s'.ready ≡ or_idle s.idle_thread s.ready)
    × Slept s s' task_waiting

abbrev WaitGoal : Sched → Type 0
WaitGoal s = (r : Waited × Sched) × (sys_wait s ≡ ok r) × IsSound r.1 × WaitResult s r

hanging→eq : (st : Stat) → is_hanging st ≡ true → st ≡ task_hanging
hanging→eq st h = ground arith

-- A round of `sys_wait`, with the scheduler and the pids in order (every listed thread has a pid
-- from 1 to 1024 of its own, which the pool marks) and an idle thread that does not hang, does
-- not fail where the calls of `free_pages` for a child that hangs trip no ASSERT, and keeps the
-- scheduler sound. It reaps a child that hangs, if there is one; it returns -1 and changes
-- nothing, if there is no child; and it sleeps otherwise.
pub sys_wait-WaitResult :
    (s : Sched)
    → IsSound s
    → HasPids s
    → is_hanging (stat s s.idle_thread) ≡ false
    → ((c : Tid) → IsChild s s.current c → stat s c ≡ task_hanging → Frees s c)
    → (r : Waited × Sched) × (sys_wait s ≡ ok r) × IsSound r.1 × WaitResult s r
unfolding sys_wait find_hanging_child find_child
sys_wait-WaitResult s v pids idle frees =
    hanging (find (find_hanging_child s (pid_at s s.current)) s.all) refl
  where
    any :
        (m : Option Tid)
        → find (find_hanging_child s (pid_at s s.current)) s.all ≡ none
        → find (find_child s (pid_at s s.current)) s.all ≡ m
        → WaitGoal s
    any none e e' = (
      (no_child, s),
      rw (e, e', sys_wait),
      v,
      (refl, λ t c. ground (arith, find-none (find_child s (pid_at s s.current)) s.all t e')),
    )
    any (some c) e e' =
        let (there, child) = find-some (find_child s (pid_at s s.current)) s.all {x = c} e' in
        let (s', run, v', next, waits, _) = thread_block-Switched s task_waiting v refl in
        (
          (asleep, s'),
          rw (e, e', run, sys_wait),
          v',
          (
            (c, (there, ground arith)),
            λ t c h.
                ground (arith, find-none (find_hanging_child s (pid_at s s.current)) s.all t e),
            next,
            waits,
          ),
        )

    hanging :
        (m : Option Tid) → find (find_hanging_child s (pid_at s s.current)) s.all ≡ m → WaitGoal s
    hanging none e = any (find (find_child s (pid_at s s.current)) s.all) e refl
    hanging (some c) e =
        let (listed, passes) = find-some (find_hanging_child s (pid_at s s.current)) s.all e in
        let hangs : stat s c ≡ task_hanging = hanging→eq (stat s c) (ground arith) in
        let child : IsChild s s.current c = (listed, ground arith) in
        let (s', run, v', pids', cur, ready, all, freed, died, cleared, others) =
          thread_exit-HasPids s c v pids listed hangs (ground arith) (frees c child hangs) in
        (
          (reaped (pid_at s c) (sign_extend (s.task c).exit_status), s'),
          rw (e, run, sys_wait),
          v',
          (c, child, hangs, refl, refl, pids', cur, all, died),
        )

waiting→eq : (st : Stat) → is_waiting st ≡ true → st ≡ task_waiting
waiting→eq st h = ground arith

abbrev pub pid_of_parent : Sched → ℕ
pid_of_parent s = (s.task s.current).parent_pid

-- The end of `sys_exit`, where the parent is listed and is another thread: it does not fail and keeps
-- the scheduler sound. A thread that no longer runs hangs. A parent that waited runs next, and the
-- ready queue stays; a parent that did not wait leaves the choice to the queue, or to idle.
pub tell_parent-wakes :
    (s : Sched) (p : Tid)
    → IsSound s
    → pid2thread (pid_of_parent s) s ≡ some p
    → p ≢ s.current
    → (s' : Sched) × (tell_parent s ≡ ok s')
      × IsSound s'
      × Slept s s' task_hanging
      × (((stat s p ≡ task_waiting) × (s'.current ≡ p) × (s'.ready ≡ s.ready))
          ⊎ ((stat s p ≢ task_waiting) × (s'.current ∷ s'.ready ≡ or_idle s.idle_thread s.ready)))
unfolding tell_parent
tell_parent-wakes s p v there other = elim (Bool-cases (is_waiting (stat s p))) [
  | inl waits ↦
      let (s1, run1, v1, front, cur, same) = thread_unblock-IsSound s p v (ground arith) in
      let (s', run, v', next, hangs, _) = thread_block-Switched s1 task_hanging v1 refl in
      (
        s',
        rw (there, waits, run1, run, tell_parent),
        v',
        hung s1 s' cur hangs,
        (let (is_next, rest) = wakes s1 s' front next in
            inl (waiting→eq (stat s p) waits, is_next, rest)),
      )
  | inr busy ↦
      let (s', run, v', next, hangs, _) = thread_block-Switched s task_hanging v refl in
      (s', rw (there, busy, run, tell_parent), v', hangs, inr (λ w. ground arith, next))
]
  where
    hung :
        (s1 s' : Sched)
        → s1.current ≡ s.current
        → Slept s1 s' task_hanging
        → Slept s s' task_hanging
    hung s1 s' cur (inl same) = inl (sym cur ∙ same)
    hung s1 s' cur (inr hangs) = inr (ap (stat s') (sym cur) ∙ hangs)

    wakes :
        (s1 s' : Sched)
        → s1.ready ≡ p ∷ s.ready
        → s'.current ∷ s'.ready ≡ or_idle s1.idle_thread s1.ready
        → (s'.current ≡ p) × (s'.ready ≡ s.ready)
    wakes s1 s' front next =
        cons_parts s'.current p s'.ready s.ready
          (next ∙ ap (or_idle s1.idle_thread) front ∙ or_idle-cons_lem s1.idle_thread p s.ready)

-- ===== src/Thread/Switch.antt =====
-- `thread_block`, `thread_unblock`, `thread_yield` and the timer interrupt on a sound scheduler.
use recover_os.Prelude.{
  ◌+◌, ◌-◌, ◌%◌, ◌^◌, ◌≡◌, refl, ◌∙◌, ap, ◌≢◌, ◌⊎◌, true, false, List, [], ◌∷◌, ◌++◌, append-nil,
  arith, ok, panic, ◌==◌, Bool-cases, ==→eq, not_==→ne, inl, inr,
}
use recover_os.LinkedList.Chain.{has, has-append, Distinct-insert}
use recover_os.Thread.{
  Sched, set_stat, schedule, thread_unblock, thread_block, thread_yield, intr_time_hdl,
  stack_magic_value,
}
use recover_os.Thread.Tasks.{Tid, Stat, task_ready, is_running, is_asleep, Task, update}
use recover_os.Thread.Schedule.{
  stat, IsSound, IsPending, candidates, or_idle, schedule-Switched, IsSound→IsPending,
}

not_running : (s : Sched) → is_running (stat s s.current) ≡ false → candidates s ≡ s.ready
unfolding candidates
not_running s r = rw r

still_running :
    (s : Sched) → is_running (stat s s.current) ≡ true → candidates s ≡ s.ready ++ s.current ∷ []
unfolding candidates
still_running s r = rw r

at_least_one : (i : Tid) (q : List Tid) (t : Tid) → or_idle i (q ++ t ∷ []) ≡ q ++ t ∷ []
unfolding or_idle
at_least_one i [] t = refl
at_least_one i (x ∷ q) t = refl

-- A thread that the processor left for another has this state.
abbrev pub Slept : Sched → Sched → Stat → Type 0
Slept s s' st = (s.current ≡ s'.current) ⊎ (stat s' s.current ≡ st)

slept :
    (s s' : Sched) (st : Stat) → (s.current ≢ s'.current → stat s' s.current ≡ st) → Slept s s' st
slept s s' st h = elim (Bool-cases (s.current == s'.current)) [
  | inl e ↦ inl (==→eq _ _ e)
  | inr ne ↦ inr (h (not_==→ne _ _ ne))
]

-- `thread_block`, for one of the three states of a sleeper, never fails on a sound scheduler and keeps
-- it sound. The first of the ready queue runs next, or the idle thread where the queue is empty; a
-- thread that no longer runs has the state that was asked for; the tasks of the other threads do
-- not change.
pub thread_block-Switched :
    (s : Sched) (st : Stat)
    → IsSound s
    → is_asleep st ≡ true
    → (s' : Sched) × (thread_block st s ≡ ok s')
      × IsSound s'
      × (s'.current ∷ s'.ready ≡ or_idle s.idle_thread s.ready)
      × Slept s s' st
      × ((t : Tid) → t ≢ s.current → t ≢ s'.current → s'.task t ≡ s.task t)
unfolding thread_block
thread_block-Switched s st v sleep =
    let b = set_stat s s.current st in
    let pending : IsPending b = record {
      runs = λ t r. ground (arith, v.runs t);
      queue = λ t. ground (arith, v.queue t, v.runs t);
      distinct = v.distinct;
      idle_lives = ground (arith, v.idle_lives);
    } in
    let (s', run, sw) = schedule-Switched b pending in
    (
      s',
      rw sleep run,
      sw.sound,
      sw.picked ∙ ap (or_idle s.idle_thread) (not_running b (ground arith)),
      slept s s' st
          (λ ne. ap (λ (t : Task). t.stat) (sw.others s.current (ground arith) ne) ∙ ground arith),
      λ t nc nn. sw.others t (ground (arith, v.runs t)) nn ∙ ground arith,
    )

-- `thread_unblock` of a sleeping thread of a sound scheduler never fails and keeps it sound: the thread
-- is the first of the ready queue, the running thread runs on, and the tasks of the others do
-- not change.
pub thread_unblock-IsSound :
    (s : Sched) (t : Tid)
    → IsSound s
    → is_asleep (stat s t) ≡ true
    → (s' : Sched) × (thread_unblock t s ≡ ok s')
      × IsSound s'
      × (s'.ready ≡ t ∷ s.ready)
      × (s'.current ≡ s.current)
      × ((u : Tid) → u ≢ t → s'.task u ≡ s.task u)
unfolding thread_unblock
thread_unblock-IsSound s t v sleep = (
  set_stat (record s { ready = t ∷ s.ready }) t task_ready,
  ground (arith, v.queue t),
  record {
    runs = λ u. ground (arith, v.runs u);
    queue = λ u. ground (arith, v.queue u);
    distinct = (ground (arith, v.queue t), v.distinct);
    loaded = v.loaded;
    idle_lives = ground (arith, v.idle_lives);
  },
  refl,
  refl,
  λ u ne. ground arith,
)

-- A thread that does not sleep cannot be unblocked.
pub thread_unblock-panic :
    (s : Sched) (t : Tid) → is_asleep (stat s t) ≡ false → thread_unblock t s ≡ panic
unfolding thread_unblock
thread_unblock-panic s t awake = rw awake

-- `thread_yield` sends the running thread to the end of the queue and runs the first of it.
pub thread_yield-rotates :
    (s : Sched)
    → IsSound s
    → (s' : Sched) × (thread_yield s ≡ ok s')
      × IsSound s'
      × (s'.current ∷ s'.ready ≡ s.ready ++ s.current ∷ [])
unfolding thread_yield
thread_yield-rotates s v =
    let out : has s.current s.ready ≡ false = ground (arith, v.queue s.current, v.runs s.current) in
    let b = set_stat (record s { ready = s.ready ++ s.current ∷ [] }) s.current task_ready in
    let pending : IsPending b = record {
      runs = λ t r. ground (arith, v.runs t);
      queue = λ t. ground (arith, v.queue t, v.runs t, has-append t s.ready (s.current ∷ []));
      distinct =
          Distinct-insert s.ready [] s.current (rw append-nil v.distinct) (rw append-nil out);
      idle_lives = ground (arith, v.idle_lives);
    } in
    let (s', run, sw) = schedule-Switched b pending in
    (
      s',
      rw out run,
      sw.sound,
      sw.picked
          ∙ ap (or_idle s.idle_thread) (not_running b (ground arith))
          ∙ at_least_one s.idle_thread s.ready s.current,
    )

-- A running thread that is preempted goes to the end of the queue.
preempt :
    (s : Sched)
    → IsSound s
    → (s' : Sched) × (schedule s ≡ ok s')
      × IsSound s'
      × (s'.current ∷ s'.ready ≡ s.ready ++ s.current ∷ [])
      × (s'.clock ≡ s.clock)
preempt s v =
    let (s', run, sw) = schedule-Switched s (IsSound→IsPending v) in
    let running : is_running (stat s s.current) ≡ true = ground (arith, v.runs s.current) in
    (
      s',
      run,
      sw.sound,
      sw.picked
          ∙ ap (or_idle s.idle_thread) (still_running s running)
          ∙ at_least_one s.idle_thread s.ready s.current,
      sw.kept.clock,
    )

-- The timer interrupt of a sound scheduler, while the stack of the running thread is whole, never fails, keeps the
-- scheduler sound and counts the tick. Either it takes a tick from the thread, which keeps the
-- processor, and the ready queue stays as it is; or the thread has no tick left, and it goes to the
-- end of the ready queue, whose first thread runs.
pub intr_time_hdl-rotates :
    (s : Sched)
    → IsSound s
    → (s.task s.current).stack_magic ≡ stack_magic_value
    → (s.task s.current).istack_magic ≡ stack_magic_value
    → (s' : Sched) × (intr_time_hdl s ≡ ok s')
      × IsSound s'
      × (s'.clock ≡ (s.clock + 1) % 2 ^ 64)
      × (((s'.current ≡ s.current)
            × (s'.ready ≡ s.ready)
            × ((s'.task s.current).ticks + 1 ≡ (s.task s.current).ticks))
          ⊎ (((s.task s.current).ticks ≡ 0) × (s'.current ∷ s'.ready ≡ s.ready ++ s.current ∷ [])))
unfolding intr_time_hdl
intr_time_hdl-rotates s v m m' =
    let s1 = record s { clock = (s.clock + 1) % 2 ^ 64 } in
    let v1 : IsSound s1 = record {
      runs = v.runs;
      queue = v.queue;
      distinct = v.distinct;
      loaded = v.loaded;
      idle_lives = v.idle_lives;
    } in
    elim (Bool-cases ((s.task s.current).ticks == 0)) [
      | inl over ↦
          let (s', run, v', cycle, clock) = preempt s1 v1 in
          (s', rw (m, m', over) run, v', clock, inr (==→eq _ 0 over, cycle))
      | inr left ↦ (
        record s1 {
          task =
              update s.task s.current
                (record (s.task s.current) { ticks = (s.task s.current).ticks - 1 });
        },
        rw (m, m', left),
        record {
          runs = λ t. ground (arith, v.runs t);
          queue = λ t. ground (arith, v.queue t);
          distinct = v.distinct;
          loaded = v.loaded;
          idle_lives = ground (arith, v.idle_lives);
        },
        refl,
        inl (refl, refl, ground arith),
      )
    ]

-- ===== src/Thread/Schedule.antt =====
-- `schedule`: the states that the kernel calls it in, and the thread that it picks.
use recover_os.Prelude.{
  ◌≡◌, refl, sym, ◌∙◌, ap, ap₂, ◌≢◌, Bool, true, false, ◌||◌, List, [], ◌∷◌, ◌++◌, append-nil,
  arith, ok, ◌==◌, if◌then◌else◌, Bool-cases, inl, inr,
}
use recover_os.LinkedList.Chain.{has, Distinct, has-append, Distinct-insert}
use recover_os.Thread.{Sched, set_stat, put_back, wake_idle, run_next, schedule, thread_unblock}
use recover_os.Thread.Tasks.{
  Tid, Stat, task_running, task_ready, task_died, is_running, is_asleep, update,
}

abbrev pub is_ready : Stat → Bool
is_ready task_ready = true
is_ready _ = false

abbrev pub is_died : Stat → Bool
is_died task_died = true
is_died _ = false

abbrev pub stat : Sched → Tid → Stat
stat s t = (s.task t).stat

-- Between two scheduling decisions: the current thread runs, on its own interrupt stack, and no
-- other does; the ready queue holds the threads that are READY, each once; the idle thread lives.
pub record IsSound (s : Sched) : Type 0 where
  pub runs : (t : Tid) → is_running (stat s t) ≡ (t == s.current)
  pub queue : (t : Tid) → has t s.ready ≡ is_ready (stat s t)
  pub distinct : Distinct s.ready
  pub loaded : s.ist2 ≡ s.current
  pub idle_lives : is_died (stat s s.idle_thread) ≡ false

-- What `schedule` needs: the current thread may have left its state already.
pub record IsPending (s : Sched) : Type 0 where
  pub runs : (t : Tid) → is_running (stat s t) ≡ true → t ≡ s.current
  pub queue : (t : Tid) → has t s.ready ≡ is_ready (stat s t)
  pub distinct : Distinct s.ready
  pub idle_lives : is_died (stat s s.idle_thread) ≡ false

-- Nobody runs, and the queue is in order.
record IsQueued (s : Sched) : Type 0 where
  rests : (t : Tid) → is_running (stat s t) ≡ false
  queue : (t : Tid) → has t s.ready ≡ is_ready (stat s t)
  distinct : Distinct s.ready
  idle_lives : is_died (stat s s.idle_thread) ≡ false

-- The queue once the current thread is put back, and what stands in it if that is nothing.
unfoldable pub candidates : Sched → List Tid
candidates s = if is_running (stat s s.current) then s.ready ++ s.current ∷ [] else s.ready

unfoldable pub or_idle : Tid → List Tid → List Tid
or_idle idle [] = idle ∷ []
or_idle idle (t ∷ ts) = t ∷ ts

pub IsSound→IsPending : {s : Sched} → IsSound s → IsPending s
IsSound→IsPending {s} v = record {
  runs = λ t r. ground (arith, v.runs t);
  queue = v.queue;
  distinct = v.distinct;
  idle_lives = v.idle_lives;
}

-- What a step of the scheduler leaves alone.
pub record Kept (s s' : Sched) : Type 0 where
  pub all : s'.all ≡ s.all
  pub idle : s'.idle_thread ≡ s.idle_thread
  pub main : s'.main_thread ≡ s.main_thread
  pub pids : s'.pid_bitmap ≡ s.pid_bitmap
  pub clock : s'.clock ≡ s.clock
  pub kernel : s'.kernel ≡ s.kernel

put_back-IsQueued :
    (s : Sched)
    → IsPending s
    → (s' : Sched) × (put_back s ≡ ok s')
      × IsQueued s'
      × (s'.ready ≡ candidates s)
      × Kept s s'
      × ((t : Tid) → is_running (stat s t) ≡ false → s'.task t ≡ s.task t)
unfolding put_back candidates
put_back-IsQueued s v = elim (Bool-cases (is_running (stat s s.current))) [
  | inl r ↦
      let out : has s.current s.ready ≡ false = ground (arith, v.queue s.current) in
      (
        record s {
          task =
              update s.task s.current
                (record (s.task s.current) { stat = task_ready; ticks = (s.task s.current).prio });
          ready = s.ready ++ s.current ∷ [];
        },
        rw (r, out),
        record {
          rests = λ t. ground (arith, v.runs t);
          queue = λ t. ground (arith, v.queue t, has-append t s.ready (s.current ∷ []));
          distinct =
              Distinct-insert s.ready [] s.current (rw append-nil v.distinct) (rw append-nil out);
          idle_lives = ground (arith, v.idle_lives);
        },
        rw r,
        record { all = refl; idle = refl; main = refl; pids = refl; clock = refl; kernel = refl },
        λ t rest. ground arith,
      )
  | inr r ↦ (
    s,
    rw r,
    record {
      rests = λ t. ground (arith, v.runs t);
      queue = v.queue;
      distinct = v.distinct;
      idle_lives = v.idle_lives;
    },
    rw r,
    record { all = refl; idle = refl; main = refl; pids = refl; clock = refl; kernel = refl },
    λ t ne. refl,
  )
]

wake_idle-IsQueued :
    (s : Sched) (q : List Tid)
    → IsQueued s
    → s.ready ≡ q
    → (s' : Sched) × (wake_idle s ≡ ok s')
      × IsQueued s'
      × (s'.ready ≡ or_idle s.idle_thread q)
      × Kept s s'
      × ((t x : Tid) (r : List Tid)
          → or_idle s.idle_thread q ≡ x ∷ r
          → t ≢ x
          → s'.task t ≡ s.task t)
unfolding wake_idle or_idle thread_unblock
wake_idle-IsQueued s [] v e = (
  set_stat (record s { ready = s.idle_thread ∷ s.ready }) s.idle_thread task_ready,
  rw (e, asleep) refl,
  record {
    rests = λ t. ground (arith, v.rests t);
    queue = λ t. ground (arith, v.queue t);
    distinct = rw e (refl, tt);
    idle_lives = ground arith;
  },
  ap (λ q. s.idle_thread ∷ q) e,
  record { all = refl; idle = refl; main = refl; pids = refl; clock = refl; kernel = refl },
  λ t x r first ne. ground arith,
)
  where
    asleep : is_asleep (stat s s.idle_thread) ≡ true
    asleep = ground (arith, v.rests s.idle_thread, v.queue s.idle_thread, v.idle_lives)
wake_idle-IsQueued s (x ∷ r) v e = (
  s,
  rw e,
  v,
  e,
  record { all = refl; idle = refl; main = refl; pids = refl; clock = refl; kernel = refl },
  λ t x' r' first ne. refl,
)

run_next-IsSound :
    (s : Sched) (next : Tid) (rest : List Tid)
    → IsQueued s
    → s.ready ≡ next ∷ rest
    → (s' : Sched) × (run_next s ≡ ok s')
      × IsSound s'
      × (s'.current ≡ next)
      × (s'.ready ≡ rest)
      × Kept s s'
      × ((t : Tid) → t ≢ next → s'.task t ≡ s.task t)
unfolding run_next
run_next-IsSound s next rest v e = (
  record s {
    task = update s.task next (record (s.task next) { stat = task_running });
    current = next;
    ist2 = next;
    ready = rest;
  },
  rw e,
  record {
    runs = λ t. ground (arith, v.rests t);
    queue = λ t. ground (arith, v.queue t, front t, distinct);
    distinct = distinct.1;
    loaded = refl;
    idle_lives = ground (arith, v.idle_lives);
  },
  refl,
  refl,
  record { all = refl; idle = refl; main = refl; pids = refl; clock = refl; kernel = refl },
  λ t ne. ground arith,
)
  where
    distinct : Distinct (next ∷ rest)
    distinct = rw e at v.distinct

    front : (t : Tid) → has t s.ready ≡ ((t == next) || has t rest)
    front t = rw e

-- What `schedule` comes to: it never trips an ASSERT and never finds the queue empty. The thread
-- that runs next is the first candidate, the others stay in order, and the task of a
-- thread that neither ran nor runs does not change.
pub record Switched (s s' : Sched) : Type 0 where
  pub sound : IsSound s'
  pub picked : s'.current ∷ s'.ready ≡ or_idle s.idle_thread (candidates s)
  pub kept : Kept s s'
  pub others : (t : Tid) → is_running (stat s t) ≡ false → t ≢ s'.current → s'.task t ≡ s.task t

pub or_idle-cons_lem : (i x : Tid) (q : List Tid) → or_idle i (x ∷ q) ≡ x ∷ q
unfolding or_idle
or_idle-cons_lem i x q = refl

or_idle-cons : (i : Tid) (q : List Tid) → (x : Tid) × (r : List Tid) × (or_idle i q ≡ x ∷ r)
unfolding or_idle
or_idle-cons i [] = (i, [], refl)
or_idle-cons i (x ∷ r) = (x, r, refl)

Kept-trans : {a b c : Sched} → Kept a b → Kept b c → Kept a c
Kept-trans k l = record {
  all = l.all ∙ k.all;
  idle = l.idle ∙ k.idle;
  main = l.main ∙ k.main;
  pids = l.pids ∙ k.pids;
  clock = l.clock ∙ k.clock;
  kernel = l.kernel ∙ k.kernel;
}

-- `schedule` never fails where the ready queue holds the READY threads, each once, the running thread at
-- most runs and the idle thread lives. The scheduler is then sound. The first of the ready queue
-- runs next, a thread that gave up the processor while it ran stands last, and the idle
-- thread runs where the queue is empty; the lists, the pids, the clock and the tasks of the other
-- threads do not change.
pub schedule-Switched :
    (s : Sched) → IsPending s → (s' : Sched) × (schedule s ≡ ok s') × Switched s s'
unfolding schedule
schedule-Switched s v =
    let (s1, run1, v1, q1, k1, o1) = put_back-IsQueued s v in
    let (s2, run2, v2, q2, k2, o2) = wake_idle-IsQueued s1 (candidates s) v1 q1 in
    let (next, rest, e) = or_idle-cons s.idle_thread (candidates s) in
    let e1 : or_idle s1.idle_thread (candidates s) ≡ next ∷ rest =
      ap (λ i. or_idle i (candidates s)) k1.idle ∙ e in
    let (s3, run3, v3, c3, r3, k3, o3) = run_next-IsSound s2 next rest v2 (q2 ∙ e1) in
    (
      s3,
      rw (run1, run2, run3),
      record {
        sound = v3;
        picked = ap₂ ◌∷◌ c3 r3 ∙ sym e;
        kept = Kept-trans k1 (Kept-trans k2 k3);
        others = λ t rests nn.
            let ne : t ≢ next = λ h. nn (h ∙ sym c3) in o3 t ne ∙ o2 t next rest e1 ne ∙ o1 t rests;
      },
    )

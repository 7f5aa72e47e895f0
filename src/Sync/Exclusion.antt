-- ===== src/Sync/Exclusion.antt =====
-- Locks over all interleavings of their callers.
use recover_os.Prelude.{
  panic, ap, ◌⊎◌, ◌+◌, ◌^◌, ◌<◌, ◌≡◌, refl, ◌++◌, ◌≢◌, inl, inr, true, List, [], ◌∷◌, arith, ok,
  ◌>>=◌, length,
}
use recover_os.Thread.Tasks.{Tid}
use recover_os.Sync.{release, step, sema_init, lock_init, outside, System, Call, run, start}
use recover_os.Sync.Invariant.{owns, Ownership, NoLostWakeup, Inv}
use recover_os.Sync.Steps.{Misuse, step-Inv}

-- No thread of the schedule is NULL.
abbrev pub NoNull : List (Tid × Call) → Type 0
NoNull [] = Unit
NoNull ((t, _) ∷ rest) = (t ≢ 0) × NoNull rest

start-Inv : (s : System) × (start ≡ ok s) × Inv s × (s.lock.holder_repeat_nr ≡ 0)
unfolding start lock_init sema_init
start-Inv = (
  record {
    lock = record {
      holder = 0;
      semaphore = record { value = 1; waiters = [] };
      holder_repeat_nr = 0;
    };
    pc = λ t. outside;
  },
  refl,
  record {
    owner = inl (refl, refl, refl, λ t. refl);
    distinct = tt;
    wait = λ t h. cc;
    awake = inr (inl refl);
  },
  refl,
)

-- A schedule from `s0` on trips an ASSERT: it comes to a state in which a thread that is outside
-- calls `lock_release`.
abbrev pub TripsFrom : List (Tid × Call) → System → Type 0
TripsFrom schedule s0 =
    (before : List (Tid × Call)) × (t : Tid) × (rest : List (Tid × Call)) × (s : System) × (schedule
      ≡ before ++ (t, release) ∷ rest)
    × (run before s0 ≡ ok s)
    × (s.pc t ≡ outside)
    × (run schedule s0 ≡ panic)

run-misused :
    (t : Tid) (call : Call) (rest : List (Tid × Call)) (s : System)
    → Misuse (s.pc t) call (step t call s)
    → TripsFrom ((t, call) ∷ rest) s
unfolding run
run-misused t call rest s (at, is_release, trips) = (
  [],
  t,
  rest,
  s,
  ap {A = Call} {B = List (Tid × Call)} (λ c. (t, c) ∷ rest) is_release,
  refl,
  at,
  rw (trips, ◌>>=◌) refl,
)

run-later :
    (t : Tid) (call : Call) (rest : List (Tid × Call)) (s s1 : System)
    → step t call s ≡ ok s1
    → TripsFrom rest s1
    → TripsFrom ((t, call) ∷ rest) s
unfolding run
run-later t call rest s s1 run1 (before, u, after, s', split, reached, at, trips) = (
  (t, call) ∷ before,
  u,
  after,
  s',
  ap {A = List (Tid × Call)} {B = List (Tid × Call)} (λ l. (t, call) ∷ l) split,
  rw (run1, ◌>>=◌) reached,
  at,
  rw (run1, ◌>>=◌) trips,
)

run-Inv :
    (schedule : List (Tid × Call)) (s : System)
    → Inv s
    → NoNull schedule
    → s.lock.holder_repeat_nr + length schedule < 2 ^ 64
    → ((s' : System) × (run schedule s ≡ ok s') × Inv s') ⊎ TripsFrom schedule s
unfolding run
run-Inv [] s v nn room = inl (s, refl, v)
run-Inv ((t, call) ∷ rest) s v nn room = elim (step-Inv s t call v nn.0 (omega arith)) [
  | inr misuse ↦ inr (run-misused t call rest s misuse)
  | inl (s1, run1, v1, more) ↦ elim (run-Inv rest s1 v1 nn.1 (omega (arith, more))) [
    | inl (s', run', v') ↦ inl (s', rw (run1, ◌>>=◌) run', v')
    | inr trips ↦ inr (run-later t call rest s s1 run1 trips)
  ]
]

-- The state after a schedule from `lock_init` on.
abbrev pub Reaches : List (Tid × Call) → System → Type 0
Reaches schedule s' = (start >>= λ s. run schedule s) ≡ ok s'

-- A schedule that trips an ASSERT: after some of its steps a thread that is outside, so without the
-- lock, calls `lock_release`.
abbrev pub Misuses : List (Tid × Call) → Type 0
Misuses schedule =
    (before : List (Tid × Call)) × (t : Tid) × (rest : List (Tid × Call)) × (s : System) × (schedule
      ≡ before ++ (t, release) ∷ rest)
    × Reaches before s
    × (s.pc t ≡ outside)
    × ((start >>= λ s. run schedule s) ≡ panic)

reach :
    (schedule : List (Tid × Call))
    → NoNull schedule
    → length schedule < 2 ^ 64
    → ((s' : System) × Reaches schedule s' × Inv s') ⊎ Misuses schedule
reach schedule nn room =
    let (s, begin, v, zero_held) = start-Inv in
    elim (run-Inv schedule s v nn (omega (arith, zero_held))) [
      | inl (s', go, v') ↦ inl (s', rw (begin, ◌>>=◌) go, v')
      | inr (before, t, rest, s', split, reached, at, trips) ↦
          inr (before, t, rest, s', split, rw (begin, ◌>>=◌) reached, at, rw (begin, ◌>>=◌) trips)
    ]

one_owner :
    (s : System) → Ownership s → (t u : Tid) → owns (s.pc t) ≡ true → owns (s.pc u) ≡ true → t ≡ u
one_owner s (inl (val, holder, nr, nobody)) t u ht hu = ground (arith, nobody t)
one_owner s (inr (o, p, (val, at, own, fields, others))) t u ht hu =
    ground (arith, others t, others u)

-- Any threads may call `lock_acquire` and `lock_release` in any interleaving. Either no ASSERT of
-- these, of `sema_down` or of `sema_up` trips, and then no two threads are between the end of
-- their `sema_down` and their `sema_up` at once; or the schedule has a thread that stands
-- outside, so does not hold the lock, call `lock_release`, after steps that tripped none, and the
-- system panics. Schedules have fewer than 2 ^ 64 steps, so the count of holds does not wrap, and
-- no thread is NULL.
pub lock_exclusive :
    (schedule : List (Tid × Call))
    → NoNull schedule
    → length schedule < 2 ^ 64
    → ((s : System) × Reaches schedule s
        × ((t u : Tid) → owns (s.pc t) ≡ true → owns (s.pc u) ≡ true → t ≡ u))
      ⊎ Misuses schedule
lock_exclusive schedule nn room = elim (reach schedule nn room) [
  | inl (s, go, v) ↦ inl (s, go, one_owner s v.owner)
  | inr misuse ↦ inr misuse
]

-- Under the same conditions on the schedule, unless it has a thread that stands outside call
-- `lock_release`, which panics: in the state that is reached, a lock that is free and has waiters
-- also has a thread that is not asleep and will try it again.
pub lock-NoLostWakeup :
    (schedule : List (Tid × Call))
    → NoNull schedule
    → length schedule < 2 ^ 64
    → ((s : System) × Reaches schedule s × NoLostWakeup s) ⊎ Misuses schedule
lock-NoLostWakeup schedule nn room = elim (reach schedule nn room) [
  | inl (s, go, v) ↦ inl (s, go, v.awake)
  | inr misuse ↦ inr misuse
]

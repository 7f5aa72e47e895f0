-- ===== src/Thread/Liveness.antt =====
-- The turns of the ready queue.
use recover_os.Prelude.{
  ℕ, zero, suc, ◌≡◌, ◌∙◌, ap, List, [], ◌∷◌, ◌++◌, append_assoc, Run, ok, ◌>>=◌, length,
}
use recover_os.Thread.{Sched, thread_yield}
use recover_os.Thread.Tasks.{Tid}
use recover_os.Thread.Schedule.{IsSound}
use recover_os.Thread.Switch.{thread_yield-rotates}

-- `n` threads in turn give up the processor.
pub yields : ℕ → Sched → Run Sched
yields zero s = ok s
yields (suc n) s = thread_yield s >>= λ s'. yields n s'

pub cons_parts : (a b : Tid) (r q : List Tid) → a ∷ r ≡ b ∷ q → (a ≡ b) × (r ≡ q)
cons_parts a b r q e = (cc, cc)

-- On a sound scheduler a READY thread with `n` others in front of it runs after `n + 1` turns, whoever they are, and
-- those others and the thread that ran first then wait behind the ones that it had behind it.
pub yields-served :
    (xs ys : List Tid) (t : Tid) (s : Sched)
    → IsSound s
    → s.ready ≡ xs ++ t ∷ ys
    → (s' : Sched) × (yields (suc (length xs)) s ≡ ok s')
      × IsSound s'
      × (s'.current ≡ t)
      × (s'.ready ≡ ys ++ s.current ∷ xs)
unfolding yields
yields-served [] ys t s v e =
    let (s', run, v', cycle) = thread_yield-rotates s v in
    let (now, then_on) =
      cons_parts s'.current t s'.ready (ys ++ s.current ∷ [])
        (cycle ∙ ap (λ q. q ++ s.current ∷ []) e) in
    (s', rw run, v', now, then_on)
yields-served (x ∷ xs) ys t s v e =
    let (s1, run1, v1, cycle) = thread_yield-rotates s v in
    let (now, then_on) =
      cons_parts s1.current x s1.ready ((xs ++ t ∷ ys) ++ s.current ∷ [])
        (cycle ∙ ap (λ q. q ++ s.current ∷ []) e) in
    let (s', run, v', served, behind) =
      yields-served xs (ys ++ s.current ∷ []) t s1 v1
        (then_on ∙ append_assoc xs (t ∷ ys) (s.current ∷ [])) in
    (
      s',
      rw run1 run,
      v',
      served,
      behind
          ∙ append_assoc ys (s.current ∷ []) (s1.current ∷ xs)
          ∙ ap (λ c. ys ++ s.current ∷ c ∷ xs) now,
    )

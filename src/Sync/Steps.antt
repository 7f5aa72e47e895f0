-- ===== src/Sync/Steps.antt =====
-- The steps of `lock_acquire` and `lock_release`, one by one, and the states that they lead to.
use recover_os.Prelude.{
  Run, panic, ◌⊎◌, ℕ, ◌+◌, ◌-◌, ◌%◌, ◌^◌, ◌<◌, ◌≡◌, refl, ap, ◌≢◌, inl, inr, true, false, List, [],
  ◌∷◌, ◌++◌, append-nil, arith, ltb, Bool-cases,
}
use recover_os.LinkedList.Chain.{has, Distinct, has-append, Distinct-insert}
use recover_os.Thread.Tasks.{Tid}
use recover_os.Sync.{
  Semaphore, sema_down, wake_first, sema_up, count_up, become_holder, lock_release, Pc, outside,
  trying, entered, holding, leaving, System, Call, acquire, release, move, call_acquire,
  call_release, try_down, step_at, step,
}
use recover_os.Sync.Invariant.{
  owns, waiters, Fields, OwnedBy, Ownership, NoLostWakeup, Inv, CanStep, Good, owner_here,
  stays_out, outsider_not_holder,
}

call_acquire-outside :
    (s : System) (t : Tid) → Inv s → CanStep s t → s.pc t ≡ outside → Good s (call_acquire t s)
unfolding call_acquire
call_acquire-outside s t v c at =
    let out : owns (s.pc t) ≡ false = ap owns at in
    (
      move s t trying,
      rw (outsider_not_holder s t v.owner out c.not_null),
      record {
        owner = stays_out s t trying out refl v.owner;
        distinct = v.distinct;
        wait = λ u h. ground (arith, v.wait u);
        awake = awake v.awake;
      },
      omega arith,
    )
  where
    awake : NoLostWakeup s → NoLostWakeup (move s t trying)
    awake (inl z) = inl z
    awake (inr (inl e)) = inr (inl e)
    awake (inr (inr (u, tr, out))) = inr (inr (u, ground arith, out))

-- The owner's place and the fields of the lock change; the semaphore is as it was.
owner_moves :
    (s : System) (t : Tid) (p p' : Pc) (h nr : ℕ)
    → Inv s
    → OwnedBy s t p
    → owns p' ≡ true
    → Fields p' t h nr
    → Inv (move (record s { lock = record (s.lock) { holder = h; holder_repeat_nr = nr } }) t p')
owner_moves s t p p' h nr v (val, at, own, fields, others) own' fields' = record {
  owner = inr (t, p', (val, ground arith, own', fields', λ u ne. ground (arith, others u)));
  wait = λ u h. ground (arith, v.wait u);
  distinct = v.distinct;
  awake = inl val;
}

become_holder-entered :
    (s : System) (t : Tid)
    → Inv s
    → CanStep s t
    → s.pc t ≡ entered
    → Good s (step_at entered t acquire s)
unfolding step_at become_holder
become_holder-entered s t v c at =
    let own = owner_here s t entered v.owner at refl in
    let l' = count_up (record (s.lock) { holder = t }) in
    (
      move (record s { lock = l' }) t holding,
      ground (arith, own.3),
      owner_moves s t entered holding l'.holder l'.holder_repeat_nr v own refl
          (refl, ground (arith, own.3)),
      ground arith,
    )

call_acquire-holding :
    (s : System) (t : Tid) → Inv s → CanStep s t → s.pc t ≡ holding → Good s (call_acquire t s)
unfolding call_acquire
call_acquire-holding s t v c at =
    let own = owner_here s t holding v.owner at refl in
    let l' = count_up s.lock in
    (
      move (record s { lock = l' }) t holding,
      ground (arith, own.3),
      owner_moves s t holding holding l'.holder l'.holder_repeat_nr v own refl
          (own.3.0, omega (arith, own.3.1, c.room)),
      omega (arith, c.room),
    )

call_release-holding :
    (s : System) (t : Tid) → Inv s → CanStep s t → s.pc t ≡ holding → Good s (call_release t s)
unfolding call_release lock_release
call_release-holding s t v c at = elim (Bool-cases (ltb 1 s.lock.holder_repeat_nr)) [
  | inl more ↦
      let l' = record (s.lock) { holder_repeat_nr = s.lock.holder_repeat_nr - 1 } in
      (
        move (record s { lock = l' }) t holding,
        ground (arith, own.3),
        owner_moves s t holding holding l'.holder l'.holder_repeat_nr v own refl
            (own.3.0, ground arith),
        ground arith,
      )
  | inr last ↦
      let l' = record (s.lock) { holder = 0; holder_repeat_nr = 0 } in
      (
        move (record s { lock = l' }) t leaving,
        ground (arith, own.3),
        owner_moves s t holding leaving l'.holder l'.holder_repeat_nr v own refl (refl, refl),
        ground arith,
      )
]
  where
    own : OwnedBy s t holding
    own = owner_here s t holding v.owner at refl

try_down-trying :
    (s : System) (t : Tid) → Inv s → CanStep s t → s.pc t ≡ trying → Good s (try_down t s)
unfolding try_down sema_down
try_down-trying s t v c at = by_owner v.owner
  where
    by_owner : Ownership s → Good s (try_down t s)
    by_owner (inl (val, holder, nr, nobody)) =
        let sema = record (s.lock.semaphore) {
          value = (s.lock.semaphore.value + 2 ^ 8 - 1) % 2 ^ 8;
        } in
        (
          move (record s { lock = record (s.lock) { semaphore = sema } }) t entered,
          ground (arith, val),
          record {
            owner = inr (
              t,
              entered,
              (
                omega (arith, val),
                ground arith,
                refl,
                (holder, nr),
                λ u ne. ground (arith, nobody u),
              ),
            );
            distinct = v.distinct;
            wait = λ u h. ground (arith, v.wait u, c.free);
            awake = inl (omega (arith, val));
          },
          omega arith,
        )
    by_owner (inr (o, p, (val, at', own, fields, others))) =
        let sema = record (s.lock.semaphore) { waiters = waiters s ++ t ∷ [] } in
        (
          record s { lock = record (s.lock) { semaphore = sema } },
          ground (arith, val, c.free),
          record {
            owner = inr (o, p, (val, at', own, fields, others));
            distinct =
                Distinct-insert (waiters s) [] t (rw append-nil v.distinct) (rw append-nil c.free);
            wait = λ u h. ground (arith, v.wait u, has-append u (waiters s) (t ∷ []));
            awake = inl val;
          },
          omega arith,
        )

sema_up-leaving :
    (s : System) (t : Tid)
    → Inv s
    → CanStep s t
    → s.pc t ≡ leaving
    → Good s (step_at leaving t acquire s)
unfolding step_at sema_up wake_first
sema_up-leaving s t v c at = by_waiters (waiters s) refl
  where
    own : OwnedBy s t leaving
    own = owner_here s t leaving v.owner at refl

    by_waiters : (ws : List Tid) → waiters s ≡ ws → Good s (step_at leaving t acquire s)
    by_waiters [] e =
        let sema = record (s.lock.semaphore) { value = (s.lock.semaphore.value + 1) % 2 ^ 8 } in
        (
          move (record s { lock = record (s.lock) { semaphore = sema } }) t outside,
          ground (arith, own.0),
          record {
            owner = inl (omega (arith, own.0), own.3.0, own.3.1, λ u. ground (arith, own.4 u));
            distinct = v.distinct;
            wait = λ u h. ground arith;
            awake = inr (inl e);
          },
          omega arith,
        )
    by_waiters (w ∷ ws) e =
        let distinct : Distinct (w ∷ ws) = rw e at v.distinct in
        let sema : Semaphore = record {
          value = (s.lock.semaphore.value + 1) % 2 ^ 8;
          waiters = ws;
        } in
        (
          move (record s { lock = record (s.lock) { semaphore = sema } }) t outside,
          ground (arith, own.0),
          record {
            owner = inl (omega (arith, own.0), own.3.0, own.3.1, λ u. ground (arith, own.4 u));
            distinct = distinct.1;
            wait = λ u h. ground (arith, v.wait u);
            awake = inr (inr (w, ground (arith, v.wait w), distinct.0));
          },
          omega arith,
        )

-- A thread that is outside does not hold the lock, and may not release it.
call_release-outside :
    (s : System) (t : Tid) → Inv s → CanStep s t → s.pc t ≡ outside → call_release t s ≡ panic
unfolding call_release lock_release
call_release-outside s t v c at =
    let out : owns (s.pc t) ≡ false = ap owns at in
    rw (outsider_not_holder s t v.owner out c.not_null) refl

-- A thread that is outside calls `lock_release`, and an ASSERT trips.
abbrev pub Misuse : Pc → Call → Run System → Type 0
Misuse p call r = (p ≡ outside) × (call ≡ release) × (r ≡ panic)

-- Every step of every thread succeeds and keeps the invariant, or it is a release from outside.
pub step-Inv :
    (s : System) (t : Tid) (call : Call)
    → Inv s
    → t ≢ 0
    → s.lock.holder_repeat_nr + 1 < 2 ^ 64
    → Good s (step t call s) ⊎ Misuse (s.pc t) call (step t call s)
unfolding step step_at
step-Inv s t call v nz room = elim (Bool-cases (has t (waiters s))) [
  | inl asleep ↦ inl (s, rw asleep, v, omega arith)
  | inr free ↦
      rw free (at_place (s.pc t) refl call (record { free = free; not_null = nz; room = room }))
]
  where
    at_place :
        (p : Pc)
        → s.pc t ≡ p
        → (call : Call) → CanStep s t
        → Good s (step_at p t call s) ⊎ Misuse p call (step_at p t call s)
    at_place outside at acquire c = inl (call_acquire-outside s t v c at)
    at_place outside at release c = inr (refl, refl, call_release-outside s t v c at)
    at_place trying at call c = inl (try_down-trying s t v c at)
    at_place entered at call c = inl (become_holder-entered s t v c at)
    at_place holding at acquire c = inl (call_acquire-holding s t v c at)
    at_place holding at release c = inl (call_release-holding s t v c at)
    at_place leaving at call c = inl (sema_up-leaving s t v c at)

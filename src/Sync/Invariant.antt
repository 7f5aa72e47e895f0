-- ===== src/Sync/Invariant.antt =====
-- The states of a lock and of its callers between two steps.
use recover_os.Prelude.{
  ℕ, ◌+◌, ◌^◌, ◌≤◌, ◌<◌, ◌≡◌, sym, ◌∙◌, ap, ◌≢◌, ◌⊎◌, inl, inr, Bool, true, false, List, [], arith,
  Run, ok, ◌==◌, Bool-cases, ==→eq, not_==→ne,
}
use mathlib.Core.Path.{subst}
use recover_os.LinkedList.Chain.{has, Distinct}
use recover_os.Thread.Tasks.{Tid}
use recover_os.Sync.{Pc, outside, trying, entered, holding, leaving, System, move}

pub true≢false : true ≢ false
true≢false e = cc

-- The thread has passed the semaphore.
abbrev pub owns : Pc → Bool
owns outside = false
owns trying = false
owns _ = true

abbrev pub is_trying : Pc → Bool
is_trying trying = true
is_trying _ = false

abbrev pub waiters : System → List Tid
waiters s = s.lock.semaphore.waiters

-- What the place of the owner says of the fields of the lock.
abbrev pub Fields : Pc → Tid → (holder nr : ℕ) → Type 0
Fields holding o h nr = (h ≡ o) × (1 ≤ nr)
Fields _ o h nr = (h ≡ 0) × (nr ≡ 0)

-- One thread owns the lock.
abbrev pub OwnedBy : System → Tid → Pc → Type 0
OwnedBy s o p =
    (s.lock.semaphore.value ≡ 0)
    × (s.pc o ≡ p)
    × (owns p ≡ true)
    × Fields p o s.lock.holder s.lock.holder_repeat_nr
    × ((t : Tid) → t ≢ o → owns (s.pc t) ≡ false)

-- Nobody owns the lock.
abbrev pub Free : System → Type 0
Free s =
    (s.lock.semaphore.value ≡ 1)
    × (s.lock.holder ≡ 0)
    × (s.lock.holder_repeat_nr ≡ 0)
    × ((t : Tid) → owns (s.pc t) ≡ false)

abbrev pub Ownership : System → Type 0
Ownership s = Free s ⊎ ((o : Tid) × (p : Pc) × OwnedBy s o p)

-- A free lock with waiters has a thread that was woken and will try again.
abbrev pub NoLostWakeup : System → Type 0
NoLostWakeup s =
    (s.lock.semaphore.value ≡ 0)
    ⊎ (waiters s ≡ [])
    ⊎ ((t : Tid) × (s.pc t ≡ trying) × (has t (waiters s) ≡ false))

pub record Inv (s : System) : Type 0 where
  pub owner : Ownership s
  pub distinct : Distinct (waiters s)
  pub wait : (t : Tid) → has t (waiters s) ≡ true → s.pc t ≡ trying
  pub awake : NoLostWakeup s

-- A thread's step is possible: it is no waiter, no NULL, and its count of holds does not wrap.
pub record CanStep (s : System) (t : Tid) : Type 0 where
  pub free : has t (waiters s) ≡ false
  pub not_null : t ≢ 0
  pub room : s.lock.holder_repeat_nr + 1 < 2 ^ 64

abbrev pub Good : System → Run System → Type 0
Good s r =
    (s' : System) × (r ≡ ok s') × Inv s' × (s'.lock.holder_repeat_nr ≤ s.lock.holder_repeat_nr + 1)

-- A thread at a place of the owner is the owner.
pub owner_here :
    (s : System) (t : Tid) (p : Pc) → Ownership s → s.pc t ≡ p → owns p ≡ true → OwnedBy s t p
owner_here s t p (inl (val, holder, nr, nobody)) at own =
    absurd (true≢false (sym own ∙ ap owns (sym at) ∙ nobody t))
owner_here s t p (inr (o, p', (val, at', own', fields, others))) at own =
    elim (Bool-cases (t == o)) [
      | inl e ↦
          let same : t ≡ o = ==→eq t o e in
          subst (λ u. OwnedBy s u p) (sym same)
            (subst (λ q. OwnedBy s o q) (sym at' ∙ ap s.pc (sym same) ∙ at)
              (val, at', own', fields, others))
      | inr ne ↦ absurd (true≢false (sym own ∙ ap owns (sym at) ∙ others t (not_==→ne t o ne)))
    ]

-- A thread that does not own the lock goes to a place where it does not own it either.
pub stays_out :
    (s : System) (t : Tid) (p : Pc)
    → owns (s.pc t) ≡ false
    → owns p ≡ false
    → Ownership s
    → Ownership (move s t p)
stays_out s t p from to (inl (val, holder, nr, nobody)) =
    inl (val, holder, nr, λ u. ground (arith, nobody u))
stays_out s t p from to (inr (o, p', (val, at, own, fields, others))) =
    inr (o, p', (val, ground arith, own, fields, λ u ne. ground (arith, others u)))

pub not_holder : (p : Pc) (o t h nr : ℕ) → Fields p o h nr → o ≢ t → t ≢ 0 → h == t ≡ false
not_holder outside o t h nr f ne nz = ground arith
not_holder trying o t h nr f ne nz = ground arith
not_holder entered o t h nr f ne nz = ground arith
not_holder holding o t h nr f ne nz = ground arith
not_holder leaving o t h nr f ne nz = ground arith

pub outsider_not_holder :
    (s : System) (t : Tid)
    → Ownership s
    → owns (s.pc t) ≡ false
    → t ≢ 0
    → s.lock.holder == t ≡ false
outsider_not_holder s t (inl (val, holder, nr, nobody)) out nz = ground arith
outsider_not_holder s t (inr (o, p, (val, at, own, fields, others))) out nz =
    not_holder p o t s.lock.holder s.lock.holder_repeat_nr fields
      (λ e. true≢false (sym own ∙ ap owns (sym at) ∙ ap (λ u. owns (s.pc u)) e ∙ out)) nz

-- ===== src/Sync/Examples.antt =====
-- thread/sync.c with two threads that ask for the same lock.
use recover_os.Prelude.{◌⊎◌, ◌≡◌, true, List, [], ◌∷◌, arith}
use recover_os.Thread.Tasks.{Tid}
use recover_os.Sync.{System, Call, acquire, release}
use recover_os.Sync.Invariant.{owns, NoLostWakeup}
use recover_os.Sync.Exclusion.{Misuses, Reaches, lock_exclusive, lock-NoLostWakeup}

-- Thread 1 takes the lock twice, thread 2 waits for it, and thread 1 gives it up.
abbrev contended : List (Tid × Call)
contended =
    (1, acquire)
    ∷ (1, acquire)
    ∷ (2, acquire)
    ∷ (1, acquire)
    ∷ (2, acquire)
    ∷ (1, acquire)
    ∷ (2, acquire)
    ∷ (1, release)
    ∷ (1, release)
    ∷ (1, release)
    ∷ (2, acquire)
    ∷ []

lock_exclusive_example :
    ((s : System) × Reaches contended s
      × ((t u : Tid) → owns (s.pc t) ≡ true → owns (s.pc u) ≡ true → t ≡ u))
    ⊎ Misuses contended
lock_exclusive_example = lock_exclusive contended (ground arith) (ground arith)

lock-NoLostWakeup_example :
    ((s : System) × Reaches contended s × NoLostWakeup s) ⊎ Misuses contended
lock-NoLostWakeup_example = lock-NoLostWakeup contended (ground arith) (ground arith)

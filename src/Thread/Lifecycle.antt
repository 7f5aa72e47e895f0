-- ===== src/Thread/Lifecycle.antt =====
-- `thread_start` and `thread_exit`: the queues, the pids and the pages of a thread's life.
use recover_os.Prelude.{
  length, lt→ltb, ◌>>=◌, ℕ, ◌+◌, ◌-◌, ◌*◌, ◌%◌, ◌^◌, ◌≤◌, ◌<◌, ◌≡◌, refl, ◌∙◌, ◌≢◌, ◌⊎◌, ==_self,
  true, false, Option, none, some, List, [], ◌∷◌, ◌++◌, append-nil, arith, ok, ◌==◌, inl, inr,
  ne→not_==,
}
use recover_os.Bitmap.{Bitmap, bitmap_alloc_a_bit}
use recover_os.Bitmap.Laws.{
  bit, IsValid, InMemory, write, set-ok, bit-write, write-IsValid, bytes_len-write,
}
use recover_os.Bitmap.Turned.{Turned}
use recover_os.Bitmap.Alloc.{TakesFirst, bitmap_alloc_a_bit-TakesFirst}
use recover_os.LinkedList.Chain.{has, Distinct, has-append, Distinct-insert}
use recover_os.Memory.{Memory, Pool}
use recover_os.Thread.{
  task_name_len, free_page, Sched, pid_of, alloc_pid, release_pid, init_thread, create_thread,
  thread_start, thread_exit, stack_magic_value,
}
use recover_os.Thread.Tasks.{
  has-erase, Distinct-erase, Tid, task_ready, task_hanging, task_died, update, erase, no_files,
}
use recover_os.Thread.Schedule.{stat, IsSound}

abbrev pub pid_at : Sched → Tid → ℕ
pid_at s t = (s.task t).pid

-- The pid pool, 128 bytes, marks the pid of each thread, and no two threads share one.
pub record HasPids (s : Sched) : Type 0 where
  pub pool : IsValid s.pid_bitmap
  pub pool_len : s.pid_bitmap.bytes_len ≡ 128
  pub in_pool : (t : Tid) → has t s.all ≡ true → (1 ≤ pid_at s t) × (pid_at s t ≤ 1024)
  pub marked : (t : Tid) → has t s.all ≡ true → bit s.pid_bitmap (pid_at s t - 1) ≡ true
  pub unique :
      (t u : Tid) → has t s.all ≡ true → has u s.all ≡ true → pid_at s t ≡ pid_at s u → t ≡ u
  pub all_distinct : Distinct s.all

-- The state that `thread_start` leaves, given what the pid pool returned.
started : Tid → (name : List ℕ) → (prio func arg : ℕ) → Option ℕ × Bitmap → Sched → Sched
unfolding create_thread
started t name prio func arg r s =
    let made = create_thread t func arg (record s {
      pid_bitmap = r.1;
      task = update s.task t (record (s.task t) {
        pid = pid_of r.0;
        name = name;
        prio = prio;
        ticks = prio;
        stat = task_ready;
        pml4 = 0;
        stack_magic = stack_magic_value;
        istack_magic = stack_magic_value;
        cwd_i_no = 0;
        fd_table = no_files;
      });
    }) in
    record made { all = s.all ++ t ∷ []; ready = s.ready ++ t ∷ [] }

module _ (s : Sched) (t : Tid) (name : List ℕ) (prio func arg : ℕ) (v : IsSound s)
    (pids : HasPids s) (page : t ≢ 0) (fresh : t ≢ s.current) (not_ready : has t s.ready ≡ false)
    (not_listed : has t s.all ≡ false) (short : length name < task_name_len) where
  started-IsSound : (r : Option ℕ × Bitmap) → IsSound (started t name prio func arg r s)
  unfolding started
  started-IsSound r = record {
    runs = λ u. ground (arith, v.runs u);
    queue = λ u. ground (arith, v.queue u, has-append u s.ready (t ∷ []));
    distinct = Distinct-insert s.ready [] t (rw append-nil v.distinct) (rw append-nil not_ready);
    loaded = v.loaded;
    idle_lives = ground (arith, v.idle_lives);
  }

  thread_start-runs :
      (r : Option ℕ × Bitmap)
      → bitmap_alloc_a_bit s.pid_bitmap ≡ ok r
      → thread_start t name prio func arg s ≡ ok (started t name prio func arg r s)
  unfolding thread_start init_thread alloc_pid create_thread started
  thread_start-runs r run =
      rw (ne→not_== t 0 page, run, lt→ltb (length name) task_name_len short, not_listed, not_ready)

  started-HasPids :
      (i : ℕ) (m : Bitmap)
      → i < 1024
      → bit s.pid_bitmap i ≡ false
      → Turned true i 1 s.pid_bitmap m
      → HasPids (started t name prio func arg (some i, m) s)
  unfolding started
  started-HasPids i m lt free turned = record {
    pool = turned.valid;
    pool_len = turned.same_len ∙ pids.pool_len;
    in_pool = λ u h. ground (arith, has-append u s.all (t ∷ []), pids.in_pool u);
    marked = λ u h. ground (
      arith,
      has-append u s.all (t ∷ []),
      pids.marked u,
      turned.bits i,
      turned.bits (pid_at s u - 1),
    );
    unique = λ u w hu hw e. ground (
      arith,
      has-append u s.all (t ∷ []),
      has-append w s.all (t ∷ []),
      pids.unique u w,
      pids.marked u,
      pids.marked w,
      pids.in_pool u,
      pids.in_pool w,
    );
    all_distinct =
        Distinct-insert s.all [] t (rw append-nil pids.all_distinct) (rw append-nil not_listed);
  }

  -- `thread_start` on a page that no thread has, with a name of fewer than 20 bytes and with the
  -- scheduler and the pids in order, never fails: the new thread is READY behind all others in
  -- both lists, and the scheduler is sound. While a pid is left, the thread gets one that no
  -- other has; where none is left it gets pid 0 and the pool stays full.
  pub thread_start-HasPids :
      (s' : Sched) × (thread_start t name prio func arg s ≡ ok s')
      × IsSound s'
      × (s'.ready ≡ s.ready ++ t ∷ [])
      × (s'.all ≡ s.all ++ t ∷ [])
      × (stat s' t ≡ task_ready)
      × (HasPids s'
          ⊎ ((pid_at s' t ≡ 0)
              × (s'.pid_bitmap ≡ s.pid_bitmap)
              × ((i : ℕ) → i < 1024 → bit s.pid_bitmap i ≡ true)))
  unfolding started
  thread_start-HasPids =
      let (r, run, takes) = bitmap_alloc_a_bit-TakesFirst s.pid_bitmap pids.pool in
      (
        started t name prio func arg r s,
        thread_start-runs r run,
        started-IsSound r,
        refl,
        refl,
        ground arith,
        by_result r takes,
      )
    where
      by_result :
          (r : Option ℕ × Bitmap)
          → TakesFirst s.pid_bitmap 0 (8 * s.pid_bitmap.bytes_len) r
          → HasPids (started t name prio func arg r s)
            ⊎ ((pid_at (started t name prio func arg r s) t ≡ 0)
                × (r.1 ≡ s.pid_bitmap)
                × ((i : ℕ) → i < 1024 → bit s.pid_bitmap i ≡ true))
      by_result (none, m) (same, used) =
          inr (ground arith, same, λ i lt. ground (arith, used i, pids.pool_len))
      by_result (some i, m) (lo, hi, free, first, turned) =
          inl (started-HasPids i m (omega (arith, pids.pool_len)) free turned)

-- The memory of the kernel behind the calls of `free_pages` by `thread_exit`, of which none trips an
-- ASSERT: of the page table of a process, then of the task unless it is main.
abbrev pub Frees : Sched → Tid → Type 0
Frees s t =
    (k1 : Pool × Memory) × (k2 : Pool × Memory) × (free_page ((s.task t).pml4 == 0) (s.task t).pml4
        s.kernel
      ≡ ok k1)
    × (free_page (t == s.main_thread) t k1 ≡ ok k2)

module _ (s : Sched) (t : Tid) (v : IsSound s) (pids : HasPids s) (listed : has t s.all ≡ true)
    (hanging : stat s t ≡ task_hanging) (not_idle : t ≢ s.idle_thread) (frees : Frees s t) where
  released : Sched
  released = record s {
    task = update s.task t (record (s.task t) { stat = task_died });
    all = erase t s.all;
    pid_bitmap = write s.pid_bitmap (pid_at s t - 1) false;
    kernel = frees.1;
  }

  exit-runs : thread_exit t false s ≡ ok released
  unfolding thread_exit release_pid released
  exit-runs =
      let at : (pid_at s t + 2 ^ 64 - 1) % 2 ^ 64 ≡ pid_at s t - 1 =
        omega (arith, pids.in_pool t listed) in
      let here : InMemory s.pid_bitmap (pid_at s t - 1) =
        omega (arith, pids.in_pool t listed, pids.pool_len, pids.pool.backed) in
      rw
        (
          ==_self t,
          frees.2,
          ◌>>=◌,
          at,
          set-ok s.pid_bitmap (pid_at s t - 1) false here,
          ◌>>=◌,
          frees.3,
        )
        refl

  -- `thread_exit` without `need_schedule`, as `wait` calls it, of a listed thread that hangs and is not
  -- idle, with the scheduler and the pids in order, does not fail where its calls of `free_pages` trip
  -- no ASSERT. It takes the thread out of the list of all threads, frees its pid, leaves the memory of
  -- the kernel as those calls do, and leaves the scheduler and the pids of the others in order.
  pub thread_exit-HasPids :
      (s' : Sched) × (thread_exit t false s ≡ ok s')
      × IsSound s'
      × HasPids s'
      × (s'.current ≡ s.current)
      × (s'.ready ≡ s.ready)
      × (s'.all ≡ erase t s.all)
      × (s'.kernel ≡ frees.1)
      × (stat s' t ≡ task_died)
      × (bit s'.pid_bitmap (pid_at s t - 1) ≡ false)
      × ((u : Tid) → u ≢ t → s'.task u ≡ s.task u)
  unfolding released
  thread_exit-HasPids =
      let here : InMemory s.pid_bitmap (pid_at s t - 1) =
        omega (arith, pids.in_pool t listed, pids.pool_len, pids.pool.backed) in
      (
        released,
        exit-runs,
        record {
          runs = λ u. ground (arith, v.runs u);
          queue = λ u. ground (arith, v.queue u);
          distinct = v.distinct;
          loaded = v.loaded;
          idle_lives = ground (arith, v.idle_lives);
        },
        record {
          pool = write-IsValid pids.pool (pid_at s t - 1) false here;
          pool_len = bytes_len-write s.pid_bitmap (pid_at s t - 1) false ∙ pids.pool_len;
          in_pool = λ u h. ground (arith, has-erase t u s.all pids.all_distinct, pids.in_pool u);
          marked = λ u h. ground (
            arith,
            has-erase t u s.all pids.all_distinct,
            pids.marked u,
            bit-write pids.pool (pid_at s t - 1) false here (pid_at s u - 1),
            pids.in_pool u,
            pids.in_pool t,
            pids.unique u t,
          );
          unique = λ u w hu hw e. ground (
            arith,
            has-erase t u s.all pids.all_distinct,
            has-erase t w s.all pids.all_distinct,
            pids.unique u w,
          );
          all_distinct = Distinct-erase t s.all pids.all_distinct;
        },
        refl,
        refl,
        refl,
        refl,
        ground arith,
        ground (arith, bit-write pids.pool (pid_at s t - 1) false here (pid_at s t - 1)),
        λ u ne. ground arith,
      )

-- ===== src/Descriptors/Laws.antt =====
-- What is installed as a descriptor, and where the descriptors of a pipe lead.
use recover_os.Prelude.{
  ℕ, zero, suc, ◌+◌, ◌≤◌, ◌<◌, ◌≡◌, refl, sym, ◌∙◌, ap, ◌≢◌, inl, inr, true, false, Option, none,
  some, arith, ok, ◌==◌, length, set, length-set, get_or-set_self, get_or-set_ne, Bool-cases,
  ne→not_==,
}
use recover_os.Ioqueue.{ioqueue_init}
use recover_os.Descriptors.{
  pipe_flag, Files, no_file, file_at, local_at, free_slot_from, get_free_slot_in_global, is_closed,
  install_from, pcb_fd_install, fd_local2global, pipe_slot, sys_pipe,
}

-- What `pcb_fd_install` may do: take the lowest closed descriptor, or nothing where all are open.
abbrev pub Installed : (global_fd : ℕ) → Files → (from rounds : ℕ) → Option ℕ × Files → Type 0
Installed g s i n (none, s') =
    (s' ≡ s) × ((j : ℕ) → i ≤ j → j < i + n → is_closed (local_at s j) ≡ false)
Installed g s i n (some k, s') =
    (i ≤ k)
    × (k < i + n)
    × (is_closed (local_at s k) ≡ true)
    × ((j : ℕ) → i ≤ j → j < k → is_closed (local_at s j) ≡ false)
    × (s' ≡ record s { fd_table = set s.fd_table k (some g) })

install_from-Installed : (g n i : ℕ) (s : Files) → Installed g s i n (install_from g n i s)
unfolding install_from
install_from-Installed g zero i s = (refl, λ j le lt. absurd (omega arith))
install_from-Installed g (suc n) i s = elim (Bool-cases (is_closed (local_at s i))) [
  | inl closed ↦
      rw closed (omega arith, omega arith, closed, (λ j le lt. absurd (omega arith)), refl)
  | inr in_use ↦
      rw in_use (later (install_from g n (i + 1) s) in_use (install_from-Installed g n (i + 1) s))
]
  where
    later :
        (r : Option ℕ × Files)
        → is_closed (local_at s i) ≡ false
        → Installed g s (i + 1) n r
        → Installed g s i (suc n) r
    later (none, s') in_use (same, opens) = (
      same,
      λ j le lt. elim (Bool-cases (j == i)) [
        | inl e ↦ ground arith
        | inr ne ↦ opens j (ground arith) (omega arith)
      ],
    )
    later (some k, s') in_use (low, high, closed, opens, is) = (
      omega arith,
      omega arith,
      closed,
      (λ j le lt. elim (Bool-cases (j == i)) [
        | inl e ↦ ground arith
        | inr ne ↦ opens j (ground arith) lt
      ]),
      is,
    )

-- `pcb_fd_install` takes the lowest closed descriptor from 3 on and lets it name the slot, or returns -1
-- and changes nothing, and then all descriptors from 3 on are open.
pub pcb_fd_install-Installed : (g : ℕ) (s : Files) → Installed g s 3 5 (pcb_fd_install g s)
unfolding pcb_fd_install
pcb_fd_install-Installed g s = install_from-Installed g 5 3 s

free_slot_from-range :
    (s : Files) (n i g : ℕ) → free_slot_from s n i ≡ some g → (i ≤ g) × (g < i + n)
unfolding free_slot_from
free_slot_from-range s zero i g e = cc
free_slot_from-range s (suc n) i g e = elim (Bool-cases ((file_at s i).fd_inode == 0)) [
  | inl free ↦ ground arith
  | inr taken ↦ ground (arith, free_slot_from-range s n (i + 1) g)
]

-- The descriptor leads to the slot.
abbrev LeadsTo : Files → (local_fd g : ℕ) → Type 0
LeadsTo s l g = (local_at s l ≡ some g) × (l < length s.fd_table)

set_leads :
    (s : Files) (l g : ℕ)
    → l < length s.fd_table
    → LeadsTo (record s { fd_table = set s.fd_table l (some g) }) l g
set_leads s l g lt =
    (get_or-set_self s.fd_table l (some g) none lt, omega (arith, length-set s.fd_table l (some g)))

leads-fd_local2global : (s : Files) (l g : ℕ) → LeadsTo s l g → g < 32 → fd_local2global l s ≡ ok g
unfolding fd_local2global
leads-fd_local2global s l g (at, lt) small = ground arith

abbrev installed : Files → (l g : ℕ) → Files
installed s l g = record s { fd_table = set s.fd_table l (some g) }

-- Two installs in turn take two descriptors.
abbrev Twice : Files → ℕ → Type 0
Twice s g =
    (r : ℕ) × (w : ℕ) × (pcb_fd_install g s ≡ (some r, installed s r g))
    × (pcb_fd_install g (installed s r g) ≡ (some w, installed (installed s r g) w g))
    × (r ≢ w)
    × (3 ≤ r)
    × (3 ≤ w)
    × (r < 8)
    × (w < 8)

second_install :
    (s : Files) (g r b : ℕ)
    → length s.fd_table ≡ 8
    → r < b
    → b < 8
    → 3 ≤ r
    → is_closed (local_at s b) ≡ true
    → pcb_fd_install g s ≡ (some r, installed s r g)
    → Twice s g
second_install s g r b len rb lb low cb run =
    go (pcb_fd_install g s1) refl (pcb_fd_install-Installed g s1)
  where
    s1 : Files
    s1 = installed s r g

    other : local_at s1 b ≡ local_at s b
    other = get_or-set_ne s.fd_table r b (some g) none (omega arith)

    taken : local_at s1 r ≡ some g
    taken = get_or-set_self s.fd_table r (some g) none (omega arith)

    go : (q : Option ℕ × Files) → pcb_fd_install g s1 ≡ q → Installed g s1 3 5 q → Twice s g
    go (none, s') e (same, opens) = absurd (ground (arith, opens b, other))
    go (some w, s') e (low', high', closed, opens, is) = (
      r,
      w,
      run,
      e ∙ ap (λ x. (some w, x)) is,
      (λ rw'. ground (arith, taken)),
      low,
      low',
      omega arith,
      omega arith,
    )

install-Twice :
    (s : Files) (g a b : ℕ)
    → length s.fd_table ≡ 8
    → 3 ≤ a
    → a < b
    → b < 8
    → is_closed (local_at s a) ≡ true
    → is_closed (local_at s b) ≡ true
    → Twice s g
install-Twice s g a b len la ab lb ca cb =
    go (pcb_fd_install g s) refl (pcb_fd_install-Installed g s)
  where
    go : (q : Option ℕ × Files) → pcb_fd_install g s ≡ q → Installed g s 3 5 q → Twice s g
    go (none, s') e (same, opens) = absurd (ground (arith, opens a))
    go (some r, s') e (low, high, closed, opens, is) =
        let r_first : r ≤ a = ground (arith, opens a) in
        second_install s g r b len (omega arith) lb low cb (e ∙ ap (λ x. (some r, x)) is)

slot_range : (s : Files) (g : ℕ) → get_free_slot_in_global s ≡ some g → (3 ≤ g) × (g < 3 + 29)
unfolding get_free_slot_in_global
slot_range s g slot = free_slot_from-range s 29 3 g slot

-- `sys_pipe` with a page, a free slot and two closed descriptors, of tables of their full lengths, puts
-- the queue of the page, made empty, into the slot as a pipe that is open twice, and returns
-- two different descriptors that lead to it.
pub sys_pipe_lem :
    (s : Files) (page g a b : ℕ)
    → page ≢ 0
    → length s.file_table ≡ 32
    → length s.fd_table ≡ 8
    → get_free_slot_in_global s ≡ some g
    → 3 ≤ a
    → a < b
    → b < 8
    → local_at s a ≡ none
    → local_at s b ≡ none
    → (r : ℕ) × (w : ℕ) × (s' : Files) × (sys_pipe page s ≡ ok (some (some r, some w), s'))
      × (r ≢ w)
      × (fd_local2global r s' ≡ ok g)
      × (fd_local2global w s' ≡ ok g)
      × (file_at s' g ≡ record { fd_pos = 2; flag = pipe_flag; fd_inode = page })
      × (s'.queue page ≡ ioqueue_init (s.queue page).buf)
      × ((j : ℕ) → g ≢ j → file_at s' j ≡ file_at s j)
unfolding sys_pipe
sys_pipe_lem s page g a b pn flen len slot la ab lb ca cb =
    let (g_low, g_high) = slot_range s g slot in
    let t = pipe_slot g page s in
    let (r, w, run, run', ne, lr, lw, hr, hw) =
      install-Twice t g a b len la ab lb (rw ca refl) (rw cb refl) in
    let s' = installed (installed t r g) w g in
    let kept : local_at s' r ≡ some g =
      get_or-set_ne (set s.fd_table r (some g)) w r (some g) none (λ e. ne (sym e))
      ∙ get_or-set_self s.fd_table r (some g) none (omega arith) in
    let len' =
      length-set (set s.fd_table r (some g)) w (some g) ∙ length-set s.fd_table r (some g) in
    (
      r,
      w,
      s',
      rw (slot, ne→not_== page 0 pn, run, run', sys_pipe),
      ne,
      leads-fd_local2global s' r g (kept, omega (arith, len')) (omega arith),
      leads-fd_local2global s' w g
          (set_leads (installed t r g) w g (omega (arith, length-set s.fd_table r (some g))))
          (omega arith),
      get_or-set_self s.file_table g (record { fd_pos = 2; flag = pipe_flag; fd_inode = page })
          no_file (omega arith),
      ground arith,
      λ j ne.
          get_or-set_ne s.file_table g j (record { fd_pos = 2; flag = pipe_flag; fd_inode = page })
            no_file ne,
    )

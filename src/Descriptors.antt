-- ===== src/Descriptors.antt =====
-- fs/file.c, fd_local2global of fs/fs.c and pipe/pipe.c: descriptors of files and pipes.
--
-- A process has a table of descriptors, whose entries name slots of the table of open files. A `none`
-- in it is the -1 of the source, and so is a `none` that a function returns.
mod Examples
pub mod Laws
use recover_os.Prelude.{
  ℕ, zero, suc, ◌+◌, ◌-◌, Bool, true, false, ◌||◌, not, Option, none, some, List, [], ◌∷◌, Run, ok,
  fault, ◌>>=◌, ◌>>◌, assert, ltb, ◌==◌, if◌then◌else◌, length, get_or, set,
}
use recover_os.Ioqueue.{Ioqueue, ioqueue_init}

abbrev pub max_files_open : ℕ
max_files_open = 32

abbrev pub max_files_open_per_proc : ℕ
max_files_open_per_proc = 8

abbrev pub pipe_flag : ℕ
pipe_flag = 0xffff

-- `struct file`; an `fd_inode` of 0 is NULL.
pub record File : Type 0 where
  pub fd_pos : ℕ
  pub flag : ℕ
  pub fd_inode : ℕ

pub record Files : Type 0 where
  pub file_table : List File
  -- the running thread's
  pub fd_table : List (Option ℕ)
  -- the queue in a page
  pub queue : ℕ → Ioqueue

abbrev pub no_file : File
no_file = record { fd_pos = 0; flag = 0; fd_inode = 0 }

-- `file_table[fd_idx]`
abbrev pub file_at : Files → ℕ → File
file_at s i = get_or s.file_table i no_file

abbrev pub local_at : Files → ℕ → Option ℕ
local_at s i = get_or s.fd_table i none

-- From slot `fd_idx` on, with `rounds` slots left.
free_slot_from : Files → (rounds fd_idx : ℕ) → Option ℕ
free_slot_from s zero fd_idx = none
free_slot_from s (suc n) fd_idx =
    let rest = free_slot_from s n (fd_idx + 1) in
    if (file_at s fd_idx).fd_inode == 0 then some fd_idx else rest

pub get_free_slot_in_global : Files → Option ℕ
get_free_slot_in_global s = free_slot_from s (max_files_open - 3) 3

abbrev pub is_closed : Option ℕ → Bool
is_closed none = true
is_closed (some _) = false

pub install_from : ℕ → (rounds local_fd : ℕ) → Files → Option ℕ × Files
install_from global_fd zero local_fd s = (none, s)
install_from global_fd (suc n) local_fd s =
    let rest = install_from global_fd n (local_fd + 1) s in
    if is_closed (local_at s local_fd)
    then (some local_fd, record s { fd_table = set s.fd_table local_fd (some global_fd) })
    else rest

pub pcb_fd_install : (global_fd : ℕ) → Files → Option ℕ × Files
pcb_fd_install global_fd s = install_from global_fd (max_files_open_per_proc - 3) 3 s

-- An entry of -1 fails the ASSERT; a descriptor past the table is a read outside of it.
unfoldable pub fd_local2global : ℕ → Files → Run ℕ
fd_local2global local_fd s =
    if ltb local_fd (length s.fd_table)
    then elim (local_at s local_fd) [
      | none ↦ assert false >>= λ _. ok 0
      | some global_fd ↦ assert (ltb global_fd max_files_open) >>= λ _. ok global_fd
    ]
    else fault

pub is_pipe : ℕ → Files → Run Bool
is_pipe local_fd s = do
  global_fd ← fd_local2global local_fd s
  ok ((file_at s global_fd).flag == pipe_flag)

-- The slot of a new pipe: the page with its queue made empty, and two descriptors that use it.
abbrev pub pipe_slot : (global_fd page : ℕ) → Files → Files
pipe_slot global_fd page s = record s {
  file_table =
      set s.file_table global_fd (record { fd_pos = 2; flag = pipe_flag; fd_inode = page });
  queue = λ p. if p == page then ioqueue_init (s.queue p).buf else s.queue p;
}

-- `page` is what `alloc_pages(&k_v_pool, 1)` returned. Without a free slot the index is -1.
pub sys_pipe : (page : ℕ) → Files → Run (Option (Option ℕ × Option ℕ) × Files)
sys_pipe page s = elim (get_free_slot_in_global s) [
  | none ↦ fault
  | some global_fd ↦
      if page == 0
      then ok (
        none,
        record s {
          file_table =
              set s.file_table global_fd (record (file_at s global_fd) { fd_inode = page });
        },
      )
      else (let (reads, s1) = pcb_fd_install global_fd (pipe_slot global_fd page s) in
          let (writes, s2) = pcb_fd_install global_fd s1 in ok (some (reads, writes), s2))
]

pub sys_fd_redirect : (old_local_fd new_local_fd : ℕ) → Files → Run Files
sys_fd_redirect old new s =
    if not (ltb old (length s.fd_table))
    then fault
    else if ltb new 3
    then ok (record s { fd_table = set s.fd_table old (some new) })
    else if not (ltb new (length s.fd_table))
    then fault
    else ok (record s { fd_table = set s.fd_table old (local_at s new) })

-- ===== src/Descriptors/Examples.antt =====
-- A process with the descriptors 0 to 3 in use opens a pipe.
use recover_os.Prelude.{ℕ, ◌≡◌, ◌≢◌, refl, none, some, [], ◌∷◌, arith, ok, replicate}
use recover_os.Ioqueue.{Ioqueue, ioqueue_init}
use recover_os.Descriptors.{
  pipe_flag, Files, no_file, file_at, free_slot_from, get_free_slot_in_global, fd_local2global,
  sys_pipe,
}
use recover_os.Descriptors.Laws.{sys_pipe_lem}

abbrev old_queue : Ioqueue
old_queue = record { producer = 7; consumer = 0; buf = []; head = 3; tail = 5 }

abbrev files : Files
files = record {
  file_table = replicate 32 no_file;
  fd_table = some 0 ∷ some 1 ∷ some 2 ∷ some 4 ∷ none ∷ none ∷ none ∷ none ∷ [];
  queue = λ p. old_queue;
}

slot_free : get_free_slot_in_global files ≡ some 3
unfolding get_free_slot_in_global free_slot_from
slot_free = refl

sys_pipe_example :
    (r : ℕ) × (w : ℕ) × (s' : Files) × (sys_pipe 0x1000 files ≡ ok (some (some r, some w), s'))
    × (r ≢ w)
    × (fd_local2global r s' ≡ ok 3)
    × (fd_local2global w s' ≡ ok 3)
    × (file_at s' 3 ≡ record { fd_pos = 2; flag = pipe_flag; fd_inode = 0x1000 })
    × (s'.queue 0x1000 ≡ ioqueue_init [])
    × ((j : ℕ) → 3 ≢ j → file_at s' j ≡ file_at files j)
sys_pipe_example =
    sys_pipe_lem files 0x1000 3 4 5 (ground arith) refl refl slot_free (omega arith) (omega arith)
      (omega arith) refl refl

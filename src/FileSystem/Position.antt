-- ===== src/FileSystem/Position.antt =====
-- fs/fs.c, `sys_lseek` and the part of `sys_read` that reads a file: the position of an open file.
--
-- `inodes` is what stands at the address that a file has for its inode. A result of none is -1, and
-- an offset is the 64 bits of an `ssize_t`.
use recover_os.Prelude.{
  subst, ℕ, ◌+◌, ◌-◌, ◌*◌, ◌%◌, ◌^◌, ◌≤◌, ◌<◌, ◌≡◌, refl, ◌≢◌, ◌⊎◌, inl, inr, Bool, true, false,
  ◌||◌, arith, Option, none, some, Run, ok, ◌>>=◌, ltb, leb, if◌then◌else◌, Bool-cases, length, set,
  get_or-set_self, get_or-set_ne,
}
use recover_os.Descriptors.{Files, file_at, no_file, fd_local2global, max_files_open}
use recover_os.FileSystem.Disk.{Buffer, Disk}
use recover_os.FileSystem.Inode.{Inode, inode_read}
use recover_os.FileSystem.Reading.{Reads, inode_read-Reads}

pub data Whence : Type 0 where
  seek_set : Whence
  seek_cur : Whence
  seek_end : Whence

-- `new_pos`
pub new_pos : Whence → (offset fd_pos file_size : ℕ) → ℕ
new_pos seek_set offset fd_pos file_size = offset
new_pos seek_cur offset fd_pos file_size = (fd_pos + offset) % 2 ^ 64
new_pos seek_end offset fd_pos file_size = (file_size + offset) % 2 ^ 64

-- Slot `g` gets another position.
abbrev pub set_pos : ℕ → ℕ → Files → Files
set_pos g p s = record s { file_table = set s.file_table g (record (file_at s g) { fd_pos = p }) }

-- `x > y` of two numbers of type `ssize_t`.
abbrev pub signed_gt : ℕ → ℕ → Bool
signed_gt x y = ltb ((y + 2 ^ 63) % 2 ^ 64) ((x + 2 ^ 63) % 2 ^ 64)

-- `fd` is the 32 bits of an `int32_t`.
pub sys_lseek : (inodes : ℕ → Inode) → (fd offset : ℕ) → Whence → Files → Run (Option ℕ × Files)
sys_lseek inodes fd offset whence s =
    if leb (2 ^ 31) fd || ltb max_files_open fd then ok (none, s) else (do
      fd_idx ← fd_local2global fd s
      let f = file_at s fd_idx
      let file_size = (inodes f.fd_inode).i_size
      let p = new_pos whence offset f.fd_pos file_size
      if leb (2 ^ 63) p || signed_gt p file_size
          then ok (none, s)
          else ok (some p, set_pos fd_idx p s))

-- What the result, an `ssize_t`, adds to the position.
abbrev pub advance : Option (ℕ × Buffer) → ℕ
advance none = 2 ^ 64 - 1
advance (some (n, buf)) = n

-- The last branch of `sys_read`.
pub read_file :
    (sys_malloc : ℕ → Option Buffer)
    → Disk
    → (inodes : ℕ → Inode) → (fd count : ℕ) → Files
    → Run (Option (ℕ × Buffer) × Files)
read_file sys_malloc disk inodes fd count s = do
  fd_idx ← fd_local2global fd s
  let f = file_at s fd_idx
  ret ← inode_read sys_malloc disk (inodes f.fd_inode) count f.fd_pos
  ok (ret, set_pos fd_idx ((f.fd_pos + advance ret) % 2 ^ 64) s)

-- Slot `g` has position `p` and is otherwise as it was, as are the other slots.
pub record Moved (g p : ℕ) (s s' : Files) : Type 0 where
  pub position : file_at s' g ≡ record (file_at s g) { fd_pos = p }
  pub others : (j : ℕ) → g ≢ j → file_at s' j ≡ file_at s j
  pub same_fds : s'.fd_table ≡ s.fd_table

pub set_pos-Moved : (g p : ℕ) (s : Files) → g < length s.file_table → Moved g p s (set_pos g p s)
set_pos-Moved g p s lt = record {
  position = get_or-set_self s.file_table g (record (file_at s g) { fd_pos = p }) no_file lt;
  others = λ j ne. get_or-set_ne s.file_table g j (record (file_at s g) { fd_pos = p }) no_file ne;
  same_fds = refl;
}

-- What a seek comes to: -1, with nothing changed, where the position is not within the file; or the
-- position, which is now the file's.
abbrev pub Seeks :
    (inodes : ℕ → Inode) → (g offset : ℕ) → Whence → Files → Option ℕ × Files → Type 0
Seeks inodes g offset whence s (none, s') =
    (s' ≡ s)
    × ((inodes (file_at s g).fd_inode).i_size
        < new_pos whence offset (file_at s g).fd_pos (inodes (file_at s g).fd_inode).i_size)
Seeks inodes g offset whence s (some p, s') =
    (p ≡ new_pos whence offset (file_at s g).fd_pos (inodes (file_at s g).fd_inode).i_size)
    × (p ≤ (inodes (file_at s g).fd_inode).i_size)
    × Moved g p s s'

-- The position behind what was read, or a byte back.
abbrev pub behind : ℕ → Option (ℕ × Buffer) → ℕ
behind pos none = (pos + 2 ^ 64 - 1) % 2 ^ 64
behind pos (some (n, buf)) = pos + n

seek-cases :
    (p size : ℕ)
    → p < 2 ^ 64
    → size < 2 ^ 63
    → ((leb (2 ^ 63) p || signed_gt p size) ≡ true × (size < p))
      ⊎ ((leb (2 ^ 63) p || signed_gt p size) ≡ false × (p ≤ size))
seek-cases p size word short = elim (Bool-cases (ltb size p)) [
  | inl out ↦ inl (ground (arith, out), ground (arith, out))
  | inr within ↦ inr (ground (arith, within), ground (arith, within))
]

new_pos-word :
    (whence : Whence) (offset pos size : ℕ)
    → offset < 2 ^ 64
    → new_pos whence offset pos size < 2 ^ 64
unfolding new_pos
new_pos-word seek_set offset pos size lt = lt
new_pos-word seek_cur offset pos size lt = omega arith
new_pos-word seek_end offset pos size lt = omega arith

moved-behind :
    (disk : Disk) (inode : Inode) (count pos : ℕ) (r : Option (ℕ × Buffer))
    → inode.i_size ≤ 140 * 512
    → Reads disk inode count pos r
    → (pos + advance r) % 2 ^ 64 ≡ behind pos r
moved-behind disk inode count pos none small reads = omega arith
moved-behind disk inode count pos (some (n, buf)) small reads = omega (arith, reads.2)

module _ (inodes : ℕ → Inode) (fd g : ℕ) (s : Files) (names : fd_local2global fd s ≡ ok g)
    (here : g < length s.file_table) where
  -- `sys_lseek` of an open descriptor of at most 32, to an offset of 64 bits in a file shorter than
  -- 2 ^ 63, never fails: it returns -1 and changes nothing where the position, taken modulo 2 ^ 64, is
  -- beyond the file's size, and otherwise returns it and moves the file there and no other.
  pub sys_lseek-Seeks :
      (offset : ℕ) (whence : Whence)
      → fd ≤ 32
      → offset < 2 ^ 64
      → (inodes (file_at s g).fd_inode).i_size < 2 ^ 63
      → (r : Option ℕ × Files) × (sys_lseek inodes fd offset whence s ≡ ok r)
        × Seeks inodes g offset whence s r
  unfolding sys_lseek
  sys_lseek-Seeks offset whence low word short =
      let size = (inodes (file_at s g).fd_inode).i_size in
      let p = new_pos whence offset (file_at s g).fd_pos size in
      let fd_ok : (leb (2 ^ 31) fd || ltb max_files_open fd) ≡ false = ground arith in
      elim (seek-cases p size (new_pos-word whence offset (file_at s g).fd_pos size word) short) [
        | inl (out, beyond) ↦ ((none, s), rw (fd_ok, names, ◌>>=◌, out) refl, (refl, beyond))
        | inr (within, le) ↦ (
          (some p, set_pos g p s),
          rw (fd_ok, names, ◌>>=◌, within) refl,
          (refl, le, set_pos-Moved g p s here),
        )
      ]

  -- A read of an open file of at most 140 blocks, where the request ends below 2 ^ 63 and there is
  -- memory for its blocks, never fails: it returns the file's bytes from the position on and moves
  -- behind them, or, at the end of the file, returns -1 and moves back by a byte.
  pub read_file-Reads :
      (sys_malloc : ℕ → Option Buffer) (disk : Disk) (count : ℕ)
      → (inodes (file_at s g).fd_inode).i_size ≤ 140 * 512
      → (file_at s g).fd_pos + count < 2 ^ 63
      → ((size : ℕ) → size ≤ 140 * 512 → sys_malloc size ≢ none)
      → (r : Option (ℕ × Buffer)) × (s' : Files) × (read_file sys_malloc disk inodes fd count s
          ≡ ok (r, s'))
        × Reads disk (inodes (file_at s g).fd_inode) count (file_at s g).fd_pos r
        × Moved g (behind (file_at s g).fd_pos r) s s'
  unfolding read_file
  read_file-Reads sys_malloc disk count small word memory =
      let pos = (file_at s g).fd_pos in
      let (r, run, reads) =
        inode_read-Reads sys_malloc disk (inodes (file_at s g).fd_inode) count pos small word
          memory in
      let p = (pos + advance r) % 2 ^ 64 in
      (
        r,
        set_pos g p s,
        rw (names, ◌>>=◌, run) refl,
        reads,
        subst (λ q. Moved g q s (set_pos g p s))
            (moved-behind disk (inodes (file_at s g).fd_inode) count pos r small reads)
            (set_pos-Moved g p s here),
      )

-- ===== src/FileSystem/Output.antt =====
-- fs/fs.c, the part of `sys_write` that writes a file: a write at the position of an open file.
--
-- A result of none is -1.
use recover_os.Prelude.{
  ℕ, ◌+◌, ◌-◌, ◌/◌, ◌%◌, ◌^◌, ◌≤◌, ◌<◌, ◌≡◌, refl, ◌⊎◌, inl, inr, Bool, true, ◌||◌, arith, length,
  Option, none, some, Run, ok, ◌>>=◌, ◌==◌, if◌then◌else◌,
}
use recover_os.Descriptors.{Files, file_at, fd_local2global}
use recover_os.FileSystem.Disk.{Buffer}
use recover_os.FileSystem.Inode.{Inode}
use recover_os.FileSystem.Partition.{Partition}
use recover_os.FileSystem.Open.{OpenInodes, set_inode}
use recover_os.FileSystem.Write.{inode_write}
use recover_os.FileSystem.Position.{set_pos, Moved, set_pos-Moved}
use recover_os.FileSystem.Indirect.{IsFile}
use recover_os.FileSystem.Synced.{InTable}
use recover_os.FileSystem.Outcome.{Writes, Fails}
use recover_os.FileSystem.Writing.{inode_write-Returns}

-- `flag & O_WRONLY || flag & O_RDWR`
abbrev pub writable : (flag : ℕ) → Bool
writable flag = (flag % 2 == 1) || (flag / 2 % 2 == 1)

-- `bytes_written`, a `size_t`
abbrev pub bytes_written : Option ℕ → ℕ
bytes_written none = 2 ^ 64 - 1
bytes_written (some n) = n

module _ (inode_size : ℕ) (to_bytes : Inode → Buffer) where
  -- The last branch of `sys_write`.
  unfoldable pub write_file :
      (sys_malloc io_malloc : Bool) (buf : Buffer) (fd count : ℕ)
      → OpenInodes
      → Partition
      → Files
      → Run (Option ℕ × OpenInodes × Partition × Files)
  write_file sys_malloc io_malloc buf fd count o part s = do
    fd_idx ← fd_local2global fd s
    let f = file_at s fd_idx
    if writable f.flag
        then (inode_write inode_size to_bytes sys_malloc io_malloc buf count f.fd_pos
              (o.inode_at f.fd_inode) part
            >>= λ (r, inode, part). ok (
              r,
              set_inode f.fd_inode inode o,
              part,
              set_pos fd_idx ((f.fd_pos + bytes_written r) % 2 ^ 64) s,
            ))
        else ok (none, o, part, s)

module _ (inode_size : ℕ) (to_bytes : Inode → Buffer) (buf : Buffer) (fd g count : ℕ)
    (o : OpenInodes) (part : Partition) (s : Files) (names : fd_local2global fd s ≡ ok g)
    (here : g < length s.file_table) where
  write_file-step :
      (r : Option ℕ) (inode' : Inode) (part' : Partition) (p : ℕ)
      → writable (file_at s g).flag ≡ true
      → inode_write inode_size to_bytes true true buf count
          (file_at s g).fd_pos
          (o.inode_at (file_at s g).fd_inode)
          part
        ≡ ok (r, inode', part')
      → ((file_at s g).fd_pos + bytes_written r) % 2 ^ 64 ≡ p
      → write_file inode_size to_bytes true true buf fd count o part s
        ≡ ok (r, set_inode (file_at s g).fd_inode inode' o, part', set_pos g p s)
  unfolding write_file
  write_file-step r inode' part' p can run at =
      rw (write_file, names, ◌>>=◌, can, run, ◌>>=◌, at) refl

  -- A write to an open file that may be written, of bytes that end within 140 blocks, with memory for its
  -- buffers, where the file owns its blocks and its inode has its place in the table, never fails: it
  -- returns -1 where `inode_write` finds no block, and the position moves back by a byte; or it returns
  -- `count`, `inode_write` has written the bytes at the position, and the position is behind them. No
  -- other open file moves, and the inode in memory is the one that `inode_write` leaves.
  pub write_file-Writes :
      writable (file_at s g).flag ≡ true
      → IsFile part (o.inode_at (file_at s g).fd_inode)
      → InTable inode_size part.sb (o.inode_at (file_at s g).fd_inode).i_no
      → (file_at s g).fd_pos + count ≤ 71680
      → (r : Option ℕ) × (inode' : Inode) × (part' : Partition) × (s' : Files) × (write_file
            inode_size to_bytes true true buf fd count o part s
          ≡ ok (r, set_inode (file_at s g).fd_inode inode' o, part', s'))
        × (((r ≡ none)
              × Fails (o.inode_at (file_at s g).fd_inode) inode' part part'
              × Moved g (((file_at s g).fd_pos + 2 ^ 64 - 1) % 2 ^ 64) s s')
            ⊎ ((r ≡ some count)
                × Writes inode_size to_bytes count
                    (file_at s g).fd_pos
                    buf
                    (o.inode_at (file_at s g).fd_inode)
                    inode'
                    part
                    part'
                × Moved g ((file_at s g).fd_pos + count) s s'))
  write_file-Writes can own table low =
      let pos = (file_at s g).fd_pos in
      elim (inode_write-Returns inode_size to_bytes count pos buf low
        (o.inode_at (file_at s g).fd_inode) part own table) [
          | inl (inode', part', run, f) ↦
              let p = (pos + 2 ^ 64 - 1) % 2 ^ 64 in
              (
                none,
                inode',
                part',
                set_pos g p s,
                write_file-step none inode' part' p can run (omega (arith, low)),
                inl (refl, f, set_pos-Moved g p s here),
              )
          | inr (inode', part', run, w) ↦ (
            some count,
            inode',
            part',
            set_pos g (pos + count) s,
            write_file-step (some count) inode' part' (pos + count) can run (omega (arith, low)),
            inr (refl, w, set_pos-Moved g (pos + count) s here),
          )
        ]

-- ===== src/FileSystem/Free.antt =====
-- fs/inode.c, `inode_free`: a file's blocks and its number are given back.
use recover_os.Prelude.{ℕ, zero, suc, ◌+◌, ◌==◌, false, if◌then◌else◌, Run, ok, ◌>>=◌, ◌>>◌, assert}
use recover_os.Bitmap.{bitmap_set}
use recover_os.FileSystem.Inode.{max_file_blocks_cnt, get_blocks_lba}
use recover_os.FileSystem.Partition.{Partition, block_bitmap_free}
use recover_os.FileSystem.Open.{OpenInodes, inode_close}

-- The loop of `inode_free`
unfoldable pub free_blocks : (rounds block_idx : ℕ) (all_blocks : ℕ → ℕ) → Partition → Run Partition
free_blocks zero block_idx all_blocks part = ok part
free_blocks (suc n) block_idx all_blocks part =
    (if all_blocks block_idx == 0 then ok part else block_bitmap_free (all_blocks block_idx) part)
    >>= λ part. free_blocks n (block_idx + 1) all_blocks part

-- `inode` is the inode's address.
unfoldable pub inode_free : (inode : ℕ) → OpenInodes → Partition → Run (OpenInodes × Partition)
inode_free a s part = do
  let inode = s.inode_at a
  m ← bitmap_set part.inode_bitmap inode.i_no false
  part' ←
      free_blocks max_file_blocks_cnt 0 (get_blocks_lba part.my_disk inode (λ _. 0))
        (record part { inode_bitmap = m })
  assert (inode.i_open_cnts == 1)
  ok (inode_close a s, part')

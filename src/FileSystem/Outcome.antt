-- ===== src/FileSystem/Outcome.antt =====
-- fs/inode.c, `inode_write`: what it leaves of a file and its partition.
use recover_os.Prelude.{ℕ, ◌+◌, ◌-◌, ◌*◌, ◌/◌, ◌%◌, ◌≤◌, ◌<◌, ◌≡◌, ◌≢◌, ◌⊎◌, ltb, if◌then◌else◌}
use recover_os.Bitmap.Turned.{Used}
use recover_os.FileSystem.Disk.{Buffer}
use recover_os.FileSystem.Inode.{Inode}
use recover_os.FileSystem.Open.{two_sectors}
use recover_os.FileSystem.Partition.{Partition}
use recover_os.FileSystem.Reading.{file_byte}
use recover_os.FileSystem.Owning.{IsTaken, Keeps}
use recover_os.FileSystem.Indirect.{blocks, IsFile}
use recover_os.FileSystem.Bytes.{stop_at}

-- Block `l` is in use, and is none of the file's.
pub record IsOther (part : Partition) (inode : Inode) (l : ℕ) : Type 0 where
  pub taken : IsTaken part l
  pub not_ind : l ≢ inode.i_sectors 12
  pub not_block : (k : ℕ) → k < 140 → l ≢ blocks part.my_disk inode k

-- What a write leaves: the file has the bytes at `pos` that it is given, up to `stop_at`, and its others
-- as they were, but for those of a block that it had not; it owns its blocks, its inode is in the table,
-- and the blocks of others are as they were.
pub record Writes (inode_size : ℕ) (to_bytes : Inode → Buffer) (count pos : ℕ) (buf : Buffer)
    (inode inode' : Inode) (part part' : Partition) : Type 0 where
  pub keeps : Keeps part part'
  pub own : IsFile part' inode'
  pub size : inode'.i_size ≡ (if ltb inode.i_size (pos + count) then pos + count else inode.i_size)
  pub same_no : inode'.i_no ≡ inode.i_no
  pub stored :
      (i : ℕ)
      → i < inode_size
      → two_sectors part'.my_disk
          (part'.sb.inode_table_lba + inode'.i_no * inode_size / 512)
          (inode'.i_no * inode_size % 512 + i)
        ≡ to_bytes inode' i
  pub bytes :
      (o : ℕ) → pos ≤ o → o < stop_at count pos → file_byte part'.my_disk inode' o ≡ buf (o - pos)
  pub kept :
      (o : ℕ)
      → o < 71680
      → (o < pos) ⊎ (stop_at count pos ≤ o)
      → (blocks part.my_disk inode (o / 512) ≢ 0)
        ⊎ ((o / 512 < pos / 512) ⊎ ((pos + count + 511) / 512 ≤ o / 512))
      → file_byte part'.my_disk inode' o ≡ file_byte part.my_disk inode o
  pub others : (l : ℕ) → IsOther part inode l → part'.my_disk l ≡ part.my_disk l

-- What a write leaves that finds no block: all are in use, the file owns those it had and has its size,
-- and the blocks of others are as they were.
pub record Fails (inode inode' : Inode) (part part' : Partition) : Type 0 where
  pub keeps : Keeps part part'
  pub own : IsFile part' inode'
  pub full : Used part'.block_bitmap 0 (8 * part'.block_bitmap.bytes_len)
  pub same_size : inode'.i_size ≡ inode.i_size
  pub same_no : inode'.i_no ≡ inode.i_no
  pub others : (l : ℕ) → IsOther part inode l → part'.my_disk l ≡ part.my_disk l

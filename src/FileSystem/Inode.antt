-- ===== src/FileSystem/Inode.antt =====
-- fs/inode.c: where a file's blocks are, and the read of a file.
--
-- The lock of an inode and its place in the list of open inodes have no part in a read. A result of
-- none is -1.
use recover_os.Prelude.{
  ℕ, zero, suc, ◌+◌, ◌-◌, ◌*◌, ◌/◌, ◌%◌, ◌^◌, Bool, ◌&&◌, ◌||◌, Option, none, some, Run, ok, fault,
  ◌>>=◌, ◌>>◌, assert, ltb, leb, ◌==◌, if◌then◌else◌,
}
use recover_os.FileSystem.Disk.{Buffer, Disk, block_size, word, copy_block}

abbrev pub ndirect : ℕ
ndirect = 12

abbrev pub max_file_blocks_cnt : ℕ
max_file_blocks_cnt = ndirect + block_size / 4

abbrev pub max_files_per_part : ℕ
max_files_per_part = 4096

pub data FileType : Type 0 where
  unknown : FileType
  regular : FileType
  directory : FileType

-- `struct inode`
pub record Inode : Type 0 where
  pub i_no : ℕ
  pub i_size : ℕ
  pub i_open_cnts : ℕ
  pub f_type : FileType
  pub i_sectors : ℕ → ℕ

-- `struct inode_position`
pub record InodePosition : Type 0 where
  pub lba : ℕ
  pub off_size : ℕ

-- `inode_size` is the size of `struct inode`, and the table begins at `inode_table_lba`. An `lba` is
-- a `uint32_t`.
unfoldable pub inode_locate : (inode_size inode_table_lba inode_no : ℕ) → Run InodePosition
inode_locate inode_size inode_table_lba inode_no = do
  assert (ltb inode_no max_files_per_part)
  let off_size = inode_no * inode_size
  ok (record {
    lba = (inode_table_lba + off_size / block_size) % 2 ^ 32;
    off_size = off_size % block_size;
  })

-- `get_blocks_lba`, whose result no caller reads; `all_blocks` is what the array held.
unfoldable pub get_blocks_lba : Disk → Inode → (all_blocks : ℕ → ℕ) → ℕ → ℕ
get_blocks_lba disk inode all_blocks block_idx =
    if ltb block_idx ndirect
    then inode.i_sectors block_idx
    else if inode.i_sectors 12 == 0
    then all_blocks block_idx
    else word (disk (inode.i_sectors 12)) (block_idx - 12)

-- The loop of `inode_read`; `read_buf` is at offset `at`.
unfoldable pub read_blocks :
    (rounds block_idx at : ℕ) → (all_blocks : ℕ → ℕ) → Disk → Buffer → Run Buffer
read_blocks zero block_idx at all_blocks disk read_buf = ok read_buf
read_blocks (suc n) block_idx at all_blocks disk read_buf =
    let block_lba = all_blocks block_idx in
    let block : Buffer = λ i. if block_lba == 0 then 0 else disk block_lba i in
    let rest =
      read_blocks n (block_idx + 1) (at + block_size) all_blocks disk
        (copy_block at block read_buf) in
    if ltb block_idx max_file_blocks_cnt then rest else fault

-- `real_count`, an `ssize_t`, and whether the first test of `inode_read` returns.
unfoldable pub real_count : Inode → (count pos : ℕ) → ℕ
real_count inode count pos =
    if ltb inode.i_size ((pos + count) % 2 ^ 64)
    then (inode.i_size + 2 ^ 64 - pos) % 2 ^ 64
    else count

unfoldable pub exceeds_size : Inode → (count pos : ℕ) → Bool
exceeds_size inode count pos =
    let real = real_count inode count pos in
    ltb inode.i_size ((pos + count) % 2 ^ 64) && ((real == 0) || leb (2 ^ 63) real)

-- `sys_malloc size` is the memory that it returns, or none for NULL. The result holds the count and
-- what then stands from `buf` on.
unfoldable pub inode_read :
    (sys_malloc : ℕ → Option Buffer) → Disk → Inode → (count pos : ℕ) → Run (Option (ℕ × Buffer))
inode_read sys_malloc disk inode count pos =
    let real = real_count inode count pos in
    let block_idx_start = pos / block_size in
    let block_idx_end = (pos + real + block_size - 1) % 2 ^ 64 / block_size in
    let rounds = (block_idx_end + 2 ^ 64 - block_idx_start) % 2 ^ 64 in
    let all_blocks = get_blocks_lba disk inode (λ _. 0) in
    if exceeds_size inode count pos
    then ok none
    else elim (sys_malloc (rounds * block_size % 2 ^ 64)) [
      | none ↦ ok none
      | some read_buf ↦
          read_blocks rounds block_idx_start 0 all_blocks disk read_buf >>= λ read_buf.
          ok (some (real, λ k. read_buf (pos % block_size + k)))
    ]

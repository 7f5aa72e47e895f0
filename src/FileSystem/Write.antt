-- ===== src/FileSystem/Write.antt =====
-- fs/inode.c: `inode_sync` and `inode_write`, on a partition that is `cur_part`.
--
-- A result of none is -1. Of the buffers, `sys_malloc` and `io_malloc` (in `inode_sync`) say whether they
-- are there or NULL; one that a branch returns without freeing has no part in the result.
use recover_os.Prelude.{
  ℕ, zero, suc, ◌+◌, ◌-◌, ◌*◌, ◌/◌, ◌%◌, ◌^◌, Bool, true, false, ◌&&◌, ◌||◌, not, Option, none,
  some, Run, ok, fault, ◌>>=◌, ◌>>◌, assert, ltb, leb, ◌==◌, if◌then◌else◌,
}
use recover_os.FileSystem.Disk.{Buffer, block_size}
use recover_os.FileSystem.Inode.{Inode, inode_locate, get_blocks_lba, ndirect, max_file_blocks_cnt}
use recover_os.FileSystem.Open.{two_sectors}
use recover_os.FileSystem.Partition.{Partition, ide_write, block_bitmap_alloc}

-- `memcpy` of `cnt` bytes from index `at` of `src` to index `off` of `dst`
abbrev pub copy : (off cnt at : ℕ) (src dst : Buffer) → Buffer
copy off cnt at src dst =
    λ i. if leb off i && ltb i (off + cnt) then src (at + (i - off)) else dst i

-- The bytes of 32-bit words, the lowest first, as an array of `uint32_t` has them.
unfoldable pub word_bytes : (ℕ → ℕ) → Buffer
word_bytes w i = w (i / 4) / 256 ^ (i % 4) % 256

-- The layout of `struct inode` in bytes is the compiler's: its size, and `to_bytes`.
module _ (inode_size : ℕ) (to_bytes : Inode → Buffer) where
  unfoldable pub inode_sync : (sys_malloc : Bool) → Inode → Partition → Run Partition
  inode_sync sys_malloc inode part = do
    inode_pos ← inode_locate inode_size part.sb.inode_table_lba inode.i_no
    assert sys_malloc
    let io_buf =
        copy inode_pos.off_size inode_size 0 (to_bytes inode)
          (two_sectors part.my_disk inode_pos.lba)
    let first = ide_write part.my_disk inode_pos.lba io_buf
    ok (record part {
      my_disk = ide_write first (inode_pos.lba + 1) (λ i. io_buf (block_size + i));
    })

-- `block_bitmap_alloc`, its result taken for an `int32_t` that is -1 or not.
unfoldable pub alloc_block : Partition → Run (Option ℕ × Partition)
alloc_block part = do
  (lba, part) ← block_bitmap_alloc part
  elim lba [
    | none ↦ ok (none, part)
    | some b ↦ if b % 2 ^ 32 == 2 ^ 32 - 1 then ok (none, part) else ok (some (b % 2 ^ 32), part)
  ]

-- The sector at `i_sectors[12]`, if the write needs one and there is none yet.
unfoldable pub indirect_block : (count pos : ℕ) → Inode → Partition → Run (Option Inode × Partition)
indirect_block count pos inode part =
    if (inode.i_sectors 12 == 0) && ltb (12 * block_size) ((pos + count) % 2 ^ 64)
    then (alloc_block part >>= λ (lba, part). elim lba [
      | none ↦ ok (none, part)
      | some b ↦ ok (
        some (record inode { i_sectors = λ k. if k == 12 then b else inode.i_sectors k }),
        record part { my_disk = ide_write part.my_disk b (word_bytes (λ k. 0)) },
      )
    ])
    else ok (some inode, part)

-- The first step of a round: the block of index `block_idx`.
unfoldable pub block_of :
    (block_idx : ℕ) → (all_blocks : ℕ → ℕ) → Partition → Run (Option (ℕ → ℕ) × Partition)
block_of block_idx all_blocks part =
    if all_blocks block_idx == 0
    then (alloc_block part >>= λ (lba, part). elim lba [
      | none ↦ ok (none, part)
      | some b ↦ ok (some (λ k. if k == block_idx then b else all_blocks k), part)
    ])
    else ok (some all_blocks, part)

-- `block_idx_end`
abbrev pub block_end : (count pos : ℕ) → ℕ
block_end count pos = (pos + count + block_size - 1) % 2 ^ 64 / block_size

-- A `memcpy` of the first, the last or another round; `buf` has moved to index `at`.
unfoldable pub new_block : (count pos block_idx at : ℕ) (buf old : Buffer) → Buffer
new_block count pos block_idx at buf old =
    let block_idx_start = pos / block_size in
    let block_idx_end = block_end count pos in
    let block_off = pos % block_size in
    let cpy_cnt = if block_idx + 1 == block_idx_end then count else block_size - block_off in
    if block_idx == block_idx_start
    then copy block_off cpy_cnt at buf old
    else if block_idx + 1 == block_idx_end
    then copy 0 ((pos + count) % 2 ^ 64 % block_size) at buf old
    else (λ i. buf (at + i))

-- How far `buf` moves in a round that another one follows
unfoldable pub moved_by : (pos block_idx : ℕ) → ℕ
moved_by pos block_idx =
    if block_idx == pos / block_size then block_size - pos % block_size else block_size

-- The loop of `inode_write`; an index behind `all_blocks` is a read outside of it.
unfoldable pub write_blocks :
    (rounds count pos block_idx at : ℕ) (buf : Buffer) (all_blocks : ℕ → ℕ)
    → Partition
    → Run (Option (ℕ → ℕ) × Partition)
write_blocks zero count pos block_idx at buf all_blocks part = ok (some all_blocks, part)
write_blocks (suc n) count pos block_idx at buf all_blocks part =
    elim (ltb block_idx max_file_blocks_cnt) [
      | false ↦ fault
      | true ↦ block_of block_idx all_blocks part >>= λ (blocks, part). elim blocks [
        | none ↦ ok (none, part)
        | some all ↦
            let sector = new_block count pos block_idx at buf (part.my_disk (all block_idx)) in
            write_blocks n count pos (block_idx + 1) (at + moved_by pos block_idx) buf all
              (record part { my_disk = ide_write part.my_disk (all block_idx) sector })
      ]
    ]

-- What is done behind the loop
module _ (inode_size : ℕ) (to_bytes : Inode → Buffer) where
  unfoldable pub write_inode :
      (sys_malloc : Bool) (count pos : ℕ)
      → Inode
      → (all_blocks : ℕ → ℕ) → Partition
      → Run (Inode × Partition)
  write_inode sys_malloc count pos inode all part = do
    let size =
        if ltb inode.i_size ((pos + count) % 2 ^ 64) then (pos + count) % 2 ^ 64 else inode.i_size
    let inode' : Inode = record inode {
      i_size = size;
      i_sectors = λ k. if ltb k ndirect then all k else inode.i_sectors k;
    }
    part ← inode_sync inode_size to_bytes sys_malloc inode' part
    if inode'.i_sectors 12 == 0
        then ok (inode', part)
        else ok (
          inode',
          record part {
            my_disk = ide_write part.my_disk (inode'.i_sectors 12) (word_bytes (λ k. all (12 + k)));
          },
        )

  unfoldable pub inode_write :
      (sys_malloc io_malloc : Bool) (buf : Buffer) (count pos : ℕ)
      → Inode
      → Partition
      → Run (Option ℕ × Inode × Partition)
  inode_write sys_malloc io_malloc buf count pos inode part =
      if ltb (max_file_blocks_cnt * block_size) ((pos + count) % 2 ^ 64) || not sys_malloc
      then ok (none, inode, part)
      else indirect_block count pos inode part >>= λ (indirect, part). elim indirect [
        | none ↦ ok (none, inode, part)
        | some inode ↦
            let all_blocks = get_blocks_lba part.my_disk inode (λ _. 0) in
            let rounds = (block_end count pos + 2 ^ 64 - pos / block_size) % 2 ^ 64 in
            write_blocks rounds count pos (pos / block_size) 0 buf all_blocks part
            >>= λ (blocks, part). elim blocks [
              | none ↦ ok (none, inode, part)
              | some all ↦ write_inode io_malloc count pos inode all part >>= λ (inode, part).
                  ok (some count, inode, part)
            ]
      ]

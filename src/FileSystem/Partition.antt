-- ===== src/FileSystem/Partition.antt =====
-- fs/inode.c, `block_bitmap_alloc` and `block_bitmap_free`, on a partition that is `cur_part`.
use recover_os.Prelude.{
  ℕ, ◌+◌, ◌-◌, ◌*◌, ◌/◌, ◌%◌, ◌^◌, false, Option, none, some, Run, ok, fault, ◌>>=◌, leb, ◌==◌,
  if◌then◌else◌, length, get_or,
}
use recover_os.Bitmap.{Bitmap, bitmap_alloc_a_bit, bitmap_set}
use recover_os.FileSystem.Disk.{Buffer, Disk, block_size}

-- BITS_PER_SECTOR
abbrev pub bits_per_sector : ℕ
bits_per_sector = 4096

-- `struct super_block`, but for its padding.
pub record SuperBlock : Type 0 where
  pub magic : ℕ
  pub sec_cnt : ℕ
  pub lba_base : ℕ
  pub inode_cnt : ℕ
  pub block_bitmap_lba : ℕ
  pub block_bitmap_sects : ℕ
  pub inode_bitmap_lba : ℕ
  pub inode_bitmap_sects : ℕ
  pub inode_table_lba : ℕ
  pub inode_table_sects : ℕ
  pub data_start_lba : ℕ
  pub root_inode_no : ℕ
  pub dir_entry_size : ℕ

-- The fields of `struct partition` that allocations use.
pub record Partition : Type 0 where
  pub sb : SuperBlock
  pub block_bitmap : Bitmap
  pub inode_bitmap : Bitmap
  pub my_disk : Disk

-- `ide_write` of one sector.
abbrev pub ide_write : Disk → (lba : ℕ) → Buffer → Disk
ide_write disk lba buf = λ l. if l == lba then buf else disk l

-- The sector of the bitmap that holds bit `bit_idx` is written.
unfoldable pub write_bitmap_sector : (bit_idx : ℕ) → Partition → Run Partition
write_bitmap_sector bit_idx part =
    let off_sec = bit_idx / bits_per_sector in
    let sec_lba = (part.sb.block_bitmap_lba + off_sec) % 2 ^ 32 in
    if leb (off_sec * block_size + block_size) (length part.block_bitmap.bits)
    then ok (record part {
      my_disk =
          ide_write part.my_disk sec_lba
            (λ i. get_or part.block_bitmap.bits (off_sec * block_size + i) 0);
    })
    else fault

-- A result of none is -1.
unfoldable pub block_bitmap_alloc : Partition → Run (Option ℕ × Partition)
block_bitmap_alloc part = do
  (bit_idx, m) ← bitmap_alloc_a_bit part.block_bitmap
  let part' = record part { block_bitmap = m }
  elim bit_idx [
    | none ↦ ok (none, part')
    | some i ↦
        write_bitmap_sector i part' >>= λ part'. ok (some (part.sb.data_start_lba + i), part')
  ]

unfoldable pub block_bitmap_free : (block_lba : ℕ) → Partition → Run Partition
block_bitmap_free block_lba part = do
  let bit_idx = (block_lba + 2 ^ 64 - part.sb.data_start_lba) % 2 ^ 64
  m ← bitmap_set part.block_bitmap bit_idx false
  write_bitmap_sector bit_idx
      (record part { block_bitmap = m; my_disk = ide_write part.my_disk block_lba (λ _. 0) })

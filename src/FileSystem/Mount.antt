-- ===== src/FileSystem/Mount.antt =====
-- fs/fs.c, `sb_init` and `mount_partition`: the layout of a partition, and what is read of it.
--
-- The layout of `struct super_block` in bytes is a parameter, as are the sizes of `struct inode` and
-- `struct dir_entry`. The memory that `sys_malloc` returns is there.
use recover_os.Prelude.{ℕ, zero, suc, ◌+◌, ◌-◌, ◌*◌, ◌/◌, ◌%◌, ◌^◌, List, [], ◌∷◌}
use recover_os.FileSystem.Disk.{Buffer, Disk, block_size}
use recover_os.FileSystem.Inode.{max_files_per_part}
use recover_os.FileSystem.Partition.{Partition, SuperBlock, bits_per_sector}

-- DIV_ROUND_UP of two numbers of `w` bits
abbrev pub div_round_up : (w x step : ℕ) → ℕ
div_round_up w x step = (x + step - 1) % 2 ^ w / step

-- `sb` is what the memory held, its magic number included.
unfoldable pub sb_init :
    (inode_size dir_entry_size : ℕ) → SuperBlock → (sec_cnt start_lba : ℕ) → SuperBlock
sb_init inode_size dir_entry_size sb sec_cnt start_lba =
    let inode_bitmap_sects = div_round_up 32 max_files_per_part bits_per_sector in
    let inode_table_sects = div_round_up 64 (max_files_per_part * inode_size) block_size % 2 ^ 32 in
    let block_bitmap_sects = div_round_up 32 sec_cnt bits_per_sector in
    let block_bitmap_lba = (start_lba + 2) % 2 ^ 32 in
    let inode_bitmap_lba = (block_bitmap_lba + block_bitmap_sects) % 2 ^ 32 in
    let inode_table_lba = (inode_bitmap_lba + inode_bitmap_sects) % 2 ^ 32 in
    record {
      magic = sb.magic;
      sec_cnt = sec_cnt;
      lba_base = start_lba;
      inode_cnt = max_files_per_part;
      block_bitmap_lba = block_bitmap_lba;
      block_bitmap_sects = block_bitmap_sects;
      inode_bitmap_lba = inode_bitmap_lba;
      inode_bitmap_sects = inode_bitmap_sects;
      inode_table_lba = inode_table_lba;
      inode_table_sects = inode_table_sects;
      data_start_lba = (inode_table_lba + inode_table_sects) % 2 ^ 32;
      root_inode_no = 0;
      dir_entry_size = dir_entry_size;
    }

-- `ide_read` of the `n` bytes from byte `at` behind sector `lba` on
unfoldable pub read_bytes : Disk → (lba n at : ℕ) → List ℕ
read_bytes disk lba zero at = []
read_bytes disk lba (suc n) at =
    disk (lba + at / block_size) (at % block_size) ∷ read_bytes disk lba n (at + 1)

-- What is read with a super block
abbrev pub mounted : SuperBlock → Disk → Partition
mounted sb disk = record {
  sb = sb;
  block_bitmap = record {
    bytes_len = sb.block_bitmap_sects * block_size;
    bits = read_bytes disk sb.block_bitmap_lba (sb.block_bitmap_sects * block_size) 0;
  };
  inode_bitmap = record {
    bytes_len = sb.inode_bitmap_sects * block_size;
    bits = read_bytes disk sb.inode_bitmap_lba (sb.inode_bitmap_sects * block_size) 0;
  };
  my_disk = disk;
}

-- `read_sb` reads a super block out of its sector.
unfoldable pub mount_partition : (read_sb : Buffer → SuperBlock) (start_lba : ℕ) → Disk → Partition
mount_partition read_sb start_lba disk = mounted (read_sb (disk (start_lba + 1))) disk

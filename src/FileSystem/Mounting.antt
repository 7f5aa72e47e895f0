-- ===== src/FileSystem/Mounting.antt =====
-- fs/fs.c: a partition that is laid out and mounted.
use recover_os.Prelude.{
  ℕ, zero, suc, ◌+◌, ◌*◌, ◌/◌, ◌%◌, ◌^◌, ◌≤◌, ◌<◌, ◌≡◌, refl, sym, ◌∙◌, ap, ap₂, subst, arith,
  length, get_or,
}
use native.Mathlib.Nat.{mul-le-mul_left, mul-suc, mul_comm}
use recover_os.Bitmap.{Bitmap}
use recover_os.Bitmap.Byte.{test_bit}
use recover_os.Bitmap.Laws.{bit}
use recover_os.FileSystem.Disk.{Buffer, Disk}
use recover_os.FileSystem.Partition.{SuperBlock}
use recover_os.FileSystem.BlockBitmap.{IsPartition}
use recover_os.FileSystem.Numbers.{HasNumbers}
use recover_os.FileSystem.Mount.{sb_init, read_bytes, mounted, mount_partition}

length-read_bytes : (disk : Disk) (lba n at : ℕ) → length (read_bytes disk lba n at) ≡ n
unfolding read_bytes
length-read_bytes disk lba zero at = refl
length-read_bytes disk lba (suc n) at = ap suc (length-read_bytes disk lba n (at + 1))

get_or-read_bytes :
    (disk : Disk) (lba n at i : ℕ)
    → i < n
    → get_or (read_bytes disk lba n at) i 0 ≡ disk (lba + (at + i) / 512) ((at + i) % 512)
unfolding read_bytes
get_or-read_bytes disk lba zero at i lt = absurd (omega (arith, lt))
get_or-read_bytes disk lba (suc n) at zero lt =
    let same : at + 0 ≡ at = omega arith in rw (same) refl
get_or-read_bytes disk lba (suc n) at (suc i) lt =
    let same : at + suc i ≡ at + 1 + i = omega arith in
    rw (same) (get_or-read_bytes disk lba n (at + 1) i (omega (arith, lt)))

get_or-byte :
    (disk : Disk) (bytes : (l i : ℕ) → disk l i < 256) (lba n at i : ℕ)
    → get_or (read_bytes disk lba n at) i 0 < 256
unfolding read_bytes
get_or-byte disk bytes lba zero at i = omega arith
get_or-byte disk bytes lba (suc n) at zero = bytes (lba + at / 512) (at % 512)
get_or-byte disk bytes lba (suc n) at (suc i) = get_or-byte disk bytes lba n (at + 1) i

-- A bitmap that is read from its sectors is in step with them.
read-IsPartition :
    (sb : SuperBlock) (disk : Disk) (m : Bitmap)
    → ((l i : ℕ) → disk l i < 256)
    → sb.block_bitmap_lba + sb.block_bitmap_sects ≤ sb.data_start_lba
    → sb.data_start_lba + 4096 * sb.block_bitmap_sects < 2 ^ 32
    → IsPartition (record {
      sb = sb;
      block_bitmap = record {
        bytes_len = sb.block_bitmap_sects * 512;
        bits = read_bytes disk sb.block_bitmap_lba (sb.block_bitmap_sects * 512) 0;
      };
      inode_bitmap = m;
      my_disk = disk;
    })
unfolding bit
read-IsPartition sb disk m bytes in_front word =
    let n = sb.block_bitmap_sects * 512 in
    let len = length-read_bytes disk sb.block_bitmap_lba n 0 in
    record {
      valid = record {
        backed = omega (arith, len);
        bytes = get_or-byte disk bytes sb.block_bitmap_lba n 0;
      };
      within = omega arith;
      memory = len;
      in_front = in_front;
      word = word;
      in_step = λ t lt.
          ap (λ b. test_bit b (t % 8))
            (ap₂ (λ a e. disk (sb.block_bitmap_lba + a) e) (sector t) (byte t)
              ∙ sym (get_or-read_bytes disk sb.block_bitmap_lba n 0 (t / 8) (omega (arith, lt))));
    }
  where
    sector : (t : ℕ) → t / 4096 ≡ (0 + t / 8) / 512
    sector t = omega arith

    byte : (t : ℕ) → t % 4096 / 8 ≡ (0 + t / 8) % 512
    byte t = omega arith

-- The layout of `sb_init`
pub record IsLayout (inode_size sec_cnt start_lba : ℕ) (sb : SuperBlock) : Type 0 where
  pub bitmap_lba : sb.block_bitmap_lba ≡ start_lba + 2
  pub bitmap_sects : sb.block_bitmap_sects ≡ (sec_cnt + 4095) / 4096
  pub inodes_lba : sb.inode_bitmap_lba ≡ sb.block_bitmap_lba + sb.block_bitmap_sects
  pub inodes_sects : sb.inode_bitmap_sects ≡ 1
  pub table_lba : sb.inode_table_lba ≡ sb.inode_bitmap_lba + 1
  pub data_lba : sb.data_start_lba ≡ sb.inode_table_lba + 8 * inode_size

sb_init-IsLayout :
    (inode_size dir_entry_size : ℕ) (sb : SuperBlock) (sec_cnt start_lba : ℕ)
    → inode_size ≤ 512
    → start_lba + 2 * sec_cnt + 10000 < 2 ^ 32
    → IsLayout inode_size sec_cnt start_lba (sb_init inode_size dir_entry_size sb sec_cnt start_lba)
unfolding sb_init
sb_init-IsLayout inode_size dir_entry_size sb sec_cnt start_lba short low = record {
  bitmap_lba = omega (arith, low);
  bitmap_sects = omega (arith, low);
  inodes_lba = omega (arith, low);
  inodes_sects = omega arith;
  table_lba = omega (arith, low);
  data_lba = omega (arith, low, short);
}

-- The place of an inode is in its table.
in_table :
    (inode_size i : ℕ)
    → 0 < inode_size
    → i < 4096
    → (i * inode_size / 512 < 8 * inode_size)
      × ((i * inode_size + inode_size + 511) / 512 ≤ 8 * inode_size)
in_table inode_size i some_size lt =
    let le = mul-le-mul_left {m = i + 1} {n = 4096} inode_size (omega (arith, lt)) in
    let next : inode_size * (i + 1) ≡ i * inode_size + inode_size =
      ap (λ k. inode_size * k) {x = i + 1} {y = suc i} (omega arith)
      ∙ mul-suc inode_size i
      ∙ ap (λ k. k + inode_size) (mul_comm inode_size i) in
    (omega (arith, le, next, some_size), omega (arith, le, next))

laid_out :
    (inode_size sec_cnt start_lba : ℕ) (sb : SuperBlock) (disk : Disk)
    → ((l i : ℕ) → disk l i < 256)
    → 0 < inode_size
    → inode_size ≤ 512
    → start_lba + 2 * sec_cnt + 10000 < 2 ^ 32
    → IsLayout inode_size sec_cnt start_lba sb
    → IsPartition (mounted sb disk) × HasNumbers inode_size (mounted sb disk)
laid_out inode_size sec_cnt start_lba sb disk bytes some_size short low y =
    let few : 8 * (sb.inode_bitmap_sects * 512) ≤ 4096 = omega (arith, y.inodes_sects) in
    (
      read-IsPartition sb disk (mounted sb disk).inode_bitmap bytes
          (omega (arith, y.inodes_lba, y.table_lba, y.data_lba))
          (omega (
            arith, low, short, y.bitmap_lba, y.bitmap_sects, y.inodes_lba, y.table_lba, y.data_lba,
          )),
      record {
        numbers =
            read-IsPartition
              (record sb {
                block_bitmap_lba = sb.inode_bitmap_lba;
                block_bitmap_sects = sb.inode_bitmap_sects;
              })
              disk (mounted sb disk).block_bitmap bytes
              (omega (arith, y.inodes_sects, y.table_lba, y.data_lba))
              (omega (
                arith, low, short, y.bitmap_lba, y.bitmap_sects, y.inodes_lba, y.inodes_sects,
                y.table_lba, y.data_lba,
              ));
        few = few;
        behind = omega (arith, y.inodes_lba);
        table = omega (arith, y.inodes_sects, y.table_lba);
        short = short;
        fits = λ i lt.
            let place = in_table inode_size i some_size lt in
            (omega (arith, y.data_lba, place.0), omega (arith, y.data_lba, place.1));
      },
    )

-- `mount_partition` of a disk of bytes whose super block is what `sb_init` makes for a partition that, with
-- twice its sectors and 10000 more, ends below 2 ^ 32, for inodes of at most 512 bytes: the bitmaps in
-- memory are those on the disk, and the partition is in order for `block_bitmap_alloc` and `inode_alloc`.
pub mount_partition-IsPartition :
    (inode_size dir_entry_size sec_cnt start_lba : ℕ) (read_sb : Buffer → SuperBlock)
    (sb : SuperBlock) (disk : Disk)
    → ((l i : ℕ) → disk l i < 256)
    → 0 < inode_size
    → inode_size ≤ 512
    → start_lba + 2 * sec_cnt + 10000 < 2 ^ 32
    → read_sb (disk (start_lba + 1)) ≡ sb_init inode_size dir_entry_size sb sec_cnt start_lba
    → IsPartition (mount_partition read_sb start_lba disk)
      × HasNumbers inode_size (mount_partition read_sb start_lba disk)
unfolding mount_partition
mount_partition-IsPartition inode_size dir_entry_size sec_cnt start_lba read_sb sb disk bytes
      some_size short low e =
    laid_out inode_size sec_cnt start_lba (read_sb (disk (start_lba + 1))) disk bytes some_size
      short low
      (subst (IsLayout inode_size sec_cnt start_lba) (sym e)
        (sb_init-IsLayout inode_size dir_entry_size sb sec_cnt start_lba short low))

-- ===== src/FileSystem/Numbers.antt =====
-- fs/inode.c, `inode_alloc`: the numbers of inodes in memory and on the disk.
use recover_os.Prelude.{
  ℕ, ◌+◌, ◌*◌, ◌/◌, ◌%◌, ◌^◌, ◌≤◌, ◌<◌, ◌≡◌, refl, ◌∙◌, ap, ◌≢◌, ◌⊎◌, inl, inr, Bool, true, false,
  arith, ◌∷◌, Option, none, some, ok, ◌>>=◌, length, get_or, leb, if◌then◌else◌, ne→not_==,
}
use recover_os.Bitmap.{Bitmap, bitmap_alloc_a_bit}
use recover_os.Bitmap.Laws.{bit}
use recover_os.Bitmap.Turned.{Used, Turned}
use recover_os.Bitmap.Alloc.{TakesFirst, bitmap_alloc_a_bit-TakesFirst}
use recover_os.FileSystem.Disk.{Buffer, Disk}
use recover_os.FileSystem.Inode.{Inode, FileType, get_blocks_lba}
use recover_os.FileSystem.Partition.{Partition}
use recover_os.FileSystem.BlockBitmap.{IsPartition, written-IsPartition}
use recover_os.FileSystem.Open.{OpenInodes, set_inode, two_sectors}
use recover_os.FileSystem.Number.{write_inode_bitmap_sector, inode_init, inode_alloc}
use recover_os.FileSystem.Owning.{written, IsPartition-written, with_inodes, still-IsPartition}
use recover_os.FileSystem.Indirect.{blocks, IsFile}
use recover_os.FileSystem.Synced.{
  InTable, sync_buf, synced, inode_sync-ok, synced-data, synced-bytes,
}

-- The bitmap of inodes in the place of that of blocks
abbrev pub as_blocks : Partition → Partition
as_blocks part = record {
  sb = record part.sb {
    block_bitmap_lba = part.sb.inode_bitmap_lba;
    block_bitmap_sects = part.sb.inode_bitmap_sects;
  };
  block_bitmap = part.inode_bitmap;
  inode_bitmap = part.block_bitmap;
  my_disk = part.my_disk;
}

-- The bitmap of inodes is in order and on the disk, behind that of blocks; the table follows, with the
-- place of each inode in front of the data.
pub record HasNumbers (inode_size : ℕ) (part : Partition) : Type 0 where
  pub numbers : IsPartition (as_blocks part)
  pub few : 8 * part.inode_bitmap.bytes_len ≤ 4096
  pub behind : part.sb.block_bitmap_lba + part.sb.block_bitmap_sects ≤ part.sb.inode_bitmap_lba
  pub table : part.sb.inode_bitmap_lba + part.sb.inode_bitmap_sects ≤ part.sb.inode_table_lba
  pub short : inode_size ≤ 512
  pub fits :
      (i : ℕ)
      → i < 4096
      → (part.sb.inode_table_lba + i * inode_size / 512 < part.sb.data_start_lba)
        × (part.sb.inode_table_lba + (i * inode_size + inode_size + 511) / 512
            ≤ part.sb.data_start_lba)

-- What a new inode comes to, of the first free number.
pub record Creates (inode_size : ℕ) (to_bytes : Inode → Buffer) (f_type : FileType) (i : ℕ)
    (part part' : Partition) : Type 0 where
  pub low : i < 8 * part.inode_bitmap.bytes_len
  pub was_free : bit part.inode_bitmap i ≡ false
  pub first : (k : ℕ) → k < i → bit part.inode_bitmap k ≡ true
  pub turned : Turned true i 1 part.inode_bitmap part'.inode_bitmap
  pub has_numbers : HasNumbers inode_size part'
  pub file : IsFile part' (inode_init i f_type)
  pub stored :
      (j : ℕ)
      → j < inode_size
      → two_sectors part'.my_disk
          (part'.sb.inode_table_lba + i * inode_size / 512)
          (i * inode_size % 512 + j)
        ≡ to_bytes (inode_init i f_type) j
  pub same_blocks : part'.block_bitmap ≡ part.block_bitmap
  pub same_data : (l : ℕ) → part.sb.data_start_lba ≤ l → part'.my_disk l ≡ part.my_disk l

-- The bit of number `i` is set and its sector written, then the inode.
module _ (inode_size : ℕ) (to_bytes : Inode → Buffer) (f_type : FileType) (i : ℕ) (part : Partition)
    (m : Bitmap) (v : IsPartition part) (h : HasNumbers inode_size part)
    (low : i < 8 * part.inode_bitmap.bytes_len) (t : Turned true i 1 part.inode_bitmap m) where
  sector_low : i < 4096 * part.sb.inode_bitmap_sects
  sector_low = omega (arith, low, h.numbers.within)

  abbrev part2 : Partition
  part2 =
      written (with_inodes part m) (part.sb.inode_bitmap_lba + i / 4096)
        (λ j. get_or m.bits (i / 4096 * 512 + j) 0)

  write_inode_bitmap_sector-ok : write_inode_bitmap_sector i (with_inodes part m) ≡ ok part2
  unfolding write_inode_bitmap_sector
  write_inode_bitmap_sector-ok =
      let lba : (part.sb.inode_bitmap_lba + i / 4096) % 2 ^ 32
          ≡ part.sb.inode_bitmap_lba + i / 4096 =
        omega (arith, h.numbers.word, h.numbers.in_front, sector_low) in
      let fits : leb (i / 4096 * 512 + 512) (length m.bits) ≡ true =
        ground (arith, t.same_memory, h.numbers.memory, sector_low) in
      rw (fits, lba) refl

  numbers2 : IsPartition (as_blocks part2)
  numbers2 =
      written-IsPartition (as_blocks part) h.numbers i true m part.my_disk t sector_low
        (λ l lt. refl)

  valid2 : IsPartition part2
  valid2 =
      IsPartition-written (with_inodes part m) (part.sb.inode_bitmap_lba + i / 4096)
        (λ j. get_or m.bits (i / 4096 * 512 + j) 0) (still-IsPartition part m v)
        (omega (arith, h.behind))

  table2 : InTable inode_size part2.sb i
  table2 = record {
    number = omega (arith, low, h.few);
    short = h.short;
    behind = omega (arith, h.behind, h.table);
    before = (h.fits i (omega (arith, low, h.few))).0;
    ends = (h.fits i (omega (arith, low, h.few))).1;
  }

  abbrev part3 : Partition
  part3 = synced inode_size to_bytes (inode_init i f_type) part2 table2

  -- The two sectors of the table that the inode is in
  abbrev sync_lba : ℕ
  sync_lba = part.sb.inode_table_lba + i * inode_size / 512

  twice-IsPartition :
      (p : Partition) (x y : Buffer)
      → IsPartition p
      → p.sb.block_bitmap_lba + p.sb.block_bitmap_sects ≤ sync_lba
      → IsPartition (written (written p sync_lba x) (sync_lba + 1) y)
  twice-IsPartition p x y vp le =
      IsPartition-written (written p sync_lba x) (sync_lba + 1) y
        (IsPartition-written p sync_lba x vp le) (omega (arith, le))

  abbrev buf3 : Buffer
  buf3 = sync_buf inode_size to_bytes (inode_init i f_type) part2 table2

  valid3 : IsPartition part3
  valid3 =
      twice-IsPartition part2 buf3 (λ j. buf3 (512 + j)) valid2 (omega (arith, h.behind, h.table))

  numbers3 : IsPartition (as_blocks part3)
  numbers3 =
      twice-IsPartition (as_blocks part2) buf3 (λ j. buf3 (512 + j)) numbers2
        (omega (arith, h.table))

  new_file-blocks : (d : Disk) (k : ℕ) → blocks d (inode_init i f_type) k ≡ 0
  unfolding get_blocks_lba
  new_file-blocks d k = ground arith

  new-Creates :
      (first : (k : ℕ) → k < i → bit part.inode_bitmap k ≡ true)
      → bit part.inode_bitmap i ≡ false
      → 0 < part.sb.data_start_lba
      → Creates inode_size to_bytes f_type i part part3
  new-Creates first free start = record {
    low = low;
    was_free = free;
    first = first;
    turned = t;
    has_numbers = record {
      numbers = numbers3;
      few = omega (arith, h.few, t.same_len);
      behind = h.behind;
      table = h.table;
      short = h.short;
      fits = h.fits;
    };
    file = record {
      part_valid = valid3;
      start = start;
      taken = λ k lt. inl (new_file-blocks part3.my_disk k);
      ind_taken = inl refl;
      distinct = λ k j lk lj ne e. absurd (ne (new_file-blocks part3.my_disk k));
      apart = λ k lt ne e. ne (new_file-blocks part3.my_disk k);
    };
    stored = synced-bytes inode_size to_bytes (inode_init i f_type) part2 table2;
    same_blocks = refl;
    same_data = λ l le.
        synced-data inode_size to_bytes (inode_init i f_type) part2 table2 l le
        ∙ ap
            (λ (b : Bool).
              if b then (λ j. get_or m.bits (i / 4096 * 512 + j) 0) else part.my_disk l)
            (ne→not_== l (part.sb.inode_bitmap_lba + i / 4096)
              (omega (arith, le, h.numbers.in_front, sector_low)));
  }

  inode_alloc-step :
      (a : ℕ) (s : OpenInodes)
      → bitmap_alloc_a_bit part.inode_bitmap ≡ ok (some i, m)
      → a ≢ 0
      → inode_alloc inode_size to_bytes a true f_type s part
        ≡ ok (
          some a,
          record (set_inode a (inode_init i f_type) s) { open_inodes = a ∷ s.open_inodes },
          part3,
        )
  unfolding inode_alloc
  inode_alloc-step a s run ne =
      rw
        (
          inode_alloc,
          run,
          ◌>>=◌,
          write_inode_bitmap_sector-ok,
          ◌>>=◌,
          ne→not_== a 0 ne,
          if◌then◌else◌,
          inode_sync-ok inode_size to_bytes (inode_init i f_type) part2 table2
              (omega (arith, valid2.word)),
          ◌>>=◌,
        )
        refl

-- `inode_alloc` on a partition in order, with memory to be had at `a`, never fails. It returns NULL and
-- changes nothing where every number is in use; or it returns `a`, where there is then an inode of the
-- first free number, of the given type, open once, and of a file without blocks, whose bytes are in the
-- table. The bitmap of inodes has its bit, in memory and on the disk; that of blocks and the sectors of
-- data are as they were.
pub inode_alloc-Creates :
    (inode_size : ℕ) (to_bytes : Inode → Buffer) (a : ℕ) (f_type : FileType) (s : OpenInodes)
    (part : Partition)
    → IsPartition part
    → HasNumbers inode_size part
    → 0 < part.sb.data_start_lba
    → a ≢ 0
    → ((inode_alloc inode_size to_bytes a true f_type s part ≡ ok (none, s, part))
        × Used part.inode_bitmap 0 (8 * part.inode_bitmap.bytes_len))
      ⊎ ((i : ℕ) × (part' : Partition) × (inode_alloc inode_size to_bytes a true f_type s part
            ≡ ok (
              some a,
              record (set_inode a (inode_init i f_type) s) { open_inodes = a ∷ s.open_inodes },
              part',
            ))
          × Creates inode_size to_bytes f_type i part part')
unfolding inode_alloc
inode_alloc-Creates inode_size to_bytes a f_type s part v h start ne =
    go (bitmap_alloc_a_bit-TakesFirst part.inode_bitmap h.numbers.valid)
  where
    go :
        (r : Option ℕ × Bitmap) × (bitmap_alloc_a_bit part.inode_bitmap ≡ ok r)
          × TakesFirst part.inode_bitmap 0 (8 * part.inode_bitmap.bytes_len) r
        → ((inode_alloc inode_size to_bytes a true f_type s part ≡ ok (none, s, part))
            × Used part.inode_bitmap 0 (8 * part.inode_bitmap.bytes_len))
          ⊎ ((i : ℕ) × (part' : Partition) × (inode_alloc inode_size to_bytes a true f_type s part
                ≡ ok (
                  some a,
                  record (set_inode a (inode_init i f_type) s) { open_inodes = a ∷ s.open_inodes },
                  part',
                ))
              × Creates inode_size to_bytes f_type i part part')
    go ((none, m), run, (same, used)) = inl (rw (inode_alloc, run, ◌>>=◌, same) refl, used)
    go ((some i, m), run, (low, high, clear, first, t)) =
        let under : i < 8 * part.inode_bitmap.bytes_len = omega (arith, high) in
        inr (
          i,
          part3 inode_size to_bytes f_type i part m v h under t,
          inode_alloc-step inode_size to_bytes f_type i part m v h under t a s run ne,
          new-Creates inode_size to_bytes f_type i part m v h under t
              (λ k lt. first k (omega arith) lt) clear start,
        )

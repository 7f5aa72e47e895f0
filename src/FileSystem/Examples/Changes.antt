-- ===== src/FileSystem/Examples/Changes.antt =====
-- Writes, creation and removal of small files.
use recover_os.Prelude.{
  ◌++◌, ◌-◌, ne→not_==, zero, suc, Bool-cases, inr, subst, ◌&&◌, get_or, ◌∙◌, ◌⊎◌, inl, ◌<◌, ◌^◌, ℕ,
  ◌+◌, ◌*◌, ◌/◌, ◌%◌, ◌≡◌, refl, sym, ap, true, arith, Option, none, some, [], ◌∷◌, ok, ◌==◌,
  if◌then◌else◌, replicate, length-replicate, get_or-replicate,
}
use recover_os.Bitmap.Byte.{test_bit}
use recover_os.Bitmap.Laws.{bit}
use recover_os.Bitmap.Turned.{Used}
use recover_os.FileSystem.Disk.{Buffer}
use recover_os.FileSystem.Inode.{Inode, regular, inode_read, get_blocks_lba}
use recover_os.FileSystem.Write.{inode_write}
use recover_os.FileSystem.Indirect.{IsFile}
use recover_os.FileSystem.Synced.{InTable}
use recover_os.FileSystem.Outcome.{Writes, Fails}
use recover_os.FileSystem.Writing.{inode_write-Returns, inode_write-inode_read}
use recover_os.FileSystem.Partition.{Partition, SuperBlock}
use recover_os.FileSystem.BlockBitmap.{IsPartition}
use recover_os.FileSystem.Number.{inode_init, inode_alloc}
use recover_os.FileSystem.Numbers.{as_blocks, HasNumbers, Creates, inode_alloc-Creates}
use recover_os.FileSystem.Open.{set_inode, OpenInodes, inode_close}
use recover_os.FileSystem.Owning.{IsTaken}
use recover_os.FileSystem.Free.{inode_free}
use recover_os.FileSystem.Removal.{Frees, inode_free-Frees}
use recover_os.Descriptors.{Files, no_file, fd_local2global}
use recover_os.FileSystem.Position.{Moved}
use recover_os.FileSystem.Output.{write_file, write_file-Writes}
use recover_os.FileSystem.Mount.{sb_init, mount_partition}
use recover_os.FileSystem.Mounting.{mount_partition-IsPartition}
use recover_os.Strings.Copy.{Str}
use recover_os.FileSystem.Path.{path_parse}
use recover_os.FileSystem.PathName.{path_parse-Str}
use recover_os.FileSystem.Examples.{
  files, malloc, malloc-some, partition, partition-IsPartition, no_bytes-IsValid, nothing_open,
}

-- A new file, of the number 5
abbrev new_file : Inode
new_file = record { i_no = 5; i_size = 0; i_open_cnts = 1; f_type = regular; i_sectors = λ k. 0 }

new_file-IsFile : IsFile partition new_file
unfolding get_blocks_lba
new_file-IsFile = record {
  part_valid = partition-IsPartition;
  start = omega arith;
  taken = λ k lt. inl (ground arith);
  ind_taken = inl refl;
  distinct = λ k j lk lj ne e. absurd (ne (ground arith));
  apart = λ k lt ne e. ne (ground arith);
}

new_file-InTable : InTable 128 partition.sb 5
new_file-InTable = record {
  number = omega arith;
  short = omega arith;
  behind = omega arith;
  before = omega arith;
  ends = omega arith;
}

-- 600 bytes, and an inode whose bytes are its size
abbrev text : Buffer
text i = i % 256

abbrev size_bytes : Inode → Buffer
size_bytes x i = x.i_size / 256 ^ i % 256

inode_write-Returns_example :
    ((inode' : Inode) × (part' : Partition) × (inode_write 128 size_bytes true true text 600 0
          new_file partition
        ≡ ok (none, inode', part'))
      × Fails new_file inode' partition part')
    ⊎ ((inode' : Inode) × (part' : Partition) × (inode_write 128 size_bytes true true text 600 0
            new_file partition
          ≡ ok (some 600, inode', part'))
        × Writes 128 size_bytes 600 0 text new_file inode' partition part')
inode_write-Returns_example =
    inode_write-Returns 128 size_bytes 600 0 text (omega arith) new_file partition new_file-IsFile
      new_file-InTable

inode_write-inode_read_example :
    (r : Option ℕ) × (inode' : Inode) × (part' : Partition) × (inode_write 128 size_bytes true true
        text 600 0 new_file partition
      ≡ ok (r, inode', part'))
    × (((r ≡ none) × Used part'.block_bitmap 0 (8 * part'.block_bitmap.bytes_len))
        ⊎ ((r ≡ some 600)
            × ((b : Buffer) × (inode_read malloc part'.my_disk inode' 600 0 ≡ ok (some (600, b)))
                × ((k : ℕ) → k < 600 → b k ≡ text k))))
inode_write-inode_read_example =
    inode_write-inode_read 128 size_bytes 600 0 text (omega arith) malloc malloc-some new_file
      partition new_file-IsFile new_file-InTable refl (omega arith)

-- A partition whose block at address 205 is in use, and a file of this block
abbrev in_use : Partition
in_use = record partition {
  block_bitmap = record { bytes_len = 512; bits = 32 ∷ replicate 511 0 };
  my_disk = λ lba i. if (lba == 2) && (i == 0) then 32 else 0;
}

abbrev small_file : Inode
small_file = record new_file { i_size = 100; i_sectors = λ k. if k == 0 then 205 else 0 }

first_byte : (j : ℕ) → get_or in_use.block_bitmap.bits j 0 ≡ (if j == 0 then 32 else 0)
first_byte zero = refl
first_byte (suc j) =
    get_or-replicate {A = ℕ} 511 j 0 ∙ sym (rw (ne→not_== (suc j) 0 (omega arith)) refl)

byte-small : (x i : ℕ) → x ≡ (if i == 0 then 32 else 0) → x < 256
byte-small x i e = ground (arith, e)

byte-in_step :
    (t x : ℕ)
    → t < 4096
    → x ≡ (if t / 8 == 0 then 32 else 0)
    → (if (2 + t / 4096 == 2) && (t % 4096 / 8 == 0) then 32 else 0) ≡ x
byte-in_step t x lt e =
    let sector : t / 4096 ≡ 0 = omega (arith, lt) in
    let byte : t % 4096 / 8 ≡ t / 8 = omega (arith, lt) in rw (sector, byte) (sym e)

in_use-IsPartition : IsPartition in_use
unfolding bit
in_use-IsPartition = record {
  valid = record {
    backed = omega (arith, length-replicate {A = ℕ} 511 0);
    bytes = λ i. byte-small (get_or in_use.block_bitmap.bits i 0) i (first_byte i);
  };
  within = omega arith;
  memory = ap suc (length-replicate {A = ℕ} 511 0);
  in_front = omega arith;
  word = omega arith;
  in_step = λ t lt.
      ap (λ b. test_bit b (t % 8))
        (byte-in_step t (get_or in_use.block_bitmap.bits (t / 8) 0) lt (first_byte (t / 8)));
}

small_file-blocks :
    (k : ℕ) → get_blocks_lba in_use.my_disk small_file (λ _. 0) k ≡ (if k == 0 then 205 else 0)
unfolding get_blocks_lba
small_file-blocks k = ground arith

block-IsTaken : IsTaken in_use 205
unfolding bit test_bit
block-IsTaken = record { s = 5; at = refl; low = omega arith; used = refl }

small_file-IsFile : IsFile in_use small_file
small_file-IsFile = record {
  part_valid = in_use-IsPartition;
  start = omega arith;
  taken = λ k lt. elim (Bool-cases (k == 0)) [
    | inl first ↦
        inr
          (subst (IsTaken in_use) (sym (small_file-blocks k ∙ ground (arith, first))) block-IsTaken)
    | inr other ↦ inl (small_file-blocks k ∙ ground (arith, other))
  ];
  ind_taken = inl refl;
  distinct = λ k j lk lj ne e. ground (arith, small_file-blocks k, small_file-blocks j, ne, e);
  apart = λ k lt ne e. ground (arith, small_file-blocks k, ne, e);
}

abbrev file_open : OpenInodes
file_open = record {
  open_inodes = 0x9000 ∷ [];
  inode_at = λ a. small_file;
  root_dir_inode = 0x8000;
}

inode_free_example :
    (part' : Partition) × (inode_free 0x9000 file_open in_use
      ≡ ok (inode_close 0x9000 file_open, part'))
    × Frees small_file in_use part'
inode_free_example =
    inode_free-Frees 0x9000 file_open in_use small_file-IsFile no_bytes-IsValid (omega arith) refl

numbers-IsPartition : IsPartition (as_blocks partition)
unfolding bit
numbers-IsPartition = record {
  valid = no_bytes-IsValid;
  within = omega arith;
  memory = length-replicate {A = ℕ} 512 0;
  in_front = omega arith;
  word = omega arith;
  in_step = λ t lt. ap (λ b. test_bit b (t % 8)) (sym (get_or-replicate {A = ℕ} 512 (t / 8) 0));
}

-- Inodes of 16 bytes
partition-HasNumbers : HasNumbers 16 partition
partition-HasNumbers = record {
  numbers = numbers-IsPartition;
  few = omega arith;
  behind = omega arith;
  table = omega arith;
  short = omega arith;
  fits = λ i lt. (omega (arith, lt), omega (arith, lt));
}

inode_alloc_example :
    ((inode_alloc 16 size_bytes 0x9000 true regular nothing_open partition
        ≡ ok (none, nothing_open, partition))
      × Used partition.inode_bitmap 0 (8 * partition.inode_bitmap.bytes_len))
    ⊎ ((i : ℕ) × (part' : Partition) × (inode_alloc 16 size_bytes 0x9000 true regular nothing_open
            partition
          ≡ ok (
            some 0x9000,
            record (set_inode 0x9000 (inode_init i regular) nothing_open) {
              open_inodes = 0x9000 ∷ [];
            },
            part',
          ))
        × Creates 16 size_bytes regular i partition part')
inode_alloc_example =
    inode_alloc-Creates 16 size_bytes 0x9000 regular nothing_open partition partition-IsPartition
      partition-HasNumbers (omega arith) (omega arith)

-- Descriptor 3 is of an open file at position 0, which may be read and written.
abbrev written_files : Files
written_files = record files {
  file_table = replicate 3 no_file ++ record { fd_pos = 0; flag = 2; fd_inode = 0x9000 } ∷ [];
}

names_written_file : fd_local2global 3 written_files ≡ ok 3
unfolding fd_local2global
names_written_file = refl

abbrev new_file_open : OpenInodes
new_file_open = record {
  open_inodes = 0x9000 ∷ [];
  inode_at = λ a. new_file;
  root_dir_inode = 0x8000;
}

write_file_example :
    (r : Option ℕ) × (inode' : Inode) × (part' : Partition) × (s' : Files) × (write_file 128
        size_bytes true true text 3 600 new_file_open partition written_files
      ≡ ok (r, set_inode 0x9000 inode' new_file_open, part', s'))
    × (((r ≡ none) × Fails new_file inode' partition part' × Moved 3 (2 ^ 64 - 1) written_files s')
        ⊎ ((r ≡ some 600)
            × Writes 128 size_bytes 600 0 text new_file inode' partition part'
            × Moved 3 600 written_files s'))
write_file_example =
    write_file-Writes 128 size_bytes text 3 3 600 new_file_open partition written_files
      names_written_file (omega arith) refl new_file-IsFile new_file-InTable (omega arith)

-- A super block whose first byte is the sector in front of it
abbrev first_sb : Buffer → SuperBlock
first_sb b = sb_init 128 32 partition.sb 4000 (b 0)

mount_partition_example :
    IsPartition (mount_partition first_sb 0 partition.my_disk)
    × HasNumbers 128 (mount_partition first_sb 0 partition.my_disk)
mount_partition_example =
    mount_partition-IsPartition 128 32 4000 0 first_sb partition.sb partition.my_disk
      (λ l i. omega arith) (omega arith) (omega arith) (omega arith) refl

-- The path "/ab/c" at 100
abbrev path : ℕ → ℕ
path q =
    if q == 100
    then 47
    else if q == 101
    then 97
    else if q == 102
    then 98
    else if q == 103
    then 47
    else if q == 104
    then 99
    else 0

path_parse_example :
    (m' : ℕ → ℕ) × (path_parse 9 100 200 path ≡ ok (if path 103 == 0 then none else some 103, m'))
    × Str m' 200 (97 ∷ 98 ∷ [])
    × ((q : ℕ) → (q < 200) ⊎ (202 < q) → m' q ≡ path q)
path_parse_example =
    path_parse-Str 1 (97 ∷ 98 ∷ []) 9 100 200 path (omega arith) (omega arith)
      (refl, λ e. omega (arith, e))
      (
        refl,
        λ e. omega (arith, e),
        λ e. omega (arith, e),
        (refl, λ e. omega (arith, e), λ e. omega (arith, e), inl refl),
      )
      (λ i j le le' e. omega (arith, le, le', e))

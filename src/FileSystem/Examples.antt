-- ===== src/FileSystem/Examples.antt =====
-- fs/ on a disk with a few blocks.
mod Changes
use recover_os.Prelude.{
  ne→not_==, zero, suc, Bool-cases, inr, subst, ◌&&◌, get_or, ◌∙◌, ◌⊎◌, inl, ◌<◌, ◌^◌, ℕ, ◌+◌, ◌*◌,
  ◌/◌, ◌%◌, ◌≤◌, ◌≡◌, refl, sym, ap, ◌≢◌, true, false, arith, Option, none, some, [], ◌∷◌, ◌++◌, ok,
  ◌==◌, if◌then◌else◌, replicate, length-replicate, get_or-replicate,
}
use recover_os.Bitmap.Byte.{test_bit}
use recover_os.Bitmap.Laws.{bit, IsValid}
use recover_os.Bitmap.Turned.{Used, Turned}
use recover_os.Descriptors.{Files, no_file, fd_local2global}
use recover_os.FileSystem.Disk.{Buffer, Disk}
use recover_os.FileSystem.Inode.{Inode, regular, inode_read, get_blocks_lba}
use recover_os.FileSystem.Write.{inode_write}
use recover_os.FileSystem.Indirect.{IsFile}
use recover_os.FileSystem.Synced.{InTable}
use recover_os.FileSystem.Outcome.{Writes, Fails}
use recover_os.FileSystem.Writing.{inode_write-Returns, inode_write-inode_read}
use recover_os.FileSystem.Reading.{Reads, inode_read-Reads}
use recover_os.FileSystem.Position.{read_file, Moved, behind, read_file-Reads}
use recover_os.FileSystem.Partition.{Partition, block_bitmap_alloc, block_bitmap_free}
use recover_os.FileSystem.BlockBitmap.{
  IsPartition, AllocatesBlock, block_bitmap_alloc-IsPartition, block_bitmap_free-IsPartition,
}
use recover_os.FileSystem.Number.{inode_init, inode_alloc}
use recover_os.FileSystem.Numbers.{as_blocks, HasNumbers, Creates, inode_alloc-Creates}
use recover_os.FileSystem.Open.{set_inode, OpenInodes, inode_open, inode_close}
use recover_os.FileSystem.Owning.{IsTaken}
use recover_os.FileSystem.Free.{inode_free}
use recover_os.FileSystem.Removal.{Frees, inode_free-Frees}
use recover_os.FileSystem.Loading.{IsOpen}
use recover_os.FileSystem.Opening.{disk_inode, Opens, inode_open-Opens}

abbrev disk : Disk
disk lba i = (lba + i) % 256

-- A file of 700 bytes: a block at address 100, and a hole.
abbrev inode : Inode
inode = record {
  i_no = 5;
  i_size = 700;
  i_open_cnts = 1;
  f_type = regular;
  i_sectors = λ b. if b == 0 then 100 else 0;
}

abbrev malloc : ℕ → Option Buffer
malloc size = some (λ i. 77)

malloc-some : (size : ℕ) → size ≤ 140 * 512 → malloc size ≢ none
malloc-some size le = λ e. cc

inode_read_example :
    (r : Option (ℕ × Buffer)) × (inode_read malloc disk inode 20 505 ≡ ok r)
    × Reads disk inode 20 505 r
inode_read_example =
    inode_read-Reads malloc disk inode 20 505 (omega arith) (omega arith) malloc-some

abbrev files : Files
files = record {
  file_table = replicate 3 no_file ++ record { fd_pos = 505; flag = 0; fd_inode = 0x9000 } ∷ [];
  fd_table = some 0 ∷ some 1 ∷ some 2 ∷ some 3 ∷ [];
  queue = λ p. record { producer = 0; consumer = 0; buf = []; head = 0; tail = 0 };
}

names_file : fd_local2global 3 files ≡ ok 3
unfolding fd_local2global
names_file = refl

read_file_example :
    (r : Option (ℕ × Buffer)) × (s' : Files) × (read_file malloc disk (λ _. inode) 3 20 files
      ≡ ok (r, s'))
    × Reads disk inode 20 505 r
    × Moved 3 (behind 505 r) files s'
read_file_example =
    read_file-Reads (λ _. inode) 3 3 files names_file (omega arith) malloc disk 20 (omega arith)
      (omega arith) malloc-some

-- A partition of 4096 blocks, none in use.
abbrev partition : Partition
partition = record {
  sb = record {
    magic = 0x474d575a5a46594c;
    sec_cnt = 4000;
    lba_base = 0;
    inode_cnt = 4096;
    block_bitmap_lba = 2;
    block_bitmap_sects = 1;
    inode_bitmap_lba = 3;
    inode_bitmap_sects = 1;
    inode_table_lba = 4;
    inode_table_sects = 196;
    data_start_lba = 200;
    root_inode_no = 0;
    dir_entry_size = 32;
  };
  block_bitmap = record { bytes_len = 512; bits = replicate 512 0 };
  inode_bitmap = record { bytes_len = 512; bits = replicate 512 0 };
  my_disk = λ lba i. 0;
}

no_bytes-IsValid : IsValid partition.block_bitmap
no_bytes-IsValid = record {
  backed = omega (arith, length-replicate {A = ℕ} 512 0);
  bytes = λ i. omega (arith, get_or-replicate {A = ℕ} 512 i 0);
}

partition-IsPartition : IsPartition partition
unfolding bit
partition-IsPartition = record {
  valid = no_bytes-IsValid;
  within = omega arith;
  memory = length-replicate {A = ℕ} 512 0;
  in_front = omega arith;
  word = omega arith;
  in_step = λ t lt. ap (λ b. test_bit b (t % 8)) (sym (get_or-replicate {A = ℕ} 512 (t / 8) 0));
}

block_bitmap_alloc_example :
    (r : Option ℕ) × (part' : Partition) × (block_bitmap_alloc partition ≡ ok (r, part'))
    × IsPartition part'
    × AllocatesBlock partition (r, part')
block_bitmap_alloc_example = block_bitmap_alloc-IsPartition partition partition-IsPartition

-- Inodes of 128 bytes, whose numbers stand first.
abbrev of_bytes : Buffer → Inode
of_bytes b = record inode { i_no = b 0 }

-- The inode 5 is in the second sector of the table.
abbrev table : Disk
table lba i = if lba == 11 then (if i == 128 then 5 else 0) else 0

abbrev nothing_open : OpenInodes
nothing_open = record { open_inodes = []; inode_at = λ a. inode; root_dir_inode = 0x8000 }

nothing-IsOpen : IsOpen nothing_open
nothing-IsOpen = record { counted = λ a h. cc; distinct = tt; one_each = λ a b h h' e. cc }

inode_open_example :
    (a : ℕ) × (s' : OpenInodes) × (inode_open 128 10 of_bytes 0x9000 true table 5 nothing_open
      ≡ ok (a, s'))
    × Opens 5 (disk_inode 128 10 of_bytes table 5) nothing_open a s'
inode_open_example =
    inode_open-Opens 128 10 of_bytes 0x9000 table 5 nothing_open nothing-IsOpen (omega arith)
      (omega arith) refl (λ a h. cc) (omega arith) refl

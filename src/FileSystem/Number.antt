-- ===== src/FileSystem/Number.antt =====
-- fs/inode.c, `inode_alloc`: a new inode gets the first free number.
--
-- `kernel_alloc` is the address that `kernel_alloc` returns, and `io_malloc` whether `inode_sync` gets its
-- buffer. The inode that a failed `kernel_alloc` leaves without memory keeps its number.
use recover_os.Prelude.{
  ℕ, ◌+◌, ◌*◌, ◌/◌, ◌%◌, ◌^◌, ◌==◌, leb, Bool, if◌then◌else◌, length, get_or, Option, none, some,
  ◌∷◌, Run, ok, fault, ◌>>=◌,
}
use recover_os.Bitmap.{bitmap_alloc_a_bit}
use recover_os.FileSystem.Disk.{Buffer, block_size}
use recover_os.FileSystem.Inode.{Inode, FileType}
use recover_os.FileSystem.Partition.{Partition, ide_write, bits_per_sector}
use recover_os.FileSystem.Open.{OpenInodes, set_inode}
use recover_os.FileSystem.Write.{inode_sync}

-- The sector of the bitmap of inodes that holds bit `bit_idx` is written.
unfoldable pub write_inode_bitmap_sector : (bit_idx : ℕ) → Partition → Run Partition
write_inode_bitmap_sector bit_idx part =
    let off_sec = bit_idx / bits_per_sector in
    let sec_lba = (part.sb.inode_bitmap_lba + off_sec) % 2 ^ 32 in
    if leb (off_sec * block_size + block_size) (length part.inode_bitmap.bits)
    then ok (record part {
      my_disk =
          ide_write part.my_disk sec_lba
            (λ i. get_or part.inode_bitmap.bits (off_sec * block_size + i) 0);
    })
    else fault

-- The inode that `inode_init` leaves; its place in the list is its address's in `open_inodes`.
abbrev pub inode_init : (inode_no : ℕ) → FileType → Inode
inode_init inode_no f_type = record {
  i_no = inode_no;
  i_size = 0;
  i_open_cnts = 1;
  f_type = f_type;
  i_sectors = λ k. 0;
}

module _ (inode_size : ℕ) (to_bytes : Inode → Buffer) where
  -- A result of none is NULL.
  unfoldable pub inode_alloc :
      (kernel_alloc : ℕ) (io_malloc : Bool)
      → FileType
      → OpenInodes
      → Partition
      → Run (Option ℕ × OpenInodes × Partition)
  inode_alloc kernel_alloc io_malloc f_type s part = do
    (bit_idx, m) ← bitmap_alloc_a_bit part.inode_bitmap
    let part' = record part { inode_bitmap = m }
    elim bit_idx [
      | none ↦ ok (none, s, part')
      | some i ↦ write_inode_bitmap_sector i part' >>= λ part'.
          if kernel_alloc == 0
          then ok (none, s, part')
          else (let inode = inode_init i f_type in
              inode_sync inode_size to_bytes io_malloc inode part' >>= λ part'. ok (
                some kernel_alloc,
                record (set_inode kernel_alloc inode s) {
                  open_inodes = kernel_alloc ∷ s.open_inodes;
                },
                part',
              ))
    ]

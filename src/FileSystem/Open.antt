-- ===== src/FileSystem/Open.antt =====
-- fs/inode.c, `inode_open` and `inode_close`: the inodes in memory and how often each is open.
--
-- `open_inodes` is the sequence of addresses that the list of the partition holds. The layout of
-- `struct inode` in bytes is the compiler's: its size and `of_bytes`, which reads one, are
-- parameters. `kernel_alloc` and `sys_malloc` give the address and the memory that they return.
use recover_os.Prelude.{
  ℕ, ◌+◌, ◌-◌, ◌%◌, ◌^◌, Bool, not, Option, none, some, List, [], ◌∷◌, Run, ok, ◌>>=◌, ◌>>◌, assert,
  ltb, ◌==◌, if◌then◌else◌,
}
use recover_os.Thread.Tasks.{erase}
use recover_os.FileSystem.Disk.{Buffer, Disk, block_size}
use recover_os.FileSystem.Inode.{Inode, inode_locate}

pub record OpenInodes : Type 0 where
  pub open_inodes : List ℕ
  pub inode_at : ℕ → Inode
  pub root_dir_inode : ℕ

abbrev pub set_inode : ℕ → Inode → OpenInodes → OpenInodes
set_inode a v s = record s { inode_at = λ b. if b == a then v else s.inode_at b }

-- `list_traversal` with `find_inode`
unfoldable pub find_inode : (inode_no : ℕ) → (ℕ → Inode) → List ℕ → Option ℕ
find_inode num at [] = none
find_inode num at (a ∷ l) =
    let rest = find_inode num at l in if (at a).i_no == num then some a else rest

-- `ide_read` of two sectors
abbrev pub two_sectors : Disk → (lba : ℕ) → Buffer
two_sectors disk lba i = if ltb i block_size then disk lba i else disk (lba + 1) (i - block_size)

module _ (inode_size inode_table_lba : ℕ) (of_bytes : Buffer → Inode) where
  unfoldable pub inode_open :
      (kernel_alloc : ℕ) (sys_malloc : Bool)
      → Disk
      → (inode_no : ℕ) → OpenInodes
      → Run (ℕ × OpenInodes)
  inode_open kernel_alloc sys_malloc disk num s = elim (find_inode num s.inode_at s.open_inodes) [
    | some a ↦
        let inode = s.inode_at a in
        ok (a, set_inode a (record inode { i_open_cnts = (inode.i_open_cnts + 1) % 2 ^ 64 }) s)
    | none ↦ do
      inode_pos ← inode_locate inode_size inode_table_lba num
      assert (not (kernel_alloc == 0))
      assert sys_malloc
      let inode = of_bytes (λ i. two_sectors disk inode_pos.lba (inode_pos.off_size + i))
      ok (
        kernel_alloc,
        record (set_inode kernel_alloc (record inode { i_open_cnts = 1 }) s) {
          open_inodes = kernel_alloc ∷ s.open_inodes;
        },
      )
  ]

unfoldable pub inode_close : (inode : ℕ) → OpenInodes → OpenInodes
inode_close a s =
    let inode = s.inode_at a in
    let cnt = (inode.i_open_cnts + 2 ^ 64 - 1) % 2 ^ 64 in
    let s' = set_inode a (record inode { i_open_cnts = cnt }) s in
    if a == s.root_dir_inode
    then s
    else if cnt == 0
    then record s' { open_inodes = erase a s'.open_inodes }
    else s'

-- ===== src/FileSystem/Opening.antt =====
-- `inode_open` and `inode_close`, on inodes in memory of which no two have the same number.
use recover_os.Prelude.{
  ◌*◌, ◌/◌, ◌∷◌, lt→ltb, ℕ, ◌+◌, ◌-◌, ◌%◌, ◌^◌, ◌<◌, ◌≡◌, refl, sym, ◌∙◌, ap, ◌≢◌, ◌⊎◌, inl, inr,
  true, false, arith, Option, none, some, ok, ◌>>=◌, ◌==◌, if◌then◌else◌, Bool-cases, ==→eq,
  not_==→ne, ne→not_==, ==_self,
}
use recover_os.LinkedList.Chain.{has}
use recover_os.Thread.Tasks.{erase}
use recover_os.FileSystem.Disk.{Buffer, Disk}
use recover_os.FileSystem.Inode.{Inode, inode_locate}
use recover_os.FileSystem.Open.{
  two_sectors, OpenInodes, set_inode, find_inode, inode_open, inode_close,
}
use recover_os.FileSystem.Loading.{
  IsOpen, Found, find_inode-Found, again, again_no, again-IsOpen, loaded, not_new, loaded-IsOpen,
}

-- The inode of `a` is opened once more, or the disk's is new in the list.
abbrev pub Content : Inode → OpenInodes → ℕ → OpenInodes → Type 0
Content on_disk s a s' =
    ((has a s.open_inodes ≡ true)
      × (s'.open_inodes ≡ s.open_inodes)
      × (s'.inode_at a ≡ record (s.inode_at a) { i_open_cnts = (s.inode_at a).i_open_cnts + 1 }))
    ⊎ ((has a s.open_inodes ≡ false)
        × (s'.open_inodes ≡ a ∷ s.open_inodes)
        × (s'.inode_at a ≡ record on_disk { i_open_cnts = 1 }))

-- What `inode_open` of number `num`, with this inode on the disk, may have done, and the close of its
-- inode after it.
pub record Opens (num : ℕ) (on_disk : Inode) (s : OpenInodes) (a : ℕ) (s' : OpenInodes)
    : Type 0 where
  pub is_open : IsOpen s'
  pub listed : has a s'.open_inodes ≡ true
  pub number : (s'.inode_at a).i_no ≡ num
  pub content : Content on_disk s a s'
  pub others : (b : ℕ) → b ≢ a → s'.inode_at b ≡ s.inode_at b
  pub closed :
      (a ≡ s.root_dir_inode)
      ⊎ (((inode_close a s').open_inodes ≡ s.open_inodes)
          × ((b : ℕ) → has b s.open_inodes ≡ true → (inode_close a s').inode_at b ≡ s.inode_at b))

module _ (a : ℕ) (s : OpenInodes) (other : a == s.root_dir_inode ≡ false) where
  close_one_of :
      1 < (s.inode_at a).i_open_cnts
      → (s.inode_at a).i_open_cnts < 2 ^ 64
      → inode_close a s
        ≡ set_inode a (record (s.inode_at a) { i_open_cnts = (s.inode_at a).i_open_cnts - 1 }) s
  unfolding inode_close
  close_one_of more room =
      let cnt = (s.inode_at a).i_open_cnts in
      let down : (cnt + 2 ^ 64 - 1) % 2 ^ 64 ≡ cnt - 1 = omega (arith, more, room) in
      rw (other, down, ne→not_== (cnt - 1) 0 (omega (arith, more))) refl

  close_last :
      (s.inode_at a).i_open_cnts ≡ 1
      → ((inode_close a s).open_inodes ≡ erase a s.open_inodes)
        × ((b : ℕ) → b ≢ a → (inode_close a s).inode_at b ≡ s.inode_at b)
  unfolding inode_close
  close_last one = (rw (other, one) refl, λ b ne. rw (other, one, ne→not_== b a ne) refl)

module _ (num : ℕ) (s : OpenInodes) (v : IsOpen s) (a : ℕ) where
  again-Opens :
      (on_disk : Inode) (listed : has a s.open_inodes ≡ true)
      (room : (s.inode_at a).i_open_cnts + 1 < 2 ^ 64)
      → (s.inode_at a).i_no ≡ num
      → Opens num on_disk s a (again s v a listed room)
  again-Opens on_disk listed room e = record {
    is_open = again-IsOpen s v a listed room;
    listed = listed;
    number = again_no s v a listed room a ∙ e;
    content = inl (
      listed,
      refl,
      rw (==_self a, if◌then◌else◌)
          (ap (λ c. record (s.inode_at a) { i_open_cnts = c })
            {x = ((s.inode_at a).i_open_cnts + 1) % 2 ^ 64} {y = (s.inode_at a).i_open_cnts + 1}
            (omega (arith, room))),
    );
    others = λ b ne. rw (ne→not_== b a ne) refl;
    closed = elim (Bool-cases (a == s.root_dir_inode)) [
      | inl root ↦ inl (==→eq a s.root_dir_inode root)
      | inr other ↦ inr (
        ap (λ s. s.open_inodes) (back other),
        λ b h. ap (λ s. s.inode_at b) (back other) ∙ same b,
      )
    ];
  }
    where
      s' : OpenInodes
      s' = again s v a listed room

      cnt : (s'.inode_at a).i_open_cnts ≡ (s.inode_at a).i_open_cnts + 1
      cnt = rw (==_self a, if◌then◌else◌) (omega (arith, room))

      back :
          a == s.root_dir_inode ≡ false
          → inode_close a s'
            ≡ set_inode a
                (record (s'.inode_at a) { i_open_cnts = (s'.inode_at a).i_open_cnts - 1 })
                s'
      back other =
          close_one_of a s' other (omega (arith, cnt, v.counted a listed))
            (omega (arith, cnt, room))

      same :
          (b : ℕ)
          → (set_inode a
                (record (s'.inode_at a) { i_open_cnts = (s'.inode_at a).i_open_cnts - 1 })
                s').inode_at
              b
            ≡ s.inode_at b
      same b = elim (Bool-cases (b == a)) [
        | inl at ↦
            rw (at, ==_self a, if◌then◌else◌)
              (ap (λ c. record (s.inode_at a) { i_open_cnts = c })
                  {x = ((s.inode_at a).i_open_cnts + 1) % 2 ^ 64 - 1}
                  {y = (s.inode_at a).i_open_cnts} (omega (arith, room))
                ∙ ap s.inode_at (sym (==→eq b a at)))
        | inr at ↦ rw (at, if◌then◌else◌) refl
      ]

  loaded-Opens :
      (out : has a s.open_inodes ≡ false) (inode : Inode)
      (absent : (b : ℕ) → has b s.open_inodes ≡ true → (s.inode_at b).i_no ≢ inode.i_no)
      → inode.i_no ≡ num
      → Opens num inode s a (loaded s v a out inode absent)
  loaded-Opens out inode absent e = record {
    is_open = loaded-IsOpen s v a out inode absent;
    listed = ground arith;
    number = rw (==_self a, if◌then◌else◌) e;
    content = inr (out, refl, rw (==_self a, if◌then◌else◌) refl);
    others = λ b ne. rw (ne→not_== b a ne) refl;
    closed = elim (Bool-cases (a == s.root_dir_inode)) [
      | inl root ↦ inl (==→eq a s.root_dir_inode root)
      | inr other ↦
          let (list, kept) =
            close_last a (loaded s v a out inode absent) other
              (rw (==_self a, if◌then◌else◌) refl) in
          inr (
            list ∙ rw (==_self a, if◌then◌else◌) refl,
            λ b h.
                let ne = not_==→ne b a (not_new s v a out inode absent b h) in
                kept b ne ∙ rw (ne→not_== b a ne) refl,
          )
    ];
  }

module _ (inode_size inode_table_lba : ℕ) (of_bytes : Buffer → Inode) where
  -- The inode of a number as it stands in the table on the disk.
  abbrev pub disk_inode : Disk → (inode_no : ℕ) → Inode
  disk_inode disk num = of_bytes (λ i.
      two_sectors disk (inode_table_lba + num * inode_size / 512) (num * inode_size % 512 + i))

  -- `inode_open` of a number below 4096, with memory to be had at an address that is not in use
  -- and the inodes in memory open, of different numbers and less than 2 ^ 64 - 1 times each,
  -- never fails if the disk has the inode of that number, at a sector below 2 ^ 32. Its inode is
  -- in memory, once, with the others as they were: one that was there is as it was but for its
  -- count, which is one higher, and one that was not is the disk's, open once, at the front of
  -- the list. And `inode_close` of it, unless it is the root's, leaves the inodes that were in
  -- memory before, as they were.
  pub inode_open-Opens :
      (kernel_alloc : ℕ) (disk : Disk) (num : ℕ) (s : OpenInodes)
      → IsOpen s
      → num < 4096
      → kernel_alloc ≢ 0
      → has kernel_alloc s.open_inodes ≡ false
      → ((a : ℕ) → has a s.open_inodes ≡ true → (s.inode_at a).i_open_cnts + 1 < 2 ^ 64)
      → inode_table_lba + num * inode_size / 512 < 2 ^ 32
      → (disk_inode disk num).i_no ≡ num
      → (a : ℕ) × (s' : OpenInodes) × (inode_open inode_size inode_table_lba of_bytes kernel_alloc
            true disk num s
          ≡ ok (a, s'))
        × Opens num (disk_inode disk num) s a s'
  unfolding inode_open inode_locate
  inode_open-Opens k disk num s v low there out room word right =
      go (find_inode num s.inode_at s.open_inodes) refl
        (find_inode-Found num s.inode_at s.open_inodes)
    where
      go :
          (r : Option ℕ)
          → find_inode num s.inode_at s.open_inodes ≡ r
          → Found num s.inode_at s.open_inodes r
          → (a : ℕ) × (s' : OpenInodes) × (inode_open inode_size inode_table_lba of_bytes k true
                disk num s
              ≡ ok (a, s'))
            × Opens num (disk_inode disk num) s a s'
      go (some a) run (listed, e) = (
        a,
        again s v a listed (room a listed),
        rw (inode_open, run) refl,
        again-Opens num s v a (disk_inode disk num) listed (room a listed) e,
      )
      go none run f =
          let inode = disk_inode disk num in
          let absent : (b : ℕ) → has b s.open_inodes ≡ true → (s.inode_at b).i_no ≢ inode.i_no =
            λ b h e. f b h (e ∙ right) in
          let sector : (inode_table_lba + num * inode_size / 512) % 2 ^ 32
              ≡ inode_table_lba + num * inode_size / 512 =
            omega (arith, word) in
          (
            k,
            loaded s v k out inode absent,
            rw (inode_open, run, lt→ltb num 4096 low, ◌>>=◌, ne→not_== k 0 there, sector) refl,
            loaded-Opens num s v k out inode absent right,
          )

-- ===== src/FileSystem/Synced.antt =====
-- fs/inode.c, `inode_sync` and what `inode_write` does behind its loop.
use recover_os.Prelude.{
  ap, leb, ◌&&◌, ℕ, ◌+◌, ◌-◌, ◌*◌, ◌/◌, ◌%◌, ◌^◌, ◌≤◌, ◌<◌, ◌≡◌, refl, sym, ◌∙◌, subst, ◌≢◌, ◌⊎◌,
  inl, inr, true, false, arith, ok, ◌>>=◌, ltb, ◌==◌, if◌then◌else◌, Bool-cases, ==→eq, not_==→ne,
  ne→not_==, ==_self, lt→ltb,
}
use mathlib.Core.Path.{fun_ext}
use recover_os.FileSystem.Disk.{Buffer, Disk, word}
use recover_os.FileSystem.Inode.{Inode, inode_locate, get_blocks_lba}
use recover_os.FileSystem.Open.{two_sectors}
use recover_os.FileSystem.Partition.{Partition, SuperBlock, ide_write}
use recover_os.FileSystem.BlockBitmap.{IsPartition}
use recover_os.FileSystem.Write.{copy, word_bytes, inode_sync, write_inode}
use recover_os.FileSystem.Owning.{
  IsTaken, IsOwner, IsOwner-same, IsOwner-written, Keeps, Keeps-trans, Keeps-written, written,
}
use recover_os.FileSystem.Indirect.{blocks, IsFile, word-word_bytes}

-- The inode's place is in the table, which is between the bitmap and the data.
pub record InTable (inode_size : ℕ) (sb : SuperBlock) (i_no : ℕ) : Type 0 where
  pub number : i_no < 4096
  pub short : inode_size ≤ 512
  pub behind : sb.block_bitmap_lba + sb.block_bitmap_sects ≤ sb.inode_table_lba
  pub before : sb.inode_table_lba + i_no * inode_size / 512 < sb.data_start_lba
  pub ends : sb.inode_table_lba + (i_no * inode_size + inode_size + 511) / 512 ≤ sb.data_start_lba

-- Two sectors are read as they were written.
two_sectors-ide_write :
    (d : Disk) (lba : ℕ) (x : Buffer) (j : ℕ)
    → two_sectors (ide_write (ide_write d lba x) (lba + 1) (λ i. x (512 + i))) lba j ≡ x j
two_sectors-ide_write d lba x j = elim (Bool-cases (ltb j 512)) [
  | inl first ↦ rw (first, ne→not_== lba (lba + 1) (omega arith), ==_self lba, if◌then◌else◌) refl
  | inr second ↦
      let back : 512 + (j - 512) ≡ j = ground (arith, second) in
      rw (second, ==_self (lba + 1), if◌then◌else◌, back) refl
]

-- and a byte of them is not touched by a write to another.
two_sectors-other :
    (d : Disk) (lba l : ℕ) (x : Buffer) (j : ℕ)
    → lba < l
    → (j < 512) ⊎ (lba + 1 < l)
    → two_sectors (ide_write d l x) lba j ≡ two_sectors d lba j
two_sectors-other d lba l x j lt (inl first) =
    rw (lt→ltb j 512 first, ne→not_== lba l (omega (arith, lt))) refl
two_sectors-other d lba l x j lt (inr out) =
    rw (ne→not_== lba l (omega (arith, lt)), ne→not_== (lba + 1) l (omega (arith, out))) refl

module _ (inode_size : ℕ) (to_bytes : Inode → Buffer) (inode : Inode) (part : Partition)
    (table : InTable inode_size part.sb inode.i_no) where
  abbrev sync_lba : ℕ
  sync_lba = part.sb.inode_table_lba + inode.i_no * inode_size / 512

  abbrev pub sync_buf : Buffer
  sync_buf =
      copy (inode.i_no * inode_size % 512) inode_size 0 (to_bytes inode)
        (two_sectors part.my_disk sync_lba)

  abbrev pub synced : Partition
  synced = written (written part sync_lba sync_buf) (sync_lba + 1) (λ i. sync_buf (512 + i))

  pub inode_sync-ok :
      part.sb.data_start_lba < 2 ^ 32 → inode_sync inode_size to_bytes true inode part ≡ ok synced
  unfolding inode_sync inode_locate
  inode_sync-ok small =
      let sector : (part.sb.inode_table_lba + inode.i_no * inode_size / 512) % 2 ^ 32
          ≡ part.sb.inode_table_lba + inode.i_no * inode_size / 512 =
        omega (arith, table.before) in
      rw (lt→ltb inode.i_no 4096 table.number, ◌>>=◌, sector) refl

  pub Keeps-synced : Keeps part synced
  Keeps-synced =
      Keeps-trans (Keeps-written part sync_lba sync_buf)
        (Keeps-written (written part sync_lba sync_buf) (sync_lba + 1) (λ i. sync_buf (512 + i)))

  -- The second sector is written as it was where the inode does not reach it.
  second-same :
      inode.i_no * inode_size % 512 + inode_size ≤ 512
      → (i : ℕ) → sync_buf (512 + i) ≡ part.my_disk (sync_lba + 1) i
  second-same short i =
      let out : (leb (inode.i_no * inode_size % 512) (512 + i)
            && ltb (512 + i) (inode.i_no * inode_size % 512 + inode_size))
          ≡ false =
        ground (arith, short) in
      let second : ltb (512 + i) 512 ≡ false = ground arith in
      let back : 512 + i - 512 ≡ i = omega arith in rw (out, second, back) refl

  -- The data is left alone.
  pub synced-data : (l : ℕ) → part.sb.data_start_lba ≤ l → synced.my_disk l ≡ part.my_disk l
  synced-data l le = elim (Bool-cases (l == sync_lba + 1)) [
    | inl here ↦
        let at : l ≡ sync_lba + 1 = ==→eq l (sync_lba + 1) here in
        rw (here, if◌then◌else◌)
          (fun_ext (second-same (omega (arith, table.before, table.ends, at, le)))
            ∙ ap part.my_disk (sym at))
    | inr other ↦ rw (other, ne→not_== l sync_lba (omega (arith, le, table.before))) refl
  ]

  pub synced-IsOwner : (all : ℕ → ℕ) (ind : ℕ) → IsOwner part all ind → IsOwner synced all ind
  synced-IsOwner all ind own =
      IsOwner-written (written part sync_lba sync_buf) all ind (sync_lba + 1)
        (λ i. sync_buf (512 + i))
        (IsOwner-written part all ind sync_lba sync_buf own (omega (arith, table.behind)))
        (omega (arith, table.behind))

  -- The inode's bytes are in its place.
  pub synced-bytes :
      (i : ℕ)
      → i < inode_size
      → two_sectors synced.my_disk sync_lba (inode.i_no * inode_size % 512 + i) ≡ to_bytes inode i
  synced-bytes i lt =
      two_sectors-ide_write part.my_disk sync_lba sync_buf (inode.i_no * inode_size % 512 + i)
      ∙ ground arith

taken_word :
    (part : Partition) (lba : ℕ) → IsPartition part → (lba ≡ 0) ⊎ IsTaken part lba → lba < 2 ^ 32
taken_word part lba v (inl e) = omega (arith, e)
taken_word part lba v (inr t) = omega (arith, t.at, t.low, v.within, v.word)

-- The inode that a write leaves, when the file's blocks are `all`
abbrev pub grown : (count pos : ℕ) → Inode → (all : ℕ → ℕ) → Inode
grown count pos inode all = record inode {
  i_size = if ltb inode.i_size (pos + count) then pos + count else inode.i_size;
  i_sectors = λ k. if ltb k 12 then all k else inode.i_sectors k;
}

-- What is done behind the loop comes to this: the inode is in the table, and the file's blocks are
-- `all`.
pub record Stored (inode_size : ℕ) (to_bytes : Inode → Buffer) (part part' : Partition)
    (inode : Inode) (all : ℕ → ℕ) : Type 0 where
  pub keeps : Keeps part part'
  pub own : IsFile part' inode
  pub same_blocks : (k : ℕ) → k < 140 → blocks part'.my_disk inode k ≡ all k
  pub stored :
      (i : ℕ)
      → i < inode_size
      → two_sectors part'.my_disk
          (part.sb.inode_table_lba + inode.i_no * inode_size / 512)
          (inode.i_no * inode_size % 512 + i)
        ≡ to_bytes inode i
  pub same_data :
      (l : ℕ)
      → part.sb.data_start_lba ≤ l
      → l ≢ inode.i_sectors 12
      → part'.my_disk l ≡ part.my_disk l

module _ (inode_size : ℕ) (to_bytes : Inode → Buffer) (count pos : ℕ) (inode : Inode) (all : ℕ → ℕ)
    (part : Partition) (table : InTable inode_size part.sb inode.i_no)
    (own : IsOwner part all (inode.i_sectors 12)) where
  abbrev inode' : Inode
  inode' = grown count pos inode all

  abbrev part1 : Partition
  part1 = synced inode_size to_bytes inode' part table

  abbrev own1 : IsOwner part1 all (inode.i_sectors 12)
  own1 = synced-IsOwner inode_size to_bytes inode' part table all (inode.i_sectors 12) own

  none-Stored :
      inode.i_sectors 12 ≡ 0
      → ((k : ℕ) → 12 ≤ k → k < 140 → all k ≡ 0)
      → Stored inode_size to_bytes part part1 inode' all
  unfolding get_blocks_lba
  none-Stored none_there zeros = record {
    keeps = Keeps-synced inode_size to_bytes inode' part table;
    own = IsOwner-same part1 all (blocks part1.my_disk inode') (inode.i_sectors 12) same own1;
    same_blocks = same;
    stored = synced-bytes inode_size to_bytes inode' part table;
    same_data = λ l le ne. synced-data inode_size to_bytes inode' part table l le;
  }
    where
      same : (k : ℕ) → k < 140 → blocks part1.my_disk inode' k ≡ all k
      same k low = elim (Bool-cases (ltb k 12)) [
        | inl direct ↦ rw (direct, if◌then◌else◌) refl
        | inr beyond ↦
            rw (beyond, none_there, if◌then◌else◌) (sym (zeros k (ground (arith, beyond)) low))
      ]

  abbrev part2 : Partition
  part2 = written part1 (inode.i_sectors 12) (word_bytes (λ k. all (12 + k)))

  some-Stored : IsTaken part (inode.i_sectors 12) → Stored inode_size to_bytes part part2 inode' all
  unfolding get_blocks_lba
  some-Stored t = record {
    keeps =
        Keeps-trans (Keeps-synced inode_size to_bytes inode' part table)
          (Keeps-written part1 (inode.i_sectors 12) (word_bytes (λ k. all (12 + k))));
    own = IsOwner-same part2 all (blocks part2.my_disk inode') (inode.i_sectors 12) same (
        IsOwner-written part1 all (inode.i_sectors 12) (inode.i_sectors 12)
          (word_bytes (λ k. all (12 + k))) own1 (omega (arith, t.at, own.part_valid.in_front)));
    same_blocks = same;
    stored = λ i lt.
        two_sectors-other part1.my_disk (part.sb.inode_table_lba + inode.i_no * inode_size / 512)
          (inode.i_sectors 12) (word_bytes (λ k. all (12 + k))) (inode.i_no * inode_size % 512 + i)
          (omega (arith, t.at, table.before)) (in_front i lt)
        ∙ synced-bytes inode_size to_bytes inode' part table i lt;
    same_data = λ l le ne.
        rw (ne→not_== l (inode.i_sectors 12) ne, if◌then◌else◌)
          (synced-data inode_size to_bytes inode' part table l le);
  }
    where
      in_front :
          (i : ℕ)
          → i < inode_size
          → (inode.i_no * inode_size % 512 + i < 512)
            ⊎ (part.sb.inode_table_lba + inode.i_no * inode_size / 512 + 1 < inode.i_sectors 12)
      in_front i lt = elim (Bool-cases (ltb (inode.i_no * inode_size % 512 + i) 512)) [
        | inl first ↦ inl (ground (arith, first))
        | inr second ↦
            let long : 512 ≤ inode.i_no * inode_size % 512 + i = ground (arith, second) in
            inr (omega (arith, long, lt, t.at, table.ends))
      ]

      same : (k : ℕ) → k < 140 → blocks part2.my_disk inode' k ≡ all k
      same k low = elim (Bool-cases (ltb k 12)) [
        | inl direct ↦ rw (direct, if◌then◌else◌) refl
        | inr beyond ↦
            let back : 12 + (k - 12) ≡ k = ground (arith, beyond) in
            rw
              (
                beyond,
                ne→not_== (inode.i_sectors 12) 0 (omega (arith, t.at, own.start)),
                ==_self (inode.i_sectors 12),
                if◌then◌else◌,
                word-word_bytes (λ j. all (12 + j)) (k - 12)
                    (subst (λ j. all j < 2 ^ 32) (sym back)
                      (taken_word part (all k) own.part_valid (own.taken k low))),
                back,
              )
              refl
      ]

  -- With what `inode_sync` returns
  module _ (part1' : Partition) (run : inode_sync inode_size to_bytes true inode' part ≡ ok part1')
      (word : (pos + count) % 2 ^ 64 ≡ pos + count) where
    write_inode-none :
        (inode.i_sectors 12 == 0) ≡ true
        → write_inode inode_size to_bytes true count pos inode all part ≡ ok (inode', part1')
    unfolding write_inode
    write_inode-none e = rw (write_inode, word, run, ◌>>=◌, e) refl

    write_inode-some :
        (inode.i_sectors 12 == 0) ≡ false
        → write_inode inode_size to_bytes true count pos inode all part
          ≡ ok (inode', written part1' (inode.i_sectors 12) (word_bytes (λ k. all (12 + k))))
    unfolding write_inode word_bytes
    write_inode-some e = rw (write_inode, word, run, ◌>>=◌, e) refl

  pub write_inode-Stored :
      pos + count < 2 ^ 64
      → ((inode.i_sectors 12 ≢ 0) ⊎ ((k : ℕ) → 12 ≤ k → k < 140 → all k ≡ 0))
      → (part' : Partition) × (write_inode inode_size to_bytes true count pos inode all part
          ≡ ok (grown count pos inode all, part'))
        × Stored inode_size to_bytes part part' (grown count pos inode all) all
  write_inode-Stored word enough =
      let run =
        inode_sync-ok inode_size to_bytes inode' part table (omega (arith, own.part_valid.word)) in
      let short : (pos + count) % 2 ^ 64 ≡ pos + count = omega (arith, word) in
      elim (Bool-cases (inode.i_sectors 12 == 0)) [
        | inl none_there ↦
            let e = ==→eq (inode.i_sectors 12) 0 none_there in
            (part1, write_inode-none part1 run short none_there, none-Stored e (zeros e enough))
        | inr some_there ↦ (
          part2,
          write_inode-some part1 run short some_there,
          some-Stored (taken own.ind_taken some_there),
        )
      ]
    where
      zeros :
          inode.i_sectors 12 ≡ 0
          → ((inode.i_sectors 12 ≢ 0) ⊎ ((k : ℕ) → 12 ≤ k → k < 140 → all k ≡ 0))
          → (k : ℕ) → 12 ≤ k
          → k < 140
          → all k ≡ 0
      zeros e (inl ne) = absurd (ne e)
      zeros e (inr z) = z

      taken :
          (inode.i_sectors 12 ≡ 0) ⊎ IsTaken part (inode.i_sectors 12)
          → (inode.i_sectors 12 == 0) ≡ false
          → IsTaken part (inode.i_sectors 12)
      taken (inl e) some_there = absurd (not_==→ne (inode.i_sectors 12) 0 some_there e)
      taken (inr t) some_there = t

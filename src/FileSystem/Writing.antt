-- ===== src/FileSystem/Writing.antt =====
-- fs/inode.c, `inode_write` as a whole, and a read of what it wrote.
use recover_os.Prelude.{
  ℕ, ◌+◌, ◌-◌, ◌*◌, ◌/◌, ◌%◌, ◌^◌, ◌≤◌, ◌<◌, ◌≡◌, refl, sym, ◌∙◌, ap, subst, ◌≢◌, ◌⊎◌, inl, inr,
  Bool, true, false, arith, Option, none, some, ok, ◌>>=◌, ltb, ◌==◌, if◌then◌else◌, Bool-cases,
  ==→eq, not_==→ne, ==_self,
}
use recover_os.Bitmap.Turned.{Used}
use recover_os.FileSystem.Disk.{Buffer}
use recover_os.FileSystem.Inode.{Inode, get_blocks_lba, inode_read}
use recover_os.FileSystem.Partition.{Partition}
use recover_os.FileSystem.Reading.{Reads, inode_read-Reads}
use recover_os.FileSystem.Write.{block_end, write_blocks, indirect_block, write_inode, inode_write}
use recover_os.FileSystem.Owning.{Keeps-refl}
use recover_os.FileSystem.Indirect.{blocks, IsFile, Ready, indirect_block-Ready}
use recover_os.FileSystem.Bytes.{stop_at, at_round}
use recover_os.FileSystem.Round.{Wrote}
use recover_os.FileSystem.Rounds.{write_blocks-Wrote}
use recover_os.FileSystem.Synced.{InTable, grown, write_inode-Stored}
use recover_os.FileSystem.Outcome.{Writes, Fails}
use recover_os.FileSystem.Written.{RanOut-Fails, all-Writes}

module _ (inode_size : ℕ) (to_bytes : Inode → Buffer) (count pos : ℕ) (buf : Buffer)
    (low : pos + count ≤ 71680) where
  -- What `inode_write` returns
  abbrev Returns : Inode → Partition → Type 0
  Returns inode part =
      ((inode' : Inode) × (part' : Partition) × (inode_write inode_size to_bytes true true buf count
            pos inode part
          ≡ ok (none, inode', part'))
        × Fails inode inode' part part')
      ⊎ ((inode' : Inode) × (part' : Partition) × (inode_write inode_size to_bytes true true buf
              count pos inode part
            ≡ ok (some count, inode', part'))
          × Writes inode_size to_bytes count pos buf inode inode' part part')

  abbrev n : ℕ
  n = (pos + count + 511) / 512 - pos / 512

  fits : ltb 71680 ((pos + count) % 2 ^ 64) ≡ false
  fits = ground (arith, low)

  rounds-n : (block_end count pos + 2 ^ 64 - pos / 512) % 2 ^ 64 ≡ n
  rounds-n = omega (arith, low)

  write-full :
      (inode : Inode) (part : Partition)
      → indirect_block count pos inode part ≡ ok (none, part)
      → inode_write inode_size to_bytes true true buf count pos inode part ≡ ok (none, inode, part)
  unfolding inode_write
  write-full inode part run = rw (inode_write, fits, run, ◌>>=◌) refl

  module _ (inode inode1 : Inode) (part part1 : Partition)
      (run : indirect_block count pos inode part ≡ ok (some inode1, part1)) where
    abbrev all1 : ℕ → ℕ
    all1 = blocks part1.my_disk inode1

    write-out :
        (part2 : Partition)
        → write_blocks n count pos (pos / 512) (at_round pos (pos / 512)) buf all1 part1
          ≡ ok (none, part2)
        → inode_write inode_size to_bytes true true buf count pos inode part
          ≡ ok (none, inode1, part2)
    unfolding inode_write
    write-out part2 loop =
        let loop' : write_blocks n count pos (pos / 512) 0 buf all1 part1 ≡ ok (none, part2) =
          subst (λ at. write_blocks n count pos (pos / 512) at buf all1 part1 ≡ ok (none, part2))
            (ap (λ (b : Bool). if b then 0 else 512 * (pos / 512) - pos) (==_self (pos / 512)))
            loop in
        rw (inode_write, fits, run, ◌>>=◌, rounds-n, loop', ◌>>=◌) refl

    write-all :
        (all2 : ℕ → ℕ) (part2 part3 : Partition) (inode3 : Inode)
        → write_blocks n count pos (pos / 512) (at_round pos (pos / 512)) buf all1 part1
          ≡ ok (some all2, part2)
        → write_inode inode_size to_bytes true count pos inode1 all2 part2 ≡ ok (inode3, part3)
        → inode_write inode_size to_bytes true true buf count pos inode part
          ≡ ok (some count, inode3, part3)
    unfolding inode_write
    write-all all2 part2 part3 inode3 loop store =
        let loop' : write_blocks n count pos (pos / 512) 0 buf all1 part1 ≡ ok (some all2, part2) =
          subst
            (λ at. write_blocks n count pos (pos / 512) at buf all1 part1 ≡ ok (some all2, part2))
            (ap (λ (b : Bool). if b then 0 else 512 * (pos / 512) - pos) (==_self (pos / 512)))
            loop in
        rw (inode_write, fits, run, ◌>>=◌, rounds-n, loop', ◌>>=◌, store, ◌>>=◌) refl

  module _ (inode inode1 : Inode) (part part1 : Partition) (own : IsFile part inode)
      (table : InTable inode_size part.sb inode.i_no)
      (run : indirect_block count pos inode part ≡ ok (some inode1, part1))
      (r : Ready count pos inode inode1 part part1) where
    to : pos / 512 + n ≡ (pos + count + 511) / 512
    to = omega arith

    -- Without a block for addresses there are none.
    no_more :
        (inode1.i_sectors 12 ≢ 0) ⊎ (pos + count ≤ 6144)
        → (all2 : ℕ → ℕ) (part2 : Partition)
        → Wrote count pos buf part1 part2
            (blocks part1.my_disk inode1)
            all2
            (inode1.i_sectors 12)
            (pos / 512)
            n
        → (inode1.i_sectors 12 ≢ 0) ⊎ ((k : ℕ) → 12 ≤ k → k < 140 → all2 k ≡ 0)
    unfolding get_blocks_lba
    no_more enough all2 part2 w = elim (Bool-cases (inode1.i_sectors 12 == 0)) [
      | inr some_there ↦ inl (not_==→ne (inode1.i_sectors 12) 0 some_there)
      | inl none_there ↦
          let short : pos + count ≤ 6144 = only (==→eq (inode1.i_sectors 12) 0 none_there) enough in
          inr (λ k ge lt.
            w.others k (inr (omega (arith, short, ge)))
            ∙ rw (none_there, if◌then◌else◌) ground (arith, ge))
    ]
      where
        only :
            inode1.i_sectors 12 ≡ 0
            → (inode1.i_sectors 12 ≢ 0) ⊎ (pos + count ≤ 6144)
            → pos + count ≤ 6144
        only e (inl ne) = absurd (ne e)
        only e (inr le) = le

    after-Returns : Returns inode part
    after-Returns =
        elim (write_blocks-Wrote n count pos (pos / 512) buf (blocks part1.my_disk inode1)
          (inode1.i_sectors 12) part1 low (omega arith) to r.own) [
            | inl (part2, loop, f) ↦ inl (
              inode1,
              part2,
              write-out inode inode1 part part1 run part2 loop,
              RanOut-Fails count pos inode inode1 part part1 own r part2 f,
            )
            | inr (all2, part2, loop, w) ↦
                let same_no : inode1.i_no ≡ inode.i_no = ap (λ (x : Inode). x.i_no) r.same in
                let same_sb : part2.sb ≡ part.sb = w.keeps.same_sb ∙ r.keeps.same_sb in
                let table2 : InTable inode_size part2.sb inode1.i_no =
                  subst (λ no. InTable inode_size part2.sb no) (sym same_no)
                    (subst (λ sb. InTable inode_size sb inode.i_no) (sym same_sb) table) in
                let (part3, store, st) =
                  write_inode-Stored inode_size to_bytes count pos inode1 all2 part2 table2 w.own
                    (omega (arith, low)) (no_more r.enough all2 part2 w) in
                inr (
                  grown count pos inode1 all2,
                  part3,
                  write-all inode inode1 part part1 run all2 part2 part3
                      (grown count pos inode1 all2) loop store,
                  all-Writes count pos inode inode1 part part1 own r inode_size to_bytes buf
                      (pos / 512) n all2 part2 part3 refl to low w st,
                )
          ]

  -- `inode_write`, with memory for its buffers, of bytes that end within 140 blocks, to a file that owns
  -- its blocks and whose inode has its place in the table, never fails. It returns -1 where every block
  -- is in use: the file then owns the blocks it had, and the blocks in use of others are as they were. Or
  -- it returns `count`: the file owns its blocks, is as long as it was or as the write's end, and its
  -- inode is in the table; its bytes are the given ones from `pos` to `stop_at` (the write's end, or 512
  -- bytes before it where a write of several blocks ends on a block's border), and its others, but for
  -- those in blocks that it had not and the write got, as they were, as are the blocks in use of others.
  pub inode_write-Returns :
      (inode : Inode) (part : Partition)
      → IsFile part inode
      → InTable inode_size part.sb inode.i_no
      → Returns inode part
  inode_write-Returns inode part own table =
      elim (indirect_block-Ready count pos inode part own low) [
        | inl (run, full) ↦ inl (
          inode,
          part,
          write-full inode part run,
          record {
            keeps = Keeps-refl part;
            own = own;
            full = full;
            same_size = refl;
            same_no = refl;
            others = λ l o. refl;
          },
        )
        | inr (inode1, part1, run, r) ↦ after-Returns inode inode1 part part1 own table run r
      ]

  -- What is read of the file then, where the write reaches its end
  module _ (sys_malloc : ℕ → Option Buffer)
      (memory : (size : ℕ) → size ≤ 140 * 512 → sys_malloc size ≢ none) where
    read-count :
        (inode inode' : Inode) (part part' : Partition)
        → stop_at count pos ≡ pos + count
        → inode.i_size ≤ 71680
        → Writes inode_size to_bytes count pos buf inode inode' part part'
        → (b : Buffer) × (inode_read sys_malloc part'.my_disk inode' count pos
            ≡ ok (some (count, b)))
          × ((k : ℕ) → k < count → b k ≡ buf k)
    read-count inode inode' part part' reaches small w = go (
        inode_read-Reads sys_malloc part'.my_disk inode' count pos
          (ground (arith, w.size, small, low)) (omega (arith, low)) memory)
      where
        long : pos + count ≤ inode'.i_size
        long = ground (arith, w.size)

        go :
            (x : Option (ℕ × Buffer)) × (inode_read sys_malloc part'.my_disk inode' count pos
                ≡ ok x)
              × Reads part'.my_disk inode' count pos x
            → (b : Buffer) × (inode_read sys_malloc part'.my_disk inode' count pos
                ≡ ok (some (count, b)))
              × ((k : ℕ) → k < count → b k ≡ buf k)
        go (none, run, (behind, beyond)) = absurd (omega (arith, long, beyond))
        go (some (m, b), run, (all, le, within, bytes)) =
            let same : m ≡ count = full m all le in
            (
              b,
              run ∙ ap (λ m. ok (some (m, b))) same,
              λ k lt.
                  bytes k (omega (arith, same, lt))
                  ∙ w.bytes (pos + k) (omega arith) (omega (arith, reaches, lt))
                  ∙ ap buf (omega arith),
            )
          where
            full : (m : ℕ) → (m ≡ count) ⊎ (m + pos ≡ inode'.i_size) → m ≤ count → m ≡ count
            full m (inl e) le = e
            full m (inr e) le = omega (arith, e, le, long)

    -- A write of the same kind, which is within a block or does not end on a block's border, to a file of
    -- at most 140 blocks, never fails: all blocks are in use then, or it returns `count`, and a read of
    -- `count` bytes at the same position, with memory for it, returns the bytes that were written.
    pub inode_write-inode_read :
        (inode : Inode) (part : Partition)
        → IsFile part inode
        → InTable inode_size part.sb inode.i_no
        → stop_at count pos ≡ pos + count
        → inode.i_size ≤ 71680
        → (r : Option ℕ) × (inode' : Inode) × (part' : Partition) × (inode_write inode_size to_bytes
              true true buf count pos inode part
            ≡ ok (r, inode', part'))
          × (((r ≡ none) × Used part'.block_bitmap 0 (8 * part'.block_bitmap.bytes_len))
              ⊎ ((r ≡ some count)
                  × ((b : Buffer) × (inode_read sys_malloc part'.my_disk inode' count pos
                        ≡ ok (some (count, b)))
                      × ((k : ℕ) → k < count → b k ≡ buf k))))
    inode_write-inode_read inode part own table reaches small =
        elim (inode_write-Returns inode part own table) [
          | inl (inode', part', run, f) ↦ (none, inode', part', run, inl (refl, f.full))
          | inr (inode', part', run, w) ↦ (
            some count,
            inode',
            part',
            run,
            inr (refl, read-count inode inode' part part' reaches small w),
          )
        ]

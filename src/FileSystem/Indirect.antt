-- ===== src/FileSystem/Indirect.antt =====
-- fs/inode.c, the block that holds block addresses: it is written and read back, and a file gets one.
use recover_os.Prelude.{
  refl, ◌-◌, ==_self, not_==→ne, sym, inr, inl, ◌>>=◌, ltb, lt→ltb, ne→not_==, ◌&&◌, ◌∙◌,
  Bool-cases, arith, none, some, ap, ap₂, ok, ◌≤◌, ◌%◌, ◌/◌, ◌⊎◌, ◌*◌, ◌+◌, ◌==◌, ◌^◌, ◌≢◌,
  if◌then◌else◌, ◌<◌, ◌≡◌, ℕ,
}
use recover_os.Bitmap.Turned.{Used}
use recover_os.FileSystem.Disk.{Disk, word}
use recover_os.FileSystem.Inode.{Inode, get_blocks_lba}
use recover_os.FileSystem.Partition.{Partition, SuperBlock}
use recover_os.FileSystem.Write.{word_bytes, alloc_block, indirect_block}
use recover_os.FileSystem.Owning.{
  IsTaken, IsOwner, IsOwner-same, Keeps, Keeps-refl, Keeps-trans, Keeps-written, WasFree, written,
  IsOwner-written,
}
use recover_os.FileSystem.Getting.{Allocs, free-ne-taken, alloc_block-Allocs, ind-IsOwner}

word_byte : (w : ℕ → ℕ) (i j : ℕ) → j < 4 → word_bytes w (4 * i + j) ≡ w i / 256 ^ j % 256
unfolding word_bytes
word_byte w i j lt = ap₂ (λ a e. w a / 256 ^ e % 256) (omega (arith, lt)) (omega (arith, lt))

-- The addresses of an array of `uint32_t` are read back as they were written.
pub word-word_bytes : (w : ℕ → ℕ) (i : ℕ) → w i < 2 ^ 32 → word (word_bytes w) i ≡ w i
unfolding word
word-word_bytes w i lt =
    let zeroth : word_bytes w (4 * i) ≡ w i % 256 =
      ap (word_bytes w) (omega arith) ∙ word_byte w i 0 (omega arith) ∙ omega arith in
    omega (
      arith,
      lt,
      zeroth,
      word_byte w i 1 (omega arith),
      word_byte w i 2 (omega arith),
      word_byte w i 3 (omega arith),
    )

-- The addresses of a file's blocks
abbrev pub blocks : Disk → Inode → ℕ → ℕ
blocks disk inode = get_blocks_lba disk inode (λ _. 0)

-- The file owns its blocks.
abbrev pub IsFile : Partition → Inode → Type 0
IsFile part inode = IsOwner part (blocks part.my_disk inode) (inode.i_sectors 12)

-- What the first part of `inode_write` comes to, when it does not fail
pub record Ready (count pos : ℕ) (inode inode' : Inode) (part part' : Partition) : Type 0 where
  pub keeps : Keeps part part'
  pub own : IsFile part' inode'
  pub same : inode' ≡ record inode { i_sectors = inode'.i_sectors }
  pub same_sectors : (k : ℕ) → k ≢ 12 → inode'.i_sectors k ≡ inode.i_sectors k
  pub same_blocks : (k : ℕ) → blocks part'.my_disk inode' k ≡ blocks part.my_disk inode k
  pub enough : (inode'.i_sectors 12 ≢ 0) ⊎ (pos + count ≤ 6144)
  pub same_ind : (inode'.i_sectors 12 ≡ inode.i_sectors 12) ⊎ WasFree part (inode'.i_sectors 12)
  pub same_data : (l : ℕ) → IsTaken part l → part'.my_disk l ≡ part.my_disk l

indirect_block-none :
    (count pos : ℕ) (inode : Inode) (part : Partition)
    → inode.i_sectors 12 ≡ 0
    → 6144 < (pos + count) % 2 ^ 64
    → alloc_block part ≡ ok (none, part)
    → indirect_block count pos inode part ≡ ok (none, part)
unfolding indirect_block
indirect_block-none count pos inode part none_yet lt run =
    rw (none_yet, lt→ltb 6144 ((pos + count) % 2 ^ 64) lt, run, ◌>>=◌) refl

abbrev with_ind : Inode → ℕ → Inode
with_ind inode b = record inode { i_sectors = λ k. if k == 12 then b else inode.i_sectors k }

indirect_block-some :
    (count pos b : ℕ) (inode : Inode) (part part' : Partition)
    → inode.i_sectors 12 ≡ 0
    → 6144 < (pos + count) % 2 ^ 64
    → alloc_block part ≡ ok (some b, part')
    → indirect_block count pos inode part
      ≡ ok (some (with_ind inode b), written part' b (word_bytes (λ k. 0)))
unfolding indirect_block
indirect_block-some count pos b inode part part' none_yet lt run =
    rw (none_yet, lt→ltb 6144 ((pos + count) % 2 ^ 64) lt, run, ◌>>=◌) refl

module _ (count pos : ℕ) (inode : Inode) (part : Partition) (own : IsFile part inode) where
  -- With the block, the file has the blocks that it had.
  module _ (part' : Partition) (b : ℕ) (a : Allocs part part' b)
      (none_yet : inode.i_sectors 12 ≡ 0) where
    abbrev part1 : Partition
    part1 = written part' b (word_bytes (λ k. 0))

    b-ne-0 : b ≢ 0
    b-ne-0 = omega (
      arith,
      a.now_taken.at,
      own.start,
      ap (λ (sb : SuperBlock). sb.data_start_lba) a.keeps.same_sb,
    )

    ready_blocks : (k : ℕ) → blocks part1.my_disk (with_ind inode b) k ≡ blocks part.my_disk inode k
    unfolding get_blocks_lba
    ready_blocks k = elim (Bool-cases (ltb k 12)) [
      | inl direct ↦ rw (direct) ground (arith, direct)
      | inr beyond ↦
          rw
            (
              beyond,
              none_yet,
              ne→not_== b 0 b-ne-0,
              ==_self b,
              if◌then◌else◌,
              word-word_bytes (λ j. 0) (k - 12) (omega arith),
            )
            refl
    ]

    part1-Ready : Ready count pos inode (with_ind inode b) part part1
    part1-Ready = record {
      keeps = Keeps-trans a.keeps (Keeps-written part' b (word_bytes (λ k. 0)));
      own =
          IsOwner-same part1 (blocks part.my_disk inode) (blocks part1.my_disk (with_ind inode b)) b
            (λ k lt. ready_blocks k)
            (IsOwner-written part' (blocks part.my_disk inode) b b (word_bytes (λ k. 0))
              (ind-IsOwner part part' (blocks part.my_disk inode) (inode.i_sectors 12) b own a
                none_yet)
              (omega (arith, a.now_taken.at, a.part_valid.in_front)));
      same = refl;
      same_sectors = λ k ne. rw (ne→not_== k 12 ne) refl;
      same_blocks = ready_blocks;
      enough = inl b-ne-0;
      same_ind = inr a.was_free;
      same_data = λ l t.
          rw (ne→not_== l b (λ e. free-ne-taken part b l a.was_free t (sym e)), if◌then◌else◌)
            (a.same_data l (omega (arith, t.at)));
    }

  pub indirect_block-Ready :
      pos + count ≤ 71680
      → ((indirect_block count pos inode part ≡ ok (none, part))
          × Used part.block_bitmap 0 (8 * part.block_bitmap.bytes_len))
        ⊎ ((inode' : Inode) × (part' : Partition) × (indirect_block count pos inode part
              ≡ ok (some inode', part'))
            × Ready count pos inode inode' part part')
  unfolding indirect_block
  indirect_block-Ready low =
      elim (Bool-cases ((inode.i_sectors 12 == 0) && ltb 6144 ((pos + count) % 2 ^ 64))) [
        | inr no_need ↦ inr (
          inode,
          part,
          rw (indirect_block, no_need) refl,
          record {
            keeps = Keeps-refl part;
            own = own;
            same = refl;
            same_sectors = λ k ne. refl;
            same_blocks = λ k. refl;
            enough = elim (Bool-cases (inode.i_sectors 12 == 0)) [
              | inl none_yet ↦ inr (ground (arith, no_need, none_yet, low))
              | inr some_there ↦ inl (not_==→ne (inode.i_sectors 12) 0 some_there)
            ];
            same_ind = inl refl;
            same_data = λ l t. refl;
          },
        )
        | inl need ↦
            let none_yet : inode.i_sectors 12 ≡ 0 = ground (arith, need) in
            let lt : 6144 < (pos + count) % 2 ^ 64 = ground (arith, need) in
            elim (alloc_block-Allocs part own.part_valid) [
              | inl (run, full) ↦
                  inl (indirect_block-none count pos inode part none_yet lt run, full)
              | inr (b, part', run, a) ↦ inr (
                with_ind inode b,
                part1 part' b a none_yet,
                indirect_block-some count pos b inode part part' none_yet lt run,
                part1-Ready part' b a none_yet,
              )
            ]
      ]

-- ===== src/FileSystem/Written.antt =====
-- fs/inode.c, `inode_write`: what its three parts come to together.
use recover_os.Prelude.{
  ℕ, ◌+◌, ◌-◌, ◌*◌, ◌/◌, ◌%◌, ◌≤◌, ◌<◌, ◌≡◌, refl, sym, ◌∙◌, ap, subst, ◌≢◌, ◌⊎◌, inl, inr, Bool,
  true, false, ◌&&◌, arith, ltb, leb, if◌then◌else◌, Bool-cases, ne→not_==,
}
use recover_os.FileSystem.Disk.{Buffer, Disk}
use recover_os.FileSystem.Inode.{Inode, get_blocks_lba}
use recover_os.FileSystem.Open.{two_sectors}
use recover_os.FileSystem.Partition.{Partition, SuperBlock}
use recover_os.FileSystem.Reading.{block_byte, file_byte}
use recover_os.FileSystem.Owning.{IsTaken-kept, IsOwner-same, IsOwner-kept, Keeps-trans}
use recover_os.FileSystem.Getting.{free-ne-taken}
use recover_os.FileSystem.Indirect.{blocks, IsFile, Ready}
use recover_os.FileSystem.Bytes.{stop_at, new_byte}
use recover_os.FileSystem.Round.{Wrote, RanOut}
use recover_os.FileSystem.Synced.{grown, Stored}
use recover_os.FileSystem.Outcome.{IsOther, Writes, Fails}

-- The addresses in a block are read again where the block is as it was.
same-blocks :
    (d d' : Disk) (inode : Inode) (k : ℕ)
    → (inode.i_sectors 12 ≡ 0) ⊎ (d' (inode.i_sectors 12) ≡ d (inode.i_sectors 12))
    → blocks d' inode k ≡ blocks d inode k
unfolding get_blocks_lba
same-blocks d d' inode k (inl e) = rw (e) refl
same-blocks d d' inode k (inr e) = rw (e) refl

new_byte-in :
    (count pos o old : ℕ) (buf : Buffer)
    → pos ≤ o
    → o < stop_at count pos
    → new_byte count pos buf o old ≡ buf (o - pos)
new_byte-in count pos o old buf ge lt = ground arith

new_byte-out :
    (count pos o old : ℕ) (buf : Buffer)
    → (o < pos) ⊎ (stop_at count pos ≤ o)
    → new_byte count pos buf o old ≡ old
new_byte-out count pos o old buf (inl lt) = ground arith
new_byte-out count pos o old buf (inr ge) = ground arith

stop_at-bound : (count pos o : ℕ) → o < stop_at count pos → o < pos + count
stop_at-bound count pos o lt = ground arith

-- Behind the first part of a write
module _ (count pos : ℕ) (inode inode1 : Inode) (part part1 : Partition) (own : IsFile part inode)
    (r : Ready count pos inode inode1 part part1) where
  abbrev all1 : ℕ → ℕ
  all1 = blocks part1.my_disk inode1

  other-ne-ind : (l : ℕ) → IsOther part inode l → l ≢ inode1.i_sectors 12
  other-ne-ind l o e = elim r.same_ind [
    | inl same ↦ o.not_ind (e ∙ same)
    | inr free ↦ free-ne-taken part (inode1.i_sectors 12) l free o.taken (sym e)
  ]

  other-ne-block : (l : ℕ) → IsOther part inode l → (k : ℕ) → k < 140 → l ≢ all1 k
  other-ne-block l o k lt e = o.not_block k lt (e ∙ r.same_blocks k)

  pub RanOut-Fails : (part' : Partition) → RanOut part1 part' all1 → Fails inode inode1 part part'
  RanOut-Fails part' f = record {
    keeps = Keeps-trans r.keeps f.keeps;
    own =
        IsOwner-same part' all1 (blocks part'.my_disk inode1) (inode1.i_sectors 12)
          (λ k lt. same-blocks part1.my_disk part'.my_disk inode1 k (elim r.own.ind_taken [
            | inl e ↦ inl e
            | inr t ↦ inr (
                f.others (inode1.i_sectors 12) t
                  (λ j low e. r.own.apart j low (omega (arith, t.at, r.own.start, e)) (sym e)))
          ]))
          (IsOwner-kept part1 part' all1 (inode1.i_sectors 12) f.keeps f.part_valid r.own);
    full = f.full;
    same_size = ap (λ (x : Inode). x.i_size) r.same;
    same_no = ap (λ (x : Inode). x.i_no) r.same;
    others = λ l o.
        f.others l (IsTaken-kept part part1 l r.keeps o.taken) (other-ne-block l o)
        ∙ r.same_data l o.taken;
  }

  -- The loop writes the blocks `all2`, and the inode `inode3` is stored.
  module _ (inode_size : ℕ) (to_bytes : Inode → Buffer) (buf : Buffer) (idx n : ℕ) (all2 : ℕ → ℕ)
      (part2 part3 : Partition) (from : idx ≡ pos / 512) (to : idx + n ≡ (pos + count + 511) / 512)
      (low : pos + count ≤ 71680)
      (w : Wrote count pos buf part1 part2 all1 all2 (inode1.i_sectors 12) idx n)
      (st : Stored inode_size to_bytes part2 part3 (grown count pos inode1 all2) all2) where
    abbrev inode3 : Inode
    inode3 = grown count pos inode1 all2

    block_lba : (k : ℕ) → k < 140 → all2 k ≢ 0 → part2.sb.data_start_lba ≤ all2 k
    block_lba k lt ne = elim (w.own.taken k lt) [
      | inl e ↦ absurd (ne e)
      | inr t ↦ omega (arith, t.at)
    ]

    -- What the loop has written is still there.
    written-stored :
        (k : ℕ) → k < 140 → all2 k ≢ 0 → part3.my_disk (all2 k) ≡ part2.my_disk (all2 k)
    written-stored k lt ne = st.same_data (all2 k) (block_lba k lt ne) (w.own.apart k lt ne)

    byte :
        (o : ℕ)
        → o < 71680
        → all2 (o / 512) ≢ 0
        → file_byte part3.my_disk inode3 o ≡ part2.my_disk (all2 (o / 512)) (o % 512)
    byte o lt ne =
        ap (λ l. block_byte part3.my_disk l (o % 512))
          (st.same_blocks (o / 512) (omega (arith, lt)))
        ∙ ap (λ (b : Bool). if b then 0 else part3.my_disk (all2 (o / 512)) (o % 512))
            (ne→not_== (all2 (o / 512)) 0 ne)
        ∙ ap (λ (x : Buffer). x (o % 512)) (written-stored (o / 512) (omega (arith, lt)) ne)

    there-ne-0 : (k : ℕ) → idx ≤ k → k < idx + n → all2 k ≢ 0
    there-ne-0 k ge lt = omega (arith, (w.there k ge lt).at, w.own.start)

    round-byte :
        (o : ℕ)
        → idx ≤ o / 512
        → o / 512 < idx + n
        → file_byte part3.my_disk inode3 o
          ≡ new_byte count pos buf o (part1.my_disk (all2 (o / 512)) (o % 512))
    round-byte o ge lt =
        byte o (omega (arith, lt, to, low)) (there-ne-0 (o / 512) ge lt)
        ∙ w.bytes (o / 512) (o % 512) ge lt (omega arith)
        ∙ ap (λ x. new_byte count pos buf x (part1.my_disk (all2 (o / 512)) (o % 512)))
            (omega arith)

    -- Byte `o` of a block that the file had
    old-byte :
        (o : ℕ)
        → o < 71680
        → blocks part.my_disk inode (o / 512) ≢ 0
        → all2 (o / 512) ≡ all1 (o / 512)
        → part1.my_disk (all2 (o / 512)) (o % 512) ≡ file_byte part.my_disk inode o
    old-byte o lt ne same = elim (own.taken (o / 512) (omega (arith, lt))) [
      | inl e ↦ absurd (ne e)
      | inr t ↦
          ap (λ l. part1.my_disk l (o % 512)) (same ∙ r.same_blocks (o / 512))
          ∙ ap (λ (x : Buffer). x (o % 512)) (r.same_data (blocks part.my_disk inode (o / 512)) t)
          ∙ sym (
              ap
                (λ (b : Bool).
                  if b then 0 else part.my_disk (blocks part.my_disk inode (o / 512)) (o % 512))
                (ne→not_== (blocks part.my_disk inode (o / 512)) 0 ne))
    ]

    same-byte :
        (o : ℕ)
        → o < 71680
        → all2 (o / 512) ≡ all1 (o / 512)
        → (o / 512 < idx) ⊎ (idx + n ≤ o / 512)
        → file_byte part3.my_disk inode3 o ≡ file_byte part.my_disk inode o
    same-byte o lt same out = elim (own.taken (o / 512) (omega (arith, lt))) [
      | inl e ↦
          ap (λ l. block_byte part3.my_disk l (o % 512))
            (st.same_blocks (o / 512) (omega (arith, lt)) ∙ same ∙ r.same_blocks (o / 512) ∙ e)
          ∙ sym (ap (λ l. block_byte part.my_disk l (o % 512)) e)
      | inr t ↦
          let had : blocks part.my_disk inode (o / 512) ≢ 0 = omega (arith, t.at, own.start) in
          let ne : all2 (o / 512) ≢ 0 = (λ e. had (sym (same ∙ r.same_blocks (o / 512)) ∙ e)) in
          byte o lt ne
          ∙ ap (λ (x : Buffer). x (o % 512))
              (w.frame (all2 (o / 512))
                (omega (
                  arith,
                  block_lba (o / 512) (omega (arith, lt)) ne,
                  ap (λ (sb : SuperBlock). sb.data_start_lba) w.keeps.same_sb,
                ))
                (λ k ge low' e.
                  apart k ge low'
                    (w.own.distinct (o / 512) k (omega (arith, lt)) (omega (arith, low', to, low))
                      ne e)
                    out))
          ∙ old-byte o lt had same
    ]
      where
        apart :
            (k : ℕ)
            → idx ≤ k
            → k < idx + n
            → o / 512 ≡ k
            → (o / 512 < idx) ⊎ (idx + n ≤ o / 512)
            → ⊥
        apart k ge lt e (inl l) = omega (arith, ge, e, l)
        apart k ge lt e (inr l) = omega (arith, lt, e, l)

    kept-byte :
        (o : ℕ)
        → o < 71680
        → (o < pos) ⊎ (stop_at count pos ≤ o)
        → blocks part.my_disk inode (o / 512) ≢ 0
        → idx ≤ o / 512
        → o / 512 < idx + n
        → file_byte part3.my_disk inode3 o ≡ file_byte part.my_disk inode o
    kept-byte o lt out had ge less = elim (w.same_block (o / 512)) [
      | inl e ↦ absurd (had (sym (r.same_blocks (o / 512)) ∙ e))
      | inr same ↦
          round-byte o ge less
          ∙ new_byte-out count pos o (part1.my_disk (all2 (o / 512)) (o % 512)) buf out
          ∙ old-byte o lt had same
    ]

    other-kept : (l : ℕ) → IsOther part inode l → part3.my_disk l ≡ part.my_disk l
    other-kept l o =
        let t1 = IsTaken-kept part part1 l r.keeps o.taken in
        let start = ap (λ (sb : SuperBlock). sb.data_start_lba) w.keeps.same_sb in
        st.same_data l (omega (arith, t1.at, start)) (other-ne-ind l o)
        ∙ w.frame l (omega (arith, t1.at)) (λ k ge lt e. elim (w.new_or_old k) [
          | inl same ↦ other-ne-block l o k (omega (arith, lt, to, low)) (e ∙ same)
          | inr free ↦ free-ne-taken part1 (all2 k) l free t1 (sym e)
        ])
        ∙ r.same_data l o.taken

    pub all-Writes : Writes inode_size to_bytes count pos buf inode inode3 part part3
    all-Writes = record {
      keeps = Keeps-trans r.keeps (Keeps-trans w.keeps st.keeps);
      own = st.own;
      size =
          ap (λ (x : Inode). if ltb x.i_size (pos + count) then pos + count else x.i_size) r.same;
      same_no = ap (λ (x : Inode). x.i_no) r.same;
      stored = λ i lt.
          subst
            (λ (sb : SuperBlock).
              two_sectors part3.my_disk (sb.inode_table_lba + inode3.i_no * inode_size / 512)
                (inode3.i_no * inode_size % 512 + i)
              ≡ to_bytes inode3 i)
            (sym st.keeps.same_sb) (st.stored i lt);
      bytes = λ o ge lt.
          let less = stop_at-bound count pos o lt in
          round-byte o (omega (arith, from, ge)) (omega (arith, to, less))
          ∙ new_byte-in count pos o (part1.my_disk (all2 (o / 512)) (o % 512)) buf ge lt;
      kept = λ o lt out had. elim (Bool-cases (leb idx (o / 512) && ltb (o / 512) (idx + n))) [
        | inl within ↦
            kept-byte o lt out (was_there o had within) (ground (arith, within))
              (ground (arith, within))
        | inr without ↦
            let out' : (o / 512 < idx) ⊎ (idx + n ≤ o / 512) = outside o without in
            same-byte o lt (w.others (o / 512) out') out'
      ];
      others = other-kept;
    }
      where
        was_there :
            (o : ℕ)
            → (blocks part.my_disk inode (o / 512) ≢ 0)
              ⊎ ((o / 512 < pos / 512) ⊎ ((pos + count + 511) / 512 ≤ o / 512))
            → (leb idx (o / 512) && ltb (o / 512) (idx + n)) ≡ true
            → blocks part.my_disk inode (o / 512) ≢ 0
        was_there o (inl ne) within = ne
        was_there o (inr (inl l)) within = absurd (ground (arith, l, within, from))
        was_there o (inr (inr l)) within = absurd (ground (arith, l, within, to))

        outside :
            (o : ℕ)
            → (leb idx (o / 512) && ltb (o / 512) (idx + n)) ≡ false
            → (o / 512 < idx) ⊎ (idx + n ≤ o / 512)
        outside o without = elim (Bool-cases (ltb (o / 512) idx)) [
          | inl l ↦ inl (ground (arith, l))
          | inr l ↦ inr (ground (arith, l, without))
        ]

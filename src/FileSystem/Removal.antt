-- ===== src/FileSystem/Removal.antt =====
-- fs/inode.c, `inode_free` as a whole.
use recover_os.Prelude.{
  ℕ, ◌+◌, ◌<◌, ◌≡◌, refl, sym, ◌∙◌, ap, subst, ◌≢◌, ◌⊎◌, inl, inr, false, arith, ok, ◌>>=◌,
}
use recover_os.Bitmap.{Bitmap, bitmap_set}
use recover_os.Bitmap.Laws.{bit, IsValid, InMemory, write, set-ok}
use recover_os.Bitmap.Turned.{Turned, Turned-write}
use recover_os.FileSystem.Inode.{Inode}
use recover_os.FileSystem.Partition.{Partition, SuperBlock}
use recover_os.FileSystem.BlockBitmap.{IsPartition}
use recover_os.FileSystem.Open.{OpenInodes, inode_close}
use recover_os.FileSystem.Free.{free_blocks, inode_free}
use recover_os.FileSystem.Owning.{IsTaken, with_inodes, still-IsPartition}
use recover_os.FileSystem.Indirect.{blocks, IsFile}
use recover_os.FileSystem.Freeing.{Freed, free_blocks-Freed}

-- What the removal of a file comes to: its number and its blocks are free, and these hold zeros; what
-- else is in use, the block with its addresses included, stays so and keeps its data.
pub record Frees (inode : Inode) (part part' : Partition) : Type 0 where
  pub part_valid : IsPartition part'
  pub number : Turned false inode.i_no 1 part.inode_bitmap part'.inode_bitmap
  pub freed :
      (k s : ℕ)
      → k < 140
      → blocks part.my_disk inode k ≢ 0
      → blocks part.my_disk inode k ≡ part'.sb.data_start_lba + s
      → bit part'.block_bitmap s ≡ false
  pub zeros :
      (k i : ℕ)
      → k < 140
      → blocks part.my_disk inode k ≢ 0
      → part'.my_disk (blocks part.my_disk inode k) i ≡ 0
  pub others :
      (l : ℕ)
      → IsTaken part l
      → ((k : ℕ) → k < 140 → l ≢ blocks part.my_disk inode k)
      → IsTaken part' l × (part'.my_disk l ≡ part.my_disk l)
  pub indirect_stays : inode.i_sectors 12 ≢ 0 → IsTaken part' (inode.i_sectors 12)

inode_free-step :
    (a : ℕ) (s : OpenInodes) (part part' : Partition) (m : Bitmap)
    → bitmap_set part.inode_bitmap (s.inode_at a).i_no false ≡ ok m
    → free_blocks 140 0 (blocks part.my_disk (s.inode_at a)) (with_inodes part m) ≡ ok part'
    → (s.inode_at a).i_open_cnts ≡ 1
    → inode_free a s part ≡ ok (inode_close a s, part')
unfolding inode_free
inode_free-step a s part part' m set free once = rw (inode_free, set, ◌>>=◌, free, ◌>>=◌, once) refl

frees :
    (inode : Inode) (part part' : Partition) (m : Bitmap)
    → IsFile part inode
    → Turned false inode.i_no 1 part.inode_bitmap m
    → Freed (with_inodes part m) part' (blocks part.my_disk inode) 0 140
    → Frees inode part part'
frees inode part part' m own turned f =
    let start : part'.sb.data_start_lba ≡ part.sb.data_start_lba =
      ap (λ (sb : SuperBlock). sb.data_start_lba) f.same_sb in
    record {
      part_valid = f.part_valid;
      number = subst (Turned false inode.i_no 1 part.inode_bitmap) (sym f.same_inodes) turned;
      freed = λ k s lt ne e. f.freed k s (omega arith) lt ne (omega (arith, e, start));
      zeros = λ k i lt ne. f.zeros k i (omega arith) lt ne;
      others = λ l t out.
          (stays l t out, f.frame l (omega (arith, t.at)) (λ k ge lt ne e. out k lt (sym e)));
      indirect_stays = λ ne. elim own.ind_taken [
        | inl e ↦ absurd (ne e)
        | inr t ↦ stays (inode.i_sectors 12) t (λ k lt e. own.apart k lt (λ z. ne (e ∙ z)) (sym e))
      ];
    }
  where
    stays :
        (l : ℕ)
        → IsTaken part l
        → ((k : ℕ) → k < 140 → l ≢ blocks part.my_disk inode k)
        → IsTaken part' l
    stays l t out = record {
      s = t.s;
      at = t.at ∙ ap (λ (sb : SuperBlock). sb.data_start_lba + t.s) (sym f.same_sb);
      low = omega (arith, t.low, f.same_len);
      used = f.others t.s (λ k ge lt ne e. out k lt (t.at ∙ sym e)) ∙ t.used;
    }

-- `inode_free` of an inode that is open once, of a file that owns its blocks and whose number has its
-- bit in memory, never fails: the inode is closed, the file's blocks are free and hold zeros, its number
-- is free, and every other block in use stays in use with its data, also the one with the addresses.
pub inode_free-Frees :
    (a : ℕ) (s : OpenInodes) (part : Partition)
    → IsFile part (s.inode_at a)
    → IsValid part.inode_bitmap
    → InMemory part.inode_bitmap (s.inode_at a).i_no
    → (s.inode_at a).i_open_cnts ≡ 1
    → (part' : Partition) × (inode_free a s part ≡ ok (inode_close a s, part'))
      × Frees (s.inode_at a) part part'
inode_free-Frees a s part own valid here once =
    let inode = s.inode_at a in
    let m = write part.inode_bitmap inode.i_no false in
    let (part', run, f) =
      free_blocks-Freed 140 0 (blocks part.my_disk inode) (with_inodes part m) (record {
        part_valid = still-IsPartition part m own.part_valid;
        start = own.start;
        taken = λ k ge lt. taken_still k (own.taken k lt);
        distinct = λ k j ge lt ge' lt'. own.distinct k j lt lt';
      }) in
    (
      part',
      inode_free-step a s part part' m (set-ok part.inode_bitmap inode.i_no false here) run once,
      frees inode part part' m own (Turned-write valid inode.i_no false here) f,
    )
  where
    taken_still :
        (k : ℕ)
        → (blocks part.my_disk (s.inode_at a) k ≡ 0)
          ⊎ IsTaken part (blocks part.my_disk (s.inode_at a) k)
        → (blocks part.my_disk (s.inode_at a) k ≡ 0)
          ⊎ IsTaken
              (with_inodes part (write part.inode_bitmap (s.inode_at a).i_no false))
              (blocks part.my_disk (s.inode_at a) k)
    taken_still k (inl e) = inl e
    taken_still k (inr t) = inr (record { s = t.s; at = t.at; low = t.low; used = t.used })

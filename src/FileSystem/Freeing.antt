-- ===== src/FileSystem/Freeing.antt =====
-- fs/inode.c, the loop of `inode_free`.
use recover_os.Prelude.{
  ℕ, zero, suc, ◌+◌, ◌≤◌, ◌<◌, ◌≡◌, refl, sym, ◌∙◌, ap, subst, ◌≢◌, ◌⊎◌, inl, inr, false, arith,
  Run, ok, ◌>>=◌, ◌==◌, if◌then◌else◌, Bool-cases, ==→eq, not_==→ne, ne→not_==,
}
use recover_os.Bitmap.Laws.{bit}
use recover_os.Bitmap.Turned.{Turned}
use recover_os.FileSystem.Partition.{Partition, SuperBlock, block_bitmap_free}
use recover_os.FileSystem.BlockBitmap.{IsPartition, block_bitmap_free-IsPartition}
use recover_os.FileSystem.Free.{free_blocks}
use recover_os.FileSystem.Owning.{IsTaken}

-- What `n` rounds from block `idx` come to: the blocks are free and hold zeros; nothing else changes.
pub record Freed (part part' : Partition) (all : ℕ → ℕ) (idx n : ℕ) : Type 0 where
  pub part_valid : IsPartition part'
  pub same_sb : part'.sb ≡ part.sb
  pub same_len : part'.block_bitmap.bytes_len ≡ part.block_bitmap.bytes_len
  pub same_inodes : part'.inode_bitmap ≡ part.inode_bitmap
  pub freed :
      (k s : ℕ)
      → idx ≤ k
      → k < idx + n
      → all k ≢ 0
      → all k ≡ part.sb.data_start_lba + s
      → bit part'.block_bitmap s ≡ false
  pub zeros : (k i : ℕ) → idx ≤ k → k < idx + n → all k ≢ 0 → part'.my_disk (all k) i ≡ 0
  pub others :
      (s : ℕ)
      → ((k : ℕ) → idx ≤ k → k < idx + n → all k ≢ 0 → all k ≢ part.sb.data_start_lba + s)
      → bit part'.block_bitmap s ≡ bit part.block_bitmap s
  pub frame :
      (l : ℕ)
      → part.sb.data_start_lba ≤ l
      → ((k : ℕ) → idx ≤ k → k < idx + n → all k ≢ 0 → all k ≢ l)
      → part'.my_disk l ≡ part.my_disk l

-- The blocks that the rounds are to free are in use, each once.
pub record ToFree (part : Partition) (all : ℕ → ℕ) (idx n : ℕ) : Type 0 where
  pub part_valid : IsPartition part
  pub start : 0 < part.sb.data_start_lba
  pub taken : (k : ℕ) → idx ≤ k → k < idx + n → (all k ≡ 0) ⊎ IsTaken part (all k)
  pub distinct :
      (k j : ℕ) → idx ≤ k → k < idx + n → idx ≤ j → j < idx + n → all k ≢ 0 → all k ≡ all j → k ≡ j

-- One round
abbrev round : (idx : ℕ) (all : ℕ → ℕ) → Partition → Run Partition
round idx all part = if all idx == 0 then ok part else block_bitmap_free (all idx) part

round-Freed :
    (idx : ℕ) (all : ℕ → ℕ) (part : Partition)
    → IsPartition part
    → 0 < part.sb.data_start_lba
    → (all idx ≡ 0) ⊎ IsTaken part (all idx)
    → (part' : Partition) × (round idx all part ≡ ok part') × Freed part part' all idx 1
round-Freed idx all part v start (inl e) = (
  part,
  rw (e) refl,
  record {
    part_valid = v;
    same_sb = refl;
    same_len = refl;
    same_inodes = refl;
    freed = λ k s ge lt ne. absurd (ne (ap all (omega (arith, ge, lt)) ∙ e));
    zeros = λ k i ge lt ne. absurd (ne (ap all (omega (arith, ge, lt)) ∙ e));
    others = λ s out. refl;
    frame = λ l le out. refl;
  },
)
round-Freed idx all part v start (inr t) =
    let (part', run, v', turned, empty, frame, sb, inodes) =
      block_bitmap_free-IsPartition part t.s v t.low in
    (
      part',
      rw (ne→not_== (all idx) 0 block-ne, if◌then◌else◌)
          (ap (λ l. block_bitmap_free l part) t.at ∙ run),
      freed part' v' turned empty frame sb inodes,
    )
  where
    block-ne : all idx ≢ 0
    block-ne = omega (arith, t.at, start)

    freed :
        (part' : Partition)
        → IsPartition part'
        → Turned false t.s 1 part.block_bitmap part'.block_bitmap
        → ((i : ℕ) → part'.my_disk (part.sb.data_start_lba + t.s) i ≡ 0)
        → ((l : ℕ)
            → part.sb.data_start_lba ≤ l
            → l ≢ part.sb.data_start_lba + t.s
            → part'.my_disk l ≡ part.my_disk l)
        → (part'.sb ≡ part.sb)
        → (part'.inode_bitmap ≡ part.inode_bitmap)
        → Freed part part' all idx 1
    freed part' v' turned empty frame sb inodes = record {
      part_valid = v';
      same_sb = sb;
      same_len = turned.same_len;
      same_inodes = inodes;
      freed = λ k s ge lt ne e.
          let this : k ≡ idx = omega (arith, ge, lt) in
          let same : s ≡ t.s = omega (arith, e, ap all this, t.at) in
          ground (arith, turned.bits s, same);
      zeros = λ k i ge lt ne.
          ap (λ l. part'.my_disk l i) (ap all (omega (arith, ge, lt)) ∙ t.at) ∙ empty i;
      others = λ s out.
          let ne : s ≢ t.s = (λ e.
            out idx (omega arith) (omega arith) block-ne
              (t.at ∙ ap (λ x. part.sb.data_start_lba + x) (sym e))) in
          ground (arith, turned.bits s, ne);
      frame =
          λ l le out. frame l le (λ e. out idx (omega arith) (omega arith) block-ne (t.at ∙ sym e));
    }

-- A round and those behind it
module _ (n idx : ℕ) (all : ℕ → ℕ) (part part1 : Partition) (t : ToFree part all idx (suc n))
    (f1 : Freed part part1 all idx 1) where
  same_start : part1.sb.data_start_lba ≡ part.sb.data_start_lba
  same_start = ap (λ (sb : SuperBlock). sb.data_start_lba) f1.same_sb

  -- A later block is not the one of this round.
  later-ne : (k : ℕ) → idx + 1 ≤ k → k < idx + 1 + n → all idx ≢ 0 → all idx ≢ all k
  later-ne k ge lt ne e = omega (
    arith,
    ge,
    t.distinct idx k (omega arith) (omega arith) (omega (arith, ge)) (omega (arith, lt)) ne e,
  )

  this-low : all idx ≢ 0 → part1.sb.data_start_lba ≤ all idx
  this-low ne = elim (t.taken idx (omega arith) (omega arith)) [
    | inl e ↦ absurd (ne e)
    | inr here ↦ omega (arith, here.at, same_start)
  ]

  next-ToFree : ToFree part1 all (idx + 1) n
  next-ToFree = record {
    part_valid = f1.part_valid;
    start = omega (arith, t.start, same_start);
    taken = λ k ge lt. elim (t.taken k (omega (arith, ge)) (omega (arith, lt))) [
      | inl e ↦ inl e
      | inr tk ↦ inr (record {
        s = tk.s;
        at = omega (arith, tk.at, same_start);
        low = omega (arith, tk.low, f1.same_len);
        used =
            f1.others tk.s (λ j ge' lt' ne e.
              let this : j ≡ idx = omega (arith, ge', lt') in
              later-ne k ge lt (λ z. ne (ap all this ∙ z)) (ap all (sym this) ∙ e ∙ sym tk.at))
            ∙ tk.used;
      })
    ];
    distinct = λ k j ge lt ge' lt'.
        t.distinct k j (omega (arith, ge)) (omega (arith, lt)) (omega (arith, ge'))
          (omega (arith, lt'));
  }

  all-Freed :
      (part' : Partition) → Freed part1 part' all (idx + 1) n → Freed part part' all idx (suc n)
  all-Freed part' f = record {
    part_valid = f.part_valid;
    same_sb = f.same_sb ∙ f1.same_sb;
    same_len = f.same_len ∙ f1.same_len;
    same_inodes = f.same_inodes ∙ f1.same_inodes;
    freed = λ k s ge lt ne e. elim (Bool-cases (k == idx)) [
      | inl here ↦
          let this = ==→eq k idx here in
          f.others s (λ j ge' lt' ne' e'.
            later-ne j ge' lt' (λ z. ne (ap all this ∙ z))
              (ap all (sym this) ∙ e ∙ omega (arith, e', same_start)))
          ∙ f1.freed k s ge (omega (arith, this)) ne e
      | inr later ↦
          f.freed k s (omega (arith, ge, not_==→ne k idx later)) (omega (arith, lt)) ne
            (omega (arith, e, same_start))
    ];
    zeros = λ k i ge lt ne. elim (Bool-cases (k == idx)) [
      | inl here ↦
          let this = ==→eq k idx here in
          ap (λ (x : ℕ → ℕ). x i)
            (f.frame (all k)
              (subst (λ j. part1.sb.data_start_lba ≤ all j) (sym this)
                (this-low (λ z. ne (ap all this ∙ z))))
              (λ j ge' lt' ne' e.
                later-ne j ge' lt' (λ z. ne (ap all this ∙ z)) (ap all (sym this) ∙ sym e)))
          ∙ f1.zeros k i ge (omega (arith, this)) ne
      | inr later ↦ f.zeros k i (omega (arith, ge, not_==→ne k idx later)) (omega (arith, lt)) ne
    ];
    others = λ s out.
        f.others s (λ k ge lt ne e.
          out k (omega (arith, ge)) (omega (arith, lt)) ne (omega (arith, e, same_start)))
        ∙ f1.others s (λ k ge lt. out k ge (omega (arith, lt)));
    frame = λ l le out.
        f.frame l (omega (arith, le, same_start))
          (λ k ge lt. out k (omega (arith, ge)) (omega (arith, lt)))
        ∙ f1.frame l le (λ k ge lt. out k ge (omega (arith, lt)));
  }

free_blocks-suc :
    (n idx : ℕ) (all : ℕ → ℕ) (part part1 : Partition)
    → round idx all part ≡ ok part1
    → free_blocks (suc n) idx all part ≡ free_blocks n (idx + 1) all part1
unfolding free_blocks
free_blocks-suc n idx all part part1 run =
    ap (λ r. r >>= λ part. free_blocks n (idx + 1) all part) run

pub free_blocks-Freed :
    (n idx : ℕ) (all : ℕ → ℕ) (part : Partition)
    → ToFree part all idx n
    → (part' : Partition) × (free_blocks n idx all part ≡ ok part') × Freed part part' all idx n
unfolding free_blocks
free_blocks-Freed zero idx all part t = (
  part,
  refl,
  record {
    part_valid = t.part_valid;
    same_sb = refl;
    same_len = refl;
    same_inodes = refl;
    freed = λ k s ge lt. absurd (omega (arith, ge, lt));
    zeros = λ k i ge lt. absurd (omega (arith, ge, lt));
    others = λ s out. refl;
    frame = λ l le out. refl;
  },
)
free_blocks-Freed (suc n) idx all part t =
    let (part1, run1, f1) =
      round-Freed idx all part t.part_valid t.start (t.taken idx (omega arith) (omega arith)) in
    let (part', run, f) =
      free_blocks-Freed n (idx + 1) all part1 (next-ToFree n idx all part part1 t f1) in
    (
      part',
      free_blocks-suc n idx all part part1 run1 ∙ run,
      all-Freed n idx all part part1 t f1 part' f,
    )

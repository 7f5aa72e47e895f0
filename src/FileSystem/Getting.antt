-- ===== src/FileSystem/Getting.antt =====
-- `alloc_block` and `block_of`: how a file gets blocks.
use recover_os.Prelude.{
  ℕ, ◌+◌, ◌-◌, ◌*◌, ◌%◌, ◌^◌, ◌≤◌, ◌<◌, ◌≡◌, refl, sym, ◌∙◌, ap, subst, ◌≢◌, ◌⊎◌, inl, inr, arith,
  Option, none, some, ok, ◌>>=◌, ◌==◌, if◌then◌else◌, Bool-cases, ==→eq, ne→not_==, ==_self,
}
use recover_os.Bitmap.Laws.{bit}
use recover_os.Bitmap.Turned.{Used}
use recover_os.FileSystem.Partition.{Partition, SuperBlock, block_bitmap_alloc}
use recover_os.FileSystem.BlockBitmap.{IsPartition, AllocatesBlock, block_bitmap_alloc-IsPartition}
use recover_os.FileSystem.Write.{alloc_block, block_of}
use recover_os.FileSystem.Owning.{IsTaken, IsOwner, Keeps, Keeps-refl, IsTaken-kept, WasFree}

-- What `alloc_block` comes to: nothing where all blocks are in use, or a block that was free.
pub record Allocs (part part' : Partition) (lba : ℕ) : Type 0 where
  pub keeps : Keeps part part'
  pub part_valid : IsPartition part'
  pub now_taken : IsTaken part' lba
  pub was_free : WasFree part lba
  pub same_data : (l : ℕ) → part.sb.data_start_lba ≤ l → part'.my_disk l ≡ part.my_disk l

alloc_block-step :
    (part part' : Partition) (b : ℕ)
    → block_bitmap_alloc part ≡ ok (some b, part')
    → b < 2 ^ 32 - 1
    → alloc_block part ≡ ok (some b, part')
unfolding alloc_block
alloc_block-step part part' b run lt =
    let same : b % 2 ^ 32 ≡ b = omega (arith, lt) in
    rw (run, ◌>>=◌, same, ne→not_== b (2 ^ 32 - 1) (omega (arith, lt))) refl

alloc_block-full :
    (part part' : Partition)
    → block_bitmap_alloc part ≡ ok (none, part')
    → alloc_block part ≡ ok (none, part')
unfolding alloc_block
alloc_block-full part part' run = rw (run, ◌>>=◌) refl

pub alloc_block-Allocs :
    (part : Partition)
    → IsPartition part
    → ((alloc_block part ≡ ok (none, part))
        × Used part.block_bitmap 0 (8 * part.block_bitmap.bytes_len))
      ⊎ ((b : ℕ) × (part' : Partition) × (alloc_block part ≡ ok (some b, part'))
          × Allocs part part' b)
alloc_block-Allocs part v = go (block_bitmap_alloc-IsPartition part v)
  where
    go :
        (r : Option ℕ) × (part' : Partition) × (block_bitmap_alloc part ≡ ok (r, part'))
          × IsPartition part'
          × AllocatesBlock part (r, part')
        → ((alloc_block part ≡ ok (none, part))
            × Used part.block_bitmap 0 (8 * part.block_bitmap.bytes_len))
          ⊎ ((b : ℕ) × (part' : Partition) × (alloc_block part ≡ ok (some b, part'))
              × Allocs part part' b)
    go (none, part', run, v', (same, used)) =
        inl (alloc_block-full part part' run ∙ ap (λ p. ok (none, p)) same, used)
    go (some b, part', run, v', (s, at, low, clear, first, t, same_sb, data_same)) = inr (
      b,
      part',
      alloc_block-step part part' b run (omega (arith, at, low, v.word, v.within)),
      record {
        keeps = record {
          same_sb = same_sb;
          same_len = t.same_len;
          used = λ j u. ground (arith, t.bits j);
        };
        part_valid = v';
        now_taken = record {
          s = s;
          at = at ∙ ap (λ (sb : SuperBlock). sb.data_start_lba + s) (sym same_sb);
          low = omega (arith, low, t.same_len);
          used = ground (arith, t.bits s);
        };
        was_free = (s, at, low, clear);
        same_data = data_same;
      },
    )

-- A block that was free is not one that was in use.
pub free-ne-taken : (part : Partition) (b lba : ℕ) → WasFree part b → IsTaken part lba → b ≢ lba
free-ne-taken part b lba (s, at, low, clear) t e =
    let same : s ≡ t.s = omega (arith, at, t.at, e) in
    ground (arith, ap (bit part.block_bitmap) same, clear, t.used)

module _ (part part' : Partition) (all : ℕ → ℕ) (ind b : ℕ) (own : IsOwner part all ind)
    (a : Allocs part part' b) where
  start' : 0 < part'.sb.data_start_lba
  start' = subst (λ (sb : SuperBlock). 0 < sb.data_start_lba) (sym a.keeps.same_sb) own.start

  still_taken : (lba : ℕ) → (lba ≡ 0) ⊎ IsTaken part lba → (lba ≡ 0) ⊎ IsTaken part' lba
  still_taken lba (inl e) = inl e
  still_taken lba (inr t) = inr (IsTaken-kept part part' lba a.keeps t)

  b-ne-0 : b ≢ 0
  b-ne-0 = omega (arith, a.now_taken.at, start')

  new-ne : (lba : ℕ) → (lba ≡ 0) ⊎ IsTaken part lba → b ≢ lba
  new-ne lba (inl e) same = b-ne-0 (same ∙ e)
  new-ne lba (inr t) same = free-ne-taken part b lba a.was_free t same

  -- The file gets the block at index `i`.
  pub block-IsOwner :
      (i : ℕ) → i < 140 → all i ≡ 0 → IsOwner part' (λ k. if k == i then b else all k) ind
  block-IsOwner i lt none_yet = record {
    part_valid = a.part_valid;
    start = start';
    taken = λ k low. elim (Bool-cases (k == i)) [
      | inl here ↦ rw (here, if◌then◌else◌) (inr a.now_taken)
      | inr other ↦ rw (other, if◌then◌else◌) (still_taken (all k) (own.taken k low))
    ];
    ind_taken = still_taken ind own.ind_taken;
    distinct = λ k j lk lj. apart_from k j lk lj;
    apart = λ k low ne e. elim (Bool-cases (k == i)) [
      | inl here ↦ new-ne ind own.ind_taken (ground (arith, here, e))
      | inr other ↦ own.apart k low (ground (arith, other, ne)) (ground (arith, other, e))
    ];
  }
    where
      apart_from :
          (k j : ℕ)
          → k < 140
          → j < 140
          → (if k == i then b else all k) ≢ 0
          → (if k == i then b else all k) ≡ (if j == i then b else all j)
          → k ≡ j
      apart_from k j lk lj ne e = elim (Bool-cases (k == i)) [
        | inl here ↦ elim (Bool-cases (j == i)) [
          | inl here' ↦ ==→eq k i here ∙ sym (==→eq j i here')
          | inr other ↦ absurd (new-ne (all j) (own.taken j lj) (ground (arith, here, other, e)))
        ]
        | inr other ↦ elim (Bool-cases (j == i)) [
          | inl here ↦ absurd (new-ne (all k) (own.taken k lk) (ground (arith, here, other, e)))
          | inr other' ↦
              own.distinct k j lk lj (ground (arith, other, ne)) (ground (arith, other, other', e))
        ]
      ]

  -- The file gets it for addresses.
  pub ind-IsOwner : ind ≡ 0 → IsOwner part' all b
  ind-IsOwner none_yet = record {
    part_valid = a.part_valid;
    start = start';
    taken = λ k low. still_taken (all k) (own.taken k low);
    ind_taken = inr a.now_taken;
    distinct = own.distinct;
    apart = λ k low ne e. new-ne (all k) (own.taken k low) (sym e);
  }

-- What `block_of` comes to: the file has the block, a new one if there was none; no sector of data
-- changes.
pub record HasBlock (part part' : Partition) (all all' : ℕ → ℕ) (ind i : ℕ) : Type 0 where
  pub keeps : Keeps part part'
  pub own : IsOwner part' all' ind
  pub there : IsTaken part' (all' i)
  pub others : (k : ℕ) → k ≢ i → all' k ≡ all k
  pub same_block : (all i ≡ 0) ⊎ (all' i ≡ all i)
  pub new_or_old : (all' i ≡ all i) ⊎ WasFree part (all' i)
  pub same_data : (l : ℕ) → part.sb.data_start_lba ≤ l → part'.my_disk l ≡ part.my_disk l

block_of-new :
    (i : ℕ) (all : ℕ → ℕ) (part part' : Partition) (b : ℕ)
    → all i ≡ 0
    → alloc_block part ≡ ok (some b, part')
    → block_of i all part ≡ ok (some (λ k. if k == i then b else all k), part')
unfolding block_of
block_of-new i all part part' b none_yet run = rw (none_yet, run, ◌>>=◌) refl

block_of-full :
    (i : ℕ) (all : ℕ → ℕ) (part : Partition)
    → all i ≡ 0
    → alloc_block part ≡ ok (none, part)
    → block_of i all part ≡ ok (none, part)
unfolding block_of
block_of-full i all part none_yet run = rw (none_yet, run, ◌>>=◌) refl

block_of-old :
    (i : ℕ) (all : ℕ → ℕ) (part : Partition) → all i ≢ 0 → block_of i all part ≡ ok (some all, part)
unfolding block_of
block_of-old i all part ne = rw (ne→not_== (all i) 0 ne) refl

pub block_of-HasBlock :
    (i : ℕ) (all : ℕ → ℕ) (ind : ℕ) (part : Partition)
    → i < 140
    → IsOwner part all ind
    → ((block_of i all part ≡ ok (none, part))
        × Used part.block_bitmap 0 (8 * part.block_bitmap.bytes_len))
      ⊎ ((all' : ℕ → ℕ) × (part' : Partition) × (block_of i all part ≡ ok (some all', part'))
          × HasBlock part part' all all' ind i)
block_of-HasBlock i all ind part lt own = elim (own.taken i lt) [
  | inr t ↦ inr (
    all,
    part,
    block_of-old i all part (omega (arith, t.at, own.start)),
    record {
      keeps = Keeps-refl part;
      own = own;
      there = t;
      others = λ k ne. refl;
      same_block = inr refl;
      new_or_old = inl refl;
      same_data = λ l le. refl;
    },
  )
  | inl none_yet ↦ elim (alloc_block-Allocs part own.part_valid) [
    | inl (run, full) ↦ inl (block_of-full i all part none_yet run, full)
    | inr (b, part', run, a) ↦
        let own' = block-IsOwner part part' all ind b own a i lt none_yet in
        inr (
          (λ k. if k == i then b else all k),
          part',
          block_of-new i all part part' b none_yet run,
          record {
            keeps = a.keeps;
            own = own';
            there = rw (==_self i, if◌then◌else◌) a.now_taken;
            others = λ k ne. rw (ne→not_== k i ne) refl;
            same_block = inl none_yet;
            new_or_old = inr (rw (==_self i, if◌then◌else◌) a.was_free);
            same_data = a.same_data;
          },
        )
  ]
]

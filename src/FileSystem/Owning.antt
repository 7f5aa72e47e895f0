-- ===== src/FileSystem/Owning.antt =====
-- The blocks that a file owns, the one with its block addresses included.
use recover_os.Prelude.{
  ℕ, ◌+◌, ◌*◌, ◌/◌, ◌%◌, ◌≤◌, ◌<◌, ◌≡◌, refl, sym, ◌∙◌, ap, subst, ◌≢◌, ◌⊎◌, inl, inr, Bool, true,
  false, arith, if◌then◌else◌, Bool-cases, ne→not_==,
}
use recover_os.Bitmap.{Bitmap}
use recover_os.Bitmap.Byte.{test_bit}
use recover_os.Bitmap.Laws.{bit}
use recover_os.FileSystem.Disk.{Buffer}
use recover_os.FileSystem.Partition.{Partition, SuperBlock, ide_write}
use recover_os.FileSystem.BlockBitmap.{IsPartition}

-- The address of a block that is in use
pub record IsTaken (part : Partition) (lba : ℕ) : Type 0 where
  pub s : ℕ
  pub at : lba ≡ part.sb.data_start_lba + s
  pub low : s < 8 * part.block_bitmap.bytes_len
  pub used : bit part.block_bitmap s ≡ true

-- `all` are the addresses of a file's blocks, and `ind` is the one of the block that holds addresses;
-- one that is not there is 0.
pub record IsOwner (part : Partition) (all : ℕ → ℕ) (ind : ℕ) : Type 0 where
  pub part_valid : IsPartition part
  pub start : 0 < part.sb.data_start_lba
  pub taken : (k : ℕ) → k < 140 → (all k ≡ 0) ⊎ IsTaken part (all k)
  pub ind_taken : (ind ≡ 0) ⊎ IsTaken part ind
  pub distinct : (k j : ℕ) → k < 140 → j < 140 → all k ≢ 0 → all k ≡ all j → k ≡ j
  pub apart : (k : ℕ) → k < 140 → all k ≢ 0 → all k ≢ ind

-- What an allocation for a file keeps: the super block, the blocks in use and the sectors of data.
pub record Keeps (part part' : Partition) : Type 0 where
  pub same_sb : part'.sb ≡ part.sb
  pub same_len : part'.block_bitmap.bytes_len ≡ part.block_bitmap.bytes_len
  pub used : (s : ℕ) → bit part.block_bitmap s ≡ true → bit part'.block_bitmap s ≡ true

pub Keeps-refl : (part : Partition) → Keeps part part
Keeps-refl part = record { same_sb = refl; same_len = refl; used = λ s u. u }

pub Keeps-trans : {a b c : Partition} → Keeps a b → Keeps b c → Keeps a c
Keeps-trans k l = record {
  same_sb = l.same_sb ∙ k.same_sb;
  same_len = l.same_len ∙ k.same_len;
  used = λ s u. l.used s (k.used s u);
}

pub IsTaken-kept :
    (part part' : Partition) (lba : ℕ) → Keeps part part' → IsTaken part lba → IsTaken part' lba
IsTaken-kept part part' lba k t = record {
  s = t.s;
  at = t.at ∙ ap (λ (sb : SuperBlock). sb.data_start_lba + t.s) (sym k.same_sb);
  low = omega (arith, t.low, k.same_len);
  used = k.used t.s t.used;
}

-- The block at `lba` was free in `part`.
abbrev pub WasFree : Partition → ℕ → Type 0
WasFree part lba =
    (s : ℕ) × (lba ≡ part.sb.data_start_lba + s)
    × (s < 8 * part.block_bitmap.bytes_len)
    × (bit part.block_bitmap s ≡ false)

pub WasFree-back :
    (part part' : Partition) (lba : ℕ) → Keeps part part' → WasFree part' lba → WasFree part lba
WasFree-back part part' lba k (s, at, low, clear) = (
  s,
  at ∙ ap (λ (sb : SuperBlock). sb.data_start_lba + s) k.same_sb,
  omega (arith, low, k.same_len),
  elim (Bool-cases (bit part.block_bitmap s)) [
    | inl used ↦ ground (arith, clear, k.used s used)
    | inr free ↦ free
  ],
)

-- A sector is written.
abbrev pub written : Partition → (lba : ℕ) → Buffer → Partition
written part lba x = record part { my_disk = ide_write part.my_disk lba x }

pub Keeps-written : (part : Partition) (lba : ℕ) (x : Buffer) → Keeps part (written part lba x)
Keeps-written part lba x = record { same_sb = refl; same_len = refl; used = λ s u. u }

pub IsTaken-written :
    (part : Partition) (lba : ℕ) (x : Buffer) (l : ℕ)
    → IsTaken part l
    → IsTaken (written part lba x) l
IsTaken-written part lba x l t = record { s = t.s; at = t.at; low = t.low; used = t.used }

pub IsPartition-written :
    (part : Partition) (lba : ℕ) (x : Buffer)
    → IsPartition part
    → part.sb.block_bitmap_lba + part.sb.block_bitmap_sects ≤ lba
    → IsPartition (written part lba x)
IsPartition-written part lba x v behind = record {
  valid = v.valid;
  within = v.within;
  memory = v.memory;
  in_front = v.in_front;
  word = v.word;
  in_step = λ t lt.
      ap
        (λ (b : Bool).
          test_bit
            ((if b then x else part.my_disk (part.sb.block_bitmap_lba + t / 4096)) (t % 4096 / 8))
            (t % 8))
        (ne→not_== (part.sb.block_bitmap_lba + t / 4096) lba (omega (arith, behind)))
      ∙ v.in_step t lt;
}

pub IsOwner-written :
    (part : Partition) (all : ℕ → ℕ) (ind lba : ℕ) (x : Buffer)
    → IsOwner part all ind
    → part.sb.block_bitmap_lba + part.sb.block_bitmap_sects ≤ lba
    → IsOwner (written part lba x) all ind
IsOwner-written part all ind lba x own behind = record {
  part_valid = IsPartition-written part lba x own.part_valid behind;
  start = own.start;
  taken = λ k low. keep (all k) (own.taken k low);
  ind_taken = keep ind own.ind_taken;
  distinct = own.distinct;
  apart = own.apart;
}
  where
    keep : (l : ℕ) → (l ≡ 0) ⊎ IsTaken part l → (l ≡ 0) ⊎ IsTaken (written part lba x) l
    keep l (inl e) = inl e
    keep l (inr t) = inr (IsTaken-written part lba x l t)

-- The blocks of a file are its own after what is done for it elsewhere.
pub IsOwner-kept :
    (part part' : Partition) (all : ℕ → ℕ) (ind : ℕ)
    → Keeps part part'
    → IsPartition part'
    → IsOwner part all ind
    → IsOwner part' all ind
IsOwner-kept part part' all ind k v own = record {
  part_valid = v;
  start = subst (λ (sb : SuperBlock). 0 < sb.data_start_lba) (sym k.same_sb) own.start;
  taken = λ j low. keep (all j) (own.taken j low);
  ind_taken = keep ind own.ind_taken;
  distinct = own.distinct;
  apart = own.apart;
}
  where
    keep : (l : ℕ) → (l ≡ 0) ⊎ IsTaken part l → (l ≡ 0) ⊎ IsTaken part' l
    keep l (inl e) = inl e
    keep l (inr t) = inr (IsTaken-kept part part' l k t)

-- It is the first 140 addresses that count.
pub IsOwner-same :
    (part : Partition) (all all' : ℕ → ℕ) (ind : ℕ)
    → ((k : ℕ) → k < 140 → all' k ≡ all k)
    → IsOwner part all ind
    → IsOwner part all' ind
IsOwner-same part all all' ind same own = record {
  part_valid = own.part_valid;
  start = own.start;
  taken = λ k low. subst (λ l. (l ≡ 0) ⊎ IsTaken part l) (sym (same k low)) (own.taken k low);
  ind_taken = own.ind_taken;
  distinct = λ k j lk lj ne e.
      own.distinct k j lk lj (λ z. ne (same k lk ∙ z)) (sym (same k lk) ∙ e ∙ same j lj);
  apart = λ k low ne e. own.apart k low (λ z. ne (same k low ∙ z)) (sym (same k low) ∙ e);
}

-- The bitmap of inodes is another.
abbrev pub with_inodes : Partition → Bitmap → Partition
with_inodes part m = record part { inode_bitmap = m }

pub still-IsPartition :
    (part : Partition) (m : Bitmap) → IsPartition part → IsPartition (with_inodes part m)
still-IsPartition part m v = record {
  valid = v.valid;
  within = v.within;
  memory = v.memory;
  in_front = v.in_front;
  word = v.word;
  in_step = v.in_step;
}

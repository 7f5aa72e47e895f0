-- ===== src/FileSystem/BlockBitmap.antt =====
-- The block bitmap of a partition in memory and on its disk.
use recover_os.Prelude.{
  ==→eq, ℕ, ◌+◌, ◌-◌, ◌*◌, ◌/◌, ◌%◌, ◌^◌, ◌≤◌, ◌<◌, ◌≡◌, refl, ◌∙◌, ap, ◌≢◌, inl, inr, Bool, true,
  false, arith, Option, none, some, ok, ◌>>=◌, leb, ◌==◌, if◌then◌else◌, Bool-cases, length, get_or,
  ne→not_==,
}
use recover_os.Bitmap.{Bitmap, bitmap_alloc_a_bit}
use recover_os.Bitmap.Byte.{test_bit}
use recover_os.Bitmap.Laws.{bit, IsValid, write, set-ok}
use recover_os.Bitmap.Turned.{Used, Turned, Turned-write}
use recover_os.Bitmap.Alloc.{TakesFirst, bitmap_alloc_a_bit-TakesFirst}
use recover_os.FileSystem.Disk.{Buffer, Disk}
use recover_os.FileSystem.Partition.{
  Partition, ide_write, write_bitmap_sector, block_bitmap_alloc, block_bitmap_free,
}

-- Bit `t` of the bitmap that is on the disk.
abbrev pub disk_bit : Partition → ℕ → Bool
disk_bit part t =
    test_bit (part.my_disk (part.sb.block_bitmap_lba + t / 4096) (t % 4096 / 8)) (t % 8)

-- The bitmap fills its sectors, these are in front of the data, and what is on the disk is what is
-- in memory.
pub record IsPartition (part : Partition) : Type 0 where
  pub valid : IsValid part.block_bitmap
  pub within : part.block_bitmap.bytes_len ≤ part.sb.block_bitmap_sects * 512
  pub memory : length part.block_bitmap.bits ≡ part.sb.block_bitmap_sects * 512
  pub in_front : part.sb.block_bitmap_lba + part.sb.block_bitmap_sects ≤ part.sb.data_start_lba
  pub word : part.sb.data_start_lba + 4096 * part.sb.block_bitmap_sects < 2 ^ 32
  pub in_step :
      (t : ℕ) → t < 4096 * part.sb.block_bitmap_sects → disk_bit part t ≡ bit part.block_bitmap t

-- One bit is turned in memory and its sector written.
module _ (part : Partition) (v : IsPartition part) (s : ℕ) (b : Bool) (m : Bitmap) (disk : Disk)
    (t : Turned b s 1 part.block_bitmap m) (low : s < 4096 * part.sb.block_bitmap_sects)
    (same : (l : ℕ) → l < part.sb.data_start_lba → disk l ≡ part.my_disk l) where
  abbrev pub turned_part : Partition
  turned_part = record part { block_bitmap = m; my_disk = disk }

  abbrev pub written_part : Partition
  written_part = record turned_part {
    my_disk =
        ide_write disk (part.sb.block_bitmap_lba + s / 4096)
          (λ i. get_or m.bits (s / 4096 * 512 + i) 0);
  }

  pub write_bitmap_sector-ok : write_bitmap_sector s turned_part ≡ ok written_part
  unfolding write_bitmap_sector
  write_bitmap_sector-ok =
      let lba : (part.sb.block_bitmap_lba + s / 4096) % 2 ^ 32
          ≡ part.sb.block_bitmap_lba + s / 4096 =
        omega (arith, v.word, v.in_front) in
      let fits : leb (s / 4096 * 512 + 512) (length m.bits) ≡ true =
        ground (arith, t.same_memory, v.memory) in
      rw (fits, lba) refl

  unturned : (j : ℕ) → j ≢ s → bit part.block_bitmap j ≡ bit m j
  unturned j ne = ground (arith, t.bits j)

  written-in_step :
      (j : ℕ) → j < 4096 * part.sb.block_bitmap_sects → disk_bit written_part j ≡ bit m j
  unfolding bit
  written-in_step j lt = elim (Bool-cases (j / 4096 == s / 4096)) [
    | inl here ↦
        let at : (part.sb.block_bitmap_lba + j / 4096 == part.sb.block_bitmap_lba + s / 4096)
            ≡ true =
          ground (arith, here) in
        rw (at, if◌then◌else◌)
          (ap (λ i. test_bit (get_or m.bits i 0) (j % 8)) {x = s / 4096 * 512 + j % 4096 / 8}
            {y = j / 8} (omega (arith, ==→eq (j / 4096) (s / 4096) here)))
    | inr other ↦
        let at : (part.sb.block_bitmap_lba + j / 4096 == part.sb.block_bitmap_lba + s / 4096)
            ≡ false =
          ground (arith, other) in
        rw (at, if◌then◌else◌)
          (ap (λ (d : Buffer). test_bit (d (j % 4096 / 8)) (j % 8))
              (same (part.sb.block_bitmap_lba + j / 4096) (omega (arith, v.in_front)))
            ∙ v.in_step j lt
            ∙ unturned j (ground (arith, other)))
  ]

  pub written-IsPartition : IsPartition written_part
  written-IsPartition = record {
    valid = t.valid;
    within = omega (arith, t.same_len, v.within);
    memory = t.same_memory ∙ v.memory;
    in_front = v.in_front;
    word = v.word;
    in_step = written-in_step;
  }

-- What `block_bitmap_alloc` comes to: -1, with nothing changed, where every block is in use; or the
-- first free block, which is now in use, and no sector from the data on has changed.
abbrev pub AllocatesBlock : Partition → Option ℕ × Partition → Type 0
AllocatesBlock part (none, part') =
    (part' ≡ part) × Used part.block_bitmap 0 (8 * part.block_bitmap.bytes_len)
AllocatesBlock part (some lba, part') =
    (s : ℕ) × (lba ≡ part.sb.data_start_lba + s)
    × (s < 8 * part.block_bitmap.bytes_len)
    × (bit part.block_bitmap s ≡ false)
    × ((k : ℕ) → k < s → bit part.block_bitmap k ≡ true)
    × Turned true s 1 part.block_bitmap part'.block_bitmap
    × (part'.sb ≡ part.sb)
    × ((l : ℕ) → part.sb.data_start_lba ≤ l → part'.my_disk l ≡ part.my_disk l)

-- `block_bitmap_alloc` on a partition in order never fails and keeps it in order, the bitmap on the
-- disk in step with the one in memory: it returns -1 and changes nothing where every block is in
-- use, or the first free block, which is then in use, and leaves the super block and the sectors of
-- data alone.
pub block_bitmap_alloc-IsPartition :
    (part : Partition)
    → IsPartition part
    → (r : Option ℕ) × (part' : Partition) × (block_bitmap_alloc part ≡ ok (r, part'))
      × IsPartition part'
      × AllocatesBlock part (r, part')
unfolding block_bitmap_alloc
block_bitmap_alloc-IsPartition part v = go (bitmap_alloc_a_bit-TakesFirst part.block_bitmap v.valid)
  where
    go :
        (r : Option ℕ × Bitmap) × (bitmap_alloc_a_bit part.block_bitmap ≡ ok r)
          × TakesFirst part.block_bitmap 0 (8 * part.block_bitmap.bytes_len) r
        → (r : Option ℕ) × (part' : Partition) × (block_bitmap_alloc part ≡ ok (r, part'))
          × IsPartition part'
          × AllocatesBlock part (r, part')
    go ((none, m), run, (same, used)) = (none, part, rw (run, ◌>>=◌, same) refl, v, (refl, used))
    go ((some s, m), run, (low, high, clear, first, t)) =
        let part' =
          written_part part v s true m part.my_disk t (omega (arith, v.within)) (λ l lt. refl) in
        (
          some (part.sb.data_start_lba + s),
          part',
          rw
              (
                run,
                ◌>>=◌,
                write_bitmap_sector-ok part v s true m part.my_disk t (omega (arith, v.within))
                    (λ l lt. refl),
              )
              refl,
          written-IsPartition part v s true m part.my_disk t (omega (arith, v.within))
              (λ l lt. refl),
          (
            s,
            refl,
            omega arith,
            clear,
            λ k lt. first k (omega arith) (omega arith),
            t,
            refl,
            λ l le. ground (arith, v.in_front, v.within),
          ),
        )

-- `block_bitmap_free` of a block of a partition in order never fails and keeps it in order: the block
-- is free, its sector is zeros, and the other sectors of data, the super block and the bitmap of inodes
-- are as they were.
pub block_bitmap_free-IsPartition :
    (part : Partition) (s : ℕ)
    → IsPartition part
    → s < 8 * part.block_bitmap.bytes_len
    → (part' : Partition) × (block_bitmap_free (part.sb.data_start_lba + s) part ≡ ok part')
      × IsPartition part'
      × Turned false s 1 part.block_bitmap part'.block_bitmap
      × ((i : ℕ) → part'.my_disk (part.sb.data_start_lba + s) i ≡ 0)
      × ((l : ℕ)
          → part.sb.data_start_lba ≤ l
          → l ≢ part.sb.data_start_lba + s
          → part'.my_disk l ≡ part.my_disk l)
      × (part'.sb ≡ part.sb)
      × (part'.inode_bitmap ≡ part.inode_bitmap)
unfolding block_bitmap_free
block_bitmap_free-IsPartition part s v low =
    let lba = part.sb.data_start_lba + s in
    let here : s / 8 < length part.block_bitmap.bits = omega (arith, v.within, v.memory) in
    let m = write part.block_bitmap s false in
    let t = Turned-write v.valid s false here in
    let disk = ide_write part.my_disk lba (λ _. 0) in
    let below : (l : ℕ) → l < part.sb.data_start_lba → disk l ≡ part.my_disk l = λ l lt.
      ap (λ (b : Bool). if b then (λ _. 0) else part.my_disk l) (ne→not_== l lba (omega arith)) in
    let index : (lba + 2 ^ 64 - part.sb.data_start_lba) % 2 ^ 64 ≡ s =
      omega (arith, v.word, v.within) in
    (
      written_part part v s false m disk t (omega (arith, v.within)) below,
      rw (index, set-ok part.block_bitmap s false here, ◌>>=◌)
          (write_bitmap_sector-ok part v s false m disk t (omega (arith, v.within)) below),
      written-IsPartition part v s false m disk t (omega (arith, v.within)) below,
      t,
      λ i. ground (arith, v.in_front, v.within),
      λ l le ne. ground (arith, v.in_front, v.within),
      refl,
      refl,
    )

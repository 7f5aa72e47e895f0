-- ===== src/FileSystem/Round.antt =====
-- fs/inode.c, the loop of `inode_write`: one round in front of others.
use recover_os.Prelude.{
  ℕ, suc, ◌+◌, ◌*◌, ◌≤◌, ◌<◌, ◌≡◌, sym, ◌∙◌, ap, subst, ◌≢◌, ◌⊎◌, inl, inr, Bool, arith, ◌==◌,
  if◌then◌else◌, Bool-cases, ==→eq, not_==→ne, ne→not_==, ==_self,
}
use recover_os.Bitmap.Turned.{Used}
use recover_os.FileSystem.Disk.{Buffer}
use recover_os.FileSystem.Partition.{Partition, SuperBlock}
use recover_os.FileSystem.BlockBitmap.{IsPartition}
use recover_os.FileSystem.Getting.{HasBlock, free-ne-taken}
use recover_os.FileSystem.Owning.{
  IsTaken-written, IsTaken, IsOwner, Keeps, Keeps-trans, Keeps-written, IsTaken-kept, WasFree,
  WasFree-back, written, IsOwner-written,
}
use recover_os.FileSystem.Bytes.{new_byte}

-- What `n` rounds from block `idx` do to a file's blocks `all`: these are the file's now, with the bytes
-- written in them; no other sector of data changes.
pub record Wrote (count pos : ℕ) (buf : Buffer) (part part' : Partition) (all all' : ℕ → ℕ)
    (ind idx n : ℕ) : Type 0 where
  pub keeps : Keeps part part'
  pub own : IsOwner part' all' ind
  pub others : (k : ℕ) → (k < idx) ⊎ (idx + n ≤ k) → all' k ≡ all k
  pub same_block : (k : ℕ) → (all k ≡ 0) ⊎ (all' k ≡ all k)
  pub new_or_old : (k : ℕ) → (all' k ≡ all k) ⊎ WasFree part (all' k)
  pub there : (k : ℕ) → idx ≤ k → k < idx + n → IsTaken part' (all' k)
  pub bytes :
      (k i : ℕ)
      → idx ≤ k
      → k < idx + n
      → i < 512
      → part'.my_disk (all' k) i ≡ new_byte count pos buf (512 * k + i) (part.my_disk (all' k) i)
  pub frame :
      (l : ℕ)
      → part.sb.data_start_lba ≤ l
      → ((k : ℕ) → idx ≤ k → k < idx + n → l ≢ all' k)
      → part'.my_disk l ≡ part.my_disk l

-- A write that finds no block for the file: all are in use, and the data of the others' blocks is as it
-- was.
pub record RanOut (part part' : Partition) (all : ℕ → ℕ) : Type 0 where
  pub keeps : Keeps part part'
  pub part_valid : IsPartition part'
  pub full : Used part'.block_bitmap 0 (8 * part'.block_bitmap.bytes_len)
  pub others :
      (l : ℕ) → IsTaken part l → ((k : ℕ) → k < 140 → l ≢ all k) → part'.my_disk l ≡ part.my_disk l

at_byte : {a b : Buffer} → a ≡ b → (i : ℕ) → a i ≡ b i
at_byte e i = ap (λ (x : Buffer). x i) e

-- One round and the ones behind it
module _ (count pos : ℕ) (buf : Buffer) (all all' all'' : ℕ → ℕ) (ind idx n : ℕ)
    (part part' part'' : Partition) (sector : Buffer) (h : HasBlock part part' all all' ind idx)
    (sectors : (i : ℕ)
      → i < 512
      → sector i ≡ new_byte count pos buf (512 * idx + i) (part'.my_disk (all' idx) i))
    (bound : idx + suc n ≤ 140) (start : 0 < part.sb.data_start_lba) where
  abbrev next : Partition
  next = written part' (all' idx) sector

  to_next : Keeps part next
  to_next = Keeps-trans h.keeps (Keeps-written part' (all' idx) sector)

  -- Sector `l` of data, when the round has not written it
  skipped : (l : ℕ) → part.sb.data_start_lba ≤ l → l ≢ all' idx → next.my_disk l ≡ part.my_disk l
  skipped l low ne =
      ap (λ (b : Bool). if b then sector else part'.my_disk l) (ne→not_== l (all' idx) ne)
      ∙ h.same_data l low

  data_lba : part.sb.data_start_lba ≤ all' idx
  data_lba = omega (arith, h.there.at, ap (λ (sb : SuperBlock). sb.data_start_lba) h.keeps.same_sb)

  pub next-IsOwner : IsOwner next all' ind
  next-IsOwner =
      IsOwner-written part' all' ind (all' idx) sector h.own
        (omega (arith, h.there.at, h.own.part_valid.in_front))

  module _ (r : Wrote count pos buf next part'' all' all'' ind (idx + 1) n) where
    this : all'' idx ≡ all' idx
    this = r.others idx (inl (omega arith))

    same_sb : part''.sb.data_start_lba ≡ part.sb.data_start_lba
    same_sb = ap (λ (sb : SuperBlock). sb.data_start_lba) (r.keeps.same_sb ∙ to_next.same_sb)

    later-ne : (k : ℕ) → idx + 1 ≤ k → k < idx + 1 + n → all'' k ≢ all' idx
    later-ne k from to e =
        let t = r.there k from to in
        let ne : all'' k ≢ 0 = omega (arith, t.at, start, same_sb) in
        omega (
          arith,
          from,
          r.own.distinct k idx (omega (arith, to, bound)) (omega (arith, bound)) ne (e ∙ sym this),
        )

    later_lba : (k : ℕ) → idx + 1 ≤ k → k < idx + 1 + n → part.sb.data_start_lba ≤ all'' k
    later_lba k from to = omega (arith, (r.there k from to).at, same_sb)

    Good : ℕ → ℕ → Type 0
    Good k i =
        part''.my_disk (all'' k) i ≡ new_byte count pos buf (512 * k + i) (part.my_disk (all'' k) i)

    this_data : (i : ℕ) → i < 512 → Good idx i
    unfolding Good
    this_data i lt =
        ap (λ l. part''.my_disk l i) this
        ∙ at_byte
            (r.frame (all' idx) (omega (arith, h.there.at))
              (λ k from to e. later-ne k from to (sym e)))
            i
        ∙ ap (λ (b : Bool). (if b then sector else part'.my_disk (all' idx)) i) (==_self (all' idx))
        ∙ sectors i lt
        ∙ ap (new_byte count pos buf (512 * idx + i))
            (at_byte (h.same_data (all' idx) data_lba) i ∙ ap (λ l. part.my_disk l i) (sym this))

    later_data : (k i : ℕ) → idx + 1 ≤ k → k < idx + 1 + n → i < 512 → Good k i
    unfolding Good
    later_data k i from to lt =
        r.bytes k i from to lt
        ∙ ap (new_byte count pos buf (512 * k + i))
            (at_byte (skipped (all'' k) (later_lba k from to) (later-ne k from to)) i)

    pub round-Wrote : Wrote count pos buf part part'' all all'' ind idx (suc n)
    unfolding Good
    round-Wrote = record {
      keeps = Keeps-trans to_next r.keeps;
      own = r.own;
      others = λ k out. r.others k (either k out) ∙ h.others k (other k out);
      same_block = λ k. elim (Bool-cases (k == idx)) [
        | inl here ↦
            subst (λ j. (all j ≡ 0) ⊎ (all'' j ≡ all j)) (sym (==→eq k idx here))
              (elim h.same_block [ inl none_yet ↦ inl none_yet | inr old ↦ inr (this ∙ old) ])
        | inr there ↦ elim (r.same_block k) [
          | inl none_yet ↦ inl (sym (h.others k (not_==→ne k idx there)) ∙ none_yet)
          | inr old ↦ inr (old ∙ h.others k (not_==→ne k idx there))
        ]
      ];
      new_or_old = λ k. elim (Bool-cases (k == idx)) [
        | inl here ↦
            subst (λ j. (all'' j ≡ all j) ⊎ WasFree part (all'' j)) (sym (==→eq k idx here))
              (elim h.new_or_old [
                | inl old ↦ inl (this ∙ old)
                | inr free ↦ inr (subst (WasFree part) (sym this) free)
              ])
        | inr there ↦ elim (r.new_or_old k) [
          | inl old ↦ inl (old ∙ h.others k (not_==→ne k idx there))
          | inr free ↦ inr (WasFree-back part next (all'' k) to_next free)
        ]
      ];
      there = λ k from to. elim (Bool-cases (k == idx)) [
        | inl here ↦
            subst (λ j. IsTaken part'' (all'' j)) (sym (==→eq k idx here))
              (subst (IsTaken part'') (sym this) (
                IsTaken-kept next part'' (all' idx) r.keeps
                  (IsTaken-written part' (all' idx) sector (all' idx) h.there)))
        | inr later ↦ r.there k (omega (arith, from, not_==→ne k idx later)) (omega (arith, to))
      ];
      bytes = λ k i from to lt. elim (Bool-cases (k == idx)) [
        | inl here ↦ subst (λ j. Good j i) (sym (==→eq k idx here)) (this_data i lt)
        | inr later ↦
            later_data k i (omega (arith, from, not_==→ne k idx later)) (omega (arith, to)) lt
      ];
      frame = λ l low out.
          r.frame l
            (omega (arith, low, ap (λ (sb : SuperBlock). sb.data_start_lba) to_next.same_sb))
            (λ k from to. out k (omega (arith, from)) (omega (arith, to)))
          ∙ skipped l low (λ e. out idx (omega arith) (omega arith) (e ∙ sym this));
    }
      where
        either : (k : ℕ) → (k < idx) ⊎ (idx + suc n ≤ k) → (k < idx + 1) ⊎ (idx + 1 + n ≤ k)
        either k (inl lt) = inl (omega (arith, lt))
        either k (inr le) = inr (omega (arith, le))

        other : (k : ℕ) → (k < idx) ⊎ (idx + suc n ≤ k) → k ≢ idx
        other k (inl lt) e = omega (arith, lt, e)
        other k (inr le) e = omega (arith, le, e)

  module _ (r : RanOut next part'' all') where
    pub round-RanOut : IsOwner part all ind → RanOut part part'' all
    round-RanOut own = record {
      keeps = Keeps-trans to_next r.keeps;
      part_valid = r.part_valid;
      full = r.full;
      others = λ l t ne.
          r.others l (IsTaken-kept part next l to_next t) (λ k lt e. elim (Bool-cases (k == idx)) [
            | inl here ↦ ne-this l t ne (e ∙ ap all' (==→eq k idx here))
            | inr there ↦ ne k lt (e ∙ h.others k (not_==→ne k idx there))
          ])
          ∙ skipped l (omega (arith, t.at)) (ne-this l t ne);
    }
      where
        ne-this : (l : ℕ) → IsTaken part l → ((k : ℕ) → k < 140 → l ≢ all k) → l ≢ all' idx
        ne-this l t ne e = elim h.new_or_old [
          | inl old ↦ ne idx (omega (arith, bound)) (e ∙ old)
          | inr free ↦ free-ne-taken part (all' idx) l free t (sym e)
        ]

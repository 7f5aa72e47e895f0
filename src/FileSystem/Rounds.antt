-- ===== src/FileSystem/Rounds.antt =====
-- fs/inode.c, the loop of `inode_write`: the rounds together.
use recover_os.Prelude.{
  ℕ, zero, suc, ◌+◌, ◌*◌, ◌/◌, ◌≤◌, ◌<◌, ◌≡◌, refl, ◌∙◌, ap, ◌⊎◌, inl, inr, arith, none, some, ok,
  ◌>>=◌, lt→ltb,
}
use recover_os.FileSystem.Disk.{Buffer}
use recover_os.FileSystem.Partition.{Partition}
use recover_os.FileSystem.Write.{block_of, new_block, moved_by, write_blocks}
use recover_os.FileSystem.Getting.{block_of-HasBlock}
use recover_os.FileSystem.Owning.{Keeps-refl, IsOwner, written}
use recover_os.FileSystem.Bytes.{new_byte, at_round, new_block-new_byte, at_round-moved}
use recover_os.FileSystem.Round.{Wrote, RanOut, next-IsOwner, round-Wrote, round-RanOut}

write_blocks-none :
    (n count pos idx at : ℕ) (buf : Buffer) (all : ℕ → ℕ) (part : Partition)
    → idx < 140
    → block_of idx all part ≡ ok (none, part)
    → write_blocks (suc n) count pos idx at buf all part ≡ ok (none, part)
unfolding write_blocks
write_blocks-none n count pos idx at buf all part lt run =
    rw (write_blocks, lt→ltb idx 140 lt, run, ◌>>=◌) refl

write_blocks-some :
    (n count pos idx at : ℕ) (buf : Buffer) (all all' : ℕ → ℕ) (part part' : Partition)
    → idx < 140
    → block_of idx all part ≡ ok (some all', part')
    → write_blocks (suc n) count pos idx at buf all part
      ≡ write_blocks n count pos
          (idx + 1)
          (at + moved_by pos idx)
          buf
          all'
          (written part' (all' idx) (new_block count pos idx at buf (part'.my_disk (all' idx))))
unfolding write_blocks
write_blocks-some n count pos idx at buf all all' part part' lt run =
    rw (write_blocks, lt→ltb idx 140 lt, run, ◌>>=◌) refl

-- The loop runs out of blocks, or writes them all.
abbrev LoopEnds : (n count pos idx : ℕ) (buf : Buffer) (all : ℕ → ℕ) (ind : ℕ) → Partition → Type 0
LoopEnds n count pos idx buf all ind part =
    ((part' : Partition) × (write_blocks n count pos idx (at_round pos idx) buf all part
        ≡ ok (none, part'))
      × RanOut part part' all)
    ⊎ ((all' : ℕ → ℕ) × (part' : Partition) × (write_blocks n count pos idx (at_round pos idx) buf
            all part
          ≡ ok (some all', part'))
        × Wrote count pos buf part part' all all' ind idx n)

-- The loop, when the file owns its blocks
pub write_blocks-Wrote :
    (n count pos idx : ℕ) (buf : Buffer) (all : ℕ → ℕ) (ind : ℕ) (part : Partition)
    → pos + count ≤ 71680
    → pos / 512 ≤ idx
    → idx + n ≡ (pos + count + 511) / 512
    → IsOwner part all ind
    → LoopEnds n count pos idx buf all ind part
unfolding write_blocks
write_blocks-Wrote zero count pos idx buf all ind part low from to own = inr (
  all,
  part,
  refl,
  record {
    keeps = Keeps-refl part;
    own = own;
    others = λ k out. refl;
    same_block = λ k. inr refl;
    new_or_old = λ k. inl refl;
    there = λ k ge lt. absurd (omega (arith, ge, lt));
    bytes = λ k i ge lt short. absurd (omega (arith, ge, lt));
    frame = λ l le out. refl;
  },
)
write_blocks-Wrote (suc n) count pos idx buf all ind part low from to own =
    let lt : idx < 140 = omega (arith, low, to) in
    elim (block_of-HasBlock idx all ind part lt own) [
      | inl (run, full) ↦ inl (
        part,
        write_blocks-none n count pos idx (at_round pos idx) buf all part lt run,
        record {
          keeps = Keeps-refl part;
          part_valid = own.part_valid;
          full = full;
          others = λ l t ne. refl;
        },
      )
      | inr (all', part', run, h) ↦
          let sector : Buffer =
            new_block count pos idx (at_round pos idx) buf (part'.my_disk (all' idx)) in
          let sectors : (i : ℕ)
              → i < 512
              → sector i ≡ new_byte count pos buf (512 * idx + i) (part'.my_disk (all' idx) i) =
            λ i short.
              new_block-new_byte count pos idx i buf (part'.my_disk (all' idx)) low from
                (omega (arith, to)) short in
          let bound : idx + suc n ≤ 140 = omega (arith, low, to) in
          let same =
            write_blocks-some n count pos idx (at_round pos idx) buf all all' part part' lt run
            ∙ ap
                (λ at.
                  write_blocks n count pos (idx + 1) at buf all' (written part' (all' idx) sector))
                (at_round-moved pos idx from) in
          elim (write_blocks-Wrote n count pos (idx + 1) buf all' ind
            (written part' (all' idx) sector) low (omega (arith, from)) (omega (arith, to))
            (next-IsOwner count pos buf all all' all' ind idx n part part' part sector h sectors
              bound own.start)) [
                | inl (part'', ran, r) ↦ inl (
                  part'',
                  same ∙ ran,
                  round-RanOut count pos buf all all' all' ind idx n part part' part'' sector h
                      sectors bound own.start r own,
                )
                | inr (all'', part'', ran, r) ↦ inr (
                  all'',
                  part'',
                  same ∙ ran,
                  round-Wrote count pos buf all all' all'' ind idx n part part' part'' sector h
                      sectors bound own.start r,
                )
              ]
    ]

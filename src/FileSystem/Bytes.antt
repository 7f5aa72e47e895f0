-- ===== src/FileSystem/Bytes.antt =====
-- fs/inode.c, `inode_write`: the bytes that a round writes into its block.
use recover_os.Prelude.{
  ℕ, ◌+◌, ◌-◌, ◌*◌, ◌/◌, ◌%◌, ◌^◌, ◌≤◌, ◌<◌, ◌≡◌, inl, inr, ◌&&◌, arith, ltb, leb, ◌==◌,
  if◌then◌else◌, Bool-cases,
}
use recover_os.FileSystem.Disk.{Buffer}
use recover_os.FileSystem.Write.{block_end, new_block, moved_by}

-- Where the bytes end that a write of `count` bytes at `pos` leaves on the disk: a write of several
-- blocks that ends on a block's border does not reach the last block.
abbrev pub stop_at : (count pos : ℕ) → ℕ
stop_at count pos =
    if ((pos + count) % 512 == 0) && ltb (pos / 512 + 1) ((pos + count + 511) / 512)
    then pos + count - 512
    else pos + count

-- Byte `o` of the file, where `old` is what stands in its place.
abbrev pub new_byte : (count pos : ℕ) → Buffer → (o old : ℕ) → ℕ
new_byte count pos buf o old = if leb pos o && ltb o (stop_at count pos) then buf (o - pos) else old

-- How far `buf` has moved before round `idx`
abbrev pub at_round : (pos idx : ℕ) → ℕ
at_round pos idx = if idx == pos / 512 then 0 else 512 * idx - pos

pub new_block-new_byte :
    (count pos idx i : ℕ) (buf old : Buffer)
    → pos + count ≤ 71680
    → pos / 512 ≤ idx
    → idx < (pos + count + 511) / 512
    → i < 512
    → new_block count pos idx (at_round pos idx) buf old i
      ≡ new_byte count pos buf (512 * idx + i) (old i)
unfolding new_block
new_block-new_byte count pos idx i buf old low from to lt =
    let end : block_end count pos ≡ (pos + count + 511) / 512 = omega (arith, low) in
    let word : (pos + count) % 2 ^ 64 ≡ pos + count = omega (arith, low) in
    elim (Bool-cases (idx == pos / 512)) [
      | inl first ↦ elim (Bool-cases (idx + 1 == (pos + count + 511) / 512)) [
        | inl last ↦ rw (end, first, last) ground (arith, first, last, low, lt)
        | inr more ↦ rw (end, first, more) ground (arith, first, more, low, lt, to)
      ]
      | inr later ↦ elim (Bool-cases (idx + 1 == (pos + count + 511) / 512)) [
        | inl last ↦ rw (end, later, last, word) ground (arith, later, last, low, lt)
        | inr more ↦ rw (end, later, more) ground (arith, later, more, low, lt, to)
      ]
    ]

pub at_round-moved :
    (pos idx : ℕ) → pos / 512 ≤ idx → at_round pos idx + moved_by pos idx ≡ at_round pos (idx + 1)
unfolding moved_by
at_round-moved pos idx from = ground arith

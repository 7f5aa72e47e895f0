-- ===== src/FileSystem/Reading.antt =====
-- `inode_read`, against the bytes that a file stands for.
use recover_os.Prelude.{
  ap₂, ◌≢◌, ℕ, zero, suc, ◌+◌, ◌-◌, ◌*◌, ◌/◌, ◌%◌, ◌^◌, ◌≤◌, ◌<◌, ◌≡◌, refl, ◌∙◌, ap, ◌⊎◌, inl, inr,
  true, false, arith, Option, none, some, ok, ◌>>=◌, ltb, ◌==◌, if◌then◌else◌, Bool-cases,
}
use recover_os.FileSystem.Disk.{Buffer, Disk, copy_block}
use recover_os.FileSystem.Inode.{
  Inode, get_blocks_lba, read_blocks, real_count, exceeds_size, inode_read,
}

-- Byte `i` of a block of a file; a block without an address is a hole of zeros.
abbrev pub block_byte : Disk → (lba i : ℕ) → ℕ
block_byte disk lba i = if lba == 0 then 0 else disk lba i

-- Byte `i` of a file.
abbrev pub file_byte : Disk → Inode → ℕ → ℕ
file_byte disk inode i = block_byte disk (get_blocks_lba disk inode (λ _. 0) (i / 512)) (i % 512)

byte_at :
    (disk : Disk) (all : ℕ → ℕ) (a b k l : ℕ)
    → a ≡ b
    → k ≡ l
    → block_byte disk (all a) k ≡ block_byte disk (all b) l
byte_at disk all a b k l e f = ap₂ (λ (a k : ℕ). block_byte disk (all a) k) e f

first_block : (at i : ℕ) (block buf : Buffer) → i < 512 → copy_block at block buf (at + i) ≡ block i
first_block at i block buf lt = ground arith ∙ ap block {x = at + i - at} {y = i} (omega arith)

read_blocks-ok :
    (n idx at : ℕ) (all : ℕ → ℕ) (disk : Disk) (buf : Buffer)
    → idx + n ≤ 140
    → (buf' : Buffer) × (read_blocks n idx at all disk buf ≡ ok buf')
      × ((i : ℕ) → i < at → buf' i ≡ buf i)
      × ((i : ℕ) → i < n * 512 → buf' (at + i) ≡ block_byte disk (all (idx + i / 512)) (i % 512))
unfolding read_blocks
read_blocks-ok zero idx at all disk buf low =
    (buf, refl, λ i lt. refl, λ i lt. absurd (omega arith))
read_blocks-ok (suc n) idx at all disk buf low =
    let first = copy_block at (block_byte disk (all idx)) buf in
    let (buf', run, kept, filled) =
      read_blocks-ok n (idx + 1) (at + 512) all disk first (omega arith) in
    (
      buf',
      ground (arith, run),
      λ i lt. kept i (omega arith) ∙ ground arith,
      λ i lt. elim (Bool-cases (ltb i 512)) [
        | inl here ↦
            kept (at + i) (ground (arith, here))
            ∙ first_block at i (block_byte disk (all idx)) buf (ground (arith, here))
            ∙ byte_at disk all idx (idx + i / 512) i (i % 512) (ground (arith, here))
                (ground (arith, here))
        | inr later ↦
            ap buf' {x = at + i} {y = at + 512 + (i - 512)} (ground (arith, later))
            ∙ filled (i - 512) (ground (arith, later))
            ∙ byte_at disk all (idx + 1 + (i - 512) / 512) (idx + i / 512) ((i - 512) % 512)
                (i % 512) (ground (arith, later)) (ground (arith, later))
      ],
    )

-- What `inode_read` comes to: -1 at the end of the file or behind it, unless nothing is asked for at
-- the end; otherwise as many bytes as were asked for or are left, the file's own.
abbrev pub Reads : Disk → Inode → (count pos : ℕ) → Option (ℕ × Buffer) → Type 0
Reads disk inode count pos none = (inode.i_size ≤ pos) × (inode.i_size < pos + count)
Reads disk inode count pos (some (n, buf)) =
    ((n ≡ count) ⊎ (n + pos ≡ inode.i_size))
    × (n ≤ count)
    × (pos + n ≤ inode.i_size)
    × ((k : ℕ) → k < n → buf k ≡ file_byte disk inode (pos + k))

-- A file of at most 140 blocks, and a request that ends below 2 ^ 63.
real_count-cases :
    (inode : Inode) (count pos : ℕ)
    → inode.i_size ≤ 140 * 512
    → pos + count < 2 ^ 63
    → ((exceeds_size inode count pos ≡ true) × (inode.i_size ≤ pos) × (inode.i_size < pos + count))
      ⊎ ((exceeds_size inode count pos ≡ false)
          × ((real_count inode count pos ≡ count)
              ⊎ (real_count inode count pos + pos ≡ inode.i_size))
          × (real_count inode count pos ≤ count)
          × (pos + real_count inode count pos ≤ inode.i_size))
unfolding exceeds_size real_count
real_count-cases inode count pos small word = elim (Bool-cases (ltb inode.i_size (pos + count))) [
  | inr within ↦ inr (
    ground (arith, within),
    ground (arith, within),
    ground (arith, within),
    ground (arith, within),
  )
  | inl beyond ↦ elim (Bool-cases (ltb pos inode.i_size)) [
    | inr behind ↦
        inl (ground (arith, beyond, behind), ground (arith, behind), ground (arith, beyond))
    | inl before ↦ inr (
      ground (arith, beyond, before),
      ground (arith, beyond, before),
      ground (arith, beyond, before),
      ground (arith, beyond, before),
    )
  ]
]

-- How many blocks `inode_read` reads.
abbrev rounds_of : (n pos : ℕ) → ℕ
rounds_of n pos = ((pos + n + 512 - 1) % 2 ^ 64 / 512 + 2 ^ 64 - pos / 512) % 2 ^ 64

module _ (sys_malloc : ℕ → Option Buffer) (disk : Disk) (inode : Inode) (count pos : ℕ) where
  inode_read-step :
      (read_buf buf : Buffer)
      → exceeds_size inode count pos ≡ false
      → sys_malloc (rounds_of (real_count inode count pos) pos * 512 % 2 ^ 64) ≡ some read_buf
      → read_blocks
          (rounds_of (real_count inode count pos) pos)
          (pos / 512)
          0
          (get_blocks_lba disk inode (λ _. 0))
          disk
          read_buf
        ≡ ok buf
      → inode_read sys_malloc disk inode count pos
        ≡ ok (some (real_count inode count pos, λ k. buf (pos % 512 + k)))
  unfolding inode_read
  inode_read-step read_buf buf e m run = rw (e, m, run, ◌>>=◌) refl

  some_read :
      (m : Option Buffer)
      → sys_malloc (rounds_of (real_count inode count pos) pos * 512 % 2 ^ 64) ≡ m
      → m ≢ none
      → exceeds_size inode count pos ≡ false
      → pos + real_count inode count pos ≤ 140 * 512
      → (buf : Buffer) × (inode_read sys_malloc disk inode count pos
          ≡ ok (some (real_count inode count pos, buf)))
        × ((k : ℕ) → k < real_count inode count pos → buf k ≡ file_byte disk inode (pos + k))
  some_read none m ne e low = absurd (ne refl)
  some_read (some read_buf) m ne e low =
      let n = real_count inode count pos in
      let all = get_blocks_lba disk inode (λ _. 0) in
      let (buf, run, kept, filled) =
        read_blocks-ok (rounds_of n pos) (pos / 512) 0 all disk read_buf (omega (arith, low)) in
      (
        λ k. buf (pos % 512 + k),
        inode_read-step read_buf buf e m run,
        λ k lt.
            ap buf {x = pos % 512 + k} {y = 0 + (pos % 512 + k)} (omega arith)
            ∙ filled (pos % 512 + k) (omega (arith, low, lt))
            ∙ byte_at disk all (pos / 512 + (pos % 512 + k) / 512) ((pos + k) / 512)
                ((pos % 512 + k) % 512) ((pos + k) % 512) (omega arith) (omega arith),
      )

-- `inode_read` of a file of at most 140 blocks, where the request ends below 2 ^ 63 and there is memory
-- for its blocks, returns: -1 if the request goes beyond the end and begins there or behind it, or
-- as many bytes as were asked for or are left, the file's own.
pub inode_read-Reads :
    (sys_malloc : ℕ → Option Buffer) (disk : Disk) (inode : Inode) (count pos : ℕ)
    → inode.i_size ≤ 140 * 512
    → pos + count < 2 ^ 63
    → ((size : ℕ) → size ≤ 140 * 512 → sys_malloc size ≢ none)
    → (r : Option (ℕ × Buffer)) × (inode_read sys_malloc disk inode count pos ≡ ok r)
      × Reads disk inode count pos r
unfolding inode_read
inode_read-Reads sys_malloc disk inode count pos small word memory =
    elim (real_count-cases inode count pos small word) [
      | inl (e, behind, beyond) ↦ (none, rw (e, if◌then◌else◌) refl, (behind, beyond))
      | inr (e, all_or_rest, le, fits) ↦
          let size = rounds_of (real_count inode count pos) pos * 512 % 2 ^ 64 in
          let (buf, run, bytes) =
            some_read sys_malloc disk inode count pos (sys_malloc size) refl
              (memory size (omega (arith, fits))) e (omega (arith, fits)) in
          (some (real_count inode count pos, buf), run, (all_or_rest, le, fits, bytes))
    ]

-- ===== src/Bitmap.antt =====
-- lib/kernel/bitmap.c: the bitmaps behind the physical and virtual page pools, the pids, the inodes
-- and the disk blocks.
pub mod Alloc
pub mod Byte
pub mod Count
mod Examples
pub mod Free
pub mod Guard
pub mod Laws
pub mod Turned
use recover_os.Prelude.{
  ℕ, zero, suc, ◌+◌, ◌*◌, ◌/◌, ◌%◌, ◌<◌, Bool, true, false, not, Option, none, some, List, Run, ok,
  fault, out_of_fuel, ◌>>=◌, ◌>>◌, assert, ltb, ◌==◌, if◌then◌else◌, length, get_or, set, take,
  drop, replicate, ◌++◌,
}
use recover_os.Bitmap.Byte.{test_bit, raise_bit, clear_bit}

-- `struct bitmap`. `bits` is the memory from the pointer on; a bitmap is sound if `bytes_len` bytes
-- of it are there.
pub record Bitmap : Type 0 where
  pub bytes_len : ℕ
  pub bits : List ℕ

-- The test of `bitmap_init`, `memset(bits, 0, bytes_len)`.
pub bitmap_init : Bitmap → Run Bitmap
bitmap_init m =
    if ltb (length m.bits) m.bytes_len
    then fault
    else ok (record m { bits = replicate m.bytes_len 0 ++ drop m.bytes_len m.bits })

unfoldable pub bitmap_read : Bitmap → ℕ → Run Bool
bitmap_read m idx =
    if ltb (idx / 8) (length m.bits)
    then ok (test_bit (get_or m.bits (idx / 8) 0) (idx % 8))
    else fault

-- One byte of `bits` is replaced.
unfoldable pub store_byte : Bitmap → ℕ → (ℕ → ℕ) → Bitmap
store_byte m i f = record m { bits = set m.bits i (f (get_or m.bits i 0)) }

-- `value` is a `bool`, so the ASSERT on it holds.
unfoldable pub bitmap_set : Bitmap → ℕ → Bool → Run Bitmap
bitmap_set m idx value =
    if ltb (idx / 8) (length m.bits)
    then ok (
        store_byte m (idx / 8)
          (λ b. if value then raise_bit b (idx % 8) else clear_bit b (idx % 8)))
    else fault

-- The loop of `bitmap_alloc_a_bit` from `i`, with `rounds` rounds left.
alloc_a_bit_from : Bitmap → (rounds i : ℕ) → Run (Option ℕ × Bitmap)
alloc_a_bit_from m zero i = ok (none, m)
alloc_a_bit_from m (suc n) i = do
  used ← bitmap_read m i
  let rest = alloc_a_bit_from m n (i + 1)
  if used then rest else do m' ← bitmap_set m i true; ok (some i, m')

-- `none` is the -1 of the source.
pub bitmap_alloc_a_bit : Bitmap → Run (Option ℕ × Bitmap)
bitmap_alloc_a_bit m = alloc_a_bit_from m (8 * m.bytes_len) 0

-- `for (; j != cnt; ++j)`: how many of the bits from `i + j` on are clear, `rounds` at most.
scan_free : Bitmap → (i rounds j : ℕ) → Run ℕ
scan_free m i zero j = ok j
scan_free m i (suc n) j = do
  used ← bitmap_read m (i + j)
  let rest = scan_free m i n (j + 1)
  if used then ok j else rest

-- `for (size_t k = 0; k != cnt; ++k)`
mark : Bitmap → (i rounds k : ℕ) → Run Bitmap
mark m i zero k = ok m
mark m i (suc n) k = do m' ← bitmap_set m (i + k) true; mark m' i n (k + 1)

-- The outer loop of `bitmap_alloc`. After a run of `j` clear bits that is too short it goes on
-- behind the set bit that ended the run.
alloc_from : Bitmap → (cnt fuel i : ℕ) → Run (Option ℕ × Bitmap)
alloc_from m cnt zero i = out_of_fuel
alloc_from m cnt (suc f) i = elim (ltb i (8 * m.bytes_len)) [
  | false ↦ ok (none, m)
  | true ↦ bitmap_read m i >>= λ used. elim used [
    | true ↦ alloc_from m cnt f (i + 1)
    | false ↦ scan_free m i cnt 0 >>= λ j. elim (j == cnt) [
      | true ↦ mark m i cnt 0 >>= λ m'. ok (some i, m')
      | false ↦ alloc_from m cnt f (i + j + 1)
    ]
  ]
]

-- Each round moves on by a bit, so one round more than there are bits is enough.
pub bitmap_alloc : Bitmap → ℕ → Run (Option ℕ × Bitmap)
bitmap_alloc m cnt = alloc_from m cnt (8 * m.bytes_len + 1) 0

unfoldable pub free_from : Bitmap → (idx rounds i : ℕ) → Run Bitmap
free_from m idx zero i = ok m
free_from m idx (suc n) i = do
  used ← bitmap_read m (idx + i)
  assert used
  m' ← bitmap_set m (idx + i) false
  free_from m' idx n (i + 1)

unfoldable pub bitmap_free : Bitmap → (idx cnt : ℕ) → Run Bitmap
bitmap_free m idx cnt = free_from m idx cnt 0

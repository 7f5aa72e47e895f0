-- ===== src/Bitmap/Examples.antt =====
-- lib/kernel/bitmap.c on a bitmap of one byte with a second byte of memory behind it.
use recover_os.Prelude.{
  ℕ, zero, suc, ◌+◌, ◌<◌, ◌≡◌, refl, true, false, Option, some, List, [], ◌∷◌, arith, ok, get_or,
}
use recover_os.Bitmap.{
  Bitmap, bitmap_read, bitmap_set, store_byte, bitmap_alloc, alloc_from, scan_free, mark,
}
use recover_os.Bitmap.Byte.{test_bit, raise_bit}
use recover_os.Bitmap.Laws.{bit, IsValid}
use recover_os.Bitmap.Alloc.{TakesRun, bitmap_alloc-TakesRun}
use recover_os.Bitmap.Guard.{bitmap_alloc_overrun}

abbrev of_bytes : List ℕ → Bitmap
of_bytes bits = record { bytes_len = 1; bits = bits }

-- Bits 0 and 2 are set.
abbrev five : Bitmap
five = of_bytes (5 ∷ 0 ∷ [])

bytes-IsValid : (a b : ℕ) → a < 256 → b < 256 → IsValid (of_bytes (a ∷ b ∷ []))
bytes-IsValid a b la lb = record { backed = omega arith; bytes = below }
  where
    below : (i : ℕ) → get_or (a ∷ b ∷ []) i 0 < 256
    below zero = la
    below (suc zero) = lb
    below (suc (suc i)) = omega arith

five-IsValid : IsValid five
five-IsValid = bytes-IsValid 5 0 (omega arith) (omega arith)

bitmap_alloc_run : bitmap_alloc five 2 ≡ ok (some 3, of_bytes (0x1d ∷ 0 ∷ []))
unfolding bitmap_alloc alloc_from bitmap_read scan_free mark bitmap_set store_byte test_bit
    raise_bit
bitmap_alloc_run = refl

bitmap_alloc_example : (r : Option ℕ × Bitmap) × (bitmap_alloc five 2 ≡ ok r) × TakesRun five 2 r
bitmap_alloc_example = bitmap_alloc-TakesRun five 2 five-IsValid (omega arith) (omega arith)

-- All bits but the last.
abbrev nearly_full : Bitmap
nearly_full = of_bytes (0x7f ∷ 0 ∷ [])

nearly_full-low : (i : ℕ) → i + 1 < 8 → bit nearly_full i ≡ true
unfolding bit test_bit
nearly_full-low zero lt = refl
nearly_full-low (suc zero) lt = refl
nearly_full-low (suc (suc zero)) lt = refl
nearly_full-low (suc (suc (suc zero))) lt = refl
nearly_full-low (suc (suc (suc (suc zero)))) lt = refl
nearly_full-low (suc (suc (suc (suc (suc zero))))) lt = refl
nearly_full-low (suc (suc (suc (suc (suc (suc zero)))))) lt = refl
nearly_full-low (suc (suc (suc (suc (suc (suc (suc i))))))) lt = absurd (omega arith)

nearly_full-high : (bit nearly_full 7 ≡ false) × (bit nearly_full 8 ≡ false)
unfolding bit test_bit
nearly_full-high = (refl, refl)

bitmap_alloc_overrun_example :
    (m' : Bitmap) × (bitmap_alloc nearly_full 2 ≡ ok (some 7, m')) × (bit m' 8 ≡ true)
bitmap_alloc_overrun_example =
    bitmap_alloc_overrun nearly_full (bytes-IsValid 0x7f 0 (omega arith) (omega arith))
      (omega arith) (omega arith) nearly_full-low nearly_full-high.0 nearly_full-high.1

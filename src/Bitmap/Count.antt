-- ===== src/Bitmap/Count.antt =====
-- How many bits are clear, and what an allocation of a bit does to that number.
use recover_os.Prelude.{
  ℕ, zero, suc, ◌+◌, ◌*◌, ◌≤◌, ◌<◌, ◌≡◌, refl, sym, subst, ◌∙◌, ap, inl, inr, true, false, arith,
  ok, Option, none, some, ◌==◌, if◌then◌else◌, Bool-cases,
}
use recover_os.Bitmap.{Bitmap, bitmap_alloc_a_bit}
use recover_os.Bitmap.Laws.{bit, IsValid}
use recover_os.Bitmap.Turned.{Used, Turned}
use recover_os.Bitmap.Alloc.{TakesFirst, bitmap_alloc_a_bit-TakesFirst}

-- The number of clear bits among the first `n`.
unfoldable pub clear_below : Bitmap → ℕ → ℕ
clear_below m zero = 0
clear_below m (suc n) = clear_below m n + (if bit m n then 0 else 1)

unfoldable pub free_bits : Bitmap → ℕ
free_bits m = clear_below m (8 * m.bytes_len)

clear_below-Used : (m : Bitmap) (n : ℕ) → Used m 0 n → clear_below m n ≡ 0
unfolding clear_below
clear_below-Used m zero used = refl
clear_below-Used m (suc n) used =
    ground (arith, clear_below-Used m n (λ k lt. used k (omega arith)), used n)

clear_below-out :
    {m m' : Bitmap} (s n : ℕ) → Turned true s 1 m m' → n ≤ s → clear_below m' n ≡ clear_below m n
unfolding clear_below
clear_below-out s zero t le = refl
clear_below-out s (suc n) t le = ground (arith, clear_below-out s n t, t.bits n)

clear_below-in :
    {m m' : Bitmap} (s n : ℕ)
    → Turned true s 1 m m'
    → bit m s ≡ false
    → s < n
    → clear_below m n ≡ clear_below m' n + 1
unfolding clear_below
clear_below-in s zero t clear lt = absurd (omega arith)
clear_below-in s (suc n) t clear lt = elim (Bool-cases (n == s)) [
  | inl last ↦ ground (arith, clear_below-out s n t, t.bits n)
  | inr before ↦ ground (arith, clear_below-in s n t clear, t.bits n)
]

-- While a bit is clear, `bitmap_alloc_a_bit` gets one, and one clear bit fewer is left.
pub alloc-free_bits :
    (m : Bitmap)
    → IsValid m
    → 0 < free_bits m
    → (s : ℕ) × (m' : Bitmap) × (bitmap_alloc_a_bit m ≡ ok (some s, m'))
      × (s < 8 * m.bytes_len)
      × (bit m s ≡ false)
      × Turned true s 1 m m'
      × (free_bits m ≡ free_bits m' + 1)
unfolding free_bits
alloc-free_bits m v some_left = go (bitmap_alloc_a_bit-TakesFirst m v)
  where
    go :
        (r : Option ℕ × Bitmap) × (bitmap_alloc_a_bit m ≡ ok r) × TakesFirst m 0 (8 * m.bytes_len) r
        → (s : ℕ) × (m' : Bitmap) × (bitmap_alloc_a_bit m ≡ ok (some s, m'))
          × (s < 8 * m.bytes_len)
          × (bit m s ≡ false)
          × Turned true s 1 m m'
          × (clear_below m (8 * m.bytes_len) ≡ clear_below m' (8 * m'.bytes_len) + 1)
    go ((none, m'), run, (same, used)) =
        absurd (omega (arith, clear_below-Used m (8 * m.bytes_len) used))
    go ((some s, m'), run, (low, high, clear, first, t)) = (
      s,
      m',
      run,
      omega arith,
      clear,
      t,
      clear_below-in s (8 * m.bytes_len) t clear (omega arith)
          ∙ ap (λ n. clear_below m' n + 1) {x = 8 * m.bytes_len} {y = 8 * m'.bytes_len}
              (omega (arith, t.same_len)),
    )

clear_below-le :
    {m m' : Bitmap} (s n : ℕ) → Turned true s 1 m m' → clear_below m' n ≤ clear_below m n
unfolding clear_below
clear_below-le s zero t = omega arith
clear_below-le s (suc n) t = ground (arith, clear_below-le s n t, t.bits n)

-- Setting a bit makes no clear bit.
pub free_bits-le : {m m' : Bitmap} (s : ℕ) → Turned true s 1 m m' → free_bits m' ≤ free_bits m
unfolding free_bits
free_bits-le {m} {m'} s t =
    subst (λ n. clear_below m' (8 * n) ≤ clear_below m (8 * m.bytes_len)) (sym t.same_len)
      (clear_below-le s (8 * m.bytes_len) t)

-- ===== src/Bitmap/Guard.antt =====
-- `bitmap_init`, and the runs of `bitmap_alloc` that reach the bitmap's end.
use recover_os.Prelude.{
  ℕ, zero, suc, ◌+◌, ◌-◌, ◌*◌, ◌/◌, ◌%◌, ◌≤◌, ◌<◌, ◌≡◌, refl, sym, ◌∙◌, ap, inl, inr, true, false,
  arith, ok, ok-injective, ltb, if◌then◌else◌, List, [], ◌∷◌, ◌++◌, Option, none, some, length,
  Bool-cases, get_or, replicate, drop, length-append, length-replicate,
}
use recover_os.Bitmap.{Bitmap, bitmap_init, bitmap_alloc}
use recover_os.Bitmap.Byte.{test_bit-zero}
use mathlib.Core.Path.{subst}
use recover_os.Bitmap.Laws.{bit, IsValid}
use recover_os.Bitmap.Alloc.{TakesRun, bitmap_alloc-TakesRun}

module _ {ℓ} {A : Type ℓ} where
  length-drop : (n : ℕ) (xs : List A) → length (drop n xs) ≡ length xs - n
  length-drop zero xs = omega arith
  length-drop (suc n) [] = omega arith
  length-drop (suc n) (x ∷ xs) = omega (arith, length-drop n xs)

  get_or-drop : (n i : ℕ) (xs : List A) (d : A) → get_or (drop n xs) i d ≡ get_or xs (n + i) d
  get_or-drop zero i xs d = ground arith
  get_or-drop (suc n) i [] d = refl
  get_or-drop (suc n) i (x ∷ xs) d =
      get_or-drop n i xs d
      ∙ ap (λ k. get_or (x ∷ xs) k d) {x = suc (n + i)} {y = suc n + i} (omega arith)

  get_or-prefix : (n i : ℕ) (x d : A) (ys : List A) → i < n → get_or (replicate n x ++ ys) i d ≡ x
  get_or-prefix zero i x d ys lt = absurd (omega arith)
  get_or-prefix (suc n) zero x d ys lt = refl
  get_or-prefix (suc n) (suc i) x d ys lt = get_or-prefix n i x d ys (omega arith)

  get_or-behind :
      (n i : ℕ) (x d : A) (ys : List A)
      → n ≤ i
      → get_or (replicate n x ++ ys) i d ≡ get_or ys (i - n) d
  get_or-behind zero i x d ys le = ap (λ k. get_or ys k d) (omega arith)
  get_or-behind (suc n) zero x d ys le = absurd (omega arith)
  get_or-behind (suc n) (suc i) x d ys le =
      get_or-behind n i x d ys (omega arith) ∙ ap (λ k. get_or ys k d) (omega arith)

module _ (m : Bitmap) (valid : IsValid m) where
  cleared : List ℕ
  cleared = replicate m.bytes_len 0 ++ drop m.bytes_len m.bits

  byte-cleared : (i : ℕ) → get_or cleared i 0 ≡ (if ltb i m.bytes_len then 0 else get_or m.bits i 0)
  unfolding cleared
  byte-cleared i = elim (Bool-cases (ltb i m.bytes_len)) [
    | inl inside ↦ rw inside (get_or-prefix m.bytes_len i 0 0 _ (ground arith))
    | inr out ↦
        rw
          (
            out,
            get_or-behind m.bytes_len i 0 0 (drop m.bytes_len m.bits) (ground arith),
            get_or-drop m.bytes_len (i - m.bytes_len) m.bits 0,
          )
          (ap (λ k. get_or m.bits k 0) {x = m.bytes_len + (i - m.bytes_len)} {y = i} (ground arith))
  ]

  -- `bitmap_init` clears the bits of the bitmap and leaves the memory behind it alone.
  pub bitmap_init_lem :
      (m' : Bitmap) × (bitmap_init m ≡ ok m')
      × IsValid m'
      × (m'.bytes_len ≡ m.bytes_len)
      × (length m'.bits ≡ length m.bits)
      × ((j : ℕ) → bit m' j ≡ (if ltb j (8 * m.bytes_len) then false else bit m j))
  unfolding bitmap_init bit cleared
  bitmap_init_lem = (
    record m { bits = cleared },
    ground (arith, valid.backed),
    record {
      backed = omega (arith, size);
      bytes = λ i. ground (arith, byte-cleared i, valid.bytes i);
    },
    refl,
    size,
    λ j. ground (arith, byte-cleared (j / 8), test_bit-zero (j % 8)),
  )
    where
      size : length cleared ≡ length m.bits
      size = omega (
        arith,
        length-append (replicate m.bytes_len 0) (drop m.bytes_len m.bits),
        length-drop m.bytes_len m.bits,
        length-replicate {A = ℕ} m.bytes_len 0,
        valid.backed,
      )

-- If the bit just behind the bitmap is set, a run that `bitmap_alloc` hands out ends inside it.
pub guard_bit :
    (m : Bitmap) (cnt s : ℕ) (m' : Bitmap)
    → IsValid m
    → 0 < cnt
    → 8 * m.bytes_len + cnt ≤ 8 * length m.bits + 1
    → bit m (8 * m.bytes_len) ≡ true
    → bitmap_alloc m cnt ≡ ok (some s, m')
    → s + cnt ≤ 8 * m.bytes_len
guard_bit m cnt s m' valid pos room guard run =
    let (r, run', takes) = bitmap_alloc-TakesRun m cnt valid pos room in
    let (lt, clear, first, turned) = subst (TakesRun m cnt) (ok-injective (sym run' ∙ run)) takes in
    ground (arith, clear (8 * m.bytes_len - s))

-- A bitmap whose last bit alone is clear, with a clear bit in the memory behind it, hands out a run of
-- two that ends outside, and sets that bit.
pub bitmap_alloc_overrun :
    (m : Bitmap)
    → IsValid m
    → 0 < m.bytes_len
    → 8 * m.bytes_len + 1 ≤ 8 * length m.bits
    → ((i : ℕ) → i + 1 < 8 * m.bytes_len → bit m i ≡ true)
    → bit m (8 * m.bytes_len - 1) ≡ false
    → bit m (8 * m.bytes_len) ≡ false
    → (m' : Bitmap) × (bitmap_alloc m 2 ≡ ok (some (8 * m.bytes_len - 1), m'))
      × (bit m' (8 * m.bytes_len) ≡ true)
bitmap_alloc_overrun m valid some_bits room full last behind =
    let (r, run, takes) = bitmap_alloc-TakesRun m 2 valid (omega arith) (omega arith) in
    let (at_end, set_behind) = last_run r takes in
    (r.1, run ∙ ap (λ s. ok (s, r.1)) at_end, set_behind)
  where
    last_run :
        (r : Option ℕ × Bitmap)
        → TakesRun m 2 r
        → (r.0 ≡ some (8 * m.bytes_len - 1)) × (bit r.1 (8 * m.bytes_len) ≡ true)
    last_run (none, m') (same, no_run) =
        absurd (no_run (8 * m.bytes_len - 1) (omega arith) (λ k lt. ground arith))
    last_run (some s, m') (lt, clear, first, turned) =
        let at_end : s ≡ 8 * m.bytes_len - 1 = ground (arith, full s, clear 0) in
        (ap some at_end, ground (arith, turned.bits (8 * m.bytes_len)))

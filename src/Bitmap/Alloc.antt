-- ===== src/Bitmap/Alloc.antt =====
-- `bitmap_alloc_a_bit` and `bitmap_alloc`: what they find and what they change.

use recover_os.Prelude.{
  ℕ, zero, suc, ◌+◌, ◌-◌, ◌*◌, ◌≤◌, ◌<◌, ◌≡◌, refl, inl, inr, true, false, arith, ok, ◌==◌, ltb,
  Option, none, some, length, Bool-cases, ◌>>=◌, ltb→lt, not_ltb→le, ==→eq, not_==→ne,
}
use recover_os.Bitmap.{
  Bitmap, alloc_a_bit_from, bitmap_alloc_a_bit, scan_free, mark, alloc_from, bitmap_alloc,
}
use recover_os.Bitmap.Laws.{bit, InMemory, IsValid, write, read-ok, set-ok}
use recover_os.Bitmap.Turned.{Clear, Used, Turned, Turned-write, Turned-refl, Turned-step}

-- What `bitmap_alloc_a_bit` may return: the first clear bit, now set, or nothing where all are set.
abbrev pub TakesFirst : Bitmap → (from rounds : ℕ) → Option ℕ × Bitmap → Type 0
TakesFirst m i n (none, m') = (m' ≡ m) × Used m i n
TakesFirst m i n (some s, m') =
    (i ≤ s)
    × (s < i + n)
    × (bit m s ≡ false)
    × ((t : ℕ) → i ≤ t → t < s → bit m t ≡ true)
    × Turned true s 1 m m'

-- What `bitmap_alloc` may return: the first run of `cnt` clear bits that begins within the bitmap,
-- now set, or nothing where there is none.
abbrev pub TakesRun : Bitmap → (cnt : ℕ) → Option ℕ × Bitmap → Type 0
TakesRun m cnt (none, m') = (m' ≡ m) × ((t : ℕ) → t < 8 * m.bytes_len → ¬ Clear m t cnt)
TakesRun m cnt (some s, m') =
    (s < 8 * m.bytes_len)
    × Clear m s cnt
    × ((t : ℕ) → t < s → ¬ Clear m t cnt)
    × Turned true s cnt m m'

extend :
    (m : Bitmap) (n i : ℕ) (r : Option ℕ × Bitmap)
    → bit m i ≡ true
    → TakesFirst m (i + 1) n r
    → TakesFirst m i (suc n) r
extend m n i (none, m') used (same, rest) = (
  same,
  λ k lt. elim (Bool-cases (k == 0)) [
    | inl e ↦ ground (arith)
    | inr ne ↦ ground (arith, rest (k - 1))
  ],
)
extend m n i (some s, m') used (lo, hi, clear, first, turned) = (
  omega arith,
  omega arith,
  clear,
  λ t le lt. elim (Bool-cases (t == i)) [
    | inl e ↦ ground arith
    | inr ne ↦ first t (ground arith) lt
  ],
  turned,
)

alloc_a_bit_from-TakesFirst :
    {m : Bitmap}
    → IsValid m
    → (n i : ℕ) → i + n ≤ 8 * m.bytes_len
    → (r : Option ℕ × Bitmap) × (alloc_a_bit_from m n i ≡ ok r) × TakesFirst m i n r
unfolding alloc_a_bit_from
alloc_a_bit_from-TakesFirst {m} valid zero i room =
    ((none, m), refl, (refl, λ k lt. absurd (omega arith)))
alloc_a_bit_from-TakesFirst {m} valid (suc n) i room =
    let here : InMemory m i = omega (arith, valid.backed) in
    elim (Bool-cases (bit m i)) [
      | inl used ↦
          let (r, run, takes) = alloc_a_bit_from-TakesFirst valid n (i + 1) (omega arith) in
          (r, rw (read-ok m i here, used) run, extend m n i r used takes)
      | inr clear ↦ (
        (some i, write m i true),
        rw (read-ok m i here, clear, set-ok m i true here),
        (
          omega arith,
          omega arith,
          clear,
          λ t le lt. absurd (omega arith),
          Turned-write valid i true here,
        ),
      )
    ]

-- On a sound bitmap `bitmap_alloc_a_bit` always returns. It hands out the lowest clear bit and sets
-- it and no other, or says -1 and changes nothing, and then every bit of the bitmap is set.
pub bitmap_alloc_a_bit-TakesFirst :
    (m : Bitmap)
    → IsValid m
    → (r : Option ℕ × Bitmap) × (bitmap_alloc_a_bit m ≡ ok r) × TakesFirst m 0 (8 * m.bytes_len) r
unfolding bitmap_alloc_a_bit
bitmap_alloc_a_bit-TakesFirst m valid =
    alloc_a_bit_from-TakesFirst valid (8 * m.bytes_len) 0 (omega arith)

-- The inner loop of `bitmap_alloc`: it counts the clear bits, and stops early only at a set one.
record Scanned (m : Bitmap) (i n j r : ℕ) : Type 0 where
  low : j ≤ r
  high : r ≤ j + n
  clear : (k : ℕ) → j ≤ k → k < r → bit m (i + k) ≡ false
  stopped : r < j + n → bit m (i + r) ≡ true

scan_free-Scanned :
    (m : Bitmap) (i n j : ℕ)
    → i + j + n ≤ 8 * length m.bits
    → (r : ℕ) × (scan_free m i n j ≡ ok r) × Scanned m i n j r
unfolding scan_free
scan_free-Scanned m i zero j room = (
  j,
  refl,
  record {
    low = omega arith;
    high = omega arith;
    clear = λ k le lt. absurd (omega arith);
    stopped = λ lt. absurd (omega arith);
  },
)
scan_free-Scanned m i (suc n) j room =
    let here : InMemory m (i + j) = omega arith in
    elim (Bool-cases (bit m (i + j))) [
      | inl used ↦ (
        j,
        rw (read-ok m (i + j) here, used),
        record {
          low = omega arith;
          high = omega arith;
          clear = λ k le lt. absurd (omega arith);
          stopped = λ _. used;
        },
      )
      | inr free ↦
          let (r, run, s) = scan_free-Scanned m i n (j + 1) (omega arith) in
          (
            r,
            rw (read-ok m (i + j) here, free) run,
            record {
              low = omega (arith, s.low);
              high = omega (arith, s.high);
              clear = λ k le lt. elim (Bool-cases (k == j)) [
                | inl e ↦ ground arith
                | inr ne ↦ s.clear k (ground arith) lt
              ];
              stopped = λ lt. s.stopped (omega arith);
            },
          )
    ]

mark-Turned :
    (m : Bitmap)
    → IsValid m
    → (i n k s : ℕ) → s ≡ i + k
    → s + n ≤ 8 * length m.bits
    → (m' : Bitmap) × (mark m i n k ≡ ok m') × Turned true s n m m'
unfolding mark
mark-Turned m valid i zero k s e room = (m, refl, Turned-refl valid true s)
mark-Turned m valid i (suc n) k s e room =
    let here : InMemory m s = omega arith in
    let one = Turned-write valid s true here in
    let (m', run, t) =
      mark-Turned (write m s true) one.valid i n (k + 1) (s + 1) (omega arith)
        (omega (arith, one.same_memory)) in
    (m', rw (← e, set-ok m s true here) run, Turned-step true s n one t)

module _ {m : Bitmap} (valid : IsValid m) (cnt : ℕ) (pos : 0 < cnt)
    (room : 8 * m.bytes_len + cnt ≤ 8 * length m.bits + 1) where
  -- A set bit rules out each run that reaches over it.
  blocked : (t u : ℕ) → bit m u ≡ true → t ≤ u → u < t + cnt → ¬ Clear m t cnt
  blocked t u used le lt clear = ground (arith, clear (u - t))

  alloc_from-TakesRun :
      (fuel i : ℕ)
      → 0 < fuel
      → 8 * m.bytes_len < i + fuel
      → ((t : ℕ) → t < i → t < 8 * m.bytes_len → ¬ Clear m t cnt)
      → (r : Option ℕ × Bitmap) × (alloc_from m cnt fuel i ≡ ok r) × TakesRun m cnt r
  unfolding alloc_from
  alloc_from-TakesRun zero i some_fuel enough none_before = absurd (omega arith)
  alloc_from-TakesRun (suc f) i some_fuel enough none_before =
      elim (Bool-cases (ltb i (8 * m.bytes_len))) [
        | inr out ↦
            ((none, m), rw (out, alloc_from), (refl, λ t lt. none_before t (ground arith) lt))
        | inl inside ↦
            let i_lt : i < 8 * m.bytes_len = ltb→lt _ _ inside in
            let here : InMemory m i = omega (arith, valid.backed) in
            elim (Bool-cases (bit m i)) [
              | inl used ↦
                  let (r, run, takes) =
                    alloc_from-TakesRun f (i + 1) (omega arith) (omega arith) (λ t lt in_range.
                      elim (Bool-cases (ltb t i)) [
                        | inl before ↦ none_before t (ltb→lt _ _ before) in_range
                        | inr here' ↦
                            blocked t i used (omega (arith, not_ltb→le t i here'))
                              (omega (arith, not_ltb→le t i here'))
                      ]) in
                  (r, rw (inside, read-ok m i here, used, alloc_from) run, takes)
              | inr free ↦
                  let (j, scan, s) = scan_free-Scanned m i cnt 0 (omega arith) in
                  elim (Bool-cases (j == cnt)) [
                    | inl whole ↦
                        let (m', run, t) =
                          mark-Turned m valid i cnt 0 i (omega arith) (omega arith) in
                        (
                          (some i, m'),
                          rw (inside, read-ok m i here, free, scan, ◌>>=◌, whole, run, alloc_from),
                          (
                            i_lt,
                            λ k lt. s.clear k (omega arith) (omega (arith, ==→eq j cnt whole)),
                            λ t lt. none_before t lt (omega arith),
                            t,
                          ),
                        )
                    | inr part ↦
                        let short : j < cnt = omega (arith, s.high, not_==→ne j cnt part) in
                        let (r, run, takes) =
                          alloc_from-TakesRun f (i + j + 1) (omega arith) (omega arith)
                            (λ t lt in_range. elim (Bool-cases (ltb t i)) [
                              | inl before ↦ none_before t (ltb→lt _ _ before) in_range
                              | inr here' ↦
                                  blocked t (i + j) (s.stopped (omega arith)) (omega arith)
                                    (omega (arith, not_ltb→le t i here'))
                            ]) in
                        (
                          r,
                          rw (inside, read-ok m i here, free, scan, ◌>>=◌, part, alloc_from) run,
                          takes,
                        )
                  ]
            ]
      ]

-- Where the memory goes on for `cnt - 1` bits behind the bitmap, `bitmap_alloc` always returns. It
-- hands out the first run of `cnt` clear bits that begins within the bitmap and sets exactly
-- these, or says -1 and changes nothing, and then no such run begins within the bitmap.
pub bitmap_alloc-TakesRun :
    (m : Bitmap) (cnt : ℕ)
    → IsValid m
    → 0 < cnt
    → 8 * m.bytes_len + cnt ≤ 8 * length m.bits + 1
    → (r : Option ℕ × Bitmap) × (bitmap_alloc m cnt ≡ ok r) × TakesRun m cnt r
unfolding bitmap_alloc
bitmap_alloc-TakesRun m cnt valid pos room =
    alloc_from-TakesRun valid cnt pos room (8 * m.bytes_len + 1) 0 (omega arith) (omega arith)
      (λ t lt. absurd (omega arith))

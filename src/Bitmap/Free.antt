-- ===== src/Bitmap/Free.antt =====
-- `bitmap_free`, and what it does to a run that `bitmap_alloc` handed out.

use recover_os.Prelude.{
  ℕ, zero, suc, ◌+◌, ◌-◌, ◌*◌, ◌≤◌, ◌<◌, ◌≡◌, refl, sym, subst, ◌∙◌, ◌≢◌, inl, inr, true, false,
  arith, ok, ok-injective, panic, some, length, Bool-cases,
}
use recover_os.Bitmap.{Bitmap, bitmap_alloc, free_from, bitmap_free}
use recover_os.Bitmap.Laws.{bit, InMemory, IsValid, write, read-ok, set-ok}
use recover_os.Bitmap.Turned.{Clear, Used, Turned, Turned-write, Turned-refl, Turned-step}
use recover_os.Bitmap.Alloc.{TakesRun, bitmap_alloc-TakesRun}

free_from-Turned :
    (m : Bitmap)
    → IsValid m
    → (idx n i s : ℕ) → s ≡ idx + i
    → s + n ≤ 8 * length m.bits
    → Used m s n
    → (m' : Bitmap) × (free_from m idx n i ≡ ok m') × Turned false s n m m'
unfolding free_from
free_from-Turned m valid idx zero i s e room used = (m, refl, Turned-refl valid false s)
free_from-Turned m valid idx (suc n) i s e room used =
    let here : InMemory m s = omega arith in
    let first : bit m s ≡ true = ground (arith, used 0) in
    let one = Turned-write valid s false here in
    let (m', run, t) =
      free_from-Turned (write m s false) one.valid idx n (i + 1) (s + 1) (omega arith)
        (omega (arith, one.same_memory))
        (λ k lt. ground (arith, one.bits (s + 1 + k), used (k + 1))) in
    (m', rw (← e, read-ok m s here, first, set-ok m s false here) run, Turned-step false s n one t)

-- `bitmap_free` of a range of set bits in memory clears exactly these.
pub bitmap_free-Turned :
    (m : Bitmap) (s n : ℕ)
    → IsValid m
    → s + n ≤ 8 * length m.bits
    → Used m s n
    → (m' : Bitmap) × (bitmap_free m s n ≡ ok m') × Turned false s n m m'
unfolding bitmap_free
bitmap_free-Turned m s n valid room used = free_from-Turned m valid s n 0 s (omega arith) room used

-- A range that is not all set trips the ASSERT of `bitmap_free`.
free_from-panic :
    (m : Bitmap)
    → IsValid m
    → (idx n i s k : ℕ) → s ≡ idx + i
    → s + n ≤ 8 * length m.bits
    → k < n
    → bit m (s + k) ≡ false
    → free_from m idx n i ≡ panic
unfolding free_from
free_from-panic m valid idx zero i s k e room lt clear = absurd (omega arith)
free_from-panic m valid idx (suc n) i s k e room lt clear =
    let here : InMemory m s = omega arith in
    elim (Bool-cases (bit m s)) [
      | inr off ↦ rw (← e, read-ok m s here, off)
      | inl on ↦
          let one = Turned-write valid s false here in
          let pos : k ≢ 0 = ground arith in
          rw (← e, read-ok m s here, on, set-ok m s false here)
            (free_from-panic (write m s false) one.valid idx n (i + 1) (s + 1) (k - 1) (omega arith)
              (omega (arith, one.same_memory)) (omega arith)
              (ground (arith, one.bits (s + 1 + (k - 1)))))
    ]

-- Clearing a run that was clear before it was set gives back the bits that there were.
free-Turned :
    (m m' : Bitmap) (s cnt : ℕ)
    → Clear m s cnt
    → Turned true s cnt m m'
    → s + cnt ≤ 8 * length m.bits
    → (m'' : Bitmap) × (bitmap_free m' s cnt ≡ ok m'') × ((j : ℕ) → bit m'' j ≡ bit m j)
free-Turned m m' s cnt clear t room =
    let (m'', run, u) =
      bitmap_free-Turned m' s cnt t.valid (omega (arith, t.same_memory))
        (λ k lt. ground (arith, t.bits (s + k))) in
    (m'', run, λ j. ground (arith, t.bits j, u.bits j, clear (j - s)))

-- Freeing the run that `bitmap_alloc` handed out never fails and gives back the bits that there were
-- before, where the memory goes on for `cnt - 1` bits behind the bitmap.
pub bitmap_free-bitmap_alloc :
    (m m' : Bitmap) (s cnt : ℕ)
    → IsValid m
    → 0 < cnt
    → 8 * m.bytes_len + cnt ≤ 8 * length m.bits + 1
    → bitmap_alloc m cnt ≡ ok (some s, m')
    → (m'' : Bitmap) × (bitmap_free m' s cnt ≡ ok m'') × ((j : ℕ) → bit m'' j ≡ bit m j)
bitmap_free-bitmap_alloc m m' s cnt valid pos room run =
    let (r, run', taken) = bitmap_alloc-TakesRun m cnt valid pos room in
    let (within, clear, first, turned) =
      subst (TakesRun m cnt) (ok-injective (sym run' ∙ run)) taken in
    free-Turned m m' s cnt clear turned (omega arith)

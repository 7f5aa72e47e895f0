-- ===== src/Game2048/Adding.antt =====
-- `badd`, which puts a number into an empty cell, and `num2idx`.
use recover_os.Prelude.{
  ℕ, zero, suc, ◌+◌, ◌*◌, ◌%◌, ◌^◌, ◌≤◌, ◌<◌, ◌≡◌, refl, ◌∙◌, ap, ◌≢◌, ◌⊎◌, inl, inr, true, Option,
  none, some, arith, ok, ◌==◌, if◌then◌else◌, Bool-cases, ==→eq, ne→not_==,
}
use native.Mathlib.Nat.{pow-suc, pow-le-pow_right, mod-lt, mul_assoc, mul-le-mul_left}
use recover_os.Game2048.{
  Cells, store, twice, cnt_in_row, cnt_in_rows, getcnt, num2idx_from, num2idx, rand, add_at, badd,
}

-- The empty cells among the `n` from `i` on
empty_from : (n i : ℕ) → Cells → ℕ
empty_from zero i grid = 0
empty_from (suc n) i grid = (if grid i == 1 then 1 else 0) + empty_from n (i + 1) grid

getcnt-empty : (grid : Cells) → getcnt grid 1 ≡ empty_from 16 0 grid
unfolding getcnt cnt_in_rows cnt_in_row empty_from
getcnt-empty grid = omega arith

-- An empty cell gets a 2 or a 4.
pub record Added (grid grid' : Cells) : Type 0 where
  pub at : ℕ
  pub value : ℕ
  pub within : at < 16
  pub was_empty : grid at ≡ 1
  pub two_or_four : (value ≡ 2) ⊎ (value ≡ 4)
  pub placed : grid' ≡ store at value grid

parity : (x : ℕ) → (2 * (x % 2 + 1) ≡ 2) ⊎ (2 * (x % 2 + 1) ≡ 4)
parity x = elim (Bool-cases (x % 2 == 0)) [
  | inl e ↦ inl (ground (arith, e))
  | inr e ↦ inr (ground (arith, e))
]

add_at-Added :
    (n i idx random seed : ℕ) (grid : Cells)
    → i + n ≤ 16
    → idx ≤ random
    → random < idx + empty_from n i grid
    → (grid' : Cells) × (add_at n i idx random seed grid ≡ (rand seed, grid')) × Added grid grid'
unfolding add_at empty_from
add_at-Added zero i idx random seed grid low le lt = absurd (omega arith)
add_at-Added (suc n) i idx random seed grid low le lt = elim (Bool-cases (grid i == 1)) [
  | inr full ↦
      let (grid', run, added) =
        add_at-Added n (i + 1) idx random seed grid (omega arith) le (ground (arith, full, lt)) in
      (grid', rw (add_at, full) run, added)
  | inl empty ↦ elim (Bool-cases (idx == random)) [
    | inr before ↦
        let (grid', run, added) =
          add_at-Added n (i + 1) (idx + 1) random seed grid (omega arith) (ground (arith, before))
            (ground (arith, empty, lt)) in
        (grid', rw (add_at, empty, before) run, added)
    | inl here ↦ (
      store i (2 * (rand seed % 2 + 1)) grid,
      rw (add_at, empty, here) refl,
      record {
        at = i;
        value = 2 * (rand seed % 2 + 1);
        within = omega arith;
        was_empty = ==→eq (grid i) 1 empty;
        two_or_four = parity (rand seed);
        placed = refl;
      },
    )
  ]
]

-- What `badd` comes to
abbrev pub Adds : Cells → Option (ℕ × Cells) → Type 0
Adds grid none = getcnt grid 1 ≡ 0
Adds grid (some (seed, grid')) = (0 < getcnt grid 1) × Added grid grid'

-- `badd` puts a 2 or a 4 into one of the empty cells of the board and changes no other, whatever
-- the ticks are, or says -1 where `getcnt` counts no empty cell.
pub badd-Adds : (ticks : ℕ) (grid : Cells) → Adds grid (badd ticks grid)
unfolding badd
badd-Adds ticks grid = elim (Bool-cases (getcnt grid 1 == 0)) [
  | inl full ↦ rw (full, if◌then◌else◌) (==→eq (getcnt grid 1) 0 full)
  | inr some_empty ↦
      let pos : 0 < getcnt grid 1 = ground (arith, some_empty) in
      let seed = rand (ticks % 2 ^ 32) in
      let (grid', run, added) =
        add_at-Added 16 0 0 (seed % getcnt grid 1) seed grid (omega arith) (omega arith)
          (omega (arith, mod-lt seed pos, getcnt-empty grid)) in
      rw (some_empty, if◌then◌else◌, run) (pos, added)
]

equal : (n m : ℕ) → n ≡ m → n == m ≡ true
equal n m e = ground arith

power_pos : (d : ℕ) → 0 < 2 ^ d
power_pos zero = omega arith
power_pos (suc d) = omega (arith, power_pos d, pow-suc 2 d)

-- A round doubles, and the doublings to go halve.
doubled :
    (n d num : ℕ)
    → n * 2 ^ suc d ≡ num
    → 0 < n
    → num < 2 ^ 32
    → (n ≢ num) × (twice n * 2 ^ d ≡ num) × (0 < twice n)
doubled n d num e pos low =
    let whole : 2 * (n * 2 ^ d) ≡ num =
      omega (arith, e, ap (λ q. n * q) (pow-suc 2 d), mul_assoc n (2 ^ d) 2) in
    let least = mul-le-mul_left {m = 1} {n = 2 ^ d} n (omega (arith, power_pos d)) in
    let small : 2 * n ≤ num = omega (arith, whole, least) in
    let same : twice n ≡ 2 * n = omega (arith, small, low) in
    (
      omega (arith, small, pos),
      ap (λ m. m * 2 ^ d) same ∙ omega (arith, mul_assoc 2 n (2 ^ d), whole),
      omega (arith, same, pos),
    )

-- The loop counts `d` doublings.
num2idx_from-power :
    (f d idx n num : ℕ)
    → d < f
    → n * 2 ^ d ≡ num
    → 0 < n
    → num < 2 ^ 32
    → num2idx_from f idx n num ≡ ok (idx + d)
unfolding num2idx_from
num2idx_from-power zero d idx n num lt e pos low = absurd (omega arith)
num2idx_from-power (suc f) zero idx n num lt e pos low =
    rw (num2idx_from, equal n num (omega (arith, e))) (ap ok (omega arith))
num2idx_from-power (suc f) (suc d) idx n num lt e pos low =
    let (ne, e', pos') = doubled n d num e pos low in
    rw (num2idx_from, ne→not_== n num ne)
      (num2idx_from-power f d (idx + 1) (twice n) num (omega arith) e' pos' low
        ∙ ap ok (omega arith))

bounded : (k : ℕ) → k < 32 → 2 ^ k < 2 ^ 32
bounded k lt = omega (arith, pow-le-pow_right {n = 2} (omega arith) {i = k} {j = 31} (omega arith))

-- `num2idx` of a power of two below 2 ^ 32 returns its exponent.
pub num2idx-power : (k : ℕ) → k < 32 → num2idx (2 ^ k) ≡ ok k
unfolding num2idx
num2idx-power k lt =
    num2idx_from-power 32 k 0 1 (2 ^ k) lt (omega arith) (omega arith) (bounded k lt)
    ∙ ap ok (omega arith)

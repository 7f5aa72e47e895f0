-- ===== src/Snake/Food.antt =====
-- command/snake.c, `add_food`: where the food is put.
use recover_os.Prelude.{
  ℕ, zero, suc, ◌+◌, ◌*◌, ◌%◌, ◌^◌, ◌≤◌, ◌<◌, ◌≡◌, refl, ap, inl, inr, true, arith, Option, none,
  some, ◌==◌, if◌then◌else◌, Bool-cases, ==→eq,
}
use native.Mathlib.Nat.{mod-lt}
use recover_os.Snake.{
  Field, Status, space, block, food, same_status, store, cnt_in_line, cnt_in_lines, getcnt, rand,
  food_at, add_food,
}

-- The cells of a status among the `n` from `i` on
cells : (n i : ℕ) → Field → Status → ℕ
cells zero i map val = 0
cells (suc n) i map val = (if same_status (map i) val then 1 else 0) + cells n (i + 1) map val

cells-add :
    (n m i : ℕ) (map : Field) (val : Status)
    → cells (n + m) i map val ≡ cells n i map val + cells m (i + n) map val
unfolding cells
cells-add zero m i map val =
    let same : 0 + m ≡ m = omega arith in
    let here : i + 0 ≡ i = omega arith in rw (same, here) omega arith
cells-add (suc n) m i map val =
    let next = cells-add n m (i + 1) map val in
    let same : (i + 1) + n ≡ i + suc n = omega arith in
    let long : suc n + m ≡ suc (n + m) = omega arith in
    rw (long) omega (arith, next, ap (λ k. cells m k map val) same)

cnt_in_line-cells :
    (n j i : ℕ) (map : Field) (val : Status)
    → cnt_in_line n j i map val ≡ cells n (i * 20 + j) map val
unfolding cnt_in_line cells
cnt_in_line-cells zero j i map val = refl
cnt_in_line-cells (suc n) j i map val =
    let next = cnt_in_line-cells n (j + 1) i map val in
    let same : i * 20 + (j + 1) ≡ i * 20 + j + 1 = omega arith in
    omega (arith, next, ap (λ k. cells n k map val) same)

cnt_in_lines-cells :
    (n i : ℕ) (map : Field) (val : Status)
    → cnt_in_lines n i map val ≡ cells (n * 20) (i * 20) map val
unfolding cnt_in_lines cells
cnt_in_lines-cells zero i map val =
    ap (λ n. cells n (i * 20) map val) {x = 0} {y = 0 * 20} (omega arith)
cnt_in_lines-cells (suc n) i map val =
    let first = cnt_in_line-cells 20 0 i map val in
    let next = cnt_in_lines-cells n (i + 1) map val in
    let all = cells-add 20 (n * 20) (i * 20) map val in
    let a : i * 20 + 0 ≡ i * 20 = omega arith in
    let b : (i + 1) * 20 ≡ i * 20 + 20 = omega arith in
    let c : suc n * 20 ≡ 20 + n * 20 = omega arith in
    rw (c) omega (
      arith,
      first,
      next,
      all,
      ap (λ k. cells 20 k map val) a,
      ap (λ k. cells (n * 20) k map val) b,
    )

-- `getcnt` counts the cells of a status.
getcnt-cells : (map : Field) (val : Status) → getcnt map val ≡ cells 400 0 map val
unfolding getcnt
getcnt-cells map val = cnt_in_lines-cells 20 0 map val

space-same : (v : Status) → same_status v space ≡ true → v ≡ space
unfolding same_status
space-same space e = refl
space-same block e = cc
space-same food e = cc

-- Food is put on an empty cell of the field, and nothing else changes.
pub record Placed (map map' : Field) (at : ℕ) : Type 0 where
  pub within : at < 400
  pub was_space : map at ≡ space
  pub placed : map' ≡ store at food map

food_at-Placed :
    (n i idx random : ℕ) (map : Field)
    → i + n ≤ 400
    → idx ≤ random
    → random < idx + cells n i map space
    → (at : ℕ) × (map' : Field) × (food_at n i idx random map ≡ (at, map')) × Placed map map' at
unfolding food_at cells
food_at-Placed zero i idx random map low le lt = absurd (omega (arith, le, lt))
food_at-Placed (suc n) i idx random map low le lt = elim (Bool-cases (same_status (map i) space)) [
  | inr full ↦
      let (at, map', run, p) =
        food_at-Placed n (i + 1) idx random map (omega (arith, low)) le
          (ground (arith, full, lt)) in
      (at, map', rw (food_at, full) run, p)
  | inl empty ↦ elim (Bool-cases (idx == random)) [
    | inl here ↦ (
      i,
      store i food map,
      rw (food_at, empty, here) refl,
      record { within = omega (arith, low); was_space = space-same (map i) empty; placed = refl },
    )
    | inr before ↦
        let (at, map', run, p) =
          food_at-Placed n (i + 1) (idx + 1) random map (omega (arith, low))
            (ground (arith, before, le)) (ground (arith, empty, lt)) in
        (at, map', rw (food_at, empty, before) run, p)
  ]
]

-- What `add_food` comes to
abbrev pub AddsFood : Field → Option ℕ × ℕ × Field → Type 0
AddsFood map (none, seed, map') = (getcnt map space ≡ 0) × (map' ≡ map)
AddsFood map (some at, seed, map') = Placed map map' at

-- `add_food` puts food on one of the empty cells of the field and returns its index, and changes no
-- other, whatever the ticks are, or returns -1 and changes nothing where `getcnt` counts no empty cell.
pub add_food-AddsFood : (ticks seed : ℕ) (map : Field) → AddsFood map (add_food ticks seed map)
unfolding add_food
add_food-AddsFood ticks seed map = elim (Bool-cases (getcnt map space == 0)) [
  | inl full ↦ rw (full, if◌then◌else◌) (==→eq (getcnt map space) 0 full, refl)
  | inr some_empty ↦
      let pos : 0 < getcnt map space = ground (arith, some_empty) in
      let seed' = rand (ticks % 2 ^ 32) in
      let (at, map', run, p) =
        food_at-Placed 400 0 0 (seed' % getcnt map space) map (omega arith) (omega arith)
          (omega (arith, mod-lt seed' pos, getcnt-cells map space)) in
      rw (some_empty, if◌then◌else◌, run) p
]

-- ===== src/Game2048.antt =====
-- command/2048.c: the moves of the board.
--
-- An array is what stands at its indices, without an end: `rmv` reads the cell behind the row, which
-- for the last row is behind the board. A cell of 1 is empty, and a number is 32 bits.
mod Examples
pub mod Adding
pub mod Moves
pub mod Rows
use recover_os.Prelude.{
  ok, some, none, out_of_fuel, Option, Run, ℕ, zero, suc, ◌+◌, ◌-◌, ◌*◌, ◌/◌, ◌%◌, ◌^◌, Bool, true,
  false, ◌&&◌, not, ltb, leb, ◌==◌, if◌then◌else◌,
}

abbrev pub row_cnt : ℕ
row_cnt = 4

abbrev pub col_cnt : ℕ
col_cnt = 4

abbrev pub Cells : Type 0
Cells = ℕ → ℕ

abbrev pub store : ℕ → ℕ → Cells → Cells
store i v arr = λ j. if j == i then v else arr j

abbrev pub twice : ℕ → ℕ
twice x = 2 * x % 2 ^ 32

-- The loops of `getcnt`
unfoldable pub cnt_in_row : (rounds j i : ℕ) → Cells → (val : ℕ) → ℕ
cnt_in_row zero j i grid val = 0
cnt_in_row (suc n) j i grid val =
    (if grid (i * row_cnt + j) == val then 1 else 0) + cnt_in_row n (j + 1) i grid val

unfoldable pub cnt_in_rows : (rounds i : ℕ) → Cells → (val : ℕ) → ℕ
cnt_in_rows zero i grid val = 0
cnt_in_rows (suc n) i grid val = cnt_in_row col_cnt 0 i grid val + cnt_in_rows n (i + 1) grid val

unfoldable pub getcnt : Cells → (val : ℕ) → ℕ
getcnt grid val = cnt_in_rows row_cnt 0 grid val

-- `num2idx`, whose loop ends only at a power of two; `fuel` is more than its exponent.
unfoldable pub num2idx_from : (fuel idx n num : ℕ) → Run ℕ
num2idx_from zero idx n num = out_of_fuel
num2idx_from (suc f) idx n num = elim (n == num) [
  | true ↦ ok idx
  | false ↦ num2idx_from f (idx + 1) (twice n) num
]

unfoldable pub num2idx : (num : ℕ) → Run ℕ
num2idx num = num2idx_from 32 0 1 num

-- `rand`, which returns the new seed as well
unfoldable pub rand : (seed : ℕ) → ℕ
rand seed = seed * 6807 % 2 ^ 32 % 2147483647

-- The loop of `badd`, with the seed and the board that it leaves.
unfoldable pub add_at : (rounds i idx random seed : ℕ) → Cells → ℕ × Cells
add_at zero i idx random seed grid = (seed, grid)
add_at (suc n) i idx random seed grid = elim (grid i == 1) [
  | true ↦ elim (idx == random) [
    | true ↦ (rand seed, store i (2 * (rand seed % 2 + 1)) grid)
    | false ↦ add_at n (i + 1) (idx + 1) random seed grid
  ]
  | false ↦ add_at n (i + 1) idx random seed grid
]

-- `ticks` is what `getticks` returns, and none is -1.
unfoldable pub badd : (ticks : ℕ) → Cells → Option (ℕ × Cells)
badd ticks grid =
    let space_var = getcnt grid 1 in
    let seed = rand (ticks % 2 ^ 32) in
    if space_var == 0
    then none
    else some (add_at (row_cnt * col_cnt) 0 0 (seed % space_var) seed grid)

-- The loop of `rmv`; `arr` is at index `at`.
unfoldable pub shift : (rounds at idx : ℕ) → Cells → Cells
shift zero at idx arr = arr
shift (suc n) at idx arr = shift n at (idx + 1) (store (at + idx) (arr (at + (idx + 1))) arr)

unfoldable pub rmv : (at idx len : ℕ) → Cells → Cells
rmv at idx len arr = store (at + (len - 1)) 1 (shift (len - idx) at idx arr)

-- The first loop over a row in `mvleft`, from cell `rounds - 1` down
unfoldable pub squeeze : (rounds at col : ℕ) → Cells → Cells
squeeze zero at col arr = arr
squeeze (suc i) at col arr = squeeze i at col (if arr (at + i) == 1 then rmv at i col arr else arr)

-- The second one
unfoldable pub join : (rounds i at col : ℕ) → Cells → Cells
join zero i at col arr = arr
join (suc n) i at col arr = join n (i + 1) at col (
    if (arr (at + i) == arr (at + (i + 1))) && not (arr (at + i) == 1)
    then rmv at (i + 1) col (store (at + i) (twice (arr (at + i))) arr)
    else arr)

-- `mvleft` of `rows` rows, from index `at` on.
unfoldable pub mvleft : (rows at col : ℕ) → Cells → Cells
mvleft zero at col arr = arr
mvleft (suc n) at col arr =
    mvleft n (at + col) col (join (col - 1) 0 at col (squeeze col at col arr))

unfoldable pub trans_line : (rounds j i row col : ℕ) (dst src : Cells) → Cells
trans_line zero j i row col dst src = dst
trans_line (suc n) j i row col dst src =
    trans_line n (j + 1) i row col (store (i * col + j) (src (j * row + i)) dst) src

unfoldable pub trans_lines : (rounds i row col : ℕ) (dst src : Cells) → Cells
trans_lines zero i row col dst src = dst
trans_lines (suc n) i row col dst src =
    trans_lines n (i + 1) row col (trans_line row 0 i row col dst src) src

unfoldable pub trans : (dst src : Cells) (row col : ℕ) → Cells
trans dst src row col = trans_lines col 0 row col dst src

unfoldable pub tover_line : (rounds j i row col : ℕ) (dst src : Cells) → Cells
tover_line zero j i row col dst src = dst
tover_line (suc n) j i row col dst src =
    tover_line n (j + 1) i row col (store (i * row + j) (src (i * row + col - 1 - j)) dst) src

unfoldable pub tover_lines : (rounds i row col : ℕ) (dst src : Cells) → Cells
tover_lines zero i row col dst src = dst
tover_lines (suc n) i row col dst src =
    tover_lines n (i + 1) row col (tover_line col 0 i row col dst src) src

unfoldable pub tover : (dst src : Cells) (row col : ℕ) → Cells
tover dst src row col = tover_lines row 0 row col dst src

-- A move; `gtmp`, `gtmp1` and `gtmp2` are what stood in the arrays on the stack.
unfoldable pub pleft : Cells → Cells
pleft grid = mvleft row_cnt 0 col_cnt grid

unfoldable pub pup : (gtmp grid : Cells) → Cells
pup gtmp grid =
    trans grid (mvleft col_cnt 0 row_cnt (trans gtmp grid row_cnt col_cnt)) col_cnt row_cnt

unfoldable pub pright : (gtmp grid : Cells) → Cells
pright gtmp grid =
    tover grid (mvleft row_cnt 0 col_cnt (tover gtmp grid row_cnt col_cnt)) row_cnt col_cnt

unfoldable pub pdown : (gtmp1 gtmp2 grid : Cells) → Cells
pdown gtmp1 gtmp2 grid =
    let turned = trans gtmp1 grid row_cnt col_cnt in
    let moved = mvleft col_cnt 0 row_cnt (tover gtmp2 turned col_cnt row_cnt) in
    trans grid (tover turned moved col_cnt row_cnt) col_cnt row_cnt

-- `enum dire` without QUIT, and the array `func`.
pub data Dire : Type 0 where
  left : Dire
  down : Dire
  up : Dire
  right : Dire

pub func : Dire → (gtmp1 gtmp2 grid : Cells) → Cells
func left gtmp1 gtmp2 grid = pleft grid
func down gtmp1 gtmp2 grid = pdown gtmp1 gtmp2 grid
func up gtmp1 gtmp2 grid = pup gtmp1 grid
func right gtmp1 gtmp2 grid = pright gtmp1 grid

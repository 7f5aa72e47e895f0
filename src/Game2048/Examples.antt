-- ===== src/Game2048/Examples.antt =====
-- command/2048.c on a board of some numbers.
use recover_os.Prelude.{◌≡◌, refl, [], ◌∷◌, arith, get_or}
use recover_os.Game2048.{Cells, getcnt, cnt_in_rows, cnt_in_row, func, down}
use recover_os.Game2048.{badd, num2idx}
use recover_os.Game2048.Adding.{Adds, badd-Adds, num2idx-power}
use recover_os.Prelude.{◌^◌, ok}
use recover_os.Game2048.Rows.{slide}
use recover_os.Game2048.Moves.{line, func-slide}

abbrev board : Cells
board i = get_or (2 ∷ 1 ∷ 2 ∷ 4 ∷ 2 ∷ 1 ∷ 1 ∷ 4 ∷ 4 ∷ 1 ∷ 1 ∷ 8 ∷ 4 ∷ 1 ∷ 16 ∷ 8 ∷ []) i 1

abbrev stack : Cells
stack i = 77

empty_cells : getcnt board 1 ≡ 6
unfolding getcnt cnt_in_rows cnt_in_row
empty_cells = refl

first_column : slide (line down 0 board) ≡ 8 ∷ 4 ∷ 1 ∷ 1 ∷ []
first_column = refl

func_example : line down 0 (func down stack stack board) ≡ slide (line down 0 board)
func_example = func-slide down stack stack board 0 (omega arith)

badd_example : Adds board (badd 7 board)
badd_example = badd-Adds 7 board

num2idx_example : num2idx (2 ^ 11) ≡ ok 11
num2idx_example = num2idx-power 11 (omega arith)

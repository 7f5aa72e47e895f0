-- ===== src/Game2048/Moves.antt =====
-- The four moves, on the lines of the board in their direction.
use recover_os.Prelude.{
  ℕ, zero, suc, ◌+◌, ◌*◌, ◌≤◌, ◌<◌, ◌≡◌, refl, ◌∙◌, ap, ◌⊎◌, inl, inr, List, [], ◌∷◌, arith,
}
use recover_os.Game2048.{
  Cells, squeeze, join, mvleft, trans_line, trans_lines, trans, tover_line, tover_lines, tover,
  pleft, pup, pright, pdown, Dire, left, down, up, right, func,
}
use recover_os.Game2048.Rows.{row, list4, slide, moved-row, moved-outside}

-- Line `k` of the board, from the side that the move goes to.
abbrev pub line : Dire → ℕ → Cells → List ℕ
line left k g = g (4 * k) ∷ g (4 * k + 1) ∷ g (4 * k + 2) ∷ g (4 * k + 3) ∷ []
line right k g = g (4 * k + 3) ∷ g (4 * k + 2) ∷ g (4 * k + 1) ∷ g (4 * k) ∷ []
line up k g = g k ∷ g (k + 4) ∷ g (k + 8) ∷ g (k + 12) ∷ []
line down k g = g (k + 12) ∷ g (k + 8) ∷ g (k + 4) ∷ g k ∷ []

abbrev moved : ℕ → Cells → Cells
moved at g = join 3 0 at 4 (squeeze 4 at 4 g)

row-outside : (at b : ℕ) (g : Cells) → (at + 4 ≤ b) ⊎ (b + 4 ≤ at) → row at (moved b g) ≡ row at g
row-outside at b g out =
    list4 (moved-outside b at g (ground arith)) (moved-outside b (at + 1) g (ground arith))
      (moved-outside b (at + 2) g (ground arith)) (moved-outside b (at + 3) g (ground arith))

mvleft-row : (k : ℕ) (g : Cells) → k < 4 → row (4 * k) (mvleft 4 0 4 g) ≡ slide (row (4 * k) g)
unfolding mvleft
mvleft-row zero g lt =
    let g1 = moved 0 g in
    let g2 = moved 4 g1 in
    row-outside 0 12 (moved 8 g2) (inl (omega arith))
    ∙ row-outside 0 8 g2 (inl (omega arith))
    ∙ row-outside 0 4 g1 (inl (omega arith))
    ∙ moved-row 0 g
mvleft-row (suc zero) g lt =
    let g1 = moved 0 g in
    let g2 = moved 4 g1 in
    row-outside 4 12 (moved 8 g2) (inl (omega arith))
    ∙ row-outside 4 8 g2 (inl (omega arith))
    ∙ moved-row 4 g1
    ∙ ap slide (row-outside 4 0 g (inr (omega arith)))
mvleft-row (suc (suc zero)) g lt =
    let g1 = moved 0 g in
    let g2 = moved 4 g1 in
    row-outside 8 12 (moved 8 g2) (inl (omega arith))
    ∙ moved-row 8 g2
    ∙ ap slide (row-outside 8 4 g1 (inr (omega arith)) ∙ row-outside 8 0 g (inr (omega arith)))
mvleft-row (suc (suc (suc zero))) g lt =
    let g1 = moved 0 g in
    let g2 = moved 4 g1 in
    moved-row 12 (moved 8 g2)
    ∙ ap slide (
        row-outside 12 8 g2 (inr (omega arith))
        ∙ row-outside 12 4 g1 (inr (omega arith))
        ∙ row-outside 12 0 g (inr (omega arith)))
mvleft-row (suc (suc (suc (suc k)))) g lt = absurd (omega arith)

-- A transposed board and a mirrored one, row by row
trans-row : (k : ℕ) (dst src : Cells) → k < 4 → row (4 * k) (trans dst src 4 4) ≡ line up k src
unfolding trans trans_lines trans_line
trans-row zero dst src lt = refl
trans-row (suc zero) dst src lt = refl
trans-row (suc (suc zero)) dst src lt = refl
trans-row (suc (suc (suc zero))) dst src lt = refl
trans-row (suc (suc (suc (suc k)))) dst src lt = absurd (omega arith)

trans-line : (k : ℕ) (dst src : Cells) → k < 4 → line up k (trans dst src 4 4) ≡ row (4 * k) src
unfolding trans trans_lines trans_line
trans-line zero dst src lt = refl
trans-line (suc zero) dst src lt = refl
trans-line (suc (suc zero)) dst src lt = refl
trans-line (suc (suc (suc zero))) dst src lt = refl
trans-line (suc (suc (suc (suc k)))) dst src lt = absurd (omega arith)

tover-row : (k : ℕ) (dst src : Cells) → k < 4 → row (4 * k) (tover dst src 4 4) ≡ line right k src
unfolding tover tover_lines tover_line
tover-row zero dst src lt = refl
tover-row (suc zero) dst src lt = refl
tover-row (suc (suc zero)) dst src lt = refl
tover-row (suc (suc (suc zero))) dst src lt = refl
tover-row (suc (suc (suc (suc k)))) dst src lt = absurd (omega arith)

tover-line : (k : ℕ) (dst src : Cells) → k < 4 → line right k (tover dst src 4 4) ≡ row (4 * k) src
unfolding tover tover_lines tover_line
tover-line zero dst src lt = refl
tover-line (suc zero) dst src lt = refl
tover-line (suc (suc zero)) dst src lt = refl
tover-line (suc (suc (suc zero))) dst src lt = refl
tover-line (suc (suc (suc (suc k)))) dst src lt = absurd (omega arith)

-- A row from its end, of a transposed board
trans-back : (k : ℕ) (dst src : Cells) → k < 4 → line right k (trans dst src 4 4) ≡ line down k src
unfolding trans trans_lines trans_line
trans-back zero dst src lt = refl
trans-back (suc zero) dst src lt = refl
trans-back (suc (suc zero)) dst src lt = refl
trans-back (suc (suc (suc zero))) dst src lt = refl
trans-back (suc (suc (suc (suc k)))) dst src lt = absurd (omega arith)

trans-down : (k : ℕ) (dst src : Cells) → k < 4 → line down k (trans dst src 4 4) ≡ line right k src
unfolding trans trans_lines trans_line
trans-down zero dst src lt = refl
trans-down (suc zero) dst src lt = refl
trans-down (suc (suc zero)) dst src lt = refl
trans-down (suc (suc (suc zero))) dst src lt = refl
trans-down (suc (suc (suc (suc k)))) dst src lt = absurd (omega arith)

-- A move slides each of the four lines in its direction by the rule of the game: the cells that are
-- not empty close up, neighbours that are equal become one of twice the number, once each from the
-- side that the move goes to, and the rest of the line is empty.
pub func-slide :
    (dire : Dire) (gtmp1 gtmp2 grid : Cells) (k : ℕ)
    → k < 4
    → line dire k (func dire gtmp1 gtmp2 grid) ≡ slide (line dire k grid)
unfolding func pleft pup pright pdown
func-slide left gtmp1 gtmp2 grid k lt = mvleft-row k grid lt
func-slide up gtmp1 gtmp2 grid k lt =
    trans-line k grid (mvleft 4 0 4 (trans gtmp1 grid 4 4)) lt
    ∙ mvleft-row k (trans gtmp1 grid 4 4) lt
    ∙ ap slide (trans-row k gtmp1 grid lt)
func-slide right gtmp1 gtmp2 grid k lt =
    tover-line k grid (mvleft 4 0 4 (tover gtmp1 grid 4 4)) lt
    ∙ mvleft-row k (tover gtmp1 grid 4 4) lt
    ∙ ap slide (tover-row k gtmp1 grid lt)
func-slide down gtmp1 gtmp2 grid k lt =
    let turned = trans gtmp1 grid 4 4 in
    let m = mvleft 4 0 4 (tover gtmp2 turned 4 4) in
    trans-down k grid (tover turned m 4 4) lt
    ∙ tover-line k turned m lt
    ∙ mvleft-row k (tover gtmp2 turned 4 4) lt
    ∙ ap slide (tover-row k gtmp2 turned lt ∙ trans-back k gtmp1 grid lt)

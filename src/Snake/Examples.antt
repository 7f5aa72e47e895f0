-- ===== src/Snake/Examples.antt =====
-- A snake of three nodes in the first line, and food in front of it.
use recover_os.Prelude.{
  ℕ, ◌≡◌, refl, sym, ◌∙◌, ◌≢◌, inl, inr, Bool, true, false, ◌||◌, arith, [], ◌∷◌, ok, ◌==◌,
  if◌then◌else◌, Bool-cases,
}
use recover_os.LinkedList.Chain.{has}
use recover_os.Snake.{right, Field, space, block, food, Game, snake_move}
use recover_os.Snake.Moving.{IsSnake}
use recover_os.Snake.Rules.{Moves, snake_move-Moves}

-- The snake's sites are 5, 4 and 3, and the food is at 6.
abbrev field : Field
field s = if (s == 3) || ((s == 4) || (s == 5)) then block else if s == 6 then food else space

field-blocks : (s : ℕ) → has s (5 ∷ 4 ∷ 3 ∷ []) ≡ true → field s ≡ block
field-blocks s h = rw (in_snake s h) refl
  where
    in_snake : (s : ℕ) → has s (5 ∷ 4 ∷ 3 ∷ []) ≡ true → ((s == 3) || ((s == 4) || (s == 5))) ≡ true
    in_snake s h = ground (arith, h)

field-others : (s : ℕ) → has s (5 ∷ 4 ∷ 3 ∷ []) ≡ false → field s ≢ block
field-others s h e = elim (Bool-cases (s == 6)) [
  | inl here ↦ ne-food (sym (rw (out s h, here) refl) ∙ e)
  | inr there ↦ ne-space (sym (rw (out s h, there) refl) ∙ e)
]
  where
    ne-food : food ≢ block
    ne-food e = cc

    ne-space : space ≢ block
    ne-space e = cc

    out : (s : ℕ) → has s (5 ∷ 4 ∷ 3 ∷ []) ≡ false → ((s == 3) || ((s == 4) || (s == 5))) ≡ false
    out s h = ground (arith, h)

three-IsSnake : IsSnake (5 ∷ 4 ∷ 3 ∷ []) field
three-IsSnake = record {
  distinct = (refl, (refl, (refl, tt)));
  within = λ s h. ground (arith, h);
  blocks = field-blocks;
  no_others = field-others;
}

snake_move_example :
    (r : Bool × Game) × (snake_move 77 right
        (record { snake = 5 ∷ 4 ∷ 3 ∷ []; map = field; pred = right; score = 0; seed = 1 })
      ≡ ok r)
    × Moves right 5 (4 ∷ 3 ∷ []) field right 0 r
snake_move_example = snake_move-Moves 77 right 5 (4 ∷ 3 ∷ []) field right 0 1 three-IsSnake

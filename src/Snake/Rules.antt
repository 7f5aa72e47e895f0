-- ===== src/Snake/Rules.antt =====
-- command/snake.c: what a move comes to, and the first snake.
use recover_os.Prelude.{
  ℕ, ◌+◌, ◌%◌, ◌^◌, ◌<◌, ◌≡◌, refl, sym, ◌∙◌, ap, ◌≢◌, ◌⊎◌, inl, inr, Bool, true, false, arith,
  List, [], ◌∷◌, Option, none, some, ok, Bool-cases, ne→not_==,
}
use recover_os.LinkedList.Chain.{has}
use recover_os.Snake.{
  Direct, right, Field, Status, space, block, food, store, getcnt, add_food, turn, Game, direction,
  end_site, follow, snake_at, snake_init, snake_move,
}
use recover_os.Snake.Food.{AddsFood, add_food-AddsFood}
use recover_os.Snake.Moving.{IsSnake, tail-IsSnake, new-IsSnake, fed-IsSnake, turn-low}

-- What a move of a snake from `beg` on comes to: it bites itself; or it moves on, its last site left; or
-- it eats and gets a second new site, which may be one of its own.
abbrev pub Moves :
    (d : Direct) (beg : ℕ) (body : List ℕ) (map : Field) (pred : Direct) (score : ℕ)
    → Bool × Game
    → Type 0
Moves d beg body map pred score (r, g') =
    let way = direction d pred in
    let site = turn beg way in
    let left_field = store (end_site beg body) space map in
    ((r ≡ false) × (has site (follow beg body) ≡ true))
    ⊎ ((r ≡ true)
        × (left_field site ≡ space)
        × (g'.snake ≡ site ∷ follow beg body)
        × (g'.pred ≡ way)
        × (g'.score ≡ score)
        × IsSnake g'.snake g'.map)
    ⊎ ((r ≡ true)
        × (left_field site ≡ food)
        × (g'.snake ≡ turn site way ∷ site ∷ follow beg body)
        × (g'.pred ≡ way)
        × (g'.score ≡ (score + 1) % 2 ^ 32)
        × ((has (turn site way) (site ∷ follow beg body) ≡ true) ⊎ IsSnake g'.snake g'.map))

status-cases : (v : Status) → (v ≡ space) ⊎ ((v ≡ block) ⊎ (v ≡ food))
status-cases space = inl refl
status-cases block = inr (inl refl)
status-cases food = inr (inr refl)

module _ (ticks : ℕ) (d : Direct) (beg : ℕ) (body : List ℕ) (map : Field) (pred : Direct)
    (score seed : ℕ) where
  abbrev game : Game
  game = record { snake = beg ∷ body; map = map; pred = pred; score = score; seed = seed }

  abbrev way : Direct
  way = direction d pred

  abbrev site : ℕ
  site = turn beg way

  abbrev map1 : Field
  map1 = store (end_site beg body) space map

  move-block :
      map1 site ≡ block
      → snake_move ticks d game
        ≡ ok (false, record game { snake = site ∷ follow beg body; map = map1 })
  unfolding snake_move
  move-block e = rw (snake_move, e) refl

  move-space :
      map1 site ≡ space
      → snake_move ticks d game
        ≡ ok (
          true,
          record game { snake = site ∷ follow beg body; map = store site block map1; pred = way },
        )
  unfolding snake_move
  move-space e = rw (snake_move, e) refl

  abbrev fed : Option ℕ × ℕ × Field
  fed = add_food ticks seed (store (turn site way) block (store site block map1))

  abbrev fed_game : Game
  fed_game = record {
    snake = turn site way ∷ site ∷ follow beg body;
    map = fed.2;
    pred = way;
    score = (score + 1) % 2 ^ 32;
    seed = fed.1;
  }

  move-food : map1 site ≡ food → snake_move ticks d game ≡ ok (true, fed_game)
  unfolding snake_move
  move-food e = rw (snake_move, e) refl

  module _ (v : IsSnake (beg ∷ body) map) where
    rest : IsSnake (follow beg body) map1
    rest = tail-IsSnake beg body map v

    site-low : site < 400
    site-low = turn-low beg way (v.within beg (ground arith))

    -- The site is not one of the snake's where the field has no block.
    not_block : map1 site ≢ block → has site (follow beg body) ≡ false
    not_block ne = elim (Bool-cases (has site (follow beg body))) [
      | inl own ↦ absurd (ne (rest.blocks site own))
      | inr other ↦ other
    ]

    own_block : map1 site ≡ block → has site (follow beg body) ≡ true
    own_block e = elim (Bool-cases (has site (follow beg body))) [
      | inl own ↦ own
      | inr other ↦ absurd (rest.no_others site other e)
    ]

    longer : map1 site ≢ block → IsSnake (site ∷ follow beg body) (store site block map1)
    longer ne = new-IsSnake site (follow beg body) map1 rest site-low (not_block ne)

    fed-cases :
        map1 site ≢ block
        → (has (turn site way) (site ∷ follow beg body) ≡ true)
          ⊎ IsSnake (turn site way ∷ site ∷ follow beg body) fed.2
    fed-cases ne = elim (Bool-cases (has (turn site way) (site ∷ follow beg body))) [
      | inl own ↦ inl own
      | inr other ↦ inr (
          fed-IsSnake (turn site way ∷ site ∷ follow beg body)
            (store (turn site way) block (store site block map1)) fed
            (new-IsSnake (turn site way) (site ∷ follow beg body) (store site block map1)
              (longer ne) (turn-low site way site-low) other)
            (add_food-AddsFood ticks seed (store (turn site way) block (store site block map1))))
    ]

    -- `snake_move` of a snake in order never fails. It returns -1 where the next site, in the direction
    -- asked for or the one before if that goes back, is one that the snake keeps. If that site is empty,
    -- the last site of the snake's being left, the snake moves on to it and is in order; if food is there,
    -- it also moves on to the site behind, and is in order unless this is one of its own, and the
    -- score is one more.
    pub snake_move-Moves :
        (r : Bool × Game) × (snake_move ticks d game ≡ ok r) × Moves d beg body map pred score r
    snake_move-Moves = elim (status-cases (map1 site)) [
      | inl empty ↦ (
        (
          true,
          record game { snake = site ∷ follow beg body; map = store site block map1; pred = way },
        ),
        move-space empty,
        inr (inl (refl, empty, refl, refl, refl, longer (λ e. space-ne (sym empty ∙ e)))),
      )
      | inr (inl bitten) ↦ (
        (false, record game { snake = site ∷ follow beg body; map = map1 }),
        move-block bitten,
        inl (refl, own_block bitten),
      )
      | inr (inr eaten) ↦ (
        (true, fed_game),
        move-food eaten,
        inr (inr (refl, eaten, refl, refl, refl, fed-cases (λ e. food-ne (sym eaten ∙ e)))),
      )
    ]
      where
        space-ne : space ≢ block
        space-ne e = cc

        food-ne : food ≢ block
        food-ne e = cc

turn_right-ne : (i : ℕ) → i < 400 → turn i right ≢ i
unfolding turn
turn_right-ne i lt = omega (arith, lt)

-- Two nodes in the other order
swapped-IsSnake : (a b : ℕ) (map : Field) → IsSnake (a ∷ b ∷ []) map → IsSnake (b ∷ a ∷ []) map
swapped-IsSnake a b map v = record {
  distinct = (ground (arith, v.distinct.0), (refl, tt));
  within = λ s h. v.within s (ground (arith, h));
  blocks = λ s h. v.blocks s (ground (arith, h));
  no_others = λ s h. v.no_others s (ground (arith, h));
}

empty-IsSnake : (map : Field) → ((s : ℕ) → map s ≢ block) → IsSnake [] map
empty-IsSnake map none_there = record {
  distinct = tt;
  within = λ s h. absurd (true-ne-false (sym h));
  blocks = λ s h. absurd (true-ne-false (sym h));
  no_others = λ s h. none_there s;
}
  where
    true-ne-false : true ≢ false
    true-ne-false e = cc

-- `snake_init` on a field without a block, with an empty cell: a snake in order, of two nodes that stand
-- side by side.
pub snake_init-IsSnake :
    (ticks : ℕ) (g : Game)
    → ((s : ℕ) → g.map s ≢ block)
    → getcnt g.map space ≢ 0
    → (beg : ℕ) × (g' : Game) × (snake_init ticks g ≡ ok g')
      × (g'.snake ≡ beg ∷ turn beg right ∷ [])
      × IsSnake g'.snake g'.map
unfolding snake_init snake_at
snake_init-IsSnake ticks g none_there room =
    go (add_food ticks g.seed g.map) refl (add_food-AddsFood ticks g.seed g.map)
  where
    go :
        (r : Option ℕ × ℕ × Field)
        → add_food ticks g.seed g.map ≡ r
        → AddsFood g.map r
        → (beg : ℕ) × (g' : Game) × (snake_init ticks g ≡ ok g')
          × (g'.snake ≡ beg ∷ turn beg right ∷ [])
          × IsSnake g'.snake g'.map
    go (none, seed, map') e (full, same) = absurd (room full)
    go (some beg, seed, map') e p =
        let bare : IsSnake [] map' =
          fed-IsSnake [] g.map (some beg, seed, map') (empty-IsSnake g.map none_there) p in
        let one = new-IsSnake beg [] map' bare p.within refl in
        let next-low = turn-low beg right p.within in
        let two =
          new-IsSnake (turn beg right) (beg ∷ []) (store beg block map') one next-low
            (ground (arith, ne→not_== (turn beg right) beg (turn_right-ne beg p.within))) in
        (
          beg,
          record g {
            snake = beg ∷ turn beg right ∷ [];
            seed = seed;
            map = store (turn beg right) block (store beg block map');
          },
          ap (λ r. snake_at r g) e,
          refl,
          swapped-IsSnake (turn beg right) beg (store (turn beg right) block (store beg block map'))
              two,
        )

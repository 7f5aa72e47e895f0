-- ===== src/Snake.antt =====
-- command/snake.c: the field, the food and a move of the snake.
--
-- The nodes of the list are the sequence of their sites, from the head to the tail. What `srand` and
-- `rand` leave in `seed`, and the other variables of the file, are fields of the game. The memory that
-- `malloc` returns is there.
mod Examples
pub mod Food
pub mod Moving
pub mod Rules
use recover_os.Prelude.{
  ℕ, zero, suc, ◌+◌, ◌-◌, ◌*◌, ◌/◌, ◌%◌, ◌^◌, Bool, true, false, ◌&&◌, not, ◌==◌, if◌then◌else◌,
  Option, none, some, List, [], ◌∷◌, Run, ok, fault,
}

abbrev pub wid : ℕ
wid = 20

abbrev pub hei : ℕ
hei = 20

pub data Direct : Type 0 where
  left : Direct
  down : Direct
  up : Direct
  right : Direct
  quit : Direct

-- The number of an enumerator
unfoldable pub direct_no : Direct → ℕ
direct_no left = 0
direct_no down = 1
direct_no up = 2
direct_no right = 3
direct_no quit = 4

pub data Status : Type 0 where
  space : Status
  block : Status
  food : Status

unfoldable pub same_status : Status → Status → Bool
same_status space space = true
same_status block block = true
same_status food food = true
same_status space block = false
same_status space food = false
same_status block space = false
same_status block food = false
same_status food space = false
same_status food block = false

abbrev pub Field : Type 0
Field = ℕ → Status

abbrev pub store : ℕ → Status → Field → Field
store i v map = λ j. if j == i then v else map j

-- The loops of `getcnt`
unfoldable pub cnt_in_line : (rounds j i : ℕ) → Field → Status → ℕ
cnt_in_line zero j i map val = 0
cnt_in_line (suc n) j i map val =
    (if same_status (map (i * hei + j)) val then 1 else 0) + cnt_in_line n (j + 1) i map val

unfoldable pub cnt_in_lines : (rounds i : ℕ) → Field → Status → ℕ
cnt_in_lines zero i map val = 0
cnt_in_lines (suc n) i map val = cnt_in_line wid 0 i map val + cnt_in_lines n (i + 1) map val

unfoldable pub getcnt : Field → Status → ℕ
getcnt map val = cnt_in_lines hei 0 map val

unfoldable pub rand : (seed : ℕ) → ℕ
rand seed = seed * 6807 % 2 ^ 32 % 2147483647

-- The loop of `add_food`: the index at which it stops, and the field.
unfoldable pub food_at : (rounds i idx random : ℕ) → Field → ℕ × Field
food_at zero i idx random map = (i, map)
food_at (suc n) i idx random map = elim (same_status (map i) space) [
  | false ↦ food_at n (i + 1) idx random map
  | true ↦ elim (idx == random) [
    | true ↦ (i, store i food map)
    | false ↦ food_at n (i + 1) (idx + 1) random map
  ]
]

-- A result of none is -1; `ticks` is what `getticks` returns.
unfoldable pub add_food : (ticks seed : ℕ) → Field → Option ℕ × ℕ × Field
add_food ticks seed map =
    let space_var = getcnt map space in
    if space_var == 0
    then (none, seed, map)
    else (let seed = rand (ticks % 2 ^ 32) in
        let r = food_at (hei * wid) 0 0 (seed % space_var) map in (some r.0, seed, r.1))

unfoldable pub turn : (idx : ℕ) → Direct → ℕ
turn idx left = idx / hei * hei + (idx % hei + wid - 1) % wid
turn idx down = (idx / hei + 1) % wid * hei + idx % hei
turn idx up = (idx / hei + hei - 1) % hei * hei + idx % hei
turn idx right = idx / hei * hei + (idx % hei + 1) % wid
turn idx quit = idx / hei * hei + idx % hei

pub record Game : Type 0 where
  pub snake : List ℕ
  pub map : Field
  pub pred : Direct
  pub score : ℕ
  pub seed : ℕ

-- The direction of a move: one that goes back is not taken.
unfoldable pub direction : (d pred : Direct) → Direct
direction d pred =
    let across : Bool = direct_no d % 3 == 0 in
    let across_before : Bool = direct_no pred % 3 == 0 in
    let alike : Bool = if across then across_before else not across_before in
    if alike && not (direct_no d == direct_no pred) then pred else d

-- The site of the last node
unfoldable pub end_site : (beg : ℕ) → List ℕ → ℕ
end_site beg [] = beg
end_site beg (x ∷ l) = end_site x l

-- The loop of `snake_move`: each node behind one of site `pre` takes the site in front of it.
unfoldable pub follow : (pre : ℕ) → List ℕ → List ℕ
follow pre [] = []
follow pre (x ∷ l) = pre ∷ follow x l

-- The snake of two nodes, from what `add_food` returns; a result of -1 is an index outside of the field.
unfoldable pub snake_at : Option ℕ × ℕ × Field → Game → Run Game
snake_at (none, seed, map) g = fault
snake_at (some beg, seed, map) g =
    let end = turn beg right in
    ok (record g {
      snake = beg ∷ end ∷ [];
      seed = seed;
      map = store end block (store beg block map);
    })

unfoldable pub snake_init : (ticks : ℕ) → Game → Run Game
snake_init ticks g = snake_at (add_food ticks g.seed g.map) g

-- Whether the result is 0
unfoldable pub snake_move : (ticks : ℕ) → Direct → Game → Run (Bool × Game)
snake_move ticks d g = elim g.snake [
  | [] ↦ fault
  | beg ∷ body ↦
      let d = direction d g.pred in
      let map = store (end_site beg body) space g.map in
      let site = turn beg d in
      let moved : Game = record g { snake = site ∷ follow beg body; map = map } in
      elim (map site) [
        | block ↦ ok (false, moved)
        | space ↦ ok (true, record moved { map = store site block map; pred = d })
        | food ↦
            let newbeg = turn site d in
            let r = add_food ticks g.seed (store newbeg block (store site block map)) in
            ok (
              true,
              record {
                snake = newbeg ∷ site ∷ follow beg body;
                map = r.2;
                pred = d;
                score = (g.score + 1) % 2 ^ 32;
                seed = r.1;
              },
            )
      ]
]

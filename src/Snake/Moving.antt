-- ===== src/Snake/Moving.antt =====
-- command/snake.c, `snake_move`: a snake in order and its moves.
use recover_os.Prelude.{
  ℕ, ◌<◌, ◌≡◌, refl, sym, ◌∙◌, ap, subst, ◌≢◌, inl, inr, true, false, ◌&&◌, not, arith, List, [],
  ◌∷◌, Option, none, some, ◌==◌, Bool-cases, ==→eq, not_==→ne, ne→not_==, ==_self,
}
use recover_os.LinkedList.Chain.{has, Distinct}
use recover_os.Snake.{
  Direct, left, down, up, right, quit, Field, Status, space, block, food, store, turn, end_site,
  follow,
}
use recover_os.Snake.Food.{AddsFood}

-- A turn stays on the field, and the opposite one leads back.
pub opposite : Direct → Direct
opposite left = right
opposite right = left
opposite up = down
opposite down = up
opposite quit = quit

pub turn-low : (i : ℕ) (d : Direct) → i < 400 → turn i d < 400
unfolding turn
turn-low i left lt = omega (arith, lt)
turn-low i down lt = omega (arith, lt)
turn-low i up lt = omega (arith, lt)
turn-low i right lt = omega (arith, lt)
turn-low i quit lt = omega (arith, lt)

pub turn-opposite : (i : ℕ) (d : Direct) → i < 400 → turn (turn i d) (opposite d) ≡ i
unfolding turn opposite
turn-opposite i left lt = omega (arith, lt)
turn-opposite i down lt = omega (arith, lt)
turn-opposite i up lt = omega (arith, lt)
turn-opposite i right lt = omega (arith, lt)
turn-opposite i quit lt = omega (arith, lt)

-- The nodes are of different sites, on the field, and the blocks of the field are theirs.
pub record IsSnake (snake : List ℕ) (map : Field) : Type 0 where
  pub distinct : Distinct snake
  pub within : (s : ℕ) → has s snake ≡ true → s < 400
  pub blocks : (s : ℕ) → has s snake ≡ true → map s ≡ block
  pub no_others : (s : ℕ) → has s snake ≡ false → map s ≢ block

has-end_site : (p : ℕ) (l : List ℕ) → has (end_site p l) (p ∷ l) ≡ true
unfolding end_site
has-end_site p [] = ground arith
has-end_site p (x ∷ l) = ground (arith, has-end_site x l)

-- The sites behind the head after a move: all but the last one.
has-follow :
    (p : ℕ) (l : List ℕ) (s : ℕ)
    → Distinct (p ∷ l)
    → has s (follow p l) ≡ (has s (p ∷ l) && not (s == end_site p l))
unfolding follow end_site
has-follow p [] s d = ground arith
has-follow p (x ∷ l) s d = elim (Bool-cases (s == p)) [
  | inr other ↦ ground (arith, has-follow x l s d.1, other)
  | inl here ↦
      let ne : s ≢ end_site x l = (λ e.
        ground (arith, ap (λ q. has q (x ∷ l)) (sym e ∙ ==→eq s p here), has-end_site x l, d.0)) in
      rw (here, ne→not_== s (end_site x l) ne) refl
]

follow-Distinct : (p : ℕ) (l : List ℕ) → Distinct (p ∷ l) → Distinct (follow p l)
unfolding follow
follow-Distinct p [] d = tt
follow-Distinct p (x ∷ l) d = (ground (arith, has-follow x l p d.1, d.0), follow-Distinct x l d.1)

space-ne-block : space ≢ block
space-ne-block e = cc

food-ne-block : food ≢ block
food-ne-block e = cc

store_self : (i : ℕ) (v : Status) (map : Field) → store i v map i ≡ v
store_self i v map = rw (==_self i) refl

store_other : (i j : ℕ) (v : Status) (map : Field) → j ≢ i → store i v map j ≡ map j
store_other i j v map ne = rw (ne→not_== j i ne) refl

-- The last node leaves its site.
pub tail-IsSnake :
    (beg : ℕ) (body : List ℕ) (map : Field)
    → IsSnake (beg ∷ body) map
    → IsSnake (follow beg body) (store (end_site beg body) space map)
tail-IsSnake beg body map v = record {
  distinct = follow-Distinct beg body v.distinct;
  within = λ s h. v.within s (ground (arith, h, has-follow beg body s v.distinct));
  blocks = λ s h.
      store_other (end_site beg body) s space map
        (not_==→ne s (end_site beg body) (ground (arith, h, has-follow beg body s v.distinct)))
      ∙ v.blocks s (ground (arith, h, has-follow beg body s v.distinct));
  no_others = λ s h e. elim (Bool-cases (s == end_site beg body)) [
    | inl here ↦ space-ne-block (
        sym (store_self (end_site beg body) space map)
        ∙ ap (store (end_site beg body) space map) (sym (==→eq s (end_site beg body) here))
        ∙ e)
    | inr other ↦ v.no_others s (ground (arith, h, other, has-follow beg body s v.distinct)) (
        sym (store_other (end_site beg body) s space map (not_==→ne s (end_site beg body) other))
        ∙ e)
  ];
}

-- A node gets a site that no other has.
pub new-IsSnake :
    (site : ℕ) (l : List ℕ) (map : Field)
    → IsSnake l map
    → site < 400
    → has site l ≡ false
    → IsSnake (site ∷ l) (store site block map)
new-IsSnake site l map v low new = record {
  distinct = (new, v.distinct);
  within = λ s h. elim (Bool-cases (s == site)) [
    | inl here ↦ omega (arith, ==→eq s site here, low)
    | inr other ↦ v.within s (ground (arith, h, other))
  ];
  blocks = λ s h. elim (Bool-cases (s == site)) [
    | inl here ↦ ap (store site block map) (==→eq s site here) ∙ store_self site block map
    | inr other ↦
        store_other site s block map (not_==→ne s site other)
        ∙ v.blocks s (ground (arith, h, other))
  ];
  no_others = λ s h e.
      let other : s == site ≡ false = ground (arith, h) in
      v.no_others s (ground (arith, h))
        (sym (store_other site s block map (not_==→ne s site other)) ∙ e);
}

-- Food is put on an empty cell, or nowhere.
pub fed-IsSnake :
    (l : List ℕ) (map : Field) (r : Option ℕ × ℕ × Field)
    → IsSnake l map
    → AddsFood map r
    → IsSnake l r.2
fed-IsSnake l map (none, seed, map') v (full, same) = subst (IsSnake l) (sym same) v
fed-IsSnake l map (some at, seed, map') v p = subst (IsSnake l) (sym p.placed) (record {
  distinct = v.distinct;
  within = v.within;
  blocks = λ s h.
      store_other at s food map
        (λ e. space-ne-block (sym p.was_space ∙ ap map (sym e) ∙ v.blocks s h))
      ∙ v.blocks s h;
  no_others = λ s h e. elim (Bool-cases (s == at)) [
    | inl here ↦
        food-ne-block
          (sym (store_self at food map) ∙ ap (store at food map) (sym (==→eq s at here)) ∙ e)
    | inr other ↦ v.no_others s h (sym (store_other at s food map (not_==→ne s at other)) ∙ e)
  ];
})

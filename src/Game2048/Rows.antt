-- ===== src/Game2048/Rows.antt =====
-- `mvleft` of one row, against the rule of the game on a list of cells.
use recover_os.Prelude.{
  ne→not_==, set, ap₂, ℕ, zero, suc, ◌+◌, ◌-◌, ◌≤◌, ◌<◌, ◌≡◌, refl, sym, ◌∙◌, ap, ◌⊎◌, Bool, true,
  false, ◌&&◌, not, List, [], ◌∷◌, ◌++◌, arith, ◌==◌, if◌then◌else◌, get_or, length, replicate,
}
use recover_os.Game2048.{Cells, store, twice, shift, rmv, squeeze, join}

abbrev pub row : ℕ → Cells → List ℕ
row at g = g at ∷ g (at + 1) ∷ g (at + 2) ∷ g (at + 3) ∷ []

-- The cells that are not empty
abbrev pub kept : List ℕ → List ℕ
kept [] = []
kept (x ∷ l) = if x == 1 then kept l else x ∷ kept l

-- Two neighbours that are equal become one of twice the number; what came of them joins no more.
abbrev pub merged : List ℕ → List ℕ
merged [] = []
merged (x ∷ []) = x ∷ []
merged (x ∷ y ∷ l) = if x == y then twice x ∷ merged l else x ∷ merged (y ∷ l)

abbrev pub padded : List ℕ → List ℕ
padded l = l ++ replicate (4 - length l) 1

-- The rule of the game on a row of four cells
abbrev pub slide : List ℕ → List ℕ
slide l = padded (merged (kept l))

-- A cell taken out, and an empty one at the end
abbrev without : ℕ → List ℕ → List ℕ
without i [] = []
without zero (x ∷ l) = l ++ 1 ∷ []
without (suc i) (x ∷ l) = x ∷ without i l

pub list4 :
    {a a' b b' c c' d d' : ℕ}
    → a ≡ a'
    → b ≡ b'
    → c ≡ c'
    → d ≡ d'
    → a ∷ b ∷ c ∷ d ∷ [] ≡ a' ∷ b' ∷ c' ∷ d' ∷ []
list4 e f g h =
    ap₂ (λ (a : ℕ) (l : List ℕ). a ∷ l) e
      (ap₂ (λ (a : ℕ) (l : List ℕ). a ∷ l) f (ap₂ (λ a b. a ∷ b ∷ []) g h))

rmv-row : (at i : ℕ) (g : Cells) → i < 4 → row at (rmv at i 4 g) ≡ without i (row at g)
unfolding rmv shift
rmv-row at zero g lt = list4 (ground arith) (ground arith) (ground arith) (ground arith)
rmv-row at (suc zero) g lt = list4 (ground arith) (ground arith) (ground arith) (ground arith)
rmv-row at (suc (suc zero)) g lt = list4 (ground arith) (ground arith) (ground arith) (ground arith)
rmv-row at (suc (suc (suc zero))) g lt =
    list4 (ground arith) (ground arith) (ground arith) (ground arith)
rmv-row at (suc (suc (suc (suc i)))) g lt = absurd (omega arith)

cell : (at i : ℕ) (g : Cells) → i < 4 → get_or (row at g) i 0 ≡ g (at + i)
cell at zero g lt = ap g (omega arith)
cell at (suc zero) g lt = refl
cell at (suc (suc zero)) g lt = refl
cell at (suc (suc (suc zero))) g lt = refl
cell at (suc (suc (suc (suc i)))) g lt = absurd (omega arith)

store-row : (at i v : ℕ) (g : Cells) → i < 4 → row at (store (at + i) v g) ≡ set (row at g) i v
store-row at zero v g lt = list4 (ground arith) (ground arith) (ground arith) (ground arith)
store-row at (suc zero) v g lt = list4 (ground arith) (ground arith) (ground arith) (ground arith)
store-row at (suc (suc zero)) v g lt =
    list4 (ground arith) (ground arith) (ground arith) (ground arith)
store-row at (suc (suc (suc zero))) v g lt =
    list4 (ground arith) (ground arith) (ground arith) (ground arith)
store-row at (suc (suc (suc (suc i)))) v g lt = absurd (omega arith)

row-if :
    (at : ℕ) (b : Bool) (g h : Cells)
    → row at (if b then g else h) ≡ (if b then row at g else row at h)
row-if at true g h = refl
row-if at false g h = refl

if-cong :
    (b b' : Bool) (x x' y : List ℕ)
    → b ≡ b'
    → x ≡ x'
    → (if b then x else y) ≡ (if b' then x' else y)
if-cong b b' x x' y e f = ap₂ (λ b x. if b then x else y) e f

-- The two loops on a list
abbrev squeezed : ℕ → List ℕ → List ℕ
squeezed zero l = l
squeezed (suc i) l = squeezed i (if get_or l i 0 == 1 then without i l else l)

abbrev joined : (n i : ℕ) → List ℕ → List ℕ
joined zero i l = l
joined (suc n) i l = joined n (i + 1) (
    if (get_or l i 0 == get_or l (i + 1) 0) && not (get_or l i 0 == 1)
    then without (i + 1) (set l i (twice (get_or l i 0)))
    else l)

squeeze-row : (i at : ℕ) (g : Cells) → i ≤ 4 → row at (squeeze i at 4 g) ≡ squeezed i (row at g)
unfolding squeeze
squeeze-row zero at g le = refl
squeeze-row (suc i) at g le =
    squeeze-row i at (if g (at + i) == 1 then rmv at i 4 g else g) (omega arith)
    ∙ ap (squeezed i) (
        row-if at (g (at + i) == 1) (rmv at i 4 g) g
        ∙ if-cong (g (at + i) == 1) (get_or (row at g) i 0 == 1) (row at (rmv at i 4 g))
            (without i (row at g)) (row at g) (ap (λ x. x == 1) (sym (cell at i g (omega arith))))
            (rmv-row at i g (omega arith)))

join-row : (n i at : ℕ) (g : Cells) → i + n ≤ 3 → row at (join n i at 4 g) ≡ joined n i (row at g)
unfolding join
join-row zero i at g le = refl
join-row (suc n) i at g le =
    let doubled = store (at + i) (twice (g (at + i))) g in
    let test = (g (at + i) == g (at + (i + 1))) && not (g (at + i) == 1) in
    let this = cell at i g (omega arith) in
    let next = cell at (i + 1) g (omega arith) in
    join-row n (i + 1) at (if test then rmv at (i + 1) 4 doubled else g) (omega arith)
    ∙ ap (joined n (i + 1)) (
        row-if at test (rmv at (i + 1) 4 doubled) g
        ∙ if-cong test
            ((get_or (row at g) i 0 == get_or (row at g) (i + 1) 0)
              && not (get_or (row at g) i 0 == 1))
            (row at (rmv at (i + 1) 4 doubled))
            (without (i + 1) (set (row at g) i (twice (get_or (row at g) i 0)))) (row at g)
            (ap₂ (λ x y. (x == y) && not (x == 1)) (sym this) (sym next))
            (rmv-row at (i + 1) doubled (omega arith)
              ∙ ap (without (i + 1)) (
                  store-row at i (twice (g (at + i))) g (omega arith)
                  ∙ ap (λ x. set (row at g) i (twice x)) (sym this))))

squeezed-kept : (a b c d : ℕ) → squeezed 4 (a ∷ b ∷ c ∷ d ∷ []) ≡ padded (kept (a ∷ b ∷ c ∷ d ∷ []))
squeezed-kept a b c d = ground arith

joined-merged :
    (a b c d : ℕ) → joined 3 0 (padded (kept (a ∷ b ∷ c ∷ d ∷ []))) ≡ slide (a ∷ b ∷ c ∷ d ∷ [])
joined-merged a b c d = ground arith

-- A row behind the two loops of `mvleft`
pub moved-row : (at : ℕ) (g : Cells) → row at (join 3 0 at 4 (squeeze 4 at 4 g)) ≡ slide (row at g)
moved-row at g =
    join-row 3 0 at (squeeze 4 at 4 g) (omega arith)
    ∙ ap (joined 3 0) (
        squeeze-row 4 at g (omega arith)
        ∙ squeezed-kept (g at) (g (at + 1)) (g (at + 2)) (g (at + 3)))
    ∙ joined-merged (g at) (g (at + 1)) (g (at + 2)) (g (at + 3))

shift-outside :
    (n idx at j : ℕ) (g : Cells) → idx + n ≤ 4 → (j < at) ⊎ (at + 4 ≤ j) → shift n at idx g j ≡ g j
unfolding shift
shift-outside zero idx at j g le out = refl
shift-outside (suc n) idx at j g le out =
    shift-outside n (idx + 1) at j (store (at + idx) (g (at + (idx + 1))) g) (omega arith) out
    ∙ ground arith

rmv-outside : (i at j : ℕ) (g : Cells) → i < 4 → (j < at) ⊎ (at + 4 ≤ j) → rmv at i 4 g j ≡ g j
unfolding rmv
rmv-outside i at j g lt out =
    ap (λ (b : Bool). if b then 1 else shift (4 - i) at i g j)
      (ne→not_== j (at + (4 - 1)) (ground arith))
    ∙ shift-outside (4 - i) i at j g (omega arith) out

if-outside : (b : Bool) (g h : Cells) (j v : ℕ) → g j ≡ v → h j ≡ v → (if b then g else h) j ≡ v
if-outside true g h j v e f = e
if-outside false g h j v e f = f

squeeze-outside :
    (i at j : ℕ) (g : Cells) → i ≤ 4 → (j < at) ⊎ (at + 4 ≤ j) → squeeze i at 4 g j ≡ g j
unfolding squeeze
squeeze-outside zero at j g le out = refl
squeeze-outside (suc i) at j g le out =
    squeeze-outside i at j (if g (at + i) == 1 then rmv at i 4 g else g) (omega arith) out
    ∙ if-outside (g (at + i) == 1) (rmv at i 4 g) g j (g j) (rmv-outside i at j g (omega arith) out)
        refl

join-outside :
    (n i at j : ℕ) (g : Cells) → i + n ≤ 3 → (j < at) ⊎ (at + 4 ≤ j) → join n i at 4 g j ≡ g j
unfolding join
join-outside zero i at j g le out = refl
join-outside (suc n) i at j g le out =
    let doubled = store (at + i) (twice (g (at + i))) g in
    let test = (g (at + i) == g (at + (i + 1))) && not (g (at + i) == 1) in
    join-outside n (i + 1) at j (if test then rmv at (i + 1) 4 doubled else g) (omega arith) out
    ∙ if-outside test (rmv at (i + 1) 4 doubled) g j (g j)
        (rmv-outside (i + 1) at j doubled (omega arith) out ∙ ground arith) refl

-- No cell outside the row changes.
pub moved-outside :
    (at j : ℕ) (g : Cells) → (j < at) ⊎ (at + 4 ≤ j) → join 3 0 at 4 (squeeze 4 at 4 g) j ≡ g j
moved-outside at j g out =
    join-outside 3 0 at j (squeeze 4 at 4 g) (omega arith) out
    ∙ squeeze-outside 4 at j g (omega arith) out

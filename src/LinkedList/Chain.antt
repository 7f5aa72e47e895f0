-- ===== src/LinkedList/Chain.antt =====
-- What a doubly linked list stands for: the sequence of its elements, linked both ways.
use recover_os.Prelude.{◌≡◌, refl, ◌≢◌, Bool, true, false, ◌||◌, List, [], ◌∷◌, ◌++◌, arith, ◌==◌}
use recover_os.LinkedList.{Ptr, null, Links, Queue}

abbrev pub has : Ptr → List Ptr → Bool
has a [] = false
has a (x ∷ xs) = (a == x) || has a xs

abbrev pub Distinct : List Ptr → Type 0
Distinct [] = Unit
Distinct (x ∷ xs) = (has x xs ≡ false) × Distinct xs

-- From `p` the links lead through `xs` to `q`, and back.
abbrev pub Chain : Links → Ptr → List Ptr → Ptr → Type 0
Chain h p [] q = (h.next p ≡ q) × (h.prev q ≡ p)
Chain h p (x ∷ xs) q = (h.next p ≡ x) × (h.prev x ≡ p) × Chain h x xs q

-- The list `q` holds the elements `xs`: sentinels and elements are distinct, none is NULL, and they
-- are linked in order.
pub record Holds (h : Links) (q : Queue) (xs : List Ptr) : Type 0 where
  pub chain : Chain h q.head xs q.tail
  pub distinct : Distinct xs
  pub no_null : has null xs ≡ false
  pub no_head : has q.head xs ≡ false
  pub no_tail : has q.tail xs ≡ false
  pub ends : q.head ≢ q.tail
  pub head_ne_null : q.head ≢ null
  pub tail_ne_null : q.tail ≢ null

-- The links agree on an address.
abbrev pub SameAt : Links → Links → Ptr → Type 0
SameAt h g a = (g.next a ≡ h.next a) × (g.prev a ≡ h.prev a)

-- `g` agrees with `h` but for the links at the addresses of `xs`.
abbrev pub SameOutside : List Ptr → Links → Links → Type 0
SameOutside xs h g = (a : Ptr) → has a xs ≡ false → SameAt h g a

pub has-append : (a : Ptr) (xs ys : List Ptr) → has a (xs ++ ys) ≡ (has a xs || has a ys)
has-append a [] ys = refl
has-append a (x ∷ xs) ys = ground (arith, has-append a xs ys)

-- A chain depends on `next` at its start and elements, and on `prev` at its elements and end.
pub Chain-frame :
    (h g : Links) (p q : Ptr) (xs : List Ptr)
    → Chain h p xs q
    → ((a : Ptr) → has a (p ∷ xs) ≡ true → g.next a ≡ h.next a)
    → ((a : Ptr) → has a (q ∷ xs) ≡ true → g.prev a ≡ h.prev a)
    → Chain g p xs q
Chain-frame h g p q [] c fore back = (ground (arith, fore p), ground (arith, back q))
Chain-frame h g p q (x ∷ xs) c fore back = (
  ground (arith, fore p),
  ground (arith, back x),
  Chain-frame h g x q xs c.2 (λ a i. fore a (ground arith)) (λ a i. back a (ground arith)),
)

-- The last address before the end of a chain.
abbrev pub last_of : Ptr → List Ptr → Ptr
last_of p [] = p
last_of p (x ∷ xs) = last_of x xs

-- The address where `ys`, followed by `q`, begins.
abbrev pub start_of : List Ptr → Ptr → Ptr
start_of [] q = q
start_of (y ∷ ys) q = y

pub has-last_of : (p : Ptr) (xs : List Ptr) → has (last_of p xs) (p ∷ xs) ≡ true
has-last_of p [] = ground arith
has-last_of p (x ∷ xs) = ground (arith, has-last_of x xs)

-- The chain from the first element of `ys` on.
abbrev pub Rest : Links → List Ptr → Ptr → Type 0
Rest h [] q = Unit
Rest h (y ∷ ys) q = Chain h y ys q

pub Chain-cut :
    (h : Links) (p q : Ptr) (xs ys : List Ptr)
    → Chain h p (xs ++ ys) q
    → Chain h p xs (start_of ys q) × Rest h ys q
Chain-cut h p q [] [] c = (c, tt)
Chain-cut h p q [] (y ∷ ys) c = ((c.0, c.1), c.2)
Chain-cut h p q (x ∷ xs) ys c = let (a, b) = Chain-cut h x q xs ys c.2 in ((c.0, c.1, a), b)

pub Chain-join :
    (h : Links) (p q : Ptr) (xs ys : List Ptr)
    → Chain h p xs (start_of ys q)
    → Rest h ys q
    → Chain h p (xs ++ ys) q
Chain-join h p q [] [] c r = c
Chain-join h p q [] (y ∷ ys) c r = (c.0, c.1, r)
Chain-join h p q (x ∷ xs) ys c r = (c.0, c.1, Chain-join h x q xs ys c.2 r)

pub prev-last_of :
    (h : Links) (p q : Ptr) (xs : List Ptr) → Chain h p xs q → h.prev q ≡ last_of p xs
prev-last_of h p q [] c = c.1
prev-last_of h p q (x ∷ xs) c = prev-last_of h x q xs c.2

pub next-start_of :
    (h : Links) (p q : Ptr) (xs : List Ptr) → Chain h p xs q → h.next p ≡ start_of xs q
next-start_of h p q [] c = c.0
next-start_of h p q (x ∷ xs) c = c.0

-- The chain ends at `n` instead, where its last element is linked to `n` both ways.
pub Chain-retarget :
    (h g : Links) (p e n : Ptr) (xs : List Ptr)
    → Chain h p xs e
    → Distinct (p ∷ xs)
    → g.next (last_of p xs) ≡ n
    → g.prev n ≡ last_of p xs
    → ((a : Ptr) → has a (p ∷ xs) ≡ true → a ≢ last_of p xs → g.next a ≡ h.next a)
    → ((a : Ptr) → has a xs ≡ true → g.prev a ≡ h.prev a)
    → Chain g p xs n
Chain-retarget h g p e n [] c d fore back next prev = (fore, back)
Chain-retarget h g p e n (x ∷ xs) c d fore back next prev = (
  ground (arith, next p, has-last_of x xs),
  ground (arith, prev x),
  Chain-retarget h g x e n xs c.2 d.1 fore back (λ a i ne. next a (ground arith) ne)
      (λ a i. prev a (ground arith)),
)

pub has_disjoint :
    (xs ys : List Ptr) (a : Ptr) → Distinct (xs ++ ys) → has a xs ≡ true → has a ys ≡ false
has_disjoint [] ys a d i = cc
has_disjoint (x ∷ xs) ys a d i = ground (arith, has-append x xs ys, has_disjoint xs ys a d.1)

pub Distinct-left : (xs ys : List Ptr) → Distinct (xs ++ ys) → Distinct xs
Distinct-left [] ys d = tt
Distinct-left (x ∷ xs) ys d = (ground (arith, has-append x xs ys), Distinct-left xs ys d.1)

pub Distinct-right : (xs ys : List Ptr) → Distinct (xs ++ ys) → Distinct ys
Distinct-right [] ys d = d
Distinct-right (x ∷ xs) ys d = Distinct-right xs ys d.1

pub Distinct-insert :
    (xs ys : List Ptr) (e : Ptr)
    → Distinct (xs ++ ys)
    → has e (xs ++ ys) ≡ false
    → Distinct (xs ++ e ∷ ys)
Distinct-insert [] ys e d out = (out, d)
Distinct-insert (x ∷ xs) ys e d out = (
  ground (arith, has-append x xs ys, has-append x xs (e ∷ ys)),
  Distinct-insert xs ys e d.1 (ground arith),
)

pub Distinct-remove : (xs ys : List Ptr) (e : Ptr) → Distinct (xs ++ e ∷ ys) → Distinct (xs ++ ys)
Distinct-remove [] ys e d = d.1
Distinct-remove (x ∷ xs) ys e d =
    (ground (arith, has-append x xs ys, has-append x xs (e ∷ ys)), Distinct-remove xs ys e d.1)

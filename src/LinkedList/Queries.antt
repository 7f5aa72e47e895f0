-- ===== src/LinkedList/Queries.antt =====
-- `list_traversal`, `elem_find` and `list_len`: what the walks over a list return.
use recover_os.Prelude.{
  ℕ, zero, suc, ◌+◌, ◌<◌, ◌≡◌, ◌∙◌, ap, Bool, true, false, Option, none, some, List, [], ◌∷◌, arith,
  ◌==◌, if◌then◌else◌, ok, ne→not_==, ==_self, length, Bool-cases, inl, inr,
}
use recover_os.LinkedList.{
  Ptr, null, Links, Queue, get_next, traverse, list_traversal, find_from, elem_find, len_from,
  list_len,
}
use recover_os.LinkedList.Chain.{has, Chain, Holds, start_of, next-start_of}

-- The first element that passes the test.
unfoldable pub find : (Ptr → Bool) → List Ptr → Option Ptr
find func [] = none
find func (x ∷ xs) = if func x then some x else find func xs

pub find-some :
    (func : Ptr → Bool) (xs : List Ptr) {x : Ptr}
    → find func xs ≡ some x
    → (has x xs ≡ true) × (func x ≡ true)
unfolding find
find-some func [] e = cc
find-some func (y ∷ ys) {x} e = elim (Bool-cases (func y)) [
  | inl pass ↦ ground arith
  | inr fail ↦
      let later : find func ys ≡ some x = ground arith in
      let (there, passes) = find-some func ys later in (ground arith, passes)
]

pub find-none :
    (func : Ptr → Bool) (xs : List Ptr) (x : Ptr)
    → find func xs ≡ none
    → has x xs ≡ true
    → func x ≡ false
unfolding find
find-none func [] x e h = cc
find-none func (y ∷ ys) x e h = elim (Bool-cases (func y)) [
  | inl pass ↦ ground arith
  | inr fail ↦
      let later : find func ys ≡ none = ground arith in
      elim (Bool-cases (x == y)) [
        | inl same ↦ ground arith
        | inr other ↦ find-none func ys x later (ground arith)
      ]
]

module _ (h : Links) (q : Queue) where
  -- What a walk needs of the part of the list that it has before it.
  record Ahead (xs : List Ptr) : Type 0 where
    no_null : has null xs ≡ false
    no_tail : has q.tail xs ≡ false

  step :
      (x : Ptr) (xs : List Ptr)
      → Chain h x xs q.tail
      → Ahead (x ∷ xs)
      → (get_next x h ≡ ok (start_of xs q.tail)) × (x == q.tail ≡ false)
  unfolding get_next
  step x xs c ahead = ground (arith, ahead.no_null, ahead.no_tail, next-start_of h x q.tail xs c)

  rest : (x : Ptr) (xs : List Ptr) → Ahead (x ∷ xs) → Ahead xs
  rest x xs ahead = record {
    no_null = ground (arith, ahead.no_null);
    no_tail = ground (arith, ahead.no_tail);
  }

  traverse-find :
      (func : Ptr → Bool) (f : ℕ) (p : Ptr) (xs : List Ptr)
      → Chain h p xs q.tail
      → Ahead xs
      → length xs < f
      → traverse q func h f (start_of xs q.tail) ≡ ok (find func xs)
  unfolding traverse find
  traverse-find func zero p xs c ahead fuel = absurd (omega arith)
  traverse-find func (suc f) p [] c ahead fuel = rw (==_self q.tail)
  traverse-find func (suc f) p (x ∷ xs) c ahead fuel =
      let (next, inside) = step x xs c.2 ahead in
      let ih = traverse-find func f x xs c.2 (rest x xs ahead) (omega arith) in
      rw (inside, next) (ground (arith, ih))

  find_from-has :
      (e : Ptr) (f : ℕ) (p : Ptr) (xs : List Ptr)
      → Chain h p xs q.tail
      → Ahead xs
      → length xs < f
      → find_from q e h f (start_of xs q.tail) ≡ ok (has e xs)
  unfolding find_from
  find_from-has e zero p xs c ahead fuel = absurd (omega arith)
  find_from-has e (suc f) p [] c ahead fuel = rw (==_self q.tail)
  find_from-has e (suc f) p (x ∷ xs) c ahead fuel =
      let (next, inside) = step x xs c.2 ahead in
      let ih = find_from-has e f x xs c.2 (rest x xs ahead) (omega arith) in
      rw (inside, next) (ground (arith, ih))

  len_from-length :
      (f len : ℕ) (p : Ptr) (xs : List Ptr)
      → Chain h p xs q.tail
      → Ahead xs
      → length xs < f
      → len_from q h f (start_of xs q.tail) len ≡ ok (len + length xs)
  unfolding len_from
  len_from-length zero len p xs c ahead fuel = absurd (omega arith)
  len_from-length (suc f) len p [] c ahead fuel = rw (==_self q.tail) (ap ok (omega arith))
  len_from-length (suc f) len p (x ∷ xs) c ahead fuel =
      let (next, inside) = step x xs c.2 ahead in
      rw (inside, next)
        (len_from-length f (len + 1) x xs c.2 (rest x xs ahead) (omega arith) ∙ ap ok (omega arith))

module _ {h : Links} (q : Queue) (xs : List Ptr) (holds : Holds h q xs) (fuel : ℕ)
    (enough : length xs < fuel) where
  ahead : Ahead h q xs
  ahead = record { no_null = holds.no_null; no_tail = holds.no_tail }

  first : get_next q.head h ≡ ok (start_of xs q.tail)
  unfolding get_next
  first =
      rw (ne→not_== q.head null holds.head_ne_null, next-start_of h q.head q.tail xs holds.chain)

  -- With more fuel than there are elements, `list_traversal` returns the first element that passes the test, or NULL where none does.
  pub list_traversal-find : (func : Ptr → Bool) → list_traversal fuel q func h ≡ ok (find func xs)
  unfolding list_traversal
  list_traversal-find func =
      rw first (traverse-find h q func fuel q.head xs holds.chain ahead enough)

  -- With more fuel than there are elements, `elem_find` says whether the element is in the list.
  pub elem_find-has : (e : Ptr) → elem_find fuel q e h ≡ ok (has e xs)
  unfolding elem_find
  elem_find-has e = rw first (find_from-has h q e fuel q.head xs holds.chain ahead enough)

  -- With more fuel than there are elements, `list_len` counts the elements.
  pub list_len-length : list_len fuel q h ≡ ok (length xs)
  unfolding list_len
  list_len-length = rw first (
      len_from-length h q fuel 0 q.head xs holds.chain ahead enough
      ∙ ap ok {x = 0 + length xs} (omega arith))

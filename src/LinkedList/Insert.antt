-- ===== src/LinkedList/Insert.antt =====
-- `list_init`, `list_insert`, `list_push` and `list_append` on the sequence that a list holds.
use recover_os.Prelude.{
  ◌≡◌, refl, ◌≢◌, true, false, List, [], ◌∷◌, ◌++◌, append-nil, arith, ok, ne→not_==,
}
use recover_os.LinkedList.{
  Ptr, null, Links, Queue, update, get_prev, get_next, set_prev, set_next, list_init, list_insert,
  list_push, list_append,
}
use recover_os.LinkedList.Chain.{
  has, Distinct, Chain, Holds, SameOutside, has-append, Chain-frame, last_of, start_of, has-last_of,
  Rest, Chain-cut, Chain-join, prev-last_of, next-start_of, Chain-retarget, has_disjoint,
  Distinct-left, Distinct-right, Distinct-insert,
}

-- The links after `e` was put between `p` and `b`.
inserted : Links → (p e b : Ptr) → Links
inserted h p e b = record {
  prev = update (update h.prev e p) b e;
  next = update (update h.next e b) p e;
}

insert-ok :
    (h : Links) (p e b : Ptr)
    → h.prev b ≡ p
    → b ≢ null
    → e ≢ null
    → p ≢ null
    → list_insert b e h ≡ ok (inserted h p e b)
unfolding list_insert inserted get_prev set_prev set_next
insert-ok h p e b at b_ok e_ok p_ok = ground arith

-- A new element: not NULL, no sentinel of the list, and not in it yet.
pub record IsNew (q : Queue) (e : Ptr) (xs : List Ptr) : Type 0 where
  pub not_null : e ≢ null
  pub not_head : e ≢ q.head
  pub not_tail : e ≢ q.tail
  pub not_in : has e xs ≡ false

-- The address that a new element between `xs` and `ys` is put after, and the one before which.
abbrev pub after : Queue → List Ptr → Ptr
after q xs = last_of q.head xs

abbrev pub before : Queue → List Ptr → Ptr
before q ys = start_of ys q.tail

pub has-start_of : (ys : List Ptr) (t : Ptr) → has (start_of ys t) (t ∷ ys) ≡ true
has-start_of [] t = ground arith
has-start_of (y ∷ ys) t = ground arith

pub ne_of_has : (a b : Ptr) (zs : List Ptr) → has a zs ≡ true → has b zs ≡ false → a ≢ b
ne_of_has a b zs i o e = ground arith

pub Rest→Chain :
    (g : Links) (e t : Ptr) (ys : List Ptr)
    → g.next e ≡ start_of ys t
    → g.prev (start_of ys t) ≡ e
    → Rest g ys t
    → Chain g e ys t
Rest→Chain g e t [] n p r = (n, p)
Rest→Chain g e t (y ∷ ys) n p r = (n, p, r)

-- The chain behind a place is untouched by changes at its border.
pub Rest-frame :
    (h g : Links) (t : Ptr) (ys : List Ptr)
    → Rest h ys t
    → Distinct (t ∷ ys)
    → ((a : Ptr) → has a ys ≡ true → g.next a ≡ h.next a)
    → ((a : Ptr) → has a (t ∷ ys) ≡ true → a ≢ start_of ys t → g.prev a ≡ h.prev a)
    → Rest g ys t
Rest-frame h g t [] r d next prev = tt
Rest-frame h g t (y ∷ ys) r d next prev =
    Chain-frame h g y t ys r next (λ a i. prev a (ground arith) (ground arith))

module _ {h : Links} (q : Queue) (e : Ptr) (xs ys : List Ptr) (holds : Holds h q (xs ++ ys))
    (new : IsNew q e (xs ++ ys)) where
  -- How the two neighbours lie to each other and to the rest.
  record Place : Type 0 where
    after_in : has (after q xs) (q.head ∷ xs) ≡ true
    before_in : has (before q ys) (q.tail ∷ ys) ≡ true
    after_ne_null : after q xs ≢ null
    before_ne_null : before q ys ≢ null
    after_ne_e : after q xs ≢ e
    before_ne_e : before q ys ≢ e
    e_out : (has e xs ≡ false) × (has e ys ≡ false)
    head_out : (has q.head xs ≡ false) × (has q.head ys ≡ false)
    tail_out : (has q.tail xs ≡ false) × (has q.tail ys ≡ false)

  place : Place
  place =
      let ai = has-last_of q.head xs in
      let bi = has-start_of ys q.tail in
      let n = has-append null xs ys in
      let ee = has-append e xs ys in
      record {
        after_in = ai;
        before_in = bi;
        after_ne_null =
            ne_of_has _ _ (q.head ∷ xs) ai (ground (arith, holds.head_ne_null, holds.no_null));
        before_ne_null =
            ne_of_has _ _ (q.tail ∷ ys) bi (ground (arith, holds.tail_ne_null, holds.no_null));
        after_ne_e = ne_of_has _ _ (q.head ∷ xs) ai (ground (arith, new.not_head, new.not_in));
        before_ne_e = ne_of_has _ _ (q.tail ∷ ys) bi (ground (arith, new.not_tail, new.not_in));
        e_out = ground (arith, new.not_in);
        head_out = ground (arith, holds.no_head, has-append q.head xs ys);
        tail_out = ground (arith, holds.no_tail, has-append q.tail xs ys);
      }

  insert-Chain : Chain (inserted h (after q xs) e (before q ys)) q.head (xs ++ e ∷ ys) q.tail
  unfolding inserted
  insert-Chain =
      let (c, r) = Chain-cut h q.head q.tail xs ys holds.chain in
      let p = place in
      let g = inserted h (after q xs) e (before q ys) in
      let front : Chain g q.head xs e =
        Chain-retarget h g q.head (before q ys) e xs c
          (p.head_out.0, Distinct-left xs ys holds.distinct) (ground arith)
          (ground (arith, p.before_ne_e)) (λ a i ne. ground (arith, new.not_head, p.e_out))
          (λ a i.
            ground
              (arith, p.e_out, p.tail_out, p.before_in, has_disjoint xs ys a holds.distinct)) in
      let back : Rest g ys q.tail =
        Rest-frame h g q.tail ys r (p.tail_out.1, Distinct-right xs ys holds.distinct)
          (λ a i. ground (
            arith,
            p.e_out,
            p.head_out,
            p.after_in,
            has_disjoint xs ys (after q xs) holds.distinct,
          ))
          (λ a i ne. ground (arith, new.not_tail, p.e_out)) in
      Chain-join g q.head q.tail xs (e ∷ ys) front
        (Rest→Chain g e q.tail ys (ground (arith, p.after_ne_e)) (ground arith) back)

  -- `list_insert` of a new element before the element where `ys` begins (or before the tail) puts `e` between `xs`
  -- and `ys`. Of the links of other addresses only `next` of the element in front and `prev` of the
  -- one behind change.
  pub list_insert-Holds :
      (g : Links) × (list_insert (before q ys) e h ≡ ok g)
      × Holds g q (xs ++ e ∷ ys)
      × SameOutside (e ∷ after q xs ∷ before q ys ∷ []) h g
  unfolding inserted
  list_insert-Holds =
      let (c, r) = Chain-cut h q.head q.tail xs ys holds.chain in
      let p = place in
      (
        inserted h (after q xs) e (before q ys),
        insert-ok h (after q xs) e (before q ys) (prev-last_of h q.head (before q ys) xs c)
            p.before_ne_null new.not_null p.after_ne_null,
        record {
          chain = insert-Chain;
          distinct = Distinct-insert xs ys e holds.distinct new.not_in;
          no_null = ground (
            arith,
            has-append null xs ys,
            has-append null xs (e ∷ ys),
            holds.no_null,
            new.not_null,
          );
          no_head = ground (arith, p.head_out, has-append q.head xs (e ∷ ys), new.not_head);
          no_tail = ground (arith, p.tail_out, has-append q.tail xs (e ∷ ys), new.not_tail);
          ends = holds.ends;
          head_ne_null = holds.head_ne_null;
          tail_ne_null = holds.tail_ne_null;
        },
        λ a o. ground arith,
      )

module _ {h : Links} (q : Queue) (e : Ptr) (xs : List Ptr) (holds : Holds h q xs)
    (new : IsNew q e xs) where
  -- `list_push` puts a new element in front, and leaves the links alone of all that is neither the
  -- new element, an element of the list nor a sentinel.
  pub list_push-Holds :
      (g : Links) × (list_push q e h ≡ ok g)
      × Holds g q (e ∷ xs)
      × SameOutside (e ∷ q.head ∷ q.tail ∷ xs) h g
  unfolding list_push get_next
  list_push-Holds =
      let (g, run, held, same) = list_insert-Holds q e [] xs holds new in
      let first = next-start_of h q.head q.tail xs holds.chain in
      (
        g,
        rw (ne→not_== q.head null holds.head_ne_null, first) run,
        held,
        λ a o. same a (ground (arith, has-start_of xs q.tail)),
      )

  -- `list_append` puts a new element at the end, and leaves the links alone of all that is neither
  -- the new element, an element of the list nor a sentinel.
  pub list_append-Holds :
      (g : Links) × (list_append q e h ≡ ok g)
      × Holds g q (xs ++ e ∷ [])
      × SameOutside (e ∷ q.head ∷ q.tail ∷ xs) h g
  unfolding list_append
  list_append-Holds =
      let (g, run, held, same) =
        list_insert-Holds q e xs [] (rw append-nil holds) (rw append-nil new) in
      (g, run, held, λ a o. same a (outside a o))
    where
      outside :
          (a : Ptr)
          → has a (e ∷ q.head ∷ q.tail ∷ xs) ≡ false
          → has a (e ∷ after q xs ∷ q.tail ∷ []) ≡ false
      outside a o = ground (arith, has-last_of q.head xs)

-- `list_init` makes the list empty, whatever its links were, and touches only the sentinels.
pub list_init-Holds :
    (h : Links) (q : Queue)
    → q.head ≢ null
    → q.tail ≢ null
    → q.head ≢ q.tail
    → (g : Links) × (list_init q h ≡ ok g) × Holds g q [] × SameOutside (q.head ∷ q.tail ∷ []) h g
unfolding list_init set_prev set_next
list_init-Holds h q head_ok tail_ok ends = (
  record {
    prev = update (update h.prev q.head null) q.tail q.head;
    next = update (update h.next q.head q.tail) q.tail null;
  },
  ground arith,
  record {
    chain = ground arith;
    distinct = tt;
    no_null = refl;
    no_head = refl;
    no_tail = refl;
    ends = ends;
    head_ne_null = head_ok;
    tail_ne_null = tail_ok;
  },
  λ a o. ground arith,
)

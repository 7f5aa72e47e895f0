-- ===== src/LinkedList/Remove.antt =====
-- `list_remove` and `list_pop` on the sequence that a list holds.
use recover_os.Prelude.{
  ◌≡◌, ◌≢◌, Bool, true, false, List, [], ◌∷◌, ◌++◌, arith, ok, fault, ne→not_==,
}
use recover_os.LinkedList.{
  Ptr, null, Links, Queue, update, get_prev, get_next, set_prev, set_next, list_remove, list_pop,
  list_empty,
}
use recover_os.LinkedList.Chain.{
  has, Chain, Holds, SameOutside, has-append, has-last_of, Rest, Chain-cut, Chain-join,
  prev-last_of, next-start_of, Chain-retarget, has_disjoint, Distinct-left, Distinct-right,
  Distinct-remove,
}
use recover_os.LinkedList.Insert.{after, before, has-start_of, ne_of_has, Rest-frame}

-- The links after what stood between `p` and `n` was taken out.
removed : Links → (p n : Ptr) → Links
removed h p n = record { prev = update h.prev n p; next = update h.next p n }

remove-ok :
    (h : Links) (p e n : Ptr)
    → h.prev e ≡ p
    → h.next e ≡ n
    → e ≢ null
    → p ≢ null
    → n ≢ null
    → p ≢ e
    → list_remove e h ≡ ok (removed h p n)
unfolding list_remove removed get_prev get_next set_prev set_next
remove-ok h p e n at_p at_n e_ok p_ok n_ok ne = ground arith

module _ {h : Links} (q : Queue) (e : Ptr) (xs ys : List Ptr)
    (holds : Holds h q (xs ++ e ∷ ys)) where
  record Place : Type 0 where
    after_in : has (after q xs) (q.head ∷ xs) ≡ true
    before_in : has (before q ys) (q.tail ∷ ys) ≡ true
    no_null : (has null xs ≡ false) × (has null ys ≡ false) × (e ≢ null)
    after_ne_null : after q xs ≢ null
    before_ne_null : before q ys ≢ null
    e_out : (has e xs ≡ false) × (has e ys ≡ false)
    head_out : (has q.head xs ≡ false) × (has q.head ys ≡ false) × (e ≢ q.head)
    tail_out : (has q.tail xs ≡ false) × (has q.tail ys ≡ false) × (e ≢ q.tail)
    after_ne_e : after q xs ≢ e
    apart : (a : Ptr) → has a xs ≡ true → has a ys ≡ false

  place : Place
  place =
      let ai = has-last_of q.head xs in
      let bi = has-start_of ys q.tail in
      let n : (has null xs ≡ false) × (has null ys ≡ false) × (e ≢ null) =
        ground (arith, has-append null xs (e ∷ ys), holds.no_null) in
      let head_out : (has q.head xs ≡ false) × (has q.head ys ≡ false) × (e ≢ q.head) =
        ground (arith, has-append q.head xs (e ∷ ys), holds.no_head) in
      let e_xs : has e xs ≡ false = ground (arith, has_disjoint xs (e ∷ ys) e holds.distinct) in
      record {
        after_in = ai;
        before_in = bi;
        no_null = n;
        after_ne_null = ne_of_has _ _ (q.head ∷ xs) ai (ground (arith, holds.head_ne_null));
        before_ne_null = ne_of_has _ _ (q.tail ∷ ys) bi (ground (arith, holds.tail_ne_null));
        e_out = (e_xs, (Distinct-right xs (e ∷ ys) holds.distinct).0);
        head_out = head_out;
        tail_out = ground (arith, has-append q.tail xs (e ∷ ys), holds.no_tail);
        after_ne_e = ne_of_has _ _ (q.head ∷ xs) ai (ground arith);
        apart = λ a i. ground (arith, has_disjoint xs (e ∷ ys) a holds.distinct);
      }

  remove-Chain : Chain (removed h (after q xs) (before q ys)) q.head (xs ++ ys) q.tail
  unfolding removed
  remove-Chain =
      let (c, r) = Chain-cut h q.head q.tail xs (e ∷ ys) holds.chain in
      let (_, r') = Chain-cut h e q.tail [] ys r in
      let p = place in
      let g = removed h (after q xs) (before q ys) in
      let front : Chain g q.head xs (before q ys) =
        Chain-retarget h g q.head e (before q ys) xs c
          (p.head_out.0, Distinct-left xs (e ∷ ys) holds.distinct) (ground arith) (ground arith)
          (λ a i ne. ground arith) (λ a i. ground (arith, p.tail_out, p.before_in, p.apart a)) in
      let back : Rest g ys q.tail =
        Rest-frame h g q.tail ys r' (p.tail_out.1, (Distinct-right xs (e ∷ ys) holds.distinct).1)
          (λ a i. ground (arith, p.head_out, p.after_in, p.apart (after q xs)))
          (λ a i ne. ground arith) in
      Chain-join g q.head q.tail xs ys front back

  -- `list_remove` of an element takes it out of the sequence, and changes only `next` of the one in
  -- front of it and `prev` of the one behind.
  pub list_remove-Holds :
      (g : Links) × (list_remove e h ≡ ok g)
      × Holds g q (xs ++ ys)
      × SameOutside (after q xs ∷ before q ys ∷ []) h g
  unfolding removed
  list_remove-Holds =
      let (c, r) = Chain-cut h q.head q.tail xs (e ∷ ys) holds.chain in
      let p = place in
      (
        removed h (after q xs) (before q ys),
        remove-ok h (after q xs) e (before q ys) (prev-last_of h q.head e xs c)
            (next-start_of h e q.tail ys r) p.no_null.2 p.after_ne_null p.before_ne_null
            p.after_ne_e,
        record {
          chain = remove-Chain;
          distinct = Distinct-remove xs ys e holds.distinct;
          no_null = ground (arith, has-append null xs ys, p.no_null);
          no_head = ground (arith, p.head_out, has-append q.head xs ys);
          no_tail = ground (arith, p.tail_out, has-append q.tail xs ys);
          ends = holds.ends;
          head_ne_null = holds.head_ne_null;
          tail_ne_null = holds.tail_ne_null;
        },
        λ a o. ground arith,
      )

-- `list_pop` of a list that is not empty returns its first element and takes it out.
pub list_pop-Holds :
    {h : Links} (q : Queue) (e : Ptr) (ys : List Ptr)
    → Holds h q (e ∷ ys)
    → (g : Links) × (list_pop q h ≡ ok (e, g))
      × Holds g q ys
      × SameOutside (q.head ∷ before q ys ∷ []) h g
unfolding list_pop get_next
list_pop-Holds {h} q e ys holds =
    let (g, run, held, same) = list_remove-Holds q e [] ys holds in
    (g, rw (ne→not_== q.head null holds.head_ne_null, holds.chain.0, run), held, same)

-- `list_pop` of an empty list takes its tail sentinel for an element and writes through that one's
-- NULL `next`.
pub list_pop-empty :
    {h : Links} (q : Queue) → Holds h q [] → h.next q.tail ≡ null → list_pop q h ≡ fault
unfolding list_pop list_remove get_prev get_next set_prev set_next
list_pop-empty {h} q holds last =
    ground (arith, holds.chain, holds.head_ne_null, holds.tail_ne_null, holds.ends)

abbrev pub is_empty : List Ptr → Bool
is_empty [] = true
is_empty (x ∷ xs) = false

-- `list_empty` says whether there is no element.
pub list_empty_lem :
    {h : Links} (q : Queue) (xs : List Ptr) → Holds h q xs → list_empty q h ≡ ok (is_empty xs)
unfolding list_empty get_next
list_empty_lem {h} q [] holds = ground (arith, holds.chain, holds.head_ne_null)
list_empty_lem {h} q (x ∷ xs) holds = ground (arith, holds.chain, holds.head_ne_null, holds.no_tail)

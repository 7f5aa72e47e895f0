-- ===== src/LinkedList.antt =====
-- lib/kernel/list.c: doubly linked lists whose links stand inside their elements, with a head and a
-- tail sentinel. They hold the ready queue, the queue of all threads, the waiters of a semaphore,
-- the free blocks of an arena and the open inodes.
mod Examples
pub mod Chain
pub mod Insert
pub mod Queries
pub mod Remove
use recover_os.Prelude.{
  ℕ, zero, suc, ◌+◌, Bool, true, false, Option, none, some, Run, ok, fault, out_of_fuel, ◌>>=◌,
  ◌>>◌, ◌==◌, if◌then◌else◌,
}

abbrev pub Ptr : Type 0
Ptr = ℕ

abbrev pub null : Ptr
null = 0

-- The links of every element: `p->prev` and `p->next`. All but NULL can be read and written.
pub record Links : Type 0 where
  pub prev : Ptr → Ptr
  pub next : Ptr → Ptr

-- `struct list`: the addresses of its two sentinels.
pub record Queue : Type 0 where
  pub head : Ptr
  pub tail : Ptr

abbrev pub update : (Ptr → Ptr) → Ptr → Ptr → Ptr → Ptr
update f p v q = if p == q then v else f q

unfoldable pub get_prev : Ptr → Links → Run Ptr
get_prev p h = if p == null then fault else ok (h.prev p)

unfoldable pub get_next : Ptr → Links → Run Ptr
get_next p h = if p == null then fault else ok (h.next p)

unfoldable pub set_prev : Ptr → Ptr → Links → Run Links
set_prev p v h = if p == null then fault else ok (record h { prev = update h.prev p v })

unfoldable pub set_next : Ptr → Ptr → Links → Run Links
set_next p v h = if p == null then fault else ok (record h { next = update h.next p v })

pub list_init : Queue → Links → Run Links
list_init q h = do
  h ← set_prev q.head null h
  h ← set_next q.head q.tail h
  h ← set_prev q.tail q.head h
  set_next q.tail null h

-- `list_insert(before, elem)`. The interrupts are off around it.
pub list_insert : (before elem : Ptr) → Links → Run Links
list_insert before e h = do
  p ← get_prev before h
  h ← set_prev e p h
  h ← set_next e before h
  p ← get_prev e h
  h ← set_next p e h
  set_prev before e h

pub list_remove : Ptr → Links → Run Links
list_remove e h = do
  p ← get_prev e h
  n ← get_next e h
  h ← set_next p n h
  n ← get_next e h
  p ← get_prev e h
  set_prev n p h

pub list_push : Queue → Ptr → Links → Run Links
list_push q e h = do first ← get_next q.head h; list_insert first e h

pub list_append : Queue → Ptr → Links → Run Links
list_append q e h = list_insert q.tail e h

pub list_pop : Queue → Links → Run (Ptr × Links)
list_pop q h = do e ← get_next q.head h; h ← list_remove e h; ok (e, h)

pub list_empty : Queue → Links → Run Bool
list_empty q h = do first ← get_next q.head h; ok (first == q.tail)

-- `while (elem != &plist->tail)` with the test `func(elem, arg)`; `none` is the NULL of the source.
traverse : Queue → (Ptr → Bool) → Links → ℕ → Ptr → Run (Option Ptr)
traverse q func h zero e = out_of_fuel
traverse q func h (suc f) e =
    let rest = (do e' ← get_next e h; traverse q func h f e') in
    if e == q.tail then ok none else if func e then ok (some e) else rest

-- Fuel: one round more than the list has elements.
pub list_traversal : ℕ → Queue → (Ptr → Bool) → Links → Run (Option Ptr)
list_traversal fuel q func h = do e ← get_next q.head h; traverse q func h fuel e

find_from : Queue → Ptr → Links → ℕ → Ptr → Run Bool
find_from q pelem h zero e = out_of_fuel
find_from q pelem h (suc f) e =
    let rest = (do e' ← get_next e h; find_from q pelem h f e') in
    if e == q.tail then ok false else if e == pelem then ok true else rest

pub elem_find : ℕ → Queue → Ptr → Links → Run Bool
elem_find fuel q pelem h = do e ← get_next q.head h; find_from q pelem h fuel e

len_from : Queue → Links → ℕ → (e len : ℕ) → Run ℕ
len_from q h zero e len = out_of_fuel
len_from q h (suc f) e len =
    let rest = (do e' ← get_next e h; len_from q h f e' (len + 1)) in
    if e == q.tail then ok len else rest

pub list_len : ℕ → Queue → Links → Run ℕ
list_len fuel q h = do e ← get_next q.head h; len_from q h fuel e 0

-- ===== src/LinkedList/Examples.antt =====
-- lib/kernel/list.c on a list of two elements, with its sentinels at 1 and 2.
use recover_os.Prelude.{◌≡◌, refl, [], ◌∷◌, arith, ok, ◌==◌, if◌then◌else◌}
use recover_os.LinkedList.{Links, Queue, list_insert, elem_find}
use recover_os.LinkedList.Chain.{has, Holds, SameOutside}
use recover_os.LinkedList.Insert.{IsNew, list_insert-Holds}
use recover_os.LinkedList.Queries.{elem_find-has}

abbrev queue : Queue
queue = record { head = 1; tail = 2 }

abbrev links : Links
links = record {
  next = λ p. if p == 1 then 10 else if p == 10 then 20 else if p == 20 then 2 else 0;
  prev = λ p. if p == 2 then 20 else if p == 20 then 10 else if p == 10 then 1 else 0;
}

links-Holds : Holds links queue (10 ∷ 20 ∷ [])
links-Holds = record {
  chain = ground arith;
  distinct = ground arith;
  no_null = refl;
  no_head = refl;
  no_tail = refl;
  ends = ground arith;
  head_ne_null = ground arith;
  tail_ne_null = ground arith;
}

thirty-IsNew : IsNew queue 30 (10 ∷ 20 ∷ [])
thirty-IsNew = record {
  not_null = ground arith;
  not_head = ground arith;
  not_tail = ground arith;
  not_in = refl;
}

list_insert_example :
    (g : Links) × (list_insert 20 30 links ≡ ok g)
    × Holds g queue (10 ∷ 30 ∷ 20 ∷ [])
    × SameOutside (30 ∷ 10 ∷ 20 ∷ []) links g
list_insert_example = list_insert-Holds queue 30 (10 ∷ []) (20 ∷ []) links-Holds thirty-IsNew

elem_find_example : elem_find 3 queue 20 links ≡ ok (has 20 (10 ∷ 20 ∷ []))
elem_find_example = elem_find-has queue (10 ∷ 20 ∷ []) links-Holds 3 (ground arith) 20

-- ===== src/Memory/Taking.antt =====
-- The heap in order, and `take_block`, which hands out the first block of a free list.
use recover_os.Prelude.{
  ℕ, suc, ◌+◌, ◌-◌, ◌*◌, ◌/◌, ◌%◌, ◌^◌, ◌≤◌, ◌<◌, ◌≡◌, refl, sym, ◌∙◌, ap, subst, inl, inr, true,
  false, some, List, ◌∷◌, arith, ok, ◌==◌, if◌then◌else◌, Bool-cases, ==→eq,
}
use native.Mathlib.Nat.{suc-mul, div-mul-le_self, mul-le-mul_right}
use recover_os.LinkedList.Chain.{has, Distinct}
use recover_os.Bitmap.Laws.{bit}
use recover_os.Memory.Heap.{Heap, set_desc, set_arena, block2arena, arena2block, take_block}

-- `b` is block `i` of an arena of descriptor `d`, in page `k` of the pool, which is taken.
pub record IsBlock (h : Heap) (d b : ℕ) : Type 0 where
  pub k : ℕ
  pub i : ℕ
  pub at : b ≡ arena2block (k * 4096 + h.pool.start) (h.descs d).block_size i
  pub in_arena : i < (h.descs d).blocks_per_arena
  pub taken : bit h.pool.pool_bitmap k ≡ true
  pub owner : (h.arenas (k * 4096 + h.pool.start)).desc ≡ some d

-- A heap in order: an arena has as many blocks as fit into its page, and the free lists hold blocks
-- of taken pages, each once.
pub record IsHeap (h : Heap) : Type 0 where
  pub start : h.pool.start % 4096 ≡ 0
  pub low : (d : ℕ) → d < 7 → 16 ≤ (h.descs d).block_size
  pub high : (d : ℕ) → d < 7 → (h.descs d).block_size ≤ 1024
  pub last : (h.descs 6).block_size ≡ 1024
  pub fits : (d : ℕ) → d < 7 → (h.descs d).blocks_per_arena ≡ (4096 - 16) / (h.descs d).block_size
  pub blocks : (d b : ℕ) → d < 7 → has b (h.descs d).free_list ≡ true → IsBlock h d b
  pub distinct : (d : ℕ) → d < 7 → Distinct (h.descs d).free_list

-- The sizes, the taken pages and the owners of their arenas are kept.
pub record KeepsArenas (h h' : Heap) : Type 0 where
  pub size : (d : ℕ) → (h'.descs d).block_size ≡ (h.descs d).block_size
  pub cnt : (d : ℕ) → (h'.descs d).blocks_per_arena ≡ (h.descs d).blocks_per_arena
  pub start : h'.pool.start ≡ h.pool.start
  pub taken : (k : ℕ) → bit h.pool.pool_bitmap k ≡ true → bit h'.pool.pool_bitmap k ≡ true
  pub owner :
      (k : ℕ)
      → bit h.pool.pool_bitmap k ≡ true
      → (h'.arenas (k * 4096 + h.pool.start)).desc ≡ (h.arenas (k * 4096 + h.pool.start)).desc

pub IsBlock-kept : (h h' : Heap) (d b : ℕ) → KeepsArenas h h' → IsBlock h d b → IsBlock h' d b
IsBlock-kept h h' d b keeps v = record {
  k = v.k;
  i = v.i;
  at = rw (keeps.start, keeps.size d) v.at;
  in_arena = rw (keeps.cnt d) v.in_arena;
  taken = keeps.taken v.k v.taken;
  owner = rw keeps.start (keeps.owner v.k v.taken ∙ v.owner);
}

-- Block `i` ends before its page does.
pub block_end : (size n i : ℕ) → n ≡ (4096 - 16) / size → i < n → i * size + size + 16 ≤ 4096
block_end size n i e lt = omega (
  arith,
  suc-mul i size,
  mul-le-mul_right {m = suc i} {n = n} size lt,
  div-mul-le_self 4080 size,
  ap (λ (q : ℕ). q * size) e,
)

module _ (d : ℕ) (h : Heap) (b : ℕ) (rest : List ℕ) (first : (h.descs d).free_list ≡ b ∷ rest) where
  -- The heap behind `take_block`.
  pub taken_heap : Heap
  taken_heap =
      let h' = set_desc h d (record (h.descs d) { free_list = rest }) in
      let a = block2arena b in
      set_arena h' a (record (h.arenas a) { cnt = ((h.arenas a).cnt + 2 ^ 64 - 1) % 2 ^ 64 })

  pub take_block-first : take_block d h ≡ ok (b, taken_heap)
  unfolding take_block taken_heap
  take_block-first = rw (take_block, first) refl

  pub take_block-KeepsArenas : KeepsArenas h taken_heap
  unfolding taken_heap
  take_block-KeepsArenas = record {
    size = λ e. ground arith;
    cnt = λ e. ground arith;
    start = refl;
    taken = λ k t. t;
    owner = λ k t. ground arith;
  }

  still_listed :
      (e x : ℕ) → has x (taken_heap.descs e).free_list ≡ true → has x (h.descs e).free_list ≡ true
  unfolding taken_heap
  still_listed e x listed = elim (Bool-cases (e == d)) [
    | inl same ↦
        subst (λ e. has x (h.descs e).free_list ≡ true) (sym (==→eq e d same))
          (rw first (ground (arith, listed, same)))
    | inr other ↦ ground (arith, listed, other)
  ]

  still-Distinct :
      (e : ℕ) → Distinct (h.descs e).free_list → Distinct (taken_heap.descs e).free_list
  unfolding taken_heap
  still-Distinct e dist = elim (Bool-cases (e == d)) [
    | inl same ↦
        let at_d : Distinct (b ∷ rest) =
          subst Distinct first
            (subst (λ e. Distinct (h.descs e).free_list) (==→eq e d same) dist) in
        rw (same, if◌then◌else◌) (at_d.1)
    | inr other ↦ rw (other, if◌then◌else◌) dist
  ]

  pub take_block-IsHeap : IsHeap h → IsHeap taken_heap
  unfolding taken_heap
  take_block-IsHeap v =
      let keeps = take_block-KeepsArenas in
      record {
        start = v.start;
        low = λ e lt. rw (keeps.size e) (v.low e lt);
        high = λ e lt. rw (keeps.size e) (v.high e lt);
        last = keeps.size 6 ∙ v.last;
        fits = λ e lt. rw (keeps.size e, keeps.cnt e) (v.fits e lt);
        blocks = λ e x lt listed.
            IsBlock-kept h taken_heap e x keeps (v.blocks e x lt (still_listed e x listed));
        distinct = λ e lt. still-Distinct e (v.distinct e lt);
      }

  pub taken_out : d < 7 → IsHeap h → has b (taken_heap.descs d).free_list ≡ false
  unfolding taken_heap
  taken_out lt v =
      let dist : Distinct (b ∷ rest) = subst Distinct first (v.distinct d lt) in
      ground (arith, dist.0)

-- ===== src/Memory/Arenas.antt =====
-- `create_free_blocks` and the choice of a descriptor by `sys_malloc`.
use recover_os.Prelude.{
  ℕ, zero, suc, ◌+◌, ◌-◌, ◌*◌, ◌/◌, ◌≤◌, ◌<◌, ◌≡◌, refl, sym, ◌∙◌, ap, subst, ◌≢◌, inl, inr, true,
  false, some, List, [], ◌∷◌, arith, ok, ◌>>=◌, leb, ◌==◌, if◌then◌else◌, Bool-cases, ==→eq,
  not_==→ne, ne→not_==, ==_self,
}
use native.Mathlib.Nat.{lt-div-mul-add}
use recover_os.LinkedList.Chain.{has, Distinct}
use recover_os.Bitmap.Laws.{bit}
use recover_os.Bitmap.Turned.{Turned}
use recover_os.Memory.{Memory, Pool, alloc_pages}
use recover_os.Memory.Heap.{Heap, set_desc, set_arena, arena2block, create_free_blocks, desc_from}
use recover_os.Memory.Blocks.{
  blocks_from, blocks_from-first, add_blocks-append, has-blocks_from, blocks_from-Distinct,
}
use recover_os.Memory.Taking.{IsBlock, IsHeap, KeepsArenas, IsBlock-kept}

-- The descriptor chosen for `size` from `d` on is the first one with blocks that are large enough.
pub record Chosen (h : Heap) (d size r : ℕ) : Type 0 where
  pub from : d ≤ r
  pub exists : r < 7
  pub large : size ≤ (h.descs r).block_size
  pub first : (e : ℕ) → d ≤ e → e < r → (h.descs e).block_size < size

-- The blocks of the last descriptor are large enough.
more_left :
    (d size n : ℕ) (h : Heap)
    → d + suc n ≡ 7
    → size ≤ (h.descs 6).block_size
    → leb size (h.descs d).block_size ≡ false
    → 0 < n
more_left d size zero h e le small =
    subst (λ i. size ≤ (h.descs i).block_size → 0 < 0) {x = d} {y = 6} (omega arith)
      (λ le. ground (arith, small)) le
more_left d size (suc n) h e le small = omega arith

pub desc_from-Chosen :
    (n d size : ℕ) (h : Heap)
    → d + n ≡ 7
    → 0 < n
    → size ≤ (h.descs 6).block_size
    → Chosen h d size (desc_from n d size h)
unfolding desc_from
desc_from-Chosen zero d size h e pos le = absurd (omega arith)
desc_from-Chosen (suc n) d size h e pos le = elim (Bool-cases (leb size (h.descs d).block_size)) [
  | inl fits ↦
      rw (fits, if◌then◌else◌)
        (record {
          from = omega arith;
          exists = omega arith;
          large = ground (arith, fits);
          first = λ k low high. absurd (omega arith);
        })
  | inr small ↦
      let c : Chosen h (d + 1) size (desc_from n (d + 1) size h) =
        desc_from-Chosen n (d + 1) size h (omega arith) (more_left d size n h e le small) le in
      rw (small, if◌then◌else◌)
        (record {
          from = omega (arith, c.from);
          exists = c.exists;
          large = c.large;
          first = λ k low high. elim (Bool-cases (k == d)) [
            | inl same ↦ rw (==→eq k d same) (ground (arith, small))
            | inr other ↦ c.first k (ground (arith, other)) high
          ];
        })
]

some_block : (size n : ℕ) → 16 ≤ size → size ≤ 1024 → n ≡ (4096 - 16) / size → 0 < n
some_block size zero low high e =
    absurd (
      omega (arith, lt-div-mul-add {a = 4080} {b = size} (omega arith), ap (λ (q : ℕ). q * size) e))
some_block size (suc n) low high e = omega arith

module _ (d : ℕ) (h : Heap) (k : ℕ) (pool : Pool) (mem : Memory)
    (same_start : pool.start ≡ h.pool.start) (clear : bit h.pool.pool_bitmap k ≡ false)
    (t : Turned true k 1 h.pool.pool_bitmap pool.pool_bitmap) (lt : d < 7) (v : IsHeap h)
    (none_left : (h.descs d).free_list ≡ []) where
  abbrev pub new_arena : ℕ
  new_arena = k * 4096 + h.pool.start

  new_blocks : List ℕ
  new_blocks =
      blocks_from new_arena (h.descs d).block_size (omega (arith, v.low d lt))
        (h.descs d).blocks_per_arena 0

  -- The heap with the blocks of page `k`.
  pub grown_heap : Heap
  grown_heap =
      let desc = h.descs d in
      let h' =
        set_arena (record h { mem = mem; pool = pool }) new_arena
          (record { cnt = desc.blocks_per_arena; desc = some d }) in
      set_desc h' d (record desc { free_list = new_blocks })

  pub grown-KeepsArenas : KeepsArenas h grown_heap
  unfolding grown_heap
  grown-KeepsArenas = record {
    size = λ e. ground arith;
    cnt = λ e. ground arith;
    start = same_start;
    taken = λ j taken. ground (arith, t.bits j);
    owner = λ j taken. elim (Bool-cases (j == k)) [
      | inl same ↦ ground (arith, clear)
      | inr other ↦ ground (arith, not_==→ne j k other)
    ];
  }

  arena_of_IsBlock :
      (j : ℕ)
      → j < (h.descs d).blocks_per_arena
      → IsBlock grown_heap d (arena2block new_arena (h.descs d).block_size j)
  unfolding grown_heap
  arena_of_IsBlock j within = record {
    k = k;
    i = j;
    at = ground (arith, same_start);
    in_arena = ground arith;
    taken = ground (arith, t.bits k);
    owner = ground (arith, same_start);
  }

  grown-IsBlock : (x : ℕ) → has x new_blocks ≡ true → IsBlock grown_heap d x
  unfolding new_blocks
  grown-IsBlock x listed =
      let (j, low, high, is) =
        has-blocks_from new_arena (h.descs d).block_size (omega (arith, v.low d lt))
          (h.descs d).blocks_per_arena 0 x listed in
      subst (IsBlock grown_heap d) (sym is) (arena_of_IsBlock j (omega arith))

  grown_listed :
      (e x : ℕ) → e < 7 → has x (grown_heap.descs e).free_list ≡ true → IsBlock grown_heap e x
  unfolding grown_heap
  grown_listed e x le listed = elim (Bool-cases (e == d)) [
    | inl same ↦
        subst (λ e. IsBlock grown_heap e x) (sym (==→eq e d same))
          (grown-IsBlock x (ground (arith, listed, same)))
    | inr other ↦
        IsBlock-kept h grown_heap e x grown-KeepsArenas
          (v.blocks e x le (ground (arith, listed, other)))
  ]

  grown-Distinct : (e : ℕ) → e < 7 → Distinct (grown_heap.descs e).free_list
  unfolding grown_heap new_blocks
  grown-Distinct e le = elim (Bool-cases (e == d)) [
    | inl same ↦
        rw (same, if◌then◌else◌)
          (blocks_from-Distinct new_arena (h.descs d).block_size (omega (arith, v.low d lt))
            (h.descs d).blocks_per_arena 0)
    | inr other ↦ rw (other, if◌then◌else◌) (v.distinct e le)
  ]

  pub grown-IsHeap : IsHeap grown_heap
  unfolding grown_heap
  grown-IsHeap =
      let keeps = grown-KeepsArenas in
      record {
        start = rw same_start v.start;
        low = λ e le. rw (keeps.size e) (v.low e le);
        high = λ e le. rw (keeps.size e) (v.high e le);
        last = keeps.size 6 ∙ v.last;
        fits = λ e le. rw (keeps.size e, keeps.cnt e) (v.fits e le);
        blocks = grown_listed;
        distinct = grown-Distinct;
      }

  pub create_free_blocks-grown :
      alloc_pages h.pool 1 h.mem ≡ ok (new_arena, pool, mem)
      → new_arena ≢ 0
      → create_free_blocks d h ≡ ok grown_heap
  unfolding create_free_blocks grown_heap new_blocks
  create_free_blocks-grown run ne =
      rw
        (
          run,
          ◌>>=◌,
          ne→not_== new_arena 0 ne,
          none_left,
          add_blocks-append new_arena (h.descs d).block_size (omega (arith, v.low d lt))
              (h.descs d).blocks_per_arena 0 [] (λ j le. refl),
        )
        refl

  -- The new arena has a block.
  pub grown_first : (b : ℕ) × (rest : List ℕ) × ((grown_heap.descs d).free_list ≡ b ∷ rest)
  unfolding grown_heap new_blocks
  grown_first =
      let size = (h.descs d).block_size in
      let n = (h.descs d).blocks_per_arena in
      let (rest, first) =
        blocks_from-first new_arena size (omega (arith, v.low d lt)) n 0
          (some_block size n (v.low d lt) (v.high d lt) (v.fits d lt)) in
      (arena2block new_arena size 0, rest, rw (set_desc, ==_self d) first)

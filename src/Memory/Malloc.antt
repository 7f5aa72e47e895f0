-- ===== src/Memory/Malloc.antt =====
-- `sys_malloc` of at most 1024 bytes: the block that it hands out, and the free lists.
use recover_os.Prelude.{
  ℕ, ◌+◌, ◌*◌, ◌%◌, ◌≤◌, ◌<◌, ◌≡◌, refl, ◌∙◌, ap, ◌⊎◌, inl, inr, true, false, List, [], ◌∷◌, arith,
  Run, ok, panic, ◌>>=◌, if◌then◌else◌, le→not_ltb,
}
use recover_os.LinkedList.Chain.{has}
use recover_os.Bitmap.Laws.{bit}
use recover_os.Bitmap.Turned.{Clear, Turned}
use recover_os.Bitmap.Count.{free_bits}
use recover_os.Memory.{Memory, Pool, alloc_pages}
use recover_os.Memory.Steps.{IsPool}
use recover_os.Memory.Pages.{Allocated, IsFresh, alloc_pages-Allocated}
use recover_os.Memory.Heap.{
  Heap, create_free_blocks, desc_from, is_empty, take_block, malloc_block, sys_malloc,
}
use recover_os.Memory.Taking.{
  IsBlock, IsHeap, IsBlock-kept, block_end, taken_heap, take_block-first, take_block-KeepsArenas,
  take_block-IsHeap, taken_out,
}
use recover_os.Memory.Arenas.{
  Chosen, desc_from-Chosen, grown_heap, grown-KeepsArenas, grown-IsHeap, create_free_blocks-grown,
  grown_first,
}

-- `b` is a block of the smallest size that holds `size` bytes; it lies in the page of its arena, and
-- is in its free list no more.
pub record Handed (size : ℕ) (h : Heap) (b : ℕ) : Type 0 where
  pub d : ℕ
  pub chosen : Chosen h 0 size d
  pub block : IsBlock h d b
  pub out : has b (h.descs d).free_list ≡ false
  pub inside : b % 4096 + size ≤ 4096

IsBlock-inside :
    (h : Heap) (d b size : ℕ)
    → IsHeap h
    → d < 7
    → size ≤ (h.descs d).block_size
    → IsBlock h d b
    → b % 4096 + size ≤ 4096
IsBlock-inside h d b size v lt le block = omega (
  arith,
  block_end (h.descs d).block_size (h.descs d).blocks_per_arena block.i (v.fits d lt)
      block.in_arena,
  block.at,
  v.start,
  v.low d lt,
)

module _ (size d : ℕ) (h : Heap) (v : IsHeap h) (c : Chosen h 0 size d) (b : ℕ) (rest : List ℕ)
    (first : (h.descs d).free_list ≡ b ∷ rest) where
  taken : Heap
  taken = taken_heap d h b rest first

  taken-Handed : Handed size taken b
  unfolding taken
  taken-Handed =
      let keeps = take_block-KeepsArenas d h b rest first in
      let v' = take_block-IsHeap d h b rest first v in
      let block =
        IsBlock-kept h taken d b keeps (v.blocks d b c.exists (rw first (ground arith))) in
      let le : size ≤ (taken.descs d).block_size = rw (keeps.size d) c.large in
      record {
        d = d;
        chosen = record {
          from = c.from;
          exists = c.exists;
          large = le;
          first = λ e low high. rw (keeps.size e) (c.first e low high);
        };
        block = block;
        out = taken_out d h b rest first c.exists v;
        inside = IsBlock-inside taken d b size v' c.exists le block;
      }

  take-Handed : (h' : Heap) × (take_block d h ≡ ok (b, h')) × IsHeap h' × Handed size h' b
  unfolding taken
  take-Handed =
      (taken, take_block-first d h b rest first, take_block-IsHeap d h b rest first v, taken-Handed)

-- What `sys_malloc` may come to: a block, or the failed ASSERT when all pages of the pool are taken.
abbrev pub Served : (size : ℕ) → Heap → Run (ℕ × Heap) → Type 0
Served size h run =
    ((run ≡ panic)
      × ((k : ℕ) → k < 8 * h.pool.pool_bitmap.bytes_len → ¬ Clear h.pool.pool_bitmap k 1))
    ⊎ ((b : ℕ) × (h' : Heap) × (run ≡ ok (b, h')) × IsHeap h' × Handed size h' b)

create_free_blocks-panic :
    (d : ℕ) (h : Heap) (a : ℕ) (pool : Pool) (mem : Memory)
    → alloc_pages h.pool 1 h.mem ≡ ok (a, pool, mem)
    → a ≡ 0
    → create_free_blocks d h ≡ panic
unfolding create_free_blocks
create_free_blocks-panic d h a pool mem run null = rw (run, ◌>>=◌, null) refl

module _ (size d : ℕ) (h : Heap) (v : IsHeap h) (c : Chosen h 0 size d)
    (none_left : (h.descs d).free_list ≡ []) where
  grown-Handed :
      (k : ℕ) (pool : Pool) (mem : Memory) (same : pool.start ≡ h.pool.start)
      (clear : bit h.pool.pool_bitmap k ≡ false)
      (t : Turned true k 1 h.pool.pool_bitmap pool.pool_bitmap)
      → 0 < h.pool.start
      → alloc_pages h.pool 1 h.mem ≡ ok (k * 4096 + h.pool.start, pool, mem)
      → (b : ℕ) × (h' : Heap) × ((create_free_blocks d h >>= λ h. take_block d h) ≡ ok (b, h'))
        × IsHeap h'
        × Handed size h' b
  grown-Handed k pool mem same clear t pos run =
      let g = grown_heap d h k pool mem same clear t c.exists v none_left in
      let keeps = grown-KeepsArenas d h k pool mem same clear t c.exists v none_left in
      let (b, rest, first) = grown_first d h k pool mem same clear t c.exists v none_left in
      let c' : Chosen g 0 size d = record {
        from = c.from;
        exists = c.exists;
        large = rw (keeps.size d) c.large;
        first = λ e low high. rw (keeps.size e) (c.first e low high);
      } in
      let v' = grown-IsHeap d h k pool mem same clear t c.exists v none_left in
      let (h', taken, v'', handed) = take-Handed size d g v' c' b rest first in
      let made =
        create_free_blocks-grown d h k pool mem same clear t c.exists v none_left run
          (omega arith) in
      (b, h', rw (made, ◌>>=◌) taken, v'', handed)

  grown-Served :
      IsFresh h.pool 1 h.mem
      → (r : ℕ × Pool × Memory) × (alloc_pages h.pool 1 h.mem ≡ ok r) × Allocated h.pool 1 h.mem r
      → Served size h (create_free_blocks d h >>= λ h. take_block d h)
  grown-Served fresh ((a, pool, mem), run, inl (null, same_pool, same_mem, full)) =
      inl (rw (create_free_blocks-panic d h a pool mem run null, ◌>>=◌) refl, full)
  grown-Served fresh ((a, pool, mem), run, inr (k, at, clear, t, same, maps)) = inr (
      grown-Handed k pool mem same (ground (arith, clear 0 (omega arith))) t fresh.not_null
        (run ∙ ap (λ a. ok (a, pool, mem)) at))

-- For at most 1024 bytes, with the heap and its pools in order and four physical pages left,
-- `sys_malloc` returns a block of the smallest size that holds them, which lies in a page that is
-- taken and in its free list no more, and leaves the heap in order; or its ASSERT fails, when all
-- pages of the pool are taken.
pub sys_malloc-Served :
    (size : ℕ) (h : Heap)
    → size ≤ 1024
    → IsHeap h
    → IsFresh h.pool 1 h.mem
    → IsPool h.mem
    → 4 ≤ free_bits h.mem.phy_bitmap
    → Served size h (sys_malloc size h)
unfolding sys_malloc malloc_block
sys_malloc-Served size h le v fresh pool left =
    rw (le→not_ltb 1024 size le, if◌then◌else◌) (go (h.descs (desc_from 7 0 size h)).free_list refl)
  where
    c : Chosen h 0 size (desc_from 7 0 size h)
    c = desc_from-Chosen 7 0 size h (omega arith) (omega arith) (omega (arith, v.last))

    go :
        (l : List ℕ)
        → (h.descs (desc_from 7 0 size h)).free_list ≡ l
        → Served size h (malloc_block size h)
    go [] e =
        let served =
          grown-Served size (desc_from 7 0 size h) h v c e fresh
            (alloc_pages-Allocated h.pool 1 h.mem (omega arith) fresh pool (omega arith)) in
        rw (e, is_empty, if◌then◌else◌) served
    go (b ∷ rest) e =
        let (h', taken, v', handed) = take-Handed size (desc_from 7 0 size h) h v c b rest e in
        rw (e, is_empty, if◌then◌else◌, ◌>>=◌) (inr (b, h', taken, v', handed))

-- ===== src/Memory/Freed.antt =====
-- `sys_free` of a block: it is put into its free list, or the page of its arena goes back.
use recover_os.Prelude.{
  ltb, ◌⊎◌, ==_self, ◌*◌, ◌%◌, ◌^◌, ◌++◌, length, subst, not_==→ne, ℕ, ◌+◌, ◌≤◌, ◌<◌, ◌≡◌, refl,
  sym, ◌∙◌, ap, ◌≢◌, inl, inr, true, false, List, [], ◌∷◌, arith, ok, ◌>>=◌, ◌==◌, if◌then◌else◌,
  Bool-cases, ne→not_==,
}
use native.Mathlib.Nat.{div-le_self}
use recover_os.LinkedList.Chain.{has, has-append}
use recover_os.Bitmap.Laws.{bit, IsValid}
use recover_os.Bitmap.Turned.{Turned, Used}
use recover_os.Memory.{Memory, Pool, free_pages}
use recover_os.Memory.Tables.{page}
use recover_os.Memory.Steps.{IsPool}
use recover_os.Memory.Release.{Backed, Unmaps, free_pages-Unmaps}
use recover_os.Memory.Taking.{IsBlock, IsHeap}
use recover_os.Memory.Free.{
  Puts, sys_free-Puts, append-Distinct, block2arena-arena, owner_at, sys_free-desc,
}
use recover_os.Memory.Heap.{Heap, block2arena, arena2block, drop_blocks, free_block, sys_free}
use recover_os.Memory.Emptying.{Left, drop_blocks-Left, emptied, emptied-IsHeap}

-- The page is mapped into the physical pool, and its bit is in the memory of the pool's bits.
pub record HasPage (h : Heap) (k : ℕ) : Type 0 where
  pub mem : IsPool h.mem
  pub bits : IsValid h.pool.pool_bitmap
  pub word : k * 4096 + h.pool.start < 2 ^ 64
  pub low : page (k * 4096 + h.pool.start) + 1 ≤ 511 * 2 ^ 27
  pub room : k + 1 ≤ 8 * length h.pool.pool_bitmap.bits
  pub backed : Backed 1 (k * 4096 + h.pool.start) h.mem

-- `sys_free` where the arena has no other block in use.
abbrev pub Empties : (h : Heap) (d k a : ℕ) → Heap → Type 0
Empties h d k a h' =
    ((x : ℕ)
      → ((j : ℕ) → j < (h.descs d).blocks_per_arena → x ≢ arena2block a (h.descs d).block_size j)
      → has x (h'.descs d).free_list ≡ has x (h.descs d).free_list)
    × ((j : ℕ)
        → j < (h.descs d).blocks_per_arena
        → has (arena2block a (h.descs d).block_size j) (h'.descs d).free_list ≡ false)
    × ((e : ℕ) → e ≢ d → h'.descs e ≡ h.descs e)
    × Turned false k 1 h.pool.pool_bitmap h'.pool.pool_bitmap
    × (h'.pool.start ≡ h.pool.start)
    × Unmaps 1 a h.mem h'.mem

module _ (h : Heap) (d b : ℕ) (v : IsHeap h) (lt : d < 7) (block : IsBlock h d b)
    (out : has b (h.descs d).free_list ≡ false) (page_there : HasPage h block.k)
    (last_used : (h.arenas (block2arena b)).cnt + 1 ≡ (h.descs d).blocks_per_arena)
    (others : (j : ℕ)
      → j < (h.descs d).blocks_per_arena
      → arena2block (block2arena b) (h.descs d).block_size j ≢ b
      → has (arena2block (block2arena b) (h.descs d).block_size j) (h.descs d).free_list
        ≡ true) where
  all_listed :
      (j : ℕ)
      → 0 ≤ j
      → j < 0 + (h.descs d).blocks_per_arena
      → has (arena2block (block2arena b) (h.descs d).block_size j) ((h.descs d).free_list ++ b ∷ [])
        ≡ true
  all_listed j le low =
      let x : ℕ = arena2block (block2arena b) (h.descs d).block_size j in
      has-append x (h.descs d).free_list (b ∷ []) ∙ elim (Bool-cases (x == b)) [
        | inl this ↦ ground (arith, this)
        | inr other ↦ ground (arith, others j (omega arith) (not_==→ne x b other))
      ]

  free_block-emptied :
      (pool : Pool) (mem : Memory) (left : List ℕ)
      → free_pages h.pool (block2arena b) 1 h.mem ≡ ok (pool, mem)
      → drop_blocks
          (h.descs d).blocks_per_arena
          0
          (block2arena b)
          (h.descs d).block_size
          ((h.descs d).free_list ++ b ∷ [])
        ≡ ok left
      → ((h.arenas (block2arena b)).cnt + 1) % 2 ^ 64 == (h.descs d).blocks_per_arena ≡ true
      → (start : pool.start ≡ h.pool.start)
        (turned : Turned false block.k 1 h.pool.pool_bitmap pool.pool_bitmap)
        (is_left : Left
          (block2arena b)
          (h.descs d).block_size
          (h.descs d).blocks_per_arena
          0
          ((h.descs d).free_list ++ b ∷ [])
          left)
      → free_block b d h ≡ ok (emptied h d b v lt block out pool mem left start turned is_left)
  unfolding free_block emptied
  free_block-emptied pool mem left run_pages run_drop full start turned is_left =
      rw (out, ◌>>=◌, full, run_drop, ◌>>=◌, run_pages) refl

  pub sys_free-Empties :
      (h' : Heap) × (sys_free b h ≡ ok h') × IsHeap h' × Empties h d block.k (block2arena b) h'
  unfolding emptied
  sys_free-Empties =
      let at = block2arena-arena h d b v lt block out in
      let few : (h.descs d).blocks_per_arena ≤ 4080 =
        omega (arith, v.fits d lt, div-le_self 4080 (h.descs d).block_size) in
      let full : ((h.arenas (block2arena b)).cnt + 1) % 2 ^ 64 == (h.descs d).blocks_per_arena
          ≡ true =
        ground (arith, last_used, few) in
      let (left, run_drop, is_left) =
        drop_blocks-Left (block2arena b) (h.descs d).block_size (omega (arith, v.low d lt))
          (h.descs d).blocks_per_arena 0 ((h.descs d).free_list ++ b ∷ [])
          (append-Distinct b (h.descs d).free_list (v.distinct d lt) out) all_listed in
      let (pool, mem, run_pages, turned, start, unmaps) =
        free_pages-Unmaps h.pool block.k 1 h.mem page_there.mem page_there.bits v.start
          page_there.word page_there.low page_there.room taken page_there.backed in
      (
        emptied h d b v lt block out pool mem left start turned is_left,
        sys_free-desc b d h (omega (arith, block.at)) (owner_at h d b v lt block out)
            ∙ free_block-emptied pool mem left
                (ap (λ a. free_pages h.pool a 1 h.mem) at ∙ run_pages) run_drop full start turned
                is_left,
        emptied-IsHeap h d b v lt block out pool mem left start turned is_left,
        (
          λ x outside. rw (==_self d, if◌then◌else◌) (kept left is_left x outside),
          λ j low. rw (==_self d, if◌then◌else◌) (is_left.2 j (omega arith) (omega arith)),
          λ e ne. rw (ne→not_== e d ne, if◌then◌else◌) refl,
          turned,
          start,
          subst (λ a. Unmaps 1 a h.mem mem) (sym at) unmaps,
        ),
      )
    where
      taken : Used h.pool.pool_bitmap block.k 1
      taken j low =
          ap (bit h.pool.pool_bitmap) {x = block.k + j} {y = block.k} (omega arith) ∙ block.taken

      kept :
          (left : List ℕ)
          → Left
              (block2arena b)
              (h.descs d).block_size
              (h.descs d).blocks_per_arena
              0
              ((h.descs d).free_list ++ b ∷ [])
              left
          → (x : ℕ)
          → ((j : ℕ)
              → j < (h.descs d).blocks_per_arena
              → x ≢ arena2block (block2arena b) (h.descs d).block_size j)
          → has x left ≡ has x (h.descs d).free_list
      kept left is_left x outside =
          let not_b : x ≢ b = λ e. outside block.i block.in_arena (
            e
            ∙ block.at
            ∙ ap (λ a. arena2block a (h.descs d).block_size block.i)
                (sym (block2arena-arena h d b v lt block out))) in
          is_left.1 x (λ j le low. outside j (omega arith))
          ∙ has-append x (h.descs d).free_list (b ∷ [])
          ∙ ground (arith, ne→not_== x b not_b)

-- `sys_free` of a block that is not in its free list, of a heap in order, where the page of its
-- arena is mapped into the physical pool, never fails and leaves the heap in order; the count of
-- the arena is below that of its blocks, and all its other blocks are in the free list where the
-- count is one below. Where the count is lower, the block is at the end of the list, the count is
-- one higher, the other arenas, lists, pages and the memory are as they were, and every arena
-- whose count was that of its blocks in its free list has such a count again. Where it is one
-- below, the list loses all blocks of the arena and no other, and the arena's page alone goes
-- back to the virtual pool and is unmapped.
pub sys_free-Frees :
    (h : Heap) (d b : ℕ)
    → IsHeap h
    → d < 7
    → (block : IsBlock h d b) → has b (h.descs d).free_list ≡ false
    → HasPage h block.k
    → (h.arenas (block2arena b)).cnt < (h.descs d).blocks_per_arena
    → ((h.arenas (block2arena b)).cnt + 1 ≡ (h.descs d).blocks_per_arena
        → (j : ℕ) → j < (h.descs d).blocks_per_arena
        → arena2block (block2arena b) (h.descs d).block_size j ≢ b
        → has (arena2block (block2arena b) (h.descs d).block_size j) (h.descs d).free_list ≡ true)
    → (h' : Heap) × (sys_free b h ≡ ok h')
      × IsHeap h'
      × ((((h.arenas (block2arena b)).cnt + 1 < (h.descs d).blocks_per_arena) × Puts h d b h')
          ⊎ (((h.arenas (block2arena b)).cnt + 1 ≡ (h.descs d).blocks_per_arena)
              × Empties h d block.k (block2arena b) h'))
sys_free-Frees h d b v lt block out page_there below others =
    elim (Bool-cases (ltb ((h.arenas (block2arena b)).cnt + 1) (h.descs d).blocks_per_arena)) [
      | inl more ↦
          let busy : (h.arenas (block2arena b)).cnt + 1 < (h.descs d).blocks_per_arena =
            ground (arith, more) in
          let (h', run, v', puts) = sys_free-Puts h d b v lt block out busy in
          (h', run, v', inl (busy, puts))
      | inr last ↦
          let full : (h.arenas (block2arena b)).cnt + 1 ≡ (h.descs d).blocks_per_arena =
            ground (arith, last, below) in
          let (h', run, v', empties) =
            sys_free-Empties h d b v lt block out page_there full (others full) in
          (h', run, v', inr (full, empties))
    ]

-- ===== src/Memory/Heap.antt =====
-- kernel/memory.c, `sys_malloc` and `sys_free`: blocks of seven sizes in arenas of one page, and
-- whole pages for more than 1024 bytes.
--
-- A heap is the one of the kernel or of a process, as `cur->pml4` chooses. The free lists are the
-- sequences of blocks that their links hold.
use recover_os.Prelude.{
  ℕ, zero, suc, ◌+◌, ◌-◌, ◌*◌, ◌/◌, ◌%◌, ◌^◌, Bool, true, false, not, Option, none, some, List, [],
  ◌∷◌, ◌++◌, Run, ok, fault, ◌>>=◌, ◌>>◌, assert, ltb, leb, ◌==◌, if◌then◌else◌, replicate,
}
use recover_os.Bitmap.{bitmap_init}
use recover_os.LinkedList.Chain.{has}
use recover_os.Thread.Tasks.{erase}
use recover_os.Memory.{Memory, Pool, alloc_pages, free_pages}

abbrev pub desc_cnt : ℕ
desc_cnt = 7

-- `struct mem_desc`
pub record Desc : Type 0 where
  pub block_size : ℕ
  pub blocks_per_arena : ℕ
  pub free_list : List ℕ

-- `struct arena`, 16 bytes; a `desc` of none is NULL.
pub record Arena : Type 0 where
  pub cnt : ℕ
  pub desc : Option ℕ

pub record Heap : Type 0 where
  pub mem : Memory
  pub pool : Pool
  pub descs : ℕ → Desc
  -- what stands at the start of a page
  pub arenas : ℕ → Arena

abbrev pub set_desc : Heap → ℕ → Desc → Heap
set_desc h d v = record h { descs = λ e. if e == d then v else h.descs e }

abbrev pub set_arena : Heap → ℕ → Arena → Heap
set_arena h a v = record h { arenas = λ b. if b == a then v else h.arenas b }

-- The loop of `mem_desc_init`
unfoldable pub desc_init_from : (rounds i block_size : ℕ) → (ℕ → Desc) → ℕ → Desc
desc_init_from zero i block_size f = f
desc_init_from (suc n) i block_size f =
    let desc : Desc = record {
      block_size = block_size;
      blocks_per_arena = (4096 - 16) / block_size;
      free_list = [];
    } in
    desc_init_from n (i + 1) (block_size * 2) (λ d. if d == i then desc else f d)

unfoldable pub mem_desc_init : (ℕ → Desc) → ℕ → Desc
mem_desc_init = desc_init_from desc_cnt 0 16

-- V_POOL_BITS_MAX
abbrev pub v_pool_bits_max : ℕ
v_pool_bits_max = 256

-- The bits of a pool are an array of 256 bytes.
unfoldable pub virt_pool_init : (start len : ℕ) → Heap → Run Heap
virt_pool_init start len h = do
  m ← bitmap_init (record { bytes_len = len / 4096 / 8; bits = replicate v_pool_bits_max 1 })
  ok (record h { pool = record { start = start; pool_bitmap = m }; descs = mem_desc_init h.descs })

abbrev pub block2arena : ℕ → ℕ
block2arena b = b / 4096 * 4096

-- `arena2block`, with the block size of the arena's descriptor.
abbrev pub arena2block : (arena block_size block_idx : ℕ) → ℕ
arena2block a block_size block_idx = a + 16 + block_idx * block_size

-- The loop of `create_free_blocks`
unfoldable pub add_blocks : (rounds i arena block_size : ℕ) → List ℕ → Run (List ℕ)
add_blocks zero i a size l = ok l
add_blocks (suc n) i a size l = assert (not (has (arena2block a size i) l)) >>= λ _.
    add_blocks n (i + 1) a size (l ++ arena2block a size i ∷ [])

unfoldable pub create_free_blocks : (desc_idx : ℕ) → Heap → Run Heap
create_free_blocks d h = do
  (a, pool, mem) ← alloc_pages h.pool 1 h.mem
  assert (not (a == 0))
  let desc = h.descs d
  let h' =
      set_arena (record h { mem = mem; pool = pool }) a
        (record { cnt = desc.blocks_per_arena; desc = some d })
  blocks ← add_blocks desc.blocks_per_arena 0 a desc.block_size desc.free_list
  ok (set_desc h' d (record desc { free_list = blocks }))

-- The first descriptor whose blocks are large enough, from `desc_idx` on.
unfoldable pub desc_from : (rounds desc_idx size : ℕ) → Heap → ℕ
desc_from zero d size h = d
desc_from (suc n) d size h =
    let rest = desc_from n (d + 1) size h in if leb size (h.descs d).block_size then d else rest

abbrev pub is_empty : List ℕ → Bool
is_empty [] = true
is_empty (_ ∷ _) = false

-- `list_pop` of the free list, and the count of its arena.
unfoldable pub take_block : (desc_idx : ℕ) → Heap → Run (ℕ × Heap)
take_block d h = elim (h.descs d).free_list [
  | [] ↦ fault
  | b ∷ rest ↦
      let h' = set_desc h d (record (h.descs d) { free_list = rest }) in
      let a = block2arena b in
      ok
        (b, set_arena h' a (record (h.arenas a) { cnt = ((h.arenas a).cnt + 2 ^ 64 - 1) % 2 ^ 64 }))
]

unfoldable pub malloc_block : (size : ℕ) → Heap → Run (ℕ × Heap)
malloc_block size h = do
  let d = desc_from desc_cnt 0 size h
  h ← if is_empty (h.descs d).free_list then create_free_blocks d h else ok h
  take_block d h

unfoldable pub malloc_pages : (size : ℕ) → Heap → Run (ℕ × Heap)
malloc_pages size h = do
  let pg_cnt = (size + 16 + 4096 - 1) % 2 ^ 64 / 4096
  (a, pool, mem) ← alloc_pages h.pool pg_cnt h.mem
  let h' = record h { mem = mem; pool = pool }
  if a == 0 then ok (0, h') else ok (a + 16, set_arena h' a (record { cnt = pg_cnt; desc = none }))

unfoldable pub sys_malloc : (size : ℕ) → Heap → Run (ℕ × Heap)
sys_malloc size h = if ltb 1024 size then malloc_pages size h else malloc_block size h

-- The loop of `sys_free` over the blocks of an arena that has no block in use.
unfoldable pub drop_blocks : (rounds i arena block_size : ℕ) → List ℕ → Run (List ℕ)
drop_blocks zero i a size l = ok l
drop_blocks (suc n) i a size l = assert (has (arena2block a size i) l) >>= λ _.
    drop_blocks n (i + 1) a size (erase (arena2block a size i) l)

unfoldable pub free_block : (ptr desc_idx : ℕ) → Heap → Run Heap
free_block b d h = do
  let a = block2arena b
  let desc = h.descs d
  assert (not (has b desc.free_list))
  let blocks = desc.free_list ++ b ∷ []
  let cnt = ((h.arenas a).cnt + 1) % 2 ^ 64
  let h' = set_arena h a (record (h.arenas a) { cnt = cnt })
  if cnt == desc.blocks_per_arena
      then (do
        left ← drop_blocks desc.blocks_per_arena 0 a desc.block_size blocks
        (pool, mem) ← free_pages h.pool a 1 h.mem
        ok (set_desc (record h' { pool = pool; mem = mem }) d (record desc { free_list = left })))
      else ok (set_desc h' d (record desc { free_list = blocks }))

unfoldable pub sys_free : (ptr : ℕ) → Heap → Run Heap
sys_free ptr h = do
  assert (not (ptr == 0))
  let a = block2arena ptr
  elim (h.arenas a).desc [
    | none ↦ free_pages h.pool a (h.arenas a).cnt h.mem >>= λ (pool, mem).
        ok (record h { pool = pool; mem = mem })
    | some d ↦ free_block ptr d h
  ]

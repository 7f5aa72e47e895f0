-- ===== src/Memory.antt =====
-- kernel/memory.c: physical pages, page tables, and pages of virtual memory.
--
-- `cells` holds the 64-bit words of the page tables at their virtual addresses: entries of different
-- tables are different words, since every table has a physical page of its own. A result of 0 is
-- NULL. The reload of cr3 and `invlpg` have no counterpart: the model has no cache of translations.
pub mod Arenas
pub mod Blocks
pub mod Emptying
pub mod Examples
pub mod Free
pub mod Freed
pub mod Heap
pub mod Kept
pub mod Taking
pub mod Malloc
pub mod Mapping
pub mod Pages
pub mod Release
pub mod Starting
pub mod Steps
pub mod Tables
use recover_os.Prelude.{
  ℕ, zero, suc, ◌+◌, ◌-◌, ◌*◌, ◌/◌, ◌%◌, ◌^◌, Bool, true, false, ◌&&◌, not, Option, none, some,
  List, Run, ok, ◌>>=◌, ◌>>◌, assert, ltb, ◌==◌, if◌then◌else◌,
}
use recover_os.Bitmap.{
  Bitmap, bitmap_init, bitmap_set, bitmap_alloc_a_bit, bitmap_alloc, bitmap_free,
}
use recover_os.Memory.Tables.{pg_size, fu, pte_ptr}

pub record Memory : Type 0 where
  pub cells : ℕ → ℕ
  -- `phy_pool`
  pub phy_start : ℕ
  pub phy_bitmap : Bitmap

-- The part of `struct virt_pool` that `vpool_alloc` uses.
pub record Pool : Type 0 where
  pub start : ℕ
  pub pool_bitmap : Bitmap

abbrev pub write_cell : Memory → (address value : ℕ) → Memory
write_cell s a v = record s { cells = λ b. if b == a then v else s.cells b }

-- `memset((void *)(address & 0xfffffffffffff000), 0, PG_SIZE)`
abbrev pub clear_page : Memory → (address : ℕ) → Memory
clear_page s a = record s { cells = λ b. if b / 4096 == a / 4096 then 0 else s.cells b }

abbrev pub present : Memory → (address : ℕ) → Bool
present s a = s.cells a % 2 == 1

unfoldable pub addr_v2p : ℕ → Memory → ℕ
addr_v2p vaddr s = s.cells (pte_ptr vaddr) / 4096 * 4096 + vaddr % 4096

pub palloc : Memory → Run (ℕ × Memory)
palloc s = do
  (idx, m) ← bitmap_alloc_a_bit s.phy_bitmap
  let s' = record s { phy_bitmap = m }
  elim idx [ none ↦ ok (0, s') | some i ↦ ok (s.phy_start + pg_size * i, s') ]

-- The loop of `map_stat` from level `i`, with `rounds` rounds left.
map_stat_from : (rounds i vaddr : ℕ) → Memory → ℕ
map_stat_from zero i vaddr s = 4
map_stat_from (suc n) i vaddr s =
    let rest = map_stat_from n (i + 1) vaddr s in if not (present s (fu i vaddr)) then i else rest

pub map_stat : (vaddr : ℕ) → Memory → ℕ
map_stat vaddr s = map_stat_from 4 0 vaddr s

-- One round of the loop of `page_map`: a table for level `stat + 1`.
pub add_table : (stat vaddr : ℕ) → Memory → Run Memory
add_table stat vaddr s = do
  (pg_paddr, s) ← palloc s
  assert (not (pg_paddr == 0))
  ok (clear_page (write_cell s (fu stat vaddr) (pg_paddr + 7)) (fu (stat + 1) vaddr))

pub add_tables : (rounds stat vaddr : ℕ) → Memory → Run Memory
add_tables zero stat vaddr s = ok s
add_tables (suc n) stat vaddr s = add_table stat vaddr s >>= λ s'. add_tables n (stat + 1) vaddr s'

pub page_map : (vaddr paddr : ℕ) → Memory → Run Memory
page_map vaddr paddr s = do
  let stat = map_stat vaddr s
  assert (not (stat == 4))
  s ← add_tables (3 - stat) stat vaddr s
  ok (write_cell s (fu 3 vaddr) (paddr + 7))

pub vpool_alloc : Pool → (cnt : ℕ) → Run (ℕ × Pool)
vpool_alloc vpool cnt = do
  (idx, m) ← bitmap_alloc vpool.pool_bitmap cnt
  let vpool' = record vpool { pool_bitmap = m }
  elim idx [ none ↦ ok (0, vpool') | some i ↦ ok (i * pg_size + vpool.start, vpool') ]

-- The loop of `alloc_pages` and `get_pages`: whether each of the pages got a physical one.
pub map_pages : (rounds vaddr : ℕ) → Memory → Run (Bool × Memory)
map_pages zero vaddr s = ok (true, s)
map_pages (suc n) vaddr s = palloc s >>= λ (paddr, s1). elim (paddr == 0) [
  | true ↦ ok (false, s1)
  | false ↦ page_map vaddr paddr s1 >>= λ s2. map_pages n (vaddr + pg_size) s2
]

pub alloc_pages : Pool → (cnt : ℕ) → Memory → Run (ℕ × Pool × Memory)
alloc_pages vpool cnt s = do
  (vaddr, vpool) ← vpool_alloc vpool cnt
  if vaddr == 0
      then ok (0, vpool, s)
      else (do (mapped, s) ← map_pages cnt vaddr s; ok ((if mapped then vaddr else 0), vpool, s))

pub get_pages : (vaddr cnt : ℕ) → Memory → Run (ℕ × Memory)
get_pages vaddr cnt s = do
  (mapped, s) ← map_pages cnt vaddr s
  ok ((if mapped then vaddr else 0), s)

-- A round of the loop of `free_pages`. The differences are of a `size_t`.
pub unmap_page : (vaddr : ℕ) → Memory → Run Memory
unmap_page vaddr s = do
  let pidx = (addr_v2p vaddr s + 2 ^ 64 - s.phy_start) % 2 ^ 64 / pg_size
  let pte = pte_ptr vaddr
  assert (present s pte)
  let s' = write_cell s pte (s.cells pte - 1)
  m ← bitmap_set s'.phy_bitmap pidx true
  ok (record s' { phy_bitmap = m })

unmap_pages : (rounds vaddr : ℕ) → Memory → Run Memory
unmap_pages zero vaddr s = ok s
unmap_pages (suc n) vaddr s = unmap_page vaddr s >>= λ s'. unmap_pages n (vaddr + pg_size) s'

pub free_pages : Pool → (ptr cnt : ℕ) → Memory → Run (Pool × Memory)
free_pages vpool ptr cnt s = do
  s ← unmap_pages cnt ptr s
  m ← bitmap_free vpool.pool_bitmap ((ptr + 2 ^ 64 - vpool.start) % 2 ^ 64 / pg_size) cnt
  ok (record vpool { pool_bitmap = m }, s)

-- `mem_pool_init`, whose difference is of a `size_t`, for the `bits` that stand at MEM_BITMAP_BASE.
pub mem_pool_init : (memsize : ℕ) → (bits : List ℕ) → (cells : ℕ → ℕ) → Run Memory
mem_pool_init memsize bits cells = do
  let page_cnt = memsize / pg_size
  let used_pages = 0x100000 / pg_size + 4
  m ←
      bitmap_init
        (record { bytes_len = (page_cnt + 2 ^ 64 - used_pages) % 2 ^ 64 / 8; bits = bits })
  ok (record { cells = cells; phy_start = used_pages * pg_size; phy_bitmap = m })

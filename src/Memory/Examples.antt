-- ===== src/Memory/Examples.antt =====
-- kernel/memory.c on a memory without page tables, with sixteen physical pages and a pool of eight
-- virtual ones.
use recover_os.Prelude.{
  ◌⊎◌, ℕ, zero, suc, ◌+◌, ◌*◌, ◌%◌, ◌≤◌, ◌<◌, ◌≡◌, refl, ◌≢◌, true, false, none, some, [], ◌∷◌,
  arith, ok, get_or,
}
use recover_os.Memory.Tables.{pte_ptr}
use recover_os.Bitmap.Byte.{clear_bit}
use recover_os.Bitmap.{
  free_from, bitmap_set, bitmap_read, store_byte, bitmap_free, free_from, bitmap_free, Bitmap,
}
use recover_os.Bitmap.Byte.{test_bit}
use recover_os.Bitmap.Laws.{bit, IsValid}
use recover_os.Bitmap.Turned.{Turned}
use recover_os.Bitmap.Count.{clear_below, free_bits}
use recover_os.Memory.{
  unmap_page, unmap_pages, Memory, Pool, addr_v2p, page_map, map_stat, map_stat_from, alloc_pages,
  free_pages,
}
use recover_os.Memory.Steps.{IsPool, IsMapped}
use recover_os.Memory.Mapping.{Maps, page_map-Maps}
use recover_os.Memory.Pages.{Allocated, IsFresh, alloc_pages-Allocated}
use recover_os.Memory.Release.{Unmaps, Backed, free_pages-Unmaps}
use recover_os.Memory.Heap.{Desc, Arena, Heap, desc_init_from, mem_desc_init, sys_malloc, sys_free}
use recover_os.Memory.Taking.{IsBlock, IsHeap}
use recover_os.Memory.Malloc.{Served, sys_malloc-Served}
use recover_os.Memory.Starting.{mem_desc_init-IsHeap}
use recover_os.Memory.Free.{Puts}
use recover_os.Memory.Freed.{HasPage, Empties, sys_free-Frees}

-- Bytes that are all the same number, and fit into a byte.
abbrev all_bytes : ℕ → Bitmap
all_bytes b = record { bytes_len = 2; bits = b ∷ b ∷ [] }

all_bytes-IsValid : (b : ℕ) → b < 256 → IsValid (all_bytes b)
all_bytes-IsValid b lt = record { backed = omega arith; bytes = below }
  where
    below : (i : ℕ) → get_or (b ∷ b ∷ []) i 0 < 256
    below zero = lt
    below (suc zero) = lt
    below (suc (suc i)) = omega arith

abbrev unmapped : Memory
unmapped = record { cells = λ a. 0; phy_start = 0x104000; phy_bitmap = all_bytes 0 }

unmapped-IsPool : IsPool unmapped
unmapped-IsPool = record {
  bits = all_bytes-IsValid 0 (omega arith);
  aligned = refl;
  not_null = omega arith;
}

none_mapped : (v : ℕ) → ¬ IsMapped unmapped v
none_mapped v m = ground (arith, m.at_pml4e)

sixteen_left : free_bits unmapped.phy_bitmap ≡ 16
unfolding free_bits clear_below bit test_bit
sixteen_left = refl

abbrev address : ℕ
address = 0xffff800000100000

abbrev pages : Pool
pages = record { start = address; pool_bitmap = record { bytes_len = 1; bits = 0 ∷ 0 ∷ [] } }

pages-IsValid : IsValid pages.pool_bitmap
pages-IsValid = record { backed = omega arith; bytes = (all_bytes-IsValid 0 (omega arith)).bytes }

pages-IsFresh : (cnt : ℕ) → cnt ≤ 9 → IsFresh pages cnt unmapped
pages-IsFresh cnt le = record {
  bits = pages-IsValid;
  room = omega arith;
  aligned = refl;
  not_null = omega arith;
  plain = omega arith;
  unmapped = λ i clear. none_mapped (i * 4096 + address);
}

address-free : map_stat address unmapped ≢ 4
unfolding map_stat map_stat_from
address-free = λ e. ground (arith, e)

page_map_example :
    (s' : Memory) × (page_map address 0x104000 unmapped ≡ ok s') × Maps address 0x104000 unmapped s'
page_map_example =
    page_map-Maps address 0x104000 unmapped (omega arith) unmapped-IsPool
      (omega (arith, sixteen_left)) address-free refl

alloc_pages_example :
    (r : ℕ × Pool × Memory) × (alloc_pages pages 2 unmapped ≡ ok r) × Allocated pages 2 unmapped r
alloc_pages_example =
    alloc_pages-Allocated pages 2 unmapped (omega arith) (pages-IsFresh 2 (omega arith))
      unmapped-IsPool (omega (arith, sixteen_left))

abbrev no_descs : ℕ → Desc
no_descs d = record { block_size = 0; blocks_per_arena = 0; free_list = [] }

abbrev heap : (ℕ → Arena) → Pool → Heap
heap arenas pool = record {
  mem = unmapped;
  pool = pool;
  descs = mem_desc_init no_descs;
  arenas = arenas;
}

abbrev no_arenas : ℕ → Arena
no_arenas a = record { cnt = 0; desc = none }

heap-IsHeap : (arenas : ℕ → Arena) (pool : Pool) → pool.start % 4096 ≡ 0 → IsHeap (heap arenas pool)
heap-IsHeap arenas pool al =
    mem_desc_init-IsHeap (record (heap arenas pool) { descs = no_descs }) al

sys_malloc_example : Served 100 (heap no_arenas pages) (sys_malloc 100 (heap no_arenas pages))
sys_malloc_example =
    sys_malloc-Served 100 (heap no_arenas pages) (omega arith) (heap-IsHeap no_arenas pages refl)
      (pages-IsFresh 1 (omega arith)) unmapped-IsPool (omega (arith, sixteen_left))

-- The first page of the pool is taken.
abbrev taken_pages : Pool
taken_pages = record { start = address; pool_bitmap = record { bytes_len = 1; bits = 1 ∷ 0 ∷ [] } }

-- An arena of blocks of 128 bytes, all in use.
abbrev arena : ℕ → Arena
arena a = record { cnt = 0; desc = some 3 }

-- Every page is mapped to the first physical one.
abbrev mapped : Memory
mapped = record { cells = λ a. 0x104007; phy_start = 0x104000; phy_bitmap = all_bytes 1 }

mapped-Backed : Backed 1 (0 * 4096 + taken_pages.start) mapped
unfolding addr_v2p
mapped-Backed i lt = (
  record { at_pml4e = refl; at_pdpte = refl; at_pde = refl; at_pte = refl },
  record { low = omega arith; high = omega arith; word = omega arith },
)

abbrev mapped_heap : Heap
mapped_heap = record (heap arena taken_pages) { mem = mapped }

arena_block : IsBlock mapped_heap 3 (address + 16 + 128)
unfolding mem_desc_init desc_init_from bit test_bit
arena_block = record { k = 0; i = 1; at = refl; in_arena = omega arith; taken = refl; owner = refl }

arena-HasPage : HasPage mapped_heap 0
arena-HasPage = record {
  mem = record { bits = all_bytes-IsValid 1 (omega arith); aligned = refl; not_null = omega arith };
  bits = record { backed = omega arith; bytes = below };
  word = omega arith;
  low = omega arith;
  room = omega arith;
  backed = mapped-Backed;
}
  where
    below : (i : ℕ) → get_or (1 ∷ 0 ∷ []) i 0 < 256
    below zero = omega arith
    below (suc zero) = omega arith
    below (suc (suc i)) = omega arith

sys_free_example :
    (h' : Heap) × (sys_free (address + 16 + 128) mapped_heap ≡ ok h')
    × IsHeap h'
    × (((1 < 31) × Puts mapped_heap 3 (address + 16 + 128) h')
        ⊎ ((◌≡◌ {A = ℕ} 1 31) × Empties mapped_heap 3 0 address h'))
unfolding mem_desc_init desc_init_from arena_block
sys_free_example =
    sys_free-Frees mapped_heap 3 (address + 16 + 128)
      (mem_desc_init-IsHeap (record mapped_heap { descs = no_descs }) refl) (omega arith)
      arena_block refl arena-HasPage (omega arith) (λ e. absurd (omega arith))

free_pages_example :
    (vp' : Pool) × (s' : Memory) × (free_pages taken_pages (0 * 4096 + taken_pages.start) 1 mapped
      ≡ ok (vp', s'))
    × Turned false 0 1 taken_pages.pool_bitmap vp'.pool_bitmap
    × (vp'.start ≡ taken_pages.start)
    × Unmaps 1 (0 * 4096 + taken_pages.start) mapped s'
unfolding bit test_bit
free_pages_example =
    free_pages-Unmaps taken_pages 0 1 mapped
      (record { bits = all_bytes-IsValid 1 (omega arith); aligned = refl; not_null = omega arith })
      (record { backed = omega arith; bytes = below }) refl (omega arith) (omega arith)
      (omega arith) used mapped-Backed
  where
    below : (i : ℕ) → get_or (1 ∷ 0 ∷ []) i 0 < 256
    below zero = omega arith
    below (suc zero) = omega arith
    below (suc (suc i)) = omega arith

    used : (k : ℕ) → k < 1 → bit taken_pages.pool_bitmap (0 + k) ≡ true
    used zero lt = refl
    used (suc k) lt = absurd (omega arith)

-- The first eight pages are taken, and every page is mapped to the first physical one.
abbrev pub first_pages : Pool
first_pages = record { start = 0; pool_bitmap = record { bytes_len = 1; bits = 0xff ∷ [] } }

abbrev pub all_mapped : Memory
all_mapped = record {
  cells = λ a. 0x104007;
  phy_start = 0x104000;
  phy_bitmap = record { bytes_len = 1; bits = 0xff ∷ [] };
}

pub two_pages :
    (k1 : Pool × Memory) × (k2 : Pool × Memory) × (free_pages first_pages 0x5000 1 all_mapped
      ≡ ok k1)
    × (free_pages k1.0 4 1 k1.1 ≡ ok k2)
unfolding free_pages unmap_pages unmap_page addr_v2p bitmap_free free_from bitmap_set bitmap_read
    store_byte test_bit pte_ptr clear_bit
two_pages = (_, _, refl, refl)

-- ===== src/Memory/Starting.antt =====
-- `mem_desc_init` and `virt_pool_init`: the heap that they begin with.
use recover_os.Prelude.{
  ◌>>=◌, replicate, length-replicate, get_or, ℕ, zero, suc, ◌-◌, ◌*◌, ◌/◌, ◌%◌, ◌≤◌, ◌<◌, ◌≡◌, refl,
  ◌≢◌, true, false, arith, ok,
}
use recover_os.LinkedList.Chain.{has, Distinct}
use recover_os.Memory.Heap.{
  Desc, Heap, desc_init_from, mem_desc_init, v_pool_bits_max, virt_pool_init,
}
use recover_os.Bitmap.{Bitmap}
use recover_os.Bitmap.Laws.{IsValid, bit}
use recover_os.Bitmap.Guard.{bitmap_init_lem}
use recover_os.Memory.Taking.{IsHeap}

-- The sizes are 16, 32, and so on up to 1024.
desc_cases : (P : ℕ → Type 0) → P 0 → P 1 → P 2 → P 3 → P 4 → P 5 → P 6 → (d : ℕ) → d < 7 → P d
desc_cases P a b c e f g h zero lt = a
desc_cases P a b c e f g h (suc zero) lt = b
desc_cases P a b c e f g h (suc (suc zero)) lt = c
desc_cases P a b c e f g h (suc (suc (suc zero))) lt = e
desc_cases P a b c e f g h (suc (suc (suc (suc zero)))) lt = f
desc_cases P a b c e f g h (suc (suc (suc (suc (suc zero))))) lt = g
desc_cases P a b c e f g h (suc (suc (suc (suc (suc (suc zero)))))) lt = h
desc_cases P a b c e f g h (suc (suc (suc (suc (suc (suc (suc d))))))) lt = absurd (omega arith)

pub mem_desc_init-IsHeap :
    (h : Heap) → h.pool.start % 4096 ≡ 0 → IsHeap (record h { descs = mem_desc_init h.descs })
unfolding mem_desc_init desc_init_from
mem_desc_init-IsHeap h start = record {
  start = start;
  low =
      desc_cases (λ d. 16 ≤ (descs d).block_size) (omega arith) (omega arith) (omega arith)
        (omega arith) (omega arith) (omega arith) (omega arith);
  high =
      desc_cases (λ d. (descs d).block_size ≤ 1024) (omega arith) (omega arith) (omega arith)
        (omega arith) (omega arith) (omega arith) (omega arith);
  last = refl;
  fits =
      desc_cases (λ d. (descs d).blocks_per_arena ≡ (4096 - 16) / (descs d).block_size) refl refl
        refl refl refl refl refl;
  blocks = λ d b lt listed. absurd (none d b lt listed);
  distinct = desc_cases (λ d. Distinct (descs d).free_list) tt tt tt tt tt tt tt;
}
  where
    descs : ℕ → Desc
    descs = mem_desc_init h.descs

    none : (d b : ℕ) → d < 7 → has b (descs d).free_list ≢ true
    none d b lt =
        desc_cases (λ d. has b (descs d).free_list ≢ true) (λ e. cc) (λ e. cc) (λ e. cc) (λ e. cc)
          (λ e. cc) (λ e. cc) (λ e. cc) d lt

ones_below : (n i : ℕ) → get_or (replicate n 1) i 0 < 256
ones_below zero i = omega arith
ones_below (suc n) zero = omega arith
ones_below (suc n) (suc i) = ones_below n i

-- `virt_pool_init` from a page's border on, of a length that the array of bits holds, never fails: the
-- heap is in order, and the pool has as many pages as go into its bytes of bits, all of them free.
pub virt_pool_init-IsHeap :
    (start len : ℕ) (h : Heap)
    → start % 4096 ≡ 0
    → len ≤ 256 * 8 * 4096
    → (h' : Heap) × (virt_pool_init start len h ≡ ok h')
      × IsHeap h'
      × IsValid h'.pool.pool_bitmap
      × (h'.pool.start ≡ start)
      × (h'.pool.pool_bitmap.bytes_len ≡ len / 4096 / 8)
      × ((i : ℕ) → i < 8 * (len / 4096 / 8) → bit h'.pool.pool_bitmap i ≡ false)
unfolding virt_pool_init
virt_pool_init-IsHeap start len h al le =
    let m : Bitmap = record { bytes_len = len / 4096 / 8; bits = replicate v_pool_bits_max 1 } in
    let valid : IsValid m = record {
      backed = omega (arith, length-replicate {A = ℕ} v_pool_bits_max 1);
      bytes = ones_below v_pool_bits_max;
    } in
    let (m', run, valid', same_len, same_memory, bits) = bitmap_init_lem m valid in
    (
      record h { pool = record { start = start; pool_bitmap = m' }; descs = mem_desc_init h.descs },
      rw (run, ◌>>=◌) refl,
      mem_desc_init-IsHeap (record h { pool = record { start = start; pool_bitmap = m' } }) al,
      valid',
      refl,
      same_len,
      λ i lt. ground (arith, bits i),
    )

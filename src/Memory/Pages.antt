-- ===== src/Memory/Pages.antt =====
-- `alloc_pages`: a run of free virtual pages, each mapped to a physical page.
use recover_os.Prelude.{
  ℕ, zero, suc, ◌+◌, ◌*◌, ◌/◌, ◌%◌, ◌^◌, ◌≤◌, ◌<◌, ◌≡◌, refl, sym, ◌∙◌, ap, subst, ◌≢◌, ◌⊎◌, inl,
  inr, true, false, arith, Option, none, some, ok, ◌>>=◌, ne→not_==, length,
}
use recover_os.Bitmap.{Bitmap, bitmap_alloc}
use recover_os.Bitmap.Laws.{IsValid, bit}
use recover_os.Bitmap.Turned.{Clear, Turned}
use recover_os.Bitmap.Alloc.{TakesRun, bitmap_alloc-TakesRun}
use recover_os.Bitmap.Count.{free_bits}
use recover_os.Memory.Tables.{page, pte_ptr}
use recover_os.Memory.{
  Memory, Pool, addr_v2p, palloc, page_map, vpool_alloc, map_pages, alloc_pages,
}
use recover_os.Memory.Steps.{IsPool, Took, palloc-Took, IsMapped, IsPlain}
use recover_os.Memory.Mapping.{Maps, page_map-Maps, map_stat-IsMapped}

same_cells : (s s' : Memory) (w : ℕ) → s'.cells ≡ s.cells → IsMapped s w → IsMapped s' w
same_cells s s' w same m = record {
  at_pml4e = rw same m.at_pml4e;
  at_pdpte = rw same m.at_pdpte;
  at_pde = rw same m.at_pde;
  at_pte = rw same m.at_pte;
}

-- The `n` pages from `v` on are mapped, with four physical pages at most for each, and the mappings
-- of other pages are as they were.
pub record MapsRun (n v : ℕ) (s s' : Memory) : Type 0 where
  pub took : Took (4 * n) s s'
  pub mapped : (i : ℕ) → i < n → IsMapped s' (v + i * 4096)
  pub frame :
      (w : ℕ)
      → IsPlain w
      → (page w < page v) ⊎ (page v + n ≤ page w)
      → IsMapped s w
      → IsMapped s' w × (addr_v2p w s' ≡ addr_v2p w s)

map_pages-step :
    (n v : ℕ) (s : Memory) (p : ℕ) (s1 s2 : Memory)
    → palloc s ≡ ok (p, s1)
    → p ≢ 0
    → page_map v p s1 ≡ ok s2
    → map_pages (suc n) v s ≡ map_pages n (v + 4096) s2
unfolding map_pages
map_pages-step n v s p s1 s2 run1 pn run2 = rw (run1, ◌>>=◌, ne→not_== p 0 pn, run2, ◌>>=◌)

module _ (n v : ℕ) (s : Memory) (p : ℕ) (s1 s2 : Memory) (took : Took 1 s s1)
    (same : s1.cells ≡ s.cells) (maps : Maps v p s1 s2) (low : page v + suc n ≤ 511 * 2 ^ 27) where
  next_page : page (v + 4096) ≡ page v + 1
  next_page = omega arith

  -- The pages behind `v` are not mapped with it.
  still_unmapped :
      ((i : ℕ) → i < suc n → ¬ IsMapped s (v + i * 4096))
      → (i : ℕ) → i < n
      → ¬ IsMapped s2 (v + 4096 + i * 4096)
  still_unmapped unmapped i lt m =
      let w = v + 4096 + i * 4096 in
      let before = same_cells s1 s w (sym same) (maps.only w (omega arith) (omega arith) m) in
      unmapped (suc i) (omega arith)
        (subst (IsMapped s) {x = w} {y = v + suc i * 4096} (omega arith) before)

  extend : (s' : Memory) → MapsRun n (v + 4096) s2 s' → MapsRun (suc n) v s s'
  unfolding addr_v2p
  extend s' r = record {
    took = record {
      pool = r.took.pool;
      enough = omega (arith, took.enough, maps.took.enough, r.took.enough);
    };
    mapped = each;
    frame = λ w pw out m.
        let (m2, a2) = maps.frame w pw (ground arith) (same_cells s s1 w same m) in
        let (m', a') = r.frame w pw (further w out) m2 in
        (m', a' ∙ a2 ∙ ap (λ (f : ℕ → ℕ). f (pte_ptr w) / 4096 * 4096 + w % 4096) same);
  }
    where
      further :
          (w : ℕ)
          → (page w < page v) ⊎ (page v + suc n ≤ page w)
          → (page w < page (v + 4096)) ⊎ (page (v + 4096) + n ≤ page w)
      further w (inl below) = inl (omega arith)
      further w (inr above) = inr (omega arith)

      each : (i : ℕ) → i < suc n → IsMapped s' (v + i * 4096)
      each zero lt =
          let (m', a') = r.frame v (omega arith) (inl (omega arith)) maps.mapped in
          subst (IsMapped s') {x = v} {y = v + 0 * 4096} (omega arith) m'
      each (suc i) lt =
          subst (IsMapped s') {x = v + 4096 + i * 4096} {y = v + suc i * 4096} (omega arith)
            (r.mapped i (omega arith))

pub map_pages-MapsRun :
    (n v : ℕ) (s : Memory)
    → IsPool s
    → 4 * n ≤ free_bits s.phy_bitmap
    → page v + n ≤ 511 * 2 ^ 27
    → ((i : ℕ) → i < n → ¬ IsMapped s (v + i * 4096))
    → (s' : Memory) × (map_pages n v s ≡ ok (true, s')) × MapsRun n v s s'
unfolding map_pages addr_v2p
map_pages-MapsRun zero v s pool left low unmapped = (
  s,
  refl,
  record {
    took = record { pool = pool; enough = omega arith };
    mapped = λ i lt. absurd (omega arith);
    frame = λ w pw out m. (m, refl);
  },
)
map_pages-MapsRun (suc n) v s pool left low unmapped =
    let (p, s1, run1, pn, al, took, same) = palloc-Took s pool (omega arith) in
    let not_yet : ¬ IsMapped s v = λ m.
      unmapped 0 (omega arith) (subst (IsMapped s) {x = v} {y = v + 0 * 4096} (omega arith) m) in
    let (s2, run2, maps) =
      page_map-Maps v p s1 (omega arith) took.pool (omega (arith, took.enough))
        (λ e. not_yet (same_cells s1 s v (sym same) (map_stat-IsMapped v s1 e))) al in
    let later = still_unmapped n v s p s1 s2 took same maps low unmapped in
    let (s', run', r) =
      map_pages-MapsRun n (v + 4096) s2 maps.took.pool
        (omega (arith, took.enough, maps.took.enough)) (omega arith) later in
    (
      s',
      map_pages-step n v s p s1 s2 run1 pn run2 ∙ run',
      extend n v s p s1 s2 took same maps low s' r,
    )

-- What `alloc_pages` may come to: NULL, with nothing changed, where no run of `cnt` free pages begins
-- in the pool; or the address of the run, which is now taken and mapped, page by page.
abbrev pub Allocated : Pool → (cnt : ℕ) → Memory → ℕ × Pool × Memory → Type 0
Allocated vp cnt s (v, vp', s') =
    ((v ≡ 0)
      × (vp' ≡ vp)
      × (s' ≡ s)
      × ((t : ℕ) → t < 8 * vp.pool_bitmap.bytes_len → ¬ Clear vp.pool_bitmap t cnt))
    ⊎ ((i : ℕ) × (v ≡ i * 4096 + vp.start)
        × Clear vp.pool_bitmap i cnt
        × Turned true i cnt vp.pool_bitmap vp'.pool_bitmap
        × (vp'.start ≡ vp.start)
        × MapsRun cnt v s s')

-- A virtual pool in order: it starts at a page outside the tables' own addresses, its memory of bits
-- goes on for `cnt - 1` bits, and no page is mapped whose bit is clear.
pub record IsFresh (vp : Pool) (cnt : ℕ) (s : Memory) : Type 0 where
  pub bits : IsValid vp.pool_bitmap
  pub room : 8 * vp.pool_bitmap.bytes_len + cnt ≤ 8 * length vp.pool_bitmap.bits + 1
  pub aligned : vp.start % 4096 ≡ 0
  pub not_null : 0 < vp.start
  pub plain : page vp.start + 8 * vp.pool_bitmap.bytes_len + cnt ≤ 511 * 2 ^ 27
  pub unmapped : (i : ℕ) → bit vp.pool_bitmap i ≡ false → ¬ IsMapped s (i * 4096 + vp.start)

-- With a virtual pool in order and four physical pages left for each page, `alloc_pages` returns:
-- NULL, with nothing changed, if no run of free pages begins in the pool, or the address of such a
-- run, which is then taken in the pool and mapped; other mappings stay as they were.
pub alloc_pages-Allocated :
    (vp : Pool) (cnt : ℕ) (s : Memory)
    → 0 < cnt
    → IsFresh vp cnt s
    → IsPool s
    → 4 * cnt ≤ free_bits s.phy_bitmap
    → (r : ℕ × Pool × Memory) × (alloc_pages vp cnt s ≡ ok r) × Allocated vp cnt s r
unfolding alloc_pages vpool_alloc
alloc_pages-Allocated vp cnt s pos fresh pool left =
    go (bitmap_alloc-TakesRun vp.pool_bitmap cnt fresh.bits pos fresh.room)
  where
    go :
        (r : Option ℕ × Bitmap) × (bitmap_alloc vp.pool_bitmap cnt ≡ ok r)
          × TakesRun vp.pool_bitmap cnt r
        → (r : ℕ × Pool × Memory) × (alloc_pages vp cnt s ≡ ok r) × Allocated vp cnt s r
    go ((none, m), run, (same, none_free)) =
        ((0, vp, s), rw (run, ◌>>=◌) (rw same refl), inl (refl, refl, refl, none_free))
    go ((some i, m), run, (within, clear, first, turned)) =
        let v = i * 4096 + vp.start in
        let free = λ (k : ℕ) (lt : k < cnt) (mapped : IsMapped s (v + k * 4096)).
          fresh.unmapped (i + k) (clear k lt) (
            subst (IsMapped s) {x = v + k * 4096} {y = (i + k) * 4096 + vp.start} (omega arith)
              mapped) in
        let (s', run', maps) =
          map_pages-MapsRun cnt v s pool left (omega (arith, fresh.plain, fresh.aligned)) free in
        (
          (v, record vp { pool_bitmap = m }, s'),
          rw (run, ◌>>=◌, ne→not_== v 0 (omega (arith, fresh.not_null)), run') refl,
          inr (i, refl, clear, turned, refl, maps),
        )

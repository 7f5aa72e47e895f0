-- ===== src/Memory/Release.antt =====
-- `free_pages`, on both of its pools and on the page tables.
use recover_os.Prelude.{
  ℕ, zero, suc, ◌+◌, ◌-◌, ◌*◌, ◌/◌, ◌%◌, ◌^◌, ◌≤◌, ◌<◌, ◌≡◌, refl, ◌∙◌, ap, subst, ◌≢◌, ◌⊎◌, inl,
  inr, true, false, arith, ok, length,
}
use recover_os.Bitmap.{Bitmap}
use recover_os.Bitmap.Laws.{IsValid, InMemory, write, set-ok}
use recover_os.Bitmap.Turned.{Used, Turned, Turned-write}
use recover_os.Bitmap.Free.{bitmap_free-Turned}
use recover_os.Bitmap.Count.{free_bits, free_bits-le}
use recover_os.Memory.Tables.{page, pte_ptr}
use recover_os.Memory.{Memory, Pool, write_cell, addr_v2p, unmap_page, unmap_pages, free_pages}
use recover_os.Memory.Steps.{
  IsPool, IsMapped, IsPlain, SameEntries, SameEntries-IsMapped, SameEntries-back,
}
use recover_os.Memory.Kept.{kept_pte}

-- The address lies in a page of the physical pool.
pub record InPool (s : Memory) (a : ℕ) : Type 0 where
  pub low : s.phy_start ≤ a
  pub high : a < s.phy_start + 4096 * (8 * s.phy_bitmap.bytes_len)
  pub word : a < 2 ^ 64

-- The `n` pages from `v` on are no longer mapped, other mappings are as they were, and no physical
-- page became free.
pub record Unmaps (n v : ℕ) (s s' : Memory) : Type 0 where
  pub pool : IsPool s'
  pub same_start : s'.phy_start ≡ s.phy_start
  pub same_len : s'.phy_bitmap.bytes_len ≡ s.phy_bitmap.bytes_len
  pub none_freed : free_bits s'.phy_bitmap ≤ free_bits s.phy_bitmap
  pub unmapped : (i : ℕ) → i < n → ¬ IsMapped s' (v + i * 4096)
  pub frame : (w : ℕ) → IsPlain w → (page w < page v) ⊎ (page v + n ≤ page w) → SameEntries s s' w

unmap_page-Unmaps :
    (v : ℕ) (s : Memory)
    → IsPool s
    → IsPlain v
    → IsMapped s v
    → InPool s (addr_v2p v s)
    → (s' : Memory) × (unmap_page v s ≡ ok s') × Unmaps 1 v s s'
unfolding unmap_page
unmap_page-Unmaps v s pool plain m there =
    let pidx = (addr_v2p v s + 2 ^ 64 - s.phy_start) % 2 ^ 64 / 4096 in
    let inside : InMemory s.phy_bitmap pidx =
      omega (arith, there.low, there.high, there.word, pool.bits.backed) in
    let turned = Turned-write pool.bits pidx true inside in
    let s' = record (write_cell s (pte_ptr v) (s.cells (pte_ptr v) - 1)) {
      phy_bitmap = write s.phy_bitmap pidx true;
    } in
    (
      s',
      rw (m.at_pte, set-ok s.phy_bitmap pidx true inside),
      record {
        pool = record { bits = turned.valid; aligned = pool.aligned; not_null = pool.not_null };
        same_start = refl;
        same_len = turned.same_len;
        none_freed = free_bits-le pidx turned;
        unmapped = λ i lt mapped.
            gone (subst (IsMapped s') {x = v + i * 4096} {y = v} (omega arith) mapped);
        frame = λ w pw out. same w pw (ground arith);
      },
    )
  where
    gone :
        {b : Bitmap}
        → ¬ IsMapped
            (record (write_cell s (pte_ptr v) (s.cells (pte_ptr v) - 1)) { phy_bitmap = b })
            v
    gone mapped = ground (arith, mapped.at_pte, m.at_pte)

    same :
        {b : Bitmap} (w : ℕ)
        → IsPlain w
        → page w ≢ page v
        → SameEntries s
            (record (write_cell s (pte_ptr v) (s.cells (pte_ptr v) - 1)) { phy_bitmap = b })
            w
    same w pw ne =
        let k = kept_pte v w plain pw s (s.cells (pte_ptr v) - 1) ne in
        record {
          at_pml4e = k.at_pml4e;
          at_pdpte = k.at_pdpte;
          at_pde = k.at_pde;
          at_pte = k.at_pte;
        }

-- Each of the `n` pages from `v` on is mapped to a page of the physical pool.
abbrev pub Backed : (n v : ℕ) → Memory → Type 0
Backed n v s = (i : ℕ) → i < n → IsMapped s (v + i * 4096) × InPool s (addr_v2p (v + i * 4096) s)

module _ (n v : ℕ) (s s1 : Memory) (first : Unmaps 1 v s s1)
    (low : page v + suc n ≤ 511 * 2 ^ 27) where
  later-Backed : Backed (suc n) v s → Backed n (v + 4096) s1
  unfolding addr_v2p
  later-Backed backed i lt =
      let w = v + 4096 + i * 4096 in
      let (m, there) =
        subst (λ x. IsMapped s x × InPool s (addr_v2p x s)) {x = v + suc i * 4096} {y = w}
          (omega arith) (backed (suc i) (omega arith)) in
      let same = first.frame w (omega arith) (inr (omega arith)) in
      let address : addr_v2p w s1 ≡ addr_v2p w s =
        ap (λ (c : ℕ). c / 4096 * 4096 + w % 4096) same.at_pte in
      (
        SameEntries-IsMapped w same m,
        record {
          low = omega (arith, there.low, address, first.same_start);
          high = omega (arith, there.high, address, first.same_start, first.same_len);
          word = omega (arith, there.word, address);
        },
      )

  extend : (s' : Memory) → Unmaps n (v + 4096) s1 s' → Unmaps (suc n) v s s'
  extend s' r = record {
    pool = r.pool;
    same_start = r.same_start ∙ first.same_start;
    same_len = r.same_len ∙ first.same_len;
    none_freed = omega (arith, r.none_freed, first.none_freed);
    unmapped = each;
    frame = λ w pw out.
        let one = first.frame w pw (nearer w out) in
        let more = r.frame w pw (further w out) in
        record {
          at_pml4e = more.at_pml4e ∙ one.at_pml4e;
          at_pdpte = more.at_pdpte ∙ one.at_pdpte;
          at_pde = more.at_pde ∙ one.at_pde;
          at_pte = more.at_pte ∙ one.at_pte;
        };
  }
    where
      nearer :
          (w : ℕ)
          → (page w < page v) ⊎ (page v + suc n ≤ page w)
          → (page w < page v) ⊎ (page v + 1 ≤ page w)
      nearer w (inl below) = inl below
      nearer w (inr above) = inr (omega arith)

      further :
          (w : ℕ)
          → (page w < page v) ⊎ (page v + suc n ≤ page w)
          → (page w < page (v + 4096)) ⊎ (page (v + 4096) + n ≤ page w)
      further w (inl below) = inl (omega arith)
      further w (inr above) = inr (omega arith)

      each : (i : ℕ) → i < suc n → ¬ IsMapped s' (v + i * 4096)
      each zero lt m =
          let here =
            SameEntries-back v (r.frame v (omega arith) (inl (omega arith)))
              (subst (IsMapped s') {x = v + 0 * 4096} {y = v} (omega arith) m) in
          first.unmapped 0 (omega arith)
            (subst (IsMapped s1) {x = v} {y = v + 0 * 4096} (omega arith) here)
      each (suc i) lt m =
          r.unmapped i (omega arith)
            (subst (IsMapped s') {x = v + suc i * 4096} {y = v + 4096 + i * 4096} (omega arith) m)

unmap_pages-Unmaps :
    (n v : ℕ) (s : Memory)
    → IsPool s
    → page v + n ≤ 511 * 2 ^ 27
    → Backed n v s
    → (s' : Memory) × (unmap_pages n v s ≡ ok s') × Unmaps n v s s'
unfolding unmap_pages
unmap_pages-Unmaps zero v s pool low backed = (
  s,
  refl,
  record {
    pool = pool;
    same_start = refl;
    same_len = refl;
    none_freed = omega arith;
    unmapped = λ i lt. absurd (omega arith);
    frame = λ w pw out. record { at_pml4e = refl; at_pdpte = refl; at_pde = refl; at_pte = refl };
  },
)
unmap_pages-Unmaps (suc n) v s pool low backed =
    let (m, there) =
      subst (λ x. IsMapped s x × InPool s (addr_v2p x s)) {x = v + 0 * 4096} {y = v} (omega arith)
        (backed 0 (omega arith)) in
    let (s1, run1, first) = unmap_page-Unmaps v s pool (omega arith) m there in
    let (s', run, r) =
      unmap_pages-Unmaps n (v + 4096) s1 first.pool (omega arith)
        (later-Backed n v s s1 first low backed) in
    (s', rw run1 run, extend n v s s1 first low s' r)

-- `free_pages` of a run of a virtual pool that is taken and whose pages are mapped into the physical
-- pool never fails. It gives the run back to the virtual pool and unmaps its pages, and leaves
-- other mappings as they were; but no physical page becomes free.
pub free_pages-Unmaps :
    (vp : Pool) (i cnt : ℕ) (s : Memory)
    → IsPool s
    → IsValid vp.pool_bitmap
    → vp.start % 4096 ≡ 0
    → i * 4096 + vp.start < 2 ^ 64
    → page (i * 4096 + vp.start) + cnt ≤ 511 * 2 ^ 27
    → i + cnt ≤ 8 * length vp.pool_bitmap.bits
    → Used vp.pool_bitmap i cnt
    → Backed cnt (i * 4096 + vp.start) s
    → (vp' : Pool) × (s' : Memory) × (free_pages vp (i * 4096 + vp.start) cnt s ≡ ok (vp', s'))
      × Turned false i cnt vp.pool_bitmap vp'.pool_bitmap
      × (vp'.start ≡ vp.start)
      × Unmaps cnt (i * 4096 + vp.start) s s'
unfolding free_pages
free_pages-Unmaps vp i cnt s pool valid al word low room used backed =
    let v = i * 4096 + vp.start in
    let (s', run, r) = unmap_pages-Unmaps cnt v s pool low backed in
    let (m, run', t) = bitmap_free-Turned vp.pool_bitmap i cnt valid room used in
    let index : (v + 2 ^ 64 - vp.start) % 2 ^ 64 / 4096 ≡ i = omega arith in
    (record vp { pool_bitmap = m }, s', rw (run, index, run') refl, t, refl, r)

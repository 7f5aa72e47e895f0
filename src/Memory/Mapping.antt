-- ===== src/Memory/Mapping.antt =====
-- `page_map`: the page that it maps, and the pages that were mapped before.
use recover_os.Prelude.{
  ℕ, ◌+◌, ◌-◌, ◌*◌, ◌/◌, ◌%◌, ◌≤◌, ◌≡◌, refl, ◌∙◌, ap, ◌≢◌, ◌⊎◌, inl, inr, true, false, arith, ok,
  ◌==◌, Bool-cases,
}
use recover_os.Bitmap.Count.{free_bits}
use recover_os.Memory.Tables.{
  pml4e_ptr, pdpte_ptr, pde_ptr, pte_ptr, fu, page, pml4e_ptr-page, pdpte_ptr-page, pde_ptr-page,
  pte_ptr-page,
}
use recover_os.Memory.{
  Memory, write_cell, present, addr_v2p, map_stat_from, map_stat, add_tables, page_map,
}
use recover_os.Memory.Steps.{
  IsPool, Took, IsMapped, IsPlain, SameEntries, SameEntries-IsMapped, SameEntries-back,
  SameEntries-trans, add_table-Added,
}
use recover_os.Memory.Kept.{apart, apart_pages, kept_pdpt, kept_pd, kept_pt, kept_pte}

pub Took-trans : {a b : ℕ} {s t u : Memory} → Took a s t → Took b t u → Took (a + b) s u
Took-trans f g = record { pool = g.pool; enough = omega (arith, f.enough, g.enough) }

-- The three tables of the address are there; `n` pages at most were taken for them, and what was
-- mapped or is mapped now, is mapped as it was.
record Ready (n v : ℕ) (s s' : Memory) : Type 0 where
  took : Took n s s'
  at_pml4e : present s' (pml4e_ptr v) ≡ true
  at_pdpte : present s' (pdpte_ptr v) ≡ true
  at_pde : present s' (pde_ptr v) ≡ true
  frame : (w : ℕ) → IsPlain w → IsMapped s w ⊎ IsMapped s' w → SameEntries s s' w

still : (s s' : Memory) (a : ℕ) → s'.cells a ≡ s.cells a → present s a ≡ true → present s' a ≡ true
still s s' a same there = ap (λ c. c % 2 == 1) same ∙ there

both :
    (s t u : Memory) (w : ℕ)
    → (IsMapped s w ⊎ IsMapped t w → SameEntries s t w)
    → (IsMapped t w ⊎ IsMapped u w → SameEntries t u w)
    → IsMapped s w ⊎ IsMapped u w
    → SameEntries s u w
both s t u w f g (inl m) =
    let here = f (inl m) in SameEntries-trans w here (g (inl (SameEntries-IsMapped w here m)))
both s t u w f g (inr m) =
    let there = g (inr m) in SameEntries-trans w (f (inr (SameEntries-back w there m))) there

module _ (v : ℕ) (plain : IsPlain v) where
  distinct_pages :
      (fu 0 v / 4096 ≢ fu 1 v / 4096)
      × (fu 1 v / 4096 ≢ fu 2 v / 4096)
      × (fu 2 v / 4096 ≢ fu 3 v / 4096)
  unfolding fu
  distinct_pages = omega (arith, pml4e_ptr-page v, pdpte_ptr-page v, pde_ptr-page v, pte_ptr-page v)

  from_pde :
      (s : Memory)
      → IsPool s
      → 1 ≤ free_bits s.phy_bitmap
      → present s (pml4e_ptr v) ≡ true
      → present s (pdpte_ptr v) ≡ true
      → present s (pde_ptr v) ≡ false
      → (s' : Memory) × (add_tables 1 2 v s ≡ ok s') × Ready 1 v s s'
  unfolding add_tables fu
  from_pde s pool left p0 p1 p2 =
      let (s', run, a) = add_table-Added 2 v s pool left distinct_pages.2 in
      (
        s',
        rw run refl,
        record {
          took = a.took;
          at_pml4e =
              still s s' (pml4e_ptr v)
                (a.kept (pml4e_ptr v) (apart v v plain plain).6 (apart_pages v v plain plain).6) p0;
          at_pdpte =
              still s s' (pdpte_ptr v)
                (a.kept (pdpte_ptr v) (apart v v plain plain).7 (apart_pages v v plain plain).7) p1;
          at_pde = a.entry;
          frame = λ w pw m. kept_pt v w plain pw a p2 m;
        },
      )

  from_pdpte :
      (s : Memory)
      → IsPool s
      → 2 ≤ free_bits s.phy_bitmap
      → present s (pml4e_ptr v) ≡ true
      → present s (pdpte_ptr v) ≡ false
      → (s' : Memory) × (add_tables 2 1 v s ≡ ok s') × Ready 2 v s s'
  unfolding add_tables fu
  from_pdpte s pool left p0 p1 =
      let (s1, run, a) = add_table-Added 1 v s pool (omega arith) distinct_pages.1 in
      let first =
        still s s1 (pml4e_ptr v)
          (a.kept (pml4e_ptr v) (apart v v plain plain).3 (apart_pages v v plain plain).3) p0 in
      let (s', run', r) =
        from_pde s1 a.took.pool (omega (arith, a.took.enough)) first a.entry (a.fresh _ refl) in
      (
        s',
        rw run run',
        record {
          took = Took-trans a.took r.took;
          at_pml4e = r.at_pml4e;
          at_pdpte = r.at_pdpte;
          at_pde = r.at_pde;
          frame = λ w pw. both s s1 s' w (kept_pd v w plain pw a p1) (r.frame w pw);
        },
      )

  from_pml4e :
      (s : Memory)
      → IsPool s
      → 3 ≤ free_bits s.phy_bitmap
      → present s (pml4e_ptr v) ≡ false
      → (s' : Memory) × (add_tables 3 0 v s ≡ ok s') × Ready 3 v s s'
  unfolding add_tables fu
  from_pml4e s pool left p0 =
      let (s1, run, a) = add_table-Added 0 v s pool (omega arith) distinct_pages.0 in
      let (s', run', r) =
        from_pdpte s1 a.took.pool (omega (arith, a.took.enough)) a.entry (a.fresh _ refl) in
      (
        s',
        rw run run',
        record {
          took = Took-trans a.took r.took;
          at_pml4e = r.at_pml4e;
          at_pdpte = r.at_pdpte;
          at_pde = r.at_pde;
          frame = λ w pw. both s s1 s' w (kept_pdpt v w plain pw a p0) (r.frame w pw);
        },
      )

  standing :
      (s : Memory)
      → IsPool s
      → present s (pml4e_ptr v) ≡ true
      → present s (pdpte_ptr v) ≡ true
      → present s (pde_ptr v) ≡ true
      → Ready 3 v s s
  standing s pool p0 p1 p2 = record {
    took = record { pool = pool; enough = omega arith };
    at_pml4e = p0;
    at_pdpte = p1;
    at_pde = p2;
    frame = λ w pw m. record { at_pml4e = refl; at_pdpte = refl; at_pde = refl; at_pte = refl };
  }

  tables-Ready :
      (s : Memory)
      → IsPool s
      → 3 ≤ free_bits s.phy_bitmap
      → map_stat v s ≢ 4
      → (map_stat v s == 4 ≡ false)
        × ((s' : Memory) × (add_tables (3 - map_stat v s) (map_stat v s) v s ≡ ok s')
            × Ready 3 v s s')
  unfolding map_stat map_stat_from fu add_tables
  tables-Ready s pool left ne = elim (Bool-cases (present s (pml4e_ptr v))) [
    | inr p0 ↦ rw p0 (refl, from_pml4e s pool left p0)
    | inl p0 ↦ elim (Bool-cases (present s (pdpte_ptr v))) [
      | inr p1 ↦
          let (s', run, r) = from_pdpte s pool (omega arith) p0 p1 in
          rw (p0, p1) (refl, (s', run, fewer 2 s s' (omega arith) r))
      | inl p1 ↦ elim (Bool-cases (present s (pde_ptr v))) [
        | inr p2 ↦
            let (s', run, r) = from_pde s pool (omega arith) p0 p1 p2 in
            rw (p0, p1, p2) (refl, (s', run, fewer 1 s s' (omega arith) r))
        | inl p2 ↦ elim (Bool-cases (present s (pte_ptr v))) [
          | inr p3 ↦ rw (p0, p1, p2, p3) (refl, (s, refl, standing s pool p0 p1 p2))
          | inl p3 ↦ absurd (ground arith)
        ]
      ]
    ]
  ]
    where
      fewer : (n : ℕ) (s s' : Memory) → n ≤ 3 → Ready n v s s' → Ready 3 v s s'
      fewer n s s' le r = record {
        took = record { pool = r.took.pool; enough = omega (arith, r.took.enough) };
        at_pml4e = r.at_pml4e;
        at_pdpte = r.at_pdpte;
        at_pde = r.at_pde;
        frame = r.frame;
      }

-- The page of `v` is mapped to `paddr`, three pages at most were taken for its tables, pages that
-- were mapped still are, to the same addresses, and no other page became mapped.
pub record Maps (v paddr : ℕ) (s s' : Memory) : Type 0 where
  pub took : Took 3 s s'
  pub mapped : IsMapped s' v
  pub address : addr_v2p v s' ≡ paddr + v % 4096
  pub frame :
      (w : ℕ)
      → IsPlain w
      → page w ≢ page v
      → IsMapped s w
      → IsMapped s' w × (addr_v2p w s' ≡ addr_v2p w s)
  pub only : (w : ℕ) → IsPlain w → page w ≢ page v → IsMapped s' w → IsMapped s w

-- `page_map` of an address outside the tables' own that is not mapped, to the address of a physical
-- page, with three physical pages left, never fails. It maps the page to that address, takes three
-- pages at most, leaves every other mapped page as it was and maps no other.
pub page_map-Maps :
    (v paddr : ℕ) (s : Memory)
    → IsPlain v
    → IsPool s
    → 3 ≤ free_bits s.phy_bitmap
    → map_stat v s ≢ 4
    → paddr % 4096 ≡ 0
    → (s' : Memory) × (page_map v paddr s ≡ ok s') × Maps v paddr s s'
unfolding page_map addr_v2p fu
page_map-Maps v paddr s plain pool left free al =
    let (stat, (s1, run, r)) = tables-Ready v plain s pool left free in
    let s' = write_cell s1 (pte_ptr v) (paddr + 7) in
    let other =
      λ (w : ℕ) (pw : IsPlain w) (ne : page w ≢ page v). kept_pte v w plain pw s1 (paddr + 7) ne in
    (
      s',
      rw (stat, run),
      record {
        took = record {
          pool = record {
            bits = r.took.pool.bits;
            aligned = r.took.pool.aligned;
            not_null = r.took.pool.not_null;
          };
          enough = r.took.enough;
        };
        mapped = record {
          at_pml4e = ground (arith, (apart v v plain plain).9, r.at_pml4e);
          at_pdpte = ground (arith, (apart v v plain plain).10, r.at_pdpte);
          at_pde = ground (arith, (apart v v plain plain).11, r.at_pde);
          at_pte = ground arith;
        };
        address = ground arith;
        frame = λ w pw ne m.
            let same = SameEntries-trans w (r.frame w pw (inl m)) (other w pw ne) in
            (SameEntries-IsMapped w same m, ap (λ (c : ℕ). c / 4096 * 4096 + w % 4096) same.at_pte);
        only = λ w pw ne m.
            let m1 = SameEntries-back w (other w pw ne) m in
            SameEntries-back w (r.frame w pw (inr m1)) m1;
      },
    )

pub map_stat-IsMapped : (v : ℕ) (s : Memory) → map_stat v s ≡ 4 → IsMapped s v
unfolding map_stat map_stat_from fu
map_stat-IsMapped v s all = record {
  at_pml4e = ground arith;
  at_pdpte = ground arith;
  at_pde = ground arith;
  at_pte = ground arith;
}

pub IsMapped-map_stat : (v : ℕ) (s : Memory) → IsMapped s v → map_stat v s ≡ 4
unfolding map_stat map_stat_from fu
IsMapped-map_stat v s m = rw (m.at_pml4e, m.at_pdpte, m.at_pde, m.at_pte)
